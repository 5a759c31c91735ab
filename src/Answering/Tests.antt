-- ===== src/Answering/Tests.antt =====
-- A room whose server acknowledges every request.
use rocketbot.Json.{end, field, str, bool, obj, get, struct_string, struct_obj, struct_bool}
use rocketbot.Message.{Message, text_delta, event_of}
use rocketbot.Text.{
  trim_space, to_lower, cut_prefix, has_prefix, cut_suffix, has_suffix, trim_suffix, contains, itoa,
}
use rocketbot.Http.{Request, Reply, answered, World, exchange}
use rocketbot.Api.{
  ApiClient, posted_id, posted, post_request, post_message, updated, update_request, update_message,
}
use rocketbot.Renderer.{normalize_render_mode, new_renderer, apply_as, tool_lines, header, render}
use rocketbot.Answering.{returned, seconds, notice_text, notice_due, should_create_thread, Shows}
use rocketbot.Answering.Rendering.{
  render_has_placeholder, render_replace_placeholder, RenderInput, event, closed, flush_due,
  current_text, flushed, send_flush, flush, progressed, render_loop, start_loop, after_post,
  handle_render_streaming_response,
}
use rocketbot.Answering.Rendering.Returns.{ends as render_ends, ticks}
use rocketbot.Answering.Rendering.Whole.{
  Delivered, handled, handle_render-Delivered, handle_render-Returns, handle_render-log,
}
use rocketbot.Answering.Streaming.{
  after_update, respond_once, handle_non_streaming_response, StreamInput, chunk, on_tick, finish,
  stream_loop, stream_after_post, handle_streaming_response,
}
use rocketbot.Answering.Streaming.Shown.{chunks, ends}
use rocketbot.Answering.Streaming.Whole.{
  streamed, handle_streaming-Shows, handle_streaming-Returns, handle_non_streaming-Shows,
}
use rocketbot.Prelude.{
  length, ℕ, ◌+◌, ◌≤◌, String, ◌≡◌, refl, ◌≢◌, Bool, true, false, none, some, List, [], ◌∷◌,
}

abbrev bot : ApiClient
bot = record { base_url = "http://chat"; user_id = "u1"; token = "tok" }

abbrev question : Message
question = record {
  id = "Q";
  text = "hi";
  room_id = "R";
  thread_id = "";
  preformatted_prompt = false;
  timestamp = none;
  user = record { id = "u2"; username = "ada"; name = "Ada" };
}

abbrev acknowledges : List Request → Request → Reply
acknowledges past req = answered 200 (
    some
      (obj (field "success" (bool true) (field "message" (obj (field "_id" (str "M1") end)) end))))

abbrev start : World
start = record { server = acknowledges; log = [] }

abbrev after : String → World
after text = record {
  server = acknowledges;
  log = post_request bot "R" "..." "" ∷ update_request bot "R" "M1" text ∷ [];
}

abbrev stream : List (ℕ × RenderInput)
stream =
    (seconds 1, event (record (event_of text_delta) { text = "Hi " }))
    ∷ (seconds 2, event (record (event_of text_delta) { text = "Ada" }))
    ∷ (seconds 3, closed)
    ∷ []

renders :
    handle_render_streaming_response bot question "detailed" false true 0 stream start
    ≡ (returned true, after "Hi Ada")
unfolding handle_render_streaming_response after_post render_loop flush send_flush flushed
    start_loop new_renderer normalize_render_mode progressed apply_as render header tool_lines
    current_text flush_due render_has_placeholder notice_due trim_space has_suffix cut_suffix
    should_create_thread contains has_prefix cut_prefix post_message exchange posted posted_id
    struct_obj struct_bool struct_string get update_message updated to_lower
renders = refl

-- A stream that closes without a text when a notice is due leaves the notice as the answer.
abbrev silence : List (ℕ × RenderInput)
silence = (seconds 12, closed) ∷ []

leaves_notice :
    handle_render_streaming_response bot question "detailed" false true 0 silence start
    ≡ (returned true, after "_Still working... (12s)_")
unfolding handle_render_streaming_response after_post render_loop flush send_flush flushed
    start_loop new_renderer normalize_render_mode progressed apply_as render header tool_lines
    current_text flush_due render_has_placeholder notice_due trim_space has_suffix cut_suffix
    should_create_thread contains has_prefix cut_prefix post_message exchange posted posted_id
    struct_obj struct_bool struct_string get update_message updated to_lower
    render_replace_placeholder trim_suffix notice_text itoa
leaves_notice = refl

abbrev words : List (ℕ × StreamInput)
words = (seconds 1, chunk "Hi ") ∷ (seconds 1, chunk "Ada") ∷ (seconds 2, StreamInput.closed) ∷ []

streams :
    handle_streaming_response bot question false true 0 words start
    ≡ (returned true, after "Hi Ada")
unfolding handle_streaming_response stream_after_post stream_loop on_tick finish after_update
    should_create_thread contains has_prefix cut_prefix post_message exchange posted posted_id
    struct_obj struct_bool struct_string get update_message updated
streams = refl

answers_once : (handle_non_streaming_response bot question false (some "Hi Ada") start).0 ≡ true
unfolding handle_non_streaming_response respond_once after_update should_create_thread contains
    has_prefix cut_prefix post_message exchange posted posted_id struct_obj struct_bool
    struct_string get update_message updated
answers_once = refl

handle_render-Delivered_example : Delivered bot "R" "detailed" stream (after "Hi Ada")
handle_render-Delivered_example =
    handle_render-Delivered bot question "detailed" false true 0 stream start (after "Hi Ada")
      renders

stream_closes : render_ends stream ≡ true
unfolding render_ends
stream_closes = refl

handle_render-Returns_example :
    (b : Bool) × ((handled bot question "detailed" false true 0 stream start).0 ≡ returned b)
handle_render-Returns_example =
    handle_render-Returns bot question "detailed" false true 0 stream start stream_closes

handle_render-log_example :
    length (handled bot question "detailed" false true 0 stream start).1.log
    ≤ length start.log + ticks stream + 2
handle_render-log_example = handle_render-log bot question "detailed" false true 0 stream start

handle_streaming-Shows_example :
    (id : String) × (chunks words ≢ "") × Shows bot "R" id (chunks words) (after "Hi Ada")
handle_streaming-Shows_example =
    handle_streaming-Shows bot question false true 0 words start (after "Hi Ada") streams

words_close : ends words ≡ true
unfolding ends
words_close = refl

handle_streaming-Returns_example :
    (b : Bool) × ((streamed bot question false true 0 words start).0 ≡ returned b)
handle_streaming-Returns_example =
    handle_streaming-Returns bot question false true 0 words start words_close

handle_non_streaming-Shows_example :
    (id text : String) × (some "Hi Ada" ≡ some text)
    × Shows bot "R" id text
        (handle_non_streaming_response bot question false (some "Hi Ada") start).1
handle_non_streaming-Shows_example =
    handle_non_streaming-Shows bot question false (some "Hi Ada") start answers_once
