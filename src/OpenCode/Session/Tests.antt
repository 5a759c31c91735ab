-- ===== src/OpenCode/Session/Tests.antt =====
-- Runs of GenerateRenderStream against two servers.
use rocketbot.OpenCode.Event.{as_map}
use rocketbot.Json.{end, field, Value, str, obj, get, struct_string}
use rocketbot.Message.{Message, GenerationOptions}
use rocketbot.OpenCode.Backend.{
  Generator, Call, Answer, no_answer, answer, Entry, Backend, exchange_call, http_error, Attempt,
  gives, fails, session_dir_for, open_call, mentions_stale, is_stale_session_prompt_error, accepted,
  created_id, created, create_call, create_session, open_event_stream, prompt_call, prompt_async,
}
use rocketbot.OpenCode.Conversation.{
  Conversation, set_session_id, clear_session_id_if_match, set_active_cancel, clear_active_cancel,
}
use rocketbot.OpenCode.Session.{
  GenState, Timing, unlock_conv, end_stream, lock_conv, retried, keep_session, after_prompt,
  after_open, post_prompt_with_stream, retry_in, retry, after_first, generate_in,
  generate_render_stream,
}
use rocketbot.OpenCode.Session.Lock.{Unlocked}
use rocketbot.OpenCode.Session.Retry.{Frees, generate-Frees, generate-Unlocked}
use rocketbot.OpenCode.Session.Kept.{Keeps, generate-Keeps}
use rocketbot.Prelude.{
  eq_iff, if◌then◌else◌, ℕ, String, ◌≡◌, refl, true, false, Option, none, some, List, [], arith,
  ◌==◌, eq_iff,
}
use rocketbot.OpenCode.Prompt.{
  title_for_message, history_lines, history_part, message_part, build_prompt,
}

abbrev decode_one : String → Option Value
decode_one text = some (obj (field "id" (str text) end))

abbrev local_server : Generator
local_server = record {
  base_url = "http://localhost";
  auth = "";
  session_dir = "";
  permission_mode = "allow";
}

abbrev room_options : GenerationOptions
room_options = record {
  scope = "";
  room_id = "r";
  session_dir = "/work";
  bootstrap_prompt = "Be kind.";
}

abbrev greeting : Message
greeting = record {
  id = "m1";
  text = "hello";
  room_id = "r";
  thread_id = "";
  preformatted_prompt = false;
  timestamp = none;
  user = record { id = "u1"; username = "ann"; name = "" };
}

abbrev steady : Timing
steady = record { closes_early = false; ends_in_time = true }

-- Every request is answered; a session that is created is s2. The session s1 is not known.
abbrev forgetful : List Entry → Call → Answer
forgetful log c =
    if c.url == "http://localhost/session/s1/prompt_async" then answer 404 "" else answer 200 "s2"

abbrev forgetful_backend : Backend
forgetful_backend = record { server = forgetful; locked = false; log = [] }

abbrev kept_conversation : Conversation String
kept_conversation = record { session_id = "s1"; active_cancel = none; active_cancel_n = 0 }

abbrev first_try : Attempt ℕ × GenState
first_try =
    post_prompt_with_stream decode_one local_server room_options steady "s1"
      (build_prompt room_options greeting [] false) (lock_conv forgetful_backend kept_conversation)

abbrev down_backend : Backend
down_backend = record { server = λ log c. no_answer; locked = false; log = [] }

abbrev run_on : Backend → Attempt ℕ × GenState
run_on b =
    generate_render_stream decode_one local_server room_options steady steady greeting [] b
      kept_conversation

retried_run : (run_on forgetful_backend).0 ≡ gives 2
unfolding generate_render_stream generate_in after_first post_prompt_with_stream after_open
    open_event_stream accepted exchange_call open_call after_prompt prompt_async prompt_call
    is_stale_session_prompt_error retry retry_in create_session created end_stream get struct_string
    create_call created_id mentions_stale session_dir_for clear_active_cancel
    clear_session_id_if_match set_active_cancel set_session_id build_prompt history_lines
    history_part message_part title_for_message keep_session retried unlock_conv as_map
retried_run = refl

generate-Frees_example : Frees (run_on down_backend)
generate-Frees_example =
    generate-Frees decode_one local_server room_options steady steady greeting [] down_backend
      kept_conversation

generate-Keeps_example : Keeps decode_one local_server room_options (run_on forgetful_backend)
generate-Keeps_example =
    generate-Keeps decode_one local_server room_options steady steady greeting [] forgetful_backend
      kept_conversation

first_refused : first_try ≡ (fails (http_error "prompt_async" 404 ""), first_try.1)
unfolding generate_render_stream generate_in after_first post_prompt_with_stream after_open
    open_event_stream accepted exchange_call open_call after_prompt prompt_async prompt_call
    is_stale_session_prompt_error retry retry_in create_session created end_stream get struct_string
    create_call created_id mentions_stale session_dir_for clear_active_cancel
    clear_session_id_if_match set_active_cancel set_session_id build_prompt history_lines
    history_part message_part title_for_message keep_session retried unlock_conv as_map
first_refused = refl

stale_404 : is_stale_session_prompt_error (http_error "prompt_async" 404 "") ≡ true
unfolding is_stale_session_prompt_error
stale_404 = refl

generate-Unlocked_example :
    (first_try.1.backend.locked ≡ false)
    × Unlocked
        (exchange_call
          (create_call decode_one local_server room_options (title_for_message "hello"))
          first_try.1.backend).1
        (run_on forgetful_backend).1.backend
generate-Unlocked_example =
    generate-Unlocked decode_one local_server room_options steady steady greeting []
      forgetful_backend kept_conversation (http_error "prompt_async" 404 "") first_try.1
      (λ e. ground (arith, eq_iff "s1" "", e)) first_refused stale_404
