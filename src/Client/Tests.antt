-- ===== src/Client/Tests.antt =====
-- The client's decisions at concrete inputs.
use rocketbot.GoMap.{lookup, insert}
use rocketbot.Message.{Message}
use rocketbot.Text.{trim_left, trim_func, trim_space, in_set, to_lower, has_prefix, fields}
use rocketbot.Client.{RoomPolicy, ResolvedPolicy, Client}
use rocketbot.Client.Mention.{text_mentions_username, strip_loop, strip_leading_username_mention}
use rocketbot.Client.Policy.{
  normalize_active_thread_trigger, base_policy, overridden, room_policy, resolve_policy, IsNormal,
  Resolves, resolve_policy-Resolves,
}
use rocketbot.Client.Missed.{
  collect_from, collect_missed_thread_messages, IsUnseen, DistinctIds, distinct, after, not_by,
  collect_missed_lem, collect_missed-IsUnseen, synthesize_missed_thread_messages_prompt,
}
use rocketbot.Text.Escape.{drop_bytes}
use rocketbot.Prelude.{All, String, ◌≡◌, refl, inl, true, false, none, some, List, [], ◌∷◌}

abbrev from : String → String → String → Message
from id user text = record {
  id = id;
  text = text;
  room_id = "r";
  thread_id = "t";
  preformatted_prompt = false;
  timestamp = none;
  user = record { id = user; username = user; name = "" };
}

abbrev thread : List Message
thread =
    from "1" "ann" "a"
    ∷ from "2" "bot" "b"
    ∷ from "2" "bot" "b"
    ∷ from "" "ann" "x"
    ∷ from "3" "bob" "c"
    ∷ from "4" "bot" "d"
    ∷ []

collects : collect_missed_thread_messages thread "2" "bot" ≡ from "3" "bob" "c" ∷ []
unfolding collect_missed_thread_messages collect_from lookup insert
collects = refl

prompts :
    synthesize_missed_thread_messages_prompt (from "3" "bob" " c " ∷ [])
    ≡ "Thread context since your last response:\n\n- bob: c\n"
unfolding synthesize_missed_thread_messages_prompt trim_space
prompts = refl

strips : strip_leading_username_mention "  @Bob: @bob, hello @bob " " BOB" ≡ "hello @bob"
unfolding strip_leading_username_mention strip_loop trim_space to_lower trim_left in_set has_prefix
    drop_bytes
strips = refl

-- The Kelvin sign has three bytes and lowers to a letter of one, so the cut leaves two bytes of it.
cuts_inside : strip_leading_username_mention "@K hello" "k" ≡ "�� hello"
unfolding strip_leading_username_mention strip_loop trim_space to_lower trim_left in_set has_prefix
    drop_bytes
cuts_inside = refl

mentions : text_mentions_username "hey (@Bob), there" "bob" ≡ true
unfolding text_mentions_username trim_space to_lower fields trim_func in_set
mentions = refl

collect_missed_lem_example :
    collect_missed_thread_messages thread "2" "bot" ≡ not_by "bot" (after "2" (distinct [] thread))
collect_missed_lem_example = collect_missed_lem thread "2" "bot"

collect_missed-IsUnseen_example :
    All (IsUnseen "2" "bot") (collect_missed_thread_messages thread "2" "bot")
    × DistinctIds (collect_missed_thread_messages thread "2" "bot")
collect_missed-IsUnseen_example = collect_missed-IsUnseen thread "2" "bot"

abbrev ops : RoomPolicy
ops = record {
  enabled = true;
  opencode_session_dir = "";
  bootstrap_prompt = "";
  render_mode = "Concise";
  active_thread_trigger = "MENTION_ONLY";
  thread_default = some true;
  streamed_output = none;
}

abbrev client : Client
client = record {
  user_id = "bot";
  username = "bob";
  streamed_output = true;
  render_mode = "detailed";
  thread_default = false;
  active_thread_trigger = "auto";
  bootstrap_prompt = "Be brief.";
  room_policies = ("r", ops) ∷ [];
  rooms = ("r", true) ∷ ("d", true) ∷ [];
  dm_rooms = ("d", true) ∷ [];
  active_room_threads = [];
}

abbrev ops_policy : ResolvedPolicy
ops_policy = record {
  scope = "room";
  room_id = "r";
  session_dir = "";
  bootstrap_prompt = "Be brief.";
  render_mode = "concise";
  active_thread_trigger = "mention_only";
  thread_default = true;
  streamed_output = true;
}

resolves : resolve_policy client "r" ≡ some ops_policy
unfolding resolve_policy room_policy overridden base_policy lookup normalize_active_thread_trigger
    rocketbot.Renderer.normalize_render_mode trim_space to_lower
resolves = refl

client-IsNormal : IsNormal client
client-IsNormal = record { trigger = inl refl; mode = inl refl }

resolve_policy-Resolves_example : Resolves client "r" ops_policy
resolve_policy-Resolves_example =
    resolve_policy-Resolves client "r" ops_policy client-IsNormal resolves
