-- ===== src/OpenCode/Prompt/Tests.antt =====
-- The key of a message in a thread.
use rocketbot.Message.{Message}
use rocketbot.OpenCode.Prompt.{conversation_key}
use rocketbot.OpenCode.Prompt.Keys.{HasNoColon, conversation_key-apart}
use rocketbot.Prelude.{String, ◌≡◌, refl, false, none, arith}

abbrev in_thread_of : String → Message
in_thread_of id = record {
  id = id;
  text = "";
  room_id = "r1";
  thread_id = "t1";
  preformatted_prompt = false;
  timestamp = none;
  user = record { id = ""; username = ""; name = "" };
}

room-HasNoColon : HasNoColon "r1"
room-HasNoColon = ((λ e. omega (arith, e)), ((λ e. omega (arith, e)), tt))

same_key : conversation_key (in_thread_of "m1") ≡ conversation_key (in_thread_of "m2")
unfolding conversation_key
same_key = refl

conversation_key-apart_example :
    ((in_thread_of "m1").room_id ≡ (in_thread_of "m2").room_id)
    × ((in_thread_of "m1").thread_id ≡ (in_thread_of "m2").thread_id)
conversation_key-apart_example =
    conversation_key-apart (in_thread_of "m1") (in_thread_of "m2") room-HasNoColon room-HasNoColon
      same_key
