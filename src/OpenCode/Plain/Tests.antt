-- ===== src/OpenCode/Plain/Tests.antt =====
-- An answer in one part: a delta, then the whole text.
use rocketbot.GoMap.{lookup, insert}
use rocketbot.Text.{cut_prefix, has_prefix, trim_prefix}
use rocketbot.Message.{text_delta, text_set, done, RenderEvent, event_of}
use rocketbot.OpenCode.Backend.{gives}
use rocketbot.OpenCode.Stream.{text_at}
use rocketbot.OpenCode.Plain.{chunk_of, chunks, generate_response}
use rocketbot.OpenCode.Replay.{replay}
use rocketbot.OpenCode.Plain.Whole.{Extends, generate_response-replay}
use rocketbot.Prelude.{◌≡◌, refl, List, [], ◌∷◌}

abbrev two_steps : List RenderEvent
two_steps =
    record (event_of text_delta) { part_id = "p"; text = "ab" }
    ∷ record (event_of text_set) { part_id = "p"; text = "abc" }
    ∷ event_of done
    ∷ []

two_steps-Extends : Extends "p" [] two_steps
unfolding lookup insert has_prefix cut_prefix
two_steps-Extends = (refl, ((refl, refl), (tt, tt)))

generate_response-replay_example :
    generate_response [] (gives two_steps) ≡ gives (text_at (replay [] two_steps) "p")
generate_response-replay_example = generate_response-replay "p" two_steps two_steps-Extends

chunks_of_two : chunks [] [] two_steps ≡ "ab" ∷ "c" ∷ []
unfolding chunks chunk_of lookup insert has_prefix cut_prefix trim_prefix
chunks_of_two = refl
