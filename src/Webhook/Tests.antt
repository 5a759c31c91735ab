-- ===== src/Webhook/Tests.antt =====
-- A stream of four lines, one of them blank.
use rocketbot.Json.{Value, obj, get}
use rocketbot.OpenCode.Event.{as_map}
use rocketbot.Text.{trim_space}
use rocketbot.Webhook.{
  Pass, replied, streams, join_chunks, data_of, parse_from, streamed, generate_webhook,
}
use rocketbot.Webhook.Chunks.{said_in, generate_webhook-said}
use rocketbot.Webhook.RoundTrip.{
  chunk_events, whole, fields_of, undisturbed, written, parse_from-written,
}
use rocketbot.Prelude.{
  if◌then◌else◌, String, ◌&◌, ◌≡◌, refl, ◌≢◌, false, Option, none, some, List, [], ◌∷◌, ◌++◌, arith,
  ◌==◌, eq_iff,
}

abbrev written_as : String → String → String
written_as type content = type & ":" & content

-- The lines of this stream.
abbrev read_line : String → Option Value
read_line line =
    if line == "begin:"
    then some (obj (fields_of "begin" ""))
    else if line == "item:hello "
    then some (obj (fields_of "item" "hello "))
    else if line == "item:you"
    then some (obj (fields_of "item" "you"))
    else if line == "end:"
    then some (obj (fields_of "end" ""))
    else none

abbrev greeting : List String
greeting = "hello " ∷ "you" ∷ []

abbrev with_blank : List Pass
with_blank = undisturbed " " ∷ written read_line written_as greeting

generate_webhook-said_example :
    generate_webhook (streamed read_line [] (replied 200 with_blank))
    ≡ streams (said_in read_line with_blank)
generate_webhook-said_example =
    generate_webhook-said read_line with_blank
      ((refl, refl), ((refl, refl), ((refl, refl), ((refl, refl), ((refl, refl), tt)))))

said_hello : said_in read_line with_blank ≡ "hello you"
unfolding data_of trim_space get as_map
said_hello = refl

named : (s : String) → s == "" ≡ false → s ≢ ""
named s h e = absurd (ground (arith, eq_iff s "", e))

parse_from-written_example :
    parse_from read_line "before" (written read_line written_as greeting)
    ≡ chunk_events greeting ++ whole "hello you" ∷ []
unfolding trim_space join_chunks
parse_from-written_example =
    parse_from-written read_line written_as greeting "before"
      (named (trim_space "begin:") refl, refl)
      (
        (named "hello " refl, (named (trim_space "item:hello ") refl, refl)),
        ((named "you" refl, (named (trim_space "item:you") refl, refl)), tt),
      )
      (named (trim_space "end:") refl, refl) (named (join_chunks greeting) refl)
