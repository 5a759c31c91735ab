-- ===== src/Webhook/RoundTrip.antt =====
-- A message that is written as the lines of n8n is parsed as its chunks and the whole.
use text.Mathlib.TextLemmas.{nil-append}
use rocketbot.Json.{Fields, end, field, Value, str, obj, get}
use rocketbot.Text.{trim_space}
use rocketbot.OpenCode.Event.{as_map}
use rocketbot.Webhook.{
  message_chunk, message, StreamEvent, Pass, on_line, on_data, join_chunks, sent_before, data_of,
  parse_from,
}
use rocketbot.Prelude.{
  All, String, ◌&◌, ◌≡◌, refl, sym, ap, ◌∙◌, ◌≢◌, true, false, Option, some, List, [], ◌∷◌, ◌++◌,
  arith, ◌==◌, eq_iff, text_append-nil, text_append_assoc,
}

abbrev pub chunk_event : String → StreamEvent
chunk_event c = record { type = message_chunk; content = c }

abbrev pub chunk_events : List String → List StreamEvent
chunk_events [] = []
chunk_events (c ∷ cs) = chunk_event c ∷ chunk_events cs

abbrev pub whole : String → StreamEvent
whole s = record { type = message; content = s }

abbrev pub fields_of : String → String → Fields
fields_of type content = field "type" (str type) (field "content" (str content) end)

abbrev pub undisturbed : String → Pass
undisturbed line = record { line = line; is_done = false; is_taken = true }

module _ (decode : String → Option Value) (line_of : String → String → String) where
  -- The lines of a message, one for each chunk.
  abbrev item_passes : List String → List Pass → List Pass
  item_passes [] after = after
  item_passes (c ∷ cs) after = undisturbed (line_of "item" c) ∷ item_passes cs after

  abbrev pub written : List String → List Pass
  written cs =
      undisturbed (line_of "begin" "") ∷ item_passes cs (undisturbed (line_of "end" "") ∷ [])

  -- A line is not blank, and is decoded as what it was written of.
  abbrev pub IsFaithful : String → String → Type 0
  IsFaithful type content =
      (trim_space (line_of type content) ≢ "")
      × (decode (line_of type content) ≡ some (obj (fields_of type content)))

  data_of-line :
      (type content : String)
      → IsFaithful type content
      → data_of decode (line_of type content) ≡ some (fields_of type content)
  unfolding data_of as_map
  data_of-line type content (n, d) =
      let named : trim_space (line_of type content) == "" ≡ false =
        ground (arith, eq_iff (trim_space (line_of type content)) "", n) in
      rw (named, d, data_of) refl

  items-parsed :
      (cs : List String) (full : String)
      → All (λ c. (c ≢ "") × IsFaithful "item" c) cs
      → IsFaithful "end" ""
      → full & join_chunks cs ≢ ""
      → parse_from decode full (item_passes cs (undisturbed (line_of "end" "") ∷ []))
        ≡ chunk_events cs ++ whole (full & join_chunks cs) ∷ []
  unfolding parse_from on_data on_line sent_before join_chunks get
  items-parsed [] full a e n =
      let last : full == "" ≡ false = ground (arith, eq_iff full "", n, text_append-nil full) in
      rw (data_of-line "end" "" e, text_append-nil full, last) refl
  items-parsed (c ∷ cs) full ((m, f), a) e n =
      let given : c == "" ≡ false = ground (arith, eq_iff c "", m) in
      rw (data_of-line "item" c f, given)
        (let q = text_append_assoc full c (join_chunks cs) in
          ap (λ l. chunk_event c ∷ l)
            (items-parsed cs (full & c) a e (λ h. n (sym q ∙ h))
              ∙ ap (λ s. chunk_events cs ++ whole s ∷ []) q))

  -- A message that is written as a begin line, an item line for each of its nonempty chunks and an end
  -- line is parsed, whatever was accumulated before it, as these chunks in their order and then the
  -- whole message, which is the chunks joined.
  pub parse_from-written :
      (cs : List String) (full : String)
      → IsFaithful "begin" ""
      → All (λ c. (c ≢ "") × IsFaithful "item" c) cs
      → IsFaithful "end" ""
      → join_chunks cs ≢ ""
      → parse_from decode full (written cs) ≡ chunk_events cs ++ whole (join_chunks cs) ∷ []
  unfolding parse_from on_data on_line sent_before get
  parse_from-written cs full b a e n =
      let q = nil-append (join_chunks cs) in
      rw (data_of-line "begin" "" b)
        (items-parsed cs "" a e (λ h. n (sym q ∙ h)) ∙ ap (λ s. chunk_events cs ++ whole s ∷ []) q)
