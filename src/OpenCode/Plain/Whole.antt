-- ===== src/OpenCode/Plain/Whole.antt =====
-- The chunks of an answer in one part make up the text of the part.
use text.Mathlib.TextLemmas.{nil-append}
use rocketbot.GoMap.{GoMap, lookup, insert}
use rocketbot.Message.{
  RenderEventType, text_delta, text_set, tool_start, tool_update, tool_finish, tool_error, done,
  RenderEvent,
}
use rocketbot.Text.{has_prefix, trim_prefix}
use rocketbot.Text.Prefix.{trim_prefix_lem, no_prefix}
use rocketbot.OpenCode.Backend.{gives}
use rocketbot.OpenCode.Stream.{text_at}
use rocketbot.OpenCode.Replay.{replay_as, replay, SameText, text_at-insert, SameText-insert}
use rocketbot.OpenCode.Plain.{
  chunk_of_set, if_any, chunk_of, chunks, generate_response_stream, concat_chunks,
  generate_response,
}
use rocketbot.Prelude.{
  if◌then◌else◌, Bool-cases, String, ◌&◌, ◌≡◌, refl, sym, ap, ◌∙◌, inl, inr, true, Option, none,
  some, List, [], ◌∷◌, arith, ◌==◌, eq_iff, text_append-nil, text_append_assoc,
}

-- A text event of the part; a text that is set extends the one that the part has.
abbrev Fits : String → GoMap String → RenderEventType → RenderEvent → Type 0
Fits part m text_delta ev = ev.part_id ≡ part
Fits part m text_set ev = (ev.part_id ≡ part) × (has_prefix ev.text (text_at m part) ≡ true)
Fits part m _ ev = Unit

abbrev pub Extends : String → GoMap String → List RenderEvent → Type 0
Extends part m [] = Unit
Extends part m (ev ∷ evs) = Fits part m ev.type ev × Extends part (replay_as ev.type m ev) evs

abbrev texts : Option String → String
texts none = ""
texts (some t) = t

put_text : (m : GoMap String) (id v part : String) → id ≡ part → text_at (insert m id v) part ≡ v
put_text m id v part h = ground (arith, text_at-insert m id v part, eq_iff id part)

texts-if_any : (t : String) → texts (if_any t) ≡ t
texts-if_any t = ground (arith, eq_iff t "")

-- A set text that extends the one before adds what it is longer by.
longer :
    (prev next : String)
    → has_prefix next prev ≡ true
    → prev & texts (if next == "" then none else if_any (chunk_of_set prev next)) ≡ next
longer prev next h = elim (Bool-cases (next == "")) [
  | inl e ↦ rw e (
      text_append-nil prev
      ∙ no_prefix prev (sym (ap (λ s. has_prefix s prev) ((eq_iff next "").0 e)) ∙ h)
      ∙ sym ((eq_iff next "").0 e))
  | inr e ↦ elim (Bool-cases (prev == "")) [
    | inl f ↦
        rw (e, f)
          (ap (λ t. prev & t) (texts-if_any next)
            ∙ ap (λ p. p & next) ((eq_iff prev "").0 f)
            ∙ nil-append next)
    | inr f ↦
        rw (e, f, h)
          (ap (λ t. prev & t) (texts-if_any (trim_prefix next prev)) ∙ trim_prefix_lem next prev h)
  ]
]

put_back :
    (m : GoMap String) (ev : RenderEvent) (k : String)
    → ev.text ≡ ""
    → text_at (insert m ev.part_id (text_at m ev.part_id & ev.text)) k ≡ text_at m k
put_back m ev k h =
    let same = ap (λ t. text_at m ev.part_id & t) h ∙ text_append-nil (text_at m ev.part_id) in
    ground (
      arith,
      text_at-insert m ev.part_id (text_at m ev.part_id & ev.text) k,
      eq_iff ev.part_id k,
      same,
    )

has_before :
    (m m' : GoMap String) (part : String) (ev : RenderEvent)
    → SameText m m'
    → Fits part m text_set ev
    → has_prefix ev.text (text_at m' ev.part_id) ≡ true
has_before m m' part ev h (f, p) =
    ap (has_prefix ev.text) (sym (h ev.part_id) ∙ ap (text_at m) f) ∙ p

-- One event: the texts stay the client's, and the chunk is what the part's text grows by.
chunk_of-Fits :
    (part : String) (m m' : GoMap String) (type : RenderEventType) (ev : RenderEvent)
    → SameText m m'
    → Fits part m type ev
    → let (c, after) = chunk_of type ev m' in
      SameText (replay_as type m ev) after
      × (text_at (replay_as type m ev) part ≡ text_at m part & texts c)
unfolding chunk_of
chunk_of-Fits part m m' text_delta ev h f = elim (Bool-cases (ev.text == "")) [
  | inl e ↦ rw e (
    λ k. put_back m ev k ((eq_iff ev.text "").0 e) ∙ h k,
    put_back m ev part ((eq_iff ev.text "").0 e) ∙ sym (text_append-nil (text_at m part)),
  )
  | inr e ↦ rw e (
    SameText-insert m m' ev.part_id (text_at m ev.part_id & ev.text)
        (text_at m' ev.part_id & ev.text) h (ap (λ t. t & ev.text) (h ev.part_id)),
    put_text m ev.part_id (text_at m ev.part_id & ev.text) part f
        ∙ ap (λ i. text_at m i & ev.text) f,
  )
]
chunk_of-Fits part m m' text_set ev h f = (
  SameText-insert m m' ev.part_id ev.text ev.text h refl,
  put_text m ev.part_id ev.text part f.0
      ∙ sym (longer (text_at m' ev.part_id) ev.text (has_before m m' part ev h f))
      ∙ ap (λ t. t & texts (chunk_of text_set ev m').0) (sym (h ev.part_id) ∙ ap (text_at m) f.0),
)
chunk_of-Fits part m m' tool_start ev h f = (h, sym (text_append-nil (text_at m part)))
chunk_of-Fits part m m' tool_update ev h f = (h, sym (text_append-nil (text_at m part)))
chunk_of-Fits part m m' tool_finish ev h f = (h, sym (text_append-nil (text_at m part)))
chunk_of-Fits part m m' tool_error ev h f = (h, sym (text_append-nil (text_at m part)))
chunk_of-Fits part m m' done ev h f = (h, sym (text_append-nil (text_at m part)))

joined_chunk :
    (before after : String) (c : Option String) (later : List String)
    → after ≡ before & texts c
    → after & concat_chunks later
      ≡ before & concat_chunks (elim c [ none ↦ later | some t ↦ t ∷ later ])
unfolding concat_chunks
joined_chunk before after none later h =
    ap (λ t. t & concat_chunks later) (h ∙ text_append-nil before)
joined_chunk before after (some t) later h =
    ap (λ t. t & concat_chunks later) h ∙ text_append_assoc before t (concat_chunks later)

chunks-Extends :
    (part : String) (evs : List RenderEvent) (m m' : GoMap String)
    → SameText m m'
    → Extends part m evs
    → text_at (replay m evs) part ≡ text_at m part & concat_chunks (chunks [] m' evs)
unfolding chunks concat_chunks
chunks-Extends part [] m m' h e = sym (text_append-nil (text_at m part))
chunks-Extends part (ev ∷ evs) m m' h (f, e) =
    let (same, grown) = chunk_of-Fits part m m' ev.type ev h f in
    let (c, after) = chunk_of ev.type ev m' in
    chunks-Extends part evs (replay_as ev.type m ev) after same e
    ∙ joined_chunk (text_at m part) (text_at (replay_as ev.type m ev) part)
        (chunk_of ev.type ev m').0 (chunks [] (chunk_of ev.type ev m').1 evs) grown

-- Where a stream's text events are of one part, and each text that is set extends the part's text so
-- far, and the context is not done, GenerateResponse returns the text that a client has of the part
-- when it applies the events.
pub generate_response-replay :
    (part : String) (evs : List RenderEvent)
    → Extends part [] evs
    → generate_response [] (gives evs) ≡ gives (text_at (replay [] evs) part)
unfolding generate_response generate_response_stream lookup
generate_response-replay part evs e = ap gives (
    sym
      (chunks-Extends part evs [] [] (λ k. refl) e ∙ nil-append (concat_chunks (chunks [] [] evs))))
