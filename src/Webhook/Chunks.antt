-- ===== src/Webhook/Chunks.antt =====
-- The answer of a webhook is what its item lines say.
use text.Mathlib.TextLemmas.{nil-append}
use rocketbot.Json.{Fields, Value, get, as_string, string_at}
use rocketbot.Webhook.{
  StreamEvent, Pass, on_line, on_data, replied, streams, text_chunks, join_chunks, sent_before,
  data_of, parse_from, parse, streamed, generate_webhook,
}
use rocketbot.Prelude.{
  if◌then◌else◌, Bool-cases, Option-cases, if-intro, All, String, ◌&◌, ◌≡◌, refl, sym, ap, ◌∙◌, inl,
  inr, true, false, Option, none, some, List, [], ◌∷◌, ◌==◌, eq_iff,
}

-- What a line adds to the answer.
abbrev pub said_by : Option Fields → String
said_by none = ""
said_by (some m) = if string_at m "type" == "item" then string_at m "content" else ""

abbrev pub said_in : (String → Option Value) → List Pass → String
said_in decode [] = ""
said_in decode (p ∷ passes) = said_by (data_of decode p.line) & said_in decode passes

-- The context is not done, and every event is taken.
abbrev pub Undisturbed : List Pass → Type 0
Undisturbed passes = All (λ (p : Pass). (p.is_done ≡ false) × (p.is_taken ≡ true)) passes

text_of : List StreamEvent → String
text_of evs = join_chunks (text_chunks [] evs)

-- Nothing is added to the answer.
abbrev Silent : List StreamEvent → Option StreamEvent × String → Type 0
Silent later x = text_of (sent_before true x.0 later) ≡ "" & text_of later

on_line-said :
    (type : String) (m : Fields) (full : String) (later : List StreamEvent)
    → text_of (sent_before true (on_line type m full).0 later)
      ≡ (if type == "item" then string_at m "content" else "") & text_of later
unfolding on_line text_of text_chunks join_chunks sent_before
on_line-said type m full later = elim (Bool-cases (type == "item")) [
  | inl e ↦ rw ((eq_iff type "item").0 e) (elim (Bool-cases (string_at m "content" == "")) [
    | inl f ↦ rw (f, (eq_iff (string_at m "content") "").0 f) (sym (nil-append (text_of later)))
    | inr f ↦ rw f refl
  ])
  | inr e ↦ rw e (
      let same = sym (nil-append (text_of later)) in
      if-intro (Silent later) (type == "begin") (λ _. same)
        (λ _.
          if-intro (Silent later) (type == "end")
            (λ _.
              if-intro (λ (o : Option StreamEvent). Silent later (o, full)) (full == "") (λ _. same)
                (λ _. same))
            (λ _. same)))
]

on_data-said :
    (o : Option Fields) (full : String) (later : List StreamEvent)
    → text_of (sent_before true (on_data o full).0 later) ≡ said_by o & text_of later
unfolding on_data sent_before
on_data-said none full later = sym (nil-append (text_of later))
on_data-said (some m) full later = elim (Option-cases (as_string (get m "type"))) [
  | inl e ↦ rw (e, on_data) (sym (nil-append (text_of later)))
  | inr (type, e) ↦ rw (e, on_data) (on_line-said type m full later)
]

module _ (decode : String → Option Value) where
  parse_from-said :
      (passes : List Pass) (full : String)
      → Undisturbed passes
      → text_of (parse_from decode full passes) ≡ said_in decode passes
  unfolding parse_from text_of join_chunks text_chunks
  parse_from-said [] full u = refl
  parse_from-said (p ∷ passes) full ((d, t), u) =
      rw (d, t, parse_from)
        (on_data-said (data_of decode p.line) full
            (parse_from decode (on_data (data_of decode p.line) full).1 passes)
          ∙ ap (λ s. said_by (data_of decode p.line) & s)
              (parse_from-said passes (on_data (data_of decode p.line) full).1 u))

  -- Where the webhook answers with status 200, the context is not done and every chunk is taken,
  -- GenerateResponse returns the contents of the item lines in their order; empty lines, lines that are
  -- no JSON object, lines of other types and the markers of begin and end add nothing.
  pub generate_webhook-said :
      (passes : List Pass)
      → Undisturbed passes
      → generate_webhook (streamed decode [] (replied 200 passes)) ≡ streams (said_in decode passes)
  unfolding generate_webhook streamed parse text_of
  generate_webhook-said passes u = ap streams (parse_from-said passes "" u)
