-- ===== src/OpenCode/Prompt/Keys.antt =====
-- The keys of conversations tell rooms and threads apart.
use Prim.Native.String.{String, [], ◌∷◌}
use text.Mathlib.TextEquality.{Char-path}
use text.Mathlib.TextLemmas.{nil-append, cons-append, append_cancel_left}
use rocketbot.Message.{Message}
use rocketbot.OpenCode.Prompt.{conversation_key}
use rocketbot.Prelude.{
  Bool-cases, ℕ, code, ◌&◌, ◌≡◌, refl, sym, ap, ◌∙◌, ap₂, ◌≢◌, inl, inr, true, false, arith, ◌==◌,
  eq_iff,
}

-- No code point of a text is a colon.
abbrev pub HasNoColon : String → Type 0
HasNoColon [] = Unit
HasNoColon (c ∷ s) = (code c ≢ 58) × HasNoColon s

abbrev first_code : String → ℕ
first_code [] = 0
first_code (c ∷ s) = code c

abbrev after_first : String → String
after_first [] = ""
after_first (c ∷ s) = s

-- What stands before the first colon, and behind it.
at_colon :
    (r r' t t' : String)
    → HasNoColon r
    → HasNoColon r'
    → r & (":" & t) ≡ r' & (":" & t')
    → (r ≡ r') × (t ≡ t')
at_colon [] [] t t' h h' e =
    (refl, append_cancel_left ":" t t' (sym (nil-append (":" & t)) ∙ e ∙ nil-append (":" & t')))
at_colon [] (d ∷ r') t t' h (n, h') e = absurd (
    n (
      sym (
        ap first_code (
          sym (cons-append ":" "" t)
          ∙ sym (nil-append (":" & t))
          ∙ e
          ∙ cons-append d r' (":" & t')))))
at_colon (c ∷ r) [] t t' (n, h) h' e = absurd (
    n (
      ap first_code
        (sym (cons-append c r (":" & t)) ∙ e ∙ nil-append (":" & t') ∙ cons-append ":" "" t')))
at_colon (c ∷ r) (d ∷ r') t t' (n, h) (n', h') e =
    let q = sym (cons-append c r (":" & t)) ∙ e ∙ cons-append d r' (":" & t') in
    let (rs, ts) = at_colon r r' t t' h h' (ap after_first q) in
    (ap₂ ◌∷◌ (Char-path c d (ap first_code q)) rs, ts)

key-room : (m : Message) → m.thread_id == "" ≡ true → conversation_key m ≡ "room:" & m.room_id
unfolding conversation_key
key-room m f = ground (arith, f)

key-thread :
    (m : Message)
    → m.thread_id == "" ≡ false
    → conversation_key m ≡ "thread:" & (m.room_id & (":" & m.thread_id))
unfolding conversation_key
key-thread m f = ground (arith, f)

kinds_apart : (r s : String) → "room:" & r ≢ "thread:" & s
kinds_apart r s e = absurd (
    ground (arith, ap first_code (sym (cons-append "r" "oom:" r) ∙ e ∙ cons-append "t" "hread:" s)))

-- Two messages have the same key only where their rooms and their threads are the same, if the ids of
-- the rooms have no colon: no conversation is shared by two rooms or two threads.
pub conversation_key-apart :
    (m m' : Message)
    → HasNoColon m.room_id
    → HasNoColon m'.room_id
    → conversation_key m ≡ conversation_key m'
    → (m.room_id ≡ m'.room_id) × (m.thread_id ≡ m'.thread_id)
conversation_key-apart m m' h h' e = elim (Bool-cases (m.thread_id == "")) [
  | inl f ↦ elim (Bool-cases (m'.thread_id == "")) [
    | inl g ↦ (
      append_cancel_left "room:" m.room_id m'.room_id (sym (key-room m f) ∙ e ∙ key-room m' g),
      (eq_iff m.thread_id "").0 f ∙ sym ((eq_iff m'.thread_id "").0 g),
    )
    | inr g ↦ absurd (
        kinds_apart m.room_id (m'.room_id & (":" & m'.thread_id))
          (sym (key-room m f) ∙ e ∙ key-thread m' g))
  ]
  | inr f ↦ elim (Bool-cases (m'.thread_id == "")) [
    | inl g ↦ absurd (
        kinds_apart m'.room_id (m.room_id & (":" & m.thread_id))
          (sym (key-room m' g) ∙ sym e ∙ key-thread m f))
    | inr g ↦ at_colon m.room_id m'.room_id m.thread_id m'.thread_id h h' (
        append_cancel_left "thread:" (m.room_id & (":" & m.thread_id))
          (m'.room_id & (":" & m'.thread_id)) (sym (key-thread m f) ∙ e ∙ key-thread m' g))
  ]
]
