-- ===== src/HttpApi/Auth.antt =====
-- Who may send: the checks of the token in handleSend.
use Prim.Native.String
use text.Mathlib.TextLemmas.{length-append as text_length-append}
use rocketbot.GoMap.{lookup}
use rocketbot.Http.{World}
use rocketbot.Json.{Value}
use rocketbot.Text.{cut_prefix, trim_prefix}
use rocketbot.Text.Prefix.{cut_prefix_lem, cut_prefix-append}
use rocketbot.HttpApi.{Server, Fault, fault, refusal, unauthorized, handle_send}
use rocketbot.Prelude.{
  Option-cases, String, ◌&◌, ◌≡◌, refl, sym, ap, ◌∙◌, ◌≢◌, ◌↔◌, ◌⊎◌, inl, inr, Option, none, some,
  arith, eq_iff, eq_refl,
}

-- The header is that of the token that is expected, which is not empty.
abbrev pub Bears : Option String → String → Type 0
Bears o header = (t : String) × (o ≡ some t) × (t ≢ "") × (header ≡ "Bearer " & t)

accepted-Bears :
    (expected header : String)
    → unauthorized (some expected) header ≡ none
    → Bears (some expected) header
unfolding unauthorized trim_prefix
accepted-Bears expected header h = elim (Option-cases (cut_prefix header "Bearer ")) [
  | inl e ↦ absurd (ground (arith, eq_iff header header))
  | inr (r, e) ↦
      let same : r ≡ expected = ground (arith, eq_iff r expected) in
      (
        expected,
        refl,
        ground (arith, eq_iff expected ""),
        sym (cut_prefix_lem header "Bearer " r e) ∙ ap (λ t. "Bearer " & t) same,
      )
]

bearer-ne : (t : String) → t ≢ "Bearer " & t
bearer-ne t e = omega (arith, ap String.count e, text_length-append "Bearer " t)

bearer-nonempty : (t : String) → "Bearer " & t ≢ ""
bearer-nonempty t e = omega (arith, ap String.count e, text_length-append "Bearer " t)

Bears-accepted : (t : String) → t ≢ "" → unauthorized (some t) ("Bearer " & t) ≡ none
unfolding unauthorized trim_prefix
Bears-accepted t h = rw (cut_prefix-append "Bearer " t) (
    ground (
      arith,
      bearer-ne t,
      eq_iff t ("Bearer " & t),
      eq_iff t "",
      eq_refl t,
      bearer-nonempty t,
      eq_iff ("Bearer " & t) "",
    ))

-- The checks of the token pass exactly where a token that is not empty is configured for the bot and
-- the header is `Bearer ` with that token.
pub unauthorized_lem :
    (o : Option String) (header : String) → unauthorized o header ≡ none ↔ Bears o header
unfolding unauthorized
unauthorized_lem none header = (λ h. absurd (ground arith), λ (t, e, n, p). absurd (ground arith))
unauthorized_lem (some t) header = (
  accepted-Bears t header,
  λ (t', e, n, p).
      ap (λ o. unauthorized o header) e ∙ ap (unauthorized (some t')) p ∙ Bears-accepted t' n,
)

-- A request either is answered with status 401 and reaches no server, or carries the token that is
-- configured for its bot.
pub handle_send-auth :
    (s : Server) (slug header : String) (body : Option Value) (w : World)
    → ((e : Fault) × (handle_send s slug header body w ≡ (refusal 401 e, w)))
      ⊎ Bears (lookup s.tokens slug) header
unfolding handle_send
handle_send-auth s slug header body w =
    elim (Option-cases (unauthorized (lookup s.tokens slug) header)) [
      | inl e ↦ inr ((unauthorized_lem (lookup s.tokens slug) header).0 e)
      | inr (m, e) ↦ inl (fault m, rw (e, handle_send) refl)
    ]
