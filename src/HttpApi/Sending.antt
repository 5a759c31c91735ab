-- ===== src/HttpApi/Sending.antt =====
-- What a request that handleSend answers with a room has done.
use mathlib.Core.Path.{subst}
use rocketbot.Json.{Value}
use rocketbot.GoMap.{lookup}
use rocketbot.Http.{World, exchange}
use rocketbot.Api.{ApiClient, Result, ok, err, posted, post_request, post_message}
use rocketbot.HttpApi.Auth.{Bears, unauthorized_lem, handle_send-auth}
use rocketbot.HttpApi.{
  Server, Target, SendRequest, sent, decode_request, validate_target, resolve_target, answer_post,
  post_to, deliver, check_request, for_bot, handle_send,
}
use rocketbot.Prelude.{
  Bool-cases, Option-cases, String, ◌≡◌, refl, sym, ap, ◌∙◌, ◌≢◌, ◌↔◌, ◌⊎◌, inl, inr, false, Option,
  none, some, [], ◌∷◌, ◌++◌, arith, ◌==◌, eq_iff,
}

-- Exactly one field of a target is given.
abbrev pub HasOne : Target → Type 0
HasOne t =
    ((t.username ≢ "") × (t.channel ≡ "") × (t.room_id ≡ ""))
    ⊎ ((t.username ≡ "") × (t.channel ≢ "") × (t.room_id ≡ ""))
    ⊎ ((t.username ≡ "") × (t.channel ≡ "") × (t.room_id ≢ ""))

-- A target is accepted exactly where one of its fields is given and no other.
pub validate_target_lem : (t : Target) → validate_target t ≡ none ↔ HasOne t
unfolding validate_target
validate_target_lem t = (
  λ h. ground (arith, eq_iff t.username "", eq_iff t.channel "", eq_iff t.room_id ""),
  λ h. ground (arith, eq_iff t.username "", eq_iff t.channel "", eq_iff t.room_id ""),
)

-- A bot's client posted a request's text to the room that its target resolves to, as the last of the
-- requests, and the server acknowledged it.
pub record Delivers (a : ApiClient) (req : SendRequest) (w : World) (room : String) (w' : World)
    : Type 0 where
  pub before : World
  pub has_text : req.text ≢ ""
  pub has_one : HasOne req.target
  pub resolved : resolve_target a req.target w ≡ (ok room, before)
  pub message_id : String
  pub acknowledged :
      posted (before.server before.log (post_request a room req.text "")) ≡ ok message_id
  pub logged : w'.log ≡ before.log ++ post_request a room req.text "" ∷ []

answer_post-sent :
    (r room : String) (x : Result String)
    → answer_post r x ≡ sent room
    → (id : String) × (x ≡ ok id) × (r ≡ room)
unfolding answer_post
answer_post-sent r room (ok id) h = (id, refl, ground arith)
answer_post-sent r room (err e) h = absurd (ground arith)

post_to-sent :
    (a : ApiClient) (text room : String) (r : Result String) (w w' : World)
    → post_to a text r w ≡ (sent room, w')
    → (id : String) × (r ≡ ok room)
      × (posted (w.server w.log (post_request a room text "")) ≡ ok id)
      × (w'.log ≡ w.log ++ post_request a room text "" ∷ [])
unfolding post_to post_message exchange
post_to-sent a text room (err e) w w' h = absurd (ground (arith, ap (λ p. p.0) h))
post_to-sent a text room (ok r) w w' h =
    let (id, p, same) =
      answer_post-sent r room (posted (w.server w.log (post_request a r text "")))
        (ap (λ p. p.0) h) in
    (
      id,
      ap ok same,
      subst (λ x. posted (w.server w.log (post_request a x text "")) ≡ ok id) same p,
      subst (λ x. w'.log ≡ w.log ++ post_request a x text "" ∷ []) same (sym (ap (λ p. p.1.log) h)),
    )

deliver-Delivers :
    (a : ApiClient) (req : SendRequest) (w w' : World) (room : String)
    → req.text ≢ ""
    → HasOne req.target
    → deliver a req w ≡ (sent room, w')
    → Delivers a req w room w'
unfolding deliver
deliver-Delivers a req w w' room n o h =
    let (id, r, p, l) =
      post_to-sent a req.text room (resolve_target a req.target w).0
        (resolve_target a req.target w).1 w' h in
    record {
      before = (resolve_target a req.target w).1;
      has_text = n;
      has_one = o;
      resolved = ap (λ r. (r, (resolve_target a req.target w).1)) r;
      message_id = id;
      acknowledged = p;
      logged = l;
    }

deliver_checked :
    (a : ApiClient) (req : SendRequest) (w : World)
    → req.text == "" ≡ false
    → validate_target req.target ≡ none
    → deliver a req w ≡ check_request a (some req) w
unfolding check_request
deliver_checked a req w e f = rw (e, f, check_request) refl

check_request-Delivers :
    (a : ApiClient) (o : Option SendRequest) (w w' : World) (room : String)
    → check_request a o w ≡ (sent room, w')
    → (req : SendRequest) × (o ≡ some req) × Delivers a req w room w'
unfolding check_request
check_request-Delivers a none w w' room h = absurd (ground (arith, ap (λ p. p.0) h))
check_request-Delivers a (some req) w w' room h = elim (Bool-cases (req.text == "")) [
  | inl e ↦ absurd (ground (arith, ap (λ p. p.0) h))
  | inr e ↦ elim (Option-cases (validate_target req.target)) [
    | inr (m, f) ↦ absurd (ground (arith, ap (λ p. p.0) h))
    | inl f ↦ (
      req,
      refl,
      deliver-Delivers a req w w' room (ground (arith, eq_iff req.text ""))
          ((validate_target_lem req.target).0 f) (deliver_checked a req w e f ∙ h),
    )
  ]
]

for_bot-Delivers :
    (o : Option ApiClient) (body : Option Value) (w w' : World) (room : String)
    → for_bot o body w ≡ (sent room, w')
    → (a : ApiClient) × (req : SendRequest) × (o ≡ some a)
      × (decode_request body ≡ some req)
      × Delivers a req w room w'
unfolding for_bot
for_bot-Delivers none body w w' room h = absurd (ground (arith, ap (λ p. p.0) h))
for_bot-Delivers (some a) body w w' room h =
    let (req, e, d) = check_request-Delivers a (decode_request body) w w' room h in
    (a, req, refl, e, d)

for_bot_bearer :
    (s : Server) (slug header : String) (body : Option Value) (w : World)
    → Bears (lookup s.tokens slug) header
    → for_bot (lookup s.bots slug) body w ≡ handle_send s slug header body w
unfolding handle_send for_bot
for_bot_bearer s slug header body w b =
    rw ((unauthorized_lem (lookup s.tokens slug) header).1 b, handle_send) refl

-- An answer with a room comes only of a request whose header bears the bot's token, whose body is a
-- request with a text and one target, and whose text was posted as the last of the requests made to the
-- room that the target resolves to, which the server acknowledged.
pub handle_send-Delivers :
    (s : Server) (slug header : String) (body : Option Value) (w w' : World) (room : String)
    → handle_send s slug header body w ≡ (sent room, w')
    → Bears (lookup s.tokens slug) header
      × (a : ApiClient) × (req : SendRequest) × (lookup s.bots slug ≡ some a)
      × (decode_request body ≡ some req)
      × Delivers a req w room w'
unfolding handle_send
handle_send-Delivers s slug header body w w' room h = elim (handle_send-auth s slug header body w) [
  | inl (e, f) ↦ absurd (ground (arith, ap (λ p. p.0) (sym f ∙ h)))
  | inr b ↦
      let (a, req, e, f, d) =
        for_bot-Delivers (lookup s.bots slug) body w w' room
          (for_bot_bearer s slug header body w b ∙ h) in
      (b, a, req, e, f, d)
]
