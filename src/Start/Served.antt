-- ===== src/Start/Served.antt =====
-- The HTTP API serves exactly the bots that have a token of their own.
use rocketbot.GoMap.{GoMap, lookup, insert, lookup-insert}
use rocketbot.Config.{RoomPolicyConfig, BotConfig, accepts}
use rocketbot.Config.Loaded.{SlugsDiffer, load-Loads}
use rocketbot.Config.Load.{load}
use rocketbot.HttpApi.{Server}
use rocketbot.Start.{Bot, expose, no_server}
use rocketbot.Prelude.{
  if◌then◌else◌, Bool-cases, if-intro, All, ℕ, String, ◌≡◌, refl, sym, ◌∙◌, ◌≢◌, inl, inr, Option,
  none, some, List, [], ◌∷◌, arith, ◌==◌, eq_iff, eq_refl,
}

-- What the server has for a bot: its token and its client for requests, or nothing.
abbrev pub ServedAs : Server → BotConfig → Bot → Type 0
ServedAs s b c =
    (lookup s.tokens b.slug ≡ (if b.api_token == "" then none else some b.api_token))
    × (lookup s.bots b.slug ≡ (if b.api_token == "" then none else some c.api))

abbrev pub ServedAll : Server → List BotConfig → List Bot → Type 0
ServedAll s [] clients = Unit
ServedAll s (b ∷ bots) [] = Unit
ServedAll s (b ∷ bots) (c ∷ clients) = ServedAs s b c × ServedAll s bots clients

-- The same entries for a slug.
abbrev SameAt : String → Server → Server → Type 0
SameAt slug s s' =
    (lookup s'.tokens slug ≡ lookup s.tokens slug) × (lookup s'.bots slug ≡ lookup s.bots slug)

abbrev with_one : BotConfig → Bot → Server → Server
with_one b c s =
    if b.api_token == ""
    then s
    else record { bots = insert s.bots b.slug c.api; tokens = insert s.tokens b.slug b.api_token }

with_one-apart :
    (b : BotConfig) (c : Bot) (s : Server) (slug : String)
    → b.slug ≢ slug
    → SameAt slug s (with_one b c s)
with_one-apart b c s slug n =
    if-intro (SameAt slug s) (b.api_token == "") (λ _. (refl, refl))
      (λ _. (
        ground (arith, lookup-insert s.tokens b.slug b.api_token slug, eq_iff b.slug slug, n),
        ground (arith, lookup-insert s.bots b.slug c.api slug, eq_iff b.slug slug, n),
      ))

expose-apart :
    (bots : List BotConfig) (clients : List Bot) (s : Server) (slug : String)
    → All (λ (b : BotConfig). slug ≢ b.slug) bots
    → SameAt slug s (expose bots clients s)
unfolding expose
expose-apart [] clients s slug h = (refl, refl)
expose-apart (b ∷ bots) [] s slug h = (refl, refl)
expose-apart (b ∷ bots) (c ∷ clients) s slug (n, h) =
    let (t, a) = expose-apart bots clients (with_one b c s) slug h in
    let (t', a') = with_one-apart b c s slug (λ e. n (sym e)) in (t ∙ t', a ∙ a')

with_one-ServedAs :
    (b : BotConfig) (c : Bot) (s : Server)
    → lookup s.tokens b.slug ≡ none
    → lookup s.bots b.slug ≡ none
    → ServedAs (with_one b c s) b c
with_one-ServedAs b c s t a = elim (Bool-cases (b.api_token == "")) [
  | inl e ↦ rw e (t, a)
  | inr e ↦ rw e (
    ground (arith, lookup-insert s.tokens b.slug b.api_token b.slug, eq_refl b.slug),
    ground (arith, lookup-insert s.bots b.slug c.api b.slug, eq_refl b.slug),
  )
]

abbrev Unserved : Server → BotConfig → Type 0
Unserved s b = (lookup s.tokens b.slug ≡ none) × (lookup s.bots b.slug ≡ none)

still-Unserved :
    (b : BotConfig) (c : Bot) (s : Server) (bots : List BotConfig)
    → All (λ (d : BotConfig). b.slug ≢ d.slug) bots
    → All (Unserved s) bots
    → All (Unserved (with_one b c s)) bots
still-Unserved b c s [] n u = tt
still-Unserved b c s (d ∷ bots) (n, ns) ((t, a), u) =
    let (t', a') = with_one-apart b c s d.slug n in
    ((t' ∙ t, a' ∙ a), still-Unserved b c s bots ns u)

All-Unserved : (bots : List BotConfig) → All (Unserved no_server) bots
unfolding lookup
All-Unserved [] = tt
All-Unserved (b ∷ bots) = ((refl, refl), All-Unserved bots)

expose-ServedAll :
    (bots : List BotConfig) (clients : List Bot) (s : Server)
    → SlugsDiffer bots
    → All (Unserved s) bots
    → ServedAll (expose bots clients s) bots clients
unfolding expose
expose-ServedAll [] clients s d u = tt
expose-ServedAll (b ∷ bots) [] s d u = tt
expose-ServedAll (b ∷ bots) (c ∷ clients) s (n, d) ((t, a), u) =
    let (st, sa) = expose-apart bots clients (with_one b c s) b.slug n in
    let (wt, wa) = with_one-ServedAs b c s t a in
    (
      (st ∙ wt, sa ∙ wa),
      expose-ServedAll bots clients (with_one b c s) d (still-Unserved b c s bots n u),
    )

-- Where Load accepts an environment, the HTTP API that main makes of its bots has for each bot its token
-- and its own client for requests, and for a bot without a token nothing.
pub expose-load :
    (decode : String → Option (GoMap RoomPolicyConfig)) (env : String → String) (fuel : ℕ)
    (clients : List Bot) {bots : List BotConfig}
    → load decode env fuel ≡ some (accepts bots)
    → ServedAll (expose bots clients no_server) bots clients
expose-load decode env fuel clients {bots} h =
    expose-ServedAll bots clients no_server (load-Loads decode env fuel h).1 (All-Unserved bots)
