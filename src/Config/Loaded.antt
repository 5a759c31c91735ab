-- ===== src/Config/Loaded.antt =====
-- The bots that Load accepts are complete, and their slugs differ.
use mathlib.Core.Path.{subst}
use rocketbot.GoMap.{GoMap, lookup, insert, lookup-insert}
use rocketbot.Text.{trim_space}
use rocketbot.Config.{RoomPolicyConfig, BotConfig, Checked, accepts, refuses}
use rocketbot.Config.Slug.{validate_slug}
use rocketbot.Config.Load.{
  is_unset, prefix_of, raw_config, check_generator, check_slug, with_bot, some_bots,
  check_behaviour, check_bot, load_from, load,
}
use rocketbot.Config.Fits.{Accepts, require-Accepts, IsTrigger, IsRenderMode, RoomFits, differs}
use rocketbot.Config.Complete.{
  IsWebhookBot, IsOpenCodeBot, check_generator-Accepts, Finished, check_behaviour-Accepts,
}
use rocketbot.Prelude.{
  Option-cases, if-intro, All, All-weaken, ℕ, zero, suc, String, ◌&◌, ◌≡◌, sym, ap, ◌∙◌, ◌≢◌, ◌⊎◌,
  inl, inr, true, not, Option, none, some, List, [], ◌∷◌, arith, ◌==◌, eq_iff,
}

-- A slug that is valid, an identity, all that one of the generators needs and nothing of the other, and
-- a known behaviour, also in the rooms.
abbrev pub IsComplete : BotConfig → Type 0
IsComplete b =
    (validate_slug b.slug ≡ true)
    × (b.user_id ≢ "")
    × (b.token ≢ "")
    × (IsWebhookBot b ⊎ IsOpenCodeBot b)
    × IsTrigger b.active_thread_trigger
    × IsRenderMode b.render_mode
    × All RoomFits b.room_policies

abbrev Admitted : GoMap String → String → BotConfig → Type 0
Admitted seen slug b = IsComplete b × (b.slug ≡ slug) × (lookup seen slug ≡ none)

complete :
    (seen : GoMap String) (raw : BotConfig) (rest : Checked BotConfig)
    → validate_slug raw.slug ≡ true
    → raw.user_id ≢ ""
    → raw.token ≢ ""
    → lookup seen raw.slug ≡ none
    → Accepts (Finished raw) rest
    → Accepts (Admitted seen raw.slug) rest
complete seen raw (refuses e) v u t n h = tt
complete seen raw (accepts b) v u t n ((s, u', t', g), k, m, r) =
    ((ap validate_slug s ∙ v, λ e. u (sym u' ∙ e), λ e. t (sym t' ∙ e), g, k, m, r), s, n)

check_slug-Accepts :
    (seen : GoMap String) (raw : BotConfig) (rest : Checked BotConfig)
    → Accepts (Finished raw) rest
    → Accepts (Admitted seen raw.slug) (check_slug seen raw rest)
unfolding check_slug
check_slug-Accepts seen raw rest h =
    let P = Admitted seen raw.slug in
    require-Accepts P (not (is_unset raw.slug)) _ _ (λ given.
      require-Accepts P (validate_slug raw.slug) _ _ (λ valid.
        elim (Option-cases (lookup seen raw.slug)) [
          | inr (first, e) ↦ rw e tt
          | inl e ↦ rw e (
              require-Accepts P (not (is_unset raw.user_id)) _ _ (λ user.
                require-Accepts P (not (is_unset raw.token)) _ _ (λ token.
                  complete seen raw rest valid (differs raw.user_id "" user)
                    (differs raw.token "" token) e h)))
        ]))

-- No two bots have the same slug.
abbrev pub SlugsDiffer : List BotConfig → Type 0
SlugsDiffer [] = Unit
SlugsDiffer (b ∷ bots) = All (λ (c : BotConfig). b.slug ≢ c.slug) bots × SlugsDiffer bots

abbrev Bots : GoMap String → Option (Checked (List BotConfig)) → Type 0
Bots seen none = Unit
Bots seen (some (refuses e)) = Unit
Bots seen (some (accepts bots)) =
    All IsComplete bots × SlugsDiffer bots × All (λ (b : BotConfig). lookup seen b.slug ≡ none) bots

-- A bot in front of bots whose slugs are not among those seen, its own included.
with_bot-Bots :
    (seen : GoMap String) (slug place : String) (b : BotConfig)
    (later : Option (Checked (List BotConfig)))
    → Admitted seen slug b
    → Bots (insert seen slug place) later
    → Bots seen (with_bot b later)
unfolding with_bot
with_bot-Bots seen slug place b none h k = tt
with_bot-Bots seen slug place b (some (refuses e)) h k = tt
with_bot-Bots seen slug place b (some (accepts bots)) (c, s, n) (cs, d, ns) = (
  (c, cs),
  (
    All-weaken (λ (x : BotConfig). lookup (insert seen slug place) x.slug ≡ none)
        (λ (x : BotConfig). b.slug ≢ x.slug)
        (λ x f e. ground (arith, lookup-insert seen slug place x.slug, eq_iff slug x.slug, s, e))
        bots ns,
    d,
  ),
  (
    ap (lookup seen) s ∙ n,
    All-weaken (λ (x : BotConfig). lookup (insert seen slug place) x.slug ≡ none)
        (λ (x : BotConfig). lookup seen x.slug ≡ none)
        (λ x f. ground (arith, lookup-insert seen slug place x.slug)) bots ns,
  ),
)

one_more :
    (seen : GoMap String) (slug place : String) (c : Checked BotConfig)
    (later : Option (Checked (List BotConfig)))
    → Accepts (Admitted seen slug) c
    → Bots (insert seen slug place) later
    → Bots seen (elim c [ refuses e ↦ some (refuses e) | accepts b ↦ with_bot b later ])
one_more seen slug place (refuses e) later h k = tt
one_more seen slug place (accepts b) later h k = with_bot-Bots seen slug place b later h k

abbrev Loads : Option (Checked (List BotConfig)) → Type 0
Loads none = Unit
Loads (some (refuses e)) = Unit
Loads (some (accepts bots)) = All IsComplete bots × SlugsDiffer bots × (bots ≢ [])

some_bots-Loads :
    (o : Option (Checked (List BotConfig)))
    → Bots [] o
    → Loads (elim o [ none ↦ none | some bots ↦ some (some_bots bots) ])
unfolding some_bots
some_bots-Loads none h = tt
some_bots-Loads (some (refuses e)) h = tt
some_bots-Loads (some (accepts [])) h = tt
some_bots-Loads (some (accepts (b ∷ bots))) (c, d, n) = (c, d, λ e. cc)

module _ (decode : String → Option (GoMap RoomPolicyConfig)) where
  check_bot-Accepts :
      (v : String → String) (seen : GoMap String)
      → Accepts (Admitted seen (v "SLUG")) (check_bot decode v seen)
  unfolding check_bot raw_config
  check_bot-Accepts v seen =
      check_slug-Accepts seen (raw_config v)
        (check_behaviour decode (trim_space (v "ROOM_POLICIES_JSON"))
          (check_generator (raw_config v)))
        (check_behaviour-Accepts decode (raw_config v) (trim_space (v "ROOM_POLICIES_JSON"))
          (check_generator (raw_config v)) (check_generator-Accepts (raw_config v)))

  load_from-Bots :
      (env : String → String) (fuel i : ℕ) (seen : GoMap String)
      → Bots seen (load_from decode env fuel i seen)
  unfolding load_from
  load_from-Bots env zero i seen = tt
  load_from-Bots env (suc fuel) i seen =
      let v = λ (name : String). env (prefix_of i & name) in
      if-intro (Bots seen) (v "URL" == "") (λ _. (tt, tt, tt))
        (λ _.
          one_more seen (v "SLUG") (prefix_of i) (check_bot decode v seen)
            (load_from decode env fuel (suc i) (insert seen (v "SLUG") (prefix_of i)))
            (check_bot-Accepts v seen)
            (load_from-Bots env fuel (suc i) (insert seen (v "SLUG") (prefix_of i))))

  -- Where Load accepts an environment, it gives one bot or more; every bot has a valid slug, a user and a
  -- token, all that its generator needs and nothing of the other generator, and a known trigger and
  -- render mode, as has every room that is enabled; and no two bots have the same slug.
  pub load-Loads :
      (env : String → String) (fuel : ℕ) {bots : List BotConfig}
      → load decode env fuel ≡ some (accepts bots)
      → All IsComplete bots × SlugsDiffer bots × (bots ≢ [])
  unfolding load
  load-Loads env fuel h =
      subst Loads h
        (some_bots-Loads (load_from decode env fuel 1 []) (load_from-Bots env fuel 1 []))
