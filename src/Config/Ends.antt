-- ===== src/Config/Ends.antt =====
-- Load ends at the first bot without a URL.
use rocketbot.GoMap.{GoMap, insert}
use rocketbot.Config.{RoomPolicyConfig, BotConfig, Checked, accepts, refuses}
use rocketbot.Config.Load.{prefix_of, with_bot, some_bots, check_bot, load_from, load}
use rocketbot.Prelude.{
  nat_eq, Bool-cases, if-intro, ℕ, zero, suc, ◌+◌, ◌≤◌, ◌<◌, String, ◌&◌, ◌≡◌, refl, ap, ◌≢◌, inl,
  inr, false, Option, none, some, List, [], arith, ◌==◌, eq_iff,
}

goes_on :
    (c : Checked BotConfig) (later : Option (Checked (List BotConfig)))
    → later ≢ none
    → (elim c [ refuses e ↦ some (refuses e) | accepts b ↦ with_bot b later ]) ≢ none
unfolding with_bot
goes_on (refuses e) later h = cc
goes_on (accepts b) none h = h
goes_on (accepts b) (some (refuses e)) h = cc
goes_on (accepts b) (some (accepts bots)) h = cc

gives_some :
    (o : Option (Checked (List BotConfig)))
    → o ≢ none
    → (elim o [ none ↦ none | some bots ↦ some (some_bots bots) ]) ≢ none
gives_some none h = absurd (h refl)
gives_some (some bots) h = cc

-- A bot with a URL is not the first one without.
before :
    (env : String → String) (n i : ℕ)
    → env (prefix_of n & "URL") ≡ ""
    → i ≤ n
    → env (prefix_of i & "URL") == "" ≡ false
    → suc i ≤ n
before env n i h l g = elim (Bool-cases (nat_eq i n)) [
  | inl e ↦
      let same : i ≡ n = ground arith in
      absurd (
        ground (
          arith,
          eq_iff (env (prefix_of i & "URL")) "",
          ap (λ k. env (prefix_of k & "URL")) same,
          h,
        ))
  | inr e ↦ (let apart : i ≢ n = ground arith in omega (arith, l, apart))
]

module _ (decode : String → Option (GoMap RoomPolicyConfig)) where
  load_from-ends :
      (env : String → String) (n fuel i : ℕ) (seen : GoMap String)
      → env (prefix_of n & "URL") ≡ ""
      → i ≤ n
      → n < i + fuel
      → load_from decode env fuel i seen ≢ none
  unfolding load_from
  load_from-ends env n zero i seen h l f = absurd (omega (arith, l, f))
  load_from-ends env n (suc fuel) i seen h l f =
      let v = λ (name : String). env (prefix_of i & name) in
      let later = load_from decode env fuel (suc i) (insert seen (v "SLUG") (prefix_of i)) in
      if-intro (λ (o : Option (Checked (List BotConfig))). o ≢ none) (v "URL" == "") (λ _. cc)
        (λ g. goes_on (check_bot decode v seen) later (
          load_from-ends env n fuel (suc i) (insert seen (v "SLUG") (prefix_of i)) h
            (before env n i h l g) (omega (arith, f))))

  -- Where the bot of some number has no URL, that number is fuel enough: Load returns bots or an error.
  pub load-ends :
      (env : String → String) (n : ℕ)
      → env (prefix_of n & "URL") ≡ ""
      → 1 ≤ n
      → load decode env n ≢ none
  unfolding load
  load-ends env n h l =
      gives_some (load_from decode env n 1 []) (load_from-ends env n n 1 [] h l (omega arith))
