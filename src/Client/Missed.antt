-- ===== src/Client/Missed.antt =====
-- What a thread said since the bot's last answer: collectMissedThreadMessages and
-- synthesizeMissedThreadMessagesPrompt of bot/client.go.
use rocketbot.Message.{Message}
use rocketbot.GoMap.{GoMap, has_key, insert, lookup-insert}
use rocketbot.Text.{trim_space}
use rocketbot.Prelude.{
  ltb, if◌then◌else◌, Bool-cases, length, All, String, ◌&◌, ◌≡◌, refl, ◌≢◌, ◌⊎◌, inl, inr, Bool,
  true, false, not, ◌||◌, List, [], ◌∷◌, arith, ◌==◌, eq_iff,
}

-- The loop; `seen` and `ready` are its variables.
unfoldable pub collect_from : String → String → GoMap Bool → Bool → List Message → List Message
collect_from last bot seen ready [] = []
collect_from last bot seen ready (m ∷ ms) =
    let skipped = collect_from last bot seen ready ms in
    let waited = collect_from last bot (insert seen m.id true) (m.id == last) ms in
    let passed = collect_from last bot (insert seen m.id true) true ms in
    if m.id == "" || has_key seen m.id
    then skipped
    else if not ready
    then waited
    else if m.id == last || m.user.id == bot
    then passed
    else m ∷ passed

unfoldable pub collect_missed_thread_messages : List Message → String → String → List Message
collect_missed_thread_messages history last bot = collect_from last bot [] (last == "") history

-- A message that has an id, and is neither the one ingested last nor the bot's.
abbrev pub IsUnseen : String → String → Message → Type 0
IsUnseen last bot m = (m.id ≢ "") × (m.id ≢ last) × (m.user.id ≢ bot)

abbrev Fresh : GoMap Bool → List Message → Type 0
Fresh seen = All (λ m. has_key seen m.id ≡ false)

abbrev pub DistinctIds : List Message → Type 0
DistinctIds [] = Unit
DistinctIds (m ∷ ms) = All (λ n. m.id ≢ n.id) ms × DistinctIds ms

collect_from-IsUnseen :
    (last bot : String) (seen : GoMap Bool) (ready : Bool) (ms : List Message)
    → All (IsUnseen last bot) (collect_from last bot seen ready ms)
unfolding collect_from
collect_from-IsUnseen last bot seen ready [] = tt
collect_from-IsUnseen last bot seen ready (m ∷ ms) = ground (
  arith,
  eq_iff m.id "",
  eq_iff m.id last,
  eq_iff m.user.id bot,
  collect_from-IsUnseen last bot seen ready ms,
  collect_from-IsUnseen last bot (insert seen m.id true) (m.id == last) ms,
  collect_from-IsUnseen last bot (insert seen m.id true) true ms,
)

-- Of the messages that are not in `seen`, those that follow an inserted key are not that key.
Fresh-insert :
    (seen : GoMap Bool) (k : String) (ms : List Message)
    → Fresh (insert seen k true) ms
    → Fresh seen ms × All (λ n. k ≢ n.id) ms
Fresh-insert seen k [] h = (tt, tt)
Fresh-insert seen k (m ∷ ms) h =
    let rest = Fresh-insert seen k ms h.1 in
    let here : (has_key seen m.id ≡ false) × (k ≢ m.id) =
      ground (arith, lookup-insert seen k true m.id, eq_iff k m.id, h.0) in
    ((here.0, rest.0), (here.1, rest.1))

collect_from-Fresh :
    (last bot : String) (seen : GoMap Bool) (ready : Bool) (ms : List Message)
    → Fresh seen (collect_from last bot seen ready ms)
      × DistinctIds (collect_from last bot seen ready ms)
unfolding collect_from
collect_from-Fresh last bot seen ready [] = (tt, tt)
collect_from-Fresh last bot seen ready (m ∷ ms) =
    let seen' = insert seen m.id true in
    ground (
      arith,
      collect_from-Fresh last bot seen ready ms,
      collect_from-Fresh last bot seen' (m.id == last) ms,
      collect_from-Fresh last bot seen' true ms,
      Fresh-insert seen m.id (collect_from last bot seen' (m.id == last) ms),
      Fresh-insert seen m.id (collect_from last bot seen' true ms),
    )

-- The first message under each id, of those that have one.
abbrev pub distinct : GoMap Bool → List Message → List Message
distinct seen [] = []
distinct seen (m ∷ ms) =
    let skipped = distinct seen ms in
    let kept = distinct (insert seen m.id true) ms in
    if m.id == "" || has_key seen m.id then skipped else m ∷ kept

-- What follows the message with an id.
abbrev pub after : String → List Message → List Message
after last [] = []
after last (m ∷ ms) = let later = after last ms in if m.id == last then ms else later

abbrev pub not_by : String → List Message → List Message
not_by bot [] = []
not_by bot (m ∷ ms) = if m.user.id == bot then not_by bot ms else m ∷ not_by bot ms

-- Once ready, the test against the last id never applies again.
collect_ready :
    (last bot : String) (seen : GoMap Bool) (ms : List Message)
    → (last ≡ "") ⊎ (has_key seen last ≡ true)
    → collect_from last bot seen true ms ≡ not_by bot (distinct seen ms)
unfolding collect_from
collect_ready last bot seen [] h = refl
collect_ready last bot seen (m ∷ ms) h = ground (
  arith,
  eq_iff m.id "",
  eq_iff m.id last,
  collect_ready last bot seen ms,
  collect_ready last bot (insert seen m.id true) ms,
  lookup-insert seen m.id true last,
)

collect_waiting :
    (last bot : String) (seen : GoMap Bool) (ms : List Message)
    → last ≢ ""
    → collect_from last bot seen false ms ≡ not_by bot (after last (distinct seen ms))
unfolding collect_from
collect_waiting last bot seen [] h = refl
collect_waiting last bot seen (m ∷ ms) h = ground (
  arith,
  eq_iff m.id last,
  collect_waiting last bot seen ms,
  collect_waiting last bot (insert seen m.id true) ms,
  collect_ready last bot (insert seen m.id true) ms,
  lookup-insert seen m.id true last,
)

-- The loop collects, in their order, the messages by others than the bot that follow the one
-- ingested last, or all of them where none was, after every message with no id and every repeated
-- id is left out.
pub collect_missed_lem :
    (history : List Message) (last bot : String)
    → collect_missed_thread_messages history last bot
      ≡ not_by bot (if last == "" then distinct [] history else after last (distinct [] history))
unfolding collect_missed_thread_messages
collect_missed_lem history last bot = elim (Bool-cases (last == "")) [
  | inl e ↦ rw e (collect_ready last bot [] history (inl ((eq_iff last "").0 e)))
  | inr e ↦ rw e (collect_waiting last bot [] history (ground (arith, eq_iff last "")))
]

-- Each message collected has an id, is neither the one ingested last nor the bot's, and no id is
-- collected twice.
pub collect_missed-IsUnseen :
    (history : List Message) (last bot : String)
    → All (IsUnseen last bot) (collect_missed_thread_messages history last bot)
      × DistinctIds (collect_missed_thread_messages history last bot)
unfolding collect_missed_thread_messages
collect_missed-IsUnseen history last bot = (
  collect_from-IsUnseen last bot [] (last == "") history,
  (collect_from-Fresh last bot [] (last == "") history).1,
)

-- The name that a prompt gives to a message's author.
abbrev author : Message → String
author m = let name = trim_space m.user.username in if name == "" then "user" else name

prompt_lines : List Message → String
prompt_lines [] = ""
prompt_lines (m ∷ ms) = "- " & author m & ": " & trim_space m.text & "\n" & prompt_lines ms

-- The reply line stands where there is more than one message.
reply_line : List Message → String
reply_line [] = ""
reply_line (m ∷ []) = "\nReply to the latest message:\n" & author m & ": " & trim_space m.text
reply_line (m ∷ n ∷ ms) = reply_line (n ∷ ms)

unfoldable pub synthesize_missed_thread_messages_prompt : List Message → String
unfolding prompt_lines reply_line
synthesize_missed_thread_messages_prompt messages =
    "Thread context since your last response:\n\n"
    & prompt_lines messages
    & (if ltb 1 (length messages) then reply_line messages else "")
