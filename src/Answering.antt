-- ===== src/Answering.antt =====
-- How a message is answered: handleResponse of bot/client.go and what it calls. A pass of a select
-- loop is one input with the one reading of the clock that the pass makes, in nanoseconds on a clock
-- that never goes back.
pub mod Rendering
pub mod Streaming
pub mod Respond
mod Tests
use rocketbot.Message.{Message}
use rocketbot.Text.{contains, itoa}
use rocketbot.Http.{World}
use rocketbot.Api.{ApiClient, ApiError, Result, ok, err, post_message, update_message}
use rocketbot.Prelude.{
  ltb, leb, if◌then◌else◌, ℕ, ◌+◌, ◌-◌, ◌*◌, ◌/◌, String, ◌&◌, ◌≡◌, refl, ◌⊎◌, inl, inr, Bool, ◌&&◌,
  ◌==◌,
}

-- How a handler ends: it returns, it has taken all inputs and waits, or it panics.
pub data Outcome : Type 0 where
  returned : Bool → Outcome
  waiting : Outcome
  panicked : Outcome

abbrev pub seconds : ℕ → ℕ
seconds n = n * 1000000000

-- int(elapsed.Round(time.Second).Seconds())
abbrev pub rounded : ℕ → ℕ
rounded elapsed = (elapsed + 500000000) / 1000000000

unfoldable pub notice_text : ℕ → String
notice_text elapsed = "_Still working... (" & itoa (rounded elapsed) & "s)_"

-- Whether the user is to be told that the bot still works.
unfoldable pub notice_due : ℕ → ℕ → ℕ → Bool
notice_due last next now = leb (seconds 10) (now - last) && ltb next now

unfoldable pub should_create_thread : Message → Bool → Bool
should_create_thread message thread_default =
    if thread_default
    then message.thread_id == ""
    else contains message.text "/thread" && message.thread_id == ""

abbrev pub reply_thread : Message → Bool → String
reply_thread message thread_default =
    if should_create_thread message thread_default then message.id else message.thread_id

-- What the message of an id shows in a room, by the replies of the server: what was posted, then the
-- text of the last update that was acknowledged.
pub data Shows (a : ApiClient) (room id : String) : String → World → Type 0 where
  posted_as :
      (text thread : String) (w : World)
      → (post_message a room text thread w).0 ≡ ok id
      → Shows a room id text (post_message a room text thread w).1
  changed_to :
      {old : String} (text : String) (w : World)
      → Shows a room id old w
      → (update_message a room id text w).0 ≡ ok tt
      → Shows a room id text (update_message a room id text w).1
  kept_as :
      {old : String} (text : String) (w : World) (e : ApiError)
      → Shows a room id old w
      → (update_message a room id text w).0 ≡ err e
      → Shows a room id old (update_message a room id text w).1

pub Result-cases :
    {A : Type 0} (r : Result A) → ((x : A) × (r ≡ ok x)) ⊎ ((e : ApiError) × (r ≡ err e))
Result-cases (ok x) = inl (x, refl)
Result-cases (err e) = inr (e, refl)
