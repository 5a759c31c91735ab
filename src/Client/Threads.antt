-- ===== src/Client/Threads.antt =====
-- The active threads of a room: roomThreadKey, isActiveRoomThread, getActiveRoomThreadState and
-- markActiveRoomThread of bot/client.go.
use text.Mathlib.TextLemmas.{append_cancel_left}
use rocketbot.GoMap.{lookup, has_key, insert, lookup-insert}
use rocketbot.Prelude.{
  if◌then◌else◌, is_some, String, ◌&◌, ◌≡◌, Bool, false, not, ◌&&◌, ◌||◌, Option, none, some, arith,
  ◌==◌,
}
use rocketbot.Client.{Client}

unfoldable pub room_thread_key : String → String → String
room_thread_key room thread = room & ":" & thread

unfoldable pub get_active_room_thread_state : Client → String → String → Option String
get_active_room_thread_state c room thread =
    if room == "" || thread == ""
    then none
    else lookup c.active_room_threads (room_thread_key room thread)

unfoldable pub is_active_room_thread : Client → String → String → Bool
is_active_room_thread c room thread =
    if room == "" || thread == ""
    then false
    else has_key c.active_room_threads (room_thread_key room thread)

unfoldable pub mark_active_room_thread : Client → String → String → String → Client
mark_active_room_thread c room thread last = if room == "" || thread == "" then c else record c {
  active_room_threads = insert c.active_room_threads (room_thread_key room thread) last;
}

-- Marking a thread makes it active, with the message that it was marked with, where both ids are
-- given, and changes nothing where one is blank. Every thread under another key keeps its state.
pub get_state-mark :
    (c : Client) (room thread last room' thread' : String)
    → get_active_room_thread_state (mark_active_room_thread c room thread last) room' thread' ≡ (
        if not (room == "" || thread == "")
          && not (room' == "" || thread' == "")
          && room_thread_key room thread == room_thread_key room' thread'
        then some last
        else get_active_room_thread_state c room' thread')
unfolding get_active_room_thread_state mark_active_room_thread
get_state-mark c room thread last room' thread' = ground (
  arith,
  lookup-insert c.active_room_threads (room_thread_key room thread) last
      (room_thread_key room' thread'),
)

-- A thread is active exactly when it has a state.
pub is_active-state :
    (c : Client) (room thread : String)
    → is_active_room_thread c room thread ≡ is_some (get_active_room_thread_state c room thread)
unfolding is_active_room_thread get_active_room_thread_state
is_active-state c room thread = ground arith

-- In one room, the keys of two threads differ where the threads do.
pub room_thread_key-injective :
    (room a b : String) → room_thread_key room a ≡ room_thread_key room b → a ≡ b
unfolding room_thread_key
room_thread_key-injective room a b h =
    append_cancel_left ":" a b (append_cancel_left room (":" & a) (":" & b) h)
