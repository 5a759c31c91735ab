-- ===== src/OpenCode/Replay.antt =====
-- A client that adds each delta to its part, and puts each set text in its part's place, has the text
-- that the generator keeps.
use rocketbot.GoMap.{GoMap, has_key, insert, delete, lookup-insert}
use rocketbot.Message.{RenderEventType, text_delta, text_set, RenderEvent}
use rocketbot.Text.{has_prefix, trim_prefix}
use rocketbot.Text.Prefix.{trim_prefix_lem}
use rocketbot.OpenCode.Event.{TextPartUpdate, ToolPartUpdate}
use rocketbot.OpenCode.Stream.{
  PendingPart, StreamState, text_at, tool_call_key, tool_event_type, tool_event, map_tool_update,
  flush_parts, flush_tools, announce, remember_type, hold_back, on_delta, full_text_events,
  on_full_text, delta_type, on_text,
}
use rocketbot.Prelude.{
  if◌then◌else◌, Bool-cases, if-intro, String, ◌&◌, ◌≡◌, refl, sym, ap, ◌∙◌, inl, inr, Bool, true,
  false, not, ◌&&◌, ◌||◌, List, [], ◌∷◌, ◌++◌, arith, ◌==◌, eq_iff, text_append-nil,
}

-- What an event does to a client's texts.
abbrev pub replay_as : RenderEventType → GoMap String → RenderEvent → GoMap String
replay_as text_delta m ev = insert m ev.part_id (text_at m ev.part_id & ev.text)
replay_as text_set m ev = insert m ev.part_id ev.text
replay_as _ m ev = m

abbrev pub replay : GoMap String → List RenderEvent → GoMap String
replay m [] = m
replay m (ev ∷ evs) = replay (replay_as ev.type m ev) evs

-- The same text in each part.
abbrev pub SameText : GoMap String → GoMap String → Type 0
SameText m m' = (k : String) → text_at m k ≡ text_at m' k

-- A handler's events keep a client's texts those of the state.
abbrev pub Replays : StreamState → StreamState × List RenderEvent → Type 0
Replays s r = (m : GoMap String) → SameText m s.part_text → SameText (replay m r.1) r.0.part_text

replay-append :
    (m : GoMap String) (evs evs' : List RenderEvent)
    → replay m (evs ++ evs') ≡ replay (replay m evs) evs'
replay-append m [] evs' = refl
replay-append m (ev ∷ evs) evs' = replay-append (replay_as ev.type m ev) evs evs'

pub text_at-insert :
    (m : GoMap String) (k v j : String)
    → text_at (insert m k v) j ≡ (if k == j then v else text_at m j)
text_at-insert m k v j = ground (arith, lookup-insert m k v j)

pub SameText-insert :
    (m m' : GoMap String) (k v v' : String)
    → SameText m m'
    → v ≡ v'
    → SameText (insert m k v) (insert m' k v')
SameText-insert m m' k v v' h e j =
    ground (arith, text_at-insert m k v j, text_at-insert m' k v' j, h j)

-- A write of the text that is there already changes no text.
SameText-rewrite :
    (m m' : GoMap String) (k v : String)
    → SameText m m'
    → v ≡ text_at m' k
    → SameText m (insert m' k v)
SameText-rewrite m m' k v h e j = ground (arith, text_at-insert m' k v j, eq_iff k j, h j)

on_delta-Replays : (s : StreamState) (txt : TextPartUpdate) → Replays s (on_delta s txt)
unfolding on_delta
on_delta-Replays s txt m h = elim (Bool-cases (txt.text == "")) [
  | inl e ↦ rw e (
      SameText-rewrite m s.part_text txt.part_id _ h (
        ap (λ t. text_at s.part_text txt.part_id & t) ((eq_iff txt.text "").0 e)
        ∙ text_append-nil (text_at s.part_text txt.part_id)))
  | inr e ↦
      rw e
        (SameText-insert m s.part_text txt.part_id _ _ h (ap (λ t. t & txt.text) (h txt.part_id)))
]

-- No update takes a text away: where it is empty, its part has no text yet.
abbrev pub IsKeeping : StreamState → TextPartUpdate → Type 0
IsKeeping s txt = txt.is_delta ≡ false → txt.text ≡ "" → text_at s.part_text txt.part_id ≡ ""

on_full_text-Replays :
    (s : StreamState) (txt : TextPartUpdate)
    → (txt.text ≡ "" → text_at s.part_text txt.part_id ≡ "")
    → Replays s (on_full_text s txt)
unfolding on_full_text full_text_events
on_full_text-Replays s txt keeps m h =
    let part = txt.part_id in
    let prev = text_at s.part_text part in
    let P : List RenderEvent → Type 0 =
      λ evs. SameText (replay m evs) (insert s.part_text part txt.text) in
    let delta = trim_prefix txt.text prev in
    if-intro P (txt.text == "")
      (λ e.
        let none_left : txt.text ≡ "" = (eq_iff txt.text "").0 e in
        SameText-rewrite m s.part_text part _ h (none_left ∙ sym (keeps none_left)))
      λ _.
        if-intro P (not (prev == "") && has_prefix txt.text prev)
          (λ e.
            let grows : prev & delta ≡ txt.text = trim_prefix_lem txt.text prev (ground arith) in
            if-intro P (delta == "")
              (λ e'.
                SameText-rewrite m s.part_text part _ h
                  (sym grows ∙ ap (λ t. prev & t) ((eq_iff delta "").0 e') ∙ text_append-nil prev))
              (λ _.
                SameText-insert m s.part_text part _ _ h (ap (λ t. t & delta) (h part) ∙ grows)))
          (λ _. SameText-insert m s.part_text part _ _ h refl)

part_text-remember_type :
    (s : StreamState) (part type : String) → (remember_type s part type).part_text ≡ s.part_text
part_text-remember_type s part type = ground arith

-- Whatever text update arrives, unless it is a full text that takes a text away, a client whose texts
-- are those of the state has the new state's texts once it applies the events that are sent.
pub on_text-Replays :
    (s : StreamState) (txt : TextPartUpdate) → IsKeeping s txt → Replays s (on_text s txt)
unfolding on_text hold_back
on_text-Replays s txt keeps m h =
    let typed = remember_type s txt.part_id txt.part_type in
    let same = part_text-remember_type s txt.part_id txt.part_type in
    let h' : SameText m typed.part_text = rw same h in
    let P : StreamState × List RenderEvent → Type 0 = λ r. SameText (replay m r.1) r.0.part_text in
    if-intro P (txt.is_delta && not (delta_type typed txt == "text")) (λ _. h')
      λ _.
        if-intro P (not (has_key typed.assistant_msg_ids txt.message_id)) (λ _. h')
          λ _.
            if-intro P txt.is_delta (λ _. on_delta-Replays typed txt m h')
              (λ e. on_full_text-Replays typed txt (λ e'. rw same (keeps e e')) m h')

flush_parts-Replays :
    (id : String) (parts : GoMap PendingPart) (s : StreamState) → Replays s (flush_parts id parts s)
unfolding flush_parts
flush_parts-Replays id [] s m h = h
flush_parts-Replays id ((part, pp) ∷ rest) s m h =
    let s' = record s {
      part_text = insert s.part_text part pp.text;
      pending_parts = delete s.pending_parts part;
    } in
    if-intro (λ (r : StreamState × List RenderEvent). SameText (replay m r.1) r.0.part_text)
      (not (pp.message_id == id) || pp.text == "") (λ _. flush_parts-Replays id rest s m h)
      (λ _.
        flush_parts-Replays id rest s' (insert m part pp.text)
          (SameText-insert m s.part_text part _ _ h refl))

-- A tool's event is no text's.
tool_event_replay :
    (m : GoMap String) (tu : ToolPartUpdate) (seen : Bool)
    → replay_as (tool_event_type tu.status seen) m (tool_event tu (tool_event_type tu.status seen))
      ≡ m
unfolding tool_event_type
tool_event_replay m tu seen = ground arith

flush_tools-Replays :
    (id : String) (tools : GoMap ToolPartUpdate) (s : StreamState)
    → Replays s (flush_tools id tools s)
unfolding flush_tools map_tool_update tool_event
flush_tools-Replays id [] s m h = h
flush_tools-Replays id ((part, tu) ∷ rest) s m h =
    let seen = has_key s.seen_tool_calls (tool_call_key tu) in
    let s' = (map_tool_update s tu).0 in
    if-intro (λ (r : StreamState × List RenderEvent). SameText (replay m r.1) r.0.part_text)
      (not (tu.message_id == id)) (λ _. flush_tools-Replays id rest s m h)
      (λ _.
        flush_tools-Replays id rest
          (record s' { pending_tool_parts = delete s'.pending_tool_parts part })
          (replay_as (tool_event_type tu.status seen) m
            (tool_event tu (tool_event_type tu.status seen)))
          (rw (tool_event_replay m tu seen) h))

-- Where a message is announced and what was held back of it is sent, a client whose texts are those
-- of the state has the new state's texts once it applies the events, for every order in which the
-- parts are visited.
pub announce-Replays : (s : StreamState) (id : String) → Replays s (announce s id)
unfolding announce
announce-Replays s id m h =
    let known = record s { assistant_msg_ids = insert s.assistant_msg_ids id true } in
    let texts = flush_parts id known.pending_parts known in
    let tools = flush_tools id texts.0.pending_tool_parts texts.0 in
    rw (replay-append m texts.1 tools.1) (
      flush_tools-Replays id texts.0.pending_tool_parts texts.0 (replay m texts.1)
        (flush_parts-Replays id known.pending_parts known m h))
