-- ===== src/OpenCode/Roles.antt =====
-- Whose text and tools the generator shows: those of messages announced as an assistant's.
use rocketbot.GoMap.{GoMap, has_key, insert, delete, lookup-insert}
use rocketbot.Json.{Fields}
use rocketbot.Message.{done, RenderEvent}
use rocketbot.OpenCode.Event.{
  event_type_and_session_id, assistant_message_id, permission_request_id, TextPartUpdate,
  text_part_from_event, ToolPartUpdate, tool_part_update,
}
use rocketbot.OpenCode.Stream.{
  PendingPart, StreamState, tool_event, map_tool_update, flush_parts, flush_tools, announce,
  on_tool, hold_back, on_delta, full_text_events, on_full_text, on_text,
}
use rocketbot.OpenCode.Loop.{
  Output, emit, reply, Step, quiet, emits, answer_permission, on_text_event, on_part_event,
  on_event,
}
use rocketbot.Prelude.{
  Bool-cases, if-intro, All, All-append, String, ◌≡◌, refl, ◌∙◌, ◌⊎◌, inl, inr, Bool, true, not,
  ◌&&◌, ◌||◌, Option, none, some, List, [], ◌∷◌, ◌++◌, map, arith, ◌==◌, eq_iff,
}

abbrev pub Ids : Type 0
Ids = GoMap Bool

-- The events of a handler are of a message.
abbrev From : String → List RenderEvent → Type 0
From id = All (λ ev. ev.message_id ≡ id)

flush_parts-From :
    (id : String) (parts : GoMap PendingPart) (s : StreamState)
    → From id (flush_parts id parts s).1
      × ((flush_parts id parts s).0.assistant_msg_ids ≡ s.assistant_msg_ids)
unfolding flush_parts
flush_parts-From id [] s = (tt, refl)
flush_parts-From id ((part, pp) ∷ rest) s = ground (
  arith,
  eq_iff pp.message_id id,
  flush_parts-From id rest s,
  flush_parts-From id rest (record s {
    part_text = insert s.part_text part pp.text;
    pending_parts = delete s.pending_parts part;
  }),
)

flush_tools-From :
    (id : String) (tools : GoMap ToolPartUpdate) (s : StreamState)
    → From id (flush_tools id tools s).1
      × ((flush_tools id tools s).0.assistant_msg_ids ≡ s.assistant_msg_ids)
unfolding flush_tools map_tool_update tool_event
flush_tools-From id [] s = (tt, refl)
flush_tools-From id ((part, tu) ∷ rest) s =
    let s' = (map_tool_update s tu).0 in
    ground (
      arith,
      eq_iff tu.message_id id,
      flush_tools-From id rest s,
      flush_tools-From id rest
          (record s' { pending_tool_parts = delete s'.pending_tool_parts part }),
    )

-- A state knows the ids of another, and one more.
abbrev pub Grows : Ids → Ids → Type 0
Grows ids ids' = (k : String) → has_key ids k ≡ true → has_key ids' k ≡ true

abbrev Known : Ids → List RenderEvent → Type 0
Known ids = All (λ ev. has_key ids ev.message_id ≡ true)

From-Known :
    (ids : Ids) (id : String) (evs : List RenderEvent)
    → has_key ids id ≡ true
    → From id evs
    → Known ids evs
From-Known ids id [] h f = tt
From-Known ids id (ev ∷ evs) h f = (rw f.0 h, From-Known ids id evs h f.1)

Known-append :
    (ids : Ids) (evs evs' : List RenderEvent)
    → Known ids evs
    → Known ids evs'
    → Known ids (evs ++ evs')
Known-append ids evs evs' = All-append (λ ev. has_key ids ev.message_id ≡ true) evs evs'

-- After an announcement the message is known, and every event that it flushes is of that message.
announce-Known :
    (s : StreamState) (id : String)
    → Known (announce s id).0.assistant_msg_ids (announce s id).1
      × ((announce s id).0.assistant_msg_ids ≡ insert s.assistant_msg_ids id true)
unfolding announce
announce-Known s id =
    let ids = insert s.assistant_msg_ids id true in
    let known = record s { assistant_msg_ids = ids } in
    let texts = flush_parts id known.pending_parts known in
    let tools = flush_tools id texts.0.pending_tool_parts texts.0 in
    let texts_ok = flush_parts-From id known.pending_parts known in
    let tools_ok = flush_tools-From id texts.0.pending_tool_parts texts.0 in
    let here : has_key ids id ≡ true =
      ground (arith, lookup-insert s.assistant_msg_ids id true id, eq_iff id id) in
    let same : tools.0.assistant_msg_ids ≡ ids = tools_ok.1 ∙ texts_ok.1 in
    (
      rw same (
          Known-append ids texts.1 tools.1 (From-Known ids id texts.1 here texts_ok.0)
            (From-Known ids id tools.1 here tools_ok.0)),
      same,
    )

on_tool-Known :
    (s : StreamState) (upd : ToolPartUpdate)
    → Known (on_tool s upd).0.assistant_msg_ids (on_tool s upd).1
      × ((on_tool s upd).0.assistant_msg_ids ≡ s.assistant_msg_ids)
unfolding on_tool map_tool_update tool_event
on_tool-Known s upd = ground arith

on_text-Known :
    (s : StreamState) (txt : TextPartUpdate)
    → Known (on_text s txt).0.assistant_msg_ids (on_text s txt).1
      × ((on_text s txt).0.assistant_msg_ids ≡ s.assistant_msg_ids)
unfolding on_text on_delta on_full_text full_text_events hold_back
on_text-Known s txt = ground arith

-- A payload that announces a message as an assistant's.
abbrev pub Announces : Fields → String → Type 0
Announces m id =
    ((event_type_and_session_id m).0 ≡ "message.updated") × (assistant_message_id m ≡ some id)

-- What is sent is the closing event, or an event of a known message.
abbrev pub IsKnownOutput : Ids → Output → Type 0
IsKnownOutput ids (emit ev) = (ev.type ≡ done) ⊎ (has_key ids ev.message_id ≡ true)
IsKnownOutput ids (reply id answer text) = Unit

-- A step sends events of known messages only, and knows what was known before and what its payload
-- announces.
pub record IsSound (s : StreamState) (m : Fields) (st : Step) : Type 0 where
  pub sends : All (IsKnownOutput st.state.assistant_msg_ids) st.output
  pub grows : Grows s.assistant_msg_ids st.state.assistant_msg_ids
  pub told :
      (k : String)
      → has_key st.state.assistant_msg_ids k ≡ true
      → (has_key s.assistant_msg_ids k ≡ true) ⊎ Announces m k

pub quiet-IsSound : (s : StreamState) (m : Fields) → IsSound s m (quiet s)
quiet-IsSound s m = record { sends = tt; grows = λ k h. h; told = λ k h. inl h }

Known-outputs :
    (ids : Ids) (evs : List RenderEvent) → Known ids evs → All (IsKnownOutput ids) (map emit evs)
Known-outputs ids [] h = tt
Known-outputs ids (ev ∷ evs) h = (inr h.0, Known-outputs ids evs h.1)

emits-IsSound :
    (s : StreamState) (m : Fields) (r : StreamState × List RenderEvent)
    → Known r.0.assistant_msg_ids r.1 × (r.0.assistant_msg_ids ≡ s.assistant_msg_ids)
    → IsSound s m (emits r)
emits-IsSound s m (s', evs) h = record {
  sends = Known-outputs s'.assistant_msg_ids evs h.0;
  grows = λ k e. rw h.1 e;
  told = λ k e. inl (rw (← h.1) e);
}

told_by_insert :
    (ids : Ids) (id k : String) (m : Fields)
    → Announces m id
    → has_key (insert ids id true) k ≡ true
    → (has_key ids k ≡ true) ⊎ Announces m k
told_by_insert ids id k m a h = elim (Bool-cases (id == k)) [
  | inl e ↦ inr (rw (← (eq_iff id k).0 e) a)
  | inr e ↦ inl (ground (arith, lookup-insert ids id true k))
]

announce-IsSound :
    (s : StreamState) (m : Fields) (id : String)
    → Announces m id
    → IsSound s m (emits (announce s id))
announce-IsSound s m id a =
    let h = announce-Known s id in
    record {
      sends = Known-outputs (announce s id).0.assistant_msg_ids (announce s id).1 h.0;
      grows = λ k e. rw h.1 (ground (arith, lookup-insert s.assistant_msg_ids id true k));
      told = λ k e. told_by_insert s.assistant_msg_ids id k m a (rw h.1 at e);
    }

on_text_event-IsSound :
    (session : String) (s : StreamState) (m : Fields) (o : Option TextPartUpdate)
    → IsSound s m (on_text_event session s o)
unfolding on_text_event
on_text_event-IsSound session s m none = quiet-IsSound s m
on_text_event-IsSound session s m (some txt) =
    if-intro (IsSound s m) (txt.session_id == session)
      (λ e. emits-IsSound s m (on_text s txt) (on_text-Known s txt)) (λ e. quiet-IsSound s m)

on_part_event-IsSound :
    (session : String) (s : StreamState) (m : Fields) (o : Option ToolPartUpdate)
    → IsSound s m (on_part_event session s m o)
unfolding on_part_event
on_part_event-IsSound session s m none = on_text_event-IsSound session s m (text_part_from_event m)
on_part_event-IsSound session s m (some upd) =
    if-intro (IsSound s m) (upd.session_id == session)
      (λ e. emits-IsSound s m (on_tool s upd) (on_tool-Known s upd))
      (λ e. on_text_event-IsSound session s m (text_part_from_event m))

answer_permission-IsSound :
    (mode : String) (taken : Bool) (id : String) (s : StreamState) (m : Fields)
    → IsSound s m (answer_permission mode taken id s)
unfolding answer_permission
answer_permission-IsSound mode taken id s m = record {
  sends =
      if-intro (λ o. All (IsKnownOutput s.assistant_msg_ids) (o ∷ [])) (mode == "allow")
        (λ e. (tt, tt)) (λ e. (tt, tt));
  grows = λ k h. h;
  told = λ k h. inl h;
}

module _ (mode session : String) (taken : String → Bool) (s : StreamState) (m : Fields) where
  permission-IsSound :
      (o : Option String)
      → IsSound s m (elim o [ none ↦ quiet s | some id ↦ answer_permission mode (taken id) id s ])
  permission-IsSound none = quiet-IsSound s m
  permission-IsSound (some id) = answer_permission-IsSound mode (taken id) id s m

  announced-IsSound :
      (event_type_and_session_id m).0 ≡ "message.updated"
      → (o : Option String) → assistant_message_id m ≡ o
      → IsSound s m (elim o [ none ↦ quiet s | some id ↦ emits (announce s id) ])
  announced-IsSound h none e = quiet-IsSound s m
  announced-IsSound h (some id) e = announce-IsSound s m id (h, e)

  pub on_event-IsSound : IsSound s m (on_event mode session taken s m)
  unfolding on_event
  on_event-IsSound =
      let typ = (event_type_and_session_id m).0 in
      let sid = (event_type_and_session_id m).1 in
      let P = IsSound s m in
      if-intro P (typ == "" || (not (typ == "server.connected") && not (sid == session)))
        (λ _. quiet-IsSound s m)
        λ _.
          if-intro P (typ == "session.idle" && sid == session)
            (λ _. record { sends = (inl refl, tt); grows = λ k h. h; told = λ k h. inl h })
            λ _.
              if-intro P (typ == "permission.asked")
                (λ _. permission-IsSound (permission_request_id m))
                λ _.
                  if-intro P (typ == "message.updated")
                    (λ e.
                      announced-IsSound ((eq_iff typ "message.updated").0 e)
                        (assistant_message_id m) refl)
                    λ _.
                      if-intro P (typ == "message.part.updated")
                        (λ _. on_part_event-IsSound session s m (tool_part_update m))
                        λ _.
                          if-intro P (typ == "message.part.delta")
                            (λ _. on_text_event-IsSound session s m (text_part_from_event m))
                            (λ _. quiet-IsSound s m)
