-- ===== src/OpenCode/Announced.antt =====
-- The loop over the stream shows only what was announced.
use rocketbot.GoMap.{lookup, has_key}
use rocketbot.Json.{Value, Fields}
use rocketbot.Message.{done}
use rocketbot.OpenCode.Stream.{StreamState, empty_state}
use rocketbot.OpenCode.Loop.{
  Output, emit, reply, Next, go_on, over, broken, Step, decoded, on_decoded, consume,
}
use rocketbot.OpenCode.Roles.{Ids, Grows, Announces, IsKnownOutput, on_event-IsSound}
use rocketbot.Prelude.{
  All, All-append, String, ◌≡◌, refl, ◌⊎◌, inl, inr, Bool, true, Option, none, some, List, [], ◌∷◌,
  ◌++◌,
}

-- A step on a decoded line sends events of known messages only, and learns only what it announces.
record LineIsSound (s : StreamState) (o : Option Fields) (st : Step) : Type 0 where
  sends : All (IsKnownOutput st.state.assistant_msg_ids) st.output
  grows : Grows s.assistant_msg_ids st.state.assistant_msg_ids
  told :
      (k : String)
      → has_key st.state.assistant_msg_ids k ≡ true
      → (has_key s.assistant_msg_ids k ≡ true) ⊎ ((m : Fields) × (o ≡ some m) × Announces m k)

Known-Grows :
    (ids ids' : Ids) (out : List Output)
    → Grows ids ids'
    → All (IsKnownOutput ids) out
    → All (IsKnownOutput ids') out
Known-Grows ids ids' [] g h = tt
Known-Grows ids ids' (emit ev ∷ out) g (inl e, rest) = (inl e, Known-Grows ids ids' out g rest)
Known-Grows ids ids' (emit ev ∷ out) g (inr e, rest) =
    (inr (g ev.message_id e), Known-Grows ids ids' out g rest)
Known-Grows ids ids' (reply i a t ∷ out) g (h, rest) = (tt, Known-Grows ids ids' out g rest)

module _ (unmarshal : String → Option Value) (mode session : String) (taken : String → Bool) where
  -- Some line announces the message as an assistant's.
  abbrev pub AnnouncedIn : List String → String → Type 0
  AnnouncedIn [] id = ⊥
  AnnouncedIn (line ∷ lines) id =
      ((m : Fields) × (decoded unmarshal mode session taken line ≡ some m) × Announces m id)
      ⊎ AnnouncedIn lines id

  on_decoded-IsSound :
      (s : StreamState) (o : Option Fields)
      → LineIsSound s o (on_decoded unmarshal mode session taken s o)
  unfolding on_decoded
  on_decoded-IsSound s none = record { sends = tt; grows = λ k h. h; told = λ k h. inl h }
  on_decoded-IsSound s (some m) =
      let ok = on_event-IsSound mode session taken s m in
      record {
        sends = ok.sends;
        grows = ok.grows;
        told = λ k h. elim (ok.told k h) [ inl old ↦ inl old | inr new ↦ inr (m, refl, new) ];
      }

  record LoopIsSound (s : StreamState) (lines : List String) (st : Step) : Type 0 where
    sends : All (IsKnownOutput st.state.assistant_msg_ids) st.output
    told :
        (k : String)
        → has_key st.state.assistant_msg_ids k ≡ true
        → (has_key s.assistant_msg_ids k ≡ true) ⊎ AnnouncedIn lines k
    grows : Grows s.assistant_msg_ids st.state.assistant_msg_ids

  -- The result of one step, and of the rest of the loop after it.
  abbrev joined : Next → Step → Step → Step
  joined next here later = elim next [
    | go_on ↦ record {
      state = later.state;
      output = here.output ++ later.output;
      next = later.next;
    }
    | over ↦ here
    | broken ↦ here
  ]

  stopped-IsSound :
      (s : StreamState) (line : String) (lines : List String) (here : Step)
      → LineIsSound s (decoded unmarshal mode session taken line) here
      → LoopIsSound s (line ∷ lines) here
  stopped-IsSound s line lines here ok = record {
    sends = ok.sends;
    grows = ok.grows;
    told = λ k h. elim (ok.told k h) [ inl old ↦ inl old | inr new ↦ inr (inl new) ];
  }

  went_on-IsSound :
      (s : StreamState) (line : String) (lines : List String) (here later : Step)
      → LineIsSound s (decoded unmarshal mode session taken line) here
      → LoopIsSound here.state lines later
      → LoopIsSound s
          (line ∷ lines)
          (record { state = later.state; output = here.output ++ later.output; next = later.next })
  went_on-IsSound s line lines here later ok rest = record {
    sends =
        All-append (IsKnownOutput later.state.assistant_msg_ids) here.output later.output
          (Known-Grows here.state.assistant_msg_ids later.state.assistant_msg_ids here.output
            rest.grows ok.sends)
          rest.sends;
    grows = λ k h. rest.grows k (ok.grows k h);
    told = λ k h. elim (rest.told k h) [
      | inr new ↦ inr (inr new)
      | inl known ↦ elim (ok.told k known) [ inl old ↦ inl old | inr new ↦ inr (inl new) ]
    ];
  }

  joined-IsSound :
      (s : StreamState) (line : String) (lines : List String) (here later : Step) (next : Next)
      → LineIsSound s (decoded unmarshal mode session taken line) here
      → LoopIsSound here.state lines later
      → LoopIsSound s (line ∷ lines) (joined next here later)
  joined-IsSound s line lines here later go_on ok rest =
      went_on-IsSound s line lines here later ok rest
  joined-IsSound s line lines here later _ ok rest = stopped-IsSound s line lines here ok

  consume-IsSound :
      (s : StreamState) (lines : List String)
      → LoopIsSound s lines (consume unmarshal mode session taken s lines)
  unfolding consume
  consume-IsSound s [] = record { sends = tt; grows = λ k h. h; told = λ k h. inl h }
  consume-IsSound s (line ∷ lines) =
      let here =
        on_decoded unmarshal mode session taken s (decoded unmarshal mode session taken line) in
      joined-IsSound s line lines here (consume unmarshal mode session taken here.state lines)
        here.next (on_decoded-IsSound s (decoded unmarshal mode session taken line))
        (consume-IsSound here.state lines)

  -- What the loop may send: the closing event, an event of a message that a line announces as an
  -- assistant's, or an answer to a permission request.
  abbrev pub IsAnnouncedOutput : List String → Output → Type 0
  IsAnnouncedOutput lines (emit ev) = (ev.type ≡ done) ⊎ AnnouncedIn lines ev.message_id
  IsAnnouncedOutput lines (reply id answer text) = Unit

  announced_outputs :
      (ids : Ids) (lines : List String) (out : List Output)
      → ((k : String) → has_key ids k ≡ true → AnnouncedIn lines k)
      → All (IsKnownOutput ids) out
      → All (IsAnnouncedOutput lines) out
  announced_outputs ids lines [] g h = tt
  announced_outputs ids lines (emit ev ∷ out) g (inl e, rest) =
      (inl e, announced_outputs ids lines out g rest)
  announced_outputs ids lines (emit ev ∷ out) g (inr e, rest) =
      (inr (g ev.message_id e), announced_outputs ids lines out g rest)
  announced_outputs ids lines (reply i a t ∷ out) g (h, rest) =
      (tt, announced_outputs ids lines out g rest)

  -- From the empty state, whatever lines arrive, each event that the loop sends is the closing one
  -- or belongs to a message that a line announces as an assistant's.
  pub consume-announced :
      (lines : List String)
      → All
          (IsAnnouncedOutput lines)
          (consume unmarshal mode session taken empty_state lines).output
  consume-announced lines =
      let ok = consume-IsSound empty_state lines in
      let st = consume unmarshal mode session taken empty_state lines in
      announced_outputs st.state.assistant_msg_ids lines st.output
        (λ k h. elim (ok.told k h) [ inl old ↦ absurd (unfold lookup in cc) | inr new ↦ new ])
        ok.sends
