-- ===== src/Session/Replay/Working.antt =====
-- The working messages of a reconstructed state.
use cogito_ai.Prelude.{
  Bool, true, false, ◌≡◌, refl, sym, ap, ◌∙◌, Option, none, some, List, [], ◌∷◌, ◌++◌, append-nil,
  append_assoc, reverse, take, drop, take-append-drop,
}
use mathlib.Core.List.{reverse-append, reverse-reverse}
use cogito_ai.Prelude.Text.{Text}
use cogito_ai.Prelude.Results.{ok, bind_ok, ok_injective}
use cogito_ai.Session.Events.{EventPayload, HarnessEvent}
use cogito_ai.Session.Compact.{CompactState}
use cogito_ai.Session.Replay.{
  MessageRole, ConversationMessage, SessionState, Progress, last_four, add_message, compact,
  apply_payload, replay_event, replay, is_resumed, initial_state, reconstruct_state,
}
use cogito_ai.Session.Replay.Summary.{found, left_by, replay_event_ok, reconstruct_state_ok}

-- The working messages end the list of messages, and there are none without a compaction.
pub record IsConsistent (s : SessionState) : Type 0 where
  pub earlier : List ConversationMessage
  pub ends : s.messages ≡ earlier ++ s.working_messages
  pub none_before : s.continuation ≡ none → s.working_messages ≡ []

last_four-ends : (l : List ConversationMessage) → l ≡ reverse (drop 4 (reverse l)) ++ last_four l
unfolding last_four
last_four-ends l =
    sym (reverse-reverse l)
    ∙ ap (λ (x : List ConversationMessage). reverse x) (sym (take-append-drop 4 (reverse l)))
    ∙ reverse-append (take 4 (reverse l)) (drop 4 (reverse l))

compact-IsConsistent : (c : CompactState) (s : SessionState) → IsConsistent (compact c s)
unfolding compact
compact-IsConsistent c s = record {
  earlier = reverse (drop 4 (reverse s.messages));
  ends = last_four-ends s.messages;
  none_before = λ h. absurd (cc h);
}

add_message-IsConsistent :
    (role : MessageRole) (content : Text) (s : SessionState)
    → IsConsistent s
    → IsConsistent (add_message role content s)
unfolding add_message
add_message-IsConsistent role content s i = split s.continuation refl
  where
    m : ConversationMessage
    m = record { role = role; text = content }

    split :
        (o : Option CompactState) → s.continuation ≡ o → IsConsistent (add_message role content s)
    split none e = record {
      earlier = s.messages ++ m ∷ [];
      ends = rw (e, add_message, i.none_before e) (sym (append-nil (s.messages ++ m ∷ [])));
      none_before = λ _. rw (e, add_message) (i.none_before e);
    }
    split (some c) e = record {
      earlier = i.earlier;
      ends =
          rw (e, add_message)
            (ap (λ (l : List ConversationMessage). l ++ m ∷ []) i.ends
              ∙ append_assoc i.earlier s.working_messages (m ∷ []));
      none_before = λ h. absurd (cc (h, e));
    }

apply_payload-IsConsistent :
    (p : EventPayload) (t : Bool) (s : SessionState)
    → IsConsistent s
    → IsConsistent (apply_payload p (t, s)).1
unfolding apply_payload
apply_payload-IsConsistent (EventPayload.user_message content) t s i =
    add_message-IsConsistent MessageRole.user content s i
apply_payload-IsConsistent (EventPayload.assistant_message content) t s i =
    add_message-IsConsistent MessageRole.assistant content s i
apply_payload-IsConsistent (EventPayload.context_compacted _ _ c) t s i = compact-IsConsistent c s
apply_payload-IsConsistent _ t s i = record {
  earlier = i.earlier;
  ends = i.ends;
  none_before = i.none_before;
}

left_by-IsConsistent :
    (t : Bool) (s : SessionState) (e : HarnessEvent)
    → IsConsistent s
    → IsConsistent (left_by (t, s) e).1
unfolding left_by found
left_by-IsConsistent t s e i =
    let next =
      apply_payload-IsConsistent e.payload (found (t, s) e.payload).0 (found (t, s) e.payload).1
        (found-IsConsistent (is_resumed e.payload) refl) in
    record { earlier = next.earlier; ends = next.ends; none_before = next.none_before }
  where
    found-IsConsistent :
        (b : Bool) → is_resumed e.payload ≡ b → IsConsistent (found (t, s) e.payload).1
    found-IsConsistent true h =
        rw (h, found) (record { earlier = i.earlier; ends = i.ends; none_before = i.none_before })
    found-IsConsistent false h = rw (h, found) i

replay-IsConsistent :
    (t : Bool) (s : SessionState) (events : List HarnessEvent) {p : Progress}
    → replay (t, s) events ≡ ok p
    → IsConsistent s
    → IsConsistent p.1
unfolding replay
replay-IsConsistent t s [] h i = rw (← ok_injective h) i
replay-IsConsistent t s (e ∷ es) h i =
    let (q, first, rest) = bind_ok (replay_event (t, s) e) _ h in
    let (k, x) = replay_event_ok t s e first in
    replay-IsConsistent (left_by (t, s) e).0 (left_by (t, s) e).1 es (rw x at rest)
      (left_by-IsConsistent t s e i)

-- In a reconstructed state the working messages are the end of all messages, and a session that
-- was never compacted has none.
pub reconstruct_state-IsConsistent :
    (session : Text) (events : List HarnessEvent) {s : SessionState}
    → reconstruct_state session events ≡ ok s
    → IsConsistent s
unfolding initial_state
reconstruct_state-IsConsistent session events h =
    let (p, k, r, e) = reconstruct_state_ok session events h in
    rw (← e) (
      replay-IsConsistent false (initial_state session) events r
        (record { earlier = []; ends = refl; none_before = λ _. refl }))
