-- ===== src/Session/Replay/Summary.antt =====
-- What the reconstructed state says of a history: its counters are tallies of the events, its
-- messages are the history's, and its working messages are the end of them.
use cogito_ai.Prelude.{
  ℕ, ◌+◌, Bool, true, false, not, ◌&&◌, ◌≡◌, refl, sym, ap, ◌∙◌, some, List, [], ◌∷◌, ◌++◌,
  if◌then◌else◌, Bool-cases, inl, inr, arith, append-nil, append_assoc,
}
use cogito_ai.Prelude.Text.{Text}
use cogito_ai.Prelude.Results.{ok, bind_ok, ok_injective, err-ne-ok}
use cogito_ai.Session.Events.{EventPayload, HarnessEvent}
use cogito_ai.Session.Replay.{
  active, user, assistant, ConversationMessage, SessionState, Progress, apply_payload, replay_event,
  replay, follows_terminal, is_resumed, initial_state, starts_session, validate_events,
  reconstruct_state,
}

-- The message that an event adds to the conversation.
unfoldable pub message_of : EventPayload → List ConversationMessage
message_of (EventPayload.user_message content) = record { role = user; text = content } ∷ []
message_of (EventPayload.assistant_message content) =
    record { role = assistant; text = content } ∷ []
message_of _ = []

unfoldable pub is_tool_event : EventPayload → Bool
is_tool_event (EventPayload.tool_requested _ _) = true
is_tool_event (EventPayload.tool_approved _ _) = true
is_tool_event (EventPayload.tool_denied _ _) = true
is_tool_event (EventPayload.tool_started _) = true
is_tool_event (EventPayload.tool_output _ _) = true
is_tool_event (EventPayload.tool_completed _) = true
is_tool_event (EventPayload.tool_failed _ _) = true
is_tool_event _ = false

unfoldable pub is_file_change : EventPayload → Bool
is_file_change (EventPayload.file_changed _ _) = true
is_file_change _ = false

unfoldable pub is_checkpoint : EventPayload → Bool
is_checkpoint (EventPayload.checkpoint_created _ _) = true
is_checkpoint _ = false

unfoldable pub is_verification : EventPayload → Bool
is_verification (EventPayload.verification_result _ _ _ _ _ _ _ _ _ _) = true
is_verification _ = false

unfoldable pub is_compaction : EventPayload → Bool
is_compaction (EventPayload.context_compacted _ _ _) = true
is_compaction _ = false

abbrev one_if : Bool → ℕ
one_if true = 1
one_if false = 0

-- The number of events whose payload passes a test, and the messages of all events.
unfoldable pub tally : (EventPayload → Bool) → List HarnessEvent → ℕ
tally p [] = 0
tally p (e ∷ es) = one_if (p e.payload) + tally p es

unfoldable pub conversation : List HarnessEvent → List ConversationMessage
conversation [] = []
conversation (e ∷ es) = message_of e.payload ++ conversation es

-- How a state grows by some events.
pub record Grows (s s' : SessionState) (events : List HarnessEvent) : Type 0 where
  pub same_session : s'.session_id ≡ s.session_id
  pub messages_grow : s'.messages ≡ s.messages ++ conversation events
  pub tools_grow : s'.tool_events ≡ s.tool_events + tally is_tool_event events
  pub files_grow : s'.files_changed ≡ s.files_changed + tally is_file_change events
  pub checkpoints_grow : s'.checkpoints_created ≡ s.checkpoints_created + tally is_checkpoint events
  pub verifications_grow :
      s'.verification_results ≡ s.verification_results + tally is_verification events
  pub compactions_grow : s'.context_compactions ≡ s.context_compactions + tally is_compaction events

abbrev Alone : EventPayload → SessionState → SessionState → Type 0
Alone p s s' =
    (s'.session_id ≡ s.session_id)
    × (s'.messages ≡ s.messages ++ message_of p)
    × (s'.tool_events ≡ s.tool_events + one_if (is_tool_event p))
    × (s'.files_changed ≡ s.files_changed + one_if (is_file_change p))
    × (s'.checkpoints_created ≡ s.checkpoints_created + one_if (is_checkpoint p))
    × (s'.verification_results ≡ s.verification_results + one_if (is_verification p))
    × (s'.context_compactions ≡ s.context_compactions + one_if (is_compaction p))

apply_payload-Alone :
    (p : EventPayload) (t : Bool) (s : SessionState) → Alone p s (apply_payload p (t, s)).1
unfolding apply_payload message_of is_tool_event is_file_change is_checkpoint is_verification
    is_compaction
apply_payload-Alone (EventPayload.user_message _) t s =
    (refl, refl, omega arith, omega arith, omega arith, omega arith, omega arith)
apply_payload-Alone (EventPayload.assistant_message _) t s =
    (refl, refl, omega arith, omega arith, omega arith, omega arith, omega arith)
apply_payload-Alone _ t s = (
  refl,
  sym (append-nil s.messages),
  omega arith,
  omega arith,
  omega arith,
  omega arith,
  omega arith,
)

-- The state in which an event finds the session, and the state that it leaves.
unfoldable pub found : Progress → EventPayload → Progress
found (t, s) p = if is_resumed p then (false, record s { status = active }) else (t, s)

unfoldable pub left_by : Progress → HarnessEvent → Progress
left_by p e =
    let next = apply_payload e.payload (found p e.payload) in
    (next.0, record (next.1) { last_event_id = some e.event_id })

-- A turn of the loop fails exactly for an event that may not follow the end of the session.
pub replay_event_lem :
    (t : Bool) (s : SessionState) (e : HarnessEvent)
    → (t && not (follows_terminal e.payload)) ≡ false
    → replay_event (t, s) e ≡ ok (left_by (t, s) e)
unfolding replay_event left_by found
replay_event_lem t s e h = rw (h, replay_event)

pub replay_event_ok :
    (t : Bool) (s : SessionState) (e : HarnessEvent) {p : Progress}
    → replay_event (t, s) e ≡ ok p
    → ((t && not (follows_terminal e.payload)) ≡ false) × (p ≡ left_by (t, s) e)
unfolding replay_event
replay_event_ok t s e h = elim (Bool-cases (t && not (follows_terminal e.payload))) [
  | inl k ↦ absurd (err-ne-ok (rw (k, replay_event) at h))
  | inr k ↦ (k, sym (ok_injective (rw (replay_event_lem t s e k) at h)))
]

Alone-found :
    (t : Bool) (s : SessionState) (p q : EventPayload) (s' : SessionState)
    → Alone p (found (t, s) q).1 s'
    → Alone p s s'
unfolding found
Alone-found t s p q s' a = elim (Bool-cases (is_resumed q)) [
  | inl h ↦ rw (h, found) at a
  | inr h ↦ rw (h, found) at a
]

left_by-Alone :
    (t : Bool) (s : SessionState) (e : HarnessEvent) → Alone e.payload s (left_by (t, s) e).1
unfolding left_by
left_by-Alone t s e =
    Alone-found t s e.payload e.payload (left_by (t, s) e).1
      (apply_payload-Alone e.payload (found (t, s) e.payload).0 (found (t, s) e.payload).1)

pub replay-Grows :
    (t : Bool) (s : SessionState) (events : List HarnessEvent) {p : Progress}
    → replay (t, s) events ≡ ok p
    → Grows s p.1 events
unfolding replay tally conversation
replay-Grows t s [] h = rw (← ok_injective h) (record {
  same_session = refl;
  messages_grow = sym (append-nil s.messages);
  tools_grow = omega arith;
  files_grow = omega arith;
  checkpoints_grow = omega arith;
  verifications_grow = omega arith;
  compactions_grow = omega arith;
})
replay-Grows t s (e ∷ es) h =
    let (q, first, rest) = bind_ok (replay_event (t, s) e) _ h in
    let (k, x) = replay_event_ok t s e first in
    let (a0, a1, a2, a3, a4, a5, a6) = left_by-Alone t s e in
    let g = replay-Grows (left_by (t, s) e).0 (left_by (t, s) e).1 es (rw x at rest) in
    record {
      same_session = g.same_session ∙ a0;
      messages_grow =
          g.messages_grow
          ∙ ap (λ (l : List ConversationMessage). l ++ conversation es) a1
          ∙ append_assoc s.messages (message_of e.payload) (conversation es);
      tools_grow = omega arith;
      files_grow = omega arith;
      checkpoints_grow = omega arith;
      verifications_grow = omega arith;
      compactions_grow = omega arith;
    }

pub reconstruct_state_ok :
    (session : Text) (events : List HarnessEvent) {s : SessionState}
    → reconstruct_state session events ≡ ok s
    → (p : Progress) × (starts_session events ≡ true)
      × (replay (false, initial_state session) events ≡ ok p)
      × (p.1 ≡ s)
unfolding reconstruct_state
reconstruct_state_ok session events h =
    let (ids, v, rest) = bind_ok (validate_events session events) _ h in
    elim (Bool-cases (starts_session events)) [
      | inr k ↦ absurd (err-ne-ok (rw k at rest))
      | inl k ↦
          let (p, r, e) = bind_ok (replay (false, initial_state session) events) _ (rw k at rest) in
          (p, k, r, ok_injective e)
    ]

-- A reconstructed state counts the tool events, file changes, checkpoints, verification results and
-- compactions of the history, and holds all of its user and assistant messages in order.
pub reconstruct_state-Grows :
    (session : Text) (events : List HarnessEvent) {s : SessionState}
    → reconstruct_state session events ≡ ok s
    → Grows (initial_state session) s events
reconstruct_state-Grows session events h =
    let (p, k, r, e) = reconstruct_state_ok session events h in
    rw (← e) (replay-Grows false (initial_state session) events r)
