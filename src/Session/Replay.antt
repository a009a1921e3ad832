-- ===== src/Session/Replay.antt =====
-- Validation of a session's events and reconstruction of its state, of
-- crates/harness-session/src/lib.rs. The counters are `usize` and cannot reach its end here.
pub mod Validation
pub mod Summary
pub mod Working
pub mod Ending
use cogito_ai.Prelude.{
  ℕ, suc, ◌+◌, Bool, true, false, not, ◌||◌, ◌&&◌, Option, none, some, List, [], ◌∷◌, ◌++◌, ◌==◌,
  if◌then◌else◌, any, reverse, take,
}
use cogito_ai.Prelude.Text.{Text, text, text_eq, decimal}
use cogito_ai.Prelude.Results.{Result, ok, err, ◌>>=◌}
use cogito_ai.Core.Errors.{Error, invalid_event}
use cogito_ai.Session.Tasks.{TaskRun}
use cogito_ai.Session.Compact.{CompactState}
use cogito_ai.Session.Events.{EventPayload, event_type, event_type_eq, HarnessEvent}

pub data SessionStatus : Type 0 where
  active completed failed : SessionStatus

pub data MessageRole : Type 0 where
  user assistant : MessageRole

pub record ConversationMessage : Type 0 where
  pub role : MessageRole
  pub text : Text

pub record SessionState : Type 0 where
  pub session_id : Text
  pub status : SessionStatus
  pub messages : List ConversationMessage
  pub tool_events : ℕ
  pub files_changed : ℕ
  pub checkpoints_created : ℕ
  pub verification_results : ℕ
  pub context_compactions : ℕ
  pub continuation : Option CompactState
  pub working_messages : List ConversationMessage
  pub task_run : Option TaskRun
  pub last_event_id : Option Text

-- `validate_event` with the set of the identifiers seen so far as a list.
unfoldable pub validate_event : HarnessEvent → List Text → Result Error (List Text)
validate_event event ids =
    if not (event.schema_version == 1)
    then err (invalid_event (text "unsupported schema version " ++ decimal event.schema_version))
    else if not (event_type_eq event.event_type (event_type event.payload))
    then err (invalid_event (text "event type does not match payload for " ++ event.event_id))
    else if any (text_eq event.event_id) ids
    then err (invalid_event (text "duplicate event ID " ++ event.event_id))
    else ok (event.event_id ∷ ids)

-- The loop of `validate_events`.
unfoldable pub validate_from : Text → List Text → List HarnessEvent → Result Error (List Text)
validate_from session ids [] = ok ids
validate_from session ids (event ∷ events) =
    if not (text_eq event.session_id session)
    then err
        (invalid_event (text "event " ++ (event.event_id ++ text " belongs to another session")))
    else do ids' ← validate_event event ids; validate_from session ids' events

unfoldable pub validate_events : Text → List HarnessEvent → Result Error (List Text)
validate_events session events = validate_from session [] events

unfoldable pub is_started : EventPayload → Bool
is_started (EventPayload.session_started _) = true
is_started _ = false

unfoldable pub is_resumed : EventPayload → Bool
is_resumed (EventPayload.session_resumed _) = true
is_resumed _ = false

-- What may follow a terminal event.
unfoldable pub follows_terminal : EventPayload → Bool
follows_terminal (EventPayload.session_resumed _) = true
follows_terminal (EventPayload.model_changed _ _ _) = true
follows_terminal _ = false

unfoldable pub add_message : MessageRole → Text → SessionState → SessionState
add_message role content s =
    let m : ConversationMessage = record { role = role; text = content } in
    record s {
      messages = s.messages ++ m ∷ [];
      working_messages = elim s.continuation [
        | some _ ↦ s.working_messages ++ m ∷ []
        | none ↦ s.working_messages
      ];
    }

-- The last four messages: `iter().rev().take(4)`, turned around again.
unfoldable pub last_four : List ConversationMessage → List ConversationMessage
last_four messages = reverse (take 4 (reverse messages))

unfoldable pub compact : CompactState → SessionState → SessionState
compact c s = record s {
  context_compactions = s.context_compactions + 1;
  continuation = some c;
  working_messages = last_four s.messages;
}

-- Whether the session has ended, and its state.
abbrev pub Progress : Type 0
Progress = Bool × SessionState

abbrev count_tool : Progress → Progress
count_tool (t, s) = (t, record s { tool_events = s.tool_events + 1 })

-- The `match` on the payload in the loop of `reconstruct_state`.
unfoldable pub apply_payload : EventPayload → Progress → Progress
unfolding add_message compact
apply_payload (EventPayload.user_message content) (t, s) = (t, add_message user content s)
apply_payload (EventPayload.assistant_message content) (t, s) = (t, add_message assistant content s)
apply_payload (EventPayload.tool_requested _ _) p = count_tool p
apply_payload (EventPayload.tool_approved _ _) p = count_tool p
apply_payload (EventPayload.tool_denied _ _) p = count_tool p
apply_payload (EventPayload.tool_started _) p = count_tool p
apply_payload (EventPayload.tool_output _ _) p = count_tool p
apply_payload (EventPayload.tool_completed _) p = count_tool p
apply_payload (EventPayload.tool_failed _ _) p = count_tool p
apply_payload (EventPayload.file_changed _ _) (t, s) =
    (t, record s { files_changed = s.files_changed + 1 })
apply_payload (EventPayload.checkpoint_created _ _) (t, s) =
    (t, record s { checkpoints_created = s.checkpoints_created + 1 })
apply_payload (EventPayload.verification_result _ _ _ _ _ _ _ _ _ _) (t, s) =
    (t, record s { verification_results = s.verification_results + 1 })
apply_payload (EventPayload.context_compacted _ _ c) (t, s) = (t, compact c s)
apply_payload (EventPayload.task_run_updated run) (t, s) = (t, record s { task_run = some run })
apply_payload (EventPayload.session_completed _) (t, s) = (true, record s { status = completed })
apply_payload (EventPayload.session_failed _) (t, s) = (true, record s { status = failed })
apply_payload _ p = p

-- One turn of the loop of `reconstruct_state`.
unfoldable pub replay_event : Progress → HarnessEvent → Result Error Progress
replay_event (terminal, s) event =
    if terminal && not (follows_terminal event.payload)
    then err (invalid_event (text "events cannot follow a terminal session event"))
    else let resumed : Progress =
        if is_resumed event.payload then (false, record s { status = active }) else (terminal, s) in
      let next = apply_payload event.payload resumed in
      ok (next.0, record (next.1) { last_event_id = some event.event_id })

unfoldable pub replay : Progress → List HarnessEvent → Result Error Progress
replay p [] = ok p
replay p (event ∷ events) = do p' ← replay_event p event; replay p' events

unfoldable pub starts_session : List HarnessEvent → Bool
unfolding is_started
starts_session [] = false
starts_session (event ∷ _) = is_started event.payload

unfoldable pub initial_state : Text → SessionState
initial_state session = record {
  session_id = session;
  status = active;
  messages = [];
  tool_events = 0;
  files_changed = 0;
  checkpoints_created = 0;
  verification_results = 0;
  context_compactions = 0;
  continuation = none;
  working_messages = [];
  task_run = none;
  last_event_id = none;
}

unfoldable pub reconstruct_state : Text → List HarnessEvent → Result Error SessionState
reconstruct_state session events = do
  ids ← validate_events session events
  if not (starts_session events)
      then err (invalid_event (text "first session event must be session.started"))
      else replay (false, initial_state session) events >>= λ p. ok p.1
