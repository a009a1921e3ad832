-- ===== src/Session/Events.antt =====
-- The events of a session, of crates/harness-session/src/events.rs. An identifier and a path are
-- their text, a timestamp is its milliseconds, and a map is the list of its entries.
use cogito_ai.Prelude.{ℕ, Bool, Option, List, ℤ, ◌==◌}
use cogito_ai.Prelude.Text.{Text}
use cogito_ai.Session.Tasks.{TaskRun}
use cogito_ai.Session.Compact.{CompactState}

pub data EventType : Type 0 where
  session_started : EventType
  user_message : EventType
  assistant_delta : EventType
  assistant_message : EventType
  model_requested : EventType
  model_response : EventType
  model_changed : EventType
  tool_requested : EventType
  tool_approved : EventType
  tool_denied : EventType
  tool_started : EventType
  tool_output : EventType
  tool_completed : EventType
  tool_failed : EventType
  subagent_started : EventType
  subagent_completed : EventType
  subagent_failed : EventType
  subagent_linked : EventType
  process_started : EventType
  process_stdout : EventType
  process_stderr : EventType
  process_exited : EventType
  background_process_started : EventType
  background_process_status : EventType
  policy_decision : EventType
  file_changed : EventType
  checkpoint_created : EventType
  checkpoint_restored : EventType
  verification_started : EventType
  verification_result : EventType
  session_resumed : EventType
  context_compacted : EventType
  task_run_updated : EventType
  session_completed : EventType
  session_failed : EventType

unfoldable pub event_type_index : EventType → ℕ
event_type_index EventType.session_started = 0
event_type_index EventType.user_message = 1
event_type_index EventType.assistant_delta = 2
event_type_index EventType.assistant_message = 3
event_type_index EventType.model_requested = 4
event_type_index EventType.model_response = 5
event_type_index EventType.model_changed = 6
event_type_index EventType.tool_requested = 7
event_type_index EventType.tool_approved = 8
event_type_index EventType.tool_denied = 9
event_type_index EventType.tool_started = 10
event_type_index EventType.tool_output = 11
event_type_index EventType.tool_completed = 12
event_type_index EventType.tool_failed = 13
event_type_index EventType.subagent_started = 14
event_type_index EventType.subagent_completed = 15
event_type_index EventType.subagent_failed = 16
event_type_index EventType.subagent_linked = 17
event_type_index EventType.process_started = 18
event_type_index EventType.process_stdout = 19
event_type_index EventType.process_stderr = 20
event_type_index EventType.process_exited = 21
event_type_index EventType.background_process_started = 22
event_type_index EventType.background_process_status = 23
event_type_index EventType.policy_decision = 24
event_type_index EventType.file_changed = 25
event_type_index EventType.checkpoint_created = 26
event_type_index EventType.checkpoint_restored = 27
event_type_index EventType.verification_started = 28
event_type_index EventType.verification_result = 29
event_type_index EventType.session_resumed = 30
event_type_index EventType.context_compacted = 31
event_type_index EventType.task_run_updated = 32
event_type_index EventType.session_completed = 33
event_type_index EventType.session_failed = 34

-- Derived equality compares the positions.
unfoldable pub event_type_eq : EventType → EventType → Bool
unfolding event_type_index
event_type_eq a b = event_type_index a == event_type_index b

pub data FileChange : Type 0 where
  added modified deleted : FileChange

pub data EventPayload : Type 0 where
  session_started : (workspace_root : Text) → EventPayload
  user_message : (text : Text) → EventPayload
  assistant_delta : (text : Text) → EventPayload
  assistant_message : (text : Text) → EventPayload
  model_requested : (provider : Text) → (model : Text) → (prompt_tokens : Option ℕ) → EventPayload
  model_response :
      (provider : Text)
      → (model : Text) → (text : Text) → (input_tokens : Option ℕ) → (output_tokens : Option ℕ)
      → EventPayload
  model_changed :
      (provider : Text) → (model : Text) → (reasoning_effort : Option Text) → EventPayload
  tool_requested : (tool : Text) → (arguments : List (Text × Text)) → EventPayload
  tool_approved : (tool : Text) → (reason : Option Text) → EventPayload
  tool_denied : (tool : Text) → (reason : Text) → EventPayload
  tool_started : (tool : Text) → EventPayload
  tool_output : (tool : Text) → (output : Text) → EventPayload
  tool_completed : (tool : Text) → EventPayload
  tool_failed : (tool : Text) → (error : Text) → EventPayload
  subagent_started :
      (delegation_id : Text)
      → (child_session_id : Text) → (role : Text) → (task : Text) → EventPayload
  subagent_completed :
      (delegation_id : Text)
      → (child_session_id : Text) → (role : Text) → (summary : Text) → EventPayload
  subagent_failed :
      (delegation_id : Text)
      → (child_session_id : Text) → (role : Text) → (error : Text) → EventPayload
  subagent_linked :
      (delegation_id : Text) → (parent_session_id : Text) → (role : Text) → EventPayload
  process_started : (command : Text) → (working_directory : Text) → (timeout_ms : ℕ) → EventPayload
  process_stdout : (chunk : Text) → EventPayload
  process_stderr : (chunk : Text) → EventPayload
  process_exited : (exit_code : Option ℤ) → (timed_out : Bool) → (cancelled : Bool) → EventPayload
  background_process_started :
      (process_id : Text)
      → (command : Text) → (working_directory : Text) → (pid : ℕ) → (started_at_unix_ms : ℕ)
      → EventPayload
  background_process_status :
      (process_id : Text)
      → (pid : ℕ) → (status : Text) → (exit_code : Option ℤ) → (timed_out : Bool) → EventPayload
  policy_decision :
      (tool : Text)
      → (action : Text) → (reason : Text) → (rule : Text) → (operation : Text) → (mode : Text)
      → (risk_categories : List Text) → EventPayload
  file_changed : (path : Text) → (change : FileChange) → EventPayload
  checkpoint_created : (checkpoint_id : Text) → (reference : Text) → EventPayload
  checkpoint_restored :
      (checkpoint_id : Text) → (restored_files : List Text) → (conflicts : List Text) → EventPayload
  verification_started : (commands : List Text) → EventPayload
  verification_result :
      (command : Text)
      → (category : Text) → (duration_ms : ℕ) → (passed : Bool) → (exit_code : Option ℤ)
      → (output : Text) → (diagnostics : List Text) → (affected_files : List Text)
      → (failure_origin : Option Text) → (relevant_output : Text) → EventPayload
  session_resumed : (reason : Option Text) → EventPayload
  context_compacted : (removed_items : ℕ) → (summary : Text) → (state : CompactState) → EventPayload
  task_run_updated : (task_run : TaskRun) → EventPayload
  session_completed : (reason : Option Text) → EventPayload
  session_failed : (error : Text) → EventPayload

unfoldable pub event_type : EventPayload → EventType
event_type (EventPayload.session_started _) = EventType.session_started
event_type (EventPayload.user_message _) = EventType.user_message
event_type (EventPayload.assistant_delta _) = EventType.assistant_delta
event_type (EventPayload.assistant_message _) = EventType.assistant_message
event_type (EventPayload.model_requested _ _ _) = EventType.model_requested
event_type (EventPayload.model_response _ _ _ _ _) = EventType.model_response
event_type (EventPayload.model_changed _ _ _) = EventType.model_changed
event_type (EventPayload.tool_requested _ _) = EventType.tool_requested
event_type (EventPayload.tool_approved _ _) = EventType.tool_approved
event_type (EventPayload.tool_denied _ _) = EventType.tool_denied
event_type (EventPayload.tool_started _) = EventType.tool_started
event_type (EventPayload.tool_output _ _) = EventType.tool_output
event_type (EventPayload.tool_completed _) = EventType.tool_completed
event_type (EventPayload.tool_failed _ _) = EventType.tool_failed
event_type (EventPayload.subagent_started _ _ _ _) = EventType.subagent_started
event_type (EventPayload.subagent_completed _ _ _ _) = EventType.subagent_completed
event_type (EventPayload.subagent_failed _ _ _ _) = EventType.subagent_failed
event_type (EventPayload.subagent_linked _ _ _) = EventType.subagent_linked
event_type (EventPayload.process_started _ _ _) = EventType.process_started
event_type (EventPayload.process_stdout _) = EventType.process_stdout
event_type (EventPayload.process_stderr _) = EventType.process_stderr
event_type (EventPayload.process_exited _ _ _) = EventType.process_exited
event_type (EventPayload.background_process_started _ _ _ _ _) =
    EventType.background_process_started
event_type (EventPayload.background_process_status _ _ _ _ _) = EventType.background_process_status
event_type (EventPayload.policy_decision _ _ _ _ _ _ _) = EventType.policy_decision
event_type (EventPayload.file_changed _ _) = EventType.file_changed
event_type (EventPayload.checkpoint_created _ _) = EventType.checkpoint_created
event_type (EventPayload.checkpoint_restored _ _ _) = EventType.checkpoint_restored
event_type (EventPayload.verification_started _) = EventType.verification_started
event_type (EventPayload.verification_result _ _ _ _ _ _ _ _ _ _) = EventType.verification_result
event_type (EventPayload.session_resumed _) = EventType.session_resumed
event_type (EventPayload.context_compacted _ _ _) = EventType.context_compacted
event_type (EventPayload.task_run_updated _) = EventType.task_run_updated
event_type (EventPayload.session_completed _) = EventType.session_completed
event_type (EventPayload.session_failed _) = EventType.session_failed

pub record HarnessEvent : Type 0 where
  pub schema_version : ℕ
  pub event_id : Text
  pub session_id : Text
  pub timestamp : ℕ
  pub event_type : EventType
  pub parent_id : Option Text
  pub correlation_id : Option Text
  pub payload : EventPayload

-- `HarnessEvent::new`; the identifier and the time are those that the system gives.
unfoldable pub new_event : Text → ℕ → Text → EventPayload → Option Text → Option Text → HarnessEvent
unfolding event_type
new_event id now session payload parent correlation = record {
  schema_version = 1;
  event_id = id;
  session_id = session;
  timestamp = now;
  event_type = event_type payload;
  parent_id = parent;
  correlation_id = correlation;
  payload = payload;
}
