-- ===== src/Agent/Limits.antt =====
-- The limits of a run, their environment variables, and how a run that meets one ends, of
-- crates/harness-agent/src/lib.rs. Durations are in nanoseconds.
pub mod Laws
use cogito_ai.Prelude.{
  ℕ, ◌+◌, ◌*◌, ◌^◌, Bool, true, false, not, ◌&&◌, Option, none, some, List, [], ◌∷◌, ◌++◌, ltb,
  ◌==◌, if◌then◌else◌,
}
use cogito_ai.Prelude.Text.{Text, text}
use cogito_ai.Prelude.Results.{Result, ok, err}
use cogito_ai.Session.Tasks.{finish, TaskCompletionStatus, TaskRun}
use cogito_ai.Session.Events.{EventPayload, assistant_message, task_run_updated, session_completed}
use cogito_ai.Agent.Bounded.{bounded_summary}
use cogito_ai.Agent.Cost.{parse_unsigned, decimal_microusd}
use cogito_ai.Agent.Plans.{finish_plan_state}

pub record AgentLimits : Type 0 where
  pub max_turns : ℕ
  pub max_tool_calls : ℕ
  pub max_runtime : ℕ
  pub max_model_tokens : ℕ
  pub max_estimated_cost_microusd : Option ℕ
  pub max_repeated_tool_calls : ℕ
  pub max_repeated_failures : ℕ

abbrev pub seconds : ℕ → ℕ
seconds n = n * 1000000000

-- `impl Default for AgentLimits`
unfoldable pub default_limits : AgentLimits
default_limits = record {
  max_turns = 256;
  max_tool_calls = 512;
  max_runtime = seconds 3600;
  max_model_tokens = 1000000;
  max_estimated_cost_microusd = none;
  max_repeated_tool_calls = 3;
  max_repeated_failures = 3;
}

-- `apply_env_limit` with the bound of the field's type: the new value of the target.
unfoldable pub apply_env_limit : ℕ → Option Text → ℕ → ℕ
apply_env_limit bound none target = target
apply_env_limit bound (some value) target = elim (parse_unsigned bound value) [
  | some parsed ↦ parsed
  | none ↦ target
]

unfoldable pub apply_env_duration : Option Text → ℕ → ℕ
apply_env_duration none target = target
apply_env_duration (some value) target = elim (parse_unsigned (2 ^ 64) value) [
  | some parsed ↦ seconds parsed
  | none ↦ target
]

cost_limit : Option Text → Option ℕ → Option ℕ
cost_limit none target = target
cost_limit (some value) target = decimal_microusd value

-- `AgentLimits::from_env`, from the environment's variables.
unfoldable pub limits_from_env : (Text → Option Text) → AgentLimits
unfolding default_limits apply_env_limit apply_env_duration cost_limit
limits_from_env env =
    let limits = default_limits in
    record {
      max_turns = apply_env_limit (2 ^ 32) (env (text "COGITO_AGENT_MAX_TURNS")) limits.max_turns;
      max_tool_calls =
          apply_env_limit (2 ^ 32) (env (text "COGITO_AGENT_MAX_TOOL_CALLS")) limits.max_tool_calls;
      max_runtime =
          apply_env_duration (env (text "COGITO_AGENT_MAX_RUNTIME_SECONDS")) limits.max_runtime;
      max_model_tokens =
          apply_env_limit (2 ^ 64) (env (text "COGITO_AGENT_MAX_MODEL_TOKENS"))
            limits.max_model_tokens;
      max_estimated_cost_microusd =
          cost_limit (env (text "COGITO_AGENT_MAX_COST_USD")) limits.max_estimated_cost_microusd;
      max_repeated_tool_calls =
          apply_env_limit (2 ^ 32) (env (text "COGITO_AGENT_MAX_REPEATED_TOOL_CALLS"))
            limits.max_repeated_tool_calls;
      max_repeated_failures =
          apply_env_limit (2 ^ 32) (env (text "COGITO_AGENT_MAX_REPEATED_FAILURES"))
            limits.max_repeated_failures;
    }

-- The errors of a run; a provider's error is its message.
pub data AgentError : Type 0 where
  cancelled : AgentError
  approval_denied : (tool : Text) → AgentError
  limit_exceeded : (limit : Text) → AgentError
  model : (message : Text) → AgentError
  core : (message : Text) → AgentError
  tool : (message : Text) → AgentError

-- What a run has used when its limits are checked.
pub record Spent : Type 0 where
  pub turns : ℕ
  pub tool_calls : ℕ
  pub model_tokens : ℕ
  pub elapsed : ℕ
  pub estimated_cost_microusd : Option ℕ

exceeds_cost : Option ℕ → Option ℕ → Bool
exceeds_cost (some limit) (some cost) = ltb limit cost
exceeds_cost (some limit) none = false
exceeds_cost none cost = false

-- The first limit that is exceeded. A limit of no tokens or no time is none.
unfoldable pub exceeded_limit : AgentLimits → Spent → Option Text
unfolding exceeds_cost
exceeded_limit limits spent =
    if ltb limits.max_turns spent.turns
    then some (text "max_turns")
    else if ltb limits.max_tool_calls spent.tool_calls
    then some (text "max_tool_calls")
    else if ltb 0 limits.max_model_tokens && ltb limits.max_model_tokens spent.model_tokens
    then some (text "max_model_tokens")
    else if not (limits.max_runtime == 0) && ltb limits.max_runtime spent.elapsed
    then some (text "max_runtime")
    else if exceeds_cost limits.max_estimated_cost_microusd spent.estimated_cost_microusd
    then some (text "max_estimated_cost")
    else none

-- A run that stops with an error: the state that is recorded last, and the error.
pub record Abort : Type 0 where
  pub recorded : TaskRun
  pub error : AgentError

unfoldable pub abort_with_task_run : TaskRun → AgentError → Abort
abort_with_task_run run error = record { recorded = finish_plan_state run; error = error }

abbrev pub stopped : TaskRun → Option Text → Result Abort (Unit {0})
stopped run none = ok tt
stopped run (some limit) = err (
    abort_with_task_run
      (record run {
        completion_status = TaskCompletionStatus.resource_limit_reached;
        current_phase = finish;
        remaining_work = (text "Task stopped at configured limit: " ++ limit) ∷ [];
      })
      (limit_exceeded limit))

unfoldable pub check_limits : AgentLimits → Bool → Spent → TaskRun → Result Abort (Unit {0})
check_limits limits true spent run = err (
    abort_with_task_run
      (record run { completion_status = TaskCompletionStatus.cancelled; current_phase = finish })
      cancelled)
check_limits limits false spent run = stopped run (exceeded_limit limits spent)

-- How a run ends without an error: the outcome's message, the state that is recorded last, and the
-- events of the end. The hooks at the end of a session may fail, with a message.
pub record Ending : Type 0 where
  pub final_message : Text
  pub run : TaskRun
  pub events : List EventPayload

unfoldable pub ending_reason : TaskCompletionStatus → Option Text
ending_reason TaskCompletionStatus.done = none
ending_reason TaskCompletionStatus.blocked = some (text "blocked")
ending_reason TaskCompletionStatus.user_input_required = some (text "user_input_required")
ending_reason TaskCompletionStatus.resource_limit_reached = some (text "resource_limit_reached")
ending_reason TaskCompletionStatus.cancelled = some (text "cancelled")
ending_reason TaskCompletionStatus.in_progress = some (text "incomplete")

unfoldable pub ending : TaskRun → Text → Ending
ending run message = record {
  final_message = message;
  run = run;
  events = task_run_updated run ∷ session_completed (ending_reason run.completion_status) ∷ [];
}

unfoldable pub hook_failure : Text → Text
hook_failure error = text "SessionEnd hook failed: " ++ error

unfoldable pub finish_task_run : Option Text → TaskRun → Text → Ending
unfolding ending hook_failure
finish_task_run none run final_message = ending (finish_plan_state run) final_message
finish_task_run (some error) run final_message =
    let message = hook_failure error in
    let failed = record run {
      completion_status = TaskCompletionStatus.blocked;
      unresolved_errors = run.unresolved_errors ++ message ∷ [];
      remaining_work = run.remaining_work ++ message ∷ [];
    } in
    ending (finish_plan_state failed) (final_message ++ (text "\n\n" ++ message))

unfoldable pub blocked_work : List Text → Text → List Text
blocked_work [] reason = bounded_summary reason ∷ []
blocked_work (e ∷ errors) reason = e ∷ errors

unfoldable pub finish_blocked_task : Option Text → TaskRun → Text → Ending
unfolding finish_task_run blocked_work
finish_blocked_task hook_error run reason =
    let message = text "Blocked: " ++ bounded_summary reason in
    let stopped = record run {
      current_phase = finish;
      completion_status = TaskCompletionStatus.blocked;
      remaining_work = blocked_work run.unresolved_errors reason;
    } in
    let e = finish_task_run hook_error stopped message in
    record e { events = assistant_message message ∷ e.events }
