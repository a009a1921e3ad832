-- ===== src/Agent/Turn.antt =====
-- The state of a turn of the agent, and how a run is judged whose response calls no tools: what it
-- still owes, whether the model goes on, and its end; in `AgentRunner::run_task` of
-- crates/harness-agent/src/lib.rs.
pub mod Patience
pub mod Honesty
use cogito_ai.Prelude.{
  ℕ, ◌+◌, ◌-◌, ◌^◌, min, max, Bool, true, false, not, ◌&&◌, ◌||◌, Option, none, some, List, [], ◌∷◌,
  ◌++◌, map, any, drop, length, leb, if◌then◌else◌,
}
use cogito_ai.Prelude.Text.{Text, text, text_eq, join}
use cogito_ai.Prelude.Results.{Result, ok, err}
use cogito_ai.Session.Compact.{is_empty}
use cogito_ai.Session.Tasks.{
  TaskMode, plan, code, finish, repair, ImplementationPlan, ExecutionPlan, TaskVerificationResult,
  TaskCompletionStatus, TaskRun,
}
use cogito_ai.Session.Events.{assistant_message, task_run_updated}
use cogito_ai.Context.Input.{ToolContextResult}
use cogito_ai.Agent.Limits.{AgentError, Ending, finish_task_run, finish_blocked_task}
use cogito_ai.Agent.Metrics.{tool_error_result}
use cogito_ai.Agent.Reports.{VerificationReport, or_insert_error, Work, with_errors}

-- What stays the same in a run: the mode, whether there is a Git repository and a verifier, the limit
-- of repeated failures, and how the hooks at the end fail, if they do.
pub record Settings : Type 0 where
  pub mode : TaskMode
  pub git_available : Bool
  pub has_verifier : Bool
  pub max_repeated_failures : ℕ
  pub hook_error : Option Text

-- What a turn works on: a validation since the last edit, and the final responses without progress.
pub record Turn : Type 0 where
  pub work : Work
  pub validated : Bool
  pub no_progress : ℕ

-- A check of the final diff: it has nothing to do, the policy or the user refuses it, or the verifier
-- answers with reports or with an error's message.
pub data Check : Type 0 where
  skipped : Check
  refused : AgentError → Check
  answered : Result Text (List VerificationReport) → Check

pub data Outcome : Type 0 where
  continued : Turn → Outcome
  ended : Ending → Outcome
  failed : AgentError → Outcome

abbrev pub on_run : (TaskRun → TaskRun) → Turn → Turn
on_run change t = record t { work = record (t.work) { run = change t.work.run } }

abbrev pub updated : Turn → Turn
updated t = record t {
  work = record (t.work) { events = t.work.events ++ task_run_updated t.work.run ∷ [] };
}

abbrev pub is_code : TaskMode → Bool
is_code code = true
is_code _ = false

abbrev pub is_plan : TaskMode → Bool
is_plan plan = true
is_plan _ = false

abbrev pub has_items : List Text → Bool
has_items [] = false
has_items (_ ∷ _) = true

-- The errors of a run that ends without an inspection of its diff or without a validation.
unfoldable pub inspection_key : Text
inspection_key = text "verification:final_diff_inspection"

unfoldable pub validation_key : Text
validation_key = text "verification:after_last_edit"

unfoldable pub with_error : Text → Text → Turn → Turn
with_error key message t = record t {
  work = with_errors (record (t.work) {
    errors = or_insert_error key (key ++ (text " :: " ++ message)) t.work.errors;
  });
}

unfoldable pub needs_inspection : Settings → Turn → Bool
needs_inspection s t =
    is_code s.mode && (has_items t.work.run.changed_files && not t.work.run.final_diff_inspected)

unfoldable pub require_inspection : Settings → Turn → Turn
unfolding with_error
require_inspection s t =
    if needs_inspection s t
    then with_error inspection_key
        (text
          "A final diff could not be assembled for the changed files. Inspect the latest file edits before finishing.")
        t
    else t

unfoldable pub require_validation : Settings → Turn → Turn
unfolding with_error
require_validation s t =
    if needs_inspection s t && not t.validated
    then with_error validation_key
        (text
          "No successful relevant verification has run since the most recent edit. Run the appropriate test, build, lint, format, or typecheck command before finishing.")
        t
    else t

-- The model is told to go on, unless it did not get on too often.
go_on : List Text → ToolContextResult
go_on errors = record {
  name = text "task_completion_check";
  result = tool_error_result (text "task_completion_check") (
      text
        "Do not report completion. Resolve or explain these outstanding issues, revise your approach, and continue with tools when possible: "
      ++ (join (text "; ") errors
          ++ text
              ". If the task is impossible, return [BLOCKED] followed by the reason; if a user decision is needed, return [USER_INPUT_REQUIRED] followed by one concise question."));
  is_shell = false;
  already_in_model_history = false;
}

unfoldable pub repaired : Settings → Turn → Outcome
unfolding go_on
repaired s t =
    let count = min (t.no_progress + 1) (2 ^ 32 - 1) in
    let errors = t.work.run.unresolved_errors in
    let run = record (t.work.run) { current_phase = repair; remaining_work = errors } in
    if leb (max s.max_repeated_failures 1) count
    then ended (
        finish_blocked_task s.hook_error run (
          text "The model stopped making progress with unresolved verification or tool errors: "
          ++ join (text "; ") errors))
    else continued (
        updated (record t {
          no_progress = count;
          work = record (t.work) {
            run = run;
            observations = t.work.observations ++ go_on errors ∷ [];
          };
        }))

abbrev pub say : Text → Ending → Ending
say message e = record e { events = assistant_message message ∷ e.events }

unfoldable pub completed_run : Settings → TaskRun → Text → Outcome
completed_run s run message = ended (
    say message (
      finish_task_run s.hook_error
        (record run {
          current_phase = finish;
          completion_status = TaskCompletionStatus.done;
          remaining_work = [];
        })
        message))

unfoldable pub judged : Settings → Turn → Text → Outcome
judged s t message =
    let required = require_validation s (require_inspection s t) in
    if has_items required.work.run.unresolved_errors
    then repaired s required
    else completed_run s required.work.run message
