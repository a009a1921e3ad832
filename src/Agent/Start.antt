-- ===== src/Agent/Start.antt =====
-- How a run's task state is made, anew or of that of the session which is resumed: the start of
-- `AgentRunner::run_task` in crates/harness-agent/src/lib.rs.
pub mod Laws
use cogito_ai.Prelude.{
  Bool, true, false, not, ◌&&◌, ◌||◌, Option, none, some, List, [], ◌∷◌, filter, if◌then◌else◌,
}
use cogito_ai.Prelude.Text.{Text, text, text_eq, starts_with, trim}
use cogito_ai.Session.Compact.{is_empty}
use cogito_ai.Session.Tasks.{
  TaskMode, plan, code, understand, Goal, new_goal, ImplementationPlan, ExecutionPlan,
  TaskCompletionStatus, TaskRun, new_task_run,
}
use cogito_ai.Agent.Goals.{extract_acceptance_criteria, extract_goal_objective, parse_goal_details}
use cogito_ai.Agent.Plans.{
  sync_current_milestone, advance_execution_plan, execution_plan_from_implementation,
}

-- What a task gives: its mode, its text, its criteria, and whether it resumes a session.
pub record Task : Type 0 where
  pub user_task : Text
  pub task_mode : TaskMode
  pub acceptance_criteria : List Text
  pub resumes : Bool

is_some {ℓ} : {A : Type ℓ} → Option A → Bool
is_some none = false
is_some (some _) = true

is_code : TaskMode → Bool
is_code code = true
is_code _ = false

is_plan : TaskMode → Bool
is_plan plan = true
is_plan _ = false

is_done : TaskCompletionStatus → Bool
is_done TaskCompletionStatus.done = true
is_done _ = false

has_items : List Text → Bool
has_items [] = false
has_items (_ ∷ _) = true

-- Whether a run that is resumed is an approved plan which is now carried out.
continues_plan : Task → TaskRun → Bool
unfolding is_some is_code is_plan
continues_plan task run =
    is_code task.task_mode
    && (task.resumes && (is_plan run.task_mode && is_some run.structured_plan))

unfoldable pub previous_or_new : Task → Option TaskRun → TaskRun
unfolding is_done continues_plan
previous_or_new task none = new_task_run task.user_task
previous_or_new task (some run) =
    if not (is_done run.completion_status) || continues_plan task run
    then run
    else new_task_run task.user_task

-- The goal is read from the text where the previous state has none.
unfoldable pub with_goal : Task → TaskRun → TaskRun
with_goal task run =
    let original = if is_empty run.original_goal then task.user_task else run.original_goal in
    let goal =
      if is_empty (trim run.goal.objective)
      then parse_goal_details original run.acceptance_criteria
      else run.goal in
    record run { original_goal = original; goal = goal }

unfoldable pub with_criteria : Task → TaskRun → TaskRun
unfolding has_items
with_criteria task run =
    let criteria =
      if has_items task.acceptance_criteria
      then task.acceptance_criteria
      else if has_items run.acceptance_criteria
      then run.acceptance_criteria
      else extract_acceptance_criteria task.user_task in
    record run {
      acceptance_criteria = criteria;
      goal = record (run.goal) {
        objective = extract_goal_objective run.original_goal;
        acceptance_criteria = criteria;
      };
    }

or_parsed : List Text → List Text → List Text
or_parsed [] parsed = parsed
or_parsed (x ∷ xs) parsed = x ∷ xs

unfoldable pub with_details : TaskRun → TaskRun
unfolding or_parsed
with_details run =
    let parsed = parse_goal_details run.original_goal run.acceptance_criteria in
    let condition =
      if is_empty (trim run.goal.completion_condition)
        || not (text_eq parsed.completion_condition (new_goal []).completion_condition)
      then parsed.completion_condition
      else run.goal.completion_condition in
    record run {
      goal = record (run.goal) {
        constraints = or_parsed run.goal.constraints parsed.constraints;
        non_goals = or_parsed run.goal.non_goals parsed.non_goals;
        completion_condition = condition;
      };
    }

-- The execution plan is made of the structured plan, or of a plan of an earlier version.
legacy_plan : Text → List Text → ImplementationPlan
legacy_plan goal steps = record {
  goal = goal;
  relevant_architecture = [];
  files_likely_affected = [];
  implementation_steps = steps;
  validation = [];
  risks_or_unknowns = [];
}

unfoldable pub plan_for :
    Option ExecutionPlan
    → Option ImplementationPlan
    → Text
    → List Text
    → List Text
    → Option ExecutionPlan
unfolding legacy_plan
plan_for (some existing) structured goal steps criteria = some existing
plan_for none (some p) goal steps criteria = some (execution_plan_from_implementation p criteria)
plan_for none none goal [] criteria = none
plan_for none none goal (s ∷ steps) criteria =
    some (execution_plan_from_implementation (legacy_plan goal (s ∷ steps)) criteria)

unfoldable pub with_plan_for : TaskRun → TaskRun
unfolding plan_for
with_plan_for run = record run {
  execution_plan =
      plan_for run.execution_plan run.structured_plan run.original_goal run.current_plan
        run.acceptance_criteria;
}

unfoldable pub is_guard_error : Text → Bool
unfolding starts_with text
is_guard_error error = starts_with error (text "runtime:guard:")

-- A session that is resumed loses the errors of the runtime's guards.
unfoldable pub without_guard_errors : Bool → List Text → List Text
unfolding is_guard_error
without_guard_errors true errors = filter (λ e. not (is_guard_error e)) errors
without_guard_errors false errors = errors

unfoldable pub start_task_run : Task → Option TaskRun → TaskRun
start_task_run task previous =
    let run =
      with_plan_for
        (with_details (with_criteria task (with_goal task (previous_or_new task previous)))) in
    let advanced =
      sync_current_milestone (advance_execution_plan (record run { task_mode = task.task_mode })) in
    record advanced {
      completion_status = TaskCompletionStatus.in_progress;
      current_phase = understand;
      remaining_work = [];
      unresolved_errors = without_guard_errors task.resumes advanced.unresolved_errors;
    }
