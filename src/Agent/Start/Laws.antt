-- ===== src/Agent/Start/Laws.antt =====
-- What holds of every run's task state at its start.
use cogito_ai.Prelude.{
  Bool, true, false, not, ◌&&◌, ◌≡◌, refl, inl, inr, Option, none, some, List, [], ◌∷◌, filter, any,
  Bool-cases,
}
use cogito_ai.Prelude.Text.{Text}
use cogito_ai.Session.Tasks.{understand, TaskCompletionStatus, ExecutionPlan, TaskRun}
use cogito_ai.Agent.Goals.{extract_goal_objective}
use cogito_ai.Agent.Plans.{
  current_title, sync_current_milestone, advance_with, advance_execution_plan,
}
use cogito_ai.Agent.Start.{
  Task, with_criteria, with_details, with_plan_for, previous_or_new, with_goal, is_guard_error,
  without_guard_errors, start_task_run,
}

-- The run and its goal agree, the run is in progress without remaining work, its current milestone is
-- the first open one of its plan, and a resumed run has no error of a runtime guard.
pub record IsStarted (task : Task) (run : TaskRun) : Type 0 where
  pub same_criteria : run.goal.acceptance_criteria ≡ run.acceptance_criteria
  pub objective_read : run.goal.objective ≡ extract_goal_objective run.original_goal
  pub current : run.goal.current_milestone ≡ current_title run.execution_plan
  pub mode_kept : run.task_mode ≡ task.task_mode
  pub begun : run.current_phase ≡ understand
  pub running : run.completion_status ≡ TaskCompletionStatus.in_progress
  pub no_work : run.remaining_work ≡ []
  pub no_guard_error : task.resumes && any is_guard_error run.unresolved_errors ≡ false

any-filter : (f : Text → Bool) (xs : List Text) → any f (filter (λ x. not (f x)) xs) ≡ false
unfolding any filter
any-filter f [] = refl
any-filter f (x ∷ xs) = elim (Bool-cases (f x)) [
  | inl e ↦ rw e (any-filter f xs)
  | inr e ↦ rw (e, e) (any-filter f xs)
]

any-without_guard_errors :
    (resumed : Bool) (errors : List Text)
    → resumed && any is_guard_error (without_guard_errors resumed errors) ≡ false
unfolding without_guard_errors
any-without_guard_errors true errors = any-filter is_guard_error errors
any-without_guard_errors false errors = refl

-- Advancing changes the plan and the current milestone only.
abbrev Agrees : TaskRun → Type 0
Agrees run =
    (run.goal.acceptance_criteria ≡ run.acceptance_criteria)
    × (run.goal.objective ≡ extract_goal_objective run.original_goal)

advanced-Agrees :
    (run : TaskRun)
    → Agrees run
    → Agrees (advance_execution_plan run) × ((advance_execution_plan run).task_mode ≡ run.task_mode)
unfolding advance_execution_plan advance_with sync_current_milestone
advanced-Agrees run h = go run.execution_plan
  where
    go :
        (o : Option ExecutionPlan)
        → Agrees (advance_with run o) × ((advance_with run o).task_mode ≡ run.task_mode)
    go none = (h, refl)
    go (some plan) = (h, refl)

-- A run that starts, anew or resumed, is in progress in the task's mode, with no remaining work and,
-- if it is resumed, no error of a runtime guard; its goal has its criteria and the objective that its
-- original goal says, and names the first open milestone of its plan.
pub start_task_run-IsStarted :
    (task : Task) (previous : Option TaskRun) → IsStarted task (start_task_run task previous)
unfolding start_task_run sync_current_milestone with_plan_for with_details with_criteria
start_task_run-IsStarted task previous =
    let run : TaskRun =
      record (with_plan_for
        (with_details (with_criteria task (with_goal task (previous_or_new task previous))))) {
          task_mode = task.task_mode;
        } in
    let (agrees, mode) = advanced-Agrees run (refl, refl) in
    record {
      same_criteria = agrees.0;
      objective_read = agrees.1;
      current = refl;
      mode_kept = mode;
      begun = refl;
      running = refl;
      no_work = refl;
      no_guard_error =
          any-without_guard_errors task.resumes
            (sync_current_milestone (advance_execution_plan run)).unresolved_errors;
    }
