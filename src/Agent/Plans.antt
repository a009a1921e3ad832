-- ===== src/Agent/Plans.antt =====
-- The execution plan of a task, of crates/harness-agent/src/lib.rs: how it is made, advanced
-- and finished.
pub mod Progress
pub mod Making
pub mod Stages
pub mod Ending
use cogito_ai.Prelude.{
  ℕ, suc, ◌+◌, Bool, true, false, not, ◌&&◌, ◌||◌, Option, none, some, List, [], ◌∷◌, ◌++◌, map,
  filter, find, any, all, take, length, leb, ◌==◌, if◌then◌else◌,
}
use cogito_ai.Prelude.Text.{Text, text, text_eq, trim, decimal}
use cogito_ai.Session.Compact.{is_empty}
use cogito_ai.Session.Tasks.{
  Goal, PlanItemStatus, pending, in_progress, completed, blocked, ImplementationPlan, ExecutionTask,
  ExecutionMilestone, ExecutionPlan, TaskCompletionStatus, TaskRun,
}
use cogito_ai.Agent.Bounded.{bounded_summary, push_unique_bounded}

-- The tests on a status.
abbrev pub is_pending : PlanItemStatus → Bool
is_pending pending = true
is_pending _ = false

abbrev pub is_in_progress : PlanItemStatus → Bool
is_in_progress in_progress = true
is_in_progress _ = false

abbrev pub is_completed : PlanItemStatus → Bool
is_completed completed = true
is_completed _ = false

-- `if let Some(item) = items.iter_mut().find(test) { change(item) }`
unfoldable pub change_first {ℓ} : {A : Type ℓ} → (A → Bool) → (A → A) → List A → List A
change_first test change [] = []
change_first test change (x ∷ xs) =
    let rest = change_first test change xs in if test x then change x ∷ xs else x ∷ rest

abbrev pub set_status : PlanItemStatus → ExecutionTask → ExecutionTask
set_status status task = record task { status = status }

-- The milestone that is not completed.
abbrev pub is_open : ExecutionMilestone → Bool
is_open m = not (is_completed m.status)

title_of : Option ExecutionMilestone → Option Text
title_of none = none
title_of (some m) = some m.title

unfoldable pub current_title : Option ExecutionPlan → Option Text
unfolding title_of
current_title none = none
current_title (some plan) = title_of (find is_open plan.milestones)

unfoldable pub sync_current_milestone : TaskRun → TaskRun
unfolding current_title
sync_current_milestone run = record run {
  goal = record (run.goal) { current_milestone = current_title run.execution_plan };
}

abbrev pub with_plan : TaskRun → ExecutionPlan → TaskRun
with_plan run plan = record run { execution_plan = some plan }

unfoldable pub advance_milestone : ExecutionMilestone → ExecutionMilestone
advance_milestone m = record m {
  tasks = change_first (λ t. is_pending t.status) (set_status in_progress) m.tasks;
  status = in_progress;
}

unfoldable pub advance_plan : ExecutionPlan → ExecutionPlan
advance_plan plan = record plan {
  milestones = change_first is_open advance_milestone plan.milestones;
  status = in_progress;
}

unfoldable pub advance_with : TaskRun → Option ExecutionPlan → TaskRun
advance_with run none = run
advance_with run (some plan) = sync_current_milestone (with_plan run (advance_plan plan))

unfoldable pub advance_execution_plan : TaskRun → TaskRun
unfolding advance_with
advance_execution_plan run = advance_with run run.execution_plan

-- The task in progress is completed, and the next one is started; without a next one the milestone
-- is completed.
unfoldable pub record_milestone : ExecutionMilestone → ExecutionMilestone
record_milestone m =
    let tasks = change_first (λ t. is_in_progress t.status) (set_status completed) m.tasks in
    if any (λ t. is_pending t.status) tasks
    then record m { tasks = change_first (λ t. is_pending t.status) (set_status in_progress) tasks }
    else record m { tasks = tasks; status = completed }

unfoldable pub progress_plan : ExecutionPlan → ExecutionPlan
progress_plan plan =
    let milestones = change_first is_open record_milestone plan.milestones in
    record plan {
      milestones = milestones;
      status = if all (λ m. is_completed m.status) milestones then completed else plan.status;
    }

unfoldable pub record_with : TaskRun → Option ExecutionPlan → TaskRun
record_with run none = run
record_with run (some plan) =
    if any is_open plan.milestones
    then sync_current_milestone (with_plan run (progress_plan plan))
    else run

unfoldable pub record_plan_progress : TaskRun → TaskRun
unfolding record_with
record_plan_progress run = record_with run run.execution_plan

complete_milestone : ExecutionMilestone → ExecutionMilestone
complete_milestone m = record m { tasks = map (set_status completed) m.tasks; status = completed }

block_milestone : ExecutionMilestone → ExecutionMilestone
block_milestone m = record m {
  tasks = change_first (λ t. is_in_progress t.status) (set_status blocked) m.tasks;
  status = blocked;
}

unfoldable pub block_plan : ExecutionPlan → ExecutionPlan
unfolding block_milestone
block_plan plan = record plan {
  milestones = change_first is_open block_milestone plan.milestones;
  status = blocked;
}

unfoldable pub finish_plan : TaskCompletionStatus → ExecutionPlan → ExecutionPlan
unfolding complete_milestone
finish_plan TaskCompletionStatus.done plan = record plan {
  milestones = map complete_milestone plan.milestones;
  status = completed;
}
finish_plan TaskCompletionStatus.blocked plan = block_plan plan
finish_plan TaskCompletionStatus.user_input_required plan = block_plan plan
finish_plan TaskCompletionStatus.resource_limit_reached plan = block_plan plan
finish_plan TaskCompletionStatus.cancelled plan = plan
finish_plan TaskCompletionStatus.in_progress plan = plan

unfoldable pub finish_with : TaskRun → Option ExecutionPlan → TaskRun
finish_with run none = run
finish_with run (some plan) =
    sync_current_milestone (with_plan run (finish_plan run.completion_status plan))

unfoldable pub finish_plan_state : TaskRun → TaskRun
unfolding finish_with
finish_plan_state run = finish_with run run.execution_plan

-- `tasks.chunks(4)`
unfoldable pub chunks_of_four {ℓ} : {A : Type ℓ} → List A → List (List A)
chunks_of_four [] = []
chunks_of_four (a ∷ []) = (a ∷ []) ∷ []
chunks_of_four (a ∷ b ∷ []) = (a ∷ b ∷ []) ∷ []
chunks_of_four (a ∷ b ∷ c ∷ []) = (a ∷ b ∷ c ∷ []) ∷ []
chunks_of_four (a ∷ b ∷ c ∷ d ∷ rest) = (a ∷ b ∷ c ∷ d ∷ []) ∷ chunks_of_four rest

pending_task : Text → ExecutionTask
pending_task description = record { description = description; status = pending }

unfoldable pub planned_tasks : ImplementationPlan → List ExecutionTask
unfolding pending_task
planned_tasks plan =
    map pending_task
      (take 32 (filter (λ step. not (is_empty (trim step))) plan.implementation_steps))

first_description : List ExecutionTask → Text
first_description [] = []
first_description (t ∷ _) = t.description

milestone_title : Bool → ℕ → List ExecutionTask → Text
unfolding first_description
milestone_title true index chunk = text "Implementation"
milestone_title false index chunk =
    text "Milestone "
    ++ (decimal (index + 1) ++ (text " · " ++ bounded_summary (first_description chunk)))

unfoldable pub milestones_from :
    ImplementationPlan → List Text → Bool → ℕ → List (List ExecutionTask) → List ExecutionMilestone
unfolding milestone_title
milestones_from plan criteria few index [] = []
milestones_from plan criteria few index (chunk ∷ chunks) =
    let milestone : ExecutionMilestone = record {
      title = milestone_title few index chunk;
      tasks = chunk;
      affected_architecture = plan.relevant_architecture;
      validation_commands = plan.validation;
      completion_criteria = criteria;
      status = pending;
    } in
    milestone ∷ milestones_from plan criteria few (suc index) chunks

criteria_or_default : List Text → List Text
criteria_or_default [] = text "Complete the planned changes and inspect the final diff." ∷ []
criteria_or_default (c ∷ cs) = c ∷ cs

unfoldable pub execution_plan_from_implementation : ImplementationPlan → List Text → ExecutionPlan
unfolding criteria_or_default
execution_plan_from_implementation plan criteria =
    let tasks = planned_tasks plan in
    record {
      revision = 1;
      milestones =
          milestones_from plan (criteria_or_default criteria) (leb (length tasks) 4) 0
            (chunks_of_four tasks);
      decision_notes = plan.risks_or_unknowns;
      status = pending;
    }

-- The tasks of all milestones.
unfoldable pub all_tasks : List ExecutionMilestone → List ExecutionTask
all_tasks [] = []
all_tasks (m ∷ ms) = m.tasks ++ all_tasks ms
