-- ===== src/Agent/Revision.antt =====
-- The revision of a task's execution plan, `revise_execution_plan` of
-- crates/harness-agent/src/lib.rs: a new milestone is made of the new steps and of what the old
-- milestones have of architecture, commands and criteria.
pub mod Laws
use cogito_ai.Prelude.{
  ◌+◌, Bool, true, false, not, ◌&&◌, ◌||◌, Option, none, some, List, [], ◌∷◌, map, any, leb,
  if◌then◌else◌,
}
use cogito_ai.Prelude.Text.{Text, text, text_eq, trim}
use cogito_ai.Session.Compact.{is_empty}
use cogito_ai.Session.Tasks.{
  Goal, pending, in_progress, completed, ExecutionTask, ExecutionMilestone, ExecutionPlan, TaskRun,
}
use cogito_ai.Agent.Bounded.{bounded_summary, push_unique_bounded}
use cogito_ai.Agent.Plans.{is_completed, with_plan, advance_execution_plan, all_tasks}

texts_eq : List Text → List Text → Bool
texts_eq [] [] = true
texts_eq [] (_ ∷ _) = false
texts_eq (_ ∷ _) [] = false
texts_eq (s ∷ ss) (t ∷ ts) = text_eq s t && texts_eq ss ts

push_all : List Text → List Text → List Text
push_all values [] = values
push_all values (x ∷ xs) = push_all (push_unique_bounded values x 32) xs

gather : (ExecutionMilestone → List Text) → List ExecutionMilestone → List Text → List Text
unfolding push_all
gather part [] values = values
gather part (m ∷ ms) values = gather part ms (push_all values (part m))

unfoldable pub was_completed : List ExecutionTask → Text → Bool
was_completed tasks description =
    any (λ t. is_completed t.status && text_eq description t.description) tasks

unfoldable pub revised_task : List ExecutionTask → Text → ExecutionTask
revised_task tasks description = record {
  description = description;
  status = if was_completed tasks description then completed else pending;
}

unfoldable pub revised_plan : Goal → ExecutionPlan → Text → List Text → ExecutionPlan
unfolding gather
revised_plan goal existing reason steps =
    let milestone : ExecutionMilestone = record {
      title = text "Implementation";
      tasks = map (revised_task (all_tasks existing.milestones)) steps;
      affected_architecture = gather (λ m. m.affected_architecture) existing.milestones [];
      validation_commands = gather (λ m. m.validation_commands) existing.milestones [];
      completion_criteria =
          gather (λ m. m.completion_criteria) existing.milestones goal.acceptance_criteria;
      status = pending;
    } in
    record {
      revision = existing.revision + 1;
      milestones = milestone ∷ [];
      decision_notes = push_unique_bounded existing.decision_notes (bounded_summary reason) 16;
      status = in_progress;
    }

-- `MAX_PLAN_REVISIONS` is 3.
unfoldable pub is_refused : ExecutionPlan → List Text → Bool
unfolding texts_eq
is_refused existing steps =
    leb 4 existing.revision
    || texts_eq (map (λ t. t.description) (all_tasks existing.milestones)) steps

revise_with : TaskRun → Text → List Text → Option ExecutionPlan → TaskRun × Bool
unfolding is_refused
revise_with run reason steps none = (run, false)
revise_with run reason steps (some existing) = if is_refused existing steps then (run, false) else (
  advance_execution_plan (with_plan run (revised_plan run.goal existing reason steps)),
  true,
)

unfoldable pub has_steps : List Text → Bool
has_steps [] = false
has_steps (_ ∷ _) = true

unfoldable pub revise_execution_plan : TaskRun → Text → List Text → TaskRun × Bool
unfolding revise_with has_steps
revise_execution_plan run reason steps =
    if is_empty (trim reason) || not (has_steps steps)
    then (run, false)
    else revise_with run reason steps run.execution_plan
