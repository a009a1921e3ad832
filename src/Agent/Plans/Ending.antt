-- ===== src/Agent/Plans/Ending.antt =====
-- The plan of a run that ends, with success or without: no task of it is left in progress.
use cogito_ai.Prelude.{
  ◌≡◌, ◌≢◌, inl, inr, refl, ◌∙◌, Bool, true, false, List, [], ◌∷◌, any, any-append, map, All, arith,
}
use cogito_ai.Session.Tasks.{
  completed, blocked, ExecutionTask, ExecutionMilestone, ExecutionPlan, TaskCompletionStatus,
}
use cogito_ai.Agent.Plans.{
  is_in_progress, change_first, set_status, is_open, complete_milestone, block_milestone,
  block_plan, finish_plan, all_tasks,
}
use cogito_ai.Agent.Plans.Making.{IsUntouched, ArePending}
use cogito_ai.Agent.Plans.Stages.{
  AreOrdered, AreCompleted, AreStaged, Reach, Reach-AreStaged, change_first-ArePending,
}

abbrev pub runs : List ExecutionTask → Bool
runs tasks = any (λ t. is_in_progress t.status) tasks

-- No task is in progress.
pub record IsSettled (plan : ExecutionPlan) : Type 0 where
  pub settled : runs (all_tasks plan.milestones) ≡ false

pending_settled : (ts : List ExecutionTask) → ArePending ts → runs ts ≡ false
unfolding any
pending_settled [] h = refl
pending_settled (t ∷ ts) (p, h) = ground (arith, pending_settled ts h)

completed_settled : (ts : List ExecutionTask) → AreCompleted ts → runs ts ≡ false
unfolding any
completed_settled [] h = refl
completed_settled (t ∷ ts) (p, h) = ground (arith, completed_settled ts h)

block_settled :
    (ts : List ExecutionTask)
    → AreOrdered ts
    → runs (change_first (λ t. is_in_progress t.status) (set_status blocked) ts) ≡ false
unfolding any change_first
block_settled [] h = refl
block_settled (t ∷ ts) (inl (c, h)) =
    let other : is_in_progress t.status ≡ false = ground arith in
    rw (other, other) (block_settled ts h)
block_settled (t ∷ ts) (inr (inl c, h)) =
    let this : is_in_progress t.status ≡ true = ground arith in rw this (pending_settled ts h)
block_settled (t ∷ ts) (inr (inr c, h)) =
    let other : is_in_progress t.status ≡ false = ground arith in
    rw (other, change_first-ArePending (set_status blocked) ts h, other) (pending_settled ts h)

untouched_settled :
    (ms : List ExecutionMilestone) → All IsUntouched ms → runs (all_tasks ms) ≡ false
unfolding all_tasks any
untouched_settled [] h = refl
untouched_settled (m ∷ ms) (u, h) =
    any-append (λ t. is_in_progress t.status) m.tasks (all_tasks ms)
    ∙ ground (arith, pending_settled m.tasks u.tasks_wait, untouched_settled ms h)

blocked_settled :
    (ms : List ExecutionMilestone)
    → AreStaged ms
    → runs (all_tasks (change_first is_open block_milestone ms)) ≡ false
unfolding all_tasks change_first any block_milestone
blocked_settled [] h = refl
blocked_settled (m ∷ ms) (inl (c, d, h)) =
    let closed : is_open m ≡ false = ground arith in
    rw closed (
      any-append (λ t. is_in_progress t.status) m.tasks
        (all_tasks (change_first is_open block_milestone ms))
      ∙ ground (arith, completed_settled m.tasks d, blocked_settled ms h))
blocked_settled (m ∷ ms) (inr (o, h, u)) = rw o (
    any-append (λ t. is_in_progress t.status)
      (change_first (λ t. is_in_progress t.status) (set_status blocked) m.tasks) (all_tasks ms)
    ∙ ground (arith, block_settled m.tasks h, untouched_settled ms u))

all_settled : (ms : List ExecutionMilestone) → runs (all_tasks (map complete_milestone ms)) ≡ false
unfolding all_tasks any complete_milestone
all_settled [] = refl
all_settled (m ∷ ms) =
    any-append (λ t. is_in_progress t.status) (map (set_status completed) m.tasks)
      (all_tasks (map complete_milestone ms))
    ∙ ground (arith, tasks_settled m.tasks, all_settled ms)
  where
    tasks_settled : (ts : List ExecutionTask) → runs (map (set_status completed) ts) ≡ false
    tasks_settled [] = refl
    tasks_settled (t ∷ ts) = tasks_settled ts

-- A run that is done, blocked, waits for the user or has met a limit leaves no task of its plan in
-- progress, if the plan was made and advanced once and then reported on.
pub finish_plan-IsSettled :
    {plan : ExecutionPlan} (status : TaskCompletionStatus)
    → Reach plan
    → status ≢ TaskCompletionStatus.in_progress
    → status ≢ TaskCompletionStatus.cancelled
    → IsSettled (finish_plan status plan)
unfolding finish_plan block_plan
finish_plan-IsSettled {plan} TaskCompletionStatus.done r p c = record {
  settled = all_settled plan.milestones;
}
finish_plan-IsSettled {plan} TaskCompletionStatus.blocked r p c = record {
  settled = blocked_settled plan.milestones (Reach-AreStaged r);
}
finish_plan-IsSettled {plan} TaskCompletionStatus.user_input_required r p c = record {
  settled = blocked_settled plan.milestones (Reach-AreStaged r);
}
finish_plan-IsSettled {plan} TaskCompletionStatus.resource_limit_reached r p c = record {
  settled = blocked_settled plan.milestones (Reach-AreStaged r);
}
finish_plan-IsSettled TaskCompletionStatus.cancelled r p c = absurd (c refl)
finish_plan-IsSettled TaskCompletionStatus.in_progress r p c = absurd (p refl)
