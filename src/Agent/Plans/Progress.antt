-- ===== src/Agent/Plans/Progress.antt =====
-- Progress completes a plan: each report brings it closer to its end.
use cogito_ai.Prelude.{
  ℕ, zero, suc, ◌+◌, ◌≤◌, ◌<◌, ◌≡◌, refl, true, false, Option, none, some, List, [], ◌∷◌, any, all,
  find, inl, inr, Bool-cases, if◌then◌else◌, arith,
}
use cogito_ai.Session.Tasks.{
  PlanItemStatus, pending, in_progress, completed, blocked, ExecutionTask, ExecutionMilestone,
  ExecutionPlan, TaskRun,
}
use cogito_ai.Agent.Plans.{
  is_pending, is_in_progress, is_completed, change_first, set_status, is_open, title_of,
  current_title, with_plan, sync_current_milestone, record_milestone, progress_plan, record_with,
  record_plan_progress,
}

-- The reports that a task and a milestone still need at most.
abbrev task_weight : PlanItemStatus → ℕ
task_weight pending = 2
task_weight in_progress = 1
task_weight completed = 0
task_weight blocked = 0

abbrev tasks_weight : List ExecutionTask → ℕ
tasks_weight [] = 0
tasks_weight (t ∷ ts) = task_weight t.status + tasks_weight ts

abbrev milestone_weight : ExecutionMilestone → ℕ
milestone_weight m = if is_completed m.status then 0 else 1 + tasks_weight m.tasks

abbrev pub plan_weight : List ExecutionMilestone → ℕ
plan_weight [] = 0
plan_weight (m ∷ ms) = milestone_weight m + plan_weight ms

complete_first-le :
    (ts : List ExecutionTask)
    → tasks_weight (change_first (λ t. is_in_progress t.status) (set_status completed) ts)
      ≤ tasks_weight ts
unfolding change_first
complete_first-le [] = omega arith
complete_first-le (t ∷ ts) = ground (arith, complete_first-le ts)

start_first-lt :
    (ts : List ExecutionTask)
    → any (λ t. is_pending t.status) ts ≡ true
    → tasks_weight (change_first (λ t. is_pending t.status) (set_status in_progress) ts)
      < tasks_weight ts
unfolding change_first any
start_first-lt [] h = absurd (ground arith)
start_first-lt (t ∷ ts) h = ground (arith, start_first-lt ts)

record_milestone-lt :
    (m : ExecutionMilestone)
    → is_open m ≡ true
    → milestone_weight (record_milestone m) < milestone_weight m
unfolding record_milestone
record_milestone-lt m h =
    let tasks = change_first (λ t. is_in_progress t.status) (set_status completed) m.tasks in
    ground (arith, complete_first-le m.tasks, start_first-lt tasks)

record_first-lt :
    (ms : List ExecutionMilestone)
    → any is_open ms ≡ true
    → plan_weight (change_first is_open record_milestone ms) < plan_weight ms
unfolding change_first any
record_first-lt [] h = absurd (ground arith)
record_first-lt (m ∷ ms) h = ground (arith, record_first-lt ms, record_milestone-lt m)

none_open :
    (ms : List ExecutionMilestone)
    → any is_open ms ≡ false
    → all (λ m. is_completed m.status) ms ≡ true
unfolding any all
none_open [] h = refl
none_open (m ∷ ms) h = ground (arith, none_open ms)

none_found : (ms : List ExecutionMilestone) → any is_open ms ≡ false → find is_open ms ≡ none
unfolding any find
none_found [] h = refl
none_found (m ∷ ms) h = ground (arith, none_found ms)

open-lt : (ms : List ExecutionMilestone) → any is_open ms ≡ true → 0 < plan_weight ms
unfolding any
open-lt [] h = absurd (ground arith)
open-lt (m ∷ ms) h = ground (arith, open-lt ms)

-- A number of reports of progress, one after the other.
abbrev pub reports : ℕ → TaskRun → TaskRun
reports zero run = run
reports (suc n) run = reports n (record_plan_progress run)

-- The plan of a run is carried out.
pub record IsCarriedOut (run : TaskRun) : Type 0 where
  pub plan : ExecutionPlan
  pub planned : run.execution_plan ≡ some plan
  pub closed : any is_open plan.milestones ≡ false
  pub ended : plan.status ≡ completed
  pub unnamed : run.goal.current_milestone ≡ none

report_closed :
    (run : TaskRun) (plan : ExecutionPlan)
    → run.execution_plan ≡ some plan
    → any is_open plan.milestones ≡ false
    → record_plan_progress run ≡ run
unfolding record_plan_progress record_with
report_closed run plan e h = step run.execution_plan e
  where
    step : (o : Option ExecutionPlan) → o ≡ some plan → record_with run o ≡ run
    step none p = absurd (ground arith)
    step (some q) p = let same : q ≡ plan = cc in rw (same, h) refl

reports_closed :
    (n : ℕ) (run : TaskRun) (plan : ExecutionPlan)
    → run.execution_plan ≡ some plan
    → any is_open plan.milestones ≡ false
    → reports n run ≡ run
reports_closed zero run plan e h = refl
reports_closed (suc n) run plan e h =
    rw (report_closed run plan e h) (reports_closed n run plan e h)

report_open :
    (run : TaskRun) (plan : ExecutionPlan)
    → run.execution_plan ≡ some plan
    → any is_open plan.milestones ≡ true
    → record_plan_progress run ≡ sync_current_milestone (with_plan run (progress_plan plan))
unfolding record_plan_progress record_with
report_open run plan e h = step run.execution_plan e
  where
    step :
        (o : Option ExecutionPlan)
        → o ≡ some plan
        → record_with run o ≡ sync_current_milestone (with_plan run (progress_plan plan))
    step none p = absurd (ground arith)
    step (some q) p = let same : q ≡ plan = cc in rw (same, h) refl

synced-IsCarriedOut :
    (run : TaskRun) (plan : ExecutionPlan)
    → any is_open (progress_plan plan).milestones ≡ false
    → IsCarriedOut (sync_current_milestone (with_plan run (progress_plan plan)))
unfolding sync_current_milestone current_title title_of progress_plan
synced-IsCarriedOut run plan h = record {
  plan = progress_plan plan;
  planned = refl;
  closed = h;
  ended = rw (none_open (change_first is_open record_milestone plan.milestones) h) refl;
  unnamed = rw (none_found (change_first is_open record_milestone plan.milestones) h) refl;
}

-- A plan with an open milestone is carried out after as many reports of progress as its weight: two
-- for each pending task, one for each that is in progress, and one for each open milestone. Then the
-- plan and all its milestones are completed, no milestone is the current one, and further reports
-- change nothing.
pub reports-IsCarriedOut :
    (n : ℕ) (run : TaskRun) (plan : ExecutionPlan)
    → run.execution_plan ≡ some plan
    → any is_open plan.milestones ≡ true
    → plan_weight plan.milestones ≤ n
    → IsCarriedOut (reports n run)
unfolding sync_current_milestone progress_plan
reports-IsCarriedOut zero run plan e h k = absurd (omega (arith, open-lt plan.milestones h))
reports-IsCarriedOut (suc n) run plan e h k =
    let less = record_first-lt plan.milestones h in
    let next = sync_current_milestone (with_plan run (progress_plan plan)) in
    elim (Bool-cases (any is_open (progress_plan plan).milestones)) [
      | inl f ↦
          rw (report_open run plan e h)
            (reports-IsCarriedOut n next (progress_plan plan) refl f (omega arith))
      | inr f ↦
          rw (report_open run plan e h, reports_closed n next (progress_plan plan) refl f)
            (synced-IsCarriedOut run plan f)
    ]
