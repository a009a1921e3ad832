-- ===== src/Agent/Plans/Stages.antt =====
-- A plan that is only advanced once and reported on goes through its tasks one by one.
use cogito_ai.Prelude.{
  ◌≡◌, ◌⊎◌, inl, inr, refl, true, false, List, [], ◌∷◌, any, All, Bool-cases, arith,
}
use cogito_ai.Prelude.Text.{Text}
use cogito_ai.Session.Tasks.{
  pending, in_progress, completed, ImplementationPlan, ExecutionTask, ExecutionMilestone,
  ExecutionPlan,
}
use cogito_ai.Agent.Plans.{
  is_pending, is_in_progress, change_first, set_status, is_open, advance_milestone, advance_plan,
  record_milestone, progress_plan, execution_plan_from_implementation,
}
use cogito_ai.Agent.Plans.Making.{
  IsUntouched, ArePending, execution_plan_from_implementation-IsMade,
}

abbrev pub AreCompleted : List ExecutionTask → Type 0
AreCompleted = All (λ (t : ExecutionTask). t.status ≡ completed)

-- Completed tasks, and then pending ones.
abbrev AreReady : List ExecutionTask → Type 0
AreReady [] = Unit
AreReady (t ∷ ts) = ((t.status ≡ completed) × AreReady ts) ⊎ ((t.status ≡ pending) × ArePending ts)

-- Completed tasks, and then pending ones, of which the first may be in progress.
abbrev pub AreOrdered : List ExecutionTask → Type 0
AreOrdered [] = Unit
AreOrdered (t ∷ ts) =
    ((t.status ≡ completed) × AreOrdered ts)
    ⊎ (((t.status ≡ in_progress) ⊎ (t.status ≡ pending)) × ArePending ts)

-- Completed milestones, whose tasks are completed; the current one; and untouched ones.
abbrev pub AreStaged : List ExecutionMilestone → Type 0
AreStaged [] = Unit
AreStaged (m ∷ ms) =
    ((m.status ≡ completed) × AreCompleted m.tasks × AreStaged ms)
    ⊎ ((is_open m ≡ true) × AreOrdered m.tasks × All IsUntouched ms)

ArePending-AreReady : (ts : List ExecutionTask) → ArePending ts → AreReady ts
ArePending-AreReady [] h = tt
ArePending-AreReady (t ∷ ts) (p, h) = inr (p, h)

ArePending-AreOrdered : (ts : List ExecutionTask) → ArePending ts → AreOrdered ts
ArePending-AreOrdered [] h = tt
ArePending-AreOrdered (t ∷ ts) (p, h) = inr (inr p, h)

pub change_first-ArePending :
    (change : ExecutionTask → ExecutionTask) (ts : List ExecutionTask)
    → ArePending ts
    → change_first (λ t. is_in_progress t.status) change ts ≡ ts
unfolding change_first
change_first-ArePending change [] h = refl
change_first-ArePending change (t ∷ ts) (p, h) = ground (arith, change_first-ArePending change ts h)

complete-AreReady :
    (ts : List ExecutionTask)
    → AreOrdered ts
    → AreReady (change_first (λ t. is_in_progress t.status) (set_status completed) ts)
unfolding change_first
complete-AreReady [] h = tt
complete-AreReady (t ∷ ts) (inl (c, h)) =
    let other : is_in_progress t.status ≡ false = ground arith in
    rw other (inl (c, complete-AreReady ts h))
complete-AreReady (t ∷ ts) (inr (inl c, h)) =
    let this : is_in_progress t.status ≡ true = ground arith in
    rw this (inl (refl, ArePending-AreReady ts h))
complete-AreReady (t ∷ ts) (inr (inr c, h)) =
    let other : is_in_progress t.status ≡ false = ground arith in
    rw other (inr (c, rw (change_first-ArePending (set_status completed) ts h) h))

start-AreOrdered :
    (ts : List ExecutionTask)
    → AreReady ts
    → AreOrdered (change_first (λ t. is_pending t.status) (set_status in_progress) ts)
unfolding change_first
start-AreOrdered [] h = tt
start-AreOrdered (t ∷ ts) (inl (c, h)) =
    let other : is_pending t.status ≡ false = ground arith in
    rw other (inl (c, start-AreOrdered ts h))
start-AreOrdered (t ∷ ts) (inr (c, h)) =
    let this : is_pending t.status ≡ true = ground arith in rw this (inr (inl refl, h))

none_pending :
    (ts : List ExecutionTask)
    → AreReady ts
    → any (λ t. is_pending t.status) ts ≡ false
    → AreCompleted ts
unfolding any
none_pending [] r h = tt
none_pending (t ∷ ts) (inl (c, r)) h = (c, none_pending ts r (ground arith))
none_pending (t ∷ ts) (inr (c, r)) h = absurd (ground arith)

AreUntouched-AreStaged : (ms : List ExecutionMilestone) → All IsUntouched ms → AreStaged ms
AreUntouched-AreStaged [] h = tt
AreUntouched-AreStaged (m ∷ ms) (u, h) =
    inr (rw u.waits refl, ArePending-AreOrdered m.tasks u.tasks_wait, h)

record-AreStaged :
    (m : ExecutionMilestone) (ms : List ExecutionMilestone)
    → is_open m ≡ true
    → AreOrdered m.tasks
    → All IsUntouched ms
    → AreStaged (record_milestone m ∷ ms)
unfolding record_milestone
record-AreStaged m ms o h u =
    let tasks = change_first (λ t. is_in_progress t.status) (set_status completed) m.tasks in
    let ready = complete-AreReady m.tasks h in
    elim (Bool-cases (any (λ t. is_pending t.status) tasks)) [
      | inl e ↦ rw (record_milestone, e) (inr (o, start-AreOrdered tasks ready, u))
      | inr e ↦
          rw (record_milestone, e)
            (inl (refl, none_pending tasks ready e, AreUntouched-AreStaged ms u))
    ]

progress-AreStaged :
    (ms : List ExecutionMilestone)
    → AreStaged ms
    → AreStaged (change_first is_open record_milestone ms)
unfolding change_first
progress-AreStaged [] h = tt
progress-AreStaged (m ∷ ms) (inl (c, d, h)) =
    let closed : is_open m ≡ false = ground arith in rw closed (inl (c, d, progress-AreStaged ms h))
progress-AreStaged (m ∷ ms) (inr (o, h, u)) = rw o (record-AreStaged m ms o h u)

advance-AreStaged :
    (ms : List ExecutionMilestone)
    → All IsUntouched ms
    → AreStaged (change_first is_open advance_milestone ms)
unfolding change_first advance_milestone
advance-AreStaged [] h = tt
advance-AreStaged (m ∷ ms) (u, h) =
    let open_one : is_open m ≡ true = rw u.waits refl in
    rw open_one (inr (refl, start-AreOrdered m.tasks (ArePending-AreReady m.tasks u.tasks_wait), h))

-- The plans that reports of progress make of a plan that was made and advanced once.
pub data Reach : ExecutionPlan → Type 0 where
  made :
      (p : ImplementationPlan) (criteria : List Text)
      → Reach (advance_plan (execution_plan_from_implementation p criteria))
  reported : {plan : ExecutionPlan} → Reach plan → Reach (progress_plan plan)

-- In such a plan the completed milestones come first and have only completed tasks; the current one
-- has completed tasks, at most one in progress, and pending ones; and all behind it is untouched.
pub Reach-AreStaged : {plan : ExecutionPlan} → Reach plan → AreStaged plan.milestones
unfolding advance_plan progress_plan
Reach-AreStaged (made p criteria) =
    advance-AreStaged (execution_plan_from_implementation p criteria).milestones
      (execution_plan_from_implementation-IsMade p criteria).untouched
Reach-AreStaged (reported {plan} r) = progress-AreStaged plan.milestones (Reach-AreStaged r)
