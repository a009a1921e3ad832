-- ===== src/Agent/Plans/Making.antt =====
-- The plan that is made of the steps of an implementation plan.
use cogito_ai.Prelude.{
  ℕ, suc, ◌≤◌, ◌≡◌, refl, ap, Bool, not, List, [], ◌∷◌, map, filter, take, length, length-take,
  length-map, All, leb, arith,
}
use cogito_ai.Prelude.Text.{Text, trim}
use cogito_ai.Session.Compact.{is_empty}
use cogito_ai.Session.Tasks.{
  pending, ImplementationPlan, ExecutionTask, ExecutionMilestone, ExecutionPlan,
}
use cogito_ai.Agent.Plans.{
  chunks_of_four, pending_task, planned_tasks, milestones_from, criteria_or_default, all_tasks,
  execution_plan_from_implementation,
}

-- What is pending and has at most four tasks.
pub record IsUntouched (m : ExecutionMilestone) : Type 0 where
  pub waits : m.status ≡ pending
  pub tasks_wait : All (λ (t : ExecutionTask). t.status ≡ pending) m.tasks
  pub short : length m.tasks ≤ 4

abbrev pub ArePending : List ExecutionTask → Type 0
ArePending = All (λ (t : ExecutionTask). t.status ≡ pending)

milestones_from-tasks :
    (p : ImplementationPlan) (criteria : List Text) (few : Bool) (n : ℕ) (ts : List ExecutionTask)
    → all_tasks (milestones_from p criteria few n (chunks_of_four ts)) ≡ ts
unfolding milestones_from chunks_of_four all_tasks
milestones_from-tasks p criteria few n [] = refl
milestones_from-tasks p criteria few n (a ∷ []) = refl
milestones_from-tasks p criteria few n (a ∷ b ∷ []) = refl
milestones_from-tasks p criteria few n (a ∷ b ∷ c ∷ []) = refl
milestones_from-tasks p criteria few n (a ∷ b ∷ c ∷ d ∷ ts) =
    ap (λ (l : List ExecutionTask). a ∷ b ∷ c ∷ d ∷ l)
      (milestones_from-tasks p criteria few (suc n) ts)

pub milestones_from-IsUntouched :
    (p : ImplementationPlan) (criteria : List Text) (few : Bool) (n : ℕ) (ts : List ExecutionTask)
    → ArePending ts
    → All IsUntouched (milestones_from p criteria few n (chunks_of_four ts))
unfolding milestones_from chunks_of_four
milestones_from-IsUntouched p criteria few n [] h = tt
milestones_from-IsUntouched p criteria few n (a ∷ []) h =
    (record { waits = refl; tasks_wait = h; short = omega arith }, tt)
milestones_from-IsUntouched p criteria few n (a ∷ b ∷ []) h =
    (record { waits = refl; tasks_wait = h; short = omega arith }, tt)
milestones_from-IsUntouched p criteria few n (a ∷ b ∷ c ∷ []) h =
    (record { waits = refl; tasks_wait = h; short = omega arith }, tt)
milestones_from-IsUntouched p criteria few n (a ∷ b ∷ c ∷ d ∷ ts) (ha, (hb, (hc, (hd, h)))) = (
  record { waits = refl; tasks_wait = (ha, (hb, (hc, (hd, tt)))); short = omega arith },
  milestones_from-IsUntouched p criteria few (suc n) ts h,
)

pending_tasks-ArePending : (steps : List Text) → ArePending (map pending_task steps)
unfolding pending_task
pending_tasks-ArePending [] = tt
pending_tasks-ArePending (s ∷ steps) = (refl, pending_tasks-ArePending steps)

descriptions_of :
    (steps : List Text)
    → map (λ (t : ExecutionTask). t.description) (map pending_task steps) ≡ steps
unfolding pending_task
descriptions_of [] = refl
descriptions_of (s ∷ steps) = ap (λ (l : List Text). s ∷ l) (descriptions_of steps)

-- What a plan has of the steps that it is made of.
pub record IsMade (p : ImplementationPlan) (plan : ExecutionPlan) : Type 0 where
  pub in_order :
      map (λ (t : ExecutionTask). t.description) (all_tasks plan.milestones)
      ≡ take 32 (filter (λ step. not (is_empty (trim step))) p.implementation_steps)
  pub untouched : All IsUntouched plan.milestones
  pub short : length (all_tasks plan.milestones) ≤ 32
  pub first : plan.revision ≡ 1

-- A plan that is made has the first 32 steps that are not blank as its tasks, in their order, in
-- milestones of at most four tasks; nothing of it has been started, and it is the first revision.
pub execution_plan_from_implementation-IsMade :
    (p : ImplementationPlan) (criteria : List Text)
    → IsMade p (execution_plan_from_implementation p criteria)
unfolding execution_plan_from_implementation planned_tasks
execution_plan_from_implementation-IsMade p criteria =
    let steps = take 32 (filter (λ step. not (is_empty (trim step))) p.implementation_steps) in
    let tasks = map pending_task steps in
    let few = leb (length tasks) 4 in
    let same = milestones_from-tasks p (criteria_or_default criteria) few 0 tasks in
    record {
      in_order = rw same (descriptions_of steps);
      untouched =
          milestones_from-IsUntouched p (criteria_or_default criteria) few 0 tasks
            (pending_tasks-ArePending steps);
      short = rw same (
          omega (
            arith,
            length-map pending_task steps,
            length-take 32 (filter (λ step. not (is_empty (trim step))) p.implementation_steps),
          ));
      first = refl;
    }
