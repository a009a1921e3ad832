-- ===== src/Agent/Revision/Laws.antt =====
-- The revision of a plan: what it keeps of the old plan, and how often it can happen.
use cogito_ai.Prelude.{
  Bool, ℕ, ◌+◌, ◌-◌, ◌≤◌, ◌≡◌, ◌⊎◌, inl, inr, refl, ap, true, false, not, ◌||◌, Option, none, some,
  List, [], ◌∷◌, any, map, All, Bool-cases, if◌then◌else◌, max, append-nil, ◌∙◌, arith,
}
use cogito_ai.Prelude.Text.{Text, trim}
use cogito_ai.Session.Compact.{is_empty}
use cogito_ai.Session.Tasks.{in_progress, Goal, ExecutionTask, ExecutionPlan, TaskRun}
use cogito_ai.Agent.Plans.{
  is_pending, is_completed, change_first, set_status, is_open, with_plan, sync_current_milestone,
  advance_milestone, advance_plan, advance_with, advance_execution_plan, all_tasks, record_with,
  record_plan_progress, progress_plan,
}
use cogito_ai.Agent.Revision.{
  was_completed, revised_task, revised_plan, is_refused, revise_with, has_steps,
  revise_execution_plan,
}

-- What the revised plan of a run has of the old plan and of the new steps: it is one revision ahead,
-- the fourth at most, has the steps as its tasks, in their order, and a task of it is completed
-- exactly if a task of the old plan with the same description was.
pub record IsRevised (old : ExecutionPlan) (steps : List Text) (run : TaskRun) : Type 0 where
  pub plan : ExecutionPlan
  pub planned : run.execution_plan ≡ some plan
  pub counted : plan.revision ≡ old.revision + 1
  pub bounded : plan.revision ≤ 4
  pub same_steps : map (λ (t : ExecutionTask). t.description) (all_tasks plan.milestones) ≡ steps
  pub kept :
      All
        (λ (t : ExecutionTask).
          is_completed t.status ≡ was_completed (all_tasks old.milestones) t.description)
        (all_tasks plan.milestones)

module _ (old : List ExecutionTask) where
  abbrev AreKept : List ExecutionTask → Type 0
  AreKept = All (λ (t : ExecutionTask). is_completed t.status ≡ was_completed old t.description)

  started-AreKept :
      (ts : List ExecutionTask)
      → AreKept ts
      → AreKept (change_first (λ t. is_pending t.status) (set_status in_progress) ts)
  unfolding change_first
  started-AreKept [] h = tt
  started-AreKept (t ∷ ts) (p, h) = elim (Bool-cases (is_pending t.status)) [
    | inl e ↦ let waits : is_completed t.status ≡ false = ground arith in rw e (rw waits at p, h)
    | inr e ↦ rw e (p, started-AreKept ts h)
  ]

  revised-AreKept : (steps : List Text) → AreKept (map (revised_task old) steps)
  unfolding revised_task
  revised-AreKept [] = tt
  revised-AreKept (s ∷ steps) = elim (Bool-cases (was_completed old s)) [
    | inl e ↦ (rw e refl, revised-AreKept steps)
    | inr e ↦ (rw e refl, revised-AreKept steps)
  ]

  revised-steps :
      (steps : List Text)
      → map (λ (t : ExecutionTask). t.description) (map (revised_task old) steps) ≡ steps
  unfolding revised_task
  revised-steps [] = refl
  revised-steps (s ∷ steps) = ap (λ (l : List Text). s ∷ l) (revised-steps steps)

started-steps :
    (ts : List ExecutionTask)
    → map
        (λ (t : ExecutionTask). t.description)
        (change_first (λ t. is_pending t.status) (set_status in_progress) ts)
      ≡ map (λ (t : ExecutionTask). t.description) ts
unfolding change_first
started-steps [] = refl
started-steps (t ∷ ts) = elim (Bool-cases (is_pending t.status)) [
  | inl e ↦ rw e refl
  | inr e ↦ rw e (ap (λ (l : List Text). t.description ∷ l) (started-steps ts))
]

-- The tasks of the plan that a revision leaves, which is advanced.
abbrev next_tasks : ExecutionPlan → List Text → List ExecutionTask
next_tasks old steps =
    change_first (λ t. is_pending t.status) (set_status in_progress)
      (map (revised_task (all_tasks old.milestones)) steps)

advanced_tasks :
    (goal : Goal) (old : ExecutionPlan) (reason : Text) (steps : List Text)
    → all_tasks (advance_plan (revised_plan goal old reason steps)).milestones
      ≡ next_tasks old steps
unfolding advance_plan revised_plan advance_milestone change_first all_tasks
advanced_tasks goal old reason steps = append-nil (next_tasks old steps)

advance_execution_plan-IsRevised :
    (run : TaskRun) (old : ExecutionPlan) (reason : Text) (steps : List Text)
    → is_refused old steps ≡ false
    → IsRevised old steps
        (advance_execution_plan (with_plan run (revised_plan run.goal old reason steps)))
unfolding advance_execution_plan advance_with sync_current_milestone advance_plan revised_plan
    is_refused
advance_execution_plan-IsRevised run old reason steps h =
    let tasks = advanced_tasks run.goal old reason steps in
    record {
      plan = advance_plan (revised_plan run.goal old reason steps);
      planned = refl;
      counted = refl;
      bounded = ground arith;
      same_steps = rw tasks (
          started-steps (map (revised_task (all_tasks old.milestones)) steps)
          ∙ revised-steps (all_tasks old.milestones) steps);
      kept = rw tasks (
          started-AreKept (all_tasks old.milestones)
            (map (revised_task (all_tasks old.milestones)) steps)
            (revised-AreKept (all_tasks old.milestones) steps));
    }

-- Why an attempt is refused: it gives no reason or no steps, there is no plan, or the plan was revised
-- three times or has the same steps.
abbrev pub Refusal : TaskRun → Text → List Text → Type 0
Refusal run reason steps =
    ((is_empty (trim reason) || not (has_steps steps)) ≡ true)
    ⊎ (run.execution_plan ≡ none)
    ⊎ ((old : ExecutionPlan) × (run.execution_plan ≡ some old) × (is_refused old steps ≡ true))

-- The run is as it was, or its plan is revised.
abbrev pub Attempt : TaskRun → Text → List Text → TaskRun × Bool → Type 0
Attempt run reason steps result =
    (Refusal run reason steps × (result ≡ (run, false)))
    ⊎ ((old : ExecutionPlan) × (run.execution_plan ≡ some old)
        × (result.1 ≡ true)
        × IsRevised old steps result.0)

-- A revision that is refused leaves the run as it was, and it is refused only without a reason, without
-- steps or a plan, after three revisions, or with the steps of the plan. Any other one is made: the
-- new plan is one revision ahead, the fourth at most, its tasks are the steps in their order, and
-- exactly those of them are completed that were completed in the old plan.
pub revise_execution_plan-Attempt :
    (run : TaskRun) (reason : Text) (steps : List Text)
    → Attempt run reason steps (revise_execution_plan run reason steps)
unfolding revise_execution_plan revise_with
revise_execution_plan-Attempt run reason steps =
    elim (Bool-cases (is_empty (trim reason) || not (has_steps steps))) [
      | inl e ↦ rw (revise_execution_plan, e) (inl (inl refl, refl))
      | inr e ↦ rw (revise_execution_plan, e) (rw e at (go run.execution_plan refl))
    ]
  where
    go :
        (o : Option ExecutionPlan)
        → run.execution_plan ≡ o
        → Attempt run reason steps (revise_with run reason steps o)
    go none p = inl (inr (inl p), refl)
    go (some old) p = elim (Bool-cases (is_refused old steps)) [
      | inl f ↦ rw f (inl (inr (inr (old, p, f)), refl))
      | inr f ↦ rw f (inr (old, p, refl, advance_execution_plan-IsRevised run old reason steps f))
    ]

-- What the agent does to a plan that it has: a report of progress, or an attempt to revise it.
pub data Change : Type 0 where
  reported : Change
  revised : (reason : Text) → (steps : List Text) → Change

-- How many of the attempts are made.
abbrev pub revisions : List Change → TaskRun → ℕ
revisions [] run = 0
revisions (reported ∷ changes) run = revisions changes (record_plan_progress run)
revisions (revised reason steps ∷ changes) run =
    let (next, made) = revise_execution_plan run reason steps in
    let rest = revisions changes next in if made then 1 + rest else rest

-- A run without a plan counts as one whose plan is not revised any more.
abbrev revision_of : Option ExecutionPlan → ℕ
revision_of none = 4
revision_of (some plan) = plan.revision

report-revision :
    (run : TaskRun)
    → revision_of (record_plan_progress run).execution_plan ≡ revision_of run.execution_plan
unfolding record_plan_progress record_with sync_current_milestone progress_plan
report-revision run = go run.execution_plan refl
  where
    go :
        (o : Option ExecutionPlan)
        → run.execution_plan ≡ o
        → revision_of (record_with run o).execution_plan ≡ revision_of o
    go none p = ap revision_of p
    go (some plan) p = elim (Bool-cases (any is_open plan.milestones)) [
      | inl e ↦ rw e refl
      | inr e ↦ rw e (ap revision_of p)
    ]

revisions-bound :
    (changes : List Change) (run : TaskRun)
    → revisions changes run + revision_of run.execution_plan
      ≤ max (revision_of run.execution_plan) 4
revisions-bound [] run = omega arith
revisions-bound (reported ∷ changes) run =
    omega (arith, report-revision run, revisions-bound changes (record_plan_progress run))
revisions-bound (revised reason steps ∷ changes) run =
    elim (revise_execution_plan-Attempt run reason steps) [
      | inl (_, e) ↦ rw e (revisions-bound changes run)
      | inr (old, p, made, done) ↦
          let rest = revisions-bound changes (revise_execution_plan run reason steps).0 in
          let after : revision_of (revise_execution_plan run reason steps).0.execution_plan
              ≡ old.revision + 1 =
            ap revision_of done.planned ∙ done.counted in
          let before : revision_of run.execution_plan ≡ old.revision = ap revision_of p in
          let limit : old.revision + 1 ≤ 4 = omega (arith, done.bounded, done.counted) in
          rw made (omega arith)
    ]

-- However often a plan is revised and reported on, at most as many of the revisions are made as its
-- revision number is below 4: three of a plan as it is made, whose number is 1.
pub revisions-le :
    (changes : List Change) (run : TaskRun) (plan : ExecutionPlan)
    → run.execution_plan ≡ some plan
    → revisions changes run ≤ 4 - plan.revision
revisions-le changes run plan e =
    let current : revision_of run.execution_plan ≡ plan.revision = ap revision_of e in
    omega (arith, revisions-bound changes run)
