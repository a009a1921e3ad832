-- ===== src/Agent/Turn/Honesty.antt =====
-- A run that is judged to be done owes nothing.
use cogito_ai.Prelude.{
  ◌≡◌, refl, ap, sym, ◌∙◌, Bool, true, false, not, ◌&&◌, Option, none, some, List, [], ◌∷◌, any,
  leb, max, min, ◌+◌, ◌-◌, ◌^◌, inl, inr, Bool-cases, if_lem, ◌⊎◌, arith,
}
use cogito_ai.Prelude.Text.{Text, text_eq}
use cogito_ai.Session.Tasks.{ExecutionPlan, TaskCompletionStatus, TaskRun}
use cogito_ai.Agent.Plans.{
  is_completed, sync_current_milestone, finish_plan, finish_with, finish_plan_state,
}
use cogito_ai.Agent.Limits.{Ending, ending, finish_task_run, finish_blocked_task}
use cogito_ai.Agent.Reports.{or_insert_error, error_texts}
use cogito_ai.Agent.Turn.{
  Settings, Turn, Outcome, continued, ended, failed, is_code, has_items, with_error,
  needs_inspection, require_inspection, require_validation, repaired, completed_run, judged,
}

-- What the end of a plan leaves alone.
abbrev Facts : Type 0
Facts = TaskCompletionStatus × List Text × List Text × Bool

abbrev facts : TaskRun → Facts
facts run =
    (run.completion_status, run.unresolved_errors, run.changed_files, run.final_diff_inspected)

finish_plan_state-facts : (run : TaskRun) → facts (finish_plan_state run) ≡ facts run
unfolding finish_plan_state finish_with sync_current_milestone
finish_plan_state-facts run = go run.execution_plan
  where
    go : (o : Option ExecutionPlan) → facts (finish_with run o) ≡ facts run
    go none = refl
    go (some plan) = refl

abbrev pub plan_done : Option ExecutionPlan → Bool
plan_done none = true
plan_done (some plan) = is_completed plan.status

finish_plan_state-plan_done :
    (run : TaskRun)
    → run.completion_status ≡ TaskCompletionStatus.done
    → plan_done (finish_plan_state run).execution_plan ≡ true
unfolding finish_plan_state finish_with sync_current_milestone finish_plan
finish_plan_state-plan_done run h = go run.execution_plan refl
  where
    go :
        (o : Option ExecutionPlan)
        → run.execution_plan ≡ o
        → plan_done (finish_with run o).execution_plan ≡ true
    go none p = rw p refl
    go (some plan) p = rw h refl

-- A run that is done: no error is unresolved, in the mode CODE a change of files was inspected, the
-- plan is completed, and the hooks at the end did not fail.
pub record IsComplete (s : Settings) (run : TaskRun) : Type 0 where
  pub resolved : run.unresolved_errors ≡ []
  pub reviewed :
      (is_code s.mode && (has_items run.changed_files && not run.final_diff_inspected)) ≡ false
  pub carried_out : plan_done run.execution_plan ≡ true
  pub hooks_passed : s.hook_error ≡ none

abbrev pub IsHonest : Settings → Ending → Type 0
IsHonest s e = e.run.completion_status ≡ TaskCompletionStatus.done → IsComplete s e.run

abbrev pub AreHonest : Settings → Outcome → Type 0
AreHonest s (continued t) = Unit
AreHonest s (ended e) = IsHonest s e
AreHonest s (failed e) = Unit

status_kept : (run : TaskRun) → (finish_plan_state run).completion_status ≡ run.completion_status
status_kept run = ap (λ (f : Facts). f.0) (finish_plan_state-facts run)

-- The hooks at the end make a run that they fail blocked.
pub unfinished-IsHonest :
    (s : Settings) (hook : Option Text) (run : TaskRun) (message : Text)
    → (run.completion_status ≡ TaskCompletionStatus.done → ⊥)
    → IsHonest s (finish_task_run hook run message)
unfolding finish_task_run ending
unfinished-IsHonest s none run message h d = absurd (h (sym (status_kept run) ∙ d))
unfinished-IsHonest s (some error) run message h d =
    let blocked = sym (status_kept _) ∙ d in absurd (ground arith)

finished-IsHonest :
    (s : Settings) (hook : Option Text) (run : TaskRun) (message : Text)
    → s.hook_error ≡ hook
    → run.completion_status ≡ TaskCompletionStatus.done
    → run.unresolved_errors ≡ []
    → (is_code s.mode && (has_items run.changed_files && not run.final_diff_inspected)) ≡ false
    → IsHonest s (finish_task_run hook run message)
unfolding finish_task_run ending
finished-IsHonest s none run message k c r i d = record {
  resolved = ap (λ (f : Facts). f.1) (finish_plan_state-facts run) ∙ r;
  reviewed =
      ap (λ (f : Facts). is_code s.mode && (has_items f.2 && not f.3)) (finish_plan_state-facts run)
      ∙ i;
  carried_out = finish_plan_state-plan_done run c;
  hooks_passed = k;
}
finished-IsHonest s (some error) run message k c r i d =
    let blocked = sym (status_kept _) ∙ d in absurd (ground arith)

pub blocked-IsHonest :
    (s : Settings) (run : TaskRun) (reason : Text)
    → IsHonest s (finish_blocked_task s.hook_error run reason)
unfolding finish_blocked_task
blocked-IsHonest s run reason d =
    unfinished-IsHonest s s.hook_error _ _ (λ p. absurd (ground arith)) d

-- An error that is required stands among the errors.
required_error :
    (key message : Text) (errors : List (Text × Text))
    → has_items (error_texts (or_insert_error key message errors)) ≡ true
unfolding or_insert_error any
required_error key message [] = refl
required_error key message (e ∷ errors) =
    if_lem (λ (l : List (Text × Text)). has_items (error_texts l) ≡ true)
      (any (λ (x : Text × Text). text_eq x.0 key) (e ∷ errors)) refl refl

repaired-AreHonest : (s : Settings) (t : Turn) → AreHonest s (repaired s t)
unfolding repaired
repaired-AreHonest s t =
    if_lem (AreHonest s)
      (leb (max s.max_repeated_failures 1) (min (t.no_progress + 1) (2 ^ 32 - 1)))
      (λ d. blocked-IsHonest s _ _ d) tt

completed_run-AreHonest :
    (s : Settings) (run : TaskRun) (message : Text)
    → has_items run.unresolved_errors ≡ false
    → (is_code s.mode && (has_items run.changed_files && not run.final_diff_inspected)) ≡ false
    → AreHonest s (completed_run s run message)
unfolding completed_run
completed_run-AreHonest s run message h i d =
    finished-IsHonest s s.hook_error _ message refl refl (empty run.unresolved_errors h) i d
  where
    empty : (l : List Text) → has_items l ≡ false → l ≡ []
    empty [] p = refl
    empty (x ∷ xs) p = absurd (ground arith)

-- A run that still needs an inspection has an unresolved error after the requirements.
abbrev Owes : Settings → Turn → Type 0
Owes s t = (has_items t.work.run.unresolved_errors ≡ true) ⊎ (needs_inspection s t ≡ false)

with_error-Owes :
    (key message : Text) (t : Turn)
    → has_items (with_error key message t).work.run.unresolved_errors ≡ true
unfolding with_error
with_error-Owes key message t = required_error key _ t.work.errors

require_inspection-Owes : (s : Settings) (t : Turn) → Owes s (require_inspection s t)
unfolding require_inspection
require_inspection-Owes s t = elim (Bool-cases (needs_inspection s t)) [
  | inl e ↦ rw (require_inspection, e) (inl (with_error-Owes _ _ t))
  | inr e ↦ rw (require_inspection, e) (inr e)
]

require_validation-Owes : (s : Settings) (t : Turn) → Owes s t → Owes s (require_validation s t)
unfolding require_validation
require_validation-Owes s t h =
    if_lem (Owes s) (needs_inspection s t && not t.validated) (inl (with_error-Owes _ _ t)) h

pub judged-AreHonest : (s : Settings) (t : Turn) (message : Text) → AreHonest s (judged s t message)
unfolding judged needs_inspection
judged-AreHonest s t message =
    let required = require_validation s (require_inspection s t) in
    elim (Bool-cases (has_items required.work.run.unresolved_errors)) [
      | inl e ↦ rw (judged, e) (repaired-AreHonest s required)
      | inr e ↦
          rw (judged, e)
            (resolved required e (require_validation-Owes s _ (require_inspection-Owes s t)))
    ]
  where
    resolved :
        (r : Turn)
        → has_items r.work.run.unresolved_errors ≡ false
        → Owes s r
        → AreHonest s (completed_run s r.work.run message)
    resolved r e (inl p) = absurd (ground arith)
    resolved r e (inr p) = completed_run-AreHonest s r.work.run message e p
