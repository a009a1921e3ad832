-- ===== src/Agent/Finish/Patience.antt =====
-- A model that answers without calls of tools again and again makes the run end.
use cogito_ai.Prelude.{
  ℕ, suc, ◌+◌, ◌-◌, ◌^◌, ◌≤◌, ◌<◌, ◌≡◌, refl, sym, ◌∙◌, Bool, true, false, Option, none, some, List,
  [], ◌∷◌, max, if◌then◌else◌, inl, inr, Bool-cases, subst, arith,
}
use cogito_ai.Prelude.Text.{Text}
use cogito_ai.Prelude.Results.{Result, ok, err, ok_injective, err-ne-ok, Result-cases}
use cogito_ai.Session.Tasks.{ImplementationPlan, ExecutionPlan, TaskCompletionStatus, TaskRun}
use cogito_ai.Agent.Plans.{sync_current_milestone, advance_with, advance_execution_plan}
use cogito_ai.Agent.Steps.{extract_plan}
use cogito_ai.Agent.Limits.{AgentError}
use cogito_ai.Agent.Directives.{apply_unrelated_verification_dispositions}
use cogito_ai.Agent.Turn.{
  Settings, Turn, Check, Outcome, continued, is_plan, judged, updated, on_run,
}
use cogito_ai.Agent.Turn.Patience.{seen, count, GoesOn, Same, judged-GoesOn}
use cogito_ai.Agent.Finish.{
  take_steps, take_plan_if, take_plan, structured_if, with_structured_plan, dismissed, needs_diff,
  recorded_check, inspected, after_check, concluded, by_directive, final_response,
}

-- A run that takes a plan over has inspected its diff or not as before.
advanced-seen :
    (run : TaskRun) → (advance_execution_plan run).final_diff_inspected ≡ run.final_diff_inspected
unfolding advance_execution_plan advance_with sync_current_milestone
advanced-seen run = go run.execution_plan
  where
    go :
        (o : Option ExecutionPlan)
        → (advance_with run o).final_diff_inspected ≡ run.final_diff_inspected
    go none = refl
    go (some plan) = refl

take_plan-seen :
    (response : Text) (run : TaskRun)
    → (take_plan response run).final_diff_inspected ≡ run.final_diff_inspected
unfolding take_plan take_plan_if take_steps
take_plan-seen response run = go run.execution_plan
  where
    steps :
        (o : Option (List Text))
        → (take_steps response run o).final_diff_inspected ≡ run.final_diff_inspected
    steps none = refl
    steps (some []) = refl
    steps (some (s ∷ l)) = advanced-seen _

    go :
        (o : Option ExecutionPlan)
        → (take_plan_if response run o).final_diff_inspected ≡ run.final_diff_inspected
    go none = steps (extract_plan response)
    go (some plan) = refl

with_structured_plan-seen :
    (response : Text) (run : TaskRun)
    → (with_structured_plan response run).final_diff_inspected ≡ run.final_diff_inspected
unfolding with_structured_plan structured_if
with_structured_plan-seen response run = go run.structured_plan
  where
    go :
        (o : Option ImplementationPlan)
        → (structured_if response run o).final_diff_inspected ≡ run.final_diff_inspected
    go none = advanced-seen _
    go (some plan) = refl

dismissed-Same : (t : Turn) (dispositions : List (Text × Text)) → Same t (dismissed t dispositions)
unfolding dismissed apply_unrelated_verification_dispositions
dismissed-Same t dispositions = (refl, refl)

-- A check is made only if the diff was not inspected.
needs_diff-seen : (s : Settings) (t : Turn) → needs_diff s t.work.run ≡ true → seen t ≡ false
unfolding needs_diff
needs_diff-seen s t h = ground arith

module _ (debug : List Text → Text) (final_diff : Option Text) where
  inspected-progress :
      (limit : ℕ) (t : Turn) (check : Check) {u : Turn}
      → inspected debug final_diff limit t check ≡ ok u
      → u.no_progress ≡ t.no_progress
  unfolding inspected
  inspected-progress limit t check h =
      elim (Result-cases (recorded_check debug final_diff limit t.work check)) [
        | inl (e, p) ↦ absurd (err-ne-ok (rw (inspected, p) at h))
        | inr (w, p) ↦
            subst (λ (u : Turn). u.no_progress ≡ t.no_progress)
              (ok_injective (rw (inspected, p) at h)) refl
      ]

  -- After a check the model goes on if the diff was inspected; else the response is judged.
  after_check-GoesOn :
      (s : Settings) (n : ℕ) (message : Text) (r : Result AgentError Turn)
      → ((u : Turn) → r ≡ ok u → u.no_progress ≡ n)
      → GoesOn s n false (after_check debug final_diff s message r)
  unfolding after_check
  after_check-GoesOn s n message (err e) h = tt
  after_check-GoesOn s n message (ok u) h = go (seen u) refl
    where
      go :
          (b : Bool)
          → seen u ≡ b
          → GoesOn s n false (if b then continued (updated u) else judged s (updated u) message)
      go true e = inr (h u refl, refl, e)
      go false e =
          subst (λ (m : ℕ). GoesOn s m false (judged s (updated u) message)) (h u refl)
            (subst (λ (b : Bool). GoesOn s u.no_progress b (judged s (updated u) message)) e
              (judged-GoesOn s (updated u) message))

  concluded-GoesOn :
      (s : Settings) (t : Turn) (message : Text) (dispositions : List (Text × Text)) (check : Check)
      → GoesOn s t.no_progress (seen t) (concluded debug final_diff s t message dispositions check)
  unfolding concluded
  concluded-GoesOn s t message dispositions check =
      let after = dismissed t dispositions in
      let (n, b) = dismissed-Same t dispositions in
      let goal : Bool → Outcome → Type 0 = GoesOn s t.no_progress in
      elim (Bool-cases (needs_diff s after.work.run)) [
        | inl e ↦
            let unseen : seen t ≡ false = sym b ∙ needs_diff-seen s after e in
            rw (concluded, e)
              (subst
                (λ (x : Bool). goal x (
                  after_check debug final_diff s message
                    (inspected debug final_diff s.max_repeated_failures after check)))
                (sym unseen)
                (after_check-GoesOn s t.no_progress message _
                  (λ u h. inspected-progress s.max_repeated_failures after check h ∙ n)))
        | inr e ↦
            rw (concluded, e)
              (subst (λ (x : Bool). goal x (judged s after message)) b
                (subst (λ (m : ℕ). GoesOn s m (seen after) (judged s after message)) n
                  (judged-GoesOn s after message)))
      ]

  -- A response that does not end the run by a directive is concluded.
  planned-GoesOn :
      (s : Settings) (t : Turn) (response message : Text) (dispositions : List (Text × Text))
      (check : Check)
      → GoesOn s t.no_progress (seen t) (
          concluded debug final_diff s
            (if is_plan s.mode then updated (on_run (with_structured_plan response) t) else t)
            message
            dispositions
            check)
  planned-GoesOn s t response message dispositions check = elim (Bool-cases (is_plan s.mode)) [
    | inl e ↦
        let planned = updated (on_run (with_structured_plan response) t) in
        rw e (
          subst
            (λ (x : Bool).
              GoesOn s t.no_progress x
                (concluded debug final_diff s planned message dispositions check))
            (with_structured_plan-seen response t.work.run)
            (concluded-GoesOn s planned message dispositions check))
    | inr e ↦ rw e (concluded-GoesOn s t message dispositions check)
  ]

  by_directive-GoesOn :
      (s : Settings) (t : Turn) (response message : Text) (dispositions : List (Text × Text))
      (check : Check) (directive : Option TaskCompletionStatus)
      → GoesOn s t.no_progress
          (seen t)
          (by_directive debug final_diff s t response message dispositions check directive)
  unfolding by_directive
  by_directive-GoesOn s t response message dispositions check none =
      planned-GoesOn s t response message dispositions check
  by_directive-GoesOn s t response message dispositions check
        (some TaskCompletionStatus.user_input_required) =
      tt
  by_directive-GoesOn s t response message dispositions check (some TaskCompletionStatus.blocked) =
      tt
  by_directive-GoesOn s t response message dispositions check
        (some TaskCompletionStatus.in_progress) =
      planned-GoesOn s t response message dispositions check
  by_directive-GoesOn s t response message dispositions check (some TaskCompletionStatus.done) =
      planned-GoesOn s t response message dispositions check
  by_directive-GoesOn s t response message dispositions check
        (some TaskCompletionStatus.resource_limit_reached) =
      planned-GoesOn s t response message dispositions check
  by_directive-GoesOn s t response message dispositions check
        (some TaskCompletionStatus.cancelled) =
      planned-GoesOn s t response message dispositions check

  final_response-GoesOn :
      (s : Settings) (t : Turn) (response : Text) (check : Check)
      → GoesOn s t.no_progress (seen t) (final_response debug final_diff s t response check)
  unfolding final_response
  final_response-GoesOn s t response check =
      subst
        (λ (x : Bool).
          GoesOn s t.no_progress x (final_response debug final_diff s t response check))
        (take_plan-seen response t.work.run)
        (by_directive-GoesOn s (on_run (take_plan response) t) response _ _ check _)

  -- Responses in a row without calls of tools, each of which makes the run go on, whatever it says and
  -- the check of the diff finds.
  pub data Responses (s : Settings) (t : Turn) : ℕ → Turn → Type 0 where
    none_yet : Responses s t 0 t
    again :
        {n : ℕ} {u v : Turn} (response : Text) (check : Check)
        → Responses s t n u
        → final_response debug final_diff s u response check ≡ continued v
        → Responses s t (suc n) v

  -- Each response is counted but the one that inspects the diff.
  abbrev Counted : Settings → ℕ → Turn → Type 0
  Counted s n u =
      (n ≤ u.no_progress + count (seen u)) × (u.no_progress < max s.max_repeated_failures 1)

  step-Counted :
      (s : Settings) (n : ℕ) (u v : Turn)
      → s.max_repeated_failures < 2 ^ 32 - 1
      → Counted s n u
      → GoesOn s u.no_progress (seen u) (continued v)
      → Counted s (suc n) v
  step-Counted s n u v l (c, b) (inl (p, q, r)) = (omega arith, q)
  step-Counted s n u v l (c, b) (inr (p, q, r)) =
      let before : n ≤ u.no_progress + 0 = rw q at c in (rw r (omega arith), omega arith)

  counted :
      {s : Settings} {t u : Turn} {n : ℕ}
      → Responses s t n u
      → t.no_progress ≡ 0
      → s.max_repeated_failures < 2 ^ 32 - 1
      → Counted s n u
  counted none_yet h l = (omega arith, omega arith)
  counted {s} {t} (again {n} {u} {v} response check c p) h l =
      step-Counted s n u v l (counted c h l)
        (subst (GoesOn s u.no_progress (seen u)) p (final_response-GoesOn s u response check))

  -- From a turn with progress on, and with a limit of repeated failures below 2^32 - 1, at most as many
  -- responses in a row without calls of tools as that limit, or one if it is zero, make the run go on,
  -- whatever they say and the checks of the diff find.
  pub Responses-le :
      (s : Settings) (t u : Turn) (n : ℕ)
      → Responses s t n u
      → t.no_progress ≡ 0
      → s.max_repeated_failures < 2 ^ 32 - 1
      → n ≤ max s.max_repeated_failures 1
  Responses-le s t u n c h l =
      let (c', b) = counted c h l in
      elim (Bool-cases (seen u)) [
        | inl e ↦ omega (arith, rw e at c', b)
        | inr e ↦ omega (arith, rw e at c', b)
      ]
