-- ===== src/Agent/Turn/Patience.antt =====
-- What a turn has of the one before if a judged response makes the run go on.
use cogito_ai.Prelude.{
  ℕ, ◌+◌, ◌-◌, ◌^◌, ◌≤◌, ◌<◌, ◌≡◌, refl, ◌⊎◌, Bool, true, false, min, max, leb, inl, inr,
  Bool-cases, if_lem, subst, arith,
}
use cogito_ai.Prelude.Text.{Text}
use cogito_ai.Agent.Turn.{
  Settings, Turn, Outcome, continued, ended, failed, has_items, needs_inspection, with_error,
  require_inspection, require_validation, repaired, completed_run, judged,
}

-- Whether the final diff was inspected.
abbrev pub seen : Turn → Bool
seen t = t.work.run.final_diff_inspected

-- One for a diff that was inspected.
abbrev pub count : Bool → ℕ
count true = 1
count false = 0

-- What a turn that goes on has of the one before: one more response without progress, below the limit,
-- or the first inspection of the diff.
abbrev pub GoesOn : Settings → ℕ → Bool → Outcome → Type 0
GoesOn s n inspected_before (continued v) =
    ((v.no_progress ≡ min (n + 1) (2 ^ 32 - 1))
      × (v.no_progress < max s.max_repeated_failures 1)
      × (count inspected_before ≤ count (seen v)))
    ⊎ ((v.no_progress ≡ n) × (inspected_before ≡ false) × (seen v ≡ true))
GoesOn s n inspected_before (ended e) = Unit
GoesOn s n inspected_before (failed e) = Unit

-- The response is judged: the diff is as before.
repaired-GoesOn : (s : Settings) (t : Turn) → GoesOn s t.no_progress (seen t) (repaired s t)
unfolding repaired
repaired-GoesOn s t =
    let n = min (t.no_progress + 1) (2 ^ 32 - 1) in
    elim (Bool-cases (leb (max s.max_repeated_failures 1) n)) [
      | inl e ↦ rw (repaired, e) tt
      | inr e ↦ rw (repaired, e) (inl (refl, ground arith, omega arith))
    ]

-- What the run owes does not change the count or the diff.
abbrev pub Same : Turn → Turn → Type 0
Same t u = (u.no_progress ≡ t.no_progress) × (seen u ≡ seen t)

required-Same : (s : Settings) (t : Turn) → Same t (require_validation s (require_inspection s t))
unfolding require_validation require_inspection with_error
required-Same s t =
    let first = if_lem (Same t) (needs_inspection s t) (refl, refl) (refl, refl) in
    if_lem (Same t) _ first first

pub judged-GoesOn :
    (s : Settings) (t : Turn) (message : Text)
    → GoesOn s t.no_progress (seen t) (judged s t message)
unfolding judged completed_run
judged-GoesOn s t message =
    let required = require_validation s (require_inspection s t) in
    let (n, b) = required-Same s t in
    if_lem (GoesOn s t.no_progress (seen t)) (has_items required.work.run.unresolved_errors)
      (subst (λ (b : Bool). GoesOn s t.no_progress b (repaired s required)) b
        (subst (λ (n : ℕ). GoesOn s n (seen required) (repaired s required)) n
          (repaired-GoesOn s required)))
      tt
