-- ===== src/Agent/Directives/Laws.antt =====
-- Which failures a response of the model can dismiss.
use cogito_ai.Prelude.{
  ◌≡◌, refl, ap, ◌∙◌, sym, Bool, true, false, not, ◌&&◌, ◌||◌, some, List, [], ◌∷◌, ◌++◌, map,
  filter, any, drop, length, inl, inr, Bool-cases, if◌then◌else◌, arith,
}
use cogito_ai.Prelude.Text.{Text, text, text_eq, starts_with}
use cogito_ai.Prelude.Text.Laws.{starts_with-append, text_eq_refl}
use cogito_ai.Session.Tasks.{TaskRun}
use cogito_ai.Agent.Lines.{split_once, put_first}
use cogito_ai.Agent.Directives.{
  strip_text, is_dismissed, Dismissal, dismissed_errors, dismiss, dismiss_all, remove_error,
  Progressed, apply_unrelated_verification_dispositions,
}

module _ {A : Type 0} where
  filter_all : (p : A → Bool) (xs : List A) → any p xs ≡ false → filter (λ x. not (p x)) xs ≡ xs
  unfolding filter any
  filter_all p [] h = refl
  filter_all p (x ∷ xs) h = ground (arith, filter_all p xs)

  filter-filter :
      (p q r : A → Bool) (xs : List A)
      → ((x : A) → (q x && p x) ≡ r x)
      → filter p (filter q xs) ≡ filter r xs
  unfolding filter
  filter-filter p q r [] h = refl
  filter-filter p q r (x ∷ xs) h = ground (arith, filter-filter p q r xs h, h x)

  any-filter :
      (p q r : A → Bool) (xs : List A)
      → ((x : A) → (p x || q x) ≡ r x)
      → (any p xs || any q (filter (λ x. not (p x)) xs)) ≡ any r xs
  unfolding filter any
  any-filter p q r [] h = refl
  any-filter p q r (x ∷ xs) h = ground (arith, any-filter p q r xs h, h x)

  any_none : (xs : List A) → any (λ x. false) xs ≡ false
  unfolding any
  any_none [] = refl
  any_none (x ∷ xs) = any_none xs

  drop-append : (xs ys : List A) → drop (length xs) (xs ++ ys) ≡ ys
  drop-append [] ys = refl
  drop-append (x ∷ xs) ys = drop-append xs ys

-- Whether one of the dispositions names the failure.
abbrev pub is_named : List (Text × Text) → Text × Text → Bool
is_named dispositions e = any (λ (d : Text × Text). is_dismissed d.0 e.0) dispositions

dismiss-errors :
    (s : Dismissal) (command reason : Text)
    → (dismiss s (command, reason)).errors ≡ filter (λ e. not (is_dismissed command e.0)) s.errors
unfolding dismiss
dismiss-errors s command reason =
    elim (Bool-cases (any (λ (e : Text × Text). is_dismissed command e.0) s.errors)) [
      | inl e ↦ rw (dismiss, e) refl
      | inr e ↦
          rw (dismiss, e)
            (sym (filter_all (λ (x : Text × Text). is_dismissed command x.0) s.errors e))
    ]

dismiss_all-errors :
    (dispositions : List (Text × Text)) (s : Dismissal)
    → (dismiss_all s dispositions).errors ≡ filter (λ e. not (is_named dispositions e)) s.errors
unfolding dismiss_all any filter
dismiss_all-errors [] s = sym (keep s.errors)
  where
    keep : (l : List (Text × Text)) → filter (λ e. true) l ≡ l
    keep [] = refl
    keep (x ∷ xs) = ap (λ (l : List (Text × Text)). x ∷ l) (keep xs)
dismiss_all-errors ((command, reason) ∷ rest) s =
    dismiss_all-errors rest (dismiss s (command, reason))
    ∙ ap (λ (l : List (Text × Text)). filter (λ e. not (is_named rest e)) l)
        (dismiss-errors s command reason)
    ∙ filter-filter (λ e. not (is_named rest e)) (λ e. not (is_dismissed command e.0))
        (λ e. not (is_named ((command, reason) ∷ rest) e)) s.errors (λ e. ground arith)

dismiss-applied :
    (s : Dismissal) (command reason : Text)
    → (dismiss s (command, reason)).applied
      ≡ (s.applied || any (λ e. is_dismissed command e.0) s.errors)
unfolding dismiss
dismiss-applied s command reason =
    elim (Bool-cases (any (λ (e : Text × Text). is_dismissed command e.0) s.errors)) [
      | inl e ↦ rw (dismiss, e) (ground arith)
      | inr e ↦ rw (dismiss, e) (ground arith)
    ]

or_assoc : (a b c : Bool) → ((a || b) || c) ≡ (a || (b || c))
or_assoc a b c = ground arith

dismiss_all-applied :
    (dispositions : List (Text × Text)) (s : Dismissal)
    → (dismiss_all s dispositions).applied ≡ (s.applied || any (is_named dispositions) s.errors)
unfolding dismiss_all any
dismiss_all-applied [] s = rw (any_none s.errors) (ground arith)
dismiss_all-applied ((command, reason) ∷ rest) s =
    let p : Text × Text → Bool = λ e. is_dismissed command e.0 in
    dismiss_all-applied rest (dismiss s (command, reason))
    ∙ rw (dismiss-applied s command reason, dismiss-errors s command reason)
        (or_assoc s.applied (any p s.errors)
            (any (is_named rest) (filter (λ e. not (p e)) s.errors))
          ∙ ap (λ (b : Bool). s.applied || b)
              (any-filter p (is_named rest) (is_named ((command, reason) ∷ rest)) s.errors
                (λ e. refl)))

-- What is left of the errors, with or without the error of a missing validation.
abbrev pub left_errors : Bool → List (Text × Text) → List (Text × Text) → List (Text × Text)
left_errors applied dispositions errors =
    let kept = filter (λ e. not (is_named dispositions e)) errors in
    if applied then remove_error (text "verification:after_last_edit") kept else kept

-- A run, its errors and whether it was validated, after the dispositions.
pub record IsDismissed (errors dispositions : List (Text × Text)) (validated : Bool)
    (result : Progressed) : Type 0 where
  pub removed : result.1 ≡ left_errors (any (is_named dispositions) errors) dispositions errors
  pub listed : result.0.unresolved_errors ≡ map (λ (e : Text × Text). e.1) result.1
  pub counted : result.2 ≡ (validated || any (is_named dispositions) errors)

-- Of the unresolved errors those that a disposition names are removed and all others stay, in their
-- order; if one was removed, the missing validation is removed too and a validation counts as made.
-- The run's list holds the errors that are left.
pub apply_unrelated_verification_dispositions-IsDismissed :
    (run : TaskRun) (errors dispositions : List (Text × Text)) (validated : Bool)
    → IsDismissed errors dispositions validated
        (apply_unrelated_verification_dispositions run errors dispositions validated)
unfolding apply_unrelated_verification_dispositions dismissed_errors
apply_unrelated_verification_dispositions-IsDismissed run errors dispositions validated =
    let start : Dismissal = record {
      results = run.verification_results;
      errors = errors;
      applied = false;
    } in
    let applied = dismiss_all-applied dispositions start in
    let left = dismiss_all-errors dispositions start in
    record { removed = rw (applied, left) refl; listed = refl; counted = rw applied refl }

split-git_diff :
    (diff : Text) → split_once (text ":") (text "GitDiff:" ++ diff) ≡ some (text "GitDiff", diff)
unfolding split_once put_first starts_with text
split-git_diff diff = refl

-- A failure of the final diff is dismissed by no command but the one that names its category too.
pub git_diff-kept :
    (command diff : Text)
    → text_eq (text "GitDiff:" ++ diff) command ≡ false
    → is_dismissed command (text "verification:" ++ (text "GitDiff:" ++ diff)) ≡ false
unfolding is_dismissed strip_text
git_diff-kept command diff h =
    rw
      (
        starts_with-append (text "verification:") (text "GitDiff:" ++ diff),
        drop-append (text "verification:") (text "GitDiff:" ++ diff),
      )
      (rw (h, split-git_diff diff, text_eq_refl (text "GitDiff")) refl)
