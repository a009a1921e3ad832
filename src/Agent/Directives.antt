-- ===== src/Agent/Directives.antt =====
-- What the model says about the end of its work, and the failures that it may dismiss, of
-- crates/harness-agent/src/lib.rs. The map of unresolved errors is a list of keys and errors; the
-- order of a `HashMap` is arbitrary, here it is the list's.
pub mod Laws
use cogito_ai.Prelude.{
  ℕ, Bool, true, false, not, ◌&&◌, ◌||◌, Option, none, some, List, [], ◌∷◌, ◌++◌, map, filter,
  reverse, any, drop, length, if◌then◌else◌,
}
use cogito_ai.Prelude.Text.{Text, text, text_eq, starts_with, trim, lines, join}
use cogito_ai.Session.Compact.{is_empty}
use cogito_ai.Session.Tasks.{
  TaskCompletionStatus, user_input_required, blocked, TaskVerificationResult, TaskRun,
}
use cogito_ai.Agent.Bounded.{bounded_summary}
use cogito_ai.Agent.Plans.{change_first}
use cogito_ai.Agent.Lines.{split_once}

-- `str::strip_prefix`
unfoldable pub strip_text : Text → Text → Option Text
strip_text s prefix = if starts_with s prefix then some (drop (length prefix) s) else none

completion_directive : Text → Option Text → Option Text → Option TaskCompletionStatus × Text
completion_directive value (some message) other = (some user_input_required, trim message)
completion_directive value none (some message) = (some TaskCompletionStatus.blocked, trim message)
completion_directive value none none = (none, value)

unfoldable pub parse_completion_directive : Text → Option TaskCompletionStatus × Text
unfolding completion_directive
parse_completion_directive value =
    completion_directive value (strip_text (trim value) (text "[USER_INPUT_REQUIRED]"))
      (strip_text (trim value) (text "[BLOCKED]"))

-- The command and the reason of a line, if it dismisses a failure.
filled_pair : Option (Text × Text) → Option (Text × Text)
filled_pair none = none
filled_pair (some (command, reason)) =
    if is_empty (trim command) || is_empty (trim reason)
    then none
    else some (trim command, trim reason)

disposition_in : Option Text → Option (Text × Text)
unfolding filled_pair
disposition_in none = none
disposition_in (some value) = filled_pair (split_once (text " :: ") (trim value))

unfoldable pub disposition_of : Text → Option (Text × Text)
unfolding disposition_in strip_text
disposition_of line = disposition_in (strip_text (trim line) (text "[UNRELATED_VERIFICATION]"))

abbrev sort_line :
    Text → Option (Text × Text) → List Text × List (Text × Text) → List Text × List (Text × Text)
sort_line line none (message, dispositions) = (line ∷ message, dispositions)
sort_line line (some d) (message, dispositions) = (message, d ∷ dispositions)

unfoldable pub sort_lines : List Text → List Text × List (Text × Text)
sort_lines [] = ([], [])
sort_lines (line ∷ rest) = sort_line line (disposition_of line) (sort_lines rest)

unfoldable pub parse_unrelated_verification_directives : Text → Text × List (Text × Text)
parse_unrelated_verification_directives value =
    let (message, dispositions) = sort_lines (lines value) in
    (trim (join (text "\n") message), dispositions)

-- Whether the key of a failure is dismissed by a command: the key is the command behind
-- `verification:`, or behind a category too, but not the category of the final diff.
candidate_matches : Text → Option (Text × Text) → Bool
candidate_matches command none = false
candidate_matches command (some (category, candidate)) =
    not (text_eq category (text "GitDiff")) && text_eq candidate command

suffix_matches : Text → Option Text → Bool
unfolding candidate_matches
suffix_matches command none = false
suffix_matches command (some suffix) =
    text_eq suffix command || candidate_matches command (split_once (text ":") suffix)

unfoldable pub is_dismissed : Text → Text → Bool
unfolding suffix_matches strip_text
is_dismissed command key = suffix_matches command (strip_text key (text "verification:"))

-- The state of the loop over the dispositions: the results and the errors, and whether one applied.
pub record Dismissal : Type 0 where
  pub results : List TaskVerificationResult
  pub errors : List (Text × Text)
  pub applied : Bool

-- `iter_mut().rev().find(test)` and a change.
change_last :
    (TaskVerificationResult → Bool)
    → (TaskVerificationResult → TaskVerificationResult)
    → List TaskVerificationResult
    → List TaskVerificationResult
change_last test change results = reverse (change_first test change (reverse results))

mark_unrelated : Text → TaskVerificationResult → TaskVerificationResult
mark_unrelated reason result = record result {
  failure_origin = some (text "unrelated");
  summary =
      bounded_summary (result.summary ++ (text " | agent classified as unrelated: " ++ reason));
}

unfoldable pub dismiss : Dismissal → Text × Text → Dismissal
unfolding change_last mark_unrelated
dismiss s (command, reason) =
    if any (λ e. is_dismissed command e.0) s.errors
    then record {
      results =
          change_last (λ result. text_eq result.command command && not result.passed)
            (mark_unrelated reason) s.results;
      errors = filter (λ e. not (is_dismissed command e.0)) s.errors;
      applied = true;
    }
    else s

unfoldable pub dismiss_all : Dismissal → List (Text × Text) → Dismissal
dismiss_all s [] = s
dismiss_all s (d ∷ rest) = dismiss_all (dismiss s d) rest

unfoldable pub remove_error : Text → List (Text × Text) → List (Text × Text)
remove_error key errors = filter (λ e. not (text_eq e.0 key)) errors

-- The run, the errors, and whether there was a validation since the last edit.
abbrev pub Progressed : Type 0
Progressed = TaskRun × List (Text × Text) × Bool

dismissed_errors : Dismissal → List (Text × Text)
dismissed_errors s =
    if s.applied then remove_error (text "verification:after_last_edit") s.errors else s.errors

unfoldable pub apply_unrelated_verification_dispositions :
    TaskRun → List (Text × Text) → List (Text × Text) → Bool → Progressed
unfolding dismissed_errors
apply_unrelated_verification_dispositions run errors dispositions validated =
    let start : Dismissal = record {
      results = run.verification_results;
      errors = errors;
      applied = false;
    } in
    let s = dismiss_all start dispositions in
    let left = dismissed_errors s in
    (
      record run {
        verification_results = s.results;
        unresolved_errors = map (λ (e : Text × Text). e.1) left;
      },
      left,
      validated || s.applied,
    )
