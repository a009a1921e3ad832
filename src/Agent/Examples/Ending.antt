-- ===== src/Agent/Examples/Ending.antt =====
-- Responses without calls of tools: a run that is done, one that owes an inspection, and one whose
-- list of results is full.
use cogito_ai.Prelude.{
  ℕ, zero, suc, ◌≤◌, ◌≡◌, refl, max, Bool, true, false, Option, none, some, List, [], ◌∷◌, any,
  filter, find, arith,
}
use cogito_ai.Prelude.Text.{
  Text, text, text_eq, starts_with, trim, trim_start_matches, trim_end_matches, to_ascii_lowercase,
  lines, join, contains,
}
use cogito_ai.Session.Compact.{is_empty}
use cogito_ai.Session.Tasks.{
  code, TaskVerificationResult, TaskCompletionStatus, TaskRun, new_task_run, new_goal, default_goal,
  default_metrics,
}
use cogito_ai.Agent.Bounded.{push_bounded}
use cogito_ai.Agent.Lines.{put_first, split_once, eq_ignore_ascii_case}
use cogito_ai.Agent.Plans.{
  sync_current_milestone, current_title, finish_plan, finish_with, finish_plan_state,
}
use cogito_ai.Agent.Steps.{plan_remainder, plan_from, extract_plan}
use cogito_ai.Agent.Directives.{
  strip_text, parse_completion_directive, disposition_of, sort_lines,
  parse_unrelated_verification_directives, dismiss_all, apply_unrelated_verification_dispositions,
}
use cogito_ai.Agent.Limits.{Ending, finish_task_run, finish_blocked_task, ending}
use cogito_ai.Agent.Reports.{or_insert_error}
use cogito_ai.Agent.Turn.{
  Settings, Turn, skipped, Outcome, continued, ended, inspection_key, validation_key,
  needs_inspection, require_inspection, require_validation, repaired, completed_run, judged,
}
use cogito_ai.Agent.Finish.Patience.{none_yet, again, Responses-le}
use cogito_ai.Agent.Finish.{take_plan, dismissed, found_diff, needs_diff, concluded, final_response}
use cogito_ai.Agent.Finish.Laws.{final_response-IsComplete}
use cogito_ai.Agent.Turn.Honesty.{IsComplete}

opened : Unit {0}
unfolding text text_eq starts_with trim trim_start_matches trim_end_matches to_ascii_lowercase lines
    join contains any filter find is_empty new_task_run new_goal default_goal default_metrics
    push_bounded put_first split_once eq_ignore_ascii_case sync_current_milestone current_title
    finish_plan finish_with finish_plan_state plan_remainder plan_from extract_plan strip_text
    parse_completion_directive disposition_of sort_lines parse_unrelated_verification_directives
    dismiss_all apply_unrelated_verification_dispositions finish_task_run finish_blocked_task ending
    or_insert_error inspection_key validation_key needs_inspection require_inspection
    require_validation repaired completed_run judged take_plan dismissed found_diff needs_diff
    concluded final_response
opened = tt

abbrev settings : Settings
settings = record {
  mode = code;
  git_available = false;
  has_verifier = false;
  max_repeated_failures = 3;
  hook_error = none;
}

abbrev turn : TaskRun → Turn
turn run = record {
  work = record { run = run; errors = []; repeated = []; observations = []; events = [] };
  validated = true;
  no_progress = 0;
}

abbrev clean : Turn
clean = turn (new_task_run (text "Tidy"))

abbrev edited : Turn
edited = turn (record (new_task_run (text "Tidy")) { changed_files = text "a.rs" ∷ [] })

abbrev respond : Turn → Text → Outcome
respond t response = final_response (λ l. join (text ", ") l) none settings t response skipped

abbrev status_of : Outcome → Option TaskCompletionStatus
status_of (continued t) = none
status_of (ended e) = some e.run.completion_status
status_of (Outcome.failed e) = none

done_at_once : status_of (respond clean (text "Done.")) ≡ some TaskCompletionStatus.done
unfolding opened
done_at_once = refl

asks_the_user :
    status_of (respond clean (text "[USER_INPUT_REQUIRED] Which file?"))
    ≡ some TaskCompletionStatus.user_input_required
unfolding opened
asks_the_user = refl

-- Without an inspection of its diff a run that changed a file goes on.
owes_inspection : status_of (respond edited (text "Done.")) ≡ none
unfolding opened
owes_inspection = refl

abbrev passed_diff : TaskVerificationResult
passed_diff = record {
  command = text "git diff";
  category = text "GitDiff";
  passed = true;
  exit_code = some (cogito_ai.Prelude.pos 0);
  summary = [];
  affected_files = [];
  failure_origin = none;
  relevant_output = [];
}

copies : ℕ → List TaskVerificationResult
copies zero = []
copies (suc n) = passed_diff ∷ copies n

-- The result of the check is found behind the results there were, unless the list was full.
diff_found : found_diff 3 (push_bounded (copies 3) passed_diff 200) ≡ true
unfolding opened copies
diff_found = refl

diff_missed : found_diff 200 (push_bounded (copies 200) passed_diff 200) ≡ false
unfolding opened copies
diff_missed = refl

abbrev ending_of : Outcome → Ending
ending_of (ended e) = e
ending_of (continued t) = ending t.work.run []
ending_of (Outcome.failed e) = ending (new_task_run []) []

final_response-IsComplete_example :
    IsComplete settings (ending_of (respond clean (text "Done."))).run
unfolding opened
final_response-IsComplete_example =
    final_response-IsComplete (λ l. join (text ", ") l) none settings clean (text "Done.") skipped
      (ending_of (respond clean (text "Done."))) refl refl

abbrev turn_of : Outcome → Turn
turn_of (continued t) = t
turn_of (ended e) = turn e.run
turn_of (Outcome.failed e) = clean

Responses-le_example : 1 ≤ max settings.max_repeated_failures 1
unfolding opened
Responses-le_example =
    Responses-le (λ l. join (text ", ") l) none settings edited
      (turn_of (respond edited (text "Done."))) 1 (again (text "Done.") skipped none_yet refl) refl
      (omega arith)
