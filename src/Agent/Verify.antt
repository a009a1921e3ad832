-- ===== src/Agent/Verify.antt =====
-- What a run records of the reports of a verification: the part of `run_verification_if_needed` in
-- crates/harness-agent/src/lib.rs that follows the verifier's answer.
use cogito_ai.Prelude.{
  ◌*◌, max, ℕ, Bool, true, false, ◌&&◌, ◌||◌, Option, none, some, List, [], ◌∷◌, ◌++◌, leb,
  if◌then◌else◌,
}
use cogito_ai.Prelude.Text.{Text, text, join}
use cogito_ai.Session.Tasks.{TaskVerificationResult}
use cogito_ai.Session.Events.{EventPayload, verification_result}
use cogito_ai.Context.Input.{bool_text}
use cogito_ai.Agent.Bounded.{bounded_summary, bounded_context, push_bounded}
use cogito_ai.Agent.Reports.{
  category_debug, is_git_diff, VerificationReport, normalize_failure, insert_error, count_failure,
  Work, with_errors, relevant_of, files_of, origin_of, first_filled, code_debug, code_or_minus,
  attribution, notice, observation, failure_key, passed_errors,
}

-- `{:?}` of a list of strings is the parameter `debug`; `task_final_diff`, which runs `git diff`, is
-- the parameter `final_diff`.
module _ (debug : List Text → Text) (final_diff : Option Text) where
  unfoldable pub shown_diff : VerificationReport → Option Text
  shown_diff r = if is_git_diff r.category && r.passed then final_diff else none

  unfoldable pub context_output : VerificationReport → Text
  context_output r =
      bounded_context (first_filled (relevant_of r.failure) (shown_diff r) r.output) (8 * 1024)

  result_of : VerificationReport → TaskVerificationResult
  result_of r = record {
    command = r.command;
    category = category_debug r.category;
    passed = r.passed;
    exit_code = r.exit_code;
    summary = bounded_summary (join (text "; ") r.diagnostics ++ (text " " ++ context_output r));
    affected_files = files_of r.failure;
    failure_origin = origin_of r.failure;
    relevant_output = context_output r;
  }

  summary_of : VerificationReport → Text
  summary_of r =
      bounded_context
        (text "verification category="
          ++ (category_debug r.category
              ++ (text " command="
                  ++ (r.command
                      ++ (text " passed="
                          ++ (bool_text r.passed
                              ++ (text " exit_code="
                                  ++ (code_debug r.exit_code
                                      ++ (text " affected_files="
                                          ++ (debug (files_of r.failure)
                                              ++ (attribution (origin_of r.failure)
                                                  ++ (notice (context_output r)
                                                      ++ (text " diagnostics="
                                                          ++ (debug r.diagnostics
                                                            ++ (text "\n"
                                                            ++ context_output r)))))))))))))))
        (16 * 1024)

  event_of : VerificationReport → EventPayload
  event_of r =
      verification_result r.command (category_debug r.category) r.duration_ms r.passed r.exit_code
        (context_output r) r.diagnostics (files_of r.failure) (origin_of r.failure)
        (context_output r)

  -- What every report leaves, passed or not.
  unfoldable pub noted : Work → VerificationReport → Work
  unfolding summary_of result_of event_of
  noted w r = record w {
    run = record (w.run) {
      commands_executed = push_bounded w.run.commands_executed (bounded_summary r.command) 200;
      final_diff_inspected = w.run.final_diff_inspected || (is_git_diff r.category && r.passed);
      verification_results = push_bounded w.run.verification_results (result_of r) 200;
    };
    observations = w.observations ++ observation (summary_of r) ∷ [];
    events = w.events ++ event_of r ∷ [];
  }

  signature_of : VerificationReport → Text
  signature_of r =
      failure_key r
      ++ (text ":"
          ++ (code_or_minus r.exit_code ++ (text ":" ++ normalize_failure (context_output r))))

  failed_error : VerificationReport → Text
  failed_error r =
      failure_key r
      ++ (text " :: "
          ++ bounded_summary (join (text "; ") r.diagnostics ++ (text " " ++ context_output r)))

  -- A report, and whether its failure was repeated too often.
  unfoldable pub record_report : ℕ → Work → VerificationReport → Work × Bool
  unfolding signature_of failed_error passed_errors
  record_report limit w r =
      let after = noted w r in
      if r.passed
      then (record after { errors = passed_errors r w.errors }, false)
      else let (count, counts) = count_failure (signature_of r) w.repeated in
        (
          record after {
            errors = insert_error (failure_key r) (failed_error r) w.errors;
            repeated = counts;
          },
          leb (max limit 1) count,
        )

  unfoldable pub record_reports : ℕ → Work → List VerificationReport → Work × Bool
  record_reports limit w [] = (with_errors w, false)
  record_reports limit w (r ∷ reports) =
      let (next, stop) = record_report limit w r in
      let later = record_reports limit next reports in
      if stop then (with_errors next, true) else later

-- A verifier that fails itself, with a message.
runner_key : Text
runner_key = text "verification:runner"

runner_result : Text → TaskVerificationResult
runner_result message = record {
  command = text "verification";
  category = text "runner";
  passed = false;
  exit_code = none;
  summary = bounded_summary message;
  affected_files = [];
  failure_origin = some (text "unknown");
  relevant_output = bounded_context message (8 * 1024);
}

unfoldable pub record_runner_error : ℕ → Work → Text → Work × Bool
unfolding runner_key runner_result
record_runner_error limit w message =
    let (count, counts) =
      count_failure (runner_key ++ (text ":" ++ normalize_failure message)) w.repeated in
    (
      with_errors (record w {
        run = record (w.run) {
          verification_results =
              push_bounded w.run.verification_results (runner_result message) 200;
        };
        errors =
            insert_error runner_key (runner_key ++ (text " :: " ++ bounded_summary message))
              w.errors;
        repeated = counts;
        observations = w.observations ++ observation message ∷ [];
        events =
            w.events
            ++ verification_result (text "verification") (text "runner") 0 false none message
                (message ∷ []) [] (some (text "unknown")) (bounded_context message (8 * 1024))
              ∷ [];
      }),
      leb (max limit 1) count,
    )
