-- ===== src/Agent/Finish.antt =====
-- What the agent does with a response that calls no tools: it ends the run, or asks the model to go
-- on, in `AgentRunner::run_task` of crates/harness-agent/src/lib.rs. The events on the way and the
-- updates of the task state are those of `Work`; what a check of the final diff finds is an argument.
pub mod Laws
pub mod Patience
use cogito_ai.Prelude.{
  ℕ, ◌+◌, ◌-◌, ◌^◌, min, max, Bool, true, false, not, ◌&&◌, ◌||◌, Option, none, some, List, [], ◌∷◌,
  ◌++◌, map, any, drop, length, leb, if◌then◌else◌,
}
use cogito_ai.Prelude.Text.{Text, text, text_eq, join}
use cogito_ai.Prelude.Results.{Result, ok, err}
use cogito_ai.Session.Compact.{is_empty}
use cogito_ai.Session.Tasks.{
  TaskMode, plan, code, finish, repair, ImplementationPlan, ExecutionPlan, TaskVerificationResult,
  TaskCompletionStatus, TaskRun,
}
use cogito_ai.Session.Events.{assistant_message, task_run_updated}
use cogito_ai.Context.Input.{ToolContextResult}
use cogito_ai.Agent.Plans.{advance_execution_plan, execution_plan_from_implementation}
use cogito_ai.Agent.Steps.{extract_plan, parse_implementation_plan}
use cogito_ai.Agent.Directives.{
  parse_completion_directive, parse_unrelated_verification_directives,
  apply_unrelated_verification_dispositions,
}
use cogito_ai.Agent.Limits.{AgentError, finish_task_run, finish_blocked_task}
use cogito_ai.Agent.Reports.{Work}
use cogito_ai.Agent.Verify.{record_reports, record_runner_error}
use cogito_ai.Agent.Turn.{
  Settings, Turn, Check, skipped, refused, answered, Outcome, continued, ended, failed, on_run,
  updated, is_code, is_plan, has_items, say, judged,
}

-- A plan in the response is taken over if there is none.
take_steps : Text → TaskRun → Option (List Text) → TaskRun
take_steps response run none = run
take_steps response run (some []) = run
take_steps response run (some (s ∷ steps)) =
    let parsed = parse_implementation_plan run.original_goal response run.relevant_files in
    advance_execution_plan (record run {
      current_plan = s ∷ steps;
      execution_plan = some (
          execution_plan_from_implementation (record parsed { implementation_steps = s ∷ steps })
            run.acceptance_criteria);
    })

take_plan_if : Text → TaskRun → Option ExecutionPlan → TaskRun
unfolding take_steps
take_plan_if response run none = take_steps response run (extract_plan response)
take_plan_if response run (some existing) = run

unfoldable pub take_plan : Text → TaskRun → TaskRun
unfolding take_plan_if
take_plan response run = take_plan_if response run run.execution_plan

-- In the mode PLAN the response is the plan.
structured_if : Text → TaskRun → Option ImplementationPlan → TaskRun
structured_if response run (some existing) = run
structured_if response run none =
    let parsed = parse_implementation_plan run.original_goal response run.relevant_files in
    record (advance_execution_plan (record run {
      current_plan = parsed.implementation_steps;
      execution_plan = some (execution_plan_from_implementation parsed run.acceptance_criteria);
    })) { structured_plan = some parsed }

unfoldable pub with_structured_plan : Text → TaskRun → TaskRun
unfolding structured_if
with_structured_plan response run = record (structured_if response run run.structured_plan) {
  current_phase = finish;
}

unfoldable pub dismissed : Turn → List (Text × Text) → Turn
dismissed t dispositions =
    let (run, errors, validated) =
      apply_unrelated_verification_dispositions t.work.run t.work.errors dispositions t.validated in
    record t { work = record (t.work) { run = run; errors = errors }; validated = validated }

-- The check of the final diff, which looks at the results behind the number there were before.
unfoldable pub found_diff : ℕ → List TaskVerificationResult → Bool
found_diff before results =
    any (λ (r : TaskVerificationResult). text_eq r.category (text "GitDiff") && r.passed)
      (drop before results)

unfoldable pub needs_diff : Settings → TaskRun → Bool
needs_diff s run =
    is_code s.mode
    && (s.git_available
        && (s.has_verifier && (has_items run.changed_files && not run.final_diff_inspected)))

module _ (debug : List Text → Text) (final_diff : Option Text) where
  recorded_check : ℕ → Work → Check → Result AgentError Work
  recorded_check limit w skipped = ok w
  recorded_check limit w (refused e) = err e
  recorded_check limit w (answered (err message)) = ok (record_runner_error limit w message).0
  recorded_check limit w (answered (ok reports)) =
      ok (record_reports debug final_diff limit w reports).0

  unfoldable pub inspected : ℕ → Turn → Check → Result AgentError Turn
  unfolding recorded_check
  inspected limit t check = elim (recorded_check limit t.work check) [
    | err e ↦ err e
    | ok w ↦ ok (
        on_run
          (λ run. record run {
            final_diff_inspected =
                found_diff (length t.work.run.verification_results) run.verification_results;
          })
          (record t { work = w }))
  ]

blocked_reason : Text → Text
blocked_reason message =
    if is_empty message
    then text "The task cannot be completed with the available information."
    else message

module _ (debug : List Text → Text) (final_diff : Option Text) where
  -- After a check that inspected the diff the model gets another turn.
  after_check : Settings → Text → Result AgentError Turn → Outcome
  after_check s message (err e) = failed e
  after_check s message (ok t) =
      let next = updated t in
      if t.work.run.final_diff_inspected then continued next else judged s next message

  unfoldable pub concluded : Settings → Turn → Text → List (Text × Text) → Check → Outcome
  unfolding after_check
  concluded s t message dispositions check =
      let after = dismissed t dispositions in
      if needs_diff s after.work.run
      then after_check s message (inspected debug final_diff s.max_repeated_failures after check)
      else judged s after message

  by_directive :
      Settings
      → Turn
      → Text
      → Text
      → List (Text × Text)
      → Check
      → Option TaskCompletionStatus
      → Outcome
  unfolding blocked_reason
  by_directive s t response message dispositions check
        (some TaskCompletionStatus.user_input_required) =
      ended (
        say message (
          finish_task_run s.hook_error
            (record (t.work.run) {
              current_phase = finish;
              completion_status = TaskCompletionStatus.user_input_required;
              remaining_work = message ∷ [];
            })
            message))
  by_directive s t response message dispositions check (some TaskCompletionStatus.blocked) = ended (
      finish_blocked_task s.hook_error (record (t.work.run) { current_phase = finish })
        (blocked_reason message))
  by_directive s t response message dispositions check _ =
      let planned =
        if is_plan s.mode then updated (on_run (with_structured_plan response) t) else t in
      concluded s planned message dispositions check

  unfoldable pub final_response : Settings → Turn → Text → Check → Outcome
  unfolding by_directive
  final_response s t response check =
      let (directive, completion_text) = parse_completion_directive response in
      let (message, dispositions) = parse_unrelated_verification_directives completion_text in
      by_directive s (on_run (take_plan response) t) response message dispositions check directive
