-- ===== src/Agent/Examples.antt =====
-- A plan of two steps and one of three, what a user approves, and the limits of a run.
mod Reading
mod Ending
use cogito_ai.Prelude.{
  ℕ, ◌-◌, ◌≤◌, ◌<◌, ◌*◌, ◌≡◌, ◌≢◌, ◌↔◌, refl, Bool, true, false, none, some, List, [], ◌∷◌, map,
  any, filter, find, arith,
}
use cogito_ai.Prelude.Text.{Text, text, text_eq, trim, decimal, after_first, len}
use cogito_ai.Prelude.Results.{ok}
use cogito_ai.Session.Tasks.{
  PlanItemStatus, pending, in_progress, completed, ImplementationPlan, ExecutionTask,
  ExecutionMilestone, ExecutionPlan, TaskCompletionStatus, TaskRun, new_task_run, code, new_goal,
  default_goal, default_metrics,
}
use cogito_ai.Session.Compact.{is_empty}
use cogito_ai.Policy.Types.{
  OperationKind, command, PolicyDecision, normal, PolicyRequest, PolicyEvaluation,
}
use cogito_ai.Policy.Access.{Policy}
use cogito_ai.Policy.Types.{evaluation}
use cogito_ai.Agent.Bounded.{bounded_summary, push_bounded, push_unique_bounded}
use cogito_ai.Agent.Plans.{
  change_first, is_open, sync_current_milestone, advance_milestone, advance_plan, record_milestone,
  progress_plan, record_plan_progress, finish_plan, block_plan, chunks_of_four, planned_tasks,
  milestones_from, execution_plan_from_implementation, all_tasks, advance_execution_plan,
  current_title, advance_with,
}
use cogito_ai.Agent.Revision.{was_completed, revised_task, revised_plan, revise_execution_plan}
use cogito_ai.Agent.Plans.Progress.{IsCarriedOut, reports, reports-IsCarriedOut}
use cogito_ai.Agent.Plans.Making.{IsMade, execution_plan_from_implementation-IsMade}
use cogito_ai.Agent.Plans.Stages.{AreStaged, Reach, made, reported, Reach-AreStaged}
use cogito_ai.Agent.Revision.Laws.{
  Attempt, revise_execution_plan-Attempt, Change, revised, revisions, revisions-le,
}
use cogito_ai.Agent.Plans.Ending.{IsSettled, finish_plan-IsSettled}
use cogito_ai.Agent.Approval.{
  has_key, is_ask, insert_key, remove_key, approval_key_from_request, approved_evaluate, grant,
  approval,
}
use cogito_ai.Agent.Approval.Laws.{
  Step, granted, asked, answers, abstract_answers, answers-abstract_answers, uses, grants,
  uses-le-grants,
}
use cogito_ai.Agent.Cost.{
  Usage, ModelPricing, checked_u64, saturating_u64, digits_from, unsigned, parse_unsigned,
  before_first, fraction_of, fraction_value, decimal_microusd, cost_of, estimate_cost_microusd,
  usage_tokens,
}
use cogito_ai.Agent.Cost.Laws.{decimal_microusd-decimal}
use cogito_ai.Agent.Limits.{AgentLimits, default_limits, Spent, exceeded_limit, check_limits}
use cogito_ai.Agent.Limits.Laws.{IsWithin, check_limits_iff}
use cogito_ai.Agent.Start.{Task, start_task_run}
use cogito_ai.Agent.Start.Laws.{IsStarted, start_task_run-IsStarted}

opened : Unit {0}
unfolding text text_eq trim decimal after_first len any filter find is_empty new_task_run new_goal
    default_goal default_metrics bounded_summary push_bounded push_unique_bounded change_first
    sync_current_milestone advance_milestone advance_plan record_milestone progress_plan
    record_plan_progress finish_plan block_plan chunks_of_four planned_tasks milestones_from
    execution_plan_from_implementation all_tasks was_completed revised_task revised_plan
    revise_execution_plan advance_execution_plan current_title advance_with insert_key remove_key
    approval_key_from_request approved_evaluate grant approval checked_u64 saturating_u64
    digits_from unsigned parse_unsigned before_first fraction_of fraction_value decimal_microusd
    cost_of estimate_cost_microusd usage_tokens default_limits exceeded_limit check_limits
opened = tt

abbrev implementation : List Text → ImplementationPlan
implementation steps = record {
  goal = text "Tidy";
  relevant_architecture = [];
  files_likely_affected = [];
  implementation_steps = steps;
  validation = [];
  risks_or_unknowns = [];
}

abbrev two : ImplementationPlan
two = implementation (text "read" ∷ text " " ∷ text "edit" ∷ [])

abbrev started_plan : ExecutionPlan
started_plan = advance_plan (execution_plan_from_implementation two [])

abbrev started : TaskRun
started = record (new_task_run (text "Tidy")) { execution_plan = some started_plan }

abbrev statuses : ExecutionPlan → List PlanItemStatus
statuses plan = map (λ (t : ExecutionTask). t.status) (all_tasks plan.milestones)

first_started : statuses started_plan ≡ in_progress ∷ pending ∷ []
unfolding opened
first_started = refl

both_done : statuses (progress_plan (progress_plan started_plan)) ≡ completed ∷ completed ∷ []
unfolding opened
both_done = refl

-- A run that is resumed advances its plan again: a second task is in progress, and the next report
-- completes the milestone with it.
resumed_twice : statuses (advance_plan started_plan) ≡ in_progress ∷ in_progress ∷ []
unfolding opened
resumed_twice = refl

completed_early :
    map
      (λ (m : ExecutionMilestone). m.status)
      (progress_plan (advance_plan started_plan)).milestones
    ≡ completed ∷ []
unfolding opened
completed_early = refl

still_running : statuses (progress_plan (advance_plan started_plan)) ≡ completed ∷ in_progress ∷ []
unfolding opened
still_running = refl

reports-IsCarriedOut_example : IsCarriedOut (reports 4 started)
unfolding opened
reports-IsCarriedOut_example = reports-IsCarriedOut 4 started started_plan refl refl (omega arith)

execution_plan_from_implementation-IsMade_example :
    IsMade two (execution_plan_from_implementation two (text "builds" ∷ []))
execution_plan_from_implementation-IsMade_example =
    execution_plan_from_implementation-IsMade two (text "builds" ∷ [])

Reach-AreStaged_example : AreStaged (progress_plan started_plan).milestones
Reach-AreStaged_example = Reach-AreStaged (reported (made two []))

finish_plan-IsSettled_example : IsSettled (finish_plan TaskCompletionStatus.blocked started_plan)
finish_plan-IsSettled_example =
    finish_plan-IsSettled TaskCompletionStatus.blocked (made two []) (λ p. cc) (λ p. cc)

abbrev changes : List Change
changes = revised (text "no parser") (text "write" ∷ []) ∷ Change.reported ∷ []

revisions-le_example : revisions changes started ≤ 4 - started_plan.revision
unfolding opened
revisions-le_example = revisions-le changes started started_plan refl

-- A plan whose record in the session has no number has the number 0, and can be revised four times.
abbrev unnumbered : TaskRun
unnumbered = record started { execution_plan = some (record started_plan { revision = 0 }) }

unnumbered_revised :
    revisions
      (revised (text "r") (text "a" ∷ [])
        ∷ revised (text "r") (text "b" ∷ [])
        ∷ revised (text "r") (text "c" ∷ [])
        ∷ revised (text "r") (text "d" ∷ [])
        ∷ [])
      unnumbered
    ≡ 4
unfolding opened
unnumbered_revised = refl

-- A policy that always asks, and a request whose key is its command.
abbrev asking : Policy
asking = record {
  check = λ _. PolicyDecision.ask;
  mode = normal;
  evaluate = λ _. evaluation PolicyDecision.ask (text "mode-default") (text "asks");
}

abbrev shell : Text → PolicyRequest
shell line = record {
  tool_name = text "shell";
  operation = command;
  workspace_root = [];
  path = none;
  command = some line;
  mode = normal;
}

abbrev key_of : PolicyRequest → Text
key_of q = elim q.command [ some line ↦ line | none ↦ [] ]

abbrev twice : List Step
twice =
    granted (shell (text "ls") ∷ []) ∷ asked (shell (text "ls")) ∷ asked (shell (text "ls")) ∷ []

allowed_once :
    map (λ (e : PolicyEvaluation). is_ask e.decision) (answers key_of asking [] twice)
    ≡ false ∷ true ∷ []
unfolding opened
allowed_once = refl

answers-abstract_answers_example :
    answers key_of asking [] twice ≡ abstract_answers key_of asking (λ k. has_key k []) twice
answers-abstract_answers_example = answers-abstract_answers key_of asking twice []

uses-le-grants_example :
    uses key_of asking (text "ls") [] twice ≤ grants key_of asking (text "ls") twice
uses-le-grants_example = uses-le-grants key_of asking (text "ls") twice

-- Prices: one that is malformed behind its sixth digit, and one with a sign in its fraction.
malformed_price : decimal_microusd (text "1.234567 per day") ≡ some 1234567
unfolding opened
malformed_price = refl

signed_fraction : decimal_microusd (text "1.+5") ≡ some 1050000
unfolding opened
signed_fraction = refl

abbrev spent : Spent
spent = record {
  turns = 3;
  tool_calls = 9;
  model_tokens = 4000;
  elapsed = 5;
  estimated_cost_microusd = none;
}

check_limits_iff_example :
    (check_limits default_limits false spent started ≡ ok tt)
    ↔ ((false ≡ false) × IsWithin default_limits spent)
check_limits_iff_example = check_limits_iff default_limits false spent started

abbrev task : Task
task = record {
  user_task = text "Tidy";
  task_mode = code;
  acceptance_criteria = [];
  resumes = true;
}

start_task_run-IsStarted_example : IsStarted task (start_task_run task (some started))
start_task_run-IsStarted_example = start_task_run-IsStarted task (some started)

revise_execution_plan-Attempt_example :
    Attempt started
      (text "no parser")
      (text "write" ∷ [])
      (revise_execution_plan started (text "no parser") (text "write" ∷ []))
revise_execution_plan-Attempt_example =
    revise_execution_plan-Attempt started (text "no parser") (text "write" ∷ [])
