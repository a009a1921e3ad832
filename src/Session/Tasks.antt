-- ===== src/Session/Tasks.antt =====
-- The task state that a session records, of crates/harness-session/src/events.rs. A path is its text.
use cogito_ai.Prelude.{ℕ, Bool, false, Option, none, List, [], ℤ}
use cogito_ai.Prelude.Text.{Text, text}

pub data TaskPhase : Type 0 where
  understand plan search_read edit verify inspect_diff repair finish : TaskPhase

pub data TaskMode : Type 0 where
  explore plan code : TaskMode

pub record ImplementationPlan : Type 0 where
  pub goal : Text
  pub relevant_architecture : List Text
  pub files_likely_affected : List Text
  pub implementation_steps : List Text
  pub validation : List Text
  pub risks_or_unknowns : List Text

pub record Goal : Type 0 where
  pub objective : Text
  pub constraints : List Text
  pub acceptance_criteria : List Text
  pub non_goals : List Text
  pub current_milestone : Option Text
  pub completion_condition : Text

unfoldable pub default_goal : Goal
default_goal = record {
  objective = [];
  constraints = [];
  acceptance_criteria = [];
  non_goals = [];
  current_milestone = none;
  completion_condition = [];
}

-- `Goal::new`
unfoldable pub new_goal : Text → Goal
unfolding default_goal
new_goal objective = record default_goal {
  objective = objective;
  completion_condition =
      text
        "Acceptance criteria pass, relevant validation succeeds, and the final diff is inspected; otherwise report the blocker or remaining work.";
}

pub data PlanItemStatus : Type 0 where
  pending in_progress completed blocked : PlanItemStatus

-- `{:?}`
unfoldable pub status_debug : PlanItemStatus → Text
status_debug pending = text "Pending"
status_debug in_progress = text "InProgress"
status_debug completed = text "Completed"
status_debug blocked = text "Blocked"

pub record ExecutionTask : Type 0 where
  pub description : Text
  pub status : PlanItemStatus

pub record ExecutionMilestone : Type 0 where
  pub title : Text
  pub tasks : List ExecutionTask
  pub affected_architecture : List Text
  pub validation_commands : List Text
  pub completion_criteria : List Text
  pub status : PlanItemStatus

pub record ExecutionPlan : Type 0 where
  pub revision : ℕ
  pub milestones : List ExecutionMilestone
  pub decision_notes : List Text
  pub status : PlanItemStatus

pub data TaskCompletionStatus : Type 0 where
  in_progress done blocked user_input_required resource_limit_reached cancelled :
      TaskCompletionStatus

pub record TaskVerificationResult : Type 0 where
  pub command : Text
  pub category : Text
  pub passed : Bool
  pub exit_code : Option ℤ
  pub summary : Text
  pub affected_files : List Text
  pub failure_origin : Option Text
  pub relevant_output : Text

pub record ContextMetrics : Type 0 where
  pub estimated_tokens_per_turn : List ℕ
  pub reported_input_tokens_per_turn : List (Option ℕ)
  pub estimated_tokens_sent : ℕ
  pub reused_context_tokens : ℕ
  pub compactions : ℕ
  pub retrieval_queries : ℕ
  pub retrieved_files_used : ℕ

unfoldable pub default_metrics : ContextMetrics
default_metrics = record {
  estimated_tokens_per_turn = [];
  reported_input_tokens_per_turn = [];
  estimated_tokens_sent = 0;
  reused_context_tokens = 0;
  compactions = 0;
  retrieval_queries = 0;
  retrieved_files_used = 0;
}

pub record TaskRun : Type 0 where
  pub original_goal : Text
  pub goal : Goal
  pub task_mode : TaskMode
  pub acceptance_criteria : List Text
  pub current_phase : TaskPhase
  pub current_plan : List Text
  pub context_metrics : ContextMetrics
  pub structured_plan : Option ImplementationPlan
  pub execution_plan : Option ExecutionPlan
  pub relevant_files : List Text
  pub changed_files : List Text
  pub commands_executed : List Text
  pub verification_results : List TaskVerificationResult
  pub final_diff_inspected : Bool
  pub unresolved_errors : List Text
  pub remaining_work : List Text
  pub completion_status : TaskCompletionStatus

-- `TaskRun::new`
unfoldable pub new_task_run : Text → TaskRun
unfolding new_goal default_metrics
new_task_run goal = record {
  original_goal = goal;
  goal = new_goal goal;
  task_mode = code;
  acceptance_criteria = [];
  current_phase = understand;
  current_plan = [];
  context_metrics = default_metrics;
  structured_plan = none;
  execution_plan = none;
  relevant_files = [];
  changed_files = [];
  commands_executed = [];
  verification_results = [];
  final_diff_inspected = false;
  unresolved_errors = [];
  remaining_work = [];
  completion_status = TaskCompletionStatus.in_progress;
}
