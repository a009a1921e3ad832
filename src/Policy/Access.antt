-- ===== src/Policy/Access.antt =====
-- The `Policy` trait of crates/harness-policy/src/lib.rs, its three implementations, and the
-- authorization that tools call.
use cogito_ai.Prelude.{none, [], ◌++◌}
use cogito_ai.Prelude.Text.{Text, text}
use cogito_ai.Prelude.Results.{Result, ok, err}
use cogito_ai.Core.Errors.{Error, permission_required, permission_denied}
use cogito_ai.Policy.Rules.{Matcher}
use cogito_ai.Policy.Engine.{default_evaluation, evaluate_request}
use cogito_ai.Policy.Types.{
  Permission, read_workspace, write_workspace, execute_command, access_network, Permission_display,
  Permission_debug, OperationKind, write, command, permission, PolicyDecision, ExecutionMode,
  normal, PolicyRequest, PolicyEvaluation, evaluation, PolicyEngine, PolicyError_display,
  operation_name,
}

pub record Policy : Type 0 where
  pub check : Permission → PolicyDecision
  pub mode : ExecutionMode
  pub evaluate : PolicyRequest → PolicyEvaluation

-- The default body of `Policy::evaluate`.
unfoldable pub legacy_evaluate : (Permission → PolicyDecision) → PolicyRequest → PolicyEvaluation
legacy_evaluate check q =
    evaluation (check (permission q.operation)) (text "legacy-permission")
      (Permission_debug (permission q.operation))

unfoldable pub allow_all_policy : Policy
unfolding legacy_evaluate
allow_all_policy = record {
  check = λ _. PolicyDecision.allow;
  mode = normal;
  evaluate = legacy_evaluate (λ _. PolicyDecision.allow);
}

unfoldable pub deny_all_policy : Policy
unfolding legacy_evaluate
deny_all_policy = record {
  check = λ _. PolicyDecision.deny;
  mode = normal;
  evaluate = legacy_evaluate (λ _. PolicyDecision.deny);
}

-- `impl Policy for PolicyEngine`
permission_operation : Permission → OperationKind
permission_operation read_workspace = OperationKind.read
permission_operation write_workspace = write
permission_operation execute_command = command
permission_operation access_network = OperationKind.network

unfoldable pub engine_check : PolicyEngine → Permission → PolicyDecision
unfolding permission_operation
engine_check e p =
    let q : PolicyRequest = record {
      tool_name = [];
      operation = permission_operation p;
      workspace_root = e.workspace_root;
      path = none;
      command = none;
      mode = e.mode;
    } in
    (default_evaluation e q).decision

module _ (glob : Matcher) where
  unfoldable pub engine_evaluate : PolicyEngine → PolicyRequest → PolicyEvaluation
  engine_evaluate e q = elim (evaluate_request glob e q) [
    | ok result ↦ result
    | err error ↦ evaluation PolicyDecision.deny (text "invalid-policy") (PolicyError_display error)
  ]

  unfoldable pub engine_policy : PolicyEngine → Policy
  engine_policy e = record { check = engine_check e; mode = e.mode; evaluate = engine_evaluate e }

unfoldable pub ensure_decision : Text → PolicyDecision → Text → Result Error (Unit {0})
ensure_decision capability PolicyDecision.allow reason = ok tt
ensure_decision capability PolicyDecision.ask reason = err (permission_required capability reason)
ensure_decision capability PolicyDecision.deny reason = err (permission_denied capability)

unfoldable pub authorize : Policy → Permission → Result Error (Unit {0})
unfolding ensure_decision
authorize policy p =
    ensure_decision (Permission_display p) (policy.check p) (text "permission check")

unfoldable pub authorize_request : Policy → PolicyRequest → Result Error (Unit {0})
unfolding ensure_decision
authorize_request policy q =
    let result = policy.evaluate q in
    ensure_decision (operation_name q.operation ++ (text " " ++ q.tool_name)) result.decision
      result.reason
