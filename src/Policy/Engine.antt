-- ===== src/Policy/Engine.antt =====
-- `PolicyEngine` of crates/harness-policy/src/lib.rs: its constructors, the evaluation of a request
-- and the defaults of the modes. `glob` stands for the `globset` crate.
pub mod Verdict
pub mod Priority
use cogito_ai.Prelude.{
  ℕ, Bool, true, false, not, ◌||◌, ◌&&◌, Option, none, some, List, [], ◌∷◌, ◌++◌, if◌then◌else◌,
  any, find, sort_by, leb, leb_ℤ, eq_ℤ, ℤ, wrapping_neg_i32,
}
use cogito_ai.Prelude.Text.{Text, text}
use cogito_ai.Prelude.Results.{Result, ok, err, ◌>>=◌}
use cogito_ai.Policy.Paths.{PathBuf, normalize_path, path_starts_with}
use cogito_ai.Policy.Protected.{is_high_risk_path}
use cogito_ai.Policy.Commands.{is_safe_command}
use cogito_ai.Policy.Risks.{risk_categories, has_risk}
use cogito_ai.Policy.Rules.{Matcher, matching_rules}
use cogito_ai.Policy.Types.{
  OperationKind, search, write, patch, command, mcp, RiskCategory, package_install, git_mutation,
  destructive, outside_workspace, secret_access, NetworkAccess, is_network_allowed, PolicyDecision,
  is_deny, ExecutionMode, read_only, safe, normal, auto, mode_debug, mode_eq, PolicyRequest,
  PolicyEvaluation, evaluation, PolicyRule, PolicyEngine, PolicyError, invalid_config,
}

-- `PolicyEngine::new`
unfoldable pub new_engine : ExecutionMode → PathBuf → PolicyEngine
new_engine mode root = record {
  mode = mode;
  network_access = NetworkAccess.ask;
  workspace_root = root;
  rules = [];
}

-- `PolicyEngine::with_mode`
unfoldable pub with_mode : PolicyEngine → ExecutionMode → PolicyEngine
with_mode e mode = record e { mode = mode }

-- `[policy]` of a configuration file. The `toml` crate parses it, with the declared defaults of the
-- missing keys; a file without the table is `none`.
pub record PolicySettings : Type 0 where
  pub mode : Option ExecutionMode
  pub network_access : NetworkAccess
  pub rules : List PolicyRule

-- `settings.mode.unwrap_or(ExecutionMode::Normal)`
mode_or_normal : Option ExecutionMode → ExecutionMode
mode_or_normal none = normal
mode_or_normal (some mode) = mode

abbrev default_settings : PolicySettings
default_settings = record { mode = none; network_access = NetworkAccess.ask; rules = [] }

settings_or_default : Option PolicySettings → PolicySettings
settings_or_default none = default_settings
settings_or_default (some s) = s

module _ (parse_toml : Text → Result Text (Option PolicySettings)) where
  unfoldable pub from_toml : Text → PathBuf → Result PolicyError PolicyEngine
  unfolding settings_or_default mode_or_normal
  from_toml contents root = elim (parse_toml contents) [
    | err message ↦ err (invalid_config message)
    | ok file ↦
        let settings = settings_or_default file in
        ok (record {
          mode = mode_or_normal settings.mode;
          network_access = settings.network_access;
          workspace_root = root;
          rules = settings.rules;
        })
  ]

unfoldable pub is_read_or_search : OperationKind → Bool
is_read_or_search OperationKind.read = true
is_read_or_search search = true
is_read_or_search _ = false

-- The four classes that always need a human decision.
unfoldable pub is_sensitive : RiskCategory → Bool
is_sensitive package_install = true
is_sensitive git_mutation = true
is_sensitive destructive = true
is_sensitive secret_access = true
is_sensitive _ = false

-- `request.command.as_deref().unwrap_or_default()`
command_or_empty : Option Text → Text
command_or_empty none = []
command_or_empty (some c) = c

allow_if : Bool → PolicyDecision
allow_if true = PolicyDecision.allow
allow_if false = PolicyDecision.ask

-- The `match` of `default_evaluation` on the mode and the operation.
normal_decision : OperationKind → NetworkAccess → PolicyRequest → PolicyDecision
unfolding allow_if command_or_empty is_network_allowed
normal_decision OperationKind.read net q = PolicyDecision.allow
normal_decision search net q = PolicyDecision.allow
normal_decision write net q = PolicyDecision.allow
normal_decision patch net q = PolicyDecision.allow
normal_decision command net q = allow_if (
    is_safe_command (command_or_empty q.command)
    || (is_network_allowed net && has_risk (risk_categories q) RiskCategory.network))
normal_decision OperationKind.network net q = allow_if (is_network_allowed net)
normal_decision mcp net q = allow_if (is_network_allowed net)

safe_decision : OperationKind → NetworkAccess → PolicyDecision
unfolding allow_if is_network_allowed
safe_decision OperationKind.read net = PolicyDecision.allow
safe_decision search net = PolicyDecision.allow
safe_decision OperationKind.network net = allow_if (is_network_allowed net)
safe_decision _ net = PolicyDecision.ask

read_only_decision : OperationKind → PolicyDecision
unfolding is_read_or_search
read_only_decision operation =
    if is_read_or_search operation then PolicyDecision.allow else PolicyDecision.deny

unfoldable pub mode_decision : ExecutionMode → NetworkAccess → PolicyRequest → PolicyDecision
unfolding normal_decision safe_decision read_only_decision
mode_decision read_only net q = read_only_decision q.operation
mode_decision safe net q = safe_decision q.operation net
mode_decision normal net q = normal_decision q.operation net q
mode_decision auto net q = normal_decision q.operation net q

decision_reason : PolicyDecision → ExecutionMode → Text
decision_reason PolicyDecision.allow mode = mode_debug mode ++ text " mode allows this operation"
decision_reason PolicyDecision.ask mode =
    mode_debug mode ++ text " mode requires approval for this operation"
decision_reason PolicyDecision.deny mode = mode_debug mode ++ text " mode denies this operation"

unfoldable pub default_evaluation : PolicyEngine → PolicyRequest → PolicyEvaluation
unfolding decision_reason
default_evaluation e q =
    let decision = mode_decision q.mode e.network_access q in
    evaluation decision (text "mode-default") (decision_reason decision q.mode)

-- The engine's mode and the normalized paths replace those of the request.
unfoldable pub normalized_request : PolicyEngine → PolicyRequest → PolicyRequest
normalized_request e q = record {
  tool_name = q.tool_name;
  operation = q.operation;
  workspace_root = normalize_path q.workspace_root;
  path = elim q.path [ some p ↦ some (normalize_path p) | none ↦ none ];
  command = q.command;
  mode = e.mode;
}

-- The two denials that look at the path alone.
unfoldable pub path_denial : Option PathBuf → PathBuf → Option PolicyEvaluation
path_denial none root = none
path_denial (some path) root =
    if not (path_starts_with path root)
    then some (
        evaluation PolicyDecision.deny (text "built-in:workspace-boundary")
          (text "path is outside the permitted workspace"))
    else if is_high_risk_path path
    then some (
        evaluation PolicyDecision.deny (text "built-in:high-risk-path")
          (text "path is protected as a credential or VCS secret"))
    else none

-- `sort_by_key(|(index, rule)| (-rule.priority, *index))`
abbrev pub rule_le : ℕ × PolicyRule → ℕ × PolicyRule → Bool
rule_le (i, r) (j, s) =
    if eq_ℤ (wrapping_neg_i32 r.priority) (wrapping_neg_i32 s.priority)
    then leb i j
    else leb_ℤ (wrapping_neg_i32 r.priority) (wrapping_neg_i32 s.priority)

-- The first matching rule by priority, or the default of the mode.
unfoldable pub by_priority : PolicyEngine → PolicyRequest → List (ℕ × PolicyRule) → PolicyEvaluation
by_priority e q [] = default_evaluation e q
by_priority e q ((_, rule) ∷ _) =
    evaluation rule.action rule.name (text "rule " ++ (rule.name ++ text " matched"))

-- The evaluation after the workspace checks, from the rules that match and the risks.
unfoldable pub judge :
    PolicyEngine → PolicyRequest → List RiskCategory → List (ℕ × PolicyRule) → PolicyEvaluation
unfolding mode_eq
judge e q risks matches = elim (find (λ m. is_deny m.1.action) matches) [
  | some (_, rule) ↦ evaluation PolicyDecision.deny rule.name (text "explicit deny rule matched")
  | none ↦
      if mode_eq q.mode read_only && not (is_read_or_search q.operation)
      then evaluation PolicyDecision.deny (text "built-in:read-only-mode")
          (text "read-only mode denies every process or mutating operation")
      else if any is_sensitive risks
      then evaluation PolicyDecision.ask (text "built-in:sensitive-command")
          (text "this command affects packages, Git state, destructive state, or secrets")
      else if has_risk risks RiskCategory.network
      then elim e.network_access [
        | NetworkAccess.deny ↦
            evaluation PolicyDecision.deny (text "built-in:network-denied")
              (text "network access is denied by workspace policy")
        | NetworkAccess.ask ↦
            evaluation PolicyDecision.ask (text "built-in:network-approval")
              (text "network access requires explicit user approval")
        | NetworkAccess.allow ↦ by_priority e q (sort_by rule_le matches)
      ]
      else by_priority e q (sort_by rule_le matches)
]

module _ (glob : Matcher) where
  unfoldable pub evaluate_request :
      PolicyEngine → PolicyRequest → Result PolicyError PolicyEvaluation
  evaluate_request e request =
      let q = normalized_request e request in
      elim (path_denial q.path q.workspace_root) [
        | some denial ↦ ok denial
        | none ↦
            if has_risk (risk_categories q) outside_workspace
            then ok (
                evaluation PolicyDecision.deny (text "built-in:outside-workspace-command")
                  (text "commands that address paths outside the workspace are denied"))
            else do
              matches ← matching_rules glob 0 e.rules q
              ok (judge e q (risk_categories q) matches)
      ]
