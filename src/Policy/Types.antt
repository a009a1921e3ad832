-- ===== src/Policy/Types.antt =====
-- The data of crates/harness-policy/src/lib.rs: permissions, operations, risks, decisions,
-- requests and rules, with their labels. Derived equalities and orders compare positions.
use cogito_ai.Prelude.{ℕ, ◌++◌, Bool, true, false, Option, List, ℤ, ◌==◌}
use cogito_ai.Prelude.Text.{Text, text}
use cogito_ai.Policy.Paths.{PathBuf}

pub data Permission : Type 0 where
  read_workspace write_workspace execute_command access_network : Permission

unfoldable pub Permission_display : Permission → Text
Permission_display read_workspace = text "read-workspace"
Permission_display write_workspace = text "write-workspace"
Permission_display execute_command = text "execute-command"
Permission_display access_network = text "access-network"

-- `{:?}`
unfoldable pub Permission_debug : Permission → Text
Permission_debug read_workspace = text "ReadWorkspace"
Permission_debug write_workspace = text "WriteWorkspace"
Permission_debug execute_command = text "ExecuteCommand"
Permission_debug access_network = text "AccessNetwork"

pub data OperationKind : Type 0 where
  read search write patch command network mcp : OperationKind

unfoldable pub operation_index : OperationKind → ℕ
operation_index OperationKind.read = 0
operation_index search = 1
operation_index write = 2
operation_index patch = 3
operation_index command = 4
operation_index OperationKind.network = 5
operation_index mcp = 6

unfoldable pub operation_eq : OperationKind → OperationKind → Bool
unfolding operation_index
operation_eq a b = operation_index a == operation_index b

pub data RiskCategory : Type 0 where
  read project_write process package_install network git_mutation destructive : RiskCategory
  outside_workspace secret_access : RiskCategory

unfoldable pub risk_index : RiskCategory → ℕ
risk_index RiskCategory.read = 0
risk_index project_write = 1
risk_index process = 2
risk_index package_install = 3
risk_index RiskCategory.network = 4
risk_index git_mutation = 5
risk_index destructive = 6
risk_index outside_workspace = 7
risk_index secret_access = 8

unfoldable pub risk_eq : RiskCategory → RiskCategory → Bool
unfolding risk_index
risk_eq a b = risk_index a == risk_index b

unfoldable pub RiskCategory_display : RiskCategory → Text
RiskCategory_display RiskCategory.read = text "READ"
RiskCategory_display project_write = text "PROJECT_WRITE"
RiskCategory_display process = text "PROCESS"
RiskCategory_display package_install = text "PACKAGE_INSTALL"
RiskCategory_display RiskCategory.network = text "NETWORK"
RiskCategory_display git_mutation = text "GIT_MUTATION"
RiskCategory_display destructive = text "DESTRUCTIVE"
RiskCategory_display outside_workspace = text "OUTSIDE_WORKSPACE"
RiskCategory_display secret_access = text "SECRET_ACCESS"

pub data NetworkAccess : Type 0 where
  ask allow deny : NetworkAccess

-- `network_access == NetworkAccess::Allow`
unfoldable pub is_network_allowed : NetworkAccess → Bool
is_network_allowed NetworkAccess.allow = true
is_network_allowed _ = false

-- `OperationKind::permission`
unfoldable pub permission : OperationKind → Permission
permission OperationKind.read = read_workspace
permission search = read_workspace
permission write = write_workspace
permission patch = write_workspace
permission command = execute_command
permission OperationKind.network = access_network
permission mcp = access_network

pub data PolicyDecision : Type 0 where
  allow ask deny : PolicyDecision

unfoldable pub PolicyDecision_display : PolicyDecision → Text
PolicyDecision_display PolicyDecision.allow = text "allow"
PolicyDecision_display PolicyDecision.ask = text "ask"
PolicyDecision_display PolicyDecision.deny = text "deny"

-- `action == PolicyDecision::Deny`
unfoldable pub is_deny : PolicyDecision → Bool
is_deny PolicyDecision.deny = true
is_deny _ = false

pub data ExecutionMode : Type 0 where
  read_only safe normal auto : ExecutionMode

unfoldable pub mode_index : ExecutionMode → ℕ
mode_index read_only = 0
mode_index safe = 1
mode_index normal = 2
mode_index auto = 3

unfoldable pub mode_eq : ExecutionMode → ExecutionMode → Bool
unfolding mode_index
mode_eq a b = mode_index a == mode_index b

unfoldable pub mode_debug : ExecutionMode → Text
mode_debug read_only = text "ReadOnly"
mode_debug safe = text "Safe"
mode_debug normal = text "Normal"
mode_debug auto = text "Auto"

pub record PolicyRequest : Type 0 where
  pub tool_name : Text
  pub operation : OperationKind
  pub workspace_root : PathBuf
  pub path : Option PathBuf
  pub command : Option Text
  pub mode : ExecutionMode

pub record PolicyEvaluation : Type 0 where
  pub decision : PolicyDecision
  pub rule : Text
  pub reason : Text

-- `PolicyEvaluation::new`
abbrev pub evaluation : PolicyDecision → Text → Text → PolicyEvaluation
evaluation d rule reason = record { decision = d; rule = rule; reason = reason }

-- `priority` is an `i32`.
pub record PolicyRule : Type 0 where
  pub name : Text
  pub action : PolicyDecision
  pub priority : ℤ
  pub tools : Option (List Text)
  pub operations : Option (List OperationKind)
  pub modes : Option (List ExecutionMode)
  pub paths : Option (List Text)
  pub command_patterns : Option (List Text)
  pub risks : Option (List RiskCategory)

pub record PolicyEngine : Type 0 where
  pub mode : ExecutionMode
  pub network_access : NetworkAccess
  pub workspace_root : PathBuf
  pub rules : List PolicyRule

pub data PolicyError : Type 0 where
  invalid_config : (reason : Text) → PolicyError
  invalid_glob : (pattern : Text) → (message : Text) → PolicyError

-- `error.to_string()`, from the messages that the error declares.
unfoldable pub PolicyError_display : PolicyError → Text
PolicyError_display (invalid_config reason) = text "invalid policy configuration: " ++ reason
PolicyError_display (invalid_glob pattern message) =
    text "invalid policy glob " ++ (pattern ++ (text ": " ++ message))

-- `PolicyRequest::operation_name`
unfoldable pub operation_name : OperationKind → Text
operation_name OperationKind.read = text "read"
operation_name search = text "search"
operation_name write = text "write"
operation_name patch = text "patch"
operation_name command = text "command"
operation_name OperationKind.network = text "network"
operation_name mcp = text "mcp"
