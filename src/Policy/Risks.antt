-- ===== src/Policy/Risks.antt =====
-- `PolicyRequest::risk_categories` of crates/harness-policy/src/lib.rs.
pub mod Laws
pub mod Order
use cogito_ai.Prelude.{
  ℕ, Bool, true, false, not, Option, none, some, List, [], ◌∷◌, ◌++◌, leb, if◌then◌else◌, any,
  sort_by,
}
use cogito_ai.Policy.Paths.{PathBuf, normalize_path, path_starts_with}
use cogito_ai.Policy.Protected.{is_high_risk_path}
use cogito_ai.Policy.Commands.{classify_command_risks, push_if}
use cogito_ai.Prelude.Text.{Text}
use cogito_ai.Policy.Types.{
  OperationKind, search, write, patch, command, mcp, RiskCategory, project_write, process,
  outside_workspace, secret_access, risk_index, risk_eq, PolicyRequest,
}

unfoldable pub operation_risk : OperationKind → RiskCategory
operation_risk OperationKind.read = RiskCategory.read
operation_risk search = RiskCategory.read
operation_risk write = project_write
operation_risk patch = project_write
operation_risk command = process
operation_risk OperationKind.network = RiskCategory.network
operation_risk mcp = RiskCategory.network

-- `risks.contains(&risk)`
unfoldable pub has_risk : List RiskCategory → RiskCategory → Bool
unfolding any
has_risk risks risk = any (risk_eq risk) risks

unfoldable pub path_risks : Option PathBuf → PathBuf → List RiskCategory → List RiskCategory
path_risks none root risks = risks
path_risks (some p) root risks =
    let path = normalize_path p in
    push_if (is_high_risk_path path) secret_access
      (push_if (not (path_starts_with path (normalize_path root))) outside_workspace risks)

unfoldable pub command_risks : Option Text → PathBuf → List RiskCategory → List RiskCategory
command_risks none root risks = risks
command_risks (some c) root risks = classify_command_risks c root risks

-- `Vec::dedup`: of equal neighbours the first stays.
unfoldable pub dedup_from : RiskCategory → List RiskCategory → List RiskCategory
dedup_from last [] = []
dedup_from last (r ∷ rs) = let rest = dedup_from r rs in if risk_eq last r then rest else r ∷ rest

unfoldable pub dedup : List RiskCategory → List RiskCategory
unfolding dedup_from
dedup [] = []
dedup (r ∷ rs) = r ∷ dedup_from r rs

-- The risks in the order in which they are pushed.
unfoldable pub pushed_risks : PolicyRequest → List RiskCategory
pushed_risks q =
    command_risks q.command q.workspace_root
      (path_risks q.path q.workspace_root (operation_risk q.operation ∷ []))

abbrev pub risk_le : RiskCategory → RiskCategory → Bool
risk_le a b = leb (risk_index a) (risk_index b)

unfoldable pub risk_categories : PolicyRequest → List RiskCategory
risk_categories q = dedup (sort_by risk_le (pushed_risks q))
