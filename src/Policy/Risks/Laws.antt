-- ===== src/Policy/Risks/Laws.antt =====
-- Which risks a request has, as an equation for each class, and the order of the list.
use cogito_ai.Prelude.{
  Bool, true, false, not, ◌||◌, ◌&&◌, ◌≡◌, refl, ◌∙◌, ap, Option, none, some, List, [], ◌∷◌, arith,
  any-append, any-sort_by, sort_by, Bool-cases, inl, inr,
}
use mathlib.Core.Bool.{and-true, and-false, or-false}
use cogito_ai.Prelude.Text.{Text, to_ascii_lowercase}
use cogito_ai.Policy.Paths.{PathBuf, normalize_path, path_starts_with}
use cogito_ai.Policy.Protected.{is_high_risk_path}
use cogito_ai.Policy.Commands.{
  classify_command_risks, classify_lowered, push_if, addresses_outside, touches_secrets,
  installs_packages, uses_network, mutates_git, talks_to_remote, is_destructive, starts_interpreter,
}
use cogito_ai.Policy.Risks.{
  operation_risk, has_risk, path_risks, command_risks, dedup_from, dedup, pushed_risks,
  risk_categories, risk_le,
}
use cogito_ai.Policy.Types.{
  OperationKind, RiskCategory, project_write, process, package_install, git_mutation, destructive,
  outside_workspace, secret_access, risk_eq, PolicyRequest,
}

pub risk_eq_sound : (a b : RiskCategory) → risk_eq a b ≡ true → a ≡ b
unfolding risk_eq
risk_eq_sound a b h = ground arith

has_risk-push_if :
    (b : Bool) (r x : RiskCategory) (rs : List RiskCategory)
    → has_risk (push_if b r rs) x ≡ (has_risk rs x || (b && risk_eq x r))
unfolding has_risk
has_risk-push_if true r x rs = any-append (risk_eq x) rs (r ∷ []) ∙ ground arith
has_risk-push_if false r x rs = ground arith

has_risk-dedup_from :
    (last : RiskCategory) (rs : List RiskCategory) (x : RiskCategory)
    → (risk_eq x last || has_risk (dedup_from last rs) x) ≡ (risk_eq x last || has_risk rs x)
unfolding has_risk dedup_from
has_risk-dedup_from last [] x = refl
has_risk-dedup_from last (r ∷ rs) x = elim (Bool-cases (risk_eq last r)) [
  | inl e ↦ rw (e, risk_eq_sound last r e) (ground (arith, has_risk-dedup_from r rs x))
  | inr e ↦ rw e (ground (arith, has_risk-dedup_from r rs x))
]

has_risk-dedup : (rs : List RiskCategory) (x : RiskCategory) → has_risk (dedup rs) x ≡ has_risk rs x
unfolding has_risk dedup
has_risk-dedup [] x = refl
has_risk-dedup (r ∷ rs) x = has_risk-dedup_from r rs x

-- Sorting and removing duplicates lose no risk and add none.
pub has_risk-risk_categories :
    (q : PolicyRequest) (x : RiskCategory)
    → has_risk (risk_categories q) x ≡ has_risk (pushed_risks q) x
unfolding risk_categories
has_risk-risk_categories q x =
    has_risk-dedup (sort_by risk_le (pushed_risks q)) x
    ∙ (unfold has_risk in any-sort_by risk_le (risk_eq x) (pushed_risks q))

-- The part of a request's path, and of its command, in each class.
abbrev pub on_path : (PathBuf → Bool) → Option PathBuf → Bool
on_path p none = false
on_path p (some path) = p (normalize_path path)

abbrev pub on_command : (Text → Bool) → Option Text → Bool
on_command p none = false
on_command p (some c) = p (to_ascii_lowercase c)

-- The tests of the classes that a command adds.
pub has_risk-classify_lowered :
    (x : RiskCategory) (c : Text) (root : PathBuf) (rs : List RiskCategory)
    → has_risk (classify_lowered c root rs) x ≡ (
        has_risk rs x
        || addresses_outside c root && risk_eq x outside_workspace
        || touches_secrets c && risk_eq x secret_access
        || installs_packages c && risk_eq x package_install
        || uses_network c && risk_eq x RiskCategory.network
        || mutates_git c && risk_eq x git_mutation
        || mutates_git c && talks_to_remote c && risk_eq x RiskCategory.network
        || is_destructive c && risk_eq x destructive
        || starts_interpreter c && risk_eq x process)
unfolding classify_lowered
has_risk-classify_lowered x c root rs = simp has_risk-push_if

has_risk-operation :
    (x : RiskCategory) (o : OperationKind)
    → has_risk (operation_risk o ∷ []) x ≡ risk_eq x (operation_risk o)
unfolding has_risk
has_risk-operation x o = ground arith

abbrev leaves_workspace : Option PathBuf → PathBuf → Bool
leaves_workspace none root = false
leaves_workspace (some p) root = not (path_starts_with (normalize_path p) (normalize_path root))

has_risk-path_risks :
    (x : RiskCategory) (path : Option PathBuf) (root : PathBuf) (rs : List RiskCategory)
    → has_risk (path_risks path root rs) x ≡ (
        has_risk rs x
        || leaves_workspace path root && risk_eq x outside_workspace
        || on_path is_high_risk_path path && risk_eq x secret_access)
unfolding path_risks
has_risk-path_risks x none root rs = ground arith
has_risk-path_risks x (some p) root rs = simp has_risk-push_if

-- What a command in lower case adds to a class.
abbrev command_part : RiskCategory → PathBuf → Text → Bool
command_part x root c =
    addresses_outside c root && risk_eq x outside_workspace
    || touches_secrets c && risk_eq x secret_access
    || installs_packages c && risk_eq x package_install
    || uses_network c && risk_eq x RiskCategory.network
    || mutates_git c && risk_eq x git_mutation
    || mutates_git c && talks_to_remote c && risk_eq x RiskCategory.network
    || is_destructive c && risk_eq x destructive
    || starts_interpreter c && risk_eq x process

has_risk-command_risks :
    (x : RiskCategory) (line : Option Text) (root : PathBuf) (rs : List RiskCategory)
    → has_risk (command_risks line root rs) x
      ≡ (has_risk rs x || on_command (command_part x root) line)
unfolding command_risks classify_command_risks
has_risk-command_risks x none root rs = ground arith
has_risk-command_risks x (some c) root rs =
    ground (arith, has_risk-classify_lowered x (to_ascii_lowercase c) root rs)

has_risk-pushed_risks :
    (x : RiskCategory) (q : PolicyRequest)
    → has_risk (risk_categories q) x ≡ (
        ((risk_eq x (operation_risk q.operation)
            || leaves_workspace q.path q.workspace_root && risk_eq x outside_workspace)
          || on_path is_high_risk_path q.path && risk_eq x secret_access)
        || on_command (command_part x q.workspace_root) q.command)
unfolding pushed_risks
has_risk-pushed_risks x q =
    has_risk-risk_categories q x
    ∙ simp (has_risk-command_risks, has_risk-path_risks, has_risk-operation)

is_derived : RiskCategory → Bool
is_derived RiskCategory.read = false
is_derived project_write = false
is_derived process = false
is_derived RiskCategory.network = false
is_derived _ = true

-- No operation has one of these risks by itself.
not_operation_risk :
    (x : RiskCategory) (o : OperationKind)
    → is_derived x ≡ true
    → risk_eq x (operation_risk o) ≡ false
unfolding risk_eq operation_risk is_derived
not_operation_risk x o h = ground arith

on_command_ext :
    (f g : Text → Bool) (line : Option Text)
    → ((c : Text) → f c ≡ g c)
    → on_command f line ≡ on_command g line
on_command_ext f g none h = refl
on_command_ext f g (some c) h = h (to_ascii_lowercase c)

ruleset bool_laws = (and-true, and-false, or-false)

module _ (q : PolicyRequest) where
  open q use {operation, path, command as line, workspace_root as root}

  -- A request addresses what is outside the workspace by its path or by its command.
  pub has_outside_workspace :
      has_risk (risk_categories q) outside_workspace
      ≡ (leaves_workspace path root || on_command (λ c. addresses_outside c root) line)
  unfolding risk_eq is_derived
  has_outside_workspace =
      simp (has_risk-pushed_risks, bool_laws, not_operation_risk outside_workspace operation refl)
        (ap (λ (b : Bool). leaves_workspace path root || b)
          (on_command_ext (command_part outside_workspace root) (λ c. addresses_outside c root) line
            (λ c. simp bool_laws)))

  -- Secrets are a protected path or a command that names them.
  pub has_secret_access :
      has_risk (risk_categories q) secret_access
      ≡ (on_path is_high_risk_path path || on_command touches_secrets line)
  unfolding risk_eq is_derived
  has_secret_access =
      simp (has_risk-pushed_risks, bool_laws, not_operation_risk secret_access operation refl)
        (ap (λ (b : Bool). on_path is_high_risk_path path || b)
          (on_command_ext (command_part secret_access root) touches_secrets line
            (λ c. simp bool_laws)))

  -- These three classes come from the command alone.
  pub has_package_install :
      has_risk (risk_categories q) package_install ≡ on_command installs_packages line
  unfolding risk_eq is_derived
  has_package_install =
      simp (has_risk-pushed_risks, bool_laws, not_operation_risk package_install operation refl)
        (on_command_ext (command_part package_install root) installs_packages line
          (λ c. simp bool_laws))

  pub has_git_mutation : has_risk (risk_categories q) git_mutation ≡ on_command mutates_git line
  unfolding risk_eq is_derived
  has_git_mutation =
      simp (has_risk-pushed_risks, bool_laws, not_operation_risk git_mutation operation refl)
        (on_command_ext (command_part git_mutation root) mutates_git line (λ c. simp bool_laws))

  pub has_destructive : has_risk (risk_categories q) destructive ≡ on_command is_destructive line
  unfolding risk_eq is_derived
  has_destructive =
      simp (has_risk-pushed_risks, bool_laws, not_operation_risk destructive operation refl)
        (on_command_ext (command_part destructive root) is_destructive line (λ c. simp bool_laws))

  -- A request uses the network by its operation, by a network command, or by a Git command that
  -- also talks to a remote.
  pub has_network : has_risk (risk_categories q) RiskCategory.network ≡ (
      risk_eq RiskCategory.network (operation_risk operation)
      || on_command (λ c. uses_network c || mutates_git c && talks_to_remote c) line)
  unfolding risk_eq
  has_network =
      simp (has_risk-pushed_risks, bool_laws)
        (ap (λ (b : Bool). risk_eq RiskCategory.network (operation_risk operation) || b)
          (on_command_ext (command_part RiskCategory.network root)
            (λ c. uses_network c || mutates_git c && talks_to_remote c) line (λ c. simp bool_laws)))
