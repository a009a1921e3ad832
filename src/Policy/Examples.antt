-- ===== src/Policy/Examples.antt =====
-- Runs of the policy engine on concrete requests, and its theorems at concrete inputs.
use cogito_ai.Prelude.{
  true, false, ◌||◌, ◌↔◌, ◌≡◌, refl, none, some, List, [], ◌∷◌, ◌++◌, Memᴰ, pos, String, any, find,
  sort_by, wrapping_neg_i32, if◌then◌else◌,
}
use cogito_ai.Prelude.Text.{Text, text, text_eq, to_ascii_lowercase, replace_char}
use cogito_ai.Prelude.Results.{ok, err}
use cogito_ai.Policy.Paths.{
  PathBuf, root_dir, normal, parent_dir, cur_dir, normalize_path, path_starts_with, strip_prefix,
  path_text,
}
use cogito_ai.Policy.Paths.Laws.{IsNormalized}
use cogito_ai.Policy.Paths.Rules.{AreResolved, normalize_path_iff}
use cogito_ai.Policy.Protected.{is_high_risk_path}
use cogito_ai.Policy.Commands.{
  classify_command_risks, classify_lowered, addresses_outside, touches_secrets, installs_packages,
  uses_network, mutates_git, talks_to_remote, is_destructive, starts_interpreter, is_safe_command,
  command_has_outside_absolute_path,
}
use cogito_ai.Policy.Risks.{
  operation_risk, has_risk, path_risks, command_risks, dedup, dedup_from, pushed_risks,
  risk_categories,
}
use cogito_ai.Policy.Rules.{
  Matcher, rule_matches, matching_rules, risks_match, tools_match, operations_match, modes_match,
  paths_match, commands_match,
}
use cogito_ai.Policy.Engine.{
  is_read_or_search, is_sensitive, mode_decision, default_evaluation, normalized_request,
  path_denial, by_priority, judge, evaluate_request,
}
use cogito_ai.Policy.Access.{engine_evaluate, engine_policy, authorize_request}
use cogito_ai.Policy.Guarantees.{
  deny_rule_final, path_confined, read_only_denies, network_needs_access, authorize_request_iff,
  allowed-IsBacked, IsBacked,
}
use cogito_ai.Policy.Types.{
  OperationKind, write, patch, command, NetworkAccess, PolicyDecision, is_deny, ExecutionMode,
  read_only, safe, normal as normal_mode, auto, PolicyRequest, PolicyEvaluation, PolicyRule,
  PolicyEngine, operation_eq, mode_eq, risk_eq, is_network_allowed,
}

-- `*` accepts every text, the empty pattern is invalid, and any other pattern accepts itself.
abbrev star : Matcher
star pattern =
    if text_eq pattern []
    then err (text "empty")
    else ok (λ value. text_eq pattern (text "*") || text_eq pattern value)

abbrev plain_rule : String → PolicyDecision → PolicyRule
plain_rule name action = record {
  name = text name;
  action = action;
  priority = pos 0;
  tools = none;
  operations = none;
  modes = none;
  paths = none;
  command_patterns = none;
  risks = none;
}

abbrev root : PathBuf
root = root_dir ∷ normal (text "ws") ∷ []

abbrev engine : ExecutionMode → NetworkAccess → List PolicyRule → PolicyEngine
engine mode net rules = record {
  mode = mode;
  network_access = net;
  workspace_root = root;
  rules = rules;
}

abbrev on_file : OperationKind → PathBuf → PolicyRequest
on_file operation path = record {
  tool_name = text "test";
  operation = operation;
  workspace_root = root;
  path = some path;
  command = none;
  mode = auto;
}

abbrev shell : String → PolicyRequest
shell line = record {
  tool_name = text "run_command";
  operation = command;
  workspace_root = root;
  path = none;
  command = some (text line);
  mode = auto;
}

-- Everything that an evaluation calls.
opened : Unit {0}
unfolding engine_evaluate evaluate_request normalized_request path_denial judge by_priority
    default_evaluation mode_decision is_safe_command risk_categories pushed_risks path_risks
    command_risks classify_command_risks classify_lowered addresses_outside touches_secrets
    installs_packages uses_network mutates_git talks_to_remote is_destructive starts_interpreter
    has_risk risk_eq dedup dedup_from operation_risk matching_rules rule_matches risks_match
    tools_match operations_match modes_match paths_match commands_match operation_eq mode_eq is_deny
    is_sensitive is_read_or_search sort_by find any normalize_path path_starts_with
    is_high_risk_path wrapping_neg_i32 text text_eq to_ascii_lowercase strip_prefix path_text
    replace_char is_network_allowed
opened = tt

decide : PolicyEngine → PolicyRequest → PolicyDecision
unfolding opened
decide e q = (engine_evaluate star e q).decision

-- The cases of tests/policy_engine.rs, by mode.
modes_decide :
    (decide
        (engine read_only NetworkAccess.ask [])
        (on_file OperationKind.read (root ++ normal (text "a") ∷ []))
      ≡ PolicyDecision.allow)
    × (decide
          (engine read_only NetworkAccess.ask [])
          (on_file write (root ++ normal (text "a") ∷ []))
        ≡ PolicyDecision.deny)
    × (decide (engine safe NetworkAccess.ask []) (on_file patch (root ++ normal (text "a") ∷ []))
        ≡ PolicyDecision.ask)
    × (decide (engine normal_mode NetworkAccess.ask []) (shell "cargo test") ≡ PolicyDecision.allow)
    × (decide (engine normal_mode NetworkAccess.ask []) (shell "make") ≡ PolicyDecision.ask)
    × (decide (engine auto NetworkAccess.ask []) (shell "rm -rf x") ≡ PolicyDecision.ask)
    × (decide (engine auto NetworkAccess.ask []) (shell "cat /etc/passwd") ≡ PolicyDecision.deny)
    × (decide (engine auto NetworkAccess.deny []) (shell "curl example.com") ≡ PolicyDecision.deny)
unfolding decide
modes_decide = (refl, refl, refl, refl, refl, refl, refl, refl)

-- A command that only begins like a safe one is allowed whole, a second command included.
chained_command_allowed :
    decide (engine normal_mode NetworkAccess.ask []) (shell "git status; make deploy")
    ≡ PolicyDecision.allow
unfolding decide
chained_command_allowed = refl

-- Package installation is recognized by listed phrases, and what is outside by `../` and the like.
unlisted_allowed :
    (decide (engine normal_mode NetworkAccess.ask []) (shell "git status; npm add x")
      ≡ PolicyDecision.allow)
    × (decide (engine normal_mode NetworkAccess.ask []) (shell "git diff --no-index .. .")
        ≡ PolicyDecision.allow)
unfolding decide
unlisted_allowed = (refl, refl)

outside_paths :
    (decide
        (engine auto NetworkAccess.ask [])
        (on_file OperationKind.read (root ++ parent_dir ∷ normal (text "x") ∷ []))
      ≡ PolicyDecision.deny)
    × (decide
          (engine auto NetworkAccess.ask [])
          (on_file OperationKind.read (root ++ normal (text ".env") ∷ []))
        ≡ PolicyDecision.deny)
unfolding decide
outside_paths = (refl, refl)

absolute_token :
    (command_has_outside_absolute_path (text "ls --dir=/tmp/x") root ≡ true)
    × (command_has_outside_absolute_path (text "ls [/ws/a/../b]") root ≡ false)
unfolding command_has_outside_absolute_path text
absolute_token = (refl, refl)

abbrev guarded : PolicyEngine
guarded =
    engine auto NetworkAccess.ask
      (plain_rule "open" PolicyDecision.allow ∷ plain_rule "closed" PolicyDecision.deny ∷ [])

abbrev note : PathBuf
note = root ++ normal (text "src") ∷ cur_dir ∷ normal (text "note") ∷ []

deny_rule_final_example :
    (engine_evaluate star guarded (shell "cargo test")).decision ≡ PolicyDecision.deny
unfolding opened
deny_rule_final_example =
    deny_rule_final star guarded (shell "cargo test") (plain_rule "closed" PolicyDecision.deny)
      (Memᴰ.tail (Memᴰ.head refl)) refl refl

path_confined_example :
    (rest : PathBuf) × (normalize_path note ≡ normalize_path root ++ rest)
    × IsNormalized (normalize_path note)
    × (is_high_risk_path (normalize_path note) ≡ false)
unfolding opened
path_confined_example =
    path_confined star (engine auto NetworkAccess.ask []) (on_file write note) note refl (λ p. cc)

read_only_denies_example :
    (engine_evaluate star (engine read_only NetworkAccess.allow []) (shell "ls")).decision
    ≡ PolicyDecision.deny
unfolding is_read_or_search
read_only_denies_example =
    read_only_denies star (engine read_only NetworkAccess.allow []) (shell "ls") refl refl

abbrev online : PolicyEngine
online = engine normal_mode NetworkAccess.allow []

network_needs_access_example : online.network_access ≡ NetworkAccess.allow
unfolding opened
network_needs_access_example = network_needs_access star online (shell "curl x") refl refl

abbrev opening : PolicyEngine
opening = engine normal_mode NetworkAccess.ask (plain_rule "open" PolicyDecision.allow ∷ [])

allowed-IsBacked_example : IsBacked star opening (shell "make")
unfolding opened
allowed-IsBacked_example = allowed-IsBacked star opening (shell "make") (λ e. cc, tt) refl

authorize_request_iff_example :
    (authorize_request (engine_policy star online) (shell "ls") ≡ ok tt) ↔ (
      (v : PolicyEvaluation) × (evaluate_request star online (shell "ls") ≡ ok v)
      × (v.decision ≡ PolicyDecision.allow))
authorize_request_iff_example = authorize_request_iff star online (shell "ls")

normalize_path_iff_example :
    ((p q : PathBuf) (s : Text) (names : List Text) → AreResolved normalize_path p q s names)
    ↔ ((path : PathBuf) → normalize_path path ≡ normalize_path path)
normalize_path_iff_example = normalize_path_iff normalize_path
