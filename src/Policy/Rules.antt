-- ===== src/Policy/Rules.antt =====
-- `glob_matches` and `rule_matches` of crates/harness-policy/src/lib.rs. The `globset` crate is the
-- parameter `glob`: a pattern is compiled to a matcher, or refused with a message.
use cogito_ai.Prelude.{
  ℕ, Bool, true, false, not, ◌||◌, Option, none, some, List, [], ◌∷◌, suc, if◌then◌else◌, any,
}
use cogito_ai.Prelude.Text.{Text, replace_char}
use cogito_ai.Prelude.Results.{Result, ok, err, ◌>>=◌}
use cogito_ai.Policy.Paths.{PathBuf, strip_prefix, path_text}
use cogito_ai.Policy.Risks.{risk_categories, has_risk}
use cogito_ai.Policy.Types.{
  OperationKind, operation_eq, RiskCategory, ExecutionMode, mode_eq, PolicyRequest, PolicyRule,
  PolicyError, invalid_glob,
}

abbrev pub Matcher : Type 0
Matcher = Text → Result Text (Text → Bool)

-- The filters of a rule that cannot fail, in the order of `rule_matches`.
unfoldable pub risks_match : Option (List RiskCategory) → PolicyRequest → Bool
unfolding any
risks_match none q = true
risks_match (some risks) q = any (has_risk (risk_categories q)) risks

unfoldable pub operations_match : Option (List OperationKind) → PolicyRequest → Bool
unfolding any
operations_match none q = true
operations_match (some operations) q = any (operation_eq q.operation) operations

unfoldable pub modes_match : Option (List ExecutionMode) → PolicyRequest → Bool
unfolding any
modes_match none q = true
modes_match (some modes) q = any (mode_eq q.mode) modes

module _ (glob : Matcher) where
  unfoldable pub glob_matches : Text → Text → Result PolicyError Bool
  glob_matches pattern value = elim (glob pattern) [
    | ok matcher ↦ ok (matcher value)
    | err message ↦ err (invalid_glob pattern message)
  ]

  -- The loops over `tools` and `command_patterns`: the first match ends them, and an invalid
  -- pattern before it fails.
  unfoldable pub any_glob : List Text → Text → Result PolicyError Bool
  unfolding glob_matches
  any_glob [] value = ok false
  any_glob (pattern ∷ patterns) value =
      let rest = any_glob patterns value in
      glob_matches pattern value >>= λ matched. if matched then ok true else rest

  unfoldable pub tools_match : Option (List Text) → PolicyRequest → Result PolicyError Bool
  unfolding any_glob
  tools_match none q = ok true
  tools_match (some tools) q = any_glob tools q.tool_name

  -- `glob_matches(…).unwrap_or(false)`
  glob_accepts : Text → Text → Bool
  unfolding glob_matches
  glob_accepts value pattern = elim (glob_matches pattern value) [ ok b ↦ b | err _ ↦ false ]

  unfoldable pub path_matches : List Text → PathBuf → PathBuf → Bool
  unfolding any glob_accepts
  path_matches patterns path root =
      let relative : PathBuf = elim (strip_prefix path root) [ some rest ↦ rest | none ↦ path ] in
      any
        (λ pattern.
          glob_accepts (replace_char b'\\' b'/' (path_text relative)) pattern
          || glob_accepts (replace_char b'\\' b'/' (path_text path)) pattern)
        patterns

  unfoldable pub paths_match : Option (List Text) → Option PathBuf → PathBuf → Bool
  unfolding path_matches
  paths_match none path root = true
  paths_match (some patterns) none root = false
  paths_match (some patterns) (some path) root = path_matches patterns path root

  unfoldable pub commands_match : Option (List Text) → Option Text → Result PolicyError Bool
  unfolding any_glob
  commands_match none command = ok true
  commands_match (some patterns) none = ok false
  commands_match (some patterns) (some command) = any_glob patterns command

  unfoldable pub rule_matches : PolicyRule → PolicyRequest → Result PolicyError Bool
  rule_matches rule q =
      if not (risks_match rule.risks q)
      then ok false
      else tools_match rule.tools q >>= λ tool.
          if not tool
          then ok false
          else if not (operations_match rule.operations q)
          then ok false
          else if not (modes_match rule.modes q)
          then ok false
          else if not (paths_match rule.paths q.path q.workspace_root)
          then ok false
          else commands_match rule.command_patterns q.command

  -- The loop that collects the matching rules with their positions.
  unfoldable pub matching_rules :
      ℕ → List PolicyRule → PolicyRequest → Result PolicyError (List (ℕ × PolicyRule))
  matching_rules index [] q = ok []
  matching_rules index (rule ∷ rules) q =
      let rest = matching_rules (suc index) rules q in
      do
        matched ← rule_matches rule q
        matches ← rest
        ok (if matched then (index, rule) ∷ matches else matches)
