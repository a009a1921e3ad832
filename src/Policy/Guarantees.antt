-- ===== src/Policy/Guarantees.antt =====
-- The promises of the policy engine to its callers, over every engine, request and glob matcher.
use cogito_ai.Prelude.{
  ℕ, Bool, true, false, ◌||◌, ◌≡◌, ◌≢◌, refl, ◌∙◌, ap, ◌↔◌, none, some, List, [], ◌++◌, arith, Memᴰ,
  inl, inr, ◌⊎◌, All, All-mem,
}
use cogito_ai.Prelude.Text.{Text}
use cogito_ai.Prelude.Results.{ok, Result-cases}
use cogito_ai.Policy.Paths.{PathBuf, normalize_path, path_starts_with}
use cogito_ai.Policy.Paths.Laws.{path_starts_with_sound, IsNormalized, normalize_path-IsNormalized}
use cogito_ai.Policy.Protected.{is_high_risk_path}
use cogito_ai.Policy.Commands.{touches_secrets, installs_packages, mutates_git, is_destructive}
use cogito_ai.Policy.Risks.{risk_categories, has_risk}
use cogito_ai.Policy.Rules.{Matcher, matching_rules, rule_matches}
use cogito_ai.Policy.Engine.{
  is_read_or_search, mode_decision, default_evaluation, normalized_request, path_denial, judge,
  evaluate_request,
}
use cogito_ai.Policy.Engine.Verdict.{
  Outcome, denied, judged, engine_evaluate-Outcome, judge-deny_rule, judge-read_only, judge-network,
  mem-matching_rules, matching_rules_sound,
}
use cogito_ai.Policy.Engine.Priority.{i32_min, ◌≤ℤ◌, judge-allow_cases}
use cogito_ai.Policy.Access.{engine_evaluate, engine_policy, authorize_request, ensure_decision}
use cogito_ai.Policy.Types.{
  RiskCategory, outside_workspace, NetworkAccess, PolicyDecision, read_only, PolicyRequest,
  PolicyEvaluation, PolicyRule, PolicyEngine,
}

ensure_decision_sound :
    (capability : Text) (d : PolicyDecision) (reason : Text)
    → ensure_decision capability d reason ≡ ok tt
    → d ≡ PolicyDecision.allow
unfolding ensure_decision
ensure_decision_sound capability d reason h = ground arith

-- The classifier's tests, on a command in lower case, whose risks need a person's consent.
abbrev pub needs_consent : Text → Bool
needs_consent c = installs_packages c || mutates_git c || is_destructive c || touches_secrets c

module _ (glob : Matcher) (e : PolicyEngine) (q : PolicyRequest) where
  abbrev normalized : PolicyRequest
  normalized = normalized_request e q

  abbrev decided : PolicyDecision
  decided = (engine_evaluate glob e q).decision

  -- An evaluation denies, or is the judgement of the matching rules after all workspace checks.
  by_outcome :
      (P : PolicyDecision → Type 0)
      → P PolicyDecision.deny
      → ((matches : List (ℕ × PolicyRule))
          → path_denial normalized.path normalized.workspace_root ≡ none
          → has_risk (risk_categories normalized) outside_workspace ≡ false
          → matching_rules glob 0 e.rules normalized ≡ ok matches
          → P (judge e normalized (risk_categories normalized) matches).decision)
      → P decided
  by_outcome P d j = from (engine_evaluate-Outcome glob e q)
    where
      from : Outcome glob e normalized (engine_evaluate glob e q) → P decided
      from (denied p) = rw (p, decided) d
      from (judged matches p r c v) = rw (v, decided) (j matches p r c)

  -- If a deny rule of the engine matches the normalized request, the decision is to deny: no other
  -- rule, mode, network setting or error of a later rule changes that.
  pub deny_rule_final :
      (rule : PolicyRule)
      → Memᴰ rule e.rules
      → rule.action ≡ PolicyDecision.deny
      → rule_matches glob rule (normalized_request e q) ≡ ok true
      → (engine_evaluate glob e q).decision ≡ PolicyDecision.deny
  deny_rule_final rule m d hit =
      by_outcome (λ x. x ≡ PolicyDecision.deny) refl
        λ matches _ _ c.
          let (j, n) = mem-matching_rules glob e 0 e.rules normalized rule c hit m in
          judge-deny_rule glob e normalized _ matches n d

  path_passes :
      (p root : PathBuf)
      → path_denial (some p) root ≡ none
      → (path_starts_with p root ≡ true) × (is_high_risk_path p ≡ false)
  unfolding path_denial
  path_passes p root h = ground arith

  -- A path that is not denied lies, after normalization, below the normalized workspace root, has
  -- no `.` or `..` left in it, and is not a protected one.
  pub path_confined :
      (p : PathBuf)
      → q.path ≡ some p
      → (engine_evaluate glob e q).decision ≢ PolicyDecision.deny
      → (rest : PathBuf) × (normalize_path p ≡ normalize_path q.workspace_root ++ rest)
        × IsNormalized (normalize_path p)
        × (is_high_risk_path (normalize_path p) ≡ false)
  unfolding normalized_request
  path_confined p h =
      by_outcome
        (λ x.
          x ≢ PolicyDecision.deny
          → (rest : PathBuf) × (normalize_path p ≡ normalize_path q.workspace_root ++ rest)
            × IsNormalized (normalize_path p)
            × (is_high_risk_path (normalize_path p) ≡ false))
        (λ n. absurd (n refl))
        λ matches pass _ _ _.
          let (inside, plain) =
            path_passes (normalize_path p) (normalize_path q.workspace_root) (rw h at pass) in
          let (rest, f) =
            path_starts_with_sound (normalize_path p) (normalize_path q.workspace_root) inside in
          (rest, f, normalize_path-IsNormalized p, plain)

  -- In read-only mode whatever is not a read or a search is denied.
  pub read_only_denies :
      e.mode ≡ read_only
      → is_read_or_search q.operation ≡ false
      → (engine_evaluate glob e q).decision ≡ PolicyDecision.deny
  unfolding normalized_request
  read_only_denies m o =
      by_outcome (λ x. x ≡ PolicyDecision.deny) refl
        λ matches _ _ _. judge-read_only glob e normalized _ matches m o

  -- A request that uses the network is allowed only where the engine allows the network.
  pub network_needs_access :
      has_risk (risk_categories (normalized_request e q)) RiskCategory.network ≡ true
      → (engine_evaluate glob e q).decision ≡ PolicyDecision.allow
      → e.network_access ≡ NetworkAccess.allow
  network_needs_access n =
      by_outcome (λ x. x ≡ PolicyDecision.allow → e.network_access ≡ NetworkAccess.allow)
        (λ x. absurd (cc)) λ matches _ _ _. judge-network glob e normalized _ matches n

  evaluate_allow :
      decided ≡ PolicyDecision.allow
      → (v : PolicyEvaluation) × (evaluate_request glob e q ≡ ok v)
        × (v.decision ≡ PolicyDecision.allow)
  unfolding engine_evaluate
  evaluate_allow h = elim (Result-cases (evaluate_request glob e q)) [
    | inl (x, p) ↦ absurd (deny≢allow (rw (p, decided, engine_evaluate) at h))
    | inr (v, p) ↦ (v, p, rw (p, decided, engine_evaluate) at h)
  ]
    where
      deny≢allow : PolicyDecision.deny ≡ PolicyDecision.allow → ⊥
      deny≢allow x = cc

  -- A tool call passes authorization exactly where its evaluation succeeds with `allow`.
  pub authorize_request_iff : (authorize_request (engine_policy glob e) q ≡ ok tt) ↔ (
      (v : PolicyEvaluation) × (evaluate_request glob e q ≡ ok v)
      × (v.decision ≡ PolicyDecision.allow))
  unfolding authorize_request engine_policy engine_evaluate
  authorize_request_iff = (
    λ h. evaluate_allow (ensure_decision_sound _ decided _ h),
    λ (v, p, a). rw (p, authorize_request, engine_policy, engine_evaluate, a) refl,
  )

  -- A rule that allows, that matches the normalized request, and whose priority is at least that
  -- of every matching rule; or no matching rule and a mode that allows the request by default.
  abbrev pub IsBacked : Type 0
  IsBacked =
      ((rule : PolicyRule) × Memᴰ rule e.rules
        × (rule.action ≡ PolicyDecision.allow)
        × (rule_matches glob rule (normalized_request e q) ≡ ok true)
        × ((other : PolicyRule)
            → Memᴰ other e.rules
            → rule_matches glob other (normalized_request e q) ≡ ok true
            → other.priority ≤ℤ rule.priority))
      ⊎ ((matching_rules glob 0 e.rules (normalized_request e q) ≡ ok [])
          × (mode_decision e.mode e.network_access (normalized_request e q) ≡ PolicyDecision.allow))

  -- If no rule of the engine has the least `i32` as its priority, an allowed request is backed: by
  -- a matching allow rule of top priority, or by the default of the mode where no rule matches.
  pub allowed-IsBacked :
      All (λ r. r.priority ≢ i32_min) e.rules
      → (engine_evaluate glob e q).decision ≡ PolicyDecision.allow
      → IsBacked
  unfolding default_evaluation normalized_request
  allowed-IsBacked bounded =
      by_outcome (λ x. x ≡ PolicyDecision.allow → IsBacked) (λ x. absurd (cc))
        λ matches _ _ c h. elim (judge-allow_cases e normalized _ matches h) [
          | inr (none_left, d) ↦ inr (c ∙ ap ok none_left, d)
          | inl (m, n, a, top) ↦
              let (listed, hit) = matching_rules_sound glob e 0 e.rules normalized m c n in
              inl (
                m.1,
                listed,
                a,
                hit,
                λ o l k.
                    let (j, n') = mem-matching_rules glob e 0 e.rules normalized o c k l in
                    (top (j, o) n' (All-mem _ e.rules bounded listed)
                      (All-mem _ e.rules bounded l)).not_lower,
              )
        ]
