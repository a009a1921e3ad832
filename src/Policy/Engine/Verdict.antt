-- ===== src/Policy/Engine/Verdict.antt =====
-- What the evaluation of a request guarantees, whatever the rules and the glob matcher are.
use cogito_ai.Prelude.{
  ℕ, suc, Bool, true, false, ◌≡◌, ◌≢◌, refl, sym, ap, Option, none, some, List, [], ◌∷◌, arith, any,
  find-none, if◌then◌else◌, Bool-cases, Option-cases, Memᴰ, inl, inr,
}
use mathlib.Core.List.Memᴰ
use cogito_ai.Prelude.Results.{ok, bind_ok, ok_injective, Result-cases}
use cogito_ai.Policy.Paths.{PathBuf}
use cogito_ai.Policy.Risks.{risk_categories, has_risk}
use cogito_ai.Policy.Rules.{Matcher, matching_rules, rule_matches}
use cogito_ai.Policy.Engine.{
  is_read_or_search, is_sensitive, normalized_request, path_denial, judge, evaluate_request,
}
use cogito_ai.Policy.Access.{engine_evaluate}
use cogito_ai.Policy.Types.{
  RiskCategory, outside_workspace, NetworkAccess, PolicyDecision, is_deny, ExecutionMode, read_only,
  PolicyRequest, PolicyEvaluation, PolicyRule, PolicyEngine,
}

module _ (glob : Matcher) (e : PolicyEngine) where
  -- The mode that a request carries has no influence.
  pub evaluate_request-mode :
      (q : PolicyRequest) (m : ExecutionMode)
      → evaluate_request glob e (record q { mode = m }) ≡ evaluate_request glob e q
  unfolding evaluate_request normalized_request
  evaluate_request-mode q m = refl

  -- A successful collection, taken apart at its first rule.
  pub matching_rules-cons :
      (i : ℕ) (r : PolicyRule) (rs : List PolicyRule) (q : PolicyRequest)
      {matches : List (ℕ × PolicyRule)}
      → matching_rules glob i (r ∷ rs) q ≡ ok matches
      → (b : Bool) × (rest : List (ℕ × PolicyRule)) × (rule_matches glob r q ≡ ok b)
        × (matching_rules glob (suc i) rs q ≡ ok rest)
        × ((if b then (i, r) ∷ rest else rest) ≡ matches)
  unfolding matching_rules
  matching_rules-cons i r rs q h =
      let (b, p, h') = bind_ok (rule_matches glob r q) _ h in
      let (rest, p', h'') = bind_ok (matching_rules glob (suc i) rs q) _ h' in
      (b, rest, p, p', ok_injective h'')

  -- Every rule that matches is collected, and only such rules of the engine are.
  pub mem-matching_rules :
      (i : ℕ) (rules : List PolicyRule) (q : PolicyRequest) (rule : PolicyRule)
      {matches : List (ℕ × PolicyRule)}
      → matching_rules glob i rules q ≡ ok matches
      → rule_matches glob rule q ≡ ok true
      → Memᴰ rule rules
      → (j : ℕ) × Memᴰ (j, rule) matches
  mem-matching_rules i [] q rule h k m = elim m [ ]
  mem-matching_rules i (r ∷ rs) q rule h k (Memᴰ.head p) =
      let (b, rest, hit, tail, e) = matching_rules-cons i r rs q h in
      let on : b ≡ true = ground (arith, ap (λ (x : PolicyRule). rule_matches glob x q) p) in
      (i, rw (← e, on) (Memᴰ.head (ap (λ (x : PolicyRule). (i, x)) p)))
  mem-matching_rules i (r ∷ rs) q rule h k (Memᴰ.tail m) =
      let (b, rest, hit, tail, e) = matching_rules-cons i r rs q h in
      let (j, n) = mem-matching_rules (suc i) rs q rule tail k m in (j, rw (← e) (keep b (i, r) n))
    where
      keep :
          (b : Bool) (y : ℕ × PolicyRule) {x : ℕ × PolicyRule} {l : List (ℕ × PolicyRule)}
          → Memᴰ x l
          → Memᴰ x (if b then y ∷ l else l)
      keep true y n = Memᴰ.tail n
      keep false y n = n

  -- Only rules that match are collected.
  pub matching_rules_sound :
      (i : ℕ) (rules : List PolicyRule) (q : PolicyRequest) (m : ℕ × PolicyRule)
      {matches : List (ℕ × PolicyRule)}
      → matching_rules glob i rules q ≡ ok matches
      → Memᴰ m matches
      → Memᴰ m.1 rules × (rule_matches glob m.1 q ≡ ok true)
  unfolding matching_rules
  matching_rules_sound i [] q m h n = absurd (Memᴰ.not-nil (rw (← ok_injective h) at n))
  matching_rules_sound i (r ∷ rs) q m h n =
      let (b, rest, hit, tail, e) = matching_rules-cons i r rs q h in
      split b rest hit (λ t. matching_rules_sound (suc i) rs q m tail t) (rw (← e) at n)
    where
      split :
          (b : Bool) (rest : List (ℕ × PolicyRule))
          → rule_matches glob r q ≡ ok b
          → (Memᴰ m rest → Memᴰ m.1 rs × (rule_matches glob m.1 q ≡ ok true))
          → Memᴰ m (if b then (i, r) ∷ rest else rest)
          → Memᴰ m.1 (r ∷ rs) × (rule_matches glob m.1 q ≡ ok true)
      split false rest hit go t = let (a, c) = go t in (Memᴰ.tail a, c)
      split true rest hit go (Memᴰ.head p) =
          (Memᴰ.head (ap (λ (x : ℕ × PolicyRule). x.1) p), rw p hit)
      split true rest hit go (Memᴰ.tail t) = let (a, c) = go t in (Memᴰ.tail a, c)

  -- How an evaluation that succeeds came about.
  pub data Outcome (q : PolicyRequest) (v : PolicyEvaluation) : Type 0 where
    denied : v.decision ≡ PolicyDecision.deny → Outcome q v
    judged :
        (matches : List (ℕ × PolicyRule))
        → path_denial q.path q.workspace_root ≡ none
        → has_risk (risk_categories q) outside_workspace ≡ false
        → matching_rules glob 0 e.rules q ≡ ok matches
        → v ≡ judge e q (risk_categories q) matches
        → Outcome q v

  path_denial-deny :
      (path : Option PathBuf) (root : PathBuf) {v : PolicyEvaluation}
      → path_denial path root ≡ some v
      → v.decision ≡ PolicyDecision.deny
  unfolding path_denial
  path_denial-deny none root h = absurd (ground arith)
  path_denial-deny (some p) root h = ground arith

  pub Outcome-of :
      (q : PolicyRequest) {v : PolicyEvaluation}
      → evaluate_request glob e q ≡ ok v
      → Outcome (normalized_request e q) v
  unfolding evaluate_request
  Outcome-of q h =
      let q' = normalized_request e q in
      elim (Option-cases (path_denial q'.path q'.workspace_root)) [
        | inr (v, p) ↦ denied (
            rw (← ok_injective (rw (p, evaluate_request) at h))
              (path_denial-deny q'.path q'.workspace_root p))
        | inl p ↦ elim (Bool-cases (has_risk (risk_categories q') outside_workspace)) [
          | inl r ↦ denied (
              ap (λ (v : PolicyEvaluation). v.decision)
                (sym (ok_injective (rw (p, r, evaluate_request) at h))))
          | inr r ↦
              let (matches, m, f) =
                bind_ok (matching_rules glob 0 e.rules q') _ (rw (p, r, evaluate_request) at h) in
              judged matches p r m (sym (ok_injective f))
        ]
      ]

  -- An evaluation that fails is a denial.
  pub engine_evaluate-Outcome :
      (q : PolicyRequest) → Outcome (normalized_request e q) (engine_evaluate glob e q)
  unfolding engine_evaluate
  engine_evaluate-Outcome q = elim (Result-cases (evaluate_request glob e q)) [
    | inl (x, p) ↦ denied (rw (p, engine_evaluate))
    | inr (v, p) ↦ rw (p, engine_evaluate) (Outcome-of q p)
  ]

  pub judge-deny_rule :
      (q : PolicyRequest) (risks : List RiskCategory) (matches : List (ℕ × PolicyRule))
      {m : ℕ × PolicyRule}
      → Memᴰ m matches
      → m.1.action ≡ PolicyDecision.deny
      → (judge e q risks matches).decision ≡ PolicyDecision.deny
  unfolding judge is_deny
  judge-deny_rule q risks matches {m} n d =
      ground (arith, find-none (λ (x : ℕ × PolicyRule). is_deny x.1.action) matches {x = m})

  pub judge-read_only :
      (q : PolicyRequest) (risks : List RiskCategory) (matches : List (ℕ × PolicyRule))
      → q.mode ≡ read_only
      → is_read_or_search q.operation ≡ false
      → (judge e q risks matches).decision ≡ PolicyDecision.deny
  unfolding judge
  judge-read_only q risks matches m o = ground arith

  pub judge-sensitive :
      (q : PolicyRequest) (risks : List RiskCategory) (matches : List (ℕ × PolicyRule))
      → any is_sensitive risks ≡ true
      → (judge e q risks matches).decision ≢ PolicyDecision.allow
  unfolding judge
  judge-sensitive q risks matches s = ground arith

  pub judge-network :
      (q : PolicyRequest) (risks : List RiskCategory) (matches : List (ℕ × PolicyRule))
      → has_risk risks RiskCategory.network ≡ true
      → (judge e q risks matches).decision ≡ PolicyDecision.allow
      → e.network_access ≡ NetworkAccess.allow
  unfolding judge
  judge-network q risks matches n = ground arith
