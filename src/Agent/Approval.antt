-- ===== src/Agent/Approval.antt =====
-- One-shot approvals on top of a policy, of crates/harness-agent/src/lib.rs. The set of approved keys
-- is a list without repetitions; the mutex around it is held for one operation at a time.
pub mod Laws
use cogito_ai.Prelude.{Bool, true, false, not, ◌&&◌, List, [], ◌∷◌, any, filter, if◌then◌else◌}
use cogito_ai.Prelude.Text.{Text, text, text_eq}
use cogito_ai.Policy.Types.{PolicyDecision, PolicyRequest, PolicyEvaluation, evaluation}
use cogito_ai.Policy.Access.{Policy}

-- `HashSet::contains`, `insert` and `remove`.
abbrev pub has_key : Text → List Text → Bool
has_key key approved = any (text_eq key) approved

unfoldable pub insert_key : List Text → Text → List Text
insert_key approved key = if has_key key approved then approved else key ∷ approved

unfoldable pub remove_key : Text → List Text → List Text
remove_key key approved = filter (λ k. not (text_eq key k)) approved

abbrev pub is_ask : PolicyDecision → Bool
is_ask PolicyDecision.ask = true
is_ask _ = false

unfoldable pub approval : PolicyEvaluation
approval =
    evaluation PolicyDecision.allow (text "user-approval")
      (text "the user approved this exact action once")

-- `serde_json::to_string` of a request, which `approval_key_from_request` calls.
module _ (request_json : PolicyRequest → Text) where
  unfoldable pub approval_key_from_request : PolicyRequest → Text
  approval_key_from_request q = request_json q

  -- `ApprovedPolicy::evaluate`: the result, and the approvals that are left.
  unfoldable pub approved_evaluate :
      Policy → List Text → PolicyRequest → PolicyEvaluation × List Text
  unfolding approval_key_from_request
  approved_evaluate base approved q =
      let result = base.evaluate q in
      let key = approval_key_from_request q in
      if is_ask result.decision && has_key key approved
      then (approval, remove_key key approved)
      else (result, approved)

  -- What an approval by the user adds: the keys of all requests of a tool call.
  unfoldable pub grant : List Text → List PolicyRequest → List Text
  unfolding insert_key approval_key_from_request
  grant approved [] = approved
  grant approved (q ∷ requests) = grant (insert_key approved (approval_key_from_request q)) requests
