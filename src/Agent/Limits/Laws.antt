-- ===== src/Agent/Limits/Laws.antt =====
-- When a run is within its limits, and the state that is recorded when it is not.
use cogito_ai.Prelude.{ℕ, ◌≤◌, ◌<◌, ◌≡◌, ◌↔◌, refl, Bool, true, false, Option, none, some, arith}
use cogito_ai.Prelude.Text.{Text}
use cogito_ai.Prelude.Results.{ok}
use cogito_ai.Session.Tasks.{TaskRun}
use cogito_ai.Agent.Limits.{AgentLimits, Spent, exceeds_cost, exceeded_limit, stopped, check_limits}

-- No limit is exceeded: those on tokens and on time count unless they are zero, and the one on the
-- cost counts when it is set and the cost is known.
pub record IsWithin (limits : AgentLimits) (spent : Spent) : Type 0 where
  pub turns_fit : spent.turns ≤ limits.max_turns
  pub calls_fit : spent.tool_calls ≤ limits.max_tool_calls
  pub tokens_fit : 0 < limits.max_model_tokens → spent.model_tokens ≤ limits.max_model_tokens
  pub time_fits : 0 < limits.max_runtime → spent.elapsed ≤ limits.max_runtime
  pub cost_fits :
      (limit cost : ℕ)
      → limits.max_estimated_cost_microusd ≡ some limit
      → spent.estimated_cost_microusd ≡ some cost
      → cost ≤ limit

cost_lem :
    (limit cost : Option ℕ)
    → exceeds_cost limit cost ≡ false
    → (l c : ℕ) → limit ≡ some l
    → cost ≡ some c
    → c ≤ l
unfolding exceeds_cost
cost_lem none cost h l c p q = absurd (ground arith)
cost_lem (some x) none h l c p q = absurd (ground arith)
cost_lem (some x) (some y) h l c p q = ground arith

cost_lem_back :
    (limit cost : Option ℕ)
    → ((l c : ℕ) → limit ≡ some l → cost ≡ some c → c ≤ l)
    → exceeds_cost limit cost ≡ false
unfolding exceeds_cost
cost_lem_back none cost h = refl
cost_lem_back (some x) none h = refl
cost_lem_back (some x) (some y) h = ground (arith, h x y refl refl)

within :
    (limits : AgentLimits) (spent : Spent)
    → exceeded_limit limits spent ≡ none
    → IsWithin limits spent
unfolding exceeded_limit
within limits spent h =
    let cost : exceeds_cost limits.max_estimated_cost_microusd spent.estimated_cost_microusd
        ≡ false =
      ground arith in
    record {
      turns_fit = ground arith;
      calls_fit = ground arith;
      tokens_fit = λ p. ground arith;
      time_fits = λ p. ground arith;
      cost_fits = cost_lem limits.max_estimated_cost_microusd spent.estimated_cost_microusd cost;
    }

within_back :
    (limits : AgentLimits) (spent : Spent)
    → IsWithin limits spent
    → exceeded_limit limits spent ≡ none
unfolding exceeded_limit
within_back limits spent h =
    let cost =
      cost_lem_back limits.max_estimated_cost_microusd spent.estimated_cost_microusd h.cost_fits in
    ground (arith, cost, h.turns_fit, h.calls_fit, h.tokens_fit, h.time_fits)

-- The check of the limits passes exactly if the run is not cancelled and no limit is exceeded.
pub check_limits_iff :
    (limits : AgentLimits) (stop : Bool) (spent : Spent) (run : TaskRun)
    → (check_limits limits stop spent run ≡ ok tt) ↔ ((stop ≡ false) × IsWithin limits spent)
unfolding check_limits
check_limits_iff limits true spent run = (λ h. absurd (ground arith), λ h. absurd (ground arith))
check_limits_iff limits false spent run = (
  λ h. (refl, within limits spent (passed (exceeded_limit limits spent) h)),
  λ h. rw (check_limits, within_back limits spent h.1) refl,
)
  where
    passed : (o : Option Text) → stopped run o ≡ ok tt → o ≡ none
    passed none h = refl
    passed (some limit) h = absurd (ground arith)
