-- ===== src/Context/Budget/Laws.antt =====
-- What a working budget keeps of the configured one.
use cogito_ai.Prelude.{ℕ, ◌+◌, ◌-◌, ◌*◌, ◌^◌, ◌≤◌, ◌<◌, ◌≡◌, ap, max, Option, none, some, arith}
use cogito_ai.Prelude.Results.{ok, bind_ok, ok_injective}
use cogito_ai.Context.Budget.{
  ContextBudget, ContextBudgetManager, saturating_mul_u32, budget_for_context_window, validate,
  reserved_budget,
}

-- With the fraction of 75 percent, a known window of less than 2^32 tokens leaves a quarter of it
-- free, except that a token is always allowed; the configured limit is never exceeded.
pub budget_for_context_window-le :
    (manager : ContextBudgetManager) (window : ℕ)
    → manager.context_fraction_percent ≡ 75
    → window < 2 ^ 32
    → ((budget_for_context_window manager (some window)).max_working_context_tokens * 100
        ≤ max (window * 75) 100)
      × ((budget_for_context_window manager (some window)).max_working_context_tokens
          ≤ manager.base.max_working_context_tokens)
unfolding budget_for_context_window saturating_mul_u32
budget_for_context_window-le manager window p h = rw p (omega arith, omega arith)

validate_ok :
    (budget : ContextBudget) {u : Unit {0}}
    → validate budget ≡ ok u
    → 0 < budget.max_working_context_tokens
unfolding validate
validate_ok budget h = ground arith

-- The working budget of a request, if there is one, is at least one token and at most the configured
-- limit, and with the reserved tokens it stays within that limit, except that a token is always
-- allowed.
pub reserved_budget_ok :
    (manager : ContextBudgetManager) (window : Option ℕ) (reserved : ℕ) {b : ContextBudget}
    → reserved_budget manager window reserved ≡ ok b
    → (0 < b.max_working_context_tokens)
      × (b.max_working_context_tokens ≤ manager.base.max_working_context_tokens)
      × (b.max_working_context_tokens + reserved
          ≤ max (manager.base.max_working_context_tokens) (1 + reserved))
unfolding reserved_budget budget_for_context_window
reserved_budget_ok manager window reserved {b} h =
    let start = budget_for_context_window manager window in
    let (_, v, h1) = bind_ok (validate start) _ h in
    let (_, _, h2) =
      bind_ok
        (validate (record start {
          max_working_context_tokens = max (start.max_working_context_tokens - reserved) 1;
        }))
        _ h1 in
    let same = ap (λ (x : ContextBudget). x.max_working_context_tokens) (ok_injective h2) in
    let positive = validate_ok start v in
    let below = at_most window in
    (
      omega (arith, same),
      omega (arith, same, positive, below),
      omega (arith, same, positive, below),
    )
  where
    at_most :
        (w : Option ℕ)
        → (budget_for_context_window manager w).max_working_context_tokens
          ≤ manager.base.max_working_context_tokens
    at_most none = omega arith
    at_most (some n) = omega arith
