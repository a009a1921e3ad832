-- ===== src/Context/Budget.antt =====
-- `ContextBudget` and `ContextBudgetManager` of crates/harness-context/src/lib.rs. `usize` has 64
-- bits; the arithmetic on `u32` is written out.
pub mod Laws
use cogito_ai.Prelude.{
  ℕ, ◌+◌, ◌-◌, ◌*◌, ◌/◌, ◌%◌, ◌^◌, min, max, ◌==◌, Bool, Option, none, some, if◌then◌else◌,
}
use cogito_ai.Prelude.Text.{Text, text, len}
use cogito_ai.Prelude.Results.{Result, ok, err, ◌>>=◌}
use cogito_ai.Core.Errors.{Error, invalid_config}

pub record ContextBudget : Type 0 where
  pub max_individual_file_bytes : ℕ
  pub max_tool_result_bytes : ℕ
  pub max_shell_output_bytes : ℕ
  pub max_git_diff_bytes : ℕ
  pub max_compaction_summary_bytes : ℕ
  pub max_working_context_tokens : ℕ

unfoldable pub default_budget : ContextBudget
default_budget = record {
  max_individual_file_bytes = 256 * 1024;
  max_tool_result_bytes = 64 * 1024;
  max_shell_output_bytes = 16 * 1024;
  max_git_diff_bytes = 12 * 1024;
  max_compaction_summary_bytes = 8 * 1024;
  max_working_context_tokens = 32 * 1024;
}

pub record ContextBudgetManager : Type 0 where
  pub base : ContextBudget
  pub context_fraction_percent : ℕ

unfoldable pub new_manager : ContextBudget → ContextBudgetManager
new_manager base = record { base = base; context_fraction_percent = 75 }

-- `u32::saturating_mul`, `u32::saturating_add` and the wrapping `+` of a release build.
unfoldable pub saturating_mul_u32 : ℕ → ℕ → ℕ
saturating_mul_u32 a b = min (a * b) (2 ^ 32 - 1)

unfoldable pub saturating_add_u32 : ℕ → ℕ → ℕ
saturating_add_u32 a b = min (a + b) (2 ^ 32 - 1)

unfoldable pub wrapping_add_u32 : ℕ → ℕ → ℕ
wrapping_add_u32 a b = (a + b) % 2 ^ 32

unfoldable pub budget_for_context_window : ContextBudgetManager → Option ℕ → ContextBudget
unfolding saturating_mul_u32
budget_for_context_window manager none = manager.base
budget_for_context_window manager (some window) =
    let model_budget = max (saturating_mul_u32 window manager.context_fraction_percent / 100) 1 in
    record (manager.base) {
      max_working_context_tokens = min manager.base.max_working_context_tokens model_budget;
    }

unfoldable pub validate : ContextBudget → Result Error (Unit {0})
validate budget =
    if budget.max_working_context_tokens == 0
    then err (invalid_config (text "max_working_context_tokens must be greater than zero"))
    else ok tt

-- The budget that `build_for_context_window_reserving` works with.
unfoldable pub reserved_budget : ContextBudgetManager → Option ℕ → ℕ → Result Error ContextBudget
reserved_budget manager window reserved = do
  let budget = budget_for_context_window manager window
  valid ← validate budget
  let less = record budget {
    max_working_context_tokens = max (budget.max_working_context_tokens - reserved) 1;
  }
  still_valid ← validate less
  ok less

unfoldable pub estimate_tokens : Text → ℕ
estimate_tokens value = min (len value + 3) (2 ^ 64 - 1) % 2 ^ 32 / 4
