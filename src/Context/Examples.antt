-- ===== src/Context/Examples.antt =====
-- A small context: a required item, one that does not fit, and one that is cut.
use cogito_ai.Prelude.{
  ℕ, ◌+◌, ◌≤◌, ◌<◌, ◌≡◌, refl, max, Bool, true, false, none, some, List, [], ◌∷◌, map, sort_by,
  arith,
}
use cogito_ai.Prelude.Text.{Text, text, len, slice_to, is_char_boundary, starts_with, utf8_width}
use cogito_ai.Session.Compact.{is_empty}
use cogito_ai.Context.Budget.{
  ContextBudget, ContextBudgetManager, default_budget, new_manager, saturating_mul_u32,
  saturating_add_u32, wrapping_add_u32, budget_for_context_window, validate, reserved_budget,
  estimate_tokens,
}
use cogito_ai.Context.Budget.Laws.{reserved_budget_ok}
use cogito_ai.Context.Truncate.{floor_boundary, marker, truncate_bytes}
use cogito_ai.Context.Items.{
  ContextCategory, ContextReason, ContextItem, Candidate, limit_content, item_of, required_item,
  overfull_item, next_item, add_item, add_items, choose_items, excluded_items,
}
use cogito_ai.Context.Items.Laws.{included_tokens}
use cogito_ai.Prelude.Results.{ok}
use cogito_ai.Session.Replay.{assistant}
use cogito_ai.Context.Input.{ContextInput}
use cogito_ai.Context.Candidates.{assemble, build}
use cogito_ai.Context.Candidates.Laws.{IsWithin, build-IsWithin}

opened : Unit {0}
unfolding text len slice_to is_char_boundary starts_with is_empty default_budget new_manager
    saturating_mul_u32 saturating_add_u32 wrapping_add_u32 budget_for_context_window validate
    reserved_budget estimate_tokens floor_boundary truncate_bytes limit_content item_of
    required_item overfull_item next_item add_item add_items choose_items excluded_items
    included_tokens sort_by utf8_width
opened = tt

abbrev manager : ContextBudgetManager
manager = new_manager (record default_budget { max_working_context_tokens = 5 })

abbrev five : ContextBudget
five = record {
  max_individual_file_bytes = 16;
  max_tool_result_bytes = 16;
  max_shell_output_bytes = 16;
  max_git_diff_bytes = 16;
  max_compaction_summary_bytes = 16;
  max_working_context_tokens = 5;
}

abbrev candidate : Text → Bool → Candidate
candidate content is_required = record {
  id = content;
  category = ContextCategory.user_request;
  source = text "conversation";
  reason = ContextReason.required;
  content = content;
  is_required = is_required;
  limit = none;
}

abbrev offered : List (ℕ × ℕ × Candidate)
offered =
    (3, 1, candidate (text "an old message that is long") false)
    ∷ (0, 1, candidate (text "fix the failing test now") true)
    ∷ (0, 0, candidate (text "be brief") true)
    ∷ []

tokens_used : (choose_items five offered).1 ≡ 5
unfolding opened
tokens_used = refl

chosen :
    map (λ (i : ContextItem). i.content) (choose_items five offered).0
    ≡ text "be brief" ∷ text "fix the fail" ∷ [] ∷ []
unfolding opened
chosen = refl

-- A character of two bytes does not fit into the one that is left.
cut_text : truncate_bytes (text "aé and more text") 14 ≡ 97 ∷ marker
unfolding opened
cut_text = refl

abbrev two_left : ContextBudget
two_left = record five { max_working_context_tokens = 2 }

reserved_budget_ok_example :
    (0 < two_left.max_working_context_tokens)
    × (two_left.max_working_context_tokens ≤ 5)
    × (two_left.max_working_context_tokens + 1 ≤ max 5 (1 + 1))
unfolding opened
reserved_budget_ok_example = reserved_budget_ok (new_manager five) (some 4) 1 refl

abbrev small_input : ContextInput
small_input = record {
  system_instructions = text "be brief";
  workspace = record {
    root = none;
    branch = none;
    monorepo = false;
    languages = [];
    manifests = [];
    details = [];
  };
  instructions = [];
  user_request = text "fix the failing test now";
  conversation = record { role = assistant; text = text "what next?" } ∷ [];
  files = [];
  tool_results = [];
  compacted_state = none;
  git_status = none;
  git_diff = some (text "+ one line");
}

abbrev small_budget : ContextBudget
small_budget = record default_budget { max_working_context_tokens = 5 }

built : build manager small_input none 0 ≡ ok (assemble small_budget small_input)
unfolding build default_budget new_manager reserved_budget budget_for_context_window validate
built = refl

build-IsWithin_example : IsWithin 5 small_input (assemble small_budget small_input)
unfolding default_budget new_manager
build-IsWithin_example = build-IsWithin manager small_input none 0 (omega arith) built
