-- ===== src/Context/Items.antt =====
-- The choice of the items of a context under the token budget: `add_item`, the loop over the
-- candidates, and `render_prompt` of crates/harness-context/src/lib.rs.
pub mod Laws
use cogito_ai.Prelude.{
  ℕ, ◌+◌, ◌-◌, Bool, true, false, not, ◌||◌, Option, none, some, List, [], ◌∷◌, ◌++◌, map, filter,
  length, ltb, leb, ◌==◌, ◌&&◌, sort_by, if◌then◌else◌,
}
use cogito_ai.Prelude.Text.{Text, text, len, join}
use cogito_ai.Session.Compact.{is_empty}
use cogito_ai.Context.Budget.{
  ContextBudget, estimate_tokens, wrapping_add_u32, saturating_add_u32, saturating_mul_u32,
}
use cogito_ai.Context.Truncate.{truncate_bytes, summarize_shell_output}

pub data ContextCategory : Type 0 where
  system workspace instruction git git_diff user_request conversation file tool_result
        compaction_summary :
      ContextCategory

pub data ContextReason : Type 0 where
  required : ContextReason
  workspace_metadata : ContextReason
  project_instruction : (precedence : ℕ) → ContextReason
  git_state : ContextReason
  current_user_request : ContextReason
  recent_conversation : ContextReason
  explicitly_selected_file : ContextReason
  relevant_tool_result : ContextReason
  compaction_summary : ContextReason

pub data ContextLimit : Type 0 where
  file_size tool_result_size shell_output_size git_diff_size compaction_summary_size
        working_budget :
      ContextLimit

pub record ContextItem : Type 0 where
  pub id : Text
  pub category : ContextCategory
  pub source : Text
  pub reason : ContextReason
  pub content : Text
  pub original_bytes : ℕ
  pub estimated_tokens : ℕ
  pub included : Bool
  pub truncated : Bool
  pub limits : List ContextLimit

pub record Candidate : Type 0 where
  pub id : Text
  pub category : ContextCategory
  pub source : Text
  pub reason : ContextReason
  pub content : Text
  pub is_required : Bool
  pub limit : Option ContextLimit

-- The content, whether it was cut, and the limits that cut it.
abbrev pub Cut : Type 0
Cut = Text × Bool × List ContextLimit

abbrev cut_above : ℕ → ContextLimit → Text → Text → Cut
cut_above max_bytes limit content shorter =
    if ltb max_bytes (len content) then (shorter, true, limit ∷ []) else (content, false, [])

-- The `match` on the limit of the candidate.
unfoldable pub limit_content : ContextBudget → Option ContextLimit → Text → Cut
limit_content b (some file_size) content =
    cut_above b.max_individual_file_bytes file_size content
      (truncate_bytes content b.max_individual_file_bytes)
limit_content b (some tool_result_size) content =
    cut_above b.max_tool_result_bytes tool_result_size content
      (truncate_bytes content b.max_tool_result_bytes)
limit_content b (some shell_output_size) content =
    cut_above b.max_shell_output_bytes shell_output_size content
      (summarize_shell_output content b.max_shell_output_bytes)
limit_content b (some git_diff_size) content =
    cut_above b.max_git_diff_bytes git_diff_size content
      (truncate_bytes content b.max_git_diff_bytes)
limit_content b (some compaction_summary_size) content =
    cut_above b.max_compaction_summary_bytes compaction_summary_size content
      (truncate_bytes content b.max_compaction_summary_bytes)
limit_content b _ content = (content, false, [])

unfoldable pub item_of : Candidate → Text → ℕ → Bool → Bool → List ContextLimit → ContextItem
item_of c content tokens included truncated limits = record {
  id = c.id;
  category = c.category;
  source = c.source;
  reason = c.reason;
  content = content;
  original_bytes = len c.content;
  estimated_tokens = tokens;
  included = included;
  truncated = truncated;
  limits = limits;
}

-- A required candidate that does not fit is cut to the bytes that are left.
unfoldable pub required_item :
    ContextBudget → Candidate → Text → List ContextLimit → ℕ → List ContextItem × ℕ
required_item b c content limits used =
    let left = saturating_mul_u32 (b.max_working_context_tokens - used) 4 in
    let shorter = truncate_bytes content left in
    let tokens = estimate_tokens shorter in
    if ltb 0 tokens || is_empty shorter
    then (
      item_of c shorter tokens true true (limits ++ working_budget ∷ []) ∷ [],
      saturating_add_u32 used tokens,
    )
    else ([], used)

-- The content would go over the budget.
unfoldable pub overfull_item :
    ContextBudget → Candidate → Text → List ContextLimit → ℕ → Bool → List ContextItem × ℕ
overfull_item b c content limits used true = required_item b c content limits used
overfull_item b c content limits used false =
    (item_of c [] (estimate_tokens content) false false (working_budget ∷ []) ∷ [], used)

-- The items that a candidate adds, and the tokens used with them.
unfoldable pub next_item : ContextBudget → Candidate → ℕ → List ContextItem × ℕ
next_item b c used =
    let (content, truncated, limits) = limit_content b c.limit c.content in
    let tokens = estimate_tokens content in
    if ltb b.max_working_context_tokens (wrapping_add_u32 used tokens)
    then overfull_item b c content limits used c.is_required
    else (item_of c content tokens true truncated limits ∷ [], wrapping_add_u32 used tokens)

unfoldable pub add_item : ContextBudget → Candidate → List ContextItem × ℕ → List ContextItem × ℕ
add_item b c (items, used) = let (added, used') = next_item b c used in (items ++ added, used')

-- The loop over the sorted candidates.
unfoldable pub add_items :
    ContextBudget → List Candidate → List ContextItem × ℕ → List ContextItem × ℕ
add_items b [] state = state
add_items b (c ∷ cs) state = add_items b cs (add_item b c state)

-- `sort_by_key(|(priority, recency, _)| (*priority, *recency))`
abbrev pub candidate_le : ℕ × ℕ × Candidate → ℕ × ℕ × Candidate → Bool
candidate_le (p, r, _) (q, s, _) = ltb p q || (p == q && leb r s)

unfoldable pub choose_items : ContextBudget → List (ℕ × ℕ × Candidate) → List ContextItem × ℕ
choose_items b candidates =
    add_items b (map (λ (_, _, c). c) (sort_by candidate_le candidates)) ([], 0)

-- `items.iter().filter(|item| !item.included).count()`
unfoldable pub excluded_items : List ContextItem → ℕ
excluded_items items = length (filter (λ i. not i.included) items)

unfoldable pub heading : ContextCategory → Text
heading system = text "System instructions"
heading workspace = text "Workspace metadata"
heading instruction = text "Project instructions"
heading git = text "Git status"
heading git_diff = text "Current Git diff"
heading user_request = text "User request"
heading conversation = text "Recent conversation"
heading file = text "Selected files"
heading tool_result = text "Relevant tool results"
heading compaction_summary = text "Compacted working state"

unfoldable pub render_prompt : List ContextItem → Text
render_prompt items = join (text "\n\n") (
    map
      (λ i.
        text "## "
        ++ (heading i.category ++ (text "\nSource: " ++ (i.source ++ (text "\n" ++ i.content)))))
      (filter (λ i. i.included) items))
