-- ===== src/Context/Candidates/Laws.antt =====
-- What a context that is built contains, and how many messages and results it is built from.
use cogito_ai.Prelude.{
  ℕ, suc, ◌-◌, ◌^◌, ◌≡◌, ◌≤◌, ◌<◌, refl, ap, subst, Option, List, [], ◌∷◌, map, drop, length,
  length-drop, length-append, reverse, sort_by, arith,
}
use mathlib.Core.List.{reverse-cons}
use cogito_ai.Prelude.Results.{ok, bind_ok, ok_injective}
use cogito_ai.Session.Replay.{ConversationMessage}
use cogito_ai.Context.Budget.{ContextBudget, ContextBudgetManager, reserved_budget}
use cogito_ai.Context.Budget.Laws.{reserved_budget_ok}
use cogito_ai.Context.Input.{ToolContextResult, ContextInput}
use cogito_ai.Context.Items.{candidate_le}
use cogito_ai.Context.Items.Laws.{included_tokens, AreKept, choose_items-fits, choose_items-AreKept}
use cogito_ai.Context.Candidates.{
  Ranked, message_candidates, conversation_candidates, visible_results, ranked_results,
  tool_candidates, candidates, ContextAssembly, assemble, build,
}

-- What holds of an assembly for an input under a configured limit.
pub record IsWithin (limit : ℕ) (input : ContextInput) (a : ContextAssembly) : Type 0 where
  pub counted : a.estimated_tokens ≡ included_tokens a.items
  pub room : a.estimated_tokens ≤ a.budget.max_working_context_tokens
  pub below : a.budget.max_working_context_tokens ≤ limit
  pub kept :
      AreKept (map (λ (_, _, c). c) (sort_by candidate_le (candidates a.budget input))) a.items

assemble-IsWithin :
    (limit : ℕ) (b : ContextBudget) (input : ContextInput)
    → limit < 2 ^ 30
    → b.max_working_context_tokens ≤ limit
    → IsWithin limit input (assemble b input)
unfolding assemble
assemble-IsWithin limit b input h k =
    let (counted, room) = choose_items-fits b (candidates b input) (omega arith) in
    record {
      counted = counted;
      room = room;
      below = k;
      kept = choose_items-AreKept b (candidates b input) (omega arith);
    }

-- With a configured limit below 2^30 tokens, a context that is built counts the tokens of its
-- included items, which stay within its budget and so within the limit, and has an item for every
-- candidate of the input, in the order of priority and recency, included if it is required.
pub build-IsWithin :
    (manager : ContextBudgetManager) (input : ContextInput) (window : Option ℕ) (reserved : ℕ)
    {a : ContextAssembly}
    → manager.base.max_working_context_tokens < 2 ^ 30
    → build manager input window reserved ≡ ok a
    → IsWithin manager.base.max_working_context_tokens input a
unfolding build
build-IsWithin manager input window reserved {a} h k =
    let (b, r, made) = bind_ok (reserved_budget manager window reserved) _ k in
    let (_, below, _) = reserved_budget_ok manager window reserved r in
    subst (λ (x : ContextAssembly). IsWithin manager.base.max_working_context_tokens input x)
      (ok_injective made)
      (assemble-IsWithin manager.base.max_working_context_tokens b input h below)

length-reverse : (l : List Ranked) → length (reverse l) ≡ length l
length-reverse [] = refl
length-reverse (x ∷ l) =
    rw (reverse-cons x l, length-append (reverse l) (x ∷ []), length-reverse l) (omega arith)

length-message_candidates :
    (total n : ℕ) (ms : List ConversationMessage)
    → length (message_candidates total n ms) ≡ length ms
unfolding message_candidates
length-message_candidates total n [] = refl
length-message_candidates total n (m ∷ ms) = ap suc (length-message_candidates total (suc n) ms)

length-ranked_results :
    (b : ContextBudget) (total n : ℕ) (rs : List (ℕ × ToolContextResult))
    → length (ranked_results b total n rs) ≡ length rs
unfolding ranked_results
length-ranked_results b total n [] = refl
length-ranked_results b total n ((i, r) ∷ rs) = ap suc (length-ranked_results b total (suc n) rs)

-- At most 8 messages and at most 24 tool results are candidates.
pub length-candidates-le :
    (b : ContextBudget) (input : ContextInput)
    → (length (conversation_candidates input.conversation) ≤ 8)
      × (length (tool_candidates b input.tool_results) ≤ 24)
unfolding conversation_candidates tool_candidates
length-candidates-le b input =
    let messages = input.conversation in
    let start = length messages - 8 in
    let visible = visible_results 0 input.tool_results in
    let first = length visible - 24 in
    let chosen = ranked_results b (length visible) first (drop first visible) in
    (
      omega (
        arith,
        length-message_candidates (length messages) start (drop start messages),
        length-drop start messages,
      ),
      omega (
        arith,
        length-reverse chosen,
        length-ranked_results b (length visible) first (drop first visible),
        length-drop first visible,
      ),
    )
