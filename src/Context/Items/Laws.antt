-- ===== src/Context/Items/Laws.antt =====
-- The items of a context fit into the budget, and no candidate is lost without a trace.
use cogito_ai.Prelude.{
  ℕ, ◌+◌, ◌-◌, ◌*◌, ◌%◌, ◌^◌, ◌≤◌, ◌<◌, ◌≡◌, refl, sym, ◌∙◌, min, Bool, true, false, not, ◌||◌,
  List, [], ◌∷◌, ◌++◌, map, ltb, inl, inr, Bool-cases, if◌then◌else◌, append_assoc, append-nil,
  arith, sort_by,
}
use cogito_ai.Prelude.Text.{Text, len}
use cogito_ai.Prelude.Text.Laws.{utf8_width_pos}
use cogito_ai.Session.Compact.{is_empty}
use cogito_ai.Context.Budget.{
  ContextBudget, estimate_tokens, wrapping_add_u32, saturating_add_u32, saturating_mul_u32,
}
use cogito_ai.Context.Truncate.{truncate_bytes, len-truncate_bytes-le}
use cogito_ai.Context.Items.{
  ContextItem, Candidate, ContextLimit, limit_content, item_of, required_item, overfull_item,
  next_item, add_item, add_items, candidate_le, choose_items,
}

-- The tokens of the items that are included.
unfoldable pub included_tokens : List ContextItem → ℕ
included_tokens [] = 0
included_tokens (i ∷ is) = (if i.included then i.estimated_tokens else 0) + included_tokens is

-- One item stands for the candidate, with its identifier, and it is included if the candidate is
-- required; the tokens are counted and fit.
record Placed (b : ContextBudget) (c : Candidate) (used : ℕ) (r : List ContextItem × ℕ)
    : Type 0 where
  item : ContextItem
  one : r.0 ≡ item ∷ []
  named : item.id ≡ c.id
  kept : (not c.is_required || item.included) ≡ true
  counted : r.1 ≡ used + (if item.included then item.estimated_tokens else 0)
  room : r.1 ≤ b.max_working_context_tokens

estimate_tokens-lt : (value : Text) → estimate_tokens value < 2 ^ 30
unfolding estimate_tokens
estimate_tokens-lt value = omega arith

-- A text of at most 4 n bytes has at most n tokens, and none only if it is empty.
estimate_tokens-le :
    (value : Text) (n : ℕ)
    → n < 2 ^ 30
    → len value ≤ 4 * n
    → (estimate_tokens value ≤ n) × ((ltb 0 (estimate_tokens value) || is_empty value) ≡ true)
unfolding estimate_tokens is_empty len
estimate_tokens-le [] n h k = (omega arith, ground arith)
estimate_tokens-le (c ∷ s) n h k =
    (omega (arith, utf8_width_pos c), ground (arith, utf8_width_pos c))

required_item-Placed :
    (b : ContextBudget) (c : Candidate) (content : Text) (limits : List ContextLimit) (used : ℕ)
    → b.max_working_context_tokens < 2 ^ 30
    → used ≤ b.max_working_context_tokens
    → Placed b c used (required_item b c content limits used)
unfolding required_item item_of saturating_mul_u32 saturating_add_u32
required_item-Placed b c content limits used h k =
    let left = min ((b.max_working_context_tokens - used) * 4) (2 ^ 32 - 1) in
    let short = len-truncate_bytes-le content left in
    let (fits, some_left) =
      estimate_tokens-le (truncate_bytes content left) (b.max_working_context_tokens - used)
        (omega arith) (omega (arith, short)) in
    rw (required_item, some_left)
      (record {
        item = _;
        one = refl;
        named = refl;
        kept = ground arith;
        counted = omega (arith, fits);
        room = omega (arith, fits);
      })

overfull_item-Placed :
    (b : ContextBudget) (c : Candidate) (content : Text) (limits : List ContextLimit) (used : ℕ)
    (r : Bool)
    → c.is_required ≡ r
    → b.max_working_context_tokens < 2 ^ 30
    → used ≤ b.max_working_context_tokens
    → Placed b c used (overfull_item b c content limits used r)
unfolding overfull_item item_of
overfull_item-Placed b c content limits used true q h k =
    required_item-Placed b c content limits used h k
overfull_item-Placed b c content limits used false q h k = record {
  item = _;
  one = refl;
  named = refl;
  kept = ground arith;
  counted = omega arith;
  room = k;
}

next_item-Placed :
    (b : ContextBudget) (c : Candidate) (used : ℕ)
    → b.max_working_context_tokens < 2 ^ 30
    → used ≤ b.max_working_context_tokens
    → Placed b c used (next_item b c used)
unfolding next_item item_of wrapping_add_u32
next_item-Placed b c used h k =
    let (content, truncated, limits) = limit_content b c.limit c.content in
    let small = estimate_tokens-lt content in
    elim (Bool-cases
      (ltb b.max_working_context_tokens ((used + estimate_tokens content) % 2 ^ 32))) [
        | inr e ↦
            rw (next_item, e)
              (record {
                item = _;
                one = refl;
                named = refl;
                kept = ground arith;
                counted = omega (arith, small);
                room = ground arith;
              })
        | inl e ↦
            rw (next_item, e) (overfull_item-Placed b c content limits used c.is_required refl h k)
      ]

-- The items stand for the candidates in order, and a required one is included.
abbrev pub AreKept : List Candidate → List ContextItem → Type 0
AreKept [] [] = Unit
AreKept [] (_ ∷ _) = ⊥
AreKept (_ ∷ _) [] = ⊥
AreKept (c ∷ cs) (i ∷ is) =
    (i.id ≡ c.id) × ((not c.is_required || i.included) ≡ true) × AreKept cs is

included_tokens-append :
    (is js : List ContextItem)
    → included_tokens (is ++ js) ≡ included_tokens is + included_tokens js
unfolding included_tokens
included_tokens-append [] js = omega arith
included_tokens-append (i ∷ is) js = omega (arith, included_tokens-append is js)

-- What the loop adds to the items and the tokens that it starts with.
add_items-from :
    (b : ContextBudget) (cs : List Candidate) (items : List ContextItem) (used : ℕ)
    → b.max_working_context_tokens < 2 ^ 30
    → used ≤ b.max_working_context_tokens
    → used ≡ included_tokens items
    → (added : List ContextItem) × ((add_items b cs (items, used)).0 ≡ items ++ added)
      × AreKept cs added
      × ((add_items b cs (items, used)).1 ≡ included_tokens (add_items b cs (items, used)).0)
      × ((add_items b cs (items, used)).1 ≤ b.max_working_context_tokens)
unfolding add_items add_item included_tokens
add_items-from b [] items used h k t = ([], sym (append-nil items), tt, t, k)
add_items-from b (c ∷ cs) items used h k t =
    let p = next_item-Placed b c used h k in
    let sum : (next_item b c used).1 ≡ included_tokens (items ++ (next_item b c used).0) =
      p.counted ∙ rw (p.one, included_tokens-append items (p.item ∷ []), t) (omega arith) in
    let (added, all, kept, counted, room) =
      add_items-from b cs (items ++ (next_item b c used).0) (next_item b c used).1 h p.room sum in
    let joined : (items ++ (next_item b c used).0) ++ added ≡ items ++ p.item ∷ added =
      rw (p.one, append_assoc items (p.item ∷ []) added) refl in
    (p.item ∷ added, all ∙ joined, (p.named, p.kept, kept), counted, room)

-- With a budget below 2^30 tokens, the tokens that are counted as used are those of the included
-- items, and they stay within the budget.
pub choose_items-fits :
    (b : ContextBudget) (candidates : List (ℕ × ℕ × Candidate))
    → b.max_working_context_tokens < 2 ^ 30
    → ((choose_items b candidates).1 ≡ included_tokens (choose_items b candidates).0)
      × ((choose_items b candidates).1 ≤ b.max_working_context_tokens)
unfolding choose_items included_tokens
choose_items-fits b candidates h =
    let (_, _, _, counted, room) =
      add_items-from b (map (λ (_, _, c). c) (sort_by candidate_le candidates)) [] 0 h (omega arith)
        refl in
    (counted, room)

-- With a budget below 2^30 tokens, the items stand for the candidates one by one, in the order of
-- priority and recency, and the item of a required candidate is included.
pub choose_items-AreKept :
    (b : ContextBudget) (candidates : List (ℕ × ℕ × Candidate))
    → b.max_working_context_tokens < 2 ^ 30
    → AreKept (map (λ (_, _, c). c) (sort_by candidate_le candidates)) (choose_items b candidates).0
unfolding choose_items included_tokens
choose_items-AreKept b candidates h =
    let (_, all, kept, _, _) =
      add_items-from b (map (λ (_, _, c). c) (sort_by candidate_le candidates)) [] 0 h (omega arith)
        refl in
    rw (all) kept
