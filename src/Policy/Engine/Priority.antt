-- ===== src/Policy/Engine/Priority.antt =====
-- Which of the matching rules decides.
use cogito_ai.Prelude.{
  ℕ, ◌+◌, ◌≤◌, true, false, ◌≡◌, ◌≢◌, refl, sym, ◌∙◌, ap, List, [], ◌∷◌, arith, Memᴰ, inl, inr, ◌⊎◌,
  sort_by, sort_by-cons, length-sort_by, length, ℤ, negsuc, pos_part, neg_part, leb_ℤ, eq_ℤ, leb,
  wrapping_neg_i32, if◌then◌else◌,
}
use cogito_ai.Policy.Engine.{default_evaluation, by_priority, judge, rule_le}
use cogito_ai.Policy.Types.{RiskCategory, PolicyDecision, PolicyRequest, PolicyRule, PolicyEngine}

abbrev pub i32_min : ℤ
i32_min = negsuc 2147483647

infix 50 ◌≤ℤ◌
abbrev pub ◌≤ℤ◌ : ℤ → ℤ → Type 0
a ≤ℤ b = pos_part a + neg_part b ≤ pos_part b + neg_part a

wrapping_neg_i32-anti :
    (a b : ℤ)
    → a ≢ i32_min
    → b ≢ i32_min
    → leb_ℤ (wrapping_neg_i32 a) (wrapping_neg_i32 b) ≡ true
    → b ≤ℤ a
unfolding wrapping_neg_i32
wrapping_neg_i32-anti a b ha hb h = ground arith

rule_le_refl : (m : ℕ × PolicyRule) → rule_le m m ≡ true
rule_le_refl (i, r) = key (wrapping_neg_i32 r.priority)
  where
    key : (a : ℤ) → (if eq_ℤ a a then leb i i else leb_ℤ a a) ≡ true
    key a = ground arith

rule_le_total : (m n : ℕ × PolicyRule) → rule_le m n ≡ false → rule_le n m ≡ true
rule_le_total (i, r) (j, s) = key (wrapping_neg_i32 r.priority) (wrapping_neg_i32 s.priority)
  where
    key :
        (a b : ℤ)
        → (if eq_ℤ a b then leb i j else leb_ℤ a b) ≡ false
        → (if eq_ℤ b a then leb j i else leb_ℤ b a) ≡ true
    key a b h = ground arith

rule_le_trans :
    (m n o : ℕ × PolicyRule) → rule_le m n ≡ true → rule_le n o ≡ true → rule_le m o ≡ true
rule_le_trans (i, r) (j, s) (k, t) =
    key (wrapping_neg_i32 r.priority) (wrapping_neg_i32 s.priority) (wrapping_neg_i32 t.priority)
  where
    key :
        (a b c : ℤ)
        → (if eq_ℤ a b then leb i j else leb_ℤ a b) ≡ true
        → (if eq_ℤ b c then leb j k else leb_ℤ b c) ≡ true
        → (if eq_ℤ a c then leb i k else leb_ℤ a c) ≡ true
    key a b c h g = ground arith

-- A rule outranks another by a higher priority, or by an equal one and an earlier position.
pub record Outranks (m n : ℕ × PolicyRule) : Type 0 where
  pub not_lower : n.1.priority ≤ℤ m.1.priority
  pub first_of_equals : m.1.priority ≡ n.1.priority → m.0 ≤ n.0

rule_le-Outranks :
    (m n : ℕ × PolicyRule)
    → m.1.priority ≢ i32_min
    → n.1.priority ≢ i32_min
    → rule_le m n ≡ true
    → Outranks m n
rule_le-Outranks (i, r) (j, s) hr hs h = record {
  not_lower =
      wrapping_neg_i32-anti r.priority s.priority hr hs
        (weaken (wrapping_neg_i32 r.priority) (wrapping_neg_i32 s.priority) h);
  first_of_equals = λ e.
      position (wrapping_neg_i32 r.priority) (wrapping_neg_i32 s.priority) (ap wrapping_neg_i32 e)
        h;
}
  where
    weaken : (a b : ℤ) → (if eq_ℤ a b then leb i j else leb_ℤ a b) ≡ true → leb_ℤ a b ≡ true
    weaken a b h = ground arith

    position : (a b : ℤ) → a ≡ b → (if eq_ℤ a b then leb i j else leb_ℤ a b) ≡ true → i ≤ j
    position a b e h = ground arith

-- The sorted rules are empty, or start with a matching rule that comes before all others.
data Top (matches : List (ℕ × PolicyRule)) (sorted : List (ℕ × PolicyRule)) : Type 0 where
  nothing : matches ≡ [] → sorted ≡ [] → Top matches sorted
  first :
      (m : ℕ × PolicyRule) (rest : List (ℕ × PolicyRule))
      → sorted ≡ m ∷ rest
      → Memᴰ m matches
      → ((n : ℕ × PolicyRule) → Memᴰ n matches → rule_le m n ≡ true)
      → Top matches sorted

Top-of : (matches : List (ℕ × PolicyRule)) → Top matches (sort_by rule_le matches)
Top-of matches = go (sort_by rule_le matches) refl
  where
    empty : (l : List (ℕ × PolicyRule)) → length l ≡ 0 → l ≡ []
    empty [] h = refl
    empty (_ ∷ l) h = absurd (omega arith)

    go :
        (sorted : List (ℕ × PolicyRule))
        → sort_by rule_le matches ≡ sorted
        → Top matches (sort_by rule_le matches)
    go [] e = nothing (empty matches (sym (length-sort_by rule_le matches) ∙ ap length e)) e
    go (m ∷ rest) e =
        let (a, b) = sort_by-cons rule_le rule_le_total rule_le_trans matches rule_le_refl e in
        first m rest e a b

module _ (e : PolicyEngine) (q : PolicyRequest) (risks : List RiskCategory) where
  judge-allow :
      (matches : List (ℕ × PolicyRule))
      → (judge e q risks matches).decision ≡ PolicyDecision.allow
      → judge e q risks matches ≡ by_priority e q (sort_by rule_le matches)
  unfolding judge
  judge-allow matches h = ground arith

  -- An allowing judgement rests on the rule that outranks all matching ones, or on the default.
  pub judge-allow_cases :
      (matches : List (ℕ × PolicyRule))
      → (judge e q risks matches).decision ≡ PolicyDecision.allow
      → ((m : ℕ × PolicyRule) × Memᴰ m matches
          × (m.1.action ≡ PolicyDecision.allow)
          × ((n : ℕ × PolicyRule)
              → Memᴰ n matches
              → m.1.priority ≢ i32_min
              → n.1.priority ≢ i32_min
              → Outranks m n))
        ⊎ ((matches ≡ []) × ((default_evaluation e q).decision ≡ PolicyDecision.allow))
  unfolding by_priority
  judge-allow_cases matches h = from (Top-of matches) (rw (judge-allow matches h) at h)
    where
      from :
          Top matches (sort_by rule_le matches)
          → (by_priority e q (sort_by rule_le matches)).decision ≡ PolicyDecision.allow
          → ((m : ℕ × PolicyRule) × Memᴰ m matches
              × (m.1.action ≡ PolicyDecision.allow)
              × ((n : ℕ × PolicyRule)
                  → Memᴰ n matches
                  → m.1.priority ≢ i32_min
                  → n.1.priority ≢ i32_min
                  → Outranks m n))
            ⊎ ((matches ≡ []) × ((default_evaluation e q).decision ≡ PolicyDecision.allow))
      from (nothing p s) k = inr (p, rw (s, by_priority) at k)
      from (first m rest s n f) k =
          inl (m, n, rw (s, by_priority) at k, λ o t hm ho. rule_le-Outranks m o hm ho (f o t))
