-- ===== src/Policy/Risks/Order.antt =====
-- `risk_categories` lists its risks in their order and each one once.
use cogito_ai.Prelude.{
  ◌<◌, true, false, ◌≡◌, List, [], ◌∷◌, arith, IsSorted, sort_by, sort_by-IsSorted, All, All-imp,
  Bool-cases, inl, inr,
}
use cogito_ai.Policy.Types.{RiskCategory, risk_index, risk_eq, PolicyRequest}
use cogito_ai.Policy.Risks.{dedup_from, dedup, pushed_risks, risk_categories, risk_le}

abbrev IsAbove : RiskCategory → List RiskCategory → Type 0
IsAbove r = All (λ s. risk_index r < risk_index s)

abbrev pub IsAscending : List RiskCategory → Type 0
IsAscending [] = Unit
IsAscending (r ∷ rs) = IsAbove r rs × IsAscending rs

lt_of_le_ne :
    (a b : RiskCategory) → risk_le a b ≡ true → risk_eq a b ≡ false → risk_index a < risk_index b
unfolding risk_eq
lt_of_le_ne a b h n = ground arith

dedup_from-IsAscending :
    (last : RiskCategory) (rs : List RiskCategory)
    → All (λ s. risk_le last s ≡ true) rs
    → IsSorted risk_le rs
    → IsAbove last (dedup_from last rs) × IsAscending (dedup_from last rs)
unfolding dedup_from
dedup_from-IsAscending last [] h s = (tt, tt)
dedup_from-IsAscending last (r ∷ rs) h s =
    let (above, rest) = dedup_from-IsAscending r rs s.0 s.1 in
    elim (Bool-cases (risk_eq last r)) [
      | inl e ↦ rw e (All-imp _ _ (λ x p. same_bound last r x e p) (dedup_from r rs) above, rest)
      | inr e ↦
          let p = lt_of_le_ne last r h.0 e in
          rw e ((p, All-imp _ _ (λ x q. omega arith) (dedup_from r rs) above), (above, rest))
    ]
  where
    same_bound :
        (a b x : RiskCategory)
        → risk_eq a b ≡ true
        → risk_index b < risk_index x
        → risk_index a < risk_index x
    same_bound a b x e p = unfold risk_eq in ground arith

dedup-IsAscending : (rs : List RiskCategory) → IsSorted risk_le rs → IsAscending (dedup rs)
unfolding dedup
dedup-IsAscending [] s = tt
dedup-IsAscending (r ∷ rs) s = dedup_from-IsAscending r rs s.0 s.1

-- Every risk of the list is below all later ones in the order of the classes.
pub risk_categories-IsAscending : (q : PolicyRequest) → IsAscending (risk_categories q)
unfolding risk_categories
risk_categories-IsAscending q =
    dedup-IsAscending (sort_by risk_le (pushed_risks q)) (
      sort_by-IsSorted risk_le (λ a b h. ground arith) (λ a b c h k. ground arith) (pushed_risks q))
