-- ===== src/Agent/Bounded/Laws.antt =====
-- Lists that are pushed to stay within their limits and keep their elements distinct.
use cogito_ai.Prelude.{
  ℕ, zero, suc, ◌-◌, ◌≤◌, ◌≡◌, false, List, [], ◌∷◌, ◌++◌, any, any-append, drop, length,
  length-drop, ltb, inl, inr, Bool-cases, All, All-append, arith,
}
use cogito_ai.Prelude.Text.{Text, text_eq, len, slice_to, utf8_width}
use cogito_ai.Prelude.Text.Laws.{len-append, len-slice_to-le}
use cogito_ai.Context.Truncate.{floor_boundary, floor_boundary-le}
use cogito_ai.Agent.Bounded.{bounded_summary, push_bounded, push_unique_bounded}

-- A summary has at most 240 bytes and the three of its ellipsis.
pub len-bounded_summary-le : (value : Text) → len (bounded_summary value) ≤ 243
unfolding bounded_summary len utf8_width
len-bounded_summary-le value = ground (
  arith,
  len-append (slice_to value (floor_boundary value 240)) (0x2026 ∷ []),
  len-slice_to-le value (floor_boundary value 240),
  floor_boundary-le value 240,
)

pub length-push_bounded-le {ℓ} :
    {A : Type ℓ} (values : List A) (value : A) (limit : ℕ)
    → length (push_bounded values value limit) ≤ limit
unfolding push_bounded
length-push_bounded-le values value limit =
    ground (arith, length-drop (length (values ++ value ∷ []) - limit) (values ++ value ∷ []))

pub length-push_unique_bounded-le :
    (values : List Text) (value : Text) (limit : ℕ)
    → length values ≤ limit
    → length (push_unique_bounded values value limit) ≤ limit
unfolding push_unique_bounded
length-push_unique_bounded-le values value limit h =
    ground (arith, length-push_bounded-le values value limit)

-- No text occurs twice.
abbrev pub IsDistinct : List Text → Type 0
IsDistinct [] = Unit
IsDistinct (x ∷ xs) = (any (text_eq x) xs ≡ false) × IsDistinct xs

IsDistinct-drop : (n : ℕ) (xs : List Text) → IsDistinct xs → IsDistinct (drop n xs)
IsDistinct-drop zero xs h = h
IsDistinct-drop (suc n) [] h = h
IsDistinct-drop (suc n) (x ∷ xs) (_, h) = IsDistinct-drop n xs h

text_eq_comm : (s t : Text) → text_eq s t ≡ text_eq t s
unfolding text_eq
text_eq_comm [] [] = ground arith
text_eq_comm [] (b ∷ t) = ground arith
text_eq_comm (a ∷ s) [] = ground arith
text_eq_comm (a ∷ s) (b ∷ t) = ground (arith, text_eq_comm s t)

pub IsDistinct-snoc :
    (xs : List Text) (x : Text)
    → IsDistinct xs
    → any (text_eq x) xs ≡ false
    → IsDistinct (xs ++ x ∷ [])
unfolding any
IsDistinct-snoc [] x d h = (ground arith, tt)
IsDistinct-snoc (y ∷ xs) x (p, d) h = (
  ground (arith, any-append (text_eq y) xs (x ∷ []), text_eq_comm x y),
  IsDistinct-snoc xs x d (ground arith),
)

pub push_unique_bounded-IsDistinct :
    (values : List Text) (value : Text) (limit : ℕ)
    → IsDistinct values
    → IsDistinct (push_unique_bounded values value limit)
unfolding push_unique_bounded push_bounded
push_unique_bounded-IsDistinct values value limit d =
    elim (Bool-cases (any (text_eq value) values)) [
      | inl e ↦ rw (push_unique_bounded, e) d
      | inr e ↦
          let longer = IsDistinct-snoc values value d e in
          elim (Bool-cases (ltb limit (length (values ++ value ∷ [])))) [
            | inl f ↦
                rw (push_unique_bounded, e, push_bounded, f)
                  (IsDistinct-drop (length (values ++ value ∷ []) - limit) (values ++ value ∷ [])
                    longer)
            | inr f ↦ rw (push_unique_bounded, e, push_bounded, f) longer
          ]
    ]

All-drop : (P : Text → Type 0) (n : ℕ) (xs : List Text) → All P xs → All P (drop n xs)
All-drop P zero xs h = h
All-drop P (suc n) [] h = h
All-drop P (suc n) (x ∷ xs) (_, h) = All-drop P n xs h

-- A text of at most 240 bytes and an ellipsis.
abbrev pub IsSummary : Text → Type 0
IsSummary value = len value ≤ 243

-- At most a number of summaries, none of them twice.
pub record AreBounded (limit : ℕ) (values : List Text) : Type 0 where
  pub short : length values ≤ limit
  pub distinct : IsDistinct values
  pub summaries : All IsSummary values

push_bounded-AreSummaries :
    (values : List Text) (value : Text) (limit : ℕ)
    → All IsSummary values
    → IsSummary value
    → All IsSummary (push_bounded values value limit)
unfolding push_bounded
push_bounded-AreSummaries values value limit h v =
    let longer = All-append IsSummary values (value ∷ []) h (v, tt) in
    elim (Bool-cases (ltb limit (length (values ++ value ∷ [])))) [
      | inl e ↦
          rw (push_bounded, e)
            (All-drop IsSummary (length (values ++ value ∷ []) - limit) (values ++ value ∷ [])
              longer)
      | inr e ↦ rw (push_bounded, e) longer
    ]

pub push_unique_bounded-AreBounded :
    (values : List Text) (value : Text) (limit : ℕ)
    → AreBounded limit values
    → IsSummary value
    → AreBounded limit (push_unique_bounded values value limit)
unfolding push_unique_bounded
push_unique_bounded-AreBounded values value limit h v = record {
  short = length-push_unique_bounded-le values value limit h.short;
  distinct = push_unique_bounded-IsDistinct values value limit h.distinct;
  summaries = elim (Bool-cases (any (text_eq value) values)) [
    | inl e ↦ rw (push_unique_bounded, e) h.summaries
    | inr e ↦
        rw (push_unique_bounded, e) (push_bounded-AreSummaries values value limit h.summaries v)
  ];
}

pub nil-AreBounded : (limit : ℕ) → AreBounded limit []
nil-AreBounded limit = record { short = omega arith; distinct = tt; summaries = tt }
