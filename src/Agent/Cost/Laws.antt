-- ===== src/Agent/Cost/Laws.antt =====
-- Numbers and whole prices that are printed are read back.
use cogito_ai.Prelude.{
  ℕ, zero, suc, ◌+◌, ◌-◌, ◌*◌, ◌/◌, ◌%◌, ◌^◌, ◌<◌, ◌≡◌, refl, Bool, true, false, ◌&&◌, none, some,
  [], ◌∷◌, reverse, All, All-append, ltb, leb, ◌==◌, inl, inr, Bool-cases, arith, subst,
}
use cogito_ai.Prelude.Text.{
  Text, trim, trim_matches, trim_start_matches, trim_end_matches, is_whitespace, decimal,
  decimal_from, after_first,
}
use mathlib.Core.List.{reverse-cons, reverse-reverse}
use cogito_ai.Agent.Cost.{
  checked_u64, digits_from, unsigned, parse_unsigned, before_first, fraction_of, fraction_value,
  decimal_microusd,
}

abbrev is_digit : ℕ → Bool
is_digit c = leb b'0' c && leb c b'9'

abbrev AreDigits : Text → Type 0
AreDigits = All (λ (c : ℕ). is_digit c ≡ true)

-- A digit of value `d` behind digits of value `v`.
read_digit :
    (bound v d n : ℕ) (s : Text)
    → d < 10
    → v * 10 + d ≡ n
    → n < bound
    → digits_from bound v ((b'0' + d) ∷ s) ≡ digits_from bound n s
unfolding digits_from
read_digit bound v d n s h e b =
    let value : v * 10 + (b'0' + d - b'0') ≡ n = omega arith in
    let low : leb b'0' (b'0' + d) ≡ true = ground arith in
    let high : leb (b'0' + d) b'9' ≡ true = ground arith in
    let fits : ltb n bound ≡ true = ground arith in rw (digits_from, value, low, high, fits) refl

digits_from-decimal_from :
    (bound fuel n : ℕ) (s : Text)
    → n < fuel
    → n < bound
    → digits_from bound 0 (decimal_from fuel n s) ≡ digits_from bound n s
unfolding decimal_from
digits_from-decimal_from bound zero n s h b = absurd (omega arith)
digits_from-decimal_from bound (suc fuel) n s h b = elim (Bool-cases (ltb n 10)) [
  | inl e ↦ rw (decimal_from, e) (read_digit bound 0 n n s (ground arith) (omega arith) b)
  | inr e ↦
      rw
        (
          decimal_from,
          e,
          digits_from-decimal_from bound fuel (n / 10) ((b'0' + n % 10) ∷ s) (ground arith)
              (ground arith),
        )
        (read_digit bound (n / 10) (n % 10) n s (omega arith) (omega arith) b)
]

decimal_from-AreDigits : (fuel n : ℕ) (s : Text) → AreDigits s → AreDigits (decimal_from fuel n s)
unfolding decimal_from
decimal_from-AreDigits zero n s h = h
decimal_from-AreDigits (suc fuel) n s h = elim (Bool-cases (ltb n 10)) [
  | inl e ↦ rw (decimal_from, e) (ground arith, h)
  | inr e ↦
      rw (decimal_from, e)
        (decimal_from-AreDigits fuel (n / 10) ((b'0' + n % 10) ∷ s) (ground arith, h))
]

decimal_from-cons :
    (fuel n c : ℕ) (s : Text) → (d : ℕ) × (t : Text) × (decimal_from fuel n (c ∷ s) ≡ d ∷ t)
unfolding decimal_from
decimal_from-cons zero n c s = (c, s, refl)
decimal_from-cons (suc fuel) n c s = elim (Bool-cases (ltb n 10)) [
  | inl e ↦ (b'0' + n, c ∷ s, rw (decimal_from, e) refl)
  | inr e ↦
      let (d, t, p) = decimal_from-cons fuel (n / 10) (b'0' + n % 10) (c ∷ s) in
      (d, t, rw (decimal_from, e) p)
]

decimal-cons : (n : ℕ) → (d : ℕ) × (t : Text) × (decimal n ≡ d ∷ t)
unfolding decimal decimal_from
decimal-cons n = elim (Bool-cases (ltb n 10)) [
  | inl e ↦ (b'0' + n, [], rw (decimal_from, e) refl)
  | inr e ↦
      let (d, t, p) = decimal_from-cons n (n / 10) (b'0' + n % 10) [] in
      (d, t, rw (decimal_from, e) p)
]

decimal-AreDigits : (n : ℕ) → AreDigits (decimal n)
unfolding decimal
decimal-AreDigits n = decimal_from-AreDigits (suc n) n [] tt

-- A number below the bound is read back from its decimal digits.
pub parse_unsigned-decimal : (bound n : ℕ) → n < bound → parse_unsigned bound (decimal n) ≡ some n
unfolding parse_unsigned unsigned decimal digits_from
parse_unsigned-decimal bound n h =
    let (d, t, e) = decimal-cons n in
    let digits : AreDigits (d ∷ t) = subst AreDigits e (decimal-AreDigits n) in
    let no_plus : (d == b'+') ≡ false = ground (arith, digits.0) in
    let same : digits_from bound 0 (decimal n) ≡ some n =
      digits_from-decimal_from bound (suc n) n [] (omega arith) h in
    rw (e, no_plus) (rw e at same)

trim_start-AreDigits : (s : Text) → AreDigits s → trim_start_matches is_whitespace s ≡ s
unfolding trim_start_matches is_whitespace
trim_start-AreDigits [] h = refl
trim_start-AreDigits (c ∷ s) (h, hs) = ground arith

AreDigits-reverse : (s : Text) → AreDigits s → AreDigits (reverse s)
AreDigits-reverse [] h = tt
AreDigits-reverse (c ∷ s) (h, hs) = rw (reverse-cons c s) (
    All-append (λ (d : ℕ). is_digit d ≡ true) (reverse s) (c ∷ []) (AreDigits-reverse s hs) (h, tt))

trim-AreDigits : (s : Text) → AreDigits s → trim s ≡ s
unfolding trim trim_matches trim_end_matches
trim-AreDigits s h =
    rw (trim_start-AreDigits s h, trim_start-AreDigits (reverse s) (AreDigits-reverse s h))
      (reverse-reverse s)

no_point : (s : Text) → AreDigits s → (before_first b'.' s ≡ s) × (after_first b'.' s ≡ none)
unfolding before_first after_first
no_point [] h = (refl, refl)
no_point (c ∷ s) (h, hs) = let (p, q) = no_point s hs in (ground arith, ground arith)

-- A price of whole dollars is read as that many dollars in micro-dollars, if these fit in 64 bits.
pub decimal_microusd-decimal :
    (dollars : ℕ)
    → dollars * 1000000 < 2 ^ 64
    → decimal_microusd (decimal dollars) ≡ some (dollars * 1000000)
unfolding decimal_microusd fraction_of fraction_value checked_u64
decimal_microusd-decimal dollars h =
    let digits = decimal-AreDigits dollars in
    let fits : ltb (dollars * 1000000) (2 ^ 64) ≡ true = ground arith in
    let alone : dollars * 1000000 + 0 ≡ dollars * 1000000 = omega arith in
    let (p, q) = no_point (decimal dollars) digits in
    rw
      (
        trim-AreDigits (decimal dollars) digits,
        p,
        fraction_of,
        q,
        parse_unsigned-decimal (2 ^ 64) dollars (omega arith),
        checked_u64,
        fits,
      )
      (rw (alone, checked_u64, fits) refl)
