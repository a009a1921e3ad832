-- ===== src/Agent/Cost.antt =====
-- Prices, token usage and the estimated cost of a response, of crates/harness-agent/src/lib.rs and
-- crates/harness-models/src/lib.rs.
pub mod Laws
use cogito_ai.Prelude.{
  ℕ, ◌+◌, ◌-◌, ◌*◌, ◌/◌, ◌^◌, ◌≤◌, min, Bool, true, false, ◌&&◌, Option, none, some, List, [], ◌∷◌,
  ◌++◌, take, leb, ltb, ◌==◌, if◌then◌else◌,
}
use cogito_ai.Prelude.Text.{Text, text, trim, len, after_first}

pub record Usage : Type 0 where
  pub input_tokens : Option ℕ
  pub output_tokens : Option ℕ
  pub total_tokens : Option ℕ
  pub cache_read_tokens : Option ℕ
  pub cache_creation_tokens : Option ℕ

-- The prices of `ModelPricing` that the estimate reads.
pub record ModelPricing : Type 0 where
  pub input_usd_per_million_tokens : Option Text
  pub output_usd_per_million_tokens : Option Text

infixl 5 ◌>>=◌
abbrev pub ◌>>=◌ {ℓ κ} : {A : Type ℓ} {B : Type κ} (o : Option A) (next : A → Option B) → Option B
◌>>=◌ none next = none
◌>>=◌ (some a) next = next a

-- `checked_mul`, `checked_add`, `saturating_mul` and `saturating_add` of a `u64`.
unfoldable pub checked_u64 : ℕ → Option ℕ
checked_u64 n = if ltb n (2 ^ 64) then some n else none

unfoldable pub saturating_u64 : ℕ → ℕ
saturating_u64 n = min n (2 ^ 64 - 1)

-- `str::parse` of an unsigned integer below a bound: digits, behind a plus sign at most.
unfoldable pub digits_from : ℕ → ℕ → Text → Option ℕ
digits_from bound value [] = some value
digits_from bound value (c ∷ s) =
    let next = value * 10 + (c - b'0') in
    let rest = digits_from bound next s in
    if leb b'0' c && (leb c b'9' && ltb next bound) then rest else none

unfoldable pub unsigned : ℕ → Text → Option ℕ
unfolding digits_from
unsigned bound [] = none
unsigned bound (c ∷ s) = digits_from bound 0 (c ∷ s)

unfoldable pub parse_unsigned : ℕ → Text → Option ℕ
unfolding unsigned
parse_unsigned bound [] = none
parse_unsigned bound (c ∷ s) = if c == b'+' then unsigned bound s else unsigned bound (c ∷ s)

-- The text before the first `c`, or all of it: the first part of `split_once`.
unfoldable pub before_first : ℕ → Text → Text
before_first c [] = []
before_first c (d ∷ s) = let rest = before_first c s in if d == c then [] else d ∷ rest

-- `split_once('.').unwrap_or((value, ""))`
unfoldable pub fraction_of : Text → Text
fraction_of value = elim (after_first b'.' value) [ some rest ↦ rest | none ↦ [] ]

unfoldable pub fraction_value : Text → Option ℕ
fraction_value [] = some 0
fraction_value (c ∷ s) = do
  digits ← parse_unsigned (2 ^ 64) (c ∷ s)
  some (digits * 10 ^ (6 - len (c ∷ s)))

unfoldable pub decimal_microusd : Text → Option ℕ
unfolding fraction_of
decimal_microusd value = do
  whole ← parse_unsigned (2 ^ 64) (before_first b'.' (trim value))
  fraction ← fraction_value (take 6 (fraction_of (trim value)))
  dollars ← checked_u64 (whole * 1000000)
  checked_u64 (dollars + fraction)

-- The four numbers of an estimate: a rate in micro-dollars per million tokens, for each direction.
unfoldable pub cost_of : ℕ → ℕ → ℕ → ℕ → ℕ
cost_of input_rate input_tokens output_rate output_tokens =
    saturating_u64
      (saturating_u64 (input_rate * input_tokens) + saturating_u64 (output_rate * output_tokens))
    / 1000000

unfoldable pub estimate_cost_microusd : Option Usage → Option ModelPricing → Option ℕ
estimate_cost_microusd usage pricing = do
  u ← usage
  p ← pricing
  input_tokens ← u.input_tokens
  output_tokens ← u.output_tokens
  input_price ← p.input_usd_per_million_tokens
  input_rate ← decimal_microusd input_price
  output_price ← p.output_usd_per_million_tokens
  output_rate ← decimal_microusd output_price
  some (cost_of input_rate input_tokens output_rate output_tokens)

-- The total that is carried through the turns: unknown once a response's cost is unknown.
unfoldable pub add_cost : Option ℕ → Option ℕ → Option ℕ
add_cost (some total) (some cost) = some (saturating_u64 (total + cost))
add_cost (some total) none = none
add_cost none cost = none

-- `usage_tokens`
input_and_output : Option ℕ → Option ℕ → ℕ
input_and_output (some input) (some output) = input + output
input_and_output (some input) none = 0
input_and_output none output = 0

unfoldable pub usage_tokens : Option Usage → ℕ
unfolding input_and_output
usage_tokens none = 0
usage_tokens (some u) = elim u.total_tokens [
  | some total ↦ total
  | none ↦ input_and_output u.input_tokens u.output_tokens
]
