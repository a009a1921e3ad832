-- ===== src/Agent/Bounded.antt =====
-- Bounded texts and lists, of crates/harness-agent/src/lib.rs.
pub mod Laws
use cogito_ai.Prelude.{
  ℕ, ◌-◌, Bool, List, [], ◌∷◌, ◌++◌, any, drop, length, leb, ltb, if◌then◌else◌,
}
use cogito_ai.Prelude.Text.{Text, text, text_eq, len, slice_to}
use cogito_ai.Context.Truncate.{floor_boundary}

-- The ellipsis has three bytes, which come on top of the limit.
unfoldable pub bounded_summary : Text → Text
bounded_summary value =
    if leb (len value) 240 then value else slice_to value (floor_boundary value 240) ++ 0x2026 ∷ []

unfoldable pub verification_suffix : Text
verification_suffix = text "\n... relevant verification output truncated ..."

unfoldable pub bounded_context : Text → ℕ → Text
bounded_context value limit =
    if leb (len value) limit
    then value
    else slice_to value (floor_boundary value (limit - len verification_suffix))
      ++ verification_suffix

-- `push` and `drain(..len - limit)`.
unfoldable pub push_bounded {ℓ} : {A : Type ℓ} → List A → A → ℕ → List A
push_bounded values value limit =
    let longer = values ++ value ∷ [] in
    if ltb limit (length longer) then drop (length longer - limit) longer else longer

unfoldable pub push_unique_bounded : List Text → Text → ℕ → List Text
push_unique_bounded values value limit =
    if any (text_eq value) values then values else push_bounded values value limit

unfoldable pub keep_recent {ℓ} : {A : Type ℓ} → List A → ℕ → List A
keep_recent messages limit = drop (length messages - limit) messages
