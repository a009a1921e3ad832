-- ===== src/Prelude/Text/Laws.antt =====
-- Facts about text: equality, prefixes, and the byte lengths of slices.
use Prim.Native.Nat.{ℕ, ◌+◌, ◌-◌, ◌≤◌, ◌<◌}
use mathlib.Core.Path.{◌≡◌, refl, ap₂}
use mathlib.Core.Bool.{true}
use mathlib.Core.List.{[], ◌∷◌, ◌++◌}
use native.Mathlib.Omega.{arith}
use cogito_ai.Prelude.Tests.{◌==◌, ==_iff, and-eq-true}
use cogito_ai.Prelude.Text.{Text, text_eq, starts_with, utf8_width, len, is_char_boundary, slice_to}

pub text_eq_sound : (s t : Text) → text_eq s t ≡ true → s ≡ t
unfolding text_eq
text_eq_sound [] [] h = refl
text_eq_sound [] (b ∷ t) h = absurd (ground arith)
text_eq_sound (a ∷ s) [] h = absurd (ground arith)
text_eq_sound (a ∷ s) (b ∷ t) h =
    let (p, q) = and-eq-true (a == b) (text_eq s t) h in
    ap₂ ◌∷◌ ((==_iff a b).0 p) (text_eq_sound s t q)

pub text_eq_refl : (s : Text) → text_eq s s ≡ true
unfolding text_eq
text_eq_refl [] = refl
text_eq_refl (a ∷ s) = ground (arith, text_eq_refl s)

pub starts_with-append : (s t : Text) → starts_with (s ++ t) s ≡ true
unfolding starts_with
starts_with-append [] t = starts_with_nil t
  where
    starts_with_nil : (u : Text) → starts_with u [] ≡ true
    starts_with_nil [] = refl
    starts_with_nil (c ∷ u) = refl
starts_with-append (a ∷ s) t = ground (arith, starts_with-append s t)

pub utf8_width_pos : (c : ℕ) → 0 < utf8_width c
unfolding utf8_width
utf8_width_pos c = ground arith

pub len-append : (s t : Text) → len (s ++ t) ≡ len s + len t
unfolding len
len-append [] t = omega arith
len-append (c ∷ s) t = omega (arith, len-append s t)

pub len-slice_to-le : (s : Text) (i : ℕ) → len (slice_to s i) ≤ i
unfolding len slice_to
len-slice_to-le [] i = omega arith
len-slice_to-le (c ∷ s) i = ground (arith, len-slice_to-le s (i - utf8_width c))

-- At a boundary the slice has exactly that many bytes, and the rest of the text follows it.
pub len-slice_to : (s : Text) (i : ℕ) → is_char_boundary s i ≡ true → len (slice_to s i) ≡ i
unfolding len slice_to is_char_boundary
len-slice_to [] i h = ground arith
len-slice_to (c ∷ s) i h = ground (arith, utf8_width_pos c, len-slice_to s (i - utf8_width c))

pub starts_with-slice_to : (s : Text) (i : ℕ) → starts_with s (slice_to s i) ≡ true
unfolding starts_with slice_to
starts_with-slice_to [] i = refl
starts_with-slice_to (c ∷ s) i = ground (arith, starts_with-slice_to s (i - utf8_width c))

pub starts_with_refl : (s : Text) → starts_with s s ≡ true
unfolding starts_with
starts_with_refl [] = refl
starts_with_refl (c ∷ s) = ground (arith, starts_with_refl s)
