-- ===== src/Prelude/Text.antt =====
-- Text as a list of Unicode scalar values, and what the program uses of Rust's `str`: search,
-- trimming, splitting, ASCII lower case, and the byte length and boundaries of its UTF-8 form.
pub mod Laws
use Prim.Native.Nat.{ℕ, zero, suc, ◌+◌, ◌-◌, ◌/◌, ◌%◌}
use Prim.Native.Char.{code}
use Prim.Native.String.{String}
use mathlib.Core.Bool.{Bool, true, false, not, ◌&&◌, ◌||◌}
use mathlib.Core.Option.{Option, none, some}
use mathlib.Core.List.{List, [], ◌∷◌, ◌++◌, map, reverse}
use cogito_ai.Prelude.Tests.{leb, ltb, ◌==◌, if◌then◌else◌}
use cogito_ai.Prelude.Lists.{any}

abbrev pub Text : Type 0
Text = List ℕ

abbrev codes : String → Text
codes String.[] = []
codes (String.◌∷◌ c s) = code c ∷ codes s

-- A literal. It stays folded in proofs, so that they never walk through its characters.
unfoldable pub text : String → Text
text s = codes s

unfoldable pub text_eq : Text → Text → Bool
text_eq [] [] = true
text_eq [] (_ ∷ _) = false
text_eq (_ ∷ _) [] = false
text_eq (a ∷ s) (b ∷ t) = (a == b) && text_eq s t

-- `str::starts_with`, `ends_with` and `contains`; the text searched comes first.
unfoldable pub starts_with : Text → Text → Bool
starts_with s [] = true
starts_with [] (_ ∷ _) = false
starts_with (a ∷ s) (b ∷ t) = (a == b) && starts_with s t

unfoldable pub ends_with : Text → Text → Bool
unfolding text_eq
ends_with [] t = text_eq [] t
ends_with (a ∷ s) t = text_eq (a ∷ s) t || ends_with s t

unfoldable pub contains : Text → Text → Bool
unfolding starts_with
contains [] t = starts_with [] t
contains (a ∷ s) t = starts_with (a ∷ s) t || contains s t

-- Whether a text contains one of the needles, and whether it is one of the words.
unfoldable pub contains_any : Text → List String → Bool
unfolding any contains text
contains_any s needles = any (λ n. contains s (text n)) needles

unfoldable pub is_one_of : Text → List String → Bool
unfolding any text_eq text
is_one_of s words = any (λ w. text_eq s (text w)) words

unfoldable pub ascii_lower : ℕ → ℕ
ascii_lower c = if leb b'A' c && leb c b'Z' then c + 32 else c

unfoldable pub to_ascii_lowercase : Text → Text
unfolding ascii_lower
to_ascii_lowercase s = map ascii_lower s

-- `char::is_whitespace`: the Unicode property `White_Space`.
unfoldable pub is_whitespace : ℕ → Bool
is_whitespace c =
    (leb 9 c && leb c 13)
    || c == 32
    || c == 0x85
    || c == 0xA0
    || c == 0x1680
    || (leb 0x2000 c && leb c 0x200A)
    || c == 0x2028
    || c == 0x2029
    || c == 0x202F
    || c == 0x205F
    || c == 0x3000

-- `trim_start_matches`, `trim_end_matches` and `trim_matches` with a predicate.
unfoldable pub trim_start_matches : (ℕ → Bool) → Text → Text
trim_start_matches p [] = []
trim_start_matches p (c ∷ s) = let rest = trim_start_matches p s in if p c then rest else c ∷ s

unfoldable pub trim_end_matches : (ℕ → Bool) → Text → Text
unfolding trim_start_matches
trim_end_matches p s = reverse (trim_start_matches p (reverse s))

unfoldable pub trim_matches : (ℕ → Bool) → Text → Text
unfolding trim_start_matches trim_end_matches
trim_matches p s = trim_end_matches p (trim_start_matches p s)

unfoldable pub trim_start : Text → Text
unfolding trim_start_matches is_whitespace
trim_start s = trim_start_matches is_whitespace s

unfoldable pub trim : Text → Text
unfolding trim_matches is_whitespace
trim s = trim_matches is_whitespace s

-- `str::split` with a predicate: the current piece is kept in reverse.
split_from : (ℕ → Bool) → Text → Text → List Text
split_from p piece [] = reverse piece ∷ []
split_from p piece (c ∷ s) =
    let ended = reverse piece ∷ split_from p [] s in
    let longer = split_from p (c ∷ piece) s in if p c then ended else longer

unfoldable pub split : (ℕ → Bool) → Text → List Text
unfolding split_from
split p s = split_from p [] s

-- The text behind the first `c`, if there is one: the second part of `str::split_once`.
unfoldable pub after_first : ℕ → Text → Option Text
after_first c [] = none
after_first c (d ∷ s) = let rest = after_first c s in if d == c then some s else rest

unfoldable pub join : Text → List Text → Text
join sep [] = []
join sep (s ∷ []) = s
join sep (s ∷ t ∷ rest) = s ++ (sep ++ join sep (t ∷ rest))

-- `str::replace` of one character by another.
unfoldable pub replace_char : ℕ → ℕ → Text → Text
replace_char from to s = map (λ c. if c == from then to else c) s

-- The number of bytes of a character in UTF-8, and of a text: `str::len`.
unfoldable pub utf8_width : ℕ → ℕ
utf8_width c = if ltb c 0x80 then 1 else if ltb c 0x800 then 2 else if ltb c 0x10000 then 3 else 4

unfoldable pub len : Text → ℕ
unfolding utf8_width
len [] = 0
len (c ∷ s) = utf8_width c + len s

-- `str::is_char_boundary` at a byte index.
unfoldable pub is_char_boundary : Text → ℕ → Bool
unfolding utf8_width
is_char_boundary [] i = i == 0
is_char_boundary (c ∷ s) i =
    i == 0 || (leb (utf8_width c) i && is_char_boundary s (i - utf8_width c))

-- `&value[..end]` at a boundary: the characters that lie within the first `end` bytes.
unfoldable pub slice_to : Text → ℕ → Text
unfolding utf8_width
slice_to [] i = []
slice_to (c ∷ s) i =
    let rest = slice_to s (i - utf8_width c) in if leb (utf8_width c) i then c ∷ rest else []

-- A number in decimal, as `{}` prints it. Each round takes a digit, so the fuel `suc n` is enough.
unfoldable pub decimal_from : ℕ → ℕ → Text → Text
decimal_from zero n digits = digits
decimal_from (suc fuel) n digits = elim (ltb n 10) [
  | true ↦ (b'0' + n) ∷ digits
  | false ↦ decimal_from fuel (n / 10) ((b'0' + n % 10) ∷ digits)
]

unfoldable pub decimal : ℕ → Text
unfolding decimal_from
decimal n = decimal_from (suc n) n []

-- `str::lines`: the pieces that line feeds end, without a carriage return before the line feed, and
-- what is left behind the last line feed if it is not empty. The current piece is in reverse.
unfoldable pub drop_return : Text → Text
drop_return [] = []
drop_return (c ∷ s) = if c == 13 then s else c ∷ s

unfoldable pub last_piece : Text → List Text
last_piece [] = []
last_piece (c ∷ s) = reverse (c ∷ s) ∷ []

unfoldable pub lines_from : Text → Text → List Text
unfolding drop_return last_piece
lines_from piece [] = last_piece piece
lines_from piece (c ∷ s) =
    let ended = reverse (drop_return piece) ∷ lines_from [] s in
    let longer = lines_from (c ∷ piece) s in if c == 10 then ended else longer

unfoldable pub lines : Text → List Text
unfolding lines_from
lines s = lines_from [] s
