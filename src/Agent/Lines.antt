-- ===== src/Agent/Lines.antt =====
-- What the agent looks for in the lines of a text: headings, list items and their contents, of
-- crates/harness-agent/src/lib.rs, with the `str` functions that it uses for it.
pub mod Laws
use cogito_ai.Prelude.{
  ℕ, ◌+◌, Bool, true, false, not, ◌&&◌, ◌||◌, Option, none, some, List, [], ◌∷◌, any, all, drop,
  length, leb, ◌==◌, if◌then◌else◌,
}
use cogito_ai.Prelude.Text.{
  Text, text, text_eq, starts_with, trim, trim_start_matches, trim_end_matches, to_ascii_lowercase,
}
use cogito_ai.Session.Compact.{is_empty}
use cogito_ai.Agent.Bounded.{bounded_summary}

-- `str::split_once` on a needle that is not empty.
unfoldable pub put_first : ℕ → Option (Text × Text) → Option (Text × Text)
put_first c none = none
put_first c (some (before, after)) = some (c ∷ before, after)

unfoldable pub split_once : Text → Text → Option (Text × Text)
unfolding put_first
split_once needle [] = none
split_once needle (c ∷ s) =
    let rest = put_first c (split_once needle s) in
    if starts_with (c ∷ s) needle then some ([], drop (length needle) (c ∷ s)) else rest

unfoldable pub eq_ignore_ascii_case : Text → Text → Bool
eq_ignore_ascii_case s t = text_eq (to_ascii_lowercase s) (to_ascii_lowercase t)

unfoldable pub is_ascii_digit : ℕ → Bool
is_ascii_digit c = leb b'0' c && leb c b'9'

unfoldable pub trim_hashes : Text → Text
trim_hashes s = trim_start_matches (λ c. c == b'#') s

unfoldable pub trim_colons : Text → Text
trim_colons s = trim_end_matches (λ c. c == b':') s

-- The item behind a list marker, and behind a number with a point.
is_bullet : ℕ → Bool
is_bullet c = c == b'-' || c == b'*' || c == 0x2022

without_number : Text → Option (Text × Text) → Text
without_number value none = value
without_number value (some (prefix, item)) = if all is_ascii_digit prefix then trim item else value

unfoldable pub plan_item : Text → Text
unfolding without_number is_bullet
plan_item line =
    let value = trim (trim_start_matches is_bullet (trim line)) in
    bounded_summary (without_number value (split_once (text ". ") value))

is_numbered : Option (Text × Text) → Bool
is_numbered none = false
is_numbered (some (number, _)) = not (is_empty number) && all is_ascii_digit number

unfoldable pub is_list_item : Text → Bool
unfolding is_numbered
is_list_item line =
    starts_with line (text "- ")
    || starts_with line (text "* ")
    || starts_with line (text "+ ")
    || starts_with line (text "- [ ]")
    || starts_with line (text "- [x]")
    || is_numbered (split_once (text ".") line)
