-- ===== src/Policy/Paths.antt =====
-- Paths as `Path::components` yields them on Unix, and `normalize_path` of
-- crates/harness-policy/src/lib.rs. Paths are Unicode; there is no `Prefix` component on Unix.
pub mod Laws
pub mod Rules
use cogito_ai.Prelude.{
  ℕ, Bool, true, false, ◌&&◌, Option, none, some, List, [], ◌∷◌, ◌++◌, map, ◌==◌, if◌then◌else◌,
  filter, not,
}
use cogito_ai.Prelude.Text.{Text, text, text_eq, split, join}

pub data Component : Type 0 where
  root_dir cur_dir parent_dir : Component
  normal : Text → Component

abbrev pub PathBuf : Type 0
PathBuf = List Component

unfoldable pub component_eq : Component → Component → Bool
unfolding text_eq
component_eq root_dir root_dir = true
component_eq cur_dir cur_dir = true
component_eq parent_dir parent_dir = true
component_eq (normal s) (normal t) = text_eq s t
component_eq _ _ = false

-- `Path::new(text).components()`: empty pieces and inner `.` are dropped, a leading `.` is kept.
piece_component : Text → Component
unfolding text_eq text
piece_component s =
    if text_eq s (text "..") then parent_dir else if text_eq s (text ".") then cur_dir else normal s

is_inner : Text → Bool
unfolding text_eq text
is_inner s = not (text_eq s []) && not (text_eq s (text "."))

first_pieces : List Text → PathBuf
unfolding piece_component is_inner filter
first_pieces [] = []
first_pieces (p ∷ ps) = piece_component p ∷ map piece_component (filter is_inner ps)

unfoldable pub parse_path : Text → PathBuf
unfolding piece_component is_inner first_pieces split filter
parse_path [] = []
parse_path (c ∷ s) =
    if c == b'/'
    then root_dir ∷ map piece_component (filter is_inner (split (λ d. d == b'/') s))
    else first_pieces (split (λ d. d == b'/') (c ∷ s))

unfoldable pub is_absolute : PathBuf → Bool
is_absolute (root_dir ∷ _) = true
is_absolute _ = false

-- `Path::starts_with` compares whole components, and `strip_prefix` gives those behind them.
unfoldable pub path_starts_with : PathBuf → PathBuf → Bool
unfolding component_eq
path_starts_with p [] = true
path_starts_with [] (_ ∷ _) = false
path_starts_with (a ∷ p) (b ∷ q) = component_eq a b && path_starts_with p q

unfoldable pub strip_prefix : PathBuf → PathBuf → Option PathBuf
unfolding component_eq
strip_prefix p [] = some p
strip_prefix [] (_ ∷ _) = none
strip_prefix (a ∷ p) (b ∷ q) =
    let rest = strip_prefix p q in if component_eq a b then rest else none

-- `PathBuf::push`: an absolute path replaces what is there.
unfoldable pub push : PathBuf → Component → PathBuf
push path root_dir = root_dir ∷ []
push path c = path ++ c ∷ []

-- `PathBuf::pop`: the last component goes, but not the root.
unfoldable pub pop : PathBuf → PathBuf
pop [] = []
pop (root_dir ∷ []) = root_dir ∷ []
pop (c ∷ []) = []
pop (c ∷ d ∷ path) = c ∷ pop (d ∷ path)

-- One turn of the loop of `normalize_path`.
unfoldable pub normalize_component : PathBuf → Component → PathBuf
unfolding push pop
normalize_component path root_dir = push path root_dir
normalize_component path cur_dir = path
normalize_component path parent_dir = pop path
normalize_component path (normal s) = push path (normal s)

unfoldable pub normalize_from : PathBuf → PathBuf → PathBuf
unfolding normalize_component
normalize_from path [] = path
normalize_from path (c ∷ cs) = normalize_from (normalize_component path c) cs

unfoldable pub normalize_path : PathBuf → PathBuf
unfolding normalize_from
normalize_path path = normalize_from [] path

-- `to_string_lossy` of a path with these components.
component_text : Component → Text
component_text root_dir = []
component_text cur_dir = text "."
component_text parent_dir = text ".."
component_text (normal s) = s

unfoldable pub path_text : PathBuf → Text
unfolding component_text join text
path_text (root_dir ∷ path) = text "/" ++ join (text "/") (map component_text path)
path_text path = join (text "/") (map component_text path)
