-- ===== src/Policy/Paths/Laws.antt =====
-- What `normalize_path` returns, and what a component prefix is.
use cogito_ai.Prelude.{
  true, ◌≡◌, refl, ap, ap₂, sym, ◌∙◌, some, [], ◌∷◌, ◌++◌, arith, append_assoc, append-nil,
  and-eq-true,
}
use cogito_ai.Prelude.Text.{Text}
use cogito_ai.Prelude.Text.Laws.{text_eq_sound, text_eq_refl}
use cogito_ai.Policy.Paths.{
  Component, root_dir, cur_dir, parent_dir, normal, PathBuf, component_eq, path_starts_with,
  strip_prefix, pop, normalize_component, normalize_from, normalize_path,
}

-- Names only, and names behind at most one root.
abbrev pub IsNames : PathBuf → Type 0
IsNames [] = Unit
IsNames (normal s ∷ path) = IsNames path
IsNames (_ ∷ path) = ⊥

abbrev pub IsNormalized : PathBuf → Type 0
IsNormalized (root_dir ∷ path) = IsNames path
IsNormalized path = IsNames path

IsNames-snoc : (path : PathBuf) (s : Text) → IsNames path → IsNames (path ++ normal s ∷ [])
IsNames-snoc [] s h = tt
IsNames-snoc (normal t ∷ path) s h = IsNames-snoc path s h
IsNames-snoc (root_dir ∷ path) s h = absurd h
IsNames-snoc (cur_dir ∷ path) s h = absurd h
IsNames-snoc (parent_dir ∷ path) s h = absurd h

pub IsNormalized-snoc :
    (path : PathBuf) (s : Text) → IsNormalized path → IsNormalized (path ++ normal s ∷ [])
IsNormalized-snoc [] s h = tt
IsNormalized-snoc (root_dir ∷ path) s h = IsNames-snoc path s h
IsNormalized-snoc (normal t ∷ path) s h = IsNames-snoc path s h
IsNormalized-snoc (cur_dir ∷ path) s h = absurd h
IsNormalized-snoc (parent_dir ∷ path) s h = absurd h

pop-IsNames : (path : PathBuf) → IsNames path → IsNames (pop path)
unfolding pop
pop-IsNames [] h = tt
pop-IsNames (normal s ∷ []) h = tt
pop-IsNames (normal s ∷ c ∷ path) h = pop-IsNames (c ∷ path) h
pop-IsNames (root_dir ∷ path) h = absurd h
pop-IsNames (cur_dir ∷ path) h = absurd h
pop-IsNames (parent_dir ∷ path) h = absurd h

pub pop-IsNormalized : (path : PathBuf) → IsNormalized path → IsNormalized (pop path)
unfolding pop
pop-IsNormalized [] h = tt
pop-IsNormalized (root_dir ∷ []) h = tt
pop-IsNormalized (root_dir ∷ c ∷ path) h = pop-IsNames (c ∷ path) h
pop-IsNormalized (normal s ∷ []) h = tt
pop-IsNormalized (normal s ∷ c ∷ path) h = pop-IsNames (c ∷ path) h
pop-IsNormalized (cur_dir ∷ path) h = absurd h
pop-IsNormalized (parent_dir ∷ path) h = absurd h

normalize_component-IsNormalized :
    (path : PathBuf) (c : Component) → IsNormalized path → IsNormalized (normalize_component path c)
unfolding normalize_component
normalize_component-IsNormalized path root_dir h = tt
normalize_component-IsNormalized path cur_dir h = h
normalize_component-IsNormalized path parent_dir h = pop-IsNormalized path h
normalize_component-IsNormalized path (normal s) h = IsNormalized-snoc path s h

normalize_from-IsNormalized :
    (path cs : PathBuf) → IsNormalized path → IsNormalized (normalize_from path cs)
unfolding normalize_from
normalize_from-IsNormalized path [] h = h
normalize_from-IsNormalized path (c ∷ cs) h =
    normalize_from-IsNormalized (normalize_component path c) cs
      (normalize_component-IsNormalized path c h)

pub normalize_path-IsNormalized : (path : PathBuf) → IsNormalized (normalize_path path)
unfolding normalize_path
normalize_path-IsNormalized path = normalize_from-IsNormalized [] path tt

-- Names are appended as they stand.
pub normalize_from-names : (path cs : PathBuf) → IsNames cs → normalize_from path cs ≡ path ++ cs
unfolding normalize_from
normalize_from-names path [] h = sym (append-nil path)
normalize_from-names path (normal s ∷ cs) h =
    normalize_from-names (path ++ normal s ∷ []) cs h ∙ append_assoc path (normal s ∷ []) cs
normalize_from-names path (root_dir ∷ cs) h = absurd h
normalize_from-names path (cur_dir ∷ cs) h = absurd h
normalize_from-names path (parent_dir ∷ cs) h = absurd h

component_eq_sound : (a b : Component) → component_eq a b ≡ true → a ≡ b
unfolding component_eq
component_eq_sound root_dir root_dir h = refl
component_eq_sound cur_dir cur_dir h = refl
component_eq_sound parent_dir parent_dir h = refl
component_eq_sound (normal s) (normal t) h = ap normal (text_eq_sound s t h)
component_eq_sound _ _ h = absurd (ground arith)

component_eq_refl : (a : Component) → component_eq a a ≡ true
unfolding component_eq
component_eq_refl root_dir = refl
component_eq_refl cur_dir = refl
component_eq_refl parent_dir = refl
component_eq_refl (normal s) = text_eq_refl s

pub path_starts_with_sound :
    (p q : PathBuf) → path_starts_with p q ≡ true → (rest : PathBuf) × (p ≡ q ++ rest)
unfolding path_starts_with
path_starts_with_sound p [] h = (p, refl)
path_starts_with_sound [] (b ∷ q) h = absurd (ground arith)
path_starts_with_sound (a ∷ p) (b ∷ q) h =
    let (e, f) = and-eq-true (component_eq a b) (path_starts_with p q) h in
    let (rest, g) = path_starts_with_sound p q f in (rest, ap₂ ◌∷◌ (component_eq_sound a b e) g)

pub path_starts_with-append : (q rest : PathBuf) → path_starts_with (q ++ rest) q ≡ true
unfolding path_starts_with
path_starts_with-append [] [] = refl
path_starts_with-append [] (_ ∷ _) = refl
path_starts_with-append (b ∷ q) rest =
    ground (arith, component_eq_refl b, path_starts_with-append q rest)

-- `strip_prefix` gives what stands behind the prefix, and fails exactly where there is none.
pub strip_prefix-append : (q rest : PathBuf) → strip_prefix (q ++ rest) q ≡ some rest
unfolding strip_prefix
strip_prefix-append [] [] = refl
strip_prefix-append [] (_ ∷ _) = refl
strip_prefix-append (b ∷ q) rest = ground (arith, component_eq_refl b, strip_prefix-append q rest)
