-- ===== src/Policy/Paths/Rules.antt =====
-- The rules by which `normalize_path` resolves paths, which determine it.
use cogito_ai.Prelude.{
  ◌≡◌, ◌↔◌, refl, subst, ap, sym, ◌∙◌, List, [], ◌∷◌, ◌++◌, map, append_assoc, append-nil,
}
use mathlib.Core.Path.{fun_ext}
use cogito_ai.Prelude.Text.{Text}
use cogito_ai.Policy.Paths.{
  Component, root_dir, cur_dir, parent_dir, normal, PathBuf, push, pop, normalize_component,
  normalize_from, normalize_path,
}
use cogito_ai.Policy.Paths.Laws.{
  IsNames, IsNormalized, IsNormalized-snoc, pop-IsNormalized, normalize_from-names,
}

normalize_from-append :
    (path p q : PathBuf) → normalize_from path (p ++ q) ≡ normalize_from (normalize_from path p) q
unfolding normalize_from
normalize_from-append path [] q = refl
normalize_from-append path (c ∷ p) q = normalize_from-append (normalize_component path c) p q

pop-snoc : (path : PathBuf) (s : Text) → pop (path ++ normal s ∷ []) ≡ path
unfolding pop
pop-snoc [] s = refl
pop-snoc (root_dir ∷ []) s = refl
pop-snoc (cur_dir ∷ []) s = refl
pop-snoc (parent_dir ∷ []) s = refl
pop-snoc (normal t ∷ []) s = refl
pop-snoc (c ∷ d ∷ path) s = ap (λ (p : PathBuf). c ∷ p) (pop-snoc (d ∷ path) s)

map-normal-IsNames : (names : List Text) → IsNames (map normal names)
map-normal-IsNames [] = tt
map-normal-IsNames (s ∷ names) = map-normal-IsNames names

-- The rules by which paths are resolved, for a path with p in front and q behind: names stay, with or
-- without the root; a `.` is dropped; a name goes with the `..` behind it; a `..` with nothing or only
-- the root in front of it is dropped; and a root drops what stands in front.
pub record AreResolved (f : PathBuf → PathBuf) (p q : PathBuf) (s : Text) (names : List Text)
    : Type 0 where
  pub names_stay : f (map normal names) ≡ map normal names
  pub root_stays : f (root_dir ∷ map normal names) ≡ root_dir ∷ map normal names
  pub dot_dropped : f (p ++ cur_dir ∷ q) ≡ f (p ++ q)
  pub parent_resolved : f (p ++ normal s ∷ parent_dir ∷ q) ≡ f (p ++ q)
  pub parent_at_front : f (parent_dir ∷ q) ≡ f q
  pub parent_at_root : f (root_dir ∷ parent_dir ∷ q) ≡ f (root_dir ∷ q)
  pub root_restarts : f (p ++ root_dir ∷ q) ≡ f (root_dir ∷ q)

normalize_path-AreResolved :
    (p q : PathBuf) (s : Text) (names : List Text) → AreResolved normalize_path p q s names
unfolding normalize_path normalize_from normalize_component push
normalize_path-AreResolved p q s names = record {
  names_stay = normalize_from-names [] (map normal names) (map-normal-IsNames names);
  root_stays = normalize_from-names (root_dir ∷ []) (map normal names) (map-normal-IsNames names);
  dot_dropped = normalize_from-append [] p (cur_dir ∷ q) ∙ sym (normalize_from-append [] p q);
  parent_resolved =
      normalize_from-append [] p (normal s ∷ parent_dir ∷ q)
      ∙ ap (λ (r : PathBuf). normalize_from r q) (pop-snoc (normalize_from [] p) s)
      ∙ sym (normalize_from-append [] p q);
  parent_at_front = refl;
  parent_at_root = refl;
  root_restarts = normalize_from-append [] p (root_dir ∷ q);
}

-- A normalized path is empty or the root, or ends in a name.
data Ends (path : PathBuf) : Type 0 where
  empty : path ≡ [] → Ends path
  root : path ≡ root_dir ∷ [] → Ends path
  name : (front : PathBuf) (s : Text) → path ≡ front ++ normal s ∷ [] → Ends path

cons-Ends : (c : Component) (s : Text) (path : PathBuf) → IsNames path → Ends (c ∷ normal s ∷ path)
cons-Ends c s [] h = name (c ∷ []) s refl
cons-Ends c s (normal t ∷ path) h = behind (cons-Ends (normal s) t path h)
  where
    behind : Ends (normal s ∷ normal t ∷ path) → Ends (c ∷ normal s ∷ normal t ∷ path)
    behind (empty e) = absurd (cc)
    behind (root e) = absurd (cc)
    behind (name front u e) = name (c ∷ front) u (ap (λ (p : PathBuf). c ∷ p) e)
cons-Ends c s (root_dir ∷ path) h = absurd h
cons-Ends c s (cur_dir ∷ path) h = absurd h
cons-Ends c s (parent_dir ∷ path) h = absurd h

Ends_of_IsNormalized : (path : PathBuf) → IsNormalized path → Ends path
Ends_of_IsNormalized [] h = empty refl
Ends_of_IsNormalized (root_dir ∷ []) h = root refl
Ends_of_IsNormalized (root_dir ∷ normal s ∷ path) h = cons-Ends root_dir s path h
Ends_of_IsNormalized (normal s ∷ []) h = name [] s refl
Ends_of_IsNormalized (normal s ∷ normal t ∷ path) h = cons-Ends (normal s) t path h
Ends_of_IsNormalized (root_dir ∷ root_dir ∷ path) h = absurd h
Ends_of_IsNormalized (root_dir ∷ cur_dir ∷ path) h = absurd h
Ends_of_IsNormalized (root_dir ∷ parent_dir ∷ path) h = absurd h
Ends_of_IsNormalized (normal s ∷ root_dir ∷ path) h = absurd h
Ends_of_IsNormalized (normal s ∷ cur_dir ∷ path) h = absurd h
Ends_of_IsNormalized (normal s ∷ parent_dir ∷ path) h = absurd h
Ends_of_IsNormalized (cur_dir ∷ path) h = absurd h
Ends_of_IsNormalized (parent_dir ∷ path) h = absurd h

all_names : (path : PathBuf) → IsNames path → (names : List Text) × (path ≡ map normal names)
all_names [] h = ([], refl)
all_names (normal s ∷ path) h =
    let (names, e) = all_names path h in (s ∷ names, ap (λ (p : PathBuf). normal s ∷ p) e)
all_names (root_dir ∷ path) h = absurd h
all_names (cur_dir ∷ path) h = absurd h
all_names (parent_dir ∷ path) h = absurd h

module _ (f : PathBuf → PathBuf)
    (r : (p q : PathBuf) (s : Text) (names : List Text) → AreResolved f p q s names) where
  resolved_stays : (path : PathBuf) → IsNormalized path → f path ≡ path
  resolved_stays [] h = (r [] [] [] []).names_stay
  resolved_stays (root_dir ∷ path) h =
      let (names, e) = all_names path h in rw e ((r [] [] [] names).root_stays)
  resolved_stays (normal s ∷ path) h =
      let (names, e) = all_names path h in rw e ((r [] [] [] (s ∷ names)).names_stay)
  resolved_stays (cur_dir ∷ path) h = absurd h
  resolved_stays (parent_dir ∷ path) h = absurd h

  parent_step : (path q : PathBuf) → Ends path → f (path ++ parent_dir ∷ q) ≡ f (pop path ++ q)
  unfolding pop
  parent_step path q (empty e) = rw e ((r [] q [] []).parent_at_front)
  parent_step path q (root e) = rw e ((r [] q [] []).parent_at_root)
  parent_step path q (name front s e) =
      rw (e, append_assoc front (normal s ∷ []) (parent_dir ∷ q), pop-snoc front s)
        ((r front q s []).parent_resolved)

  resolved_from : (path cs : PathBuf) → IsNormalized path → f (path ++ cs) ≡ normalize_from path cs
  unfolding normalize_from normalize_component push
  resolved_from path [] h = rw (append-nil path) (resolved_stays path h)
  resolved_from path (normal s ∷ cs) h =
      ap f (sym (append_assoc path (normal s ∷ []) cs))
      ∙ resolved_from (path ++ normal s ∷ []) cs (IsNormalized-snoc path s h)
  resolved_from path (cur_dir ∷ cs) h = (r path cs [] []).dot_dropped ∙ resolved_from path cs h
  resolved_from path (root_dir ∷ cs) h =
      (r path cs [] []).root_restarts ∙ resolved_from (root_dir ∷ []) cs tt
  resolved_from path (parent_dir ∷ cs) h =
      parent_step path cs (Ends_of_IsNormalized path h)
      ∙ resolved_from (pop path) cs (pop-IsNormalized path h)

-- `normalize_path` is the only function that resolves paths by the rules for names, the root, `.` and
-- `..`, wherever they stand in a path.
pub normalize_path_iff :
    (f : PathBuf → PathBuf)
    → ((p q : PathBuf) (s : Text) (names : List Text) → AreResolved f p q s names)
      ↔ ((path : PathBuf) → f path ≡ normalize_path path)
unfolding normalize_path
normalize_path_iff f = (
  λ r path. resolved_from f r [] path tt,
  λ same p q s names.
      subst (λ (g : PathBuf → PathBuf). AreResolved g p q s names) (sym (fun_ext same))
        (normalize_path-AreResolved p q s names),
)
