-- ===== src/Prelude/Sort.antt =====
-- The stable sort of the standard library, as insertion of each element before the first one
-- that it is not greater than, and `Vec::dedup_by`.
use mathlib.Core.Path.{◌≡◌, refl}
use mathlib.Core.Logic.{◌⊎◌, inl, inr}
use mathlib.Core.Bool.{Bool, true, false, ◌||◌}
use mathlib.Core.List.{List, [], ◌∷◌, Memᴰ}
use mathlib.Core.List.Memᴰ
use Prim.Native.Nat.{suc}
use native.Mathlib.Omega.{arith}
use cogito_ai.Prelude.Tests.{if◌then◌else◌, Bool-cases}
use cogito_ai.Prelude.Lists.{length, any, All, All-imp, All-mem}

module _ {ℓ} {A : Type ℓ} (le : A → A → Bool) where
  unfoldable pub insert_by : A → List A → List A
  insert_by x [] = x ∷ []
  insert_by x (y ∷ ys) = let rest = insert_by x ys in if le x y then x ∷ y ∷ ys else y ∷ rest

  unfoldable pub sort_by : List A → List A
  unfolding insert_by
  sort_by [] = []
  sort_by (x ∷ xs) = insert_by x (sort_by xs)

  pub length-insert_by : (x : A) (xs : List A) → length (insert_by x xs) ≡ suc (length xs)
  unfolding insert_by
  length-insert_by x [] = refl
  length-insert_by x (y ∷ ys) = ground (arith, length-insert_by x ys)

  pub length-sort_by : (xs : List A) → length (sort_by xs) ≡ length xs
  unfolding sort_by
  length-sort_by [] = refl
  length-sort_by (x ∷ xs) = ground (arith, length-insert_by x (sort_by xs), length-sort_by xs)

  pub any-insert_by :
      (p : A → Bool) (x : A) (xs : List A) → any p (insert_by x xs) ≡ (p x || any p xs)
  unfolding insert_by any
  any-insert_by p x [] = refl
  any-insert_by p x (y ∷ ys) = ground (arith, any-insert_by p x ys)

  pub any-sort_by : (p : A → Bool) (xs : List A) → any p (sort_by xs) ≡ any p xs
  unfolding sort_by any
  any-sort_by p [] = refl
  any-sort_by p (x ∷ xs) = ground (arith, any-insert_by p x (sort_by xs), any-sort_by p xs)

  pub mem-insert_by : (x : A) (xs : List A) {a : A} → Memᴰ a (insert_by x xs) → (a ≡ x) ⊎ Memᴰ a xs
  unfolding insert_by
  mem-insert_by x [] m = Memᴰ.cases_cons m
  mem-insert_by x (y ∷ ys) {a} m = elim (Bool-cases (le x y)) [
    | inl e ↦ Memᴰ.cases_cons (rw e at m)
    | inr e ↦ elim (Memᴰ.cases_cons (rw e at m)) [
      | inl h ↦ inr (Memᴰ.head h)
      | inr t ↦ elim (mem-insert_by x ys t) [ inl h ↦ inl h | inr u ↦ inr (Memᴰ.tail u) ]
    ]
  ]

  pub mem-sort_by : (xs : List A) {a : A} → Memᴰ a (sort_by xs) → Memᴰ a xs
  unfolding sort_by
  mem-sort_by [] m = m
  mem-sort_by (x ∷ xs) m = elim (mem-insert_by x (sort_by xs) m) [
    | inl e ↦ Memᴰ.head e
    | inr t ↦ Memᴰ.tail (mem-sort_by xs t)
  ]

  insert_by-mem_self : (x : A) (xs : List A) → Memᴰ x (insert_by x xs)
  unfolding insert_by
  insert_by-mem_self x [] = Memᴰ.head refl
  insert_by-mem_self x (y ∷ ys) = elim (Bool-cases (le x y)) [
    | inl e ↦ rw e (Memᴰ.head refl)
    | inr e ↦ rw e (Memᴰ.tail (insert_by-mem_self x ys))
  ]

  insert_by-mem_old : (x : A) (xs : List A) {a : A} → Memᴰ a xs → Memᴰ a (insert_by x xs)
  unfolding insert_by
  insert_by-mem_old x [] m = Memᴰ.tail m
  insert_by-mem_old x (y ∷ ys) (Memᴰ.head h) = elim (Bool-cases (le x y)) [
    | inl e ↦ rw e (Memᴰ.tail (Memᴰ.head h))
    | inr e ↦ rw e (Memᴰ.head h)
  ]
  insert_by-mem_old x (y ∷ ys) (Memᴰ.tail m) = elim (Bool-cases (le x y)) [
    | inl e ↦ rw e (Memᴰ.tail (Memᴰ.tail m))
    | inr e ↦ rw e (Memᴰ.tail (insert_by-mem_old x ys m))
  ]

  pub sort_by-mem : (xs : List A) {a : A} → Memᴰ a xs → Memᴰ a (sort_by xs)
  unfolding sort_by
  sort_by-mem [] m = m
  sort_by-mem (x ∷ xs) (Memᴰ.head h) = rw h (insert_by-mem_self x (sort_by xs))
  sort_by-mem (x ∷ xs) (Memᴰ.tail m) = insert_by-mem_old x (sort_by xs) (sort_by-mem xs m)

  pub All-insert_by {κ} :
      (P : A → Type κ) (x : A) (xs : List A) → P x → All P xs → All P (insert_by x xs)
  unfolding insert_by
  All-insert_by P x [] p h = (p, tt)
  All-insert_by P x (y ∷ ys) p h = elim (Bool-cases (le x y)) [
    | inl e ↦ rw e (p, h)
    | inr e ↦ rw e (h.0, All-insert_by P x ys p h.1)
  ]

  pub All-sort_by {κ} : (P : A → Type κ) (xs : List A) → All P xs → All P (sort_by xs)
  unfolding sort_by
  All-sort_by P [] h = tt
  All-sort_by P (x ∷ xs) h = All-insert_by P x (sort_by xs) h.0 (All-sort_by P xs h.1)

  -- Each element is at most every later one.
  abbrev pub IsSorted : List A → Type 0
  IsSorted [] = Unit
  IsSorted (x ∷ xs) = All (λ y. le x y ≡ true) xs × IsSorted xs

  -- A total and transitive test sorts.
  module _ (total : (a b : A) → le a b ≡ false → le b a ≡ true)
      (transitive : (a b c : A) → le a b ≡ true → le b c ≡ true → le a c ≡ true) where
    insert_by-IsSorted : (x : A) (xs : List A) → IsSorted xs → IsSorted (insert_by x xs)
    unfolding insert_by
    insert_by-IsSorted x [] s = (tt, tt)
    insert_by-IsSorted x (y ∷ ys) s = elim (Bool-cases (le x y)) [
      | inl e ↦ rw e ((e, All-imp _ _ (λ z h. transitive x y z e h) ys s.0), s)
      | inr e ↦ rw e (All-insert_by _ x ys (total x y e) s.0, insert_by-IsSorted x ys s.1)
    ]

    pub sort_by-IsSorted : (xs : List A) → IsSorted (sort_by xs)
    unfolding sort_by
    sort_by-IsSorted [] = tt
    sort_by-IsSorted (x ∷ xs) = insert_by-IsSorted x (sort_by xs) (sort_by-IsSorted xs)

    -- The first element of the sorted list comes from the list and is at most all of it.
    pub sort_by-cons :
        (xs : List A) {x : A} {ys : List A}
        → ((a : A) → le a a ≡ true)
        → sort_by xs ≡ x ∷ ys
        → Memᴰ x xs × ((a : A) → Memᴰ a xs → le x a ≡ true)
    sort_by-cons xs {x} {ys} reflexive h = (
      mem-sort_by xs (rw h (Memᴰ.head refl)),
      λ a m. least a (rw h at (sort_by-mem xs m)) (rw h at (sort_by-IsSorted xs)),
    )
      where
        least : (a : A) → Memᴰ a (x ∷ ys) → IsSorted (x ∷ ys) → le x a ≡ true
        least a (Memᴰ.head e) s = rw e (reflexive x)
        least a (Memᴰ.tail m) s = All-mem (λ y. le x y ≡ true) ys s.0 m
