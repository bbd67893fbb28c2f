-- ===== src/Common/Sort.antt =====
-- `Array.prototype.sort`: stable, by a comparator. `le a b` is "the comparator gives at most 0".
pub mod Stable
use mathlib.Core.Path.{◌≡◌, refl}
use mathlib.Core.Bool.{Bool, true, false}
use mathlib.Core.Logic.{inl, inr}
use mathlib.Core.Option.{Option, none, some}
use mathlib.Core.List.{List, [], ◌∷◌, Perm}
use mathlib.Core.List.Perm
use native.Mathlib.Omega.{arith}
use readflow.Common.Tests.{if◌then◌else◌, Bool-cases}
use readflow.Common.Lists.{keep, find, All}

module _ {ℓ} {A : Type ℓ} (le : A → A → Bool) where
  unfoldable pub insert_by : A → List A → List A
  insert_by a [] = a ∷ []
  insert_by a (x ∷ xs) = if le a x then a ∷ x ∷ xs else x ∷ insert_by a xs

  unfoldable pub sort_by : List A → List A
  unfolding insert_by
  sort_by [] = []
  sort_by (x ∷ xs) = insert_by x (sort_by xs)

  abbrev pub IsSorted : List A → Type ℓ
  IsSorted [] = Unit
  IsSorted (x ∷ xs) = All (λ y. le x y ≡ true) xs × IsSorted xs

  insert_by-perm : (a : A) (xs : List A) → Perm (insert_by a xs) (a ∷ xs)
  unfolding insert_by
  insert_by-perm a [] = Perm.refl _
  insert_by-perm a (x ∷ xs) = elim (Bool-cases (le a x)) [
    | inl h ↦ rw h (Perm.refl _)
    | inr h ↦ rw h (Perm.trans (Perm.cons x (insert_by-perm a xs)) (Perm.swap a x xs))
  ]

  pub sort_by-perm : (xs : List A) → Perm (sort_by xs) xs
  unfolding sort_by
  sort_by-perm [] = Perm.refl _
  sort_by-perm (x ∷ xs) = Perm.trans (insert_by-perm x (sort_by xs)) (Perm.cons x (sort_by-perm xs))

  All-insert_by {κ} :
      (P : A → Type κ) (a : A) (xs : List A) → P a → All P xs → All P (insert_by a xs)
  unfolding insert_by
  All-insert_by P a [] p h = (p, tt)
  All-insert_by P a (x ∷ xs) p h = elim (Bool-cases (le a x)) [
    | inl e ↦ rw e (p, h)
    | inr e ↦ rw e (h.0, All-insert_by P a xs p h.1)
  ]

  pub All-sort_by {κ} : (P : A → Type κ) (xs : List A) → All P xs → All P (sort_by xs)
  unfolding sort_by
  All-sort_by P [] h = tt
  All-sort_by P (x ∷ xs) h = All-insert_by P x (sort_by xs) h.0 (All-sort_by P xs h.1)

  -- What a test that holds of equal items keeps, it keeps in the same order.
  module _ (p : A → Bool) (same : (a b : A) → p a ≡ true → p b ≡ true → le a b ≡ true) where
    keep-insert_by : (a : A) (xs : List A) → keep p (insert_by a xs) ≡ keep p (a ∷ xs)
    unfolding insert_by
    keep-insert_by a [] = refl
    keep-insert_by a (x ∷ xs) = ground (arith, keep-insert_by a xs, same a x)

    pub keep-sort_by : (xs : List A) → keep p (sort_by xs) ≡ keep p xs
    unfolding sort_by
    keep-sort_by [] = refl
    keep-sort_by (x ∷ xs) = ground (arith, keep-insert_by x (sort_by xs), keep-sort_by xs)

  abbrev pub IsTransitive : Type ℓ
  IsTransitive = (a b c : A) → le a b ≡ true → le b c ≡ true → le a c ≡ true

  abbrev pub IsTotal : Type ℓ
  IsTotal = (a b : A) → le a b ≡ false → le b a ≡ true

  pub All-le_trans :
      IsTransitive
      → (a b : A) (xs : List A) → le a b ≡ true
      → All (λ y. le b y ≡ true) xs
      → All (λ y. le a y ≡ true) xs
  All-le_trans trans a b [] h k = tt
  All-le_trans trans a b (x ∷ xs) h k = (trans a b x h k.0, All-le_trans trans a b xs h k.1)

  insert_by-IsSorted :
      IsTransitive → IsTotal → (a : A) (xs : List A) → IsSorted xs → IsSorted (insert_by a xs)
  unfolding insert_by
  insert_by-IsSorted trans total a [] s = (tt, tt)
  insert_by-IsSorted trans total a (x ∷ xs) s = elim (Bool-cases (le a x)) [
    | inl h ↦ rw h ((h, All-le_trans trans a x xs h s.0), s)
    | inr h ↦ rw h (
      All-insert_by (λ y. le x y ≡ true) a xs (total a x h) s.0,
      insert_by-IsSorted trans total a xs s.1,
    )
  ]

  pub sort_by-IsSorted : IsTransitive → IsTotal → (xs : List A) → IsSorted (sort_by xs)
  unfolding sort_by
  sort_by-IsSorted trans total [] = tt
  sort_by-IsSorted trans total (x ∷ xs) =
      insert_by-IsSorted trans total x (sort_by xs) (sort_by-IsSorted trans total xs)

  pub insert_by_of_le :
      (a : A) (xs : List A) → All (λ y. le a y ≡ true) xs → insert_by a xs ≡ a ∷ xs
  unfolding insert_by
  insert_by_of_le a [] h = refl
  insert_by_of_le a (x ∷ xs) h = rw (h.0)

  -- Sorting a sorted list changes nothing.
  pub sort_by_of_IsSorted : (xs : List A) → IsSorted xs → sort_by xs ≡ xs
  unfolding sort_by
  sort_by_of_IsSorted [] s = refl
  sort_by_of_IsSorted (x ∷ xs) s = rw (sort_by_of_IsSorted xs s.1) (insert_by_of_le x xs s.0)

-- A relation between each item and every later one.
abbrev pub Pairs {ℓ κ} : {A : Type ℓ} → (A → A → Type κ) → List A → Type κ
Pairs R [] = Unit
Pairs R (x ∷ xs) = All (R x) xs × Pairs R xs

module _ {ℓ κ} {A : Type ℓ} (le : A → A → Bool) (R : A → A → Type κ) where
  All-flip :
      ((a b : A) → R a b → R b a) → (a : A) (xs : List A) → All (λ b. R b a) xs → All (R a) xs
  All-flip flip a [] h = tt
  All-flip flip a (x ∷ xs) h = (flip x a h.0, All-flip flip a xs h.1)

  Pairs-insert_by :
      ((a b : A) → R a b → R b a)
      → (a : A) (xs : List A) → All (R a) xs
      → Pairs R xs
      → Pairs R (insert_by le a xs)
  unfolding insert_by
  Pairs-insert_by flip a [] h k = (tt, tt)
  Pairs-insert_by flip a (x ∷ xs) h k = elim (Bool-cases (le a x)) [
    | inl e ↦ rw e (h, k)
    | inr e ↦
        rw e (All-insert_by le (R x) a xs (flip a x h.0) k.0, Pairs-insert_by flip a xs h.1 k.1)
  ]

  -- Sorting keeps a symmetric relation between all items.
  pub Pairs-sort_by :
      ((a b : A) → R a b → R b a) → (xs : List A) → Pairs R xs → Pairs R (sort_by le xs)
  unfolding sort_by
  Pairs-sort_by flip [] h = tt
  Pairs-sort_by flip (x ∷ xs) h =
      Pairs-insert_by flip x (sort_by le xs) (All-sort_by le (R x) xs h.0)
        (Pairs-sort_by flip xs h.1)

head_of {ℓ} : {A : Type ℓ} → List A → Option A
head_of [] = none
head_of (x ∷ xs) = some x

find-keep {ℓ} : {A : Type ℓ} (p : A → Bool) (xs : List A) → find p xs ≡ head_of (keep p xs)
unfolding head_of
find-keep p [] = refl
find-keep p (x ∷ xs) = ground (arith, find-keep p xs)

-- `find` looks at what the test keeps only.
pub find_of_keep {ℓ} :
    {A : Type ℓ} (p : A → Bool) (xs ys : List A) → keep p xs ≡ keep p ys → find p xs ≡ find p ys
find_of_keep p xs ys h = ground (arith, find-keep p xs, find-keep p ys)
