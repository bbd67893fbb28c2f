-- ===== src/Common/Sort/Stable.antt =====
-- Sorting once more, sorting what a test keeps, and sorting with one more item at the end.
use mathlib.Core.Path.{◌≡◌, refl, sym, ap, ◌∙◌}
use mathlib.Core.Bool.{Bool, true}
use mathlib.Core.Logic.{inl, inr}
use mathlib.Core.List.{List, [], ◌∷◌, ◌++◌}
use native.Mathlib.Omega.{arith}
use readflow.Common.Tests.{if◌then◌else◌, Bool-cases}
use readflow.Common.Lists.{keep, All-keep}
use readflow.Common.Sort.{
  insert_by, sort_by, IsSorted, IsTransitive, IsTotal, insert_by_of_le, sort_by-IsSorted,
  All-le_trans, sort_by_of_IsSorted,
}

module _ {ℓ} {A : Type ℓ} (le : A → A → Bool) (trans : IsTransitive le) (total : IsTotal le) where
  -- The place of an item behind its equals.
  insert_last : A → List A → List A
  insert_last c [] = c ∷ []
  insert_last c (x ∷ xs) = if le x c then x ∷ insert_last c xs else c ∷ x ∷ xs

  insert-insert_last :
      (x c : A) (ys : List A)
      → insert_by le x (insert_last c ys) ≡ insert_last c (insert_by le x ys)
  unfolding insert_by insert_last
  insert-insert_last x c [] = ground (arith, total x c)
  insert-insert_last x c (y ∷ ys) =
      ground (
        arith,
        insert-insert_last x c ys,
        trans x y c,
        trans y x c,
        total x y,
        total y c,
        total x c,
      )

  sort_by-snoc : (xs : List A) (c : A) → sort_by le (xs ++ c ∷ []) ≡ insert_last c (sort_by le xs)
  unfolding sort_by insert_last
  sort_by-snoc [] c = refl
  sort_by-snoc (x ∷ xs) c =
      ap (insert_by le x) (sort_by-snoc xs c) ∙ insert-insert_last x c (sort_by le xs)

  keep-insert_by_sorted :
      (p : A → Bool) (x : A) (ys : List A)
      → IsSorted le ys
      → keep p (insert_by le x ys) ≡ (if p x then insert_by le x (keep p ys) else keep p ys)
  unfolding insert_by
  keep-insert_by_sorted p x [] s = ground arith
  keep-insert_by_sorted p x (y ∷ ys) s = elim (Bool-cases (le x y)) [
    | inl h ↦ ground (
      arith,
      h,
      insert_by_of_le le x (keep p ys)
          (All-keep (λ z. le x z ≡ true) p ys (All-le_trans le trans x y ys h s.0)),
    )
    | inr h ↦ ground (arith, h, keep-insert_by_sorted p x ys s.1)
  ]

  pub sort_by-keep : (p : A → Bool) (xs : List A) → keep p (sort_by le xs) ≡ sort_by le (keep p xs)
  unfolding sort_by
  sort_by-keep p [] = refl
  sort_by-keep p (x ∷ xs) = ground (
    arith,
    keep-insert_by_sorted p x (sort_by le xs) (sort_by-IsSorted le trans total xs),
    sort_by-keep p xs,
  )

  pub sort_by_idem : (xs : List A) → sort_by le (sort_by le xs) ≡ sort_by le xs
  sort_by_idem xs = sort_by_of_IsSorted le (sort_by le xs) (sort_by-IsSorted le trans total xs)

  -- Replacing by a test and appending sees a list only up to sorting.
  pub sort_by-keep_snoc :
      (p : A → Bool) (xs : List A) (c : A)
      → sort_by le (keep p (sort_by le xs) ++ c ∷ []) ≡ sort_by le (keep p xs ++ c ∷ [])
  sort_by-keep_snoc p xs c =
      sort_by-snoc (keep p (sort_by le xs)) c
      ∙ ap (λ ys. insert_last c (sort_by le ys)) (sort_by-keep p xs)
      ∙ ap (insert_last c) (sort_by_idem (keep p xs))
      ∙ sym (sort_by-snoc (keep p xs) c)
