-- ===== src/Common/Sets.antt =====
-- The JavaScript `Set` and `Map`: a set as the list of its members in insertion order, a map as an
-- association list in which the first entry of a key counts.
use Prim.Native.Nat.{ℕ}
use Prim.Native.String.{String}
use mathlib.Core.Path.{◌≡◌, refl}
use mathlib.Core.Logic.{◌↔◌}
use mathlib.Core.Bool.{Bool, true, false, ◌||◌}
use mathlib.Core.Option.{Option, none, some}
use mathlib.Core.List.{List, [], ◌∷◌, ◌++◌}
use native.Mathlib.Omega.{arith}
use text.Mathlib.Text.{◌==◌ as str_eq}
use text.Mathlib.TextEquality.{eq_iff}
use readflow.Common.Tests.{nat_eqb, ==_iff, if◌then◌else◌}

-- Equality of keys, as JavaScript's `===` on numbers and strings.
pub record Eq {ℓ} (A : Type ℓ) : Type ℓ where
  pub beq : A → A → Bool
  pub beq_iff : (a b : A) → (beq a b ≡ true) ↔ (a ≡ b)

instance abbrev pub nat_eq : Eq ℕ
nat_eq = record { beq = nat_eqb; beq_iff = ==_iff }

instance abbrev pub string_eq : Eq String
string_eq = record { beq = str_eq; beq_iff = eq_iff }

module _ {ℓ} {A : Type ℓ} ⦃e : Eq A⦄ where
  abbrev pub has : A → List A → Bool
  has a [] = false
  has a (x ∷ xs) = e.beq x a || has a xs

  -- `Set.add` keeps the place of a member that is there already.
  unfoldable pub add : A → List A → List A
  add a xs = if has a xs then xs else xs ++ a ∷ []

  -- `Set.delete`.
  abbrev pub delete : A → List A → List A
  delete a [] = []
  delete a (x ∷ xs) = if e.beq x a then delete a xs else x ∷ delete a xs

  pub beq_refl : (a : A) → e.beq a a ≡ true
  beq_refl a = (e.beq_iff a a).1 refl

  pub has-append : (a : A) (xs ys : List A) → has a (xs ++ ys) ≡ (has a xs || has a ys)
  has-append a [] ys = refl
  has-append a (x ∷ xs) ys = ground (arith, has-append a xs ys)

  pub has-add : (a b : A) (xs : List A) → has b (add a xs) ≡ (e.beq a b || has b xs)
  unfolding add
  has-add a b xs = ground (arith, has-append b xs (a ∷ []), e.beq_iff a b)

  pub has-delete_self : (a : A) (xs : List A) → has a (delete a xs) ≡ false
  has-delete_self a [] = refl
  has-delete_self a (x ∷ xs) = ground (arith, has-delete_self a xs)

module _ {ℓ κ} {K : Type ℓ} {V : Type κ} ⦃e : Eq K⦄ where
  -- `Map.get`.
  abbrev pub get : K → List (K × V) → Option V
  get k [] = none
  get k ((j, v) ∷ m) = if e.beq j k then some v else get k m

  -- `Map.set` replaces the entry of a key in its place, or adds one at the end.
  abbrev pub put : K → V → List (K × V) → List (K × V)
  put k v [] = (k, v) ∷ []
  put k v ((j, w) ∷ m) = if e.beq j k then (k, v) ∷ m else (j, w) ∷ put k v m

  pub get-put :
      (k j : K) (v : V) (m : List (K × V))
      → get j (put k v m) ≡ (if e.beq k j then some v else get j m)
  get-put k j v [] = refl
  get-put k j v ((i, w) ∷ m) =
      ground (arith, e.beq_iff k j, e.beq_iff i k, e.beq_iff i j, get-put k j v m)
