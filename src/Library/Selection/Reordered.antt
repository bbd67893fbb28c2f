-- ===== src/Library/Selection/Reordered.antt =====
-- Reordering and toggling keep the other ids.
use readflow.Common.{
  if◌then◌else◌, ℕ, zero, suc, ◌≤◌, ◌≡◌, refl, ◌&&◌, not, some, List, [], ◌∷◌, ◌++◌, String, take,
  drop, length, min, get_elem?, arith, str_eq, eq_iff, eq_refl,
}
use readflow.Common.Int.{ℤ, pos_part}
use readflow.Common.Sets.{has, delete, string_eq, has-add}
use readflow.Library.Selection.{toggle_selection, reorder_ids, without_id}

without-take-drop :
    (n : ℕ) (dragged : String) (xs : List String)
    → without_id (take n xs ++ dragged ∷ drop n xs) dragged ≡ without_id xs dragged
without-take-drop zero dragged xs = ground (arith, eq_refl dragged)
without-take-drop (suc n) dragged [] = ground (arith, eq_refl dragged)
without-take-drop (suc n) dragged (x ∷ xs) = ground (arith, without-take-drop n dragged xs)

without_idem :
    (dragged : String) (xs : List String)
    → without_id (without_id xs dragged) dragged ≡ without_id xs dragged
without_idem dragged [] = refl
without_idem dragged (x ∷ xs) = ground (arith, without_idem dragged xs)

get_elem-insert :
    (n : ℕ) (x : String) (xs : List String)
    → n ≤ length xs
    → get_elem? (take n xs ++ x ∷ drop n xs) n ≡ some x
get_elem-insert zero x xs h = refl
get_elem-insert (suc n) x [] h = absurd (omega arith)
get_elem-insert (suc n) x (y ∷ xs) h = get_elem-insert n x xs (omega arith)

-- The moved id lands at the target, clamped to the list of the others, and the others keep their order.
pub reorder_ids_lem :
    (ids : List String) (dragged : String) (target : ℤ)
    → (get_elem?
          (reorder_ids ids dragged target)
          (min (length (without_id ids dragged)) (pos_part target))
        ≡ some dragged)
      × (without_id (reorder_ids ids dragged target) dragged ≡ without_id ids dragged)
unfolding reorder_ids
reorder_ids_lem ids dragged target =
    let others = without_id ids dragged in
    let n = min (length others) (pos_part target) in
    (
      get_elem-insert n dragged others (omega arith),
      rw (without-take-drop n dragged others) (without_idem dragged ids),
    )

has-delete :
    (a b : String) (xs : List String) → has b (delete a xs) ≡ (not (str_eq a b) && has b xs)
has-delete a b [] = ground arith
has-delete a b (x ∷ xs) = ground (arith, has-delete a b xs, eq_iff x a, eq_iff x b, eq_iff a b)

-- Toggling an id changes whether it is selected, and nothing else.
pub has-toggle_selection :
    (selection : List String) (id other : String)
    → has other (toggle_selection selection id)
      ≡ (if str_eq id other then not (has id selection) else has other selection)
unfolding toggle_selection
has-toggle_selection selection id other =
    ground (arith, has-delete id other selection, has-add id other selection, eq_iff id other)
