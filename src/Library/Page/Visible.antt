-- ===== src/Library/Page/Visible.antt =====
-- A range of rows that is selected with the shift key holds visible rows only.
use readflow.Common.{
  ℕ, zero, suc, ◌-◌, ◌≡◌, true, Option, none, some, List, [], ◌∷◌, String, arith, take, drop, leb,
  Bool-cases, inl, inr, eq_iff,
}
use readflow.Common.Sets.{has, string_eq}
use readflow.Library.Folders.{as_set}
use readflow.Library.Folders.Reached.{has-as_set}
use readflow.Library.Filter.{SearchText}
use readflow.Library.Selection.{
  range_selection, range_between, slice_through, anchor_index, index_of_id,
}
use readflow.Library.Page.{LibraryPage}
use readflow.Library.Page.Handlers.{visible_ids, toggle_selected}

has-take : (n : ℕ) (x : String) (ids : List String) → has x (take n ids) ≡ true → has x ids ≡ true
has-take zero x ids h = absurd (cc h)
has-take (suc n) x [] h = h
has-take (suc n) x (y ∷ ids) h = ground (arith, has-take n x ids)

has-drop : (n : ℕ) (x : String) (ids : List String) → has x (drop n ids) ≡ true → has x ids ≡ true
has-drop zero x ids h = h
has-drop (suc n) x [] h = h
has-drop (suc n) x (y ∷ ids) h = ground (arith, has-drop n x ids)

has-slice_through :
    (start end : ℕ) (x : String) (ids : List String)
    → has x (as_set (slice_through start end ids) []) ≡ true
    → has x ids ≡ true
has-slice_through start end x ids h =
    let inside = has-as_set x (slice_through start end ids) [] in
    has-drop start x ids (has-take (suc end - start) x (drop start ids) (ground arith))

has-range_between :
    (ids : List String) (target : String) (from to : Option ℕ) (x : String)
    → has target ids ≡ true
    → has x (range_between ids target from to) ≡ true
    → has x ids ≡ true
has-range_between ids target none to x visible h = ground (arith, eq_iff target x)
has-range_between ids target (some from) none x visible h = ground (arith, eq_iff target x)
has-range_between ids target (some from) (some to) x visible h = elim (Bool-cases (leb from to)) [
  | inl forth ↦ has-slice_through from to x ids (rw forth at h)
  | inr back ↦ has-slice_through to from x ids (rw back at h)
]

-- Where a visible row is clicked with the shift key and a row was clicked before, every row that is then
-- selected is visible.
pub toggle_selected-visible :
    (text : SearchText) (p : LibraryPage) (anchor id x : String)
    → p.selection_anchor ≡ some anchor
    → has id (visible_ids text p) ≡ true
    → has x (toggle_selected text id true p).selection ≡ true
    → has x (visible_ids text p) ≡ true
unfolding toggle_selected range_selection visible_ids
toggle_selected-visible text p anchor id x clicked visible h =
    has-range_between (visible_ids text p) id (anchor_index (visible_ids text p) (some anchor))
      (index_of_id (visible_ids text p) id) x visible (rw clicked at h)
