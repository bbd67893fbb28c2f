-- ===== src/Library/Moves.antt =====
-- Where selected rows can be moved: `excludedTargets` of web/src/features/library/LibraryPage.tsx and the
-- destinations of `MoveDialog` in LibraryDialogs.tsx. The loop of `excludedTargets` is that of
-- `jobsInFolders` with the parts of its test in another order.
use readflow.Common.{
  suc, ◌≡◌, ◌↔◌, true, false, not, Option, none, some, List, [], ◌∷◌, String, length, keep, arith,
  All, str_eq, Bool-cases, Option-cases, inl, inr, subst, eq_iff, Bool, refl,
}
use readflow.Common.Sets.{has, add, has-add, string_eq, beq_refl}
use readflow.Api.{LibraryFolder, LibrarySnapshot, LibraryItemRef, ItemKind, folder, job}
use readflow.Library.Folders.{enters, sweep_all}
use readflow.Library.Folders.Reached.{
  first, later, Under, IsUnder, Under-allowed, sweep_all-IsUnder, sweep_all-closed, sweep_all_mono,
  missing-le, selected, Listed,
}

abbrev exclude_item : List LibraryFolder → ItemKind → String → List String → List String
exclude_item folders job id excluded = excluded
exclude_item folders folder id excluded = sweep_all (suc (length folders)) folders (add id excluded)

unfoldable pub exclude_items : List LibraryFolder → List LibraryItemRef → List String → List String
exclude_items folders [] excluded = excluded
exclude_items folders (item ∷ items) excluded =
    exclude_items folders items (exclude_item folders item.kind item.id excluded)

unfoldable pub excluded_targets : Option LibrarySnapshot → List LibraryItemRef → List String
excluded_targets none items = []
excluded_targets (some s) items = exclude_items s.folders items []

-- The filter of the destinations.
unfoldable pub destinations : List LibraryFolder → List String → List LibraryFolder
destinations folders excluded = keep (λ f. not (has f.id excluded)) folders

abbrev pub folder_id_in : ItemKind → String → List String → List String
folder_id_in job id ids = ids
folder_id_in folder id ids = id ∷ ids

-- The folders among the items.
abbrev pub folder_ids : List LibraryItemRef → List String
folder_ids [] = []
folder_ids (item ∷ items) = folder_id_in item.kind item.id (folder_ids items)

IsClosed : List LibraryFolder → List String → Type 0
IsClosed folders excluded = All (λ f. enters f excluded ≡ false) folders

add-IsUnder :
    (folders : List LibraryFolder) (ids : List String) (id : String) (excluded : List String)
    → Under folders ids id
    → IsUnder folders ids excluded
    → IsUnder folders ids (add id excluded)
unfolding IsUnder
add-IsUnder folders ids id excluded here under i h = elim (Bool-cases (str_eq id i)) [
  | inl same ↦ subst (Under folders ids) ((eq_iff id i).0 same) here
  | inr other ↦ under i (ground (arith, has-add id i excluded))
]

exclude_item-IsUnder :
    (folders : List LibraryFolder) (ids : List String) (kind : ItemKind) (id : String)
    (excluded rest : List String)
    → ((i : String) → has i (folder_id_in kind id rest) ≡ true → has i ids ≡ true)
    → IsUnder folders ids excluded
    → IsUnder folders ids (exclude_item folders kind id excluded)
exclude_item-IsUnder folders ids job id excluded rest given under = under
exclude_item-IsUnder folders ids folder id excluded rest given under =
    sweep_all-IsUnder (suc (length folders)) folders ids (add id excluded) (
      add-IsUnder folders ids id excluded (selected (given id (ground (arith, beq_refl id)))) under)

has-folder_id_in :
    (kind : ItemKind) (id : String) (rest : List String) (i : String)
    → has i rest ≡ true
    → has i (folder_id_in kind id rest) ≡ true
has-folder_id_in job id rest i h = h
has-folder_id_in folder id rest i h = ground arith

exclude_items-IsUnder :
    (folders : List LibraryFolder) (ids : List String) (items : List LibraryItemRef)
    (excluded : List String)
    → ((i : String) → has i (folder_ids items) ≡ true → has i ids ≡ true)
    → IsUnder folders ids excluded
    → IsUnder folders ids (exclude_items folders items excluded)
unfolding exclude_items
exclude_items-IsUnder folders ids [] excluded given under = under
exclude_items-IsUnder folders ids (item ∷ items) excluded given under =
    exclude_items-IsUnder folders ids items (exclude_item folders item.kind item.id excluded)
      (λ i h. given i (has-folder_id_in item.kind item.id (folder_ids items) i h))
      (exclude_item-IsUnder folders ids item.kind item.id excluded (folder_ids items) given under)

exclude_item_mono :
    (folders : List LibraryFolder) (kind : ItemKind) (id : String) (excluded : List String)
    (i : String)
    → has i excluded ≡ true
    → has i (exclude_item folders kind id excluded) ≡ true
exclude_item_mono folders job id excluded i h = h
exclude_item_mono folders folder id excluded i h =
    sweep_all_mono (suc (length folders)) folders (add id excluded) i
      (ground (arith, has-add id i excluded))

exclude_items_mono :
    (folders : List LibraryFolder) (items : List LibraryItemRef) (excluded : List String)
    (i : String)
    → has i excluded ≡ true
    → has i (exclude_items folders items excluded) ≡ true
unfolding exclude_items
exclude_items_mono folders [] excluded i h = h
exclude_items_mono folders (item ∷ items) excluded i h =
    exclude_items_mono folders items (exclude_item folders item.kind item.id excluded) i
      (exclude_item_mono folders item.kind item.id excluded i h)

-- A folder among the items is in the set after its turn, or among the later ones.
exclude_item-has :
    (folders : List LibraryFolder) (kind : ItemKind) (id : String) (excluded rest : List String)
    (i : String)
    → has i (folder_id_in kind id rest) ≡ true
    → has i rest ≡ false
    → has i (exclude_item folders kind id excluded) ≡ true
exclude_item-has folders job id excluded rest i h gone = absurd (cc (h, gone))
exclude_item-has folders folder id excluded rest i h gone =
    sweep_all_mono (suc (length folders)) folders (add id excluded) i
      (ground (arith, has-add id i excluded))

exclude_items-has :
    (folders : List LibraryFolder) (items : List LibraryItemRef) (excluded : List String)
    (i : String)
    → has i (folder_ids items) ≡ true
    → has i (exclude_items folders items excluded) ≡ true
unfolding exclude_items
exclude_items-has folders [] excluded i h = absurd (cc h)
exclude_items-has folders (item ∷ items) excluded i h =
    let after = exclude_item folders item.kind item.id excluded in
    elim (Bool-cases (has i (folder_ids items))) [
      | inl below ↦ exclude_items-has folders items after i below
      | inr now ↦
          exclude_items_mono folders items after i
            (exclude_item-has folders item.kind item.id excluded (folder_ids items) i h now)
    ]

exclude_item-IsClosed :
    (folders : List LibraryFolder) (kind : ItemKind) (id : String) (excluded : List String)
    → IsClosed folders excluded
    → IsClosed folders (exclude_item folders kind id excluded)
unfolding IsClosed
exclude_item-IsClosed folders job id excluded closed = closed
exclude_item-IsClosed folders folder id excluded closed =
    sweep_all-closed (suc (length folders)) folders (add id excluded)
      (omega (arith, missing-le folders (add id excluded)))

exclude_items-IsClosed :
    (folders : List LibraryFolder) (items : List LibraryItemRef) (excluded : List String)
    → IsClosed folders excluded
    → IsClosed folders (exclude_items folders items excluded)
unfolding exclude_items
exclude_items-IsClosed folders [] excluded closed = closed
exclude_items-IsClosed folders (item ∷ items) excluded closed =
    exclude_items-IsClosed folders items (exclude_item folders item.kind item.id excluded)
      (exclude_item-IsClosed folders item.kind item.id excluded closed)

empty-IsClosed : (folders fs : List LibraryFolder) → All (λ f. enters f [] ≡ false) fs
empty-IsClosed folders [] = tt
empty-IsClosed folders (f ∷ fs) = (
  elim (Option-cases f.parent_id) [ inl root ↦ ground arith | inr (parent, p) ↦ ground arith ],
  empty-IsClosed folders fs,
)

excluded_targets-Under :
    (s : LibrarySnapshot) (items : List LibraryItemRef) (id : String)
    → (has id (excluded_targets (some s) items) ≡ true) ↔ Under s.folders (folder_ids items) id
unfolding excluded_targets IsUnder IsClosed
excluded_targets-Under s items id = (
  exclude_items-IsUnder s.folders (folder_ids items) items [] (λ i h. h) (λ i h. absurd (cc h)) id,
  Under-allowed s.folders (folder_ids items) (exclude_items s.folders items []) id
      (λ i h. exclude_items-has s.folders items [] i h)
      (exclude_items-IsClosed s.folders items [] (empty-IsClosed s.folders s.folders)),
)

Listed-head :
    (p : LibraryFolder → Bool) (f g : LibraryFolder) (fs : List LibraryFolder)
    → p g ≡ true
    → (Listed f (keep p fs) → Listed f fs × (p f ≡ true))
    → Listed f (g ∷ keep p fs)
    → Listed f (g ∷ fs) × (p f ≡ true)
Listed-head p f _ fs h below first = (first, h)
Listed-head p f g fs h below (later l) = let (there, e) = below l in (later there, e)

Listed-keep :
    (p : LibraryFolder → Bool) (f : LibraryFolder) (fs : List LibraryFolder)
    → Listed f (keep p fs)
    → Listed f fs × (p f ≡ true)
Listed-keep p f [] l = elim l [ ]
Listed-keep p f (g ∷ fs) l = elim (Bool-cases (p g)) [
  | inl kept ↦ Listed-head p f g fs kept (Listed-keep p f fs) (rw kept at l)
  | inr dropped ↦
      let there : Listed f (keep p fs) = rw dropped at l in
      let (below, h) = Listed-keep p f fs there in (later below, h)
]

keep-Listed :
    (p : LibraryFolder → Bool) (f : LibraryFolder) (fs : List LibraryFolder)
    → Listed f fs
    → p f ≡ true
    → Listed f (keep p fs)
keep-Listed p f [] l h = elim l [ ]
keep-Listed p f (_ ∷ fs) first h = rw h first
keep-Listed p f (g ∷ fs) (later l) h = elim (Bool-cases (p g)) [
  | inl kept ↦ rw kept (later (keep-Listed p f fs l h))
  | inr dropped ↦ rw dropped (keep-Listed p f fs l h)
]

-- The folders that the dialog offers as the destination of moved rows are exactly the folders of the
-- snapshot that are not among the moved rows and lie, at no depth, inside one of them.
pub destinations-Under :
    (s : LibrarySnapshot) (items : List LibraryItemRef) (f : LibraryFolder)
    → Listed f (destinations s.folders (excluded_targets (some s) items))
      ↔ (Listed f s.folders × (¬ Under s.folders (folder_ids items) f.id))
unfolding destinations
destinations-Under s items f =
    let (sound, complete) = excluded_targets-Under s items f.id in
    let excluded = excluded_targets (some s) items in
    let offered = λ (g : LibraryFolder). not (has g.id excluded) in
    (
      λ l.
          let (listed, free) = Listed-keep offered f s.folders l in
          (
            listed,
            λ under.
                let inside : has f.id excluded ≡ true = complete under in
                absurd (cc (inside, free)),
          ),
      λ h. keep-Listed offered f s.folders h.0 (elim (Bool-cases (has f.id excluded)) [
        | inl inside ↦ absurd (h.1 (sound inside))
        | inr free ↦ rw free refl
      ]),
    )
