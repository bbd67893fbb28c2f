-- ===== src/Library/Tree.antt =====
-- `buildFolderTree` of web/src/features/library/library-model.ts. The order of names
-- (`localeCompare`) is a parameter.
pub mod Built
use mathlib.Core.List.{Perm}
use mathlib.Core.List.Perm
use readflow.Common.{
  ℕ, zero, suc, ◌<◌, ◌≡◌, refl, ◌∙◌, ap, sym, ◌↔◌, Bool, true, false, ◌&&◌, ◌||◌, Option, none,
  some, List, [], ◌∷◌, ◌++◌, String, ltb, ◌==◌, keep, or_else, str_eq, eq_iff, eq_refl, arith,
  append-nil, append_assoc, if◌then◌else◌, Bool-cases, inl, inr,
}
use readflow.Common.Sets.{Eq, get, put, get-put}
use readflow.Common.Sort.{sort_by, sort_by-perm}
use readflow.Api.{LibraryFolder, LibraryJob, LibrarySnapshot}
use readflow.Library.Folders.{is_parent, folder_le, job_le, folder_contents}

pub is_parent_iff : (a b : Option String) → (is_parent a b ≡ true) ↔ (a ≡ b)
is_parent_iff none none = (λ h. refl, λ h. refl)
is_parent_iff none (some b) = (λ h. absurd (cc h), λ h. absurd (cc h))
is_parent_iff (some a) none = (λ h. absurd (cc h), λ h. absurd (cc h))
is_parent_iff (some a) (some b) = (λ h. ap some ((eq_iff a b).0 h), λ h. ground (arith, eq_iff a b))

instance abbrev pub key_eq : Eq (Option String)
key_eq = record { beq = is_parent; beq_iff = is_parent_iff }

mutual
  pub data FolderNode : Type 0 where
    folder_node : LibraryFolder → FolderNodes → List LibraryJob → FolderNode

  pub data FolderNodes : Type 0 where
    no_nodes : FolderNodes
    add_node : FolderNode → FolderNodes → FolderNodes

module _ {ℓ} {A : Type ℓ} where
  -- `map.get(key) ?? []`.
  abbrev pub siblings : Option String → List (Option String × List A) → List A
  siblings k m = or_else (get k m) []

  -- The loops that group by a key.
  unfoldable pub group_by :
      (A → Option String) → List A → List (Option String × List A) → List (Option String × List A)
  group_by key [] m = m
  group_by key (x ∷ xs) m = group_by key xs (put (key x) (siblings (key x) m ++ x ∷ []) m)

  -- Sorts the members of each group.
  unfoldable pub sort_groups :
      (A → A → Bool) → List (Option String × List A) → List (Option String × List A)
  sort_groups le [] = []
  sort_groups le ((k, xs) ∷ m) = (k, sort_by le xs) ∷ sort_groups le m

  siblings-group_by :
      (key : A → Option String) (k : Option String) (xs : List A)
      (m : List (Option String × List A))
      → siblings k (group_by key xs m) ≡ siblings k m ++ keep (λ x. is_parent (key x) k) xs
  unfolding group_by
  siblings-group_by key k [] m = sym (append-nil (siblings k m))
  siblings-group_by key k (x ∷ xs) m =
      let next = put (key x) (siblings (key x) m ++ x ∷ []) m in
      let rest = siblings-group_by key k xs next in
      let here = get-put (key x) k (siblings (key x) m ++ x ∷ []) m in
      elim (Bool-cases (is_parent (key x) k)) [
        | inl same ↦
            let stored : siblings k next ≡ siblings (key x) m ++ x ∷ [] =
              rw same at (ap (λ o. or_else o []) here) in
            let added =
              stored ∙ ap (λ j. siblings j m ++ x ∷ []) ((is_parent_iff (key x) k).0 same) in
            rw same (
              rest
              ∙ ap (λ l. l ++ keep (λ y. is_parent (key y) k) xs) added
              ∙ append_assoc (siblings k m) (x ∷ []) (keep (λ y. is_parent (key y) k) xs))
        | inr other ↦
            let kept : siblings k next ≡ siblings k m = rw other at (ap (λ o. or_else o []) here) in
            rw other (rest ∙ ap (λ l. l ++ keep (λ y. is_parent (key y) k) xs) kept)
      ]

  siblings-sort_groups :
      (le : A → A → Bool) (k : Option String) (m : List (Option String × List A))
      → siblings k (sort_groups le m) ≡ sort_by le (siblings k m)
  unfolding sort_groups sort_by
  siblings-sort_groups le k [] = refl
  siblings-sort_groups le k ((j, xs) ∷ m) = elim (Bool-cases (is_parent j k)) [
    | inl here ↦ rw here refl
    | inr there ↦ rw there (siblings-sort_groups le k m)
  ]

-- Added to the nodes of the other siblings; none where the recursion did not end.
abbrev joined :
    LibraryFolder → List LibraryJob → Option FolderNodes → Option FolderNodes → Option FolderNodes
joined f jobs none rest = none
joined f jobs (some children) none = none
joined f jobs (some children) (some rest) = some (add_node (folder_node f children jobs) rest)

unfoldable pub nodes_with :
    (Option String → Option FolderNodes)
    → List (Option String × List LibraryJob)
    → List LibraryFolder
    → Option FolderNodes
nodes_with call jobs [] = some no_nodes
nodes_with call jobs (f ∷ fs) =
    joined f (siblings (some f.id) jobs) (call (some f.id)) (nodes_with call jobs fs)

-- `build`, to a depth; none where the depth is not enough.
unfoldable pub build :
    ℕ
    → List (Option String × List LibraryFolder)
    → List (Option String × List LibraryJob)
    → Option String
    → Option FolderNodes
build zero folders jobs parent = none
build (suc n) folders jobs parent = nodes_with (build n folders jobs) jobs (siblings parent folders)

abbrev pub name_order : (String → String → Bool) → LibraryFolder → LibraryFolder → Bool
name_order name_le left right =
    ltb left.position right.position
    || (left.position == right.position && name_le left.name right.name)

abbrev pub folder_groups :
    (String → String → Bool) → LibrarySnapshot → List (Option String × List LibraryFolder)
folder_groups name_le s =
    sort_groups (name_order name_le) (group_by (λ f. f.parent_id) s.folders [])

abbrev pub job_groups : LibrarySnapshot → List (Option String × List LibraryJob)
job_groups s = sort_groups job_le (group_by (λ j. or_else j.folder_id none) s.jobs [])

abbrev with_jobs : List LibraryJob → Option FolderNodes → Option (FolderNodes × List LibraryJob)
with_jobs jobs none = none
with_jobs jobs (some roots) = some (roots, jobs)

unfoldable pub build_folder_tree :
    (String → String → Bool) → ℕ → LibrarySnapshot → Option (FolderNodes × List LibraryJob)
build_folder_tree name_le depth s =
    with_jobs (siblings none (job_groups s))
      (build depth (folder_groups name_le s) (job_groups s) none)

-- The folders of siblings.
abbrev pub top_folders : FolderNodes → List LibraryFolder
top_folders no_nodes = []
top_folders (add_node (folder_node f children jobs) rest) = f ∷ top_folders rest
