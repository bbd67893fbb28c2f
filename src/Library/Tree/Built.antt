-- ===== src/Library/Tree/Built.antt =====
-- The tree shows, folder by folder, what the pane shows.
use mathlib.Core.List.{Perm}
use mathlib.Core.List.Perm
use readflow.Common.{
  ℕ, zero, suc, ◌<◌, ◌≡◌, refl, ◌∙◌, ap, Option, none, some, List, [], ◌∷◌, String, keep, or_else,
  arith, All, Bool, All-keep, All-map, Bool-cases, inl, inr,
}
use readflow.Common.Sort.{sort_by, sort_by-perm, All-sort_by}
use readflow.Api.{LibraryFolder, LibrarySnapshot}
use readflow.Library.Folders.{is_parent, folder_le, job_le, folder_contents}
use readflow.Library.Tree.{
  FolderNodes, folder_node, no_nodes, add_node, siblings, group_by, siblings-group_by,
  siblings-sort_groups, nodes_with, build, build_folder_tree, folder_groups, job_groups, name_order,
  top_folders, is_parent_iff,
}

-- Every node has the jobs of its folder and nodes for exactly the folders inside it.
pub IsBuilt : LibrarySnapshot → FolderNodes → Type 0
IsBuilt s no_nodes = Unit
IsBuilt s (add_node (folder_node f children jobs) rest) =
    (jobs ≡ (folder_contents s (some f.id)).1)
    × Perm (top_folders children) (folder_contents s (some f.id)).0
    × IsBuilt s children
    × IsBuilt s rest

siblings-folder_groups :
    (name_le : String → String → Bool) (s : LibrarySnapshot) (parent : Option String)
    → siblings parent (folder_groups name_le s)
      ≡ sort_by (name_order name_le) (keep (λ f. is_parent f.parent_id parent) s.folders)
siblings-folder_groups name_le s parent =
    siblings-sort_groups (name_order name_le) parent (group_by (λ f. f.parent_id) s.folders [])
    ∙ ap (sort_by (name_order name_le)) (siblings-group_by (λ f. f.parent_id) parent s.folders [])

siblings-job_groups :
    (s : LibrarySnapshot) (parent : Option String)
    → siblings parent (job_groups s) ≡ (folder_contents s parent).1
unfolding folder_contents
siblings-job_groups s parent =
    siblings-sort_groups job_le parent (group_by (λ j. or_else j.folder_id none) s.jobs [])
    ∙ ap (sort_by job_le) (siblings-group_by (λ j. or_else j.folder_id none) parent s.jobs [])

siblings-perm :
    (name_le : String → String → Bool) (s : LibrarySnapshot) (parent : Option String)
    → Perm (siblings parent (folder_groups name_le s)) (folder_contents s parent).0
unfolding folder_contents
siblings-perm name_le s parent =
    let inside = keep (λ (f : LibraryFolder). is_parent f.parent_id parent) s.folders in
    rw (siblings-folder_groups name_le s parent) (
      Perm.trans (sort_by-perm (name_order name_le) inside)
        (Perm.symm (sort_by-perm folder_le inside)))

-- Each folder's inner folders have a smaller rank: the folders have no cycle.
abbrev pub IsRanked : (String → ℕ) → List LibraryFolder → Type 0
IsRanked rank = All (λ f. (parent : String) → f.parent_id ≡ some parent → rank f.id < rank parent)

ranked_inside :
    (rank : String → ℕ) (parent : String) (fs : List LibraryFolder)
    → IsRanked rank fs
    → All (λ f. rank f.id < rank parent) (keep (λ f. is_parent f.parent_id (some parent)) fs)
ranked_inside rank parent [] ranked = tt
ranked_inside rank parent (f ∷ fs) (here, ranked) =
    let rest = ranked_inside rank parent fs ranked in
    elim (Bool-cases (is_parent f.parent_id (some parent))) [
      | inl child ↦ rw child (here parent ((is_parent_iff f.parent_id (some parent)).0 child), rest)
      | inr other ↦ rw other rest
    ]

module _ (name_le : String → String → Bool) (s : LibrarySnapshot) where
  Built : Option FolderNodes → List LibraryFolder → Type 0
  Built found fs =
      (nodes : FolderNodes) × (found ≡ some nodes) × (top_folders nodes ≡ fs) × IsBuilt s nodes

  siblings-ranked :
      (rank : String → ℕ) (parent : String)
      → IsRanked rank s.folders
      → All (λ f. rank f.id < rank parent) (siblings (some parent) (folder_groups name_le s))
  siblings-ranked rank parent ranked = rw (siblings-folder_groups name_le s (some parent)) (
      All-sort_by (name_order name_le) (λ f. rank f.id < rank parent)
        (keep (λ f. is_parent f.parent_id (some parent)) s.folders)
        (ranked_inside rank parent s.folders ranked))

  nodes_with-Built :
      (call : Option String → Option FolderNodes) (fs : List LibraryFolder)
      → All (λ f. Built (call (some f.id)) (siblings (some f.id) (folder_groups name_le s))) fs
      → Built (nodes_with call (job_groups s) fs) fs
  unfolding Built nodes_with IsBuilt
  nodes_with-Built call [] built = (no_nodes, refl, refl, tt)
  nodes_with-Built call (f ∷ fs) ((children, found, top, inside), built) =
      let (rest, rest_found, rest_top, rest_built) = nodes_with-Built call fs built in
      (
        add_node (folder_node f children (siblings (some f.id) (job_groups s))) rest,
        rw (found, rest_found) refl,
        ap (λ r. f ∷ r) rest_top,
        (
          siblings-job_groups s (some f.id),
          rw top (siblings-perm name_le s (some f.id)),
          inside,
          rest_built,
        ),
      )

  build-Built :
      (rank : String → ℕ) (n : ℕ) (parent : Option String)
      → IsRanked rank s.folders
      → All (λ f. rank f.id < n) (siblings parent (folder_groups name_le s))
      → Built
          (build (suc n) (folder_groups name_le s) (job_groups s) parent)
          (siblings parent (folder_groups name_le s))
  unfolding build
  build-Built rank zero parent ranked small =
      let call = build zero (folder_groups name_le s) (job_groups s) in
      nodes_with-Built call (siblings parent (folder_groups name_le s)) (
        All-map (λ f. rank f.id < zero)
          (λ f. Built (call (some f.id)) (siblings (some f.id) (folder_groups name_le s)))
          (λ f h. absurd (omega (arith, h))) (siblings parent (folder_groups name_le s)) small)
  build-Built rank (suc n) parent ranked small =
      let call = build (suc n) (folder_groups name_le s) (job_groups s) in
      nodes_with-Built call (siblings parent (folder_groups name_le s)) (
        All-map (λ f. rank f.id < suc n)
          (λ f. Built (call (some f.id)) (siblings (some f.id) (folder_groups name_le s)))
          (λ f h. build-Built rank n (some f.id) ranked (
            All-map (λ g. rank g.id < rank f.id) (λ g. rank g.id < n)
              (λ g below. omega (arith, h, below)) (siblings (some f.id) (folder_groups name_le s))
              (siblings-ranked rank f.id ranked)))
          (siblings parent (folder_groups name_le s)) small)

  -- Where folders have no cycle, the tree is built, to the depth of the highest rank and one more. Its
  -- top has the jobs of the pane of the root and nodes for its folders, in an order that may differ;
  -- and so does every node in it for the pane of its folder.
  pub build_folder_tree-Built :
      (rank : String → ℕ) (n : ℕ)
      → IsRanked rank s.folders
      → All (λ f. rank f.id < n) s.folders
      → (roots : FolderNodes) × (build_folder_tree name_le (suc n) s
          ≡ some (roots, (folder_contents s none).1))
        × Perm (top_folders roots) (folder_contents s none).0
        × IsBuilt s roots
  unfolding build_folder_tree Built
  build_folder_tree-Built rank n ranked small =
      let (roots, found, top, built) = build-Built rank n none ranked (
        rw (siblings-folder_groups name_le s none) (
          All-sort_by (name_order name_le) (λ f. rank f.id < n)
            (keep (λ f. is_parent f.parent_id none) s.folders)
            (All-keep (λ f. rank f.id < n) (λ f. is_parent f.parent_id none) s.folders small))) in
      (
        roots,
        rw (found, siblings-job_groups s none) refl,
        rw top (siblings-perm name_le s none),
        built,
      )
