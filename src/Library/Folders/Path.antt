-- ===== src/Library/Folders/Path.antt =====
-- `folderPath` ends where parent links have no cycle, and yields a chain of parents.
use readflow.Common.{
  ℕ, zero, suc, ◌<◌, ◌≡◌, refl, Option, none, some, List, [], ◌∷◌, String, arith, Option-cases,
  Bool-cases, inl, inr, str_eq, false, ◌∙◌, ap,
}
use readflow.Common.Sets.{get, string_eq}
use readflow.Api.{LibraryFolder}
use readflow.Library.Folders.{by_id, path_from, folder_path}

path_from-step :
    (n : ℕ) (m : List (String × LibraryFolder)) (id : String) (f : LibraryFolder)
    (up : Option String) (chain : List LibraryFolder)
    → str_eq id "" ≡ false
    → get id m ≡ some f
    → f.parent_id ≡ up
    → path_from (suc n) m (some id) chain ≡ path_from n m up (f ∷ chain)
unfolding path_from
path_from-step n m id f up chain e found p =
    let one : path_from (suc n) m (some id) chain ≡ path_from n m f.parent_id (f ∷ chain) =
      rw (e, found) refl in
    one ∙ ap (λ c. path_from n m c (f ∷ chain)) p

path_from-none :
    (n : ℕ) (m : List (String × LibraryFolder)) (chain : List LibraryFolder)
    → path_from n m none chain ≡ some chain
unfolding path_from
path_from-none zero m chain = refl
path_from-none (suc n) m chain = refl

path_from_total :
    (m : List (String × LibraryFolder)) (depth : String → ℕ)
    → ((id parent : String) (f : LibraryFolder)
        → get id m ≡ some f
        → f.parent_id ≡ some parent
        → depth parent < depth id)
    → (n : ℕ) (id : String) (chain : List LibraryFolder) → depth id < n
    → (path : List LibraryFolder) × (path_from n m (some id) chain ≡ some path)
unfolding path_from
path_from_total m depth falls zero id chain h = absurd (omega arith)
path_from_total m depth falls (suc n) id chain h = elim (Bool-cases (str_eq id "")) [
  | inl e ↦ (chain, rw e refl)
  | inr e ↦ elim (Option-cases (get id m)) [
    | inl missing ↦ (chain, rw (e, missing) refl)
    | inr (f, found) ↦ elim (Option-cases f.parent_id) [
      | inl root ↦ (
        f ∷ chain,
        path_from-step n m id f none chain e found root ∙ path_from-none n m (f ∷ chain),
      )
      | inr (parent, up) ↦
          let (path, ends) =
            path_from_total m depth falls n parent (f ∷ chain)
              (omega (arith, falls id parent f found up)) in
          (path, path_from-step n m id f (some parent) chain e found up ∙ ends)
    ]
  ]
]

-- Where every folder's parent has a smaller depth than the folder, the walk from a folder ends, with as
-- many steps as its depth and one more.
pub folder_path_total :
    (folders : List LibraryFolder) (depth : String → ℕ) (id : String)
    → ((key parent : String) (f : LibraryFolder)
        → get key (by_id folders) ≡ some f
        → f.parent_id ≡ some parent
        → depth parent < depth key)
    → (path : List LibraryFolder) × (folder_path (suc (depth id)) folders (some id) ≡ some path)
unfolding folder_path
folder_path_total folders depth id falls =
    path_from_total (by_id folders) depth falls (suc (depth id)) id [] (omega arith)
