-- ===== src/Library/Folders.antt =====
-- The folder walks of web/src/features/library/library-model.ts: `findFolder`, `folderPath`,
-- `folderContents` and `jobsInFolders`. Folder positions are natural numbers.
pub mod Reached
pub mod Path
use readflow.Common.{
  ℕ, zero, suc, Bool, true, false, not, ◌&&◌, ◌||◌, Option, none, some, List, [], ◌∷◌, ◌++◌, String,
  leb, length, find, keep, map, str_eq, if◌then◌else◌, or_else,
}
use readflow.Common.Sets.{has, add, get, put, string_eq}
use readflow.Common.Sort.{sort_by}
use readflow.Api.{LibraryFolder, LibraryJob, LibrarySnapshot}

unfoldable pub find_folder : List LibraryFolder → Option String → Option LibraryFolder
find_folder folders none = none
find_folder folders (some id) = find (λ f. str_eq f.id id) folders

-- `new Map(folders.map((folder) => [folder.id, folder]))`.
abbrev pub by_id_from :
    List LibraryFolder → List (String × LibraryFolder) → List (String × LibraryFolder)
by_id_from [] m = m
by_id_from (f ∷ fs) m = by_id_from fs (put f.id f m)

abbrev pub by_id : List LibraryFolder → List (String × LibraryFolder)
by_id folders = by_id_from folders []

abbrev is_truthy : String → Bool
is_truthy id = not (str_eq id "")

-- The loop of `folderPath`, the last folder at the end; none is returned only without fuel.
unfoldable pub path_from :
    ℕ
    → List (String × LibraryFolder)
    → Option String
    → List LibraryFolder
    → Option (List LibraryFolder)
path_from fuel m none chain = some chain
path_from zero m (some id) chain = none
path_from (suc n) m (some id) chain =
    if str_eq id ""
    then some chain
    else elim (get id m) [ none ↦ some chain | some f ↦ path_from n m f.parent_id (f ∷ chain) ]

unfoldable pub folder_path : ℕ → List LibraryFolder → Option String → Option (List LibraryFolder)
folder_path fuel folders id = path_from fuel (by_id folders) id []

abbrev pub is_parent : Option String → Option String → Bool
is_parent none none = true
is_parent none (some b) = false
is_parent (some a) none = false
is_parent (some a) (some b) = str_eq a b

abbrev pub folder_le : LibraryFolder → LibraryFolder → Bool
folder_le left right = leb left.position right.position

abbrev pub job_le : LibraryJob → LibraryJob → Bool
job_le left right = leb left.position right.position

unfoldable pub folder_contents :
    LibrarySnapshot → Option String → List LibraryFolder × List LibraryJob
folder_contents s id = (
  sort_by folder_le (keep (λ f. is_parent f.parent_id id) s.folders),
  sort_by job_le (keep (λ j. is_parent (or_else j.folder_id none) id) s.jobs),
)

-- The locals of `jobsInFolders`.
pub record Sweep : Type 0 where
  pub allowed : List String
  pub changed : Bool

abbrev pub in_some : Option String → List String → Bool
in_some none allowed = false
in_some (some id) allowed = has id allowed

abbrev pub enters : LibraryFolder → List String → Bool
enters f allowed = not (has f.id allowed) && in_some f.parent_id allowed

unfoldable pub visit : LibraryFolder → Sweep → Sweep
visit f s =
    if enters f s.allowed then record { allowed = add f.id s.allowed; changed = true } else s

-- One pass over the folders.
unfoldable pub sweep : List LibraryFolder → Sweep → Sweep
sweep [] s = s
sweep (f ∷ fs) s = sweep fs (visit f s)

-- The loop `while (changed)`.
unfoldable pub sweep_all : ℕ → List LibraryFolder → List String → List String
sweep_all zero folders allowed = allowed
sweep_all (suc n) folders allowed =
    let swept = sweep folders (record { allowed = allowed; changed = false }) in
    let rest = sweep_all n folders swept.allowed in if swept.changed then rest else swept.allowed

-- `new Set(folderIds)`.
abbrev pub as_set : List String → List String → List String
as_set [] s = s
as_set (id ∷ ids) s = as_set ids (add id s)

-- With a pass for each folder and one more.
unfoldable pub allowed_folders : List LibraryFolder → List String → List String
allowed_folders folders ids = sweep_all (suc (length folders)) folders (as_set ids [])

unfoldable pub jobs_in_folders : LibrarySnapshot → List String → List String
jobs_in_folders s ids =
    map (λ j. j.id)
      (keep (λ j. in_some (or_else j.folder_id none) (allowed_folders s.folders ids)) s.jobs)
