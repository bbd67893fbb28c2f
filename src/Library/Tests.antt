-- ===== src/Library/Tests.antt =====
-- The library's theorems at three nested folders with two jobs.
use readflow.Common.{
  ◌≡◌, true, false, none, some, List, [], ◌∷◌, String, arith, ◌↔◌, ◌<◌, Option, suc, ℕ, ◌≤◌, ap,
  if◌then◌else◌, map, or_else, str_eq, refl, eq_iff, All, Bool-cases, inl, subst, inr,
}
use readflow.Common.Sets.{has, get, string_eq}
use readflow.Chunk.{JobStatus}
use readflow.Api.{LibraryFolder, LibraryJob, LibrarySnapshot}
use readflow.Library.Folders.{allowed_folders, folder_path, by_id, path_from}
use readflow.Library.Folders.Reached.{Under, allowed_folders-Under}
use readflow.Library.Folders.Path.{folder_path_total}

abbrev pub folder_of : String → Option String → LibraryFolder
folder_of id parent = record {
  id = id;
  name = id;
  parent_id = parent;
  position = 0;
  job_count = 0;
  folder_count = 0;
  progress_fraction = 0;
}

-- A child stands before its parent.
abbrev pub folders : List LibraryFolder
folders = folder_of "c" (some "b") ∷ folder_of "b" (some "a") ∷ folder_of "a" none ∷ []

abbrev pub job_of : String → Option String → LibraryJob
job_of id parent = record {
  summary = record {
    id = id;
    title = none;
    status = JobStatus.completed;
    voice_id = "suzy";
    model_id = "small";
    is_active_listening = false;
    render_to_end = false;
    total_chunks_emitted = 1;
    total_chunks_completed = 1;
    buffered_seconds = 0;
    completed_seconds = 0;
    folder_id = some parent;
    progress = none;
  };
  position = 0;
}

abbrev pub snapshot : LibrarySnapshot
snapshot = record {
  folders = folders;
  jobs = job_of "j1" (some "c") ∷ job_of "j2" none ∷ [];
  trash_count = 0;
}

allowed_folders-Under_example :
    (has {A = String} "c" (allowed_folders folders ("a" ∷ [])) ≡ true)
    ↔ Under folders ("a" ∷ []) "c"
allowed_folders-Under_example = allowed_folders-Under folders ("a" ∷ []) "c"

-- How many folders are above one in the small library.
abbrev depth : String → ℕ
depth id = if str_eq id "c" then 2 else if str_eq id "b" then 1 else 0

abbrev parent_depth : Option String → ℕ
parent_depth none = 0
parent_depth (some parent) = suc (depth parent)

-- The folder under a key of a map in which each folder lies below its parent.
get-falls :
    (key : String) (f : LibraryFolder) (m : List (String × LibraryFolder))
    → All (λ entry. parent_depth entry.1.parent_id ≤ depth entry.0) m
    → get key m ≡ some f
    → parent_depth f.parent_id ≤ depth key
get-falls key f [] falls found = absurd (cc found)
get-falls key f ((k, g) ∷ m) falls found = elim (Bool-cases (str_eq k key)) [
  | inl here ↦
      let same : k ≡ key = (eq_iff k key).0 here in
      let shown : g ≡ f = cc (rw here at found) in
      subst (λ h. parent_depth h.parent_id ≤ depth key) shown
        (subst (λ i. parent_depth g.parent_id ≤ depth i) same falls.0)
  | inr there ↦ get-falls key f m falls.1 (rw there at found)
]

folders_fall :
    (key parent : String) (f : LibraryFolder)
    → get key (by_id folders) ≡ some f
    → f.parent_id ≡ some parent
    → depth parent < depth key
folders_fall key parent f found up =
    let below : parent_depth f.parent_id ≡ suc (depth parent) = ap parent_depth up in
    omega (arith, get-falls key f (by_id folders) (omega arith) found)

-- From the deepest folder up to the root.
folder_path_total_example :
    (path : List LibraryFolder) × (folder_path 3 folders (some "c") ≡ some path)
folder_path_total_example = folder_path_total folders depth "c" folders_fall

folder_path_run :
    map (λ f. f.id) (or_else (folder_path 3 folders (some "c")) []) ≡ "a" ∷ "b" ∷ "c" ∷ []
unfolding folder_path path_from
folder_path_run = refl
