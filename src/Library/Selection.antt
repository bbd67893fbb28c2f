-- ===== src/Library/Selection.antt =====
-- Selection and reordering of web/src/features/library/library-model.ts.
pub mod Covered
pub mod Reordered
use readflow.Common.{
  ℕ, zero, suc, ◌+◌, ◌-◌, Bool, true, false, not, ◌&&◌, ◌||◌, Option, none, some, List, [], ◌∷◌,
  ◌++◌, String, leb, length, take, drop, keep, map, min, str_eq, if◌then◌else◌,
}
use readflow.Common.Sets.{has, add, delete, string_eq}
use readflow.Common.Int.{ℤ, pos_part}
use readflow.Api.{LibraryJob, LibrarySnapshot, LibraryItemRef, folder, job}
use readflow.Library.Folders.{jobs_in_folders, as_set}

unfoldable pub toggle_selection : List String → String → List String
toggle_selection selection id = if has id selection then delete id selection else add id selection

abbrev next_index : Option ℕ → Option ℕ
next_index none = none
next_index (some n) = some (suc n)

-- `Array.prototype.indexOf`, with none for -1.
abbrev pub index_of_id : List String → String → Option ℕ
index_of_id [] id = none
index_of_id (x ∷ xs) id = if str_eq x id then some 0 else next_index (index_of_id xs id)

-- `slice(start, end + 1)`.
abbrev pub slice_through : ℕ → ℕ → List String → List String
slice_through start end ids = take (suc end - start) (drop start ids)

abbrev pub range_between : List String → String → Option ℕ → Option ℕ → List String
range_between ids target none to = target ∷ []
range_between ids target (some from) none = target ∷ []
range_between ids target (some from) (some to) =
    if leb from to
    then as_set (slice_through from to ids) []
    else as_set (slice_through to from ids) []

abbrev pub anchor_index : List String → Option String → Option ℕ
anchor_index ids none = none
anchor_index ids (some anchor) = if str_eq anchor "" then none else index_of_id ids anchor

unfoldable pub range_selection : List String → Option String → String → List String
range_selection ids anchor target =
    range_between ids target (anchor_index ids anchor) (index_of_id ids target)

abbrev pub without_id : List String → String → List String
without_id ids id = keep (λ x. not (str_eq x id)) ids

unfoldable pub reorder_ids : List String → String → ℤ → List String
reorder_ids ids dragged target =
    let without = without_id ids dragged in
    let clamped = min (length without) (pos_part target) in
    take clamped without ++ dragged ∷ drop clamped without

abbrev pub selected_folders : LibrarySnapshot → List String → List String
selected_folders s selection = map (λ f. f.id) (keep (λ f. has f.id selection) s.folders)

unfoldable pub job_items : List String → List String → List LibraryJob → List LibraryItemRef
job_items selection covered [] = []
job_items selection covered (j ∷ js) =
    let rest = job_items selection covered js in
    if has j.id selection && not (has j.id covered)
    then record { kind = job; id = j.id } ∷ rest
    else rest

unfoldable pub selection_items : LibrarySnapshot → List String → List LibraryItemRef
selection_items s selection =
    let folder_ids = selected_folders s selection in
    map (λ id. record { kind = folder; id = id }) folder_ids
    ++ job_items selection (as_set (jobs_in_folders s folder_ids) []) s.jobs
