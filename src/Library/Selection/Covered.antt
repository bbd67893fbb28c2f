-- ===== src/Library/Selection/Covered.antt =====
-- What the items of a selection stand for.
use readflow.Common.{
  ◌≡◌, refl, ◌&&◌, ◌||◌, not, Bool, false, List, [], ◌∷◌, ◌++◌, String, map, arith, str_eq, eq_iff,
}
use readflow.Common.Sets.{has, string_eq}
use readflow.Api.{LibraryJob, LibrarySnapshot, LibraryItemRef, folder, job}
use readflow.Library.Folders.{jobs_in_folders, as_set}
use readflow.Library.Folders.Reached.{has-as_set}
use readflow.Library.Selection.{selection_items, selected_folders, job_items}

abbrev pub is_job_item : String → LibraryItemRef → Bool
is_job_item id item = elim item.kind [ job ↦ str_eq item.id id | folder ↦ false ]

abbrev pub has_job_item : String → List LibraryItemRef → Bool
has_job_item id [] = false
has_job_item id (i ∷ is) = is_job_item id i || has_job_item id is

has_job-append :
    (id : String) (xs ys : List LibraryItemRef)
    → has_job_item id (xs ++ ys) ≡ (has_job_item id xs || has_job_item id ys)
has_job-append id [] ys = refl
has_job-append id (x ∷ xs) ys = ground (arith, has_job-append id xs ys)

has_job-folders :
    (id : String) (ids : List String)
    → has_job_item id (map (λ i. record { kind = folder; id = i }) ids) ≡ false
has_job-folders id [] = refl
has_job-folders id (i ∷ ids) = has_job-folders id ids

has_job-job_items :
    (id : String) (selection covered : List String) (jobs : List LibraryJob)
    → has_job_item id (job_items selection covered jobs)
      ≡ (has id (map (λ j. j.id) jobs) && has id selection && not (has id covered))
unfolding job_items
has_job-job_items id selection covered [] = refl
has_job-job_items id selection covered (j ∷ js) =
    ground (arith, has_job-job_items id selection covered js, eq_iff j.id id)

-- A job is an item of the selection exactly if it is a job of the library, selected, and not among the
-- jobs in or under a selected folder: a folder's item stands for its jobs, and no selected job is lost.
pub has_job-selection_items :
    (s : LibrarySnapshot) (selection : List String) (id : String)
    → has_job_item id (selection_items s selection) ≡ (
        has id (map (λ j. j.id) s.jobs)
        && has id selection
        && not (has id (jobs_in_folders s (selected_folders s selection))))
unfolding selection_items
has_job-selection_items s selection id =
    let ids = selected_folders s selection in
    let covered = as_set (jobs_in_folders s ids) [] in
    ground (
      arith,
      has_job-append id (map (λ i. record { kind = folder; id = i }) ids)
          (job_items selection covered s.jobs),
      has_job-folders id ids,
      has_job-job_items id selection covered s.jobs,
      has-as_set id (jobs_in_folders s ids) [],
    )
