-- ===== src/Library/Page/Handlers.antt =====
-- The effects and handlers of web/src/features/library/LibraryPage.tsx; what a handler navigates to is
-- its second result.
use readflow.Common.{
  ℕ, ◌+◌, Bool, true, false, not, Option, none, some, List, [], ◌∷◌, ◌++◌, String, map, str_eq,
  if◌then◌else◌, find, any,
}
use readflow.Common.Sets.{string_eq}
use readflow.Api.{
  read, ItemKind, folder, job, LibraryFolder, LibraryJob, LibrarySnapshot, LibraryItemRef,
}
use readflow.State.AppStore.{
  Payloads, WsEnvelope, library_changed, job_progress, job_created, job_updated, job_completed,
  chunk_ready,
}
use readflow.Library.Folders.{folder_contents, as_set}
use readflow.Library.Selection.{toggle_selection, range_selection, selection_items}
use readflow.Library.Filter.{
  LibraryFilter, SearchText, filter_library, read_status_of, same_read_status,
}
use readflow.Library.Moves.{excluded_targets}
use readflow.Library.Page.{
  LibraryPage, Dialog, run, refresh, clear_selection, expand_path, is_live, bare, create_folder,
  delete_folder_only, delete_items, mark_read, move_items, of_new_job, reorder_library,
  request_rename_folder, request_rename_job, clear_selected, close_dialog, initial_library, stay,
}

unfoldable pub has_live_jobs : Option LibrarySnapshot → Bool
has_live_jobs none = false
has_live_jobs (some s) = any (λ j. is_live j.status) s.jobs

abbrev pub schedule : ℕ → Option ℕ → Option ℕ
schedule now none = some (now + 250)
schedule now (some due) = some due

module _ {t : Payloads} where
  abbrev pub is_reloading : WsEnvelope t → Bool
  is_reloading (library_changed reason) = true
  is_reloading (job_progress id progress) = true
  is_reloading (job_created j) = true
  is_reloading (job_updated j) = true
  is_reloading (job_completed c) = true
  is_reloading (chunk_ready c) = true
  is_reloading event = false

  -- The effect of a new `lastEvent`.
  unfoldable pub see_last_event : WsEnvelope t → ℕ → LibraryPage → LibraryPage
  see_last_event event now p =
      if is_reloading event then record p { refresh_timer = schedule now p.refresh_timer } else p

-- The refresh timer fires.
unfoldable pub refresh_fires : LibraryPage → LibraryPage
refresh_fires p = refresh bare (record p { refresh_timer = none })

abbrev pub mounted : Option String → LibraryPage
mounted id = refresh bare (initial_library id)

-- The effects of another folder in the route.
unfoldable pub folder_changed : Option String → LibraryPage → LibraryPage
folder_changed id p =
    expand_path (clear_selection (record p { folder_id = id; drawer_open = false }))

unfoldable pub toggle_organize : LibraryPage → LibraryPage
toggle_organize p =
    if p.organize
    then clear_selection (record p { organize = false })
    else record p { organize = true }

pub data Route : Type 0 where
  library_root trash : Route
  library_folder : String → Route
  job_page : String → Bool → Route

abbrev pub folder_route : Option String → Route
folder_route none = library_root
folder_route (some id) = if str_eq id "" then library_root else library_folder id

unfoldable pub open_folder : Option String → LibraryPage → LibraryPage × Route
open_folder id p = (record p { drawer_open = false }, folder_route id)

abbrev pub play_first : List LibraryJob → Option Route
play_first [] = none
play_first (j ∷ jobs) =
    elim (find (λ k. not (same_read_status (read_status_of k) read)) (j ∷ jobs)) [
      | none ↦ some (job_page j.id true)
      | some unheard ↦ some (job_page unheard.id true)
    ]

abbrev play_in : Option LibrarySnapshot → Option String → Option Route
play_in none id = none
play_in (some s) id = let (folders, jobs) = folder_contents s id in play_first jobs

unfoldable pub play_folder : Option String → LibraryPage → Option Route
play_folder id p = play_in p.snapshot id

abbrev pub folder_key : LibraryFolder → String
folder_key f = f.id

abbrev pub job_key : LibraryJob → String
job_key j = j.id

-- `visibleIds`.
module _ (text : SearchText) where
  abbrev rows_of : LibrarySnapshot → LibraryFilter → Option String → List String
  rows_of s filter id =
      let listing = filter_library text s filter in
      let (folders, jobs) = folder_contents s id in
      map folder_key (if listing.searching then listing.folders else folders)
      ++ map job_key (if listing.searching then listing.jobs else jobs)

  abbrev rows_in : Option LibrarySnapshot → LibraryFilter → Option String → List String
  rows_in none filter id = []
  rows_in (some s) filter id = rows_of s filter id

  unfoldable pub visible_ids : LibraryPage → List String
  visible_ids p = rows_in p.snapshot p.filter p.folder_id

  abbrev toggled_from : Option String → String → Bool → LibraryPage → LibraryPage
  toggled_from none id shift p = record p {
    selection_anchor = some id;
    selection = toggle_selection p.selection id;
  }
  toggled_from (some anchor) id shift p =
      if shift
      then record p { selection = range_selection (visible_ids p) (some anchor) id }
      else record p { selection_anchor = some id; selection = toggle_selection p.selection id }

  unfoldable pub toggle_selected : String → Bool → LibraryPage → LibraryPage
  toggle_selected id shift p = toggled_from p.selection_anchor id shift p

  unfoldable pub select_all : LibraryPage → LibraryPage
  select_all p = record p { selection = as_set (visible_ids p) [] }

abbrev items_of : Option LibrarySnapshot → List String → List LibraryItemRef
items_of none selection = []
items_of (some s) selection = selection_items s selection

abbrev pub selected : LibraryPage → List LibraryItemRef
selected p = items_of p.snapshot p.selection

-- The members of `actions`.
unfoldable pub ask_move : List LibraryItemRef → LibraryPage → LibraryPage
ask_move items p = record p {
  dialog = some (Dialog.move items (excluded_targets p.snapshot items));
}

unfoldable pub ask_rename_folder : LibraryFolder → LibraryPage → LibraryPage
ask_rename_folder f p = record p { dialog = some (Dialog.rename_folder f) }

unfoldable pub ask_rename_job : LibraryJob → LibraryPage → LibraryPage
ask_rename_job j p = record p { dialog = some (Dialog.rename_job j) }

unfoldable pub delete_rows : List LibraryItemRef → LibraryPage → LibraryPage
delete_rows items p = run (delete_items items) (some "Moved to trash") stay p

unfoldable pub delete_only : LibraryFolder → LibraryPage → LibraryPage
delete_only f p = run (delete_folder_only f.id) (some "Folder removed; its jobs moved up") stay p

unfoldable pub mark_rows : List LibraryItemRef → Bool → LibraryPage → LibraryPage
mark_rows items is_read p =
    run (mark_read items is_read) (some (if is_read then "Marked read" else "Marked unread")) stay p

abbrev reordered : ItemKind → List String → LibrarySnapshot → LibraryPage → LibraryPage
reordered folder ids s p =
    let (folders, jobs) = folder_contents s p.folder_id in
    run (reorder_library p.folder_id ids (map job_key jobs)) none stay p
reordered job ids s p =
    let (folders, jobs) = folder_contents s p.folder_id in
    run (reorder_library p.folder_id (map folder_key folders) ids) none stay p

abbrev reordered_in : Option LibrarySnapshot → ItemKind → List String → LibraryPage → LibraryPage
reordered_in none kind ids p = p
reordered_in (some s) kind ids p = reordered kind ids s p

unfoldable pub reorder : ItemKind → List String → LibraryPage → LibraryPage
reorder kind ids p = reordered_in p.snapshot kind ids p

-- The handlers of the pane and of the dialogs.
unfoldable pub bulk_delete : LibraryPage → LibraryPage
bulk_delete p = run (delete_items (selected p)) (some "Moved to trash") stay (clear_selection p)

unfoldable pub bulk_read : Bool → LibraryPage → LibraryPage
bulk_read is_read p = run (mark_read (selected p) is_read) none stay p

unfoldable pub submit_folder : String → LibraryPage → LibraryPage
submit_folder name p = run (create_folder name p.folder_id) (some "Folder created") close_dialog p

unfoldable pub submit_folder_name : LibraryFolder → String → LibraryPage → LibraryPage
submit_folder_name f name p = run (request_rename_folder f.id name) none close_dialog p

unfoldable pub submit_job_title : LibraryJob → String → LibraryPage → LibraryPage
submit_job_title j title p = run (request_rename_job j.id title) none close_dialog p

-- `api.createJob` was answered.
unfoldable pub new_job_created : LibraryPage → LibraryPage
new_job_created p = refresh of_new_job p

unfoldable pub submit_move : List LibraryItemRef → Option String → LibraryPage → LibraryPage
submit_move items target p =
    run (move_items items target) (some "Moved") clear_selected (record p { dialog = none })
