-- ===== src/Library/Page/Events.antt =====
-- The library's page of web/src/features/library/LibraryPage.tsx over time: an event is a timer that
-- fires, a request that is settled, another route, an event of the server or a control that is used.
use readflow.Common.{
  ℕ, ◌+◌, Bool, false, Option, none, some, List, [], ◌∷◌, String, get_elem?, leb, if◌then◌else◌,
}
use readflow.Api.{ItemKind, LibraryFolder, LibraryJob, LibrarySnapshot, LibraryItemRef}
use readflow.State.AppStore.{Payloads, WsEnvelope}
use readflow.Library.Filter.{LibraryFilter, SearchText}
use readflow.Library.Page.{
  LibraryPage, Caller, Action, load_succeeded, load_failed, action_succeeded, action_failed,
  notice_fires, Dialog, toggle_selection,
}
use readflow.Library.Page.Handlers.{
  see_last_event, refresh_fires, mounted, folder_changed, toggle_organize, open_folder,
  toggle_selected, select_all, ask_move, ask_rename_folder, ask_rename_job, delete_rows,
  delete_only, mark_rows, reorder, bulk_delete, bulk_read, submit_folder, submit_folder_name,
  submit_job_title, new_job_created, submit_move,
}
use readflow.Library.Selection.{toggle_selection}

-- The rows' check boxes and the bulk actions are shown while the library is organized.
pub data Control : Type 0 where
  organize_pressed all_pressed bulk_delete_pressed new_job_made retry_pressed closed : Control
  new_folder_pressed new_job_pressed : Control
  branch_toggled : String → Control
  row_toggled : String → Bool → Control
  folder_opened : Option String → Control
  filter_set : LibraryFilter → Control
  move_asked delete_asked : List LibraryItemRef → Control
  only_deleted renaming_folder : LibraryFolder → Control
  renaming_job : LibraryJob → Control
  marked : List LibraryItemRef → Bool → Control
  dropped : ItemKind → List String → Control
  bulk_marked drawer_set : Bool → Control
  folder_submitted : String → Control
  folder_named : LibraryFolder → String → Control
  job_named : LibraryJob → String → Control
  moved : List LibraryItemRef → Option String → Control

abbrev organized : (LibraryPage → LibraryPage) → LibraryPage → LibraryPage
organized change p = if p.organize then change p else p

unfoldable pub control : SearchText → Control → LibraryPage → LibraryPage
control text organize_pressed p = toggle_organize p
control text all_pressed p = organized (select_all text) p
control text bulk_delete_pressed p = organized bulk_delete p
control text new_job_made p = new_job_created p
control text retry_pressed p = record p { loads = Caller.bare ∷ p.loads }
control text closed p = record p { dialog = none }
control text new_folder_pressed p = record p { dialog = some Dialog.new_folder }
control text new_job_pressed p = record p { dialog = some Dialog.new_job }
control text (branch_toggled id) p = record p { expanded = toggle_selection p.expanded id }
control text (row_toggled id shift) p = organized (toggle_selected text id shift) p
control text (folder_opened id) p = let (page, route) = open_folder id p in page
control text (filter_set filter) p = record p { filter = filter }
control text (move_asked items) p = ask_move items p
control text (delete_asked items) p = delete_rows items p
control text (only_deleted f) p = delete_only f p
control text (renaming_folder f) p = ask_rename_folder f p
control text (renaming_job j) p = ask_rename_job j p
control text (marked items is_read) p = mark_rows items is_read p
control text (dropped kind ids) p = reorder kind ids p
control text (bulk_marked is_read) p = organized (bulk_read is_read) p
control text (drawer_set shown) p = record p { drawer_open = shown }
control text (folder_submitted name) p = submit_folder name p
control text (folder_named f name) p = submit_folder_name f name p
control text (job_named j title) p = submit_job_title j title p
control text (moved items target) p = submit_move items target p

-- A request is settled by its place among those that are waited for.
pub data PageEvent (t : Payloads) : Type 0 where
  time_passes : ℕ → PageEvent t
  seen : WsEnvelope t → PageEvent t
  refresh_due notice_due : PageEvent t
  loaded : ℕ → LibrarySnapshot → PageEvent t
  not_loaded : ℕ → Option String → PageEvent t
  acted : ℕ → PageEvent t
  not_acted : ℕ → Option String → PageEvent t
  routed : Option String → PageEvent t
  used : Control → PageEvent t

-- The page and the clock.
pub record Moment : Type 0 where
  pub page : LibraryPage
  pub now : ℕ

abbrev pub load_with :
    Option Caller → (Caller → LibraryPage → LibraryPage) → LibraryPage → LibraryPage
load_with none settled p = p
load_with (some caller) settled p = settled caller p

abbrev pub act_with :
    Option Action → (Action → LibraryPage → LibraryPage) → LibraryPage → LibraryPage
act_with none settled p = p
act_with (some action) settled p = settled action p

abbrev pub has_come : Option ℕ → ℕ → Bool
has_come none now = false
has_come (some due) now = leb due now

module _ {t : Payloads} (text : SearchText) where
  unfoldable pub page_change : PageEvent t → ℕ → LibraryPage → LibraryPage
  page_change (time_passes n) now p = p
  page_change (seen event) now p = see_last_event event now p
  page_change refresh_due now p = if has_come p.refresh_timer now then refresh_fires p else p
  page_change notice_due now p = notice_fires p
  page_change (loaded n next) now p =
      load_with (get_elem? p.loads n) (λ caller. load_succeeded n caller next) p
  page_change (not_loaded n failure) now p =
      load_with (get_elem? p.loads n) (λ caller. load_failed n caller failure) p
  page_change (acted n) now p = act_with (get_elem? p.actions n) (action_succeeded n) p
  page_change (not_acted n failure) now p =
      act_with (get_elem? p.actions n) (λ action. action_failed n action failure) p
  page_change (routed id) now p = folder_changed id p
  page_change (used c) now p = control text c p

  abbrev passed : PageEvent t → ℕ
  passed (time_passes n) = n
  passed event = 0

  unfoldable pub page_step : PageEvent t → Moment → Moment
  page_step event m = record { page = page_change event m.now m.page; now = m.now + passed event }

  unfoldable pub page_run : List (PageEvent t) → Moment → Moment
  page_run [] m = m
  page_run (event ∷ events) m = page_run events (page_step event m)

abbrev pub start : Option String → Moment
start id = record { page = mounted id; now = 0 }
