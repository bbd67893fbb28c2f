-- ===== src/Library/Page.antt =====
-- The state of web/src/features/library/LibraryPage.tsx. A promise that is waited for is a member of
-- `loads` or `actions`, and how it ends is an argument; the browser's clock is `now`, in milliseconds.
pub mod Handlers
pub mod Events
pub mod Reloads
pub mod Settled
pub mod Visible
use readflow.Common.{
  ℕ, zero, suc, ◌+◌, ◌≤◌, Bool, true, false, not, ◌&&◌, ◌||◌, Option, none, some, List, [], ◌∷◌,
  ◌++◌, String, length, map, str_eq, if◌then◌else◌, or_option, or_else,
}
use readflow.Common.Sets.{has, add, delete, string_eq}
use readflow.Chunk.{JobStatus}
use readflow.Api.{ReadStatus, LibraryFolder, LibraryJob, LibrarySnapshot, LibraryItemRef}
use readflow.Library.Folders.{folder_path, folder_contents, as_set}
use readflow.Library.Selection.{toggle_selection, range_selection, selection_items}
use readflow.Library.Filter.{LibraryFilter, SearchText, filter_library, read_status_of}
use readflow.Library.Moves.{excluded_targets}

-- `api.*`, called by actions.
pub data LibraryRequest : Type 0 where
  delete_items : List LibraryItemRef → LibraryRequest
  delete_folder_only : String → LibraryRequest
  mark_read : List LibraryItemRef → Bool → LibraryRequest
  reorder_library : Option String → List String → List String → LibraryRequest
  create_folder : String → Option String → LibraryRequest
  request_rename_folder request_rename_job : String → String → LibraryRequest
  move_items : List LibraryItemRef → Option String → LibraryRequest

-- What stands behind `await run(...)`.
pub data Continuation : Type 0 where
  stay close_dialog clear_selected : Continuation

-- Who waits for `refresh()`: nobody, `run` or the submission of a new job.
pub data Caller : Type 0 where
  bare of_new_job : Caller
  of_run : Option String → Continuation → Caller

pub record Action : Type 0 where
  pub request : LibraryRequest
  pub message : Option String
  pub continuation : Continuation

pub data Dialog : Type 0 where
  new_folder new_job : Dialog
  rename_folder : LibraryFolder → Dialog
  rename_job : LibraryJob → Dialog
  move : List LibraryItemRef → List String → Dialog

pub record LibraryPage : Type 0 where
  pub folder_id : Option String
  pub snapshot : Option LibrarySnapshot
  pub loading : Bool
  pub error : Option String
  pub organize : Bool
  pub selection : List String
  pub selection_anchor : Option String
  pub filter : LibraryFilter
  pub dialog : Option Dialog
  pub expanded : List String
  pub drawer_open : Bool
  pub notice : Option String
  -- When the refresh timer fires; the message of the notice's timer.
  pub refresh_timer : Option ℕ
  pub notice_timer : Option String
  pub loads : List Caller
  pub actions : List Action

abbrev pub default_filter : LibraryFilter
default_filter = record { query = ""; state = none }

abbrev pub initial_library : Option String → LibraryPage
initial_library id = record {
  folder_id = id;
  snapshot = none;
  loading = true;
  error = none;
  organize = false;
  selection = [];
  selection_anchor = none;
  filter = default_filter;
  dialog = none;
  expanded = [];
  drawer_open = false;
  notice = none;
  refresh_timer = none;
  notice_timer = none;
  loads = [];
  actions = [];
}

abbrev pub is_live : JobStatus → Bool
is_live JobStatus.completed = false
is_live JobStatus.failed = false
is_live status = true

abbrev pub refresh : Caller → LibraryPage → LibraryPage
refresh caller p = record p { loads = caller ∷ p.loads }

-- The old timer, if any, is cleared.
abbrev pub flush_notice : String → LibraryPage → LibraryPage
flush_notice message p = record p { notice = some message; notice_timer = some message }

abbrev pub say : Option String → LibraryPage → LibraryPage
say none p = p
say (some message) p = if str_eq message "" then p else flush_notice message p

abbrev same_notice : Option String → String → Bool
same_notice none message = false
same_notice (some current) message = str_eq current message

abbrev notice_over : Option String → LibraryPage → LibraryPage
notice_over none p = p
notice_over (some message) p = record p {
  notice_timer = none;
  notice = if same_notice p.notice message then none else p.notice;
}

-- The timer of the notice fires.
unfoldable pub notice_fires : LibraryPage → LibraryPage
notice_fires p = notice_over p.notice_timer p

abbrev pub clear_selection : LibraryPage → LibraryPage
clear_selection p = record p { selection = []; selection_anchor = none }

abbrev pub continue : Continuation → LibraryPage → LibraryPage
continue stay p = p
continue close_dialog p = record p { dialog = none }
continue clear_selected p = clear_selection p

-- What follows `await refresh()`.
abbrev pub resume : Caller → LibraryPage → LibraryPage
resume bare p = p
resume of_new_job p = flush_notice "Job created" (record p { dialog = none })
resume (of_run message next) p = continue next (say message (record p { error = none }))

abbrev add_ids : List LibraryFolder → List String → List String
add_ids [] ids = ids
add_ids (f ∷ fs) ids = add_ids fs (add f.id ids)

abbrev expand_chain : Option (List LibraryFolder) → LibraryPage → LibraryPage
expand_chain none p = p
expand_chain (some ancestors) p = record p { expanded = add_ids ancestors p.expanded }

abbrev expand_in : Option LibrarySnapshot → Option String → LibraryPage → LibraryPage
expand_in none id p = p
expand_in (some s) none p = p
expand_in (some s) (some id) p =
    if str_eq id ""
    then p
    else expand_chain (folder_path (suc (length s.folders)) s.folders (some id)) p

-- The effect that keeps the path to the open folder expanded. A chain of parents without a cycle has no
-- more members than there are folders; on a cycle the source does not come back.
abbrev pub expand_path : LibraryPage → LibraryPage
expand_path p = expand_in p.snapshot p.folder_id p

-- `removed n l` is the list without its member `n`.
abbrev pub removed {ℓ} : {A : Type ℓ} → ℕ → List A → List A
removed n [] = []
removed zero (x ∷ xs) = xs
removed (suc n) (x ∷ xs) = x ∷ removed n xs

-- `api.getLibrary()` succeeded for a caller, the member `n` of the loads.
unfoldable pub load_succeeded : ℕ → Caller → LibrarySnapshot → LibraryPage → LibraryPage
load_succeeded n caller next p = resume caller (
    expand_path
      (record p { loads = removed n p.loads; snapshot = some next; error = none; loading = false }))

-- A failure has the message of an `Error`, or is no `Error`.
unfoldable pub load_failed : ℕ → Caller → Option String → LibraryPage → LibraryPage
load_failed n caller failure p = resume caller (record p {
  loads = removed n p.loads;
  error = some (or_else failure "Unable to load the library");
  loading = false;
})

-- `run`: the request is sent.
abbrev pub run : LibraryRequest → Option String → Continuation → LibraryPage → LibraryPage
run request message next p = record p {
  actions = record { request = request; message = message; continuation = next } ∷ p.actions;
}

unfoldable pub action_succeeded : ℕ → Action → LibraryPage → LibraryPage
action_succeeded n action p =
    refresh (of_run action.message action.continuation) (record p { actions = removed n p.actions })

unfoldable pub action_failed : ℕ → Action → Option String → LibraryPage → LibraryPage
action_failed n action failure p = continue action.continuation (record p {
  actions = removed n p.actions;
  error = some (or_else failure "That action could not be completed");
})
