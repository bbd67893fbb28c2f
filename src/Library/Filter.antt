-- ===== src/Library/Filter.antt =====
-- Search, filters and the labels of rows, of web/src/features/library/library-model.ts. The texts'
-- `trim`, `toLowerCase` and `includes` are a parameter. Fractions and seconds are in thousandths.
use readflow.Common.{
  ℕ, ◌+◌, ◌/◌, ◌%◌, max, Bool, true, false, not, ◌&&◌, Option, none, some, List, [], String, leb,
  ltb, ◌==◌, keep, str_eq, if◌then◌else◌, or_else,
}
use readflow.Api.{
  ReadStatus, unread, in_progress, read, JobProgress, LibraryFolder, LibraryJob, LibrarySnapshot,
}

-- The state "all" is none.
pub record LibraryFilter : Type 0 where
  pub query : String
  pub state : Option ReadStatus

pub record SearchText : Type 0 where
  pub trim : String → String
  pub to_lower_case : String → String
  pub includes : String → String → Bool

pub record Listing : Type 0 where
  pub folders : List LibraryFolder
  pub jobs : List LibraryJob
  pub searching : Bool

abbrev pub same_read_status : ReadStatus → ReadStatus → Bool
same_read_status unread unread = true
same_read_status in_progress in_progress = true
same_read_status read read = true
same_read_status a b = false

-- `job.progress?.read_status ?? "unread"`.
abbrev status_in : Option JobProgress → ReadStatus
status_in none = unread
status_in (some p) = p.read_status

unfoldable pub read_status_of : LibraryJob → ReadStatus
read_status_of j = status_in (or_else j.progress none)

abbrev pub matches_state : Option ReadStatus → LibraryJob → Bool
matches_state none j = true
matches_state (some state) j = same_read_status (read_status_of j) state

abbrev pub is_all : Option ReadStatus → Bool
is_all none = true
is_all (some state) = false

module _ (text : SearchText) where
  abbrev pub query_of : LibraryFilter → String
  query_of filter = text.to_lower_case (text.trim filter.query)

  abbrev pub matches_folder : String → LibraryFolder → Bool
  matches_folder query f = text.includes (text.to_lower_case f.name) query

  abbrev pub matches_job : String → LibraryFilter → LibraryJob → Bool
  matches_job query filter j =
      if not (matches_state filter.state j)
      then false
      else if str_eq query ""
      then true
      else text.includes (text.to_lower_case (or_else j.title "")) query

  unfoldable pub filter_library : LibrarySnapshot → LibraryFilter → Listing
  filter_library s filter =
      let query = query_of filter in
      if str_eq query "" && is_all filter.state
      then record { folders = []; jobs = []; searching = false }
      else record {
        folders = if str_eq query "" then [] else keep (matches_folder query) s.folders;
        jobs = keep (matches_job query filter) s.jobs;
        searching = true;
      }

abbrev fraction_in : Option JobProgress → ℕ
fraction_in none = 0
fraction_in (some p) = p.fraction

abbrev remaining_in : Option JobProgress → ℕ
remaining_in none = 0
remaining_in (some p) = p.remaining_seconds

-- `Math.round` of a hundred times the fraction.
unfoldable pub progress_percent : LibraryJob → ℕ
progress_percent j = (fraction_in (or_else j.progress none) + 5) / 10

-- "done", "…m left", "…h left" and "…h …m left".
pub data RemainingLabel : Type 0 where
  done : RemainingLabel
  minutes_left hours_left : ℕ → RemainingLabel
  hours_and_minutes_left : ℕ → ℕ → RemainingLabel

unfoldable pub remaining_label : LibraryJob → RemainingLabel
remaining_label j =
    let remaining = remaining_in (or_else j.progress none) in
    let minutes = (remaining + 30000) / 60000 in
    if leb remaining 0
    then done
    else if ltb minutes 60
    then minutes_left (max 1 minutes)
    else if minutes % 60 == 0
    then hours_left (minutes / 60)
    else hours_and_minutes_left (minutes / 60) (minutes % 60)

-- "read", "unread" and "…%".
pub data ReadStateLabel : Type 0 where
  label_read label_unread : ReadStateLabel
  label_percent : ℕ → ReadStateLabel

abbrev label_for : ReadStatus → LibraryJob → ReadStateLabel
label_for read j = label_read
label_for unread j = label_unread
label_for in_progress j = label_percent (progress_percent j)

unfoldable pub read_state_label : LibraryJob → ReadStateLabel
read_state_label j = label_for (read_status_of j) j
