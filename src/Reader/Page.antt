-- ===== src/Reader/Page.antt =====
-- The loading of the reader's page, web/src/features/reader/ReaderPage.tsx: refreshes, patches
-- and marks. A call of the server settles as an operation of its own.
pub mod Events
pub mod Waiting
pub mod Fresh
pub mod Answers
mod Tests
use readflow.Common.{
  ℕ, suc, ◌≡◌, Bool, true, false, not, ◌&&◌, ◌||◌, Option, none, some, List, [], ◌∷◌, String, leb,
  ltb, str_eq, if◌then◌else◌,
}
use readflow.Chunk.{Chunk, is_terminal_status}
use readflow.Api.{JobDetail, JobManifest, JobProgress, StreamJob}
use readflow.Live.{WebSocketStatus, connecting, connected}
use readflow.State.AppStore.{
  job_updated, job_completed, chunk_ready, job_created, library_changed, Payloads, WsEnvelope,
  ChunkReadyPayload,
}
use readflow.Reader.Patch.{StreamEventMeta, merge_job_patch, build_manifest_from_patch}

-- The request that is waited for: its number, its reason, and whether loading is shown.
pub record Refresh : Type 0 where
  pub request_id : ℕ
  pub reason : String
  pub shows_loading : Bool

-- The state and refs of the page of one route.
pub record ReaderPage : Type 0 where
  pub job_id : String
  pub job : Option JobDetail
  pub manifest : Option JobManifest
  pub loading : Bool
  pub error : Option String
  pub missing_job_id : Option String
  pub load_retry_attempt : ℕ
  pub last_refresh_at : Option ℕ
  pub last_refresh_reason : String
  pub refresh_request_id : ℕ
  pub last_applied_request_id : ℕ
  pub refresh_in_flight : Option Refresh
  pub queued_refresh_reason : Option String
  pub previous_socket_status : WebSocketStatus

abbrev pub initial_page : String → WebSocketStatus → ReaderPage
initial_page job_id status = record {
  job_id = job_id;
  job = none;
  manifest = none;
  loading = true;
  error = none;
  missing_job_id = none;
  load_retry_attempt = 0;
  last_refresh_at = none;
  last_refresh_reason = "initial";
  refresh_request_id = 0;
  last_applied_request_id = 0;
  refresh_in_flight = none;
  queued_refresh_reason = none;
  previous_socket_status = status;
}

abbrev pub start_refresh : String → Bool → ReaderPage → ReaderPage
start_refresh reason shows p = record p {
  loading = if shows then true else p.loading;
  refresh_request_id = suc p.refresh_request_id;
  refresh_in_flight =
      some
        (record { request_id = suc p.refresh_request_id; reason = reason; shows_loading = shows });
}

abbrev pub refresh_over : Option Refresh → String → Bool → ReaderPage → ReaderPage
refresh_over none reason shows p = start_refresh reason shows p
refresh_over (some r) reason shows p = record p { queued_refresh_reason = some reason }

unfoldable pub refresh_reader_state : String → Bool → ReaderPage → ReaderPage
refresh_reader_state reason shows p =
    if str_eq p.job_id "" then p else refresh_over p.refresh_in_flight reason shows p

abbrev pub resume_queue : Option String → ReaderPage → ReaderPage
resume_queue none p = p
resume_queue (some reason) p = if str_eq reason "" then p else refresh_reader_state reason false p

-- `finally`.
abbrev pub finish_refresh : Refresh → ReaderPage → ReaderPage
finish_refresh r p = resume_queue p.queued_refresh_reason (record p {
  refresh_in_flight = none;
  loading = if r.shows_loading then false else p.loading;
  queued_refresh_reason = none;
})

abbrev pub apply_refresh : Refresh → JobDetail → JobManifest → ℕ → ReaderPage → ReaderPage
apply_refresh r job manifest now p =
    if ltb r.request_id p.last_applied_request_id then p else record p {
      last_applied_request_id = r.request_id;
      job = some job;
      manifest = some manifest;
      error = none;
      last_refresh_at = some now;
      last_refresh_reason = r.reason;
    }

abbrev pub succeed : Option Refresh → JobDetail → JobManifest → ℕ → ReaderPage → ReaderPage
succeed none job manifest now p = p
succeed (some r) job manifest now p = finish_refresh r (apply_refresh r job manifest now p)

-- Both requests of the refresh have answered.
unfoldable pub refresh_succeeded : JobDetail → JobManifest → ℕ → ReaderPage → ReaderPage
refresh_succeeded job manifest now p = succeed p.refresh_in_flight job manifest now p

pub data LoadFailure : Type 0 where
  not_found : LoadFailure
  failed_with : String → LoadFailure

abbrev pub show_failure : LoadFailure → ReaderPage → ReaderPage
show_failure not_found p = record p { missing_job_id = some p.job_id }
show_failure (failed_with text) p = record p { error = some text }

abbrev pub fail : Option Refresh → LoadFailure → ReaderPage → ReaderPage
fail none failure p = p
fail (some r) failure p = finish_refresh r (show_failure failure p)

unfoldable pub refresh_failed : LoadFailure → ReaderPage → ReaderPage
refresh_failed failure p = fail p.refresh_in_flight failure p

abbrev patched_job : Option JobDetail → StreamJob → Option Chunk → Option JobDetail
patched_job none patch chunk = none
patched_job (some job) patch chunk =
    if str_eq job.id patch.id then some (merge_job_patch job patch chunk) else some job

unfoldable pub apply_job_patch :
    StreamJob → Option Chunk → StreamEventMeta → ReaderPage → ReaderPage
apply_job_patch patch chunk meta p = if not (str_eq patch.id p.job_id) then p else record p {
  job = patched_job p.job patch chunk;
  manifest = build_manifest_from_patch p.manifest patch chunk meta;
}

abbrev pub no_meta : StreamEventMeta
no_meta = record { mime_type = none; init_segment_url = none }

abbrev with_progress : JobProgress → Option JobDetail → Option JobDetail
with_progress progress none = none
with_progress progress (some job) =
    some (record job { summary = record job.summary { progress = some (some progress) } })

-- `applyProgress`, and the end of `handleMarkAll`, `handleMarkChunk` and `handleMarkFrom`.
unfoldable pub apply_progress : JobProgress → ReaderPage → ReaderPage
apply_progress progress p = record p { job = with_progress progress p.job }

unfoldable pub marked : JobProgress → ReaderPage → ReaderPage
marked progress p = record (apply_progress progress p) { error = none }

unfoldable pub mark_failed : String → ReaderPage → ReaderPage
mark_failed text p = record p { error = some text }
