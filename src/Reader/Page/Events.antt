-- ===== src/Reader/Page/Events.antt =====
-- The effects of the reader's page, web/src/features/reader/ReaderPage.tsx: live events, the socket's status, the
-- timers of retries and of polling.
use readflow.Common.{
  ℕ, suc, Bool, true, false, not, ◌&&◌, ◌||◌, Option, none, some, String, leb, str_eq,
  if◌then◌else◌,
}
use readflow.Chunk.{Chunk, is_terminal_status}
use readflow.Api.{JobDetail, JobManifest, StreamJob}
use readflow.Live.{WebSocketStatus, connecting, connected}
use readflow.State.AppStore.{
  job_updated, job_completed, chunk_ready, job_created, library_changed, Payloads, WsEnvelope,
  ChunkReadyPayload,
}
use readflow.Reader.Patch.{StreamEventMeta}
use readflow.Reader.Page.{ReaderPage, refresh_reader_state, apply_job_patch, no_meta}

abbrev pub initial_load_max_retries : ℕ
initial_load_max_retries = 5

abbrev is_blank : Option String → Bool
is_blank none = true
is_blank (some text) = str_eq text ""

abbrev is_blank_url : Option (Option String) → Bool
is_blank_url none = true
is_blank_url (some url) = is_blank url

abbrev has_no_manifest : Option JobManifest → Bool
has_no_manifest none = true
has_no_manifest (some manifest) = false

-- The effect of an event of this job with its reason.
abbrev pub see_patch :
    StreamJob → Option Chunk → StreamEventMeta → String → ℕ → ReaderPage → ReaderPage
see_patch patch chunk meta reason now p =
    if not (str_eq patch.id p.job_id) then p else record (apply_job_patch patch chunk meta p) {
      error = none;
      last_refresh_at = some now;
      last_refresh_reason = reason;
    }

abbrev pub needs_reconcile : StreamEventMeta → String → ReaderPage → Bool
needs_reconcile meta id p =
    str_eq id p.job_id
    && is_blank meta.mime_type
    && is_blank_url meta.init_segment_url
    && has_no_manifest p.manifest

module _ {t : Payloads} where
  abbrev pub meta_of : ChunkReadyPayload t → StreamEventMeta
  meta_of c = record { mime_type = c.mime_type; init_segment_url = c.init_segment_url }

  -- The two effects of a new `lastEvent`; the ref of the manifest holds what was last rendered.
  unfoldable pub see_event : WsEnvelope t → ℕ → ReaderPage → ReaderPage
  see_event (job_updated j) now p = see_patch j none no_meta "ws:job_updated" now p
  see_event (job_completed c) now p = see_patch c.job c.chunk (meta_of c) "ws:job_completed" now p
  see_event (chunk_ready c) now p =
      let seen = see_patch c.job c.chunk (meta_of c) "ws:chunk_ready" now p in
      if needs_reconcile (meta_of c) c.job.id p
      then refresh_reader_state "ws:chunk_ready:reconcile" false seen
      else seen
  see_event (job_created j) now p = refresh_reader_state "ws:job_created" false p
  see_event (library_changed reason) now p = refresh_reader_state "ws:library_changed" false p
  see_event _ now p = p

abbrev pub is_quiet_before : WebSocketStatus → Bool
is_quiet_before connected = true
is_quiet_before connecting = true
is_quiet_before _ = false

abbrev pub is_connected : WebSocketStatus → Bool
is_connected connected = true
is_connected _ = false

-- The effect of a change of the socket's status.
unfoldable pub socket_changed : WebSocketStatus → ReaderPage → ReaderPage
socket_changed status p =
    let seen = record p { previous_socket_status = status } in
    if not (is_connected status) || is_quiet_before p.previous_socket_status
    then seen
    else refresh_reader_state "reconnect" false (record seen { load_retry_attempt = 0 })

abbrev pub is_loaded : Option JobDetail → Bool
is_loaded none = false
is_loaded (some job) = true

abbrev is_missing_job : Option String → String → Bool
is_missing_job none id = false
is_missing_job (some missing) id = str_eq missing id

abbrev pub is_retry_over : ReaderPage → Bool
is_retry_over p =
    is_loaded p.job
    || is_missing_job p.missing_job_id p.job_id
    || leb initial_load_max_retries p.load_retry_attempt

-- The timer of a failed initial load.
unfoldable pub retry_fires : ReaderPage → ReaderPage
retry_fires p =
    if is_retry_over p
    then p
    else refresh_reader_state "retry" false
        (record p { load_retry_attempt = suc p.load_retry_attempt })

abbrev pub is_live_job : Option JobDetail → Bool
is_live_job none = false
is_live_job (some job) = not (is_terminal_status (some job.status))

-- The timer of the polling fallback, with the socket's state.
unfoldable pub poll_fires : WebSocketStatus → Bool → ReaderPage → ReaderPage
poll_fires status is_stale p =
    if is_live_job p.job && (not (is_connected status) || is_stale)
    then refresh_reader_state "poll" false p
    else p
