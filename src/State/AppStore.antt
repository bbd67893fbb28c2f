-- ===== src/State/AppStore.antt =====
-- web/src/state/store.ts: the store of the live data, with the events of web/src/types/events.ts. The types of
-- payloads that the store only passes on, and `JSON.stringify` of the admin's parts, are parameters. Whether
-- two summaries or voices are one object is a parameter too: `===` on objects.
pub mod Records
pub mod Jobs
pub mod Admin
unfoldable pub use readflow.State.AppStore.Records.{runtime_status_equal, to_summary}
pub use readflow.State.AppStore.Records.{
  Voice, Payloads, RuntimeStatus, SchedulerState, TelemetrySnapshot, AdminState, ChunkReadyPayload,
  WsEnvelope, AppStore, initial_app, Compare, optional_eq, job_created, job_updated, job_completed,
  chunk_ready, scheduler_state, model_state, telemetry, admin_config_updated, memory_stats,
  library_changed, job_progress, pong,
}
use readflow.Common.{
  ℕ, ◌≡◌, Bool, true, false, ◌&&◌, ◌||◌, not, Option, none, some, List, [], ◌∷◌, String, str_eq,
  or_else, if◌then◌else◌, ◌==◌, map, length,
}
use readflow.Common.Sets.{get, put, string_eq}
use readflow.Api.{JobSummary, StreamJob}
use readflow.Chunk.{Chunk}
use readflow.Live.{WebSocketStatus, LiveError}

module _ {t : Payloads} (c : Compare t) where
  abbrev pub same_entry : JobSummary → Option JobSummary → Bool
  same_entry a none = false
  same_entry a (some b) = c.same_job a b

  abbrev pub are_in : List (String × JobSummary) → List (String × JobSummary) → Bool
  are_in [] b = true
  are_in ((key, j) ∷ a) b = same_entry j (get key b) && are_in a b

  unfoldable pub jobs_equal : List (String × JobSummary) → List (String × JobSummary) → Bool
  jobs_equal a b = (length a == length b) && are_in a b

  unfoldable pub shallow_array_equal : List Voice → List Voice → Bool
  shallow_array_equal [] [] = true
  shallow_array_equal (v ∷ a) (w ∷ b) = c.same_voice v w && shallow_array_equal a b
  shallow_array_equal _ _ = false

  unfoldable pub admin_state_equal : Option (AdminState t) → Option (AdminState t) → Bool
  admin_state_equal none none = true
  admin_state_equal (some a) (some b) =
      str_eq (c.config_text a.config) (c.config_text b.config)
      && str_eq (c.scheduler_text a.scheduler) (c.scheduler_text b.scheduler)
      && str_eq (c.telemetry_text a.telemetry) (c.telemetry_text b.telemetry)
      && str_eq (c.memory_text a.memory) (c.memory_text b.memory)
  admin_state_equal _ _ = false

  unfoldable pub set_jobs : List (String × JobSummary) → AppStore t → AppStore t
  set_jobs jobs s = if jobs_equal s.jobs jobs then s else record s { jobs = jobs }

  unfoldable pub set_voices : List Voice → AppStore t → AppStore t
  set_voices voices s =
      if shallow_array_equal s.voices voices then s else record s { voices = voices }

  unfoldable pub set_admin_state : AdminState t → AppStore t → AppStore t
  set_admin_state a s =
      if admin_state_equal s.admin_state (some a) then s else record s { admin_state = some a }

-- `mergeSnapshotJobs` of web/src/lib/live-client.ts.
unfoldable pub merge_snapshot_jobs :
    List JobSummary → List (String × JobSummary) → List (String × JobSummary)
merge_snapshot_jobs [] merged = merged
merge_snapshot_jobs (j ∷ jobs) merged = merge_snapshot_jobs jobs (put j.id j merged)

-- `a ?? null`.
abbrev pub given : Option (Option String) → Option String
given none = none
given (some a) = a

module _ {t : Payloads} where
  unfoldable pub set_runtime_status : RuntimeStatus → AppStore t → AppStore t
  set_runtime_status r s =
      if runtime_status_equal s.runtime_status (some r)
      then s
      else record s { runtime_status = some r }

  abbrev put_job : StreamJob → WsEnvelope t → AppStore t → AppStore t
  put_job j event s = record s {
    jobs = put j.id (to_summary j.summary) s.jobs;
    last_event = some event;
  }

  abbrev pub with_admin :
      Option (AdminState t) → (AdminState t → AdminState t) → WsEnvelope t → AppStore t → AppStore t
  with_admin none change event s = s
  with_admin (some a) change event s = record s {
    admin_state = some (change a);
    last_event = some event;
  }

  abbrev pub next_status : SchedulerState t → RuntimeStatus
  next_status p = record {
    resident_model_id = given p.resident_model_id;
    resident_voice_id = given p.resident_voice_id;
    model_state = none;
    model_residency_batches = or_else p.model_residency_batches 10;
    voice_residency_batches = or_else p.voice_residency_batches 3;
  }

  abbrev scheduled : SchedulerState t → Option (AdminState t) → Option (AdminState t)
  scheduled p none = none
  scheduled p (some a) = some (record a { scheduler = p })

  abbrev in_state : String → Option (TelemetrySnapshot t) → Option (TelemetrySnapshot t)
  in_state text none = none
  in_state text (some snapshot) = some (record snapshot { model_state = text })

  unfoldable pub apply_event : WsEnvelope t → AppStore t → AppStore t
  unfolding to_summary
  apply_event (job_created j) s = put_job j (job_created j) s
  apply_event (job_updated j) s = put_job j (job_updated j) s
  apply_event (job_completed p) s = put_job p.job (job_completed p) s
  apply_event (chunk_ready p) s = put_job p.job (chunk_ready p) s
  apply_event (telemetry snapshot) s =
      with_admin s.admin_state (λ a. record a { telemetry = some snapshot }) (telemetry snapshot) s
  apply_event (admin_config_updated config) s =
      with_admin s.admin_state (λ a. record a { config = config }) (admin_config_updated config) s
  apply_event (scheduler_state p) s = record s {
    runtime_status =
        if runtime_status_equal s.runtime_status (some (next_status p))
        then s.runtime_status
        else some (next_status p);
    admin_state = scheduled p s.admin_state;
    last_event = some (scheduler_state p);
  }
  apply_event (memory_stats memory) s =
      with_admin s.admin_state (λ a. record a { memory = memory }) (memory_stats memory) s
  apply_event (model_state text) s =
      with_admin s.admin_state (λ a. record a { telemetry = in_state text a.telemetry })
        (model_state text) s
  apply_event (library_changed reason) s = s
  apply_event (job_progress id progress) s = s
  apply_event pong s = s

-- A field is none where the source has undefined.
pub record SocketStatePatch : Type 0 where
  pub status : Option WebSocketStatus
  pub last_message_at : Option (Option ℕ)
  pub error : Option (Option LiveError)
  pub reconnect_attempt : Option ℕ
  pub is_stale : Option Bool

-- That the store object is kept when no value changes spares renderings only, and is not modelled.
unfoldable pub set_socket_state : {t : Payloads} → SocketStatePatch → AppStore t → AppStore t
set_socket_state patch s = record s {
  websocket_status = or_else patch.status s.websocket_status;
  last_socket_message_at = or_else patch.last_message_at s.last_socket_message_at;
  last_socket_error = or_else patch.error s.last_socket_error;
  reconnect_attempt = or_else patch.reconnect_attempt s.reconnect_attempt;
  is_socket_stale = or_else patch.is_stale s.is_socket_stale;
}

-- What `LiveClient` does to the store: an event, or the end of `syncSnapshot`.
pub data Update (t : Payloads) : Type 0 where
  received : WsEnvelope t → Update t
  synced : List JobSummary → List Voice → AdminState t → Update t

module _ {t : Payloads} (c : Compare t) where
  unfoldable pub update : Update t → AppStore t → AppStore t
  update (received event) s = apply_event event s
  update (synced jobs voices a) s =
      set_admin_state c a (set_voices c voices (set_jobs c (merge_snapshot_jobs jobs s.jobs) s))

  unfoldable pub updates : List (Update t) → AppStore t → AppStore t
  updates [] s = s
  updates (u ∷ us) s = updates us (update u s)
