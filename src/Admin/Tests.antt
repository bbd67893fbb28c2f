-- ===== src/Admin/Tests.antt =====
-- The admin's page at a small configuration.
use readflow.Common.{ℕ, ◌≤◌, ◌≡◌, ◌↔◌, true, false, Option, none, some, List, [], ◌∷◌, String}
use readflow.Api.{JobSummary}
use readflow.Chunk.{JobStatus, ChunkStatus}
use readflow.State.AppStore.{
  Voice, Compare, AdminState, SchedulerState, TelemetrySnapshot, received, WsEnvelope, AppStore,
  initial_app, updates, admin_state_equal,
}
use readflow.Admin.{
  AdminConfig, gpu, admin_payloads, has_unsaved_changes, form_of, initial_overview, submit_saved,
}
use readflow.Admin.Unsaved.{has_unsaved_changes_lem}
use readflow.Admin.Submit.{submit_saved-stale}
use readflow.Admin.Queue.{AdminQueue, QueueChunk, initial_queue}
use readflow.Admin.Queue.Single.{
  QueueEvent, load_done, chunk_selected, edit_pressed, reprocess_pressed, action_failed, queue_run,
  queue_run-single, under_way,
}

abbrev config : AdminConfig
config = record {
  device = none;
  idle_unload_seconds = 300;
  max_prebuffer_seconds = 120;
  target_buffer_seconds = 60;
  up_next_prebuffer_seconds = 30;
  render_ahead_seconds = 0;
  active_listener_timeout_seconds = 20;
  plan_ahead_chunks = 8;
  batch_candidates_small_model = 1 ∷ 2 ∷ 4 ∷ [];
  batch_candidates_large_model = 1 ∷ [];
  vram_soft_limit_mb = 6000;
  vram_hard_limit_mb = 7000;
  chunk_max_attempts = 3;
  model_load_timeout_seconds = 120;
  synthesis_timeout_seconds = 120;
  dispatch_stall_seconds = 60;
  model_residency_batches = 10;
  voice_residency_batches = 3;
}

abbrev edited : AdminConfig
edited = record config { device = some gpu }

has_unsaved_changes_lem_example :
    (has_unsaved_changes edited config ≡ false) ↔ (edited ≡ form_of config)
has_unsaved_changes_lem_example = has_unsaved_changes_lem edited config

no_object : (a b : JobSummary) → false ≡ true → a ≡ b
no_object a b h = absurd (cc h)

no_voice : (a b : Voice) → false ≡ true → a ≡ b
no_voice a b h = absurd (cc h)

abbrev telemetry_text : Option (TelemetrySnapshot (admin_payloads String String String ℕ)) → String
telemetry_text none = "null"
telemetry_text (some t) = t.recent

abbrev memory_text : Option String → String
memory_text none = "null"
memory_text (some m) = m

abbrev by_text : Compare (admin_payloads String String String ℕ)
by_text = record {
  config_text = λ c. "config";
  scheduler_text = λ s. s.batches;
  telemetry_text = telemetry_text;
  memory_text = memory_text;
  same_job = λ a b. false;
  same_voice = λ a b. false;
  same_job_eq = no_object;
  same_voice_eq = no_voice;
}

abbrev scheduler_of : String → SchedulerState (admin_payloads String String String ℕ)
scheduler_of text = record {
  batches = text;
  resident_model_id = none;
  resident_voice_id = none;
  model_residency_batches = none;
  voice_residency_batches = none;
}

abbrev rendered : AdminState (admin_payloads String String String ℕ)
rendered = record {
  config = config;
  scheduler = scheduler_of "idle";
  telemetry = none;
  memory = none;
  model_last_error = none;
}

abbrev live : AppStore (admin_payloads String String String ℕ)
live = record (initial_app (admin_payloads String String String ℕ)) { admin_state = some rendered }

-- The scheduler starts a batch while the configuration is being saved.
stale_save_run :
    let (view, store) = submit_saved by_text rendered edited (
      initial_overview,
      updates by_text (received (WsEnvelope.scheduler_state (scheduler_of "busy")) ∷ []) live,
    ) in
    admin_state_equal by_text store.admin_state (some (record rendered { config = edited })) ≡ true
stale_save_run =
    (submit_saved-stale by_text rendered edited initial_overview
      (received (WsEnvelope.scheduler_state (scheduler_of "busy")) ∷ []) live).0

abbrev chunk : QueueChunk
chunk = record {
  job_id = "j1";
  job_status = JobStatus.queued;
  index = 0;
  version = 0;
  status = ChunkStatus.queued;
  voice_id = "suzy";
  text = "Once upon a time.";
  is_pending = true;
  is_rendering = false;
  in_next_batch = true;
}

abbrev queue : AdminQueue
queue = record {
  queue_depth = 1;
  active_batch = none;
  next_batch = none;
  jobs = record { job_id = "j1"; chunks = chunk ∷ [] } ∷ [];
}

-- The request fails, and the editor is closed with the text that was typed.
abbrev failing : List QueueEvent
failing =
    load_done 0 queue
    ∷ chunk_selected chunk
    ∷ edit_pressed
    ∷ QueueEvent.text_typed "Once."
    ∷ reprocess_pressed
    ∷ action_failed 0 (some "offline")
    ∷ []

queue_run-single_example : under_way (queue_run failing (initial_queue 0)) ≤ 1
queue_run-single_example = (queue_run-single failing 0).0
