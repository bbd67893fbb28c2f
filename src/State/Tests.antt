-- ===== src/State/Tests.antt =====
-- The settings and the live data's store at small inputs.
use readflow.Common.{
  sym, ap, ℕ, ◌≡◌, refl, true, false, Option, none, some, List, [], ◌∷◌, String, str_eq,
  if◌then◌else◌, arith,
}
use readflow.Common.Sets.{get, string_eq}
use readflow.Api.{JobSummary, StreamJob}
use readflow.Chunk.{JobStatus}
use readflow.State.Settings.{
  Browser, Read, SettingsStore, default_reader_settings, number, load_from_storage, Value, missing,
  object, fields_of, found, get_reader_settings, set_reader_settings,
  invalidate_reader_settings_cache, store_settings, sanitize_fields, field_of, sanitize_motion,
  sanitize_flag, sanitize_size, sanitize_playback_rate,
}
use readflow.State.Settings.Sanitized.{IsInRange}
use readflow.State.Settings.Stored.{IsWorking, set_reader_settings-reload}
use readflow.State.Theme.{dark, light}
use readflow.State.AppStore.{
  Payloads, Compare, initial_app, Update, received, synced, AdminState, apply_event,
  library_changed, job_created, updates, TelemetrySnapshot, Voice,
}
use readflow.State.AppStore.Jobs.{get-updates, latest}
use readflow.State.AppStore.Admin.{apply_event-last_event}
use readflow.State.Theme.{
  ThemeEvent, ThemeStore, theme_run, subscribe_theme, init_theme, resolve_theme,
}
use readflow.State.Theme.Resolved.{theme_run-resolved}

-- A storage of one item, and texts for the one settings object that is written.
abbrev changed_fields : List (String × Value)
changed_fields = fields_of (record default_reader_settings { playback_rate = 1500 })

abbrev item_of : Option String → Read
item_of none = missing
item_of (some raw) = found raw

abbrev written_item : Option (Option String) → Read
written_item none = missing
written_item (some t) = item_of t

abbrev small_browser : Browser (Option String)
small_browser = record {
  has_storage = true;
  get_item = item_of;
  set_item = λ raw s. some (some raw);
  parse = λ raw. if str_eq raw "settings" then some (object changed_fields) else none;
  stringify = λ value. "settings";
}

abbrev fresh_settings : SettingsStore (Option String)
fresh_settings = record { cached = none; storage = none; notified = 0 }

abbrev faster : List (String × Value)
faster = ("playbackRate", number 1500) ∷ []

abbrev changed : SettingsStore (Option String)
changed = set_reader_settings small_browser faster fresh_settings

small_browser-IsWorking : IsWorking small_browser (get_reader_settings small_browser changed).0
unfolding set_reader_settings get_reader_settings store_settings load_from_storage sanitize_fields
    field_of fields_of sanitize_motion sanitize_flag sanitize_size sanitize_playback_rate
small_browser-IsWorking = record {
  available = refl;
  reads_back = λ raw s t set. sym (ap written_item set);
  not_blank = refl;
  parses = refl;
}

set_reader_settings-reload_example :
    IsInRange (get_reader_settings small_browser changed).0
    × ((get_reader_settings small_browser
          (invalidate_reader_settings_cache small_browser changed)).0
        ≡ (get_reader_settings small_browser changed).0)
set_reader_settings-reload_example =
    set_reader_settings-reload small_browser faster fresh_settings (some "settings")
      small_browser-IsWorking refl

abbrev texts : Payloads
texts = record { Config = String; Batches = String; Recent = String; Memory = String; Progress = ℕ }

abbrev telemetry_text : Option (TelemetrySnapshot texts) → String
telemetry_text none = "null"
telemetry_text (some snapshot) = snapshot.recent

abbrev memory_text : Option String → String
memory_text none = "null"
memory_text (some used) = used

-- All objects differ, as those of a new response do.
no_object : (a b : JobSummary) → false ≡ true → a ≡ b
no_object a b same = ground arith

no_voice : (a b : Voice) → false ≡ true → a ≡ b
no_voice a b same = ground arith

abbrev new_objects : Compare texts
new_objects = record {
  config_text = λ config. config;
  scheduler_text = λ s. s.batches;
  telemetry_text = telemetry_text;
  memory_text = memory_text;
  same_job = λ a b. false;
  same_voice = λ a b. false;
  same_job_eq = no_object;
  same_voice_eq = no_voice;
}

abbrev book : JobSummary
book = record {
  id = "j1";
  title = some "Book";
  status = JobStatus.queued;
  voice_id = "suzy";
  model_id = "m";
  is_active_listening = false;
  render_to_end = false;
  total_chunks_emitted = 2;
  total_chunks_completed = 0;
  buffered_seconds = 0;
  completed_seconds = 0;
  folder_id = some (some "f");
  progress = none;
}

abbrev streamed : StreamJob
streamed = record {
  summary = record book { total_chunks_completed = 1 };
  source_kind = none;
  source_text = none;
  plan_version = none;
  chunks = none;
  failed_reason = none;
  active_chunk_version = none;
  audio_epoch = none;
  folder_path = none;
  previous_job_id = none;
  next_job_id = none;
  folder_index = none;
  folder_count = none;
  previous_job_title = none;
  next_job_title = none;
}

abbrev admin : AdminState texts
admin = record {
  config = "{}";
  scheduler = record {
    batches = "0";
    resident_model_id = none;
    resident_voice_id = none;
    model_residency_batches = none;
    voice_residency_batches = none;
  };
  telemetry = none;
  memory = none;
  model_last_error = none;
}

abbrev history : List (Update texts)
history = received (job_created streamed) ∷ synced (book ∷ []) [] admin ∷ []

get-updates_example :
    get "j1" (updates new_objects history (initial_app texts)).jobs ≡ latest "j1" history none
get-updates_example = get-updates new_objects "j1" history (initial_app texts)

apply_event-last_event_example :
    (apply_event {t = texts} (library_changed "moved") (initial_app texts)).last_event ≡ none
apply_event-last_event_example =
    apply_event-last_event {t = texts} (library_changed "moved") (initial_app texts)

-- Light by the system, dark by choice, and cleared by another tab.
abbrev bright : ThemeStore
bright = record {
  current_theme = dark;
  applied = dark;
  notified = 0;
  ambient_sources_wired = false;
  has_storage = true;
  item = none;
  system = light;
}

abbrev theme_events : List ThemeEvent
theme_events =
    ThemeEvent.toggled
    ∷ ThemeEvent.system_changed dark
    ∷ ThemeEvent.system_changed light
    ∷ ThemeEvent.written_elsewhere none
    ∷ []

theme_run-resolved_example :
    let later = theme_run theme_events (subscribe_theme (init_theme bright)) in
    (later.current_theme ≡ resolve_theme later) × (later.applied ≡ resolve_theme later)
theme_run-resolved_example = theme_run-resolved theme_events bright refl
