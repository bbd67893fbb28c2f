-- ===== src/Reader/Page/Tests.antt =====
-- The reader's page and its controls on a job without chunks.
use readflow.Common.{not, ◌||◌, ℕ, ◌<◌, ◌≡◌, refl, true, false, none, some, List, [], ◌∷◌, arith}
use readflow.Chunk.{JobStatus}
use readflow.Api.{JobDetail, JobManifest}
use readflow.Live.{WebSocketStatus}
use readflow.State.AppStore.{Payloads, library_changed}
use readflow.Player.Store.{initial_store}
use readflow.Reader.Page.{ReaderPage, initial_page, refresh_reader_state, refresh_succeeded}
use readflow.Reader.Page.Waiting.{IsPage}
use readflow.Reader.Page.Fresh.{PageEvent, page_run, page_run-refreshes, answered, seen, page_step}
use readflow.Reader.Page.Answers.{IsShown, page_run-answered}
use readflow.Reader.Session.{
  SessionEvent, seek_pressed, skip_pressed, seek_failed, handed_over, session_run,
  session_run-quiet,
}
use readflow.Common.Int.{pos}
use readflow.Reader.Controls.{ReaderSession}
use readflow.Reader.Handlers.{StreamView}
use readflow.Reader.Page.Events.{see_event}

abbrev payloads : Payloads
payloads = record { Config = ℕ; Batches = ℕ; Recent = ℕ; Memory = ℕ; Progress = ℕ }

abbrev planned : JobDetail
planned = record {
  summary = record {
    id = "j1";
    title = none;
    status = JobStatus.queued;
    voice_id = "suzy";
    model_id = "m";
    is_active_listening = false;
    render_to_end = false;
    total_chunks_emitted = 0;
    total_chunks_completed = 0;
    buffered_seconds = 0;
    completed_seconds = 0;
    folder_id = none;
    progress = none;
  };
  source_kind = "text";
  source_text = "Once upon a time";
  plan_version = 1;
  chunks = [];
  failed_reason = none;
  active_chunk_version = none;
  audio_epoch = 0;
  folder_path = none;
  previous_job_id = none;
  next_job_id = none;
  folder_index = none;
  folder_count = none;
  previous_job_title = none;
  next_job_title = none;
}

abbrev empty_manifest : JobManifest
empty_manifest = record {
  mime_type = "audio/mp4";
  init_segment_url = none;
  chunks = [];
  audio_epoch = 0;
}

abbrev route : ReaderPage
route = initial_page "j1" WebSocketStatus.connected

route-IsPage : IsPage 0 route
route-IsPage = record {
  routed = refl;
  numbered = refl;
  ordered = omega arith;
  named = refl;
  later = omega arith;
}

-- A change of the library while the first request is under way, and both answers.
abbrev loading : List (PageEvent payloads)
loading =
    seen (library_changed "moved") 10
    ∷ answered planned empty_manifest 20
    ∷ answered planned empty_manifest 30
    ∷ []

page_run-refreshes_example :
    0 < (page_run loading (refresh_reader_state "initial" true route)).refresh_request_id
unfolding page_run page_step see_event refresh_reader_state refresh_succeeded
page_run-refreshes_example = page_run-refreshes "initial" true route loading refl route-IsPage refl

two_requests_run :
    (page_run loading (refresh_reader_state "initial" true route)).refresh_request_id ≡ 2
unfolding page_run page_step see_event refresh_reader_state refresh_succeeded
two_requests_run = refl

abbrev first_event : List (PageEvent payloads)
first_event = seen (library_changed "moved") 10 ∷ []

page_run-answered_example : IsShown planned empty_manifest (
    refresh_succeeded planned empty_manifest 20
      (page_run first_event (refresh_reader_state "initial" true route)))
unfolding page_run page_step see_event refresh_reader_state
page_run-answered_example =
    page_run-answered "j1" WebSocketStatus.connected first_event planned empty_manifest 20 refl refl

abbrev reading : ReaderSession
reading = record {
  page = record route { job = some planned; manifest = some empty_manifest };
  store = initial_store;
  restored_position_for = none;
  autoplay_for_job = none;
  calls = [];
}

-- A stream that holds nothing.
abbrev no_audio : StreamView
no_audio = record { is_loaded = λ t. false; seeks_within = λ t. false; is_behind = λ t. false }

-- A seek, a skip and a refused activation on a reader that is paused.
abbrev browsing : List SessionEvent
browsing =
    seek_pressed no_audio 0 2000
    ∷ skip_pressed no_audio (pos 10000)
    ∷ seek_failed "gone"
    ∷ handed_over
    ∷ []

session_run-quiet_example :
    (not (session_run browsing reading).store.play_intent || reading.store.play_intent) ≡ true
session_run-quiet_example = session_run-quiet browsing reading refl
