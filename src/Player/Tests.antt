-- ===== src/Player/Tests.antt =====
-- The rules beside the media stream at small inputs.
use readflow.Common.{ℕ, ◌≡◌, refl, true, false, none, some, [], ◌∷◌, List, String, length, map, ◌≤◌}
use readflow.Common.Sets.{add, has, nat_eq}
use readflow.Chunk.{Chunk, ChunkStatus}
use readflow.Player.Provider.{
  step, flush, sync_playback, report_succeeded, Event, ticked, pause_event, failed, interval_event,
  ended_changed, opened, left, Provider, collect_heard, run, auto_advance, handle_pause,
}
use readflow.Player.Heard.{
  collect_heard_chunk_indexes, resolve_auto_advance, is_at_job_end, PlayerJob,
}
use readflow.Player.Transport.{PlayerStateInput}
use readflow.Player.Provider.Pending.{is_kept, run-is_kept, run-delivered}
use readflow.Player.Provider.Reports.{delivered}
use readflow.Player.Provider.Once.{run-opens_once}
use readflow.Player.Store.{initial_store, idle_outputs, no_source, open_job, set_play_intent}

abbrev narrated : Chunk
narrated = record {
  index = 3;
  status = ChunkStatus.written;
  duration_seconds = 4000;
  start_seconds = 1000;
  plan_version = 1;
  version = 0;
  voice_id = "suzy";
  segment_url = some "/media/seg";
  peaks_url = none;
  deprecated = false;
  reprocessing = false;
  char_start = 0;
  char_end = 9;
}

heard_run : collect_heard_chunk_indexes (narrated ∷ []) 4600 [] ≡ 3 ∷ []
unfolding collect_heard_chunk_indexes add
heard_run = refl

advance_run :
    resolve_auto_advance (record {
      player_job = some (record {
        id = "j1";
        title = none;
        is_terminal = true;
        audio_epoch = 0;
        folder_id = some "a";
        next_job_id = some "j2";
        previous_job_id = none;
      });
      has_ended = true;
      stream_end_seconds = 9800;
      duration_seconds = 10000;
      continuous_play = true;
    })
    ≡ some "j2"
unfolding resolve_auto_advance is_at_job_end
advance_run = refl

abbrev starved : PlayerStateInput
starved = record {
  transport = record {
    is_autoplay_blocked = false;
    is_job_terminal = false;
    is_loading_audio = false;
    is_playing = false;
    is_waiting_for_data = true;
    play_intent = true;
  };
  rendered_duration_seconds = 5000;
  display_time_seconds = 5000;
  display_duration_seconds = 5000;
}

abbrev job_of : String → PlayerJob
job_of id = record {
  id = id;
  title = none;
  is_terminal = true;
  audio_epoch = 0;
  folder_id = none;
  next_job_id = some "j2";
  previous_job_id = none;
}

-- The job "j1" plays, and is at 4.6 seconds of its manifest.
abbrev listening : Provider
listening = record {
  store = record initial_store {
    job = some (job_of "j1");
    outputs = record idle_outputs { current_time_seconds = 4600; is_actually_playing = true };
    source = record no_source {
      manifest = some (record {
        mime_type = "audio/mp4";
        init_segment_url = none;
        chunks = narrated ∷ [];
        audio_epoch = 0;
      });
    };
  };
  pending_heard = 3 ∷ [];
  last_sync_at = 0;
  last_http_sync_at = 0;
  previous_pending_seek = none;
  auto_advanced_for = none;
  pings = [];
  reports = [];
  accepted = [];
  navigated = [];
}

abbrev listened : List Event
listened = ticked ∷ pause_event 5000 ∷ failed "offline" ∷ interval_event 9000 ∷ []

run-is_kept_example : is_kept "j1" 3 (run listened listening) ≡ true
run-is_kept_example = run-is_kept "j1" 3 listened listening refl refl refl refl

run-delivered_example :
    let q = run listened listening in
    let r = report_succeeded (length q.reports) (flush 9500 q) in
    (delivered "j1" 3 r.accepted ≡ true) × (has {A = ℕ} 3 r.pending_heard ≡ false)
run-delivered_example = run-delivered "j1" 3 listened listening 9500 refl refl refl refl

-- The job is 10 seconds long, and 9.8 seconds of it are rendered.
abbrev finishing : Provider
finishing = record listening {
  store = record initial_store {
    job = some (job_of "j1");
    outputs = record idle_outputs {
      current_time_seconds = 9800;
      rendered_duration_seconds = 9800;
      is_actually_playing = true;
    };
    source = record no_source { duration_seconds = 10000 };
  };
}

-- The end comes, and its effect runs twice; then a replay, and the end again.
abbrev ends_twice : List Event
ends_twice =
    ended_changed true true
    ∷ pause_event 9000
    ∷ ended_changed true true
    ∷ ended_changed false true
    ∷ ended_changed true true
    ∷ []

run-opens_once_example : length (run ends_twice finishing).navigated ≤ 2
run-opens_once_example = run-opens_once "j1" ends_twice finishing refl refl

opens_run : (run ends_twice finishing).navigated ≡ "j2" ∷ "j2" ∷ []
unfolding run step auto_advance resolve_auto_advance is_at_job_end handle_pause sync_playback
    set_play_intent
opens_run = refl

-- A tick hears the chunk, and leaving the tab reports it.
tick_run : (collect_heard (record listening { pending_heard = [] })).pending_heard ≡ 3 ∷ []
unfolding collect_heard collect_heard_chunk_indexes add
tick_run = refl

-- What was heard of the first job is reported under the job that was opened next.
switched_run :
    map {B = String × List ℕ}
      (λ r. (r.job_id, r.heard))
      (run (opened (job_of "j2") ∷ left 9000 ∷ []) listening).reports
    ≡ ("j2", 3 ∷ []) ∷ []
unfolding run step open_job flush sync_playback
switched_run = refl
