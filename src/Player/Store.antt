-- ===== src/Player/Store.antt =====
-- web/src/player/player-store.ts: the player's store. Times are in thousandths of a second, a rate in
-- thousandths. An operation that would write equal values keeps the store object in the source, which
-- spares renderings only and is not modelled. The commands of the controls are in Media.
use readflow.Common.{
  ℕ, suc, Bool, true, false, Option, none, some, String, str_eq, if◌then◌else◌, ◌-◌,
}
use readflow.Api.{JobManifest}
use readflow.Media.Playback.{PlayerState}
use readflow.Player.Heard.{PlayerJob}

pub record AudioDiagnostics : Type 0 where
  pub paused : Bool
  pub ready_state : ℕ
  pub network_state : ℕ
  pub playback_rate : ℕ

pub record PlayerOutputs : Type 0 where
  pub current_time_seconds : ℕ
  pub rendered_duration_seconds : ℕ
  pub buffered_until_seconds : ℕ
  pub is_actually_playing : Bool
  pub is_waiting_for_data : Bool
  pub is_loading_audio : Bool
  pub has_ended : Bool
  pub is_stream_primed : Bool
  pub is_ready : Bool
  pub is_autoplay_blocked : Bool
  pub player_state : PlayerState
  pub playback_rate : ℕ
  pub last_player_error : Option String
  pub appended_chunks_count : ℕ
  pub diagnostics : AudioDiagnostics

abbrev pub idle_outputs : PlayerOutputs
idle_outputs = record {
  current_time_seconds = 0;
  rendered_duration_seconds = 0;
  buffered_until_seconds = 0;
  is_actually_playing = false;
  is_waiting_for_data = false;
  is_loading_audio = false;
  has_ended = false;
  is_stream_primed = false;
  is_ready = false;
  is_autoplay_blocked = false;
  player_state = PlayerState.idle;
  playback_rate = 1000;
  last_player_error = none;
  appended_chunks_count = 0;
  diagnostics = record { paused = true; ready_state = 0; network_state = 0; playback_rate = 1000 };
}

pub record PlayerSource : Type 0 where
  pub manifest : Option JobManifest
  pub anchor_index : ℕ
  pub anchor_offset_seconds : ℕ
  pub duration_seconds : ℕ

abbrev pub no_source : PlayerSource
no_source = record {
  manifest = none;
  anchor_index = 0;
  anchor_offset_seconds = 0;
  duration_seconds = 0;
}

pub record PlayerStore : Type 0 where
  pub outputs : PlayerOutputs
  pub job : Option PlayerJob
  pub source : PlayerSource
  pub stream_restart_key : ℕ
  pub pending_seek_job_seconds : Option ℕ
  pub play_intent : Bool
  pub last_sync_error : Option String

-- `resetPlayerStore`, and the store at first.
abbrev pub initial_store : PlayerStore
initial_store = record {
  outputs = idle_outputs;
  job = none;
  source = no_source;
  stream_restart_key = 0;
  pending_seek_job_seconds = none;
  play_intent = false;
  last_sync_error = none;
}

-- `state.job?.id === id`.
abbrev pub is_job : Option PlayerJob → String → Bool
is_job none id = false
is_job (some j) id = str_eq j.id id

abbrev kept_intent : PlayerStore → Option PlayerJob → Bool
kept_intent s none = s.play_intent
kept_intent s (some j) = false

unfoldable pub open_job : PlayerJob → PlayerStore → PlayerStore
open_job j s = if is_job s.job j.id then record s { job = some j } else record {
  outputs = idle_outputs;
  job = some j;
  source = no_source;
  stream_restart_key = 0;
  pending_seek_job_seconds = none;
  play_intent = kept_intent s s.job;
  last_sync_error = none;
}

unfoldable pub set_source : PlayerSource → PlayerStore → PlayerStore
set_source source s = record s { source = source }

unfoldable pub set_anchor_index : ℕ → PlayerStore → PlayerStore
set_anchor_index index s = record s { source = record s.source { anchor_index = index } }

unfoldable pub restart_stream : PlayerStore → PlayerStore
restart_stream s = record s { stream_restart_key = suc s.stream_restart_key }

unfoldable pub request_seek : Option ℕ → PlayerStore → PlayerStore
request_seek seconds s = record s { pending_seek_job_seconds = seconds }

unfoldable pub seek_applied : PlayerStore → PlayerStore
seek_applied s = record s { pending_seek_job_seconds = none }

unfoldable pub set_play_intent : Bool → PlayerStore → PlayerStore
set_play_intent intent s = record s { play_intent = intent }

unfoldable pub set_playback_rate : ℕ → PlayerStore → PlayerStore
set_playback_rate rate s = record s { outputs = record s.outputs { playback_rate = rate } }

-- The provider's call, which gives every output.
unfoldable pub sync_outputs : PlayerOutputs → PlayerStore → PlayerStore
sync_outputs outputs s = record s { outputs = outputs }

unfoldable pub set_last_sync_error : Option String → PlayerStore → PlayerStore
set_last_sync_error error s = record s { last_sync_error = error }

-- `pendingSeekSeconds` of the provider: the pending seek in stream coordinates.
abbrev stream_seconds : ℕ → Option ℕ → Option ℕ
stream_seconds offset none = none
stream_seconds offset (some seconds) = some (seconds - offset)

unfoldable pub pending_seek_seconds : PlayerStore → Option ℕ
pending_seek_seconds s = stream_seconds s.source.anchor_offset_seconds s.pending_seek_job_seconds
