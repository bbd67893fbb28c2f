-- ===== src/Media/Element/Tests.antt =====
-- An attempt to play that the browser's policy refuses, and what follows.
use readflow.Common.{◌≡◌, refl, true, false, none, some, List, [], ◌∷◌}
use readflow.Media.Playback.{Intent, PlaybackSnapshot, MediaEvent, derive_player_state, error}
use readflow.Media.Element.{
  MediaPlayer, auto, PlayError, no_snapshot, play_rejected, autoplay_effect, wants_attempt,
  init_segment_failed, fetching,
}
use readflow.Media.Element.Events.{PlayerEvent, Happening, player_run}
use readflow.Media.Element.Blocked.{player_run-waits}
use readflow.Live.{error}

abbrev intent : Intent
intent = record {
  play_intent = true;
  is_terminal = false;
  pending_seek_seconds = none;
  rendered_duration_seconds = 8000;
}

abbrev shown : PlaybackSnapshot
shown = record no_snapshot { buffered_until_seconds = 8000 }

abbrev player : MediaPlayer
player = record {
  playback = record {
    last_snapshot = shown;
    shown_snapshot = shown;
    is_actually_playing = false;
    is_waiting_for_data = false;
    has_ended = false;
    is_autoplay_blocked = false;
    last_player_error = none;
  };
  generation = 1;
  active_stream_key = some "j1:0";
  source_buffer = some 1;
  init_segment_appended = true;
  init_segment_pending = false;
  is_ready = true;
  is_stream_primed = true;
  playback_rate = 1000;
  inits = [];
  attempts = auto ∷ [];
}

abbrev refusal : PlayError
refusal = record { is_policy = true; message = some "NotAllowedError" }

abbrev after : List Happening
after =
    record { event = PlayerEvent.autoplay_checked; intent = intent; now = shown }
    ∷ record { event = PlayerEvent.element_event MediaEvent.progress; intent = intent; now = shown }
    ∷ []

-- The player would try to play here.
wanted : (autoplay_effect intent shown player).attempts ≡ auto ∷ auto ∷ []
unfolding autoplay_effect wants_attempt
wanted = refl

player_run-waits_example :
    let later = player_run after (play_rejected 0 auto refusal intent shown player) in
    autoplay_effect intent shown later ≡ later
player_run-waits_example =
    player_run-waits 0 auto refusal intent intent shown shown player after refl (refl, (refl, tt))

abbrev reopened : MediaPlayer
reopened = record player { inits = record { key = "j0:0"; stage = fetching } ∷ [] }

-- The first stream's initial segment fails after the second stream was opened.
stale_failure_run :
    (derive_player_state intent
      (record { has_stream_key = true; is_stream_primed = true })
      (init_segment_failed 0 (some "Failed to fetch") reopened).playback).0
    ≡ error
unfolding init_segment_failed derive_player_state
stale_failure_run = refl
