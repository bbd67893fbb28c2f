-- ===== src/Media/Element.antt =====
-- The life of a stream in `useMediaSourcePlayer` of web/src/lib/media-source.ts: the effect that opens and
-- closes it, the initial segment, and attempts to play. The refs of the append window are in
-- Media/Stream.antt. A stream is known by its generation; a promise that is waited for is a member of
-- `inits` or `attempts`, and how it ends is an argument, as is what the element shows.
pub mod Events
pub mod Blocked
mod Tests
use readflow.Common.{
  ℕ, zero, suc, ◌+◌, max, Bool, true, false, not, ◌&&◌, ◌||◌, Option, none, some, List, [], ◌∷◌,
  String, ◌==◌, ltb, leb, str_eq, or_else, if◌then◌else◌,
}
use readflow.Chunk.{Chunk, is_written}
use readflow.Media.Stream.{is_key, is_some_key}
use readflow.Media.Playback.{
  Intent, Playback, PlaybackSnapshot, is_none, has_buffered_ahead, update_playback_state,
}

pub data Stage : Type 0 where
  fetching appending : Stage

pub record InitLoad : Type 0 where
  pub key : String
  pub stage : Stage

pub data Reason : Type 0 where
  auto user : Reason

pub record MediaPlayer : Type 0 where
  pub playback : Playback
  pub generation : ℕ
  pub active_stream_key : Option String
  pub source_buffer : Option ℕ
  pub init_segment_appended : Bool
  pub init_segment_pending : Bool
  pub is_ready : Bool
  pub is_stream_primed : Bool
  pub playback_rate : ℕ
  pub inits : List InitLoad
  pub attempts : List Reason

abbrev pub no_snapshot : PlaybackSnapshot
no_snapshot = record {
  paused = true;
  ready_state = 0;
  network_state = 0;
  playback_rate = 1000;
  buffered_until_seconds = 0;
  current_time_seconds = 0;
}

-- The effect of another stream key.
unfoldable pub open_player : String → MediaPlayer → MediaPlayer
open_player key p = record p {
  generation = suc p.generation;
  active_stream_key = some key;
  source_buffer = none;
  init_segment_appended = false;
  init_segment_pending = false;
  is_ready = false;
  is_stream_primed = false;
  playback = record {
    last_snapshot = no_snapshot;
    shown_snapshot = no_snapshot;
    is_actually_playing = false;
    is_waiting_for_data = false;
    has_ended = false;
    is_autoplay_blocked = false;
    last_player_error = none;
  };
}

-- The clean-up of that effect.
unfoldable pub close_player : MediaPlayer → MediaPlayer
close_player p = record p {
  active_stream_key = none;
  source_buffer = none;
  init_segment_appended = false;
  init_segment_pending = false;
  is_ready = false;
  is_stream_primed = false;
  playback = record p.playback { has_ended = false; is_autoplay_blocked = false };
}

-- Without `MediaSource` in the browser.
unfoldable pub no_media_source : MediaPlayer → MediaPlayer
no_media_source p = record p {
  playback = record p.playback {
    last_player_error = some "MediaSource is not available in this browser";
  };
}

-- The stream was not closed.
abbrev pub is_current_stream : ℕ → MediaPlayer → Bool
is_current_stream g p = g == p.generation && is_some_key p.active_stream_key

-- `updatePlaybackState(true)`.
abbrev pub updated : Intent → PlaybackSnapshot → MediaPlayer → MediaPlayer
updated i now p = record p { playback = update_playback_state true i now p.playback }

abbrev pub with_player_error : Option String → MediaPlayer → MediaPlayer
with_player_error e p = record p { playback = record p.playback { last_player_error = e } }

unfoldable pub handle_source_open :
    ℕ → String → Intent → PlaybackSnapshot → MediaPlayer → MediaPlayer
handle_source_open g key i now p =
    let held : MediaPlayer = record p { source_buffer = some g } in
    if is_current_stream g p && is_key p.active_stream_key key
    then updated i now (with_player_error none (record held { is_ready = true }))
    else held

-- `readablePlaybackError`: an error that is none of `Error` has no message.
abbrev pub readable_error : Option String → String → String
readable_error none fallback = fallback
readable_error (some message) fallback = if str_eq message "" then fallback else message

unfoldable pub source_refused : ℕ → Option String → MediaPlayer → MediaPlayer
source_refused g failure p =
    if is_current_stream g p
    then with_player_error (some (readable_error failure "Failed to initialize media stream")) p
    else p

-- The effect that loads the initial segment for the key of the commit.
unfoldable pub start_init : String → Option String → MediaPlayer → MediaPlayer
start_init key url p =
    if not p.is_ready
      || str_eq key ""
      || str_eq (or_else url "") ""
      || is_none p.source_buffer
      || p.init_segment_appended
      || p.init_segment_pending
    then p
    else record p {
      init_segment_pending = true;
      inits = record { key = key; stage = fetching } ∷ p.inits;
    }

abbrev pub without {ℓ} : {A : Type ℓ} → ℕ → List A → List A
without n [] = []
without zero (x ∷ xs) = xs
without (suc n) (x ∷ xs) = x ∷ without n xs

abbrev pub staged : ℕ → List InitLoad → List InitLoad
staged n [] = []
staged zero (x ∷ xs) = record x { stage = appending } ∷ xs
staged (suc n) (x ∷ xs) = x ∷ staged n xs

-- The `finally` of the load, the member `n`.
abbrev pub end_init : ℕ → MediaPlayer → MediaPlayer
end_init n p = record p { inits = without n p.inits; init_segment_pending = false }

unfoldable pub init_segment_fetched : ℕ → InitLoad → MediaPlayer → MediaPlayer
init_segment_fetched n load p =
    if not (is_key p.active_stream_key load.key) || is_none p.source_buffer
    then end_init n p
    else record p { inits = staged n p.inits }

unfoldable pub init_segment_done :
    ℕ → InitLoad → Intent → PlaybackSnapshot → MediaPlayer → MediaPlayer
init_segment_done n load i now p =
    if not (is_key p.active_stream_key load.key)
    then end_init n p
    else end_init n (
        updated i now (
          with_player_error none
            (record p { init_segment_appended = true; is_stream_primed = true })))

unfoldable pub init_segment_failed : ℕ → Option String → MediaPlayer → MediaPlayer
init_segment_failed n failure p =
    end_init n
      (with_player_error (some (readable_error failure "Failed to initialize media stream")) p)

-- What `attemptPlay` asks before it calls `play`.
abbrev pub can_attempt : PlaybackSnapshot → MediaPlayer → Bool
can_attempt now p =
    p.is_ready
    && p.is_stream_primed
    && has_buffered_ahead now.current_time_seconds p.playback.shown_snapshot.buffered_until_seconds

-- The effect that plays by itself; the element is the one of `now`.
unfoldable pub wants_attempt : Intent → PlaybackSnapshot → MediaPlayer → Bool
wants_attempt i now p =
    i.play_intent
    && not p.playback.is_autoplay_blocked
    && is_none i.pending_seek_seconds
    && can_attempt now p
    && (now.paused || p.playback.is_waiting_for_data)

unfoldable pub autoplay_effect : Intent → PlaybackSnapshot → MediaPlayer → MediaPlayer
autoplay_effect i now p =
    if wants_attempt i now p then record p { attempts = auto ∷ p.attempts } else p

-- `requestUserGesturePlay`.
unfoldable pub request_user_gesture_play : Intent → PlaybackSnapshot → MediaPlayer → MediaPlayer
request_user_gesture_play i now p =
    if can_attempt now p then record p { attempts = user ∷ p.attempts } else updated i now p

-- `play()` of the element was answered.
unfoldable pub play_resolved : ℕ → MediaPlayer → MediaPlayer
play_resolved n p = record p {
  attempts = without n p.attempts;
  playback = record p.playback { is_autoplay_blocked = false; last_player_error = none };
}

-- A policy error is a `DOMException` named "NotAllowedError".
pub record PlayError : Type 0 where
  pub is_policy : Bool
  pub message : Option String

abbrev pub refused_text : Reason → PlayError → String
refused_text auto e =
    if e.is_policy
    then "Playback blocked by browser; press play to resume."
    else readable_error e.message "Unable to resume playback automatically"
refused_text user e = readable_error e.message "Unable to resume playback automatically"

abbrev pub after_refusal : Reason → Intent → PlaybackSnapshot → MediaPlayer → MediaPlayer
after_refusal auto i now p = p
after_refusal user i now p = updated i now p

unfoldable pub play_rejected :
    ℕ → Reason → PlayError → Intent → PlaybackSnapshot → MediaPlayer → MediaPlayer
play_rejected n reason e i now p = after_refusal reason i now (record p {
  attempts = without n p.attempts;
  playback = record p.playback {
    is_autoplay_blocked = e.is_policy || p.playback.is_autoplay_blocked;
    last_player_error = some (refused_text reason e);
  };
})

-- `pausePlayback`; `now` is the element after its `pause`.
unfoldable pub pause_playback : Intent → PlaybackSnapshot → MediaPlayer → MediaPlayer
pause_playback i now p = updated i now p

-- `setPlaybackRate`, in thousandths.
unfoldable pub set_element_rate : ℕ → MediaPlayer → MediaPlayer
set_element_rate rate p = record p { playback_rate = max 50 rate }

unfoldable pub rendered_duration : List Chunk → ℕ → ℕ
rendered_duration [] longest = longest
rendered_duration (c ∷ cs) longest =
    rendered_duration cs
      (if is_written c.status then max longest (c.start_seconds + c.duration_seconds) else longest)

-- `isLoadingAudio`.
unfoldable pub is_loading_audio : Intent → Option String → MediaPlayer → Bool
is_loading_audio i stream_key p =
    not (is_none i.pending_seek_seconds)
    || (i.play_intent && is_some_key stream_key && not p.is_stream_primed)
