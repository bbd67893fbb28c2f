-- ===== src/Media/Playback.antt =====
-- The playback state of `useMediaSourcePlayer` in web/src/lib/media-source.ts: `updatePlaybackState`,
-- the handlers of the audio element's events, and the effect that derives the player state. The
-- element itself is not modelled: each call is given the snapshot that it reads. The fill and the
-- eviction that each call also starts are in Media/Stream.antt and Media/Window.antt.
pub mod Flags
pub mod States
use readflow.Common.{
  ℕ, ◌+◌, Bool, true, false, not, ◌&&◌, ◌||◌, Option, none, some, String, leb, ltb, ◌==◌,
  if◌then◌else◌,
}
use readflow.Common.Int.{ℤ}

-- 0.05 and 0.5 seconds.
abbrev pub playable_epsilon : ℕ
playable_epsilon = 50

abbrev pub terminal_end_epsilon : ℕ
terminal_end_epsilon = 500

pub data PlayerState : Type 0 where
  idle priming waiting_for_first_chunk ready_paused playing stalled_waiting_for_next_chunk ended
        error :
      PlayerState

-- The playback rate is in thousandths.
pub record PlaybackSnapshot : Type 0 where
  pub paused : Bool
  pub ready_state : ℕ
  pub network_state : ℕ
  pub playback_rate : ℕ
  pub buffered_until_seconds : ℕ
  pub current_time_seconds : ℕ

-- The refs that mirror the options of the hook.
pub record Intent : Type 0 where
  pub play_intent : Bool
  pub is_terminal : Bool
  pub pending_seek_seconds : Option ℤ
  pub rendered_duration_seconds : ℕ

-- The React state that playback events set, with the last snapshot.
pub record Playback : Type 0 where
  pub last_snapshot : PlaybackSnapshot
  pub shown_snapshot : PlaybackSnapshot
  pub is_actually_playing : Bool
  pub is_waiting_for_data : Bool
  pub has_ended : Bool
  pub is_autoplay_blocked : Bool
  pub last_player_error : Option String

abbrev pub is_none {ℓ} : {A : Type ℓ} → Option A → Bool
is_none none = true
is_none (some a) = false

-- For an element that is there.
abbrev pub has_buffered_ahead : ℕ → ℕ → Bool
has_buffered_ahead current buffered_until = ltb (current + playable_epsilon) buffered_until

abbrev pub advanced_since : PlaybackSnapshot → PlaybackSnapshot → Bool
advanced_since previous now =
    ltb (previous.current_time_seconds + playable_epsilon) now.current_time_seconds

-- `current >= Math.max(0, rendered - epsilon)` is written with a sum.
unfoldable pub is_stopped_at_rendered_boundary :
    PlaybackSnapshot → PlaybackSnapshot → Bool → Bool → ℕ → Bool
is_stopped_at_rendered_boundary now previous play_intent is_terminal rendered =
    if not play_intent || is_terminal || leb rendered playable_epsilon
    then false
    else leb rendered (now.current_time_seconds + playable_epsilon)
      && not (has_buffered_ahead now.current_time_seconds now.buffered_until_seconds)
      && not (advanced_since previous now)

unfoldable pub terminal_ended : Intent → PlaybackSnapshot → PlaybackSnapshot → Bool
terminal_ended i now previous =
    is_none i.pending_seek_seconds
    && i.play_intent
    && i.is_terminal
    && ltb playable_epsilon i.rendered_duration_seconds
    && leb i.rendered_duration_seconds (now.buffered_until_seconds + terminal_end_epsilon)
    && ltb playable_epsilon now.current_time_seconds
    && not (has_buffered_ahead now.current_time_seconds now.buffered_until_seconds)
    && leb now.buffered_until_seconds (now.current_time_seconds + terminal_end_epsilon)
    && not (advanced_since previous now)

-- `Math.abs(a - b) >= 0.05`.
abbrev moved : ℕ → ℕ → Bool
moved a b = leb (a + 50) b || leb (b + 50) a

abbrev same_flag : Bool → Bool → Bool
same_flag true b = b
same_flag false b = not b

unfoldable pub should_commit : Bool → PlaybackSnapshot → PlaybackSnapshot → Bool
should_commit force now previous =
    force
    || moved now.current_time_seconds previous.current_time_seconds
    || moved now.buffered_until_seconds previous.buffered_until_seconds
    || not (same_flag now.paused previous.paused)
    || not (now.ready_state == previous.ready_state)
    || not (now.network_state == previous.network_state)

-- The flags after a snapshot was committed.
committed_flags : Bool → PlaybackSnapshot → PlaybackSnapshot → Playback → Playback
committed_flags stopped now previous p =
    if now.paused
    then record p { is_actually_playing = false; is_waiting_for_data = stopped }
    else if stopped
    then record p { is_actually_playing = false; is_waiting_for_data = true }
    else if advanced_since previous now
    then record p { is_actually_playing = true; is_waiting_for_data = false }
    else p

abbrev commit : PlaybackSnapshot → Playback → Playback
commit now p = record p { last_snapshot = now; shown_snapshot = now }

unfoldable pub update_playback_state : Bool → Intent → PlaybackSnapshot → Playback → Playback
unfolding committed_flags
update_playback_state force i now p =
    let previous = p.last_snapshot in
    if terminal_ended i now previous
    then record (commit now p) {
      is_actually_playing = false;
      is_waiting_for_data = false;
      has_ended = true;
    }
    else if not (should_commit force now previous)
    then p
    else committed_flags
        (is_stopped_at_rendered_boundary now previous i.play_intent i.is_terminal
          i.rendered_duration_seconds)
        now previous (commit now p)

-- The events of the audio element with a handler of their own, the ones that only update, and a tick.
pub data MediaEvent : Type 0 where
  play pause waiting progress ended_event playing_event error_event tick : MediaEvent

-- What a handler sets before it updates; `handleEnded` takes the hook's `isTerminal`.
before_update : MediaEvent → Bool → Playback → Playback
before_update play is_terminal p = record p {
  is_actually_playing = true;
  is_waiting_for_data = false;
  is_autoplay_blocked = false;
  last_player_error = none;
  has_ended = false;
}
before_update pause is_terminal p = record p { is_actually_playing = false }
before_update waiting is_terminal p = record p {
  is_waiting_for_data = true;
  is_actually_playing = false;
}
before_update progress is_terminal p = p
before_update ended_event is_terminal p = record p {
  has_ended = is_terminal;
  is_actually_playing = false;
}
before_update playing_event is_terminal p = record p {
  has_ended = false;
  is_actually_playing = true;
  is_waiting_for_data = false;
  is_autoplay_blocked = false;
  last_player_error = none;
}
before_update error_event is_terminal p = record p {
  is_actually_playing = false;
  last_player_error = some "Audio playback failed";
}
before_update tick is_terminal p = p

-- A tick of the animation frame updates without force.
abbrev is_forced : MediaEvent → Bool
is_forced tick = false
is_forced _ = true

unfoldable pub handle_event : MediaEvent → Intent → PlaybackSnapshot → Playback → Playback
unfolding before_update
handle_event event i now p =
    update_playback_state (is_forced event) i now (before_update event i.is_terminal p)

-- What the player state is derived from besides the playback flags.
pub record StreamState : Type 0 where
  pub has_stream_key : Bool
  pub is_stream_primed : Bool

-- The effect that derives the player state; the second part is the flag that it may set.
unfoldable pub derive_player_state : Intent → StreamState → Playback → PlayerState × Bool
derive_player_state i stream p =
    let current = p.shown_snapshot.current_time_seconds in
    let rendered = i.rendered_duration_seconds in
    let stalled =
      is_stopped_at_rendered_boundary p.shown_snapshot p.last_snapshot true i.is_terminal
        rendered in
    if not (is_none p.last_player_error)
    then (error, p.is_waiting_for_data)
    else if i.is_terminal
        && ltb playable_epsilon rendered
        && leb rendered (current + playable_epsilon)
        && not p.is_actually_playing
    then (ended, p.is_waiting_for_data)
    else if i.play_intent
    then if not stream.is_stream_primed || leb rendered playable_epsilon
      then (waiting_for_first_chunk, p.is_waiting_for_data)
      else if p.is_waiting_for_data || stalled
      then (
        (if leb current playable_epsilon
            then waiting_for_first_chunk
            else stalled_waiting_for_next_chunk),
        true,
      )
      else if p.is_actually_playing
      then (playing, p.is_waiting_for_data)
      else (ready_paused, p.is_waiting_for_data)
    else if p.has_ended && i.is_terminal
    then (ended, p.is_waiting_for_data)
    else if stream.has_stream_key && not stream.is_stream_primed
    then (priming, p.is_waiting_for_data)
    else if stream.is_stream_primed && ltb playable_epsilon rendered
    then (ready_paused, p.is_waiting_for_data)
    else (idle, p.is_waiting_for_data)

-- The effect on `isTerminal`: playback can become terminal after it stopped.
unfoldable pub became_terminal : Intent → PlaybackSnapshot → Playback → Playback
became_terminal i now p =
    if i.is_terminal
    then update_playback_state true i now (record p { is_waiting_for_data = false })
    else p
