-- ===== src/Player/Transport.antt =====
-- web/src/features/reader/transport.ts: what the play button and the status pill show.
use readflow.Common.{
  ℕ, ◌≡◌, Bool, true, false, not, ◌&&◌, ◌||◌, Option, none, some, String, leb, ltb, arith,
  if◌then◌else◌,
}

pub record TransportState : Type 0 where
  pub is_autoplay_blocked : Bool
  pub is_job_terminal : Bool
  pub is_loading_audio : Bool
  pub is_playing : Bool
  pub is_waiting_for_data : Bool
  pub play_intent : Bool

-- "Play", "Pause" and "Resume".
pub data PlayButtonLabel : Type 0 where
  play pause resume : PlayButtonLabel

unfoldable pub resolve_play_button_label : TransportState → PlayButtonLabel
resolve_play_button_label s =
    if s.is_autoplay_blocked then resume else if s.play_intent then pause else play

unfoldable pub resolve_show_spinner : TransportState → Bool
resolve_show_spinner s =
    s.is_loading_audio
    || (s.play_intent && not s.is_autoplay_blocked && not s.is_playing)
    || s.is_waiting_for_data

pub record PlayerStateInput : Type 0 where
  pub transport : TransportState
  pub open transport use *
  pub rendered_duration_seconds : ℕ
  pub display_time_seconds : ℕ
  pub display_duration_seconds : ℕ

-- The texts of the status pill.
pub data PlayerStateLabel : Type 0 where
  playback_blocked_by_browser playback_complete playing loading_audio buffering preparing_stream
        starting ready :
      PlayerStateLabel

abbrev pub label_text : PlayerStateLabel → String
label_text playback_blocked_by_browser = "Playback blocked by browser"
label_text playback_complete = "Playback complete"
label_text playing = "Playing"
label_text loading_audio = "Loading audio…"
label_text buffering = "Buffering…"
label_text preparing_stream = "Preparing stream…"
label_text starting = "Starting…"
label_text ready = "Ready"

unfoldable pub resolve_player_state_label : PlayerStateInput → PlayerStateLabel
resolve_player_state_label s =
    if s.is_autoplay_blocked
    then playback_blocked_by_browser
    else if s.is_job_terminal
        && ltb 0 s.rendered_duration_seconds
        && leb s.display_duration_seconds s.display_time_seconds
    then playback_complete
    else if s.is_playing && not s.is_loading_audio
    then playing
    else if s.is_loading_audio && ltb 0 s.rendered_duration_seconds
    then loading_audio
    else if s.play_intent && s.is_waiting_for_data
    then buffering
    else if s.play_intent && not s.is_playing && leb s.rendered_duration_seconds 0
    then preparing_stream
    else if s.play_intent
    then starting
    else ready

-- 25 seconds.
abbrev pub rendering_stall_seconds : ℕ
rendering_stall_seconds = 25000

abbrev is_stall : Option ℕ → Bool
is_stall none = false
is_stall (some since) = leb rendering_stall_seconds since

unfoldable pub is_rendering_stalled : TransportState → Option ℕ → Bool
is_rendering_stalled s seconds_since_chunk =
    if s.is_job_terminal
    then false
    else if not s.play_intent
    then false
    else if not s.is_waiting_for_data
    then false
    else is_stall seconds_since_chunk

-- What the pill may say while playback waits for audio that does not come.
abbrev pub admits_stall : PlayerStateLabel → Bool
admits_stall playback_complete = false
admits_stall preparing_stream = false
admits_stall starting = false
admits_stall ready = false
admits_stall _ = true

abbrev pub offers_play : PlayButtonLabel → Bool
offers_play play = true
offers_play _ = false

-- While rendering is stalled, the spinner is shown, the button does not say that playback is off, and
-- the pill says that playback is blocked, plays, loads or buffers, never that it is complete or ready.
pub is_rendering_stalled-shown :
    (s : PlayerStateInput) (since : Option ℕ)
    → is_rendering_stalled s.transport since ≡ true
    → (resolve_show_spinner s.transport ≡ true)
      × (offers_play (resolve_play_button_label s.transport) ≡ false)
      × (admits_stall (resolve_player_state_label s) ≡ true)
unfolding is_rendering_stalled resolve_show_spinner resolve_play_button_label
    resolve_player_state_label
is_rendering_stalled-shown s since h = ground arith
