-- ===== src/Media/Element/Events.antt =====
-- The streaming player of web/src/lib/media-source.ts over time: each event comes with what the hook is
-- given and what the element shows.
use readflow.Common.{ℕ, Option, none, some, List, [], ◌∷◌, String, get_elem?}
use readflow.Media.Playback.{Intent, PlaybackSnapshot, MediaEvent, handle_event, became_terminal}
use readflow.Media.Element.{
  MediaPlayer, InitLoad, Reason, PlayError, open_player, close_player, no_media_source,
  handle_source_open, source_refused, start_init, init_segment_fetched, init_segment_done,
  init_segment_failed, autoplay_effect, request_user_gesture_play, play_resolved, play_rejected,
  pause_playback, set_element_rate,
}

pub data PlayerEvent : Type 0 where
  opened : String → PlayerEvent
  closed unsupported turned_terminal autoplay_checked gesture pause_asked : PlayerEvent
  source_open : ℕ → String → PlayerEvent
  source_fails : ℕ → Option String → PlayerEvent
  init_wanted : String → Option String → PlayerEvent
  init_fetched init_appended : ℕ → PlayerEvent
  init_fails : ℕ → Option String → PlayerEvent
  element_event : MediaEvent → PlayerEvent
  play_answered : ℕ → PlayerEvent
  play_refused : ℕ → PlayError → PlayerEvent
  rate_chosen : ℕ → PlayerEvent

pub record Happening : Type 0 where
  pub event : PlayerEvent
  pub intent : Intent
  pub now : PlaybackSnapshot

abbrev pub at_load :
    Option InitLoad → (InitLoad → MediaPlayer → MediaPlayer) → MediaPlayer → MediaPlayer
at_load none change p = p
at_load (some load) change p = change load p

abbrev pub at_attempt :
    Option Reason → (Reason → MediaPlayer → MediaPlayer) → MediaPlayer → MediaPlayer
at_attempt none change p = p
at_attempt (some reason) change p = change reason p

-- The load or the attempt at this place is of the stage that the event ends.
unfoldable pub player_change : PlayerEvent → Intent → PlaybackSnapshot → MediaPlayer → MediaPlayer
player_change (opened key) i now p = open_player key p
player_change closed i now p = close_player p
player_change unsupported i now p = no_media_source p
player_change turned_terminal i now p = record p { playback = became_terminal i now p.playback }
player_change autoplay_checked i now p = autoplay_effect i now p
player_change gesture i now p = request_user_gesture_play i now p
player_change pause_asked i now p = pause_playback i now p
player_change (source_open g key) i now p = handle_source_open g key i now p
player_change (source_fails g failure) i now p = source_refused g failure p
player_change (init_wanted key url) i now p = start_init key url p
player_change (init_fetched n) i now p =
    at_load (get_elem? p.inits n) (λ load. init_segment_fetched n load) p
player_change (init_appended n) i now p =
    at_load (get_elem? p.inits n) (λ load. init_segment_done n load i now) p
player_change (init_fails n failure) i now p =
    at_load (get_elem? p.inits n) (λ load. init_segment_failed n failure) p
player_change (element_event e) i now p = record p { playback = handle_event e i now p.playback }
player_change (play_answered n) i now p =
    at_attempt (get_elem? p.attempts n) (λ reason. play_resolved n) p
player_change (play_refused n e) i now p =
    at_attempt (get_elem? p.attempts n) (λ reason. play_rejected n reason e i now) p
player_change (rate_chosen rate) i now p = set_element_rate rate p

unfoldable pub player_run : List Happening → MediaPlayer → MediaPlayer
player_run [] p = p
player_run (h ∷ hs) p = player_run hs (player_change h.event h.intent h.now p)
