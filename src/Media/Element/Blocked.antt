-- ===== src/Media/Element/Blocked.antt =====
-- The player does not try again by itself what the browser has blocked.
use readflow.Common.{
  ◌≡◌, Bool, true, false, Option, none, some, List, [], ◌∷◌, arith, All, get_elem?, ℕ,
}
use readflow.Media.Playback.{
  Intent, PlaybackSnapshot, Playback, MediaEvent, handle_event, became_terminal,
  update_playback_state,
}
use readflow.Media.Element.{
  MediaPlayer, Reason, PlayError, wants_attempt, InitLoad, autoplay_effect, no_media_source,
  play_rejected, request_user_gesture_play, pause_playback, handle_source_open, source_refused,
  start_init, init_segment_fetched, init_segment_done, init_segment_failed, set_element_rate,
}
use readflow.Media.Element.Events.{
  PlayerEvent, Happening, player_change, player_run, at_load, at_attempt,
}

-- The events that lift the block: the element plays, an attempt succeeds, and another stream.
abbrev pub lifts_block : PlayerEvent → Bool
lifts_block (PlayerEvent.element_event MediaEvent.play) = true
lifts_block (PlayerEvent.element_event MediaEvent.playing_event) = true
lifts_block (PlayerEvent.play_answered n) = true
lifts_block (PlayerEvent.opened key) = true
lifts_block PlayerEvent.closed = true
lifts_block event = false

element_event-blocked :
    (e : MediaEvent) (i : Intent) (now : PlaybackSnapshot) (p : Playback)
    → lifts_block (PlayerEvent.element_event e) ≡ false
    → p.is_autoplay_blocked ≡ true
    → (handle_event e i now p).is_autoplay_blocked ≡ true
unfolding handle_event update_playback_state
element_event-blocked e i now p holds blocked = ground arith

module _ (i : Intent) (now : PlaybackSnapshot) (p : MediaPlayer) where
  -- The loads and the attempts of the player.
  at_load-blocked :
      (load : Option InitLoad) (change : InitLoad → MediaPlayer → MediaPlayer)
      → ((l : InitLoad) → (change l p).playback.is_autoplay_blocked ≡ true)
      → p.playback.is_autoplay_blocked ≡ true
      → (at_load load change p).playback.is_autoplay_blocked ≡ true
  at_load-blocked none change keeps blocked = blocked
  at_load-blocked (some l) change keeps blocked = keeps l

  at_attempt-blocked :
      (attempt : Option Reason) (change : Reason → MediaPlayer → MediaPlayer)
      → ((r : Reason) → (change r p).playback.is_autoplay_blocked ≡ true)
      → p.playback.is_autoplay_blocked ≡ true
      → (at_attempt attempt change p).playback.is_autoplay_blocked ≡ true
  at_attempt-blocked none change keeps blocked = blocked
  at_attempt-blocked (some r) change keeps blocked = keeps r

  player_change-blocked :
      (event : PlayerEvent)
      → lifts_block event ≡ false
      → p.playback.is_autoplay_blocked ≡ true
      → (player_change event i now p).playback.is_autoplay_blocked ≡ true
  unfolding player_change
  player_change-blocked (PlayerEvent.opened key) holds blocked = absurd (cc holds)
  player_change-blocked PlayerEvent.closed holds blocked = absurd (cc holds)
  player_change-blocked PlayerEvent.unsupported holds blocked = unfold no_media_source in blocked
  player_change-blocked PlayerEvent.turned_terminal holds blocked =
      unfold became_terminal update_playback_state in ground arith
  player_change-blocked PlayerEvent.autoplay_checked holds blocked =
      unfold autoplay_effect in ground arith
  player_change-blocked PlayerEvent.gesture holds blocked =
      unfold request_user_gesture_play update_playback_state in ground arith
  player_change-blocked PlayerEvent.pause_asked holds blocked =
      unfold pause_playback update_playback_state in ground arith
  player_change-blocked (PlayerEvent.source_open g key) holds blocked =
      unfold handle_source_open update_playback_state in ground arith
  player_change-blocked (PlayerEvent.source_fails g failure) holds blocked =
      unfold source_refused in ground arith
  player_change-blocked (PlayerEvent.init_wanted key url) holds blocked =
      unfold start_init in ground arith
  player_change-blocked (PlayerEvent.init_fetched n) holds blocked =
      at_load-blocked (get_elem? p.inits n) (λ l. init_segment_fetched n l)
        (λ l. unfold init_segment_fetched in ground arith) blocked
  player_change-blocked (PlayerEvent.init_appended n) holds blocked =
      at_load-blocked (get_elem? p.inits n) (λ l. init_segment_done n l i now)
        (λ l. unfold init_segment_done update_playback_state in ground arith) blocked
  player_change-blocked (PlayerEvent.init_fails n failure) holds blocked =
      at_load-blocked (get_elem? p.inits n) (λ l. init_segment_failed n failure)
        (λ l. unfold init_segment_failed in blocked) blocked
  player_change-blocked (PlayerEvent.element_event e) holds blocked =
      element_event-blocked e i now p.playback holds blocked
  player_change-blocked (PlayerEvent.play_answered n) holds blocked = absurd (cc holds)
  player_change-blocked (PlayerEvent.play_refused n e) holds blocked =
      at_attempt-blocked (get_elem? p.attempts n) (λ r. play_rejected n r e i now)
        (λ r. unfold play_rejected update_playback_state in ground arith) blocked
  player_change-blocked (PlayerEvent.rate_chosen rate) holds blocked =
      unfold set_element_rate in blocked

player_run-blocked :
    (hs : List Happening) (p : MediaPlayer)
    → All (λ h. lifts_block h.event ≡ false) hs
    → p.playback.is_autoplay_blocked ≡ true
    → (player_run hs p).playback.is_autoplay_blocked ≡ true
unfolding player_run
player_run-blocked [] p holds blocked = blocked
player_run-blocked (h ∷ hs) p (here, holds) blocked =
    player_run-blocked hs (player_change h.event h.intent h.now p) holds
      (player_change-blocked h.intent h.now p h.event here blocked)

play_rejected-blocked :
    (n : ℕ) (reason : Reason) (e : PlayError) (i : Intent) (now : PlaybackSnapshot)
    (p : MediaPlayer)
    → e.is_policy ≡ true
    → (play_rejected n reason e i now p).playback.is_autoplay_blocked ≡ true
unfolding play_rejected update_playback_state
play_rejected-blocked n reason e i now p policy = ground arith

-- After the browser's policy has refused an attempt to play, the player does not try again by itself,
-- whatever happens, until the element plays, an attempt succeeds or another stream is opened or closed.
pub player_run-waits :
    (n : ℕ) (reason : Reason) (e : PlayError) (i i' : Intent) (now now' : PlaybackSnapshot)
    (p : MediaPlayer) (hs : List Happening)
    → e.is_policy ≡ true
    → All (λ h. lifts_block h.event ≡ false) hs
    → let later = player_run hs (play_rejected n reason e i now p) in
      autoplay_effect i' now' later ≡ later
unfolding autoplay_effect wants_attempt
player_run-waits n reason e i i' now now' p hs policy holds =
    let still =
      player_run-blocked hs (play_rejected n reason e i now p) holds
        (play_rejected-blocked n reason e i now p policy) in
    ground arith
