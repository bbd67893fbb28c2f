-- ===== src/Reader/Session.antt =====
-- The reader's session over all orders of its handlers and effects: what starts playback.
use readflow.Common.{
  leb, ℕ, ◌≡◌, refl, Bool, true, false, not, ◌&&◌, ◌||◌, Option, none, some, List, [], ◌∷◌, String,
  arith, Bool-cases, Option-cases, inl, inr,
}
use readflow.Common.Int.{ℤ, pos}
use readflow.Reader.Progress.{skip_target_seconds}
use readflow.Chunk.{Chunk}
use readflow.Api.{JobDetail, StreamJob}
use readflow.Player.Store.{
  PlayerStore, open_job, set_source, set_anchor_index, request_seek, set_play_intent, is_job,
}
use readflow.Reader.Controls.{
  ReaderSession, hand_over, reset_anchor, restore_position, hand_over_job, restore_job,
  active_chunks,
}
use readflow.Reader.Handlers.{
  StreamView, handle_replay, handle_play, activated, play_refused, autoplay, handle_pause, paused,
  pause_refused, handle_toggle_play, handle_seek_to_chunk, handle_jump_to_chunk, handle_skip,
  seek_refused, retry_render, retry_refreshed, retry_activated, pause_of, activate_again, seek_job,
}
use readflow.Reader.Handlers.Covered.{seek_job-IsCovered}
use readflow.Reader.Changes.{rendered_to_end, voice_changed, change_refused}
use readflow.Player.Heard.{PlayerJob}

pub data SessionEvent : Type 0 where
  handed_over anchor_reset restored : SessionEvent
  pause_pressed retry_pressed retry_refreshes : SessionEvent
  play_pressed replay_pressed toggle_pressed : SessionEvent
  play_wanted : Bool → SessionEvent
  activation_done pause_done retry_done render_done : StreamJob → SessionEvent
  voice_done : Bool → StreamJob → SessionEvent
  play_failed pause_failed seek_failed change_failed : String → SessionEvent
  seek_pressed : StreamView → ℕ → ℕ → SessionEvent
  jump_pressed : StreamView → ℕ → SessionEvent
  skip_pressed : StreamView → ℤ → SessionEvent

unfoldable pub session_step : SessionEvent → ReaderSession → ReaderSession
session_step handed_over = hand_over
session_step anchor_reset = reset_anchor
session_step restored = restore_position
session_step pause_pressed = handle_pause
session_step retry_pressed = retry_render
session_step retry_refreshes = retry_refreshed
session_step play_pressed = handle_play
session_step replay_pressed = handle_replay
session_step toggle_pressed = handle_toggle_play
session_step (play_wanted wants_play) = autoplay wants_play
session_step (activation_done patch) = activated patch
session_step (pause_done patch) = paused patch
session_step (retry_done patch) = retry_activated patch
session_step (render_done patch) = rendered_to_end patch
session_step (voice_done rerenders patch) = voice_changed rerenders patch
session_step (play_failed text) = play_refused text
session_step (pause_failed text) = pause_refused text
session_step (seek_failed text) = seek_refused text
session_step (change_failed text) = change_refused text
session_step (seek_pressed view index seconds) = handle_seek_to_chunk view index seconds
session_step (jump_pressed view index) = handle_jump_to_chunk view index
session_step (skip_pressed view delta) = handle_skip view delta

unfoldable pub session_run : List SessionEvent → ReaderSession → ReaderSession
session_run [] s = s
session_run (e ∷ es) s = session_run es (session_step e s)

-- The listener asks for playback.
abbrev pub asks_to_play : SessionEvent → Bool
asks_to_play play_pressed = true
asks_to_play replay_pressed = true
asks_to_play toggle_pressed = true
asks_to_play (play_wanted wants_play) = wants_play
asks_to_play _ = false

abbrev pub nobody_plays : List SessionEvent → Bool
nobody_plays [] = true
nobody_plays (e ∷ es) = not (asks_to_play e) && nobody_plays es

-- The play intent is not turned on from the first store to the second.
abbrev IsQuiet : PlayerStore → PlayerStore → Type 0
IsQuiet before after = (not after.play_intent || before.play_intent) ≡ true

IsQuiet-refl : (s : PlayerStore) → IsQuiet s s
IsQuiet-refl s = ground arith

open_job-IsQuiet : (j : PlayerJob) (s : PlayerStore) → IsQuiet s (open_job j s)
unfolding open_job
open_job-IsQuiet j s = elim (Bool-cases (is_job s.job j.id)) [
  | inl same ↦ rw same (ground arith)
  | inr other ↦ rw other (elim (Option-cases s.job) [
    | inl first ↦ rw first (ground arith)
    | inr (k, old) ↦ rw old refl
  ])
]

unchanged_intent : (before after : Bool) → after ≡ before → (not after || before) ≡ true
unchanged_intent before after same = ground arith

hand_over_job-IsQuiet :
    (job : Option JobDetail) (s : ReaderSession) → IsQuiet s.store (hand_over_job job s).store
hand_over_job-IsQuiet none s = IsQuiet-refl s.store
hand_over_job-IsQuiet (some job) s = open_job-IsQuiet _ s.store

restore_job-intent :
    (job : Option JobDetail) (chunks : List Chunk) (s : ReaderSession)
    → (restore_job job chunks s).store.play_intent ≡ s.store.play_intent
unfolding set_anchor_index request_seek
restore_job-intent none chunks s = refl
restore_job-intent (some job) [] s = refl
restore_job-intent (some job) (c ∷ cs) s = ground arith

pause_of-IsQuiet :
    (job : Option JobDetail) (s : ReaderSession) → IsQuiet s.store (pause_of job s).store
unfolding set_play_intent
pause_of-IsQuiet none s = IsQuiet-refl s.store
pause_of-IsQuiet (some job) s = ground arith

activate_again-store :
    (job : Option JobDetail) (s : ReaderSession) → (activate_again job s).store ≡ s.store
activate_again-store none s = refl
activate_again-store (some job) s = refl

seek_job-intent :
    (view : StreamView) (job : Option JobDetail) (index seconds : ℕ) (s : ReaderSession)
    → (seek_job view job index seconds s).store.play_intent ≡ s.store.play_intent
seek_job-intent view none index seconds s = refl
seek_job-intent view (some job) index seconds s = (seek_job-IsCovered view job index seconds s).2

handle_skip-intent :
    (view : StreamView) (delta : ℤ) (s : ReaderSession)
    → (handle_skip view delta s).store.play_intent ≡ s.store.play_intent
unfolding handle_skip handle_seek_to_chunk
handle_skip-intent view delta s =
    let o = s.store.outputs in
    let target =
      skip_target_seconds (pos o.current_time_seconds) delta o.rendered_duration_seconds in
    elim (Bool-cases (leb o.rendered_duration_seconds 0)) [
      | inl unloaded ↦ rw unloaded refl
      | inr loaded ↦ rw loaded (elim (Bool-cases (view.seeks_within target)) [
        | inl within ↦ rw within refl
        | inr outside ↦
            rw outside (elim (Bool-cases (o.is_stream_primed && not (view.is_behind target))) [
              | inl ahead ↦ rw ahead refl
              | inr behind ↦ rw behind (seek_job-intent view s.page.job _ _ s)
            ])
      ])
    ]

session_step-IsQuiet :
    (e : SessionEvent) (s : ReaderSession)
    → asks_to_play e ≡ false
    → IsQuiet s.store (session_step e s).store
unfolding session_step hand_over set_source reset_anchor set_anchor_index restore_position
    handle_pause retry_render retry_refreshed autoplay activated paused retry_activated
    rendered_to_end voice_changed play_refused pause_refused seek_refused change_refused
    set_play_intent request_seek handle_seek_to_chunk handle_jump_to_chunk
session_step-IsQuiet handed_over s quiet = hand_over_job-IsQuiet s.page.job s
session_step-IsQuiet anchor_reset s quiet = IsQuiet-refl s.store
session_step-IsQuiet restored s quiet =
    unchanged_intent _ _ (restore_job-intent s.page.job (active_chunks s.page) s)
session_step-IsQuiet pause_pressed s quiet = pause_of-IsQuiet s.page.job s
session_step-IsQuiet retry_pressed s quiet = IsQuiet-refl s.store
session_step-IsQuiet retry_refreshes s quiet =
    rw (activate_again-store s.page.job s) (IsQuiet-refl s.store)
session_step-IsQuiet play_pressed s quiet = ground arith
session_step-IsQuiet replay_pressed s quiet = ground arith
session_step-IsQuiet toggle_pressed s quiet = ground arith
session_step-IsQuiet (play_wanted true) s quiet = ground arith
session_step-IsQuiet (play_wanted false) s quiet = IsQuiet-refl s.store
session_step-IsQuiet (activation_done patch) s quiet = IsQuiet-refl s.store
session_step-IsQuiet (pause_done patch) s quiet = IsQuiet-refl s.store
session_step-IsQuiet (retry_done patch) s quiet = IsQuiet-refl s.store
session_step-IsQuiet (render_done patch) s quiet = IsQuiet-refl s.store
session_step-IsQuiet (voice_done true patch) s quiet = refl
session_step-IsQuiet (voice_done false patch) s quiet = IsQuiet-refl s.store
session_step-IsQuiet (play_failed text) s quiet = refl
session_step-IsQuiet (pause_failed text) s quiet = IsQuiet-refl s.store
session_step-IsQuiet (seek_failed text) s quiet = refl
session_step-IsQuiet (change_failed text) s quiet = IsQuiet-refl s.store
session_step-IsQuiet (seek_pressed view index seconds) s quiet =
    unchanged_intent _ _ (seek_job-intent view s.page.job index seconds s)
session_step-IsQuiet (jump_pressed view index) s quiet =
    unchanged_intent _ _ (seek_job-intent view s.page.job index _ s)
session_step-IsQuiet (skip_pressed view delta) s quiet =
    unchanged_intent _ _ (handle_skip-intent view delta s)

-- Whatever the reader does but play, replay, toggle and a link that asks for playback, and in whatever order
-- the calls settle, the play intent is not turned on.
pub session_run-quiet :
    (es : List SessionEvent) (s : ReaderSession)
    → nobody_plays es ≡ true
    → (not (session_run es s).store.play_intent || s.store.play_intent) ≡ true
unfolding session_run
session_run-quiet [] s quiet = IsQuiet-refl s.store
session_run-quiet (e ∷ es) s quiet = ground (
  arith,
  session_step-IsQuiet e s (ground arith),
  session_run-quiet es (session_step e s) (ground arith),
)
