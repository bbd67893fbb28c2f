-- ===== src/Reader/Handlers.antt =====
-- The handlers of the reader's controls, web/src/features/reader/ReaderPage.tsx: play, pause, seeks, skips and
-- retries. Calls are logged, and settle as operations of their own. What the media stream holds is an
-- argument (Media/Seek.antt, Media/Window.antt).
pub mod Covered
use readflow.Common.{
  ℕ, ◌+◌, ◌-◌, Bool, true, false, not, ◌&&◌, ◌||◌, Option, none, some, List, [], ◌∷◌, ◌++◌, String,
  leb, ltb, str_eq, if◌then◌else◌, or_else, ◌==◌,
}
use readflow.Common.Int.{ℤ, pos}
use readflow.Chunk.{Chunk, is_terminal_status}
use readflow.Api.{JobDetail, JobManifest, StreamJob, JobProgress}
use readflow.Player.Heard.{PlayerJob}
use readflow.Player.Store.{
  PlayerStore, PlayerSource, open_job, set_source, set_anchor_index, restart_stream, request_seek,
  set_play_intent,
}
use readflow.Reader.Patch.{merge_known_chunks, StreamEventMeta}
use readflow.Reader.Active.{derive_active_chunks, derive_active_version_map}
use readflow.Reader.Playback.{ReaderPlaybackModel, derive_playback_model}
use readflow.Reader.Timeline.{build_stream_manifest, chunk_index_at_seconds, chunk_start_seconds}
use readflow.Reader.Progress.{skip_target_seconds, resume_position_seconds}
use readflow.Reader.Page.{no_meta, ReaderPage, apply_job_patch, refresh_reader_state}
use readflow.Reader.Controls.{
  ReaderSession, ReaderCall, active_chunks, call, is_id, playback_model, with_error, activate_job,
  pause_player, request_gesture, seek_within, with_player, pause_job, seek_player,
}

-- `isSecondsLoaded`, `seekWithinBuffered` (whether it could) and `isSecondsBehindRetainedAudio`.
pub record StreamView : Type 0 where
  pub is_loaded : ℕ → Bool
  pub seeks_within : ℕ → Bool
  pub is_behind : ℕ → Bool

abbrev pub anchor_offset : ReaderSession → ℕ
anchor_offset s = (playback_model s.page s.store.source.anchor_index).anchor_offset_seconds

abbrev replay_from : List Chunk → ReaderSession → ReaderSession
replay_from [] s = s
replay_from (c ∷ cs) s = call request_gesture (
    with_player
      (λ store.
        set_play_intent true (request_seek (some c.start_seconds) (set_anchor_index c.index store)))
      s)

unfoldable pub handle_replay : ReaderSession → ReaderSession
handle_replay s = replay_from (active_chunks s.page) s

abbrev play_job : Option JobDetail → ReaderSession → ReaderSession
play_job none s = s
play_job (some job) s =
    let playing = with_error none (with_player (set_play_intent true) s) in
    if is_terminal_status (some job.status)
    then call request_gesture playing
    else call (activate_job job.id) playing

unfoldable pub handle_play : ReaderSession → ReaderSession
handle_play s = play_job s.page.job s

-- The activation that `handlePlay` or a seek waits for succeeded, or was refused.
unfoldable pub activated : StreamJob → ReaderSession → ReaderSession
activated patch s =
    call request_gesture (record s { page = apply_job_patch patch none no_meta s.page })

unfoldable pub play_refused : String → ReaderSession → ReaderSession
play_refused text s = with_error (some text) (with_player (set_play_intent false) s)

abbrev autoplay_job : Option JobDetail → ReaderSession → ReaderSession
autoplay_job none s = s
autoplay_job (some job) s =
    if not (str_eq job.id s.page.job_id) || is_id s.autoplay_for_job job.id
    then s
    else play_job (some job) (record s { autoplay_for_job = some job.id })

-- The effect of `?play=1`.
unfoldable pub autoplay : Bool → ReaderSession → ReaderSession
autoplay wants_play s = if not wants_play then s else autoplay_job s.page.job s

abbrev pub pause_of : Option JobDetail → ReaderSession → ReaderSession
pause_of none s = s
pause_of (some job) s =
    let paused = call pause_player (with_player (set_play_intent false) s) in
    if is_terminal_status (some job.status) then paused else call (pause_job job.id) paused

unfoldable pub handle_pause : ReaderSession → ReaderSession
handle_pause s = pause_of s.page.job s

unfoldable pub paused : StreamJob → ReaderSession → ReaderSession
paused patch s = record s { page = apply_job_patch patch none no_meta s.page }

unfoldable pub pause_refused : String → ReaderSession → ReaderSession
pause_refused text s = with_error (some text) s

unfoldable pub handle_toggle_play : ReaderSession → ReaderSession
handle_toggle_play s =
    if s.store.outputs.is_actually_playing || s.store.play_intent
    then handle_pause s
    else handle_play s

abbrev pub resume_seek : Bool → Bool → String → ReaderSession → ReaderSession
resume_seek resumes is_terminal id s =
    if not resumes
    then s
    else if is_terminal
    then call request_gesture s
    else call (activate_job id) s

module _ (view : StreamView) where
  -- The stream is rebuilt by a new anchor, or by a restart.
  abbrev pub move_anchor : ℕ → ℕ → ℕ → PlayerStore → PlayerStore
  move_anchor offset index seconds store =
      let moved = request_seek (some seconds) (set_anchor_index index store) in
      if (index == store.source.anchor_index) && not (view.is_loaded (seconds - offset))
      then restart_stream moved
      else moved

  abbrev pub seek_job : Option JobDetail → ℕ → ℕ → ReaderSession → ReaderSession
  seek_job none index seconds s = s
  seek_job (some job) index seconds s =
      let moved = with_error none (with_player (move_anchor (anchor_offset s) index seconds) s) in
      resume_seek s.store.play_intent (is_terminal_status (some job.status)) job.id moved

  unfoldable pub handle_seek_to_chunk : ℕ → ℕ → ReaderSession → ReaderSession
  handle_seek_to_chunk index seconds s = seek_job s.page.job index seconds s

  unfoldable pub handle_jump_to_chunk : ℕ → ReaderSession → ReaderSession
  handle_jump_to_chunk index s =
      handle_seek_to_chunk index (chunk_start_seconds (active_chunks s.page) index) s

  unfoldable pub handle_skip : ℤ → ReaderSession → ReaderSession
  handle_skip delta s =
      let o = s.store.outputs in
      let target =
        skip_target_seconds (pos o.current_time_seconds) delta o.rendered_duration_seconds in
      let timeline_target = target + anchor_offset s in
      if leb o.rendered_duration_seconds 0
      then s
      else if view.seeks_within target
      then call (seek_within target) s
      else if o.is_stream_primed && not (view.is_behind target)
      then call (seek_player target) s
      else handle_seek_to_chunk (chunk_index_at_seconds (active_chunks s.page) timeline_target)
          timeline_target s

-- The activation that a seek waits for was refused.
unfoldable pub seek_refused : String → ReaderSession → ReaderSession
seek_refused text s =
    with_error (some text)
      (with_player (λ store. request_seek none (set_play_intent false store)) s)

-- `handleRetryRender`: the refresh, and what follows when it is over.
unfoldable pub retry_render : ReaderSession → ReaderSession
retry_render s = record s { page = refresh_reader_state "stall-retry" false s.page }

abbrev pub activate_again : Option JobDetail → ReaderSession → ReaderSession
activate_again none s = s
activate_again (some job) s = call (activate_job job.id) s

unfoldable pub retry_refreshed : ReaderSession → ReaderSession
retry_refreshed s = activate_again s.page.job s

unfoldable pub retry_activated : StreamJob → ReaderSession → ReaderSession
retry_activated patch s =
    with_error none (record s { page = apply_job_patch patch none no_meta s.page })
