-- ===== src/Reader/Controls.antt =====
-- The reader's page and the player's store, web/src/features/reader/ReaderPage.tsx: what the page derives and
-- hands over, and the effects that keep the anchor and restore the saved position.
use readflow.Common.{
  ℕ, Bool, false, ◌||◌, Option, none, some, List, [], ◌∷◌, ◌++◌, String, leb, str_eq, if◌then◌else◌,
  ◌==◌,
}
use readflow.Chunk.{Chunk, is_terminal_status}
use readflow.Api.{JobDetail, JobProgress}
use readflow.Player.Heard.{PlayerJob}
use readflow.Player.Store.{
  PlayerStore, PlayerSource, open_job, set_source, set_anchor_index, request_seek,
}
use readflow.Reader.Patch.{merge_known_chunks}
use readflow.Reader.Active.{derive_active_chunks, derive_active_version_map}
use readflow.Reader.Playback.{ReaderPlaybackModel, derive_playback_model}
use readflow.Reader.Timeline.{build_stream_manifest, chunk_index_at_seconds}
use readflow.Reader.Progress.{resume_position_seconds}
use readflow.Reader.Page.{ReaderPage}

pub data ReaderCall : Type 0 where
  activate_job pause_job : String → ReaderCall
  request_gesture pause_player : ReaderCall
  seek_within seek_player : ℕ → ReaderCall

-- The page, the player's store, the refs of the effects, and the calls made.
pub record ReaderSession : Type 0 where
  pub page : ReaderPage
  pub store : PlayerStore
  pub restored_position_for : Option String
  pub autoplay_for_job : Option String
  pub calls : List ReaderCall

abbrev pub call : ReaderCall → ReaderSession → ReaderSession
call c s = record s { calls = s.calls ++ c ∷ [] }

abbrev pub with_player : (PlayerStore → PlayerStore) → ReaderSession → ReaderSession
with_player f s = record s { store = f s.store }

abbrev pub with_error : Option String → ReaderSession → ReaderSession
with_error error s = record s { page = record s.page { error = error } }

abbrev versions_of : Option JobDetail → Option (List (ℕ × ℕ))
versions_of none = none
versions_of (some job) = job.active_chunk_version

abbrev pub known_chunks : ReaderPage → List Chunk
known_chunks p = merge_known_chunks p.job p.manifest

abbrev pub active_versions : ReaderPage → List (ℕ × ℕ)
active_versions p = derive_active_version_map (known_chunks p) (versions_of p.job)

abbrev pub active_chunks : ReaderPage → List Chunk
active_chunks p = derive_active_chunks (known_chunks p) (active_versions p)

abbrev pub playback_model : ReaderPage → ℕ → ReaderPlaybackModel
playback_model p anchor =
    derive_playback_model (known_chunks p) (active_chunks p) (active_versions p) anchor

abbrev pub is_job_terminal : Option JobDetail → Bool
is_job_terminal none = is_terminal_status none
is_job_terminal (some job) = is_terminal_status (some job.status)

abbrev id_or_null : Option (Option String) → Option String
id_or_null none = none
id_or_null (some id) = id

abbrev player_job : JobDetail → PlayerJob
player_job job = record {
  id = job.id;
  title = job.title;
  is_terminal = is_terminal_status (some job.status);
  audio_epoch = job.audio_epoch;
  folder_id = id_or_null job.folder_id;
  next_job_id = id_or_null job.next_job_id;
  previous_job_id = id_or_null job.previous_job_id;
}

abbrev pub hand_over_job : Option JobDetail → ReaderSession → ReaderSession
hand_over_job none s = s
hand_over_job (some job) s = with_player (open_job (player_job job)) s

-- The effects that hand the document and the stream over to the player.
unfoldable pub hand_over : ReaderSession → ReaderSession
hand_over s =
    let p = s.page in
    let anchor = s.store.source.anchor_index in
    let model = playback_model p anchor in
    let source : PlayerSource = record {
      manifest = build_stream_manifest p.manifest model.contiguous_ready_chunks;
      anchor_index = anchor;
      anchor_offset_seconds = model.anchor_offset_seconds;
      duration_seconds = model.known_duration_seconds;
    } in
    with_player (set_source source) (hand_over_job p.job s)

abbrev pub has_index : ℕ → List Chunk → Bool
has_index index [] = false
has_index index (c ∷ cs) = (c.index == index) || has_index index cs

abbrev pub anchor_for : List Chunk → ℕ → ℕ
anchor_for [] anchor = 0
anchor_for (c ∷ cs) anchor = if has_index anchor (c ∷ cs) then anchor else c.index

-- The effect that keeps the anchor on a known chunk.
unfoldable pub reset_anchor : ReaderSession → ReaderSession
reset_anchor s =
    with_player (set_anchor_index (anchor_for (known_chunks s.page) s.store.source.anchor_index)) s

abbrev saved_seconds : Option (Option JobProgress) → ℕ
saved_seconds (some (some progress)) = progress.position_seconds
saved_seconds _ = 0

abbrev pub is_id : Option String → String → Bool
is_id none id = false
is_id (some a) id = str_eq a id

abbrev pub restore_job : Option JobDetail → List Chunk → ReaderSession → ReaderSession
restore_job none chunks s = s
restore_job (some job) [] s = s
restore_job (some job) (c ∷ cs) s =
    let known = (playback_model s.page s.store.source.anchor_index).known_duration_seconds in
    let saved =
      resume_position_seconds (some (saved_seconds job.progress)) known
        (is_terminal_status (some job.status)) in
    let seen = record s { restored_position_for = some job.id } in
    if is_id s.restored_position_for job.id
    then s
    else if leb saved 1000
    then seen
    else with_player
        (λ store.
          request_seek (some saved)
            (set_anchor_index (chunk_index_at_seconds (c ∷ cs) saved) store))
        seen

-- The effect that restores the saved position.
unfoldable pub restore_position : ReaderSession → ReaderSession
restore_position s = restore_job s.page.job (active_chunks s.page) s
