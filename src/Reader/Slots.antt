-- ===== src/Reader/Slots.antt =====
-- Timeline slots of features/reader/reader-model.ts: `deriveTimelineSlots`, with types/timeline.ts.
pub mod States
use readflow.Common.{
  ℕ, Bool, true, false, ◌&&◌, ◌||◌, Option, none, some, List, map, ltb, ◌==◌, if◌then◌else◌,
}
use readflow.Common.Sets.{has, nat_eq}
use readflow.Chunk.{Chunk, is_written, is_failed, is_max_retries}
use readflow.Reader.Playback.{ReaderPlaybackModel}
use readflow.Reader.Progress.{ActiveChunkProgress}

pub data TimelineSlotState : Type 0 where
  played playing ready ready_after_gap missing_expected failed : TimelineSlotState

pub record TimelineSlotData : Type 0 where
  pub chunk_index : ℕ
  pub state : TimelineSlotState
  pub duration_seconds : ℕ

-- `activeChunkIndex === chunk.index`.
abbrev pub is_index : Option ℕ → ℕ → Bool
is_index none i = false
is_index (some j) i = j == i

unfoldable pub slot_state :
    ReaderPlaybackModel → ActiveChunkProgress → ℕ → Chunk → TimelineSlotState
slot_state model progress anchor chunk =
    if is_failed chunk.status || is_max_retries chunk.status
    then failed
    else if is_index progress.active_chunk_index chunk.index
    then playing
    else if has chunk.index progress.played_indexes
    then played
    else if ltb chunk.index anchor && is_written chunk.status
    then ready
    else if has chunk.index model.active_contiguous_ready_indexes
    then ready
    else if has chunk.index model.written_after_gap_indexes
    then ready_after_gap
    else if has chunk.index model.missing_expected_indexes
    then missing_expected
    else if is_written chunk.status
    then ready
    else missing_expected

-- A chunk of no known duration is drawn as 4 seconds.
unfoldable pub derive_timeline_slots :
    List Chunk → ReaderPlaybackModel → ActiveChunkProgress → ℕ → List TimelineSlotData
unfolding slot_state
derive_timeline_slots active model progress anchor =
    map
      (λ chunk. record {
        chunk_index = chunk.index;
        state = slot_state model progress anchor chunk;
        duration_seconds = if ltb 0 chunk.duration_seconds then chunk.duration_seconds else 4000;
      })
      active
