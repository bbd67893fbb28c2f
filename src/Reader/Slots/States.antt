-- ===== src/Reader/Slots/States.antt =====
-- What a slot's state tells of its chunk.
use readflow.Common.{
  ap, ℕ, ◌≡◌, refl, ◌<◌, Bool, true, false, ◌&&◌, ◌||◌, not, some, List, [], ◌∷◌, map, arith, All,
}
use readflow.Common.Sets.{nat_eq}
use readflow.Chunk.{Chunk, is_written, is_failed, is_max_retries}
use readflow.Reader.Active.Choice.{find_index}
use readflow.Reader.Active.Order.{IsIncreasing}
use readflow.Reader.Playback.{ReaderPlaybackModel, derive_playback_model, beyond}
use readflow.Reader.Playback.Gap.{derive_playback_model-gap}
use readflow.Reader.Progress.{ActiveChunkProgress}
use readflow.Reader.Slots.{
  TimelineSlotState, ready_after_gap, missing_expected, failed, slot_state, derive_timeline_slots,
}

abbrev pub is_missing : TimelineSlotState → Bool
is_missing missing_expected = true
is_missing _ = false

abbrev pub is_after_gap : TimelineSlotState → Bool
is_after_gap ready_after_gap = true
is_after_gap _ = false

abbrev pub is_broken : TimelineSlotState → Bool
is_broken failed = true
is_broken _ = false

-- For a chunk of active chunks with increasing indexes, and a model derived from these: its slot is
-- failed exactly if the chunk failed or ran out of retries, whatever the playhead does; a written chunk
-- is never shown as missing; and a chunk shown as ready after the gap is written and not before the gap.
pub slot_state_lem :
    (known active : List Chunk) (versions : List (ℕ × ℕ)) (anchor : ℕ) (p : ActiveChunkProgress)
    (c : Chunk)
    → IsIncreasing active
    → find_index c.index active ≡ some c
    → let m = derive_playback_model known active versions anchor in
      let state = slot_state m p anchor c in
      (is_broken state ≡ (is_failed c.status || is_max_retries c.status))
      × ((is_written c.status && is_missing state) ≡ false)
      × ((is_after_gap state
            && not (is_written c.status && beyond m.expected_next_chunk_index c.index))
          ≡ false)
unfolding slot_state
slot_state_lem known active versions anchor p c s h =
    ground (arith, derive_playback_model-gap known active versions anchor c s h)

-- The slots stand for the active chunks one by one, in their order, and none is drawn without width.
pub derive_timeline_slots-indexes :
    (active : List Chunk) (m : ReaderPlaybackModel) (p : ActiveChunkProgress) (anchor : ℕ)
    → (map (λ s. s.chunk_index) (derive_timeline_slots active m p anchor)
        ≡ map (λ c. c.index) active)
      × All (λ s. 0 < s.duration_seconds) (derive_timeline_slots active m p anchor)
unfolding derive_timeline_slots
derive_timeline_slots-indexes [] m p anchor = (refl, tt)
derive_timeline_slots-indexes (c ∷ cs) m p anchor =
    let (same, wide) = derive_timeline_slots-indexes cs m p anchor in
    (ap (◌∷◌ c.index) same, (ground arith, wide))
