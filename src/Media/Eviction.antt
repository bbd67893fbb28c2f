-- ===== src/Media/Eviction.antt =====
-- `evictPlayedAudio` and `recoverFromBufferQuota` of web/src/lib/media-source.ts: an eviction takes the
-- lock of the append queue while the browser removes a range. What the browser does is not modelled.
pub mod Stall
use readflow.Common.{ℕ, Bool, true, false, not, ◌&&◌, ◌||◌, Option, none, some, if◌then◌else◌}
use readflow.Common.Int.{ℤ, pos}
use readflow.Media.Window.{
  SecondsRange, resolve_eviction_range, keep_behind_seconds, emergency_keep_behind_seconds,
}
use readflow.Media.Stream.{StreamRefs}

-- What an eviction reads besides the refs; the audio element is there.
pub record EvictionInput : Type 0 where
  pub is_updating : Bool
  pub buffered_start : ℕ
  pub playhead_seconds : ℕ

-- The range that `evictPlayedAudio` starts to remove, if it does.
unfoldable pub evicted_range : EvictionInput → StreamRefs → Option SecondsRange
evicted_range i s =
    if not s.has_source_buffer || i.is_updating || s.processing_queue
    then none
    else resolve_eviction_range i.buffered_start (pos i.playhead_seconds) (pos keep_behind_seconds)

abbrev pub locked_for : Option SecondsRange → StreamRefs → StreamRefs
locked_for none s = s
locked_for (some range) s = record s { processing_queue = true }

-- `evictPlayedAudio` up to the wait for the browser.
unfoldable pub begin_eviction : EvictionInput → StreamRefs → StreamRefs
begin_eviction i s = locked_for (evicted_range i s) s

-- Its end, also when the removal failed.
unfoldable pub end_eviction : StreamRefs → StreamRefs
end_eviction s = record s { processing_queue = false }

-- The range that `recoverFromBufferQuota` removes, called while the loop holds the lock.
unfoldable pub recovered_range : EvictionInput → StreamRefs → Option SecondsRange
recovered_range i s =
    if not s.has_source_buffer || i.is_updating
    then none
    else resolve_eviction_range i.buffered_start (pos i.playhead_seconds)
        (pos emergency_keep_behind_seconds)
