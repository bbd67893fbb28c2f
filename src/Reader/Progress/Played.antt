-- ===== src/Reader/Progress/Played.antt =====
-- What counts as played, and which chunk is playing.
use readflow.Common.{
  ℕ, ◌+◌, ◌-◌, ◌≡◌, refl, none, some, List, [], ◌∷◌, arith, leb, ltb, ◌||◌, if◌then◌else◌, All,
}
use readflow.Common.Sets.{has, nat_eq, has-add}
use readflow.Common.Int.{pos}
use readflow.Chunk.{Chunk}
use readflow.Reader.Active.Choice.{find_index}
use readflow.Reader.Active.Order.{Before, IsIncreasing, find_index-above}
use readflow.Reader.Playback.{total_duration}
use readflow.Reader.Timeline.{chunk_start_seconds, chunk_index_at_seconds, index_from, first_index}
use readflow.Reader.Timeline.Position.{index_from-stop}
use readflow.Reader.Progress.{
  ActiveChunkProgress, progress_from, derive_active_chunk_progress, mark_played,
}

active-progress_from :
    (chunks : List Chunk) (resolved running remaining seconds : ℕ) (p : ActiveChunkProgress)
    → p.active_chunk_index ≡ none
    → seconds ≡ running + remaining
    → (progress_from remaining p chunks).active_chunk_index ≡ (
        if ltb remaining (total_duration chunks)
        then some (index_from resolved running seconds chunks)
        else none)
unfolding progress_from index_from total_duration
active-progress_from [] resolved running remaining seconds p n e = ground arith
active-progress_from (c ∷ cs) resolved running remaining seconds p n e = ground (
  arith,
  index_from-stop c.index (running + c.duration_seconds) seconds cs,
  active-progress_from cs c.index (running + c.duration_seconds) (remaining - c.duration_seconds)
      seconds (mark_played c p) n,
)

-- Two ways to find the playing chunk agree: the progress of a playhead inside the run names the chunk
-- that `chunkIndexAtSeconds` resolves the playhead to, and at or behind the run's end it names none.
pub active-chunk_index_at :
    (ready : List Chunk) (time : ℕ)
    → (derive_active_chunk_progress ready (pos time)).active_chunk_index
      ≡ (if ltb time (total_duration ready) then some (chunk_index_at_seconds ready time) else none)
unfolding derive_active_chunk_progress chunk_index_at_seconds
active-chunk_index_at ready time =
    active-progress_from ready (first_index ready) 0 time time _ refl (omega arith)

played-progress_above :
    (chunks : List Chunk) (d : Chunk) (remaining : ℕ) (p : ActiveChunkProgress)
    → All (Before d) chunks
    → has d.index (progress_from remaining p chunks).played_indexes ≡ has d.index p.played_indexes
unfolding progress_from
played-progress_above [] d remaining p s = refl
played-progress_above (c ∷ cs) d remaining p s = ground (
  arith,
  played-progress_above cs d (remaining - c.duration_seconds) (mark_played c p) s.1,
  has-add c.index d.index p.played_indexes,
)

played-progress_from :
    (chunks : List Chunk) (c : Chunk) (remaining : ℕ) (p : ActiveChunkProgress)
    → IsIncreasing chunks
    → find_index c.index chunks ≡ some c
    → has c.index (progress_from remaining p chunks).played_indexes ≡ (
        has c.index p.played_indexes
        || leb (chunk_start_seconds chunks c.index + c.duration_seconds) remaining)
unfolding progress_from chunk_start_seconds
played-progress_from [] c remaining p s h = cc
played-progress_from (d ∷ ds) c remaining p s h = ground (
  arith,
  played-progress_from ds c (remaining - d.duration_seconds) (mark_played d p) s.1,
  played-progress_above ds d (remaining - d.duration_seconds) (mark_played d p) s.0,
  find_index-above d c ds s.0,
  has-add d.index c.index p.played_indexes,
)

-- Where the indexes of the run increase, one of its chunks counts as played exactly if the playhead
-- has reached the chunk's end.
pub played-iff-reached :
    (ready : List Chunk) (c : Chunk) (time : ℕ)
    → IsIncreasing ready
    → find_index c.index ready ≡ some c
    → has c.index (derive_active_chunk_progress ready (pos time)).played_indexes
      ≡ leb (chunk_start_seconds ready c.index + c.duration_seconds) time
unfolding derive_active_chunk_progress
played-iff-reached ready c time s h = played-progress_from ready c time _ s h
