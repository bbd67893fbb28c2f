-- ===== src/Reader/Timeline/Position.antt =====
-- From a chunk to its start and back.
use readflow.Common.{ℕ, ◌+◌, ◌<◌, ◌≡◌, refl, some, List, [], ◌∷◌, arith, All}
use readflow.Chunk.{Chunk}
use readflow.Reader.Active.Choice.{find_index}
use readflow.Reader.Active.Order.{Before, IsIncreasing, find_index-above}
use readflow.Reader.Timeline.{chunk_start_seconds, index_from, chunk_index_at_seconds, first_index}

chunk_start-above :
    (c : Chunk) (cs : List Chunk) → All (Before c) cs → chunk_start_seconds cs c.index ≡ 0
unfolding chunk_start_seconds
chunk_start-above c [] h = refl
chunk_start-above c (d ∷ ds) h = ground arith

-- A position inside the chunk at the head of what is left to scan.
pub index_from-stop :
    (i running seconds : ℕ) (chunks : List Chunk)
    → seconds < running
    → index_from i running seconds chunks ≡ i
unfolding index_from
index_from-stop i running seconds [] h = refl
index_from-stop i running seconds (c ∷ cs) h = ground arith

index_from-start :
    (chunks : List Chunk) (c : Chunk) (resolved running into seconds : ℕ)
    → IsIncreasing chunks
    → find_index c.index chunks ≡ some c
    → into < c.duration_seconds
    → seconds ≡ running + chunk_start_seconds chunks c.index + into
    → index_from resolved running seconds chunks ≡ c.index
unfolding index_from chunk_start_seconds
index_from-start [] c resolved running into seconds s h k e = cc
index_from-start (d ∷ ds) c resolved running into seconds s h k e = ground (
  arith,
  index_from-stop d.index (running + d.duration_seconds) seconds ds,
  index_from-start ds c d.index (running + d.duration_seconds) into seconds s.1,
  find_index-above d c ds s.0,
)

-- Any position within a chunk, from its start up to its end, resolves to that chunk, where the
-- indexes increase.
pub chunk_index_at-chunk_start :
    (active : List Chunk) (c : Chunk) (into : ℕ)
    → IsIncreasing active
    → find_index c.index active ≡ some c
    → into < c.duration_seconds
    → chunk_index_at_seconds active (chunk_start_seconds active c.index + into) ≡ c.index
unfolding chunk_index_at_seconds
chunk_index_at-chunk_start active c into s h k =
    index_from-start active c (first_index active) 0 into _ s h k (omega arith)
