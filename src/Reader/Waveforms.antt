-- ===== src/Reader/Waveforms.antt =====
-- web/src/hooks/useChunkWaveforms.ts: the queue that fetches the peaks of chunks, one at a time. What a fetch
-- and the parser give is an argument; a key is the pair that its text is made of.
pub mod Requested
mod Tests
use readflow.Common.{
  ℕ, Bool, true, false, not, ◌&&◌, ◌||◌, Option, none, some, List, [], ◌∷◌, ◌++◌, String, str_eq,
  if◌then◌else◌, or_else, ◌==◌,
}
use readflow.Common.Sets.{has, add, delete, get, put, nat_eq}
use readflow.Chunk.{Chunk}

abbrev pub peaks_key : Chunk → ℕ × String
peaks_key c = (c.version, or_else c.peaks_url "")

abbrev has_text : Option String → Bool
has_text none = false
has_text (some url) = not (str_eq url "")

-- `chunk.peaks_url` is given, and not empty.
abbrev pub has_peaks_url : Chunk → Bool
has_peaks_url c = has_text c.peaks_url

-- The refs of the hook and its state; `fetching` is the index and chunk of the fetch that is waited for.
pub record ChunkWaveforms (P : Type 0) : Type 0 where
  pub chunks : List Chunk
  pub fetched : List (ℕ × (ℕ × String))
  pub inflight : List ℕ
  pub queue : List ℕ
  pub is_processing : Bool
  pub fetching : Option (ℕ × Chunk)
  pub waveforms : List (ℕ × P)
  pub requests : List String

-- `find` by index.
abbrev pub find_chunk : ℕ → List Chunk → Option Chunk
find_chunk index [] = none
find_chunk index (c ∷ cs) = if c.index == index then some c else find_chunk index cs

abbrev key_eq : Option (ℕ × String) → ℕ × String → Bool
key_eq none key = false
key_eq (some (version, url)) key = (version == key.0) && str_eq url key.1

abbrev pub fetchable : Option Chunk → Option Chunk
fetchable none = none
fetchable (some c) = if has_peaks_url c then some c else none

abbrev pub is_empty : List ℕ → Bool
is_empty [] = true
is_empty (i ∷ queue) = false

module _ {P : Type 0} where
  abbrev pub is_fetched : Chunk → ChunkWaveforms P → Bool
  is_fetched c a = key_eq (get c.index a.fetched) (peaks_key c)

  abbrev pub fetch_or :
      Option Chunk → ℕ → List ℕ → ChunkWaveforms P → ChunkWaveforms P → ChunkWaveforms P
  fetch_or none index queue a rest = rest
  fetch_or (some c) index queue a rest = record a {
    queue = queue;
    inflight = add index a.inflight;
    fetching = some (index, c);
    requests = a.requests ++ or_else c.peaks_url "" ∷ [];
  }

  -- `processQueue` up to its next fetch, or its end.
  unfoldable pub process_queue : List ℕ → ChunkWaveforms P → ChunkWaveforms P
  process_queue [] a = record a { queue = []; is_processing = false; fetching = none }
  process_queue (index ∷ queue) a =
      let rest = process_queue queue a in
      fetch_or (fetchable (find_chunk index a.chunks)) index queue a rest

  abbrev stored : Option P → ℕ → Chunk → ChunkWaveforms P → ChunkWaveforms P
  stored none index c a = a
  stored (some peaks) index c a = record a {
    fetched = put index (peaks_key c) a.fetched;
    waveforms = put index peaks a.waveforms;
  }

  abbrev settle_fetch : Option (ℕ × Chunk) → Option P → ChunkWaveforms P → ChunkWaveforms P
  settle_fetch none result a = a
  settle_fetch (some (index, c)) result a =
      process_queue a.queue
        (record (stored result index c a) { inflight = delete index a.inflight; fetching = none })

  -- The fetch that is waited for is over, with the peaks or without.
  unfoldable pub settle : Option P → ChunkWaveforms P → ChunkWaveforms P
  settle result a = settle_fetch a.fetching result a

  abbrev pub wants : Chunk → List ℕ → ChunkWaveforms P → Bool
  wants c queue a =
      has_peaks_url c
      && not (is_fetched c a)
      && not (has c.index a.inflight)
      && not (has c.index queue)

  abbrev pub enqueue_all : List Chunk → List ℕ → ChunkWaveforms P → List ℕ
  enqueue_all [] queue a = queue
  enqueue_all (c ∷ cs) queue a =
      enqueue_all cs (if wants c queue a then queue ++ c.index ∷ [] else queue) a

  unfoldable pub enqueue : ChunkWaveforms P → ChunkWaveforms P
  enqueue a =
      let queue = enqueue_all a.chunks a.queue a in
      if not a.is_processing && not (is_empty queue)
      then process_queue queue (record a { queue = queue; is_processing = true })
      else record a { queue = queue }

  abbrev kept_peaks : Option P → ℕ → List (ℕ × P) → List (ℕ × P)
  kept_peaks none index kept = kept
  kept_peaks (some peaks) index kept = put index peaks kept

  -- The peaks of the takes that are still the current ones.
  abbrev pub reconciled : List Chunk → ChunkWaveforms P → List (ℕ × P)
  reconciled [] a = []
  reconciled (c ∷ cs) a =
      let kept = reconciled cs a in
      if has_peaks_url c && is_fetched c a
      then kept_peaks (get c.index a.waveforms) c.index kept
      else kept

  -- The effect of new chunks.
  unfoldable pub chunks_changed : List Chunk → ChunkWaveforms P → ChunkWaveforms P
  chunks_changed chunks a = enqueue (record a { chunks = chunks; waveforms = reconciled chunks a })
