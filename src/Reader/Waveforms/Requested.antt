-- ===== src/Reader/Waveforms/Requested.antt =====
-- Peaks that are missing are asked for.
use readflow.Common.{
  ℕ, ◌≡◌, refl, Bool, true, not, ◌&&◌, ◌||◌, some, List, [], ◌∷◌, ◌++◌, arith, Bool-cases, inl, inr,
  ap, ◌==◌, ==_iff, or_else, Option-cases,
}
use readflow.Common.Sets.{has, has-add, has-append, nat_eq}
use readflow.Chunk.{Chunk}
use readflow.Reader.Waveforms.{
  ChunkWaveforms, find_chunk, has_peaks_url, is_fetched, wants, enqueue_all, process_queue, enqueue,
  chunks_changed, fetchable, is_empty, reconciled,
}

module _ {P : Type 0} where
  -- The index is in the queue, or its fetch is under way.
  abbrev pub is_requested : ℕ → ChunkWaveforms P → Bool
  is_requested index a = has index a.queue || has index a.inflight

  enqueue_all_keeps :
      (index : ℕ) (cs : List Chunk) (queue : List ℕ) (a : ChunkWaveforms P)
      → has index queue ≡ true
      → has index (enqueue_all cs queue a) ≡ true
  enqueue_all_keeps index [] queue a queued = queued
  enqueue_all_keeps index (c ∷ cs) queue a queued =
      enqueue_all_keeps index cs _ a (ground (arith, has-append index queue (c.index ∷ [])))

  enqueue_first-queued :
      (c : Chunk) (cs : List Chunk) (queue : List ℕ) (a : ChunkWaveforms P)
      → has_peaks_url c ≡ true
      → (is_fetched c a || has c.index (enqueue_all (c ∷ cs) queue a) || has c.index a.inflight)
        ≡ true
  enqueue_first-queued c cs queue a url = elim (Bool-cases (wants c queue a)) [
    | inl wanted ↦ rw wanted (
        let queued =
          enqueue_all_keeps c.index cs (queue ++ c.index ∷ []) a
            (ground (arith, has-append c.index queue (c.index ∷ []))) in
        ground arith)
    | inr not_wanted ↦ rw not_wanted (ground (arith, enqueue_all_keeps c.index cs queue a))
  ]

  enqueue_all-queued :
      (c : Chunk) (cs : List Chunk) (queue : List ℕ) (a : ChunkWaveforms P)
      → find_chunk c.index cs ≡ some c
      → has_peaks_url c ≡ true
      → (is_fetched c a || has c.index (enqueue_all cs queue a) || has c.index a.inflight) ≡ true
  enqueue_all-queued c [] queue a found url = ground arith
  enqueue_all-queued c (d ∷ cs) queue a found url = elim (Bool-cases (d.index == c.index)) [
    | inl same ↦
        let first : some d ≡ some c = rw same at found in
        let it : d ≡ c = ap (λ o. or_else o c) first in
        rw it (enqueue_first-queued c cs queue a url)
    | inr other ↦ enqueue_all-queued c cs _ a (rw other at found) url
  ]

  process_queue-is_requested :
      (c : Chunk) (queue : List ℕ) (a : ChunkWaveforms P)
      → find_chunk c.index a.chunks ≡ some c
      → has_peaks_url c ≡ true
      → (has c.index queue || has c.index a.inflight) ≡ true
      → is_requested c.index (process_queue queue a) ≡ true
  unfolding process_queue
  process_queue-is_requested c [] a found url asked = ground arith
  process_queue-is_requested c (index ∷ queue) a found url asked =
      elim (Bool-cases (index == c.index)) [
        | inl same ↦
            let it : index ≡ c.index = (==_iff index c.index).0 same in
            rw (it, found, url) (ground (arith, has-add c.index c.index a.inflight))
        | inr other ↦ elim (Option-cases (fetchable (find_chunk index a.chunks))) [
          | inl none_there ↦
              rw none_there (process_queue-is_requested c queue a found url (ground arith))
          | inr (d, there) ↦ rw there (ground (arith, has-add index c.index a.inflight))
        ]
      ]

  enqueue-is_requested :
      (c : Chunk) (a : ChunkWaveforms P)
      → find_chunk c.index a.chunks ≡ some c
      → has_peaks_url c ≡ true
      → (is_fetched c a || is_requested c.index (enqueue a)) ≡ true
  unfolding enqueue
  enqueue-is_requested c a found url =
      let queue = enqueue_all a.chunks a.queue a in
      let queued = enqueue_all-queued c a.chunks a.queue a found url in
      elim (Bool-cases (is_fetched c a)) [
        | inl fetched ↦ rw fetched refl
        | inr missing ↦
            let asked : (has c.index queue || has c.index a.inflight) ≡ true =
              rw missing at queued in
            elim (Bool-cases (not a.is_processing && not (is_empty queue))) [
              | inl starts ↦
                  rw (missing, starts)
                    (process_queue-is_requested c queue
                      (record a { queue = queue; is_processing = true }) found url asked)
              | inr waits ↦ rw (missing, waits) asked
            ]
      ]

  -- After new chunks came, a chunk with an address for its peaks, that is the first of its index, has the
  -- peaks of its current take fetched already, or waits in the queue, or its fetch is under way.
  pub chunks_changed-is_requested :
      (chunks : List Chunk) (c : Chunk) (a : ChunkWaveforms P)
      → find_chunk c.index chunks ≡ some c
      → has_peaks_url c ≡ true
      → let b = chunks_changed chunks a in (is_fetched c a || is_requested c.index b) ≡ true
  unfolding chunks_changed
  chunks_changed-is_requested chunks c a found url =
      enqueue-is_requested c (record a { chunks = chunks; waveforms = reconciled chunks a }) found
        url
