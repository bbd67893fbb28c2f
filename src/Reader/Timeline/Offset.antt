-- ===== src/Reader/Timeline/Offset.antt =====
-- The anchor offset takes stream positions to timeline positions.
use readflow.Common.{
  subst, ℕ, ◌+◌, ◌≤◌, ◌≡◌, refl, inl, inr, true, some, List, [], ◌∷◌, map, arith, leb, All,
  Bool-cases,
}
use readflow.Chunk.{Chunk, index_le}
use readflow.Chunk.Order.{IsTimeline}
use readflow.Api.{JobManifest}
use readflow.Reader.Playback.{derive_playback_model, anchored, written_run, offset_before}
use readflow.Reader.Timeline.{normalized, build_stream_manifest, chunk_start_seconds}

offset_before-above :
    (c : Chunk) (cs : List Chunk) (i : ℕ)
    → i ≤ c.index
    → All (λ d. index_le c d ≡ true) cs
    → (offset_before i cs ≡ 0) × (anchored i cs ≡ cs)
unfolding offset_before anchored
offset_before-above c [] i h s = (refl, refl)
offset_before-above c (d ∷ ds) i h s = ground (arith, offset_before-above c ds i h s.1)

offset_before_lem :
    (chunks : List Chunk) (i : ℕ)
    → IsTimeline chunks
    → offset_before i chunks ≡ chunk_start_seconds chunks i
unfolding offset_before chunk_start_seconds
offset_before_lem [] i s = refl
offset_before_lem (c ∷ cs) i s =
    ground (arith, offset_before_lem cs i s.1, offset_before-above c cs i)

-- Each chunk starts where the one before it ends, the first at `t`.
abbrev pub HasStartsFrom : ℕ → List Chunk → Type 0
HasStartsFrom t [] = Unit
HasStartsFrom t (c ∷ cs) = (c.start_seconds ≡ t) × HasStartsFrom (t + c.duration_seconds) cs

anchored-HasStartsFrom :
    (chunks : List Chunk) (anchor t : ℕ)
    → IsTimeline chunks
    → HasStartsFrom t chunks
    → HasStartsFrom (t + offset_before anchor chunks) (anchored anchor chunks)
unfolding offset_before anchored
anchored-HasStartsFrom [] anchor t s h = tt
anchored-HasStartsFrom (c ∷ cs) anchor t s h = elim (Bool-cases (leb anchor c.index)) [
  | inl e ↦
      let (none_before, whole) = offset_before-above c cs anchor (ground arith) s.0 in
      let at : t + offset_before anchor (c ∷ cs) ≡ t = ground arith in rw (at, e, whole) h
  | inr e ↦
      let ih = anchored-HasStartsFrom cs anchor (t + c.duration_seconds) s.1 h.1 in
      let at : t + offset_before anchor (c ∷ cs)
          ≡ t + c.duration_seconds + offset_before anchor cs =
        ground arith in
      rw (at, e) ih
]

written_run-HasStartsFrom :
    (chunks : List Chunk) (t : ℕ) → HasStartsFrom t chunks → HasStartsFrom t (written_run chunks)
unfolding written_run
written_run-HasStartsFrom [] t h = tt
written_run-HasStartsFrom (c ∷ cs) t h =
    ground (arith, written_run-HasStartsFrom cs (t + c.duration_seconds) h.1)

normalized-HasStartsFrom : (chunks : List Chunk) (t : ℕ) → HasStartsFrom t (normalized t chunks)
unfolding normalized
normalized-HasStartsFrom [] t = tt
normalized-HasStartsFrom (c ∷ cs) t = (refl, normalized-HasStartsFrom cs (t + c.duration_seconds))

-- A chunk of the stream, at the offset, is the chunk of the timeline.
abbrev pub shift : ℕ → Chunk → Chunk
shift t c = record c { start_seconds = c.start_seconds + t }

shift-normalized :
    (chunks : List Chunk) (offset running : ℕ)
    → HasStartsFrom (offset + running) chunks
    → map (shift offset) (normalized running chunks) ≡ chunks
unfolding normalized
shift-normalized [] offset running h = refl
shift-normalized (c ∷ cs) offset running h =
    let more : offset + running + c.duration_seconds ≡ offset + (running + c.duration_seconds) =
      omega arith in
    let ih =
      shift-normalized cs offset (running + c.duration_seconds)
        (subst (λ t. HasStartsFrom t cs) more h.1) in
    ground (arith, ih)

-- Where the known chunks are in timeline order and start one after the other from 0, the anchor
-- offset is the timeline start of the anchor, and adding it to the starts of the stream's chunks
-- gives back the chunks of the timeline unchanged.
pub build_stream_manifest-offset :
    (known active : List Chunk) (versions : List (ℕ × ℕ)) (anchor : ℕ) (full : JobManifest)
    → IsTimeline known
    → HasStartsFrom 0 known
    → let m = derive_playback_model known active versions anchor in
      (m.anchor_offset_seconds ≡ chunk_start_seconds known anchor)
      × ((stream : JobManifest) × (build_stream_manifest (some full) m.contiguous_ready_chunks
            ≡ some stream)
          × (map (shift m.anchor_offset_seconds) stream.chunks ≡ m.contiguous_ready_chunks)
          × HasStartsFrom 0 stream.chunks)
unfolding derive_playback_model build_stream_manifest
build_stream_manifest-offset known active versions anchor full s h =
    let run = written_run (anchored anchor known) in
    let offset = offset_before anchor known in
    (
      offset_before_lem known anchor s,
      (
        record full { chunks = normalized 0 run },
        refl,
        shift-normalized run offset 0 (
            subst (λ t. HasStartsFrom t run) (omega arith)
              (written_run-HasStartsFrom (anchored anchor known) (0 + offset)
                (anchored-HasStartsFrom known anchor 0 s h))),
        normalized-HasStartsFrom run 0,
      ),
    )
