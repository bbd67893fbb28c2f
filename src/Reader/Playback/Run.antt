-- ===== src/Reader/Playback/Run.antt =====
-- The run of chunks that can play, and the range that can be downloaded.
use readflow.Common.{
  ℕ, suc, ◌≡◌, refl, ap, inl, inr, true, false, List, [], ◌∷◌, ◌++◌, arith, leb, All, Bool-cases,
  All-keep_self,
}
use readflow.Chunk.{Chunk, is_written}
use readflow.Reader.Playback.{
  derive_playback_model, anchored, written_run, downloadable, can_download, is_url,
}

abbrev pub IsWritten : Chunk → Type 0
IsWritten c = is_written c.status ≡ true

-- A list that is empty or begins with a chunk that is not written.
abbrev pub StartsUnwritten : List Chunk → Type 0
StartsUnwritten [] = Unit
StartsUnwritten (c ∷ cs) = is_written c.status ≡ false

-- The longest prefix of written chunks.
abbrev pub IsWrittenRun : List Chunk → List Chunk → Type 0
IsWrittenRun run chunks =
    (rest : List Chunk) × (run ++ rest ≡ chunks) × All IsWritten run × StartsUnwritten rest

written_run_lem : (chunks : List Chunk) → IsWrittenRun (written_run chunks) chunks
unfolding written_run
written_run_lem [] = ([], refl, tt, tt)
written_run_lem (c ∷ cs) = elim (Bool-cases (is_written c.status)) [
  | inl w ↦
      let (rest, whole, written, stop) = written_run_lem cs in
      rw w (rest, ap (◌∷◌ c) whole, (w, written), stop)
  | inr w ↦ rw w (c ∷ cs, refl, tt, w)
]

-- What the stream may contain is the longest run of written chunks from the anchor on: a prefix of
-- the chunks at or behind the anchor, all written, and followed by nothing or by one that is not.
pub contiguous_ready-IsWrittenRun :
    (known active : List Chunk) (versions : List (ℕ × ℕ)) (anchor : ℕ)
    → let m = derive_playback_model known active versions anchor in
      IsWrittenRun m.contiguous_ready_chunks m.anchored_chunks
      × All (λ c. leb anchor c.index ≡ true) m.anchored_chunks
unfolding derive_playback_model
contiguous_ready-IsWrittenRun known active versions anchor =
    (written_run_lem (anchored anchor known), All-keep_self (λ c. leb anchor c.index) known)

-- Numbered from `n` on without a hole, written, and with a segment to fetch.
abbrev pub IsDownload : ℕ → List Chunk → Type 0
IsDownload n [] = Unit
IsDownload n (c ∷ cs) =
    (c.index ≡ n) × IsWritten c × (is_url c.segment_url ≡ true) × IsDownload (suc n) cs

-- A download numbered from `n` on stops at the first chunk that has another number, is not written,
-- or has no segment.
abbrev pub StopsDownload : ℕ → List Chunk → List Chunk → Type 0
StopsDownload n [] [] = Unit
StopsDownload n [] (d ∷ rest) = can_download n d ≡ false
StopsDownload n (c ∷ cs) rest = StopsDownload (suc n) cs rest

downloadable_lem :
    (n : ℕ) (chunks : List Chunk)
    → IsDownload n (downloadable n chunks)
      × ((rest : List Chunk) × (downloadable n chunks ++ rest ≡ chunks)
          × StopsDownload n (downloadable n chunks) rest)
unfolding downloadable
downloadable_lem n [] = (tt, ([], refl, tt))
downloadable_lem n (c ∷ cs) = elim (Bool-cases (can_download n c)) [
  | inl t ↦
      let (fits, (rest, whole, stop)) = downloadable_lem (suc n) cs in
      rw t ((ground arith, ground arith, ground arith, fits), (rest, ap (◌∷◌ c) whole, stop))
  | inr t ↦ rw t (tt, (c ∷ cs, refl, t))
]

-- The download range is the longest prefix of the known chunks that is numbered 0, 1, 2, …, written,
-- and has a segment for each chunk.
pub downloadable-IsDownload :
    (known active : List Chunk) (versions : List (ℕ × ℕ)) (anchor : ℕ)
    → let m = derive_playback_model known active versions anchor in
      IsDownload 0 m.downloadable_chunks
      × ((rest : List Chunk) × (m.downloadable_chunks ++ rest ≡ known)
          × StopsDownload 0 m.downloadable_chunks rest)
unfolding derive_playback_model
downloadable-IsDownload known active versions anchor = downloadable_lem 0 known
