-- ===== src/Reader/Playback.antt =====
-- The playback model of features/reader/reader-model.ts: `derivePlaybackModel`.
pub mod Run
pub mod Gap
use readflow.Common.{
  ℕ, suc, ◌+◌, Bool, true, false, ◌&&◌, ◌||◌, not, Option, none, some, List, [], ◌∷◌, String, leb,
  ltb, ◌==◌, if◌then◌else◌, keep, find, str_eq,
}
use readflow.Common.Sets.{get, add, nat_eq}
use readflow.Chunk.{Chunk, is_written, is_failed}
use readflow.Reader.Active.{is_active}

pub record ReaderPlaybackModel : Type 0 where
  pub anchored_chunks : List Chunk
  pub contiguous_ready_chunks : List Chunk
  pub active_contiguous_ready_indexes : List ℕ
  pub expected_next_chunk_index : Option ℕ
  pub written_after_gap_indexes : List ℕ
  pub missing_expected_indexes : List ℕ
  pub downloadable_chunks : List Chunk
  pub known_duration_seconds : ℕ
  pub anchor_offset_seconds : ℕ

unfoldable pub anchored : ℕ → List Chunk → List Chunk
anchored anchor known = keep (λ c. leb anchor c.index) known

-- The loop that stops at the first chunk that is not written.
unfoldable pub written_run : List Chunk → List Chunk
written_run [] = []
written_run (c ∷ cs) = let rest = c ∷ written_run cs in if is_written c.status then rest else []

active_indexes : List (ℕ × ℕ) → List ℕ → List Chunk → List ℕ
active_indexes versions found [] = found
active_indexes versions found (c ∷ cs) =
    active_indexes versions (if is_active versions c then add c.index found else found) cs

abbrev index_of : Option Chunk → Option ℕ
index_of none = none
index_of (some c) = some c.index

unfoldable pub expected_next : List Chunk → Option ℕ
expected_next active = index_of (find (λ c. not (is_written c.status)) active)

-- `chunk.index >= gapBoundary`, where the boundary is infinite if there is no gap.
abbrev pub beyond : Option ℕ → ℕ → Bool
beyond none i = false
beyond (some gap) i = leb gap i

unfoldable pub written_after_gap : Option ℕ → List ℕ → List Chunk → List ℕ
written_after_gap gap found [] = found
written_after_gap gap found (c ∷ cs) =
    written_after_gap gap
      (if beyond gap c.index && is_written c.status then add c.index found else found) cs

unfoldable pub missing_expected : List ℕ → List Chunk → List ℕ
missing_expected found [] = found
missing_expected found (c ∷ cs) =
    missing_expected
      (if not (is_written c.status) && not (is_failed c.status) then add c.index found else found)
      cs

-- A missing or empty URL is false in the test.
abbrev pub is_url : Option String → Bool
is_url none = false
is_url (some url) = not (str_eq url "")

-- `count` is the number of chunks taken so far.
abbrev pub can_download : ℕ → Chunk → Bool
can_download count c = c.index == count && is_written c.status && is_url c.segment_url

unfoldable pub downloadable : ℕ → List Chunk → List Chunk
downloadable count [] = []
downloadable count (c ∷ cs) =
    let rest = c ∷ downloadable (suc count) cs in if can_download count c then rest else []

unfoldable pub total_duration : List Chunk → ℕ
total_duration [] = 0
total_duration (c ∷ cs) = c.duration_seconds + total_duration cs

unfoldable pub offset_before : ℕ → List Chunk → ℕ
offset_before anchor [] = 0
offset_before anchor (c ∷ cs) =
    (if ltb c.index anchor then c.duration_seconds else 0) + offset_before anchor cs

unfoldable pub derive_playback_model :
    List Chunk → List Chunk → List (ℕ × ℕ) → ℕ → ReaderPlaybackModel
unfolding anchored written_run active_indexes expected_next written_after_gap missing_expected
    downloadable total_duration offset_before
derive_playback_model known active versions anchor = record {
  anchored_chunks = anchored anchor known;
  contiguous_ready_chunks = written_run (anchored anchor known);
  active_contiguous_ready_indexes =
      active_indexes versions [] (written_run (anchored anchor known));
  expected_next_chunk_index = expected_next active;
  written_after_gap_indexes = written_after_gap (expected_next active) [] active;
  missing_expected_indexes = missing_expected [] active;
  downloadable_chunks = downloadable 0 known;
  known_duration_seconds = total_duration known;
  anchor_offset_seconds = offset_before anchor known;
}
