-- ===== src/Reader/Timeline.antt =====
-- Stream and timeline coordinates of features/reader/reader-model.ts: `buildStreamManifest`,
-- `chunkStartSeconds` and `chunkIndexAtSeconds`.
pub mod Offset
pub mod Position
use readflow.Common.{
  ℕ, ◌+◌, Bool, true, false, Option, none, some, List, [], ◌∷◌, leb, ltb, if◌then◌else◌, or_else,
}
use readflow.Chunk.{Chunk}
use readflow.Api.{JobManifest}

-- The callback of `map`, with `runningStart`.
unfoldable pub normalized : ℕ → List Chunk → List Chunk
normalized running_start [] = []
normalized running_start (c ∷ cs) =
    record c { start_seconds = running_start } ∷ normalized (running_start + c.duration_seconds) cs

unfoldable pub build_stream_manifest : Option JobManifest → List Chunk → Option JobManifest
unfolding normalized
build_stream_manifest none ready = none
build_stream_manifest (some full) ready = some (record full { chunks = normalized 0 ready })

unfoldable pub chunk_start_seconds : List Chunk → ℕ → ℕ
chunk_start_seconds [] i = 0
chunk_start_seconds (c ∷ cs) i =
    let rest = c.duration_seconds + chunk_start_seconds cs i in if leb i c.index then 0 else rest

unfoldable pub index_from : ℕ → ℕ → ℕ → List Chunk → ℕ
index_from resolved running_start seconds [] = resolved
index_from resolved running_start seconds (c ∷ cs) =
    let rest = index_from c.index (running_start + c.duration_seconds) seconds cs in
    if ltb seconds running_start then resolved else rest

abbrev pub first_index : List Chunk → ℕ
first_index [] = 0
first_index (c ∷ cs) = c.index

-- `seconds` is not negative here; for a negative one the code gives the first index.
unfoldable pub chunk_index_at_seconds : List Chunk → ℕ → ℕ
unfolding index_from
chunk_index_at_seconds chunks seconds = index_from (first_index chunks) 0 seconds chunks
