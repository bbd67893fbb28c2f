-- ===== src/Chunk.antt =====
-- Chunks and their versions: types/api.ts (`Chunk`, `ChunkStatus`, `JobStatus`) and
-- features/reader/chunk-utils.ts, both under web/src. A time of x seconds is the number 1000 x.
pub mod Order
pub mod Upsert
pub mod Versions
use readflow.Common.{
  ℕ, ◌+◌, Bool, true, false, ◌&&◌, ◌||◌, not, Option, none, some, List, [], ◌∷◌, ◌++◌, String, leb,
  ltb, ◌==◌, if◌then◌else◌, keep,
}
use readflow.Common.Sort.{sort_by}
use readflow.Common.Sets.{get, put, nat_eq}
use readflow.Common.Int.{ℤ, pos, negsuc, ltb_ℤ}

pub data JobStatus : Type 0 where
  queued rendering paused playing completed failed : JobStatus

pub data ChunkStatus : Type 0 where
  planned queued rendering written stale failed reprocessing max_retries_exceeded : ChunkStatus

pub record Chunk : Type 0 where
  pub index : ℕ
  pub status : ChunkStatus
  pub duration_seconds : ℕ
  pub start_seconds : ℕ
  pub plan_version : ℕ
  pub version : ℕ
  pub voice_id : String
  pub segment_url : Option String
  pub peaks_url : Option String
  pub deprecated : Bool
  pub reprocessing : Bool
  pub char_start : ℕ
  pub char_end : ℕ

-- `chunk.status === "written"`, and so on.
abbrev pub is_written : ChunkStatus → Bool
is_written ChunkStatus.written = true
is_written _ = false

abbrev pub is_failed : ChunkStatus → Bool
is_failed ChunkStatus.failed = true
is_failed _ = false

abbrev pub is_max_retries : ChunkStatus → Bool
is_max_retries ChunkStatus.max_retries_exceeded = true
is_max_retries _ = false

abbrev job_status_eqb : JobStatus → JobStatus → Bool
job_status_eqb JobStatus.queued JobStatus.queued = true
job_status_eqb JobStatus.rendering JobStatus.rendering = true
job_status_eqb JobStatus.paused JobStatus.paused = true
job_status_eqb JobStatus.playing JobStatus.playing = true
job_status_eqb JobStatus.completed JobStatus.completed = true
job_status_eqb JobStatus.failed JobStatus.failed = true
job_status_eqb _ _ = false

abbrev terminal_job_statuses : List JobStatus
terminal_job_statuses = JobStatus.completed ∷ JobStatus.failed ∷ []

-- `list.includes(status)`.
includes : JobStatus → List JobStatus → Bool
includes s [] = false
includes s (t ∷ ts) = job_status_eqb t s || includes s ts

unfoldable pub is_terminal_status : Option JobStatus → Bool
unfolding includes
is_terminal_status none = false
is_terminal_status (some s) = includes s terminal_job_statuses

-- `left.index - right.index` is at most 0.
abbrev pub index_le : Chunk → Chunk → Bool
index_le left right = leb left.index right.index

unfoldable pub sort_chunks : List Chunk → List Chunk
unfolding sort_by
sort_chunks chunks = sort_by index_le chunks

abbrev pub is_version : ℕ → ℕ → Chunk → Bool
is_version i v chunk = chunk.index == i && chunk.version == v

-- `filter` drops the old take, `push` puts the new one at the end.
unfoldable pub upsert_chunk : List Chunk → Chunk → List Chunk
unfolding sort_chunks
upsert_chunk chunks incoming =
    sort_chunks
      (keep (λ c. not (is_version incoming.index incoming.version c)) chunks ++ incoming ∷ [])

-- The body of the loop of `deriveActiveVersions`.
abbrev record_version : List (ℕ × ℕ) → Chunk → List (ℕ × ℕ)
record_version versions chunk = elim (get chunk.index versions) [
  | none ↦ put chunk.index chunk.version versions
  | some existing ↦
      if ltb existing chunk.version then put chunk.index chunk.version versions else versions
]

versions_from : List (ℕ × ℕ) → List Chunk → List (ℕ × ℕ)
versions_from versions [] = versions
versions_from versions (chunk ∷ chunks) = versions_from (record_version versions chunk) chunks

unfoldable pub derive_active_versions : List Chunk → List (ℕ × ℕ)
unfolding versions_from
derive_active_versions chunks = versions_from [] chunks

latest_from : ℕ → ℤ → List Chunk → ℤ
latest_from i most [] = most
latest_from i most (chunk ∷ chunks) =
    latest_from i
      (if chunk.index == i && ltb_ℤ most (pos chunk.version) then pos chunk.version else most)
      chunks

unfoldable pub get_latest_version : List Chunk → ℕ → ℤ
unfolding latest_from
get_latest_version chunks i = latest_from i (negsuc 0) chunks

unfoldable pub get_retry_count : ChunkStatus → ℕ → ℕ
get_retry_count status version = if is_max_retries status then 3 else version
