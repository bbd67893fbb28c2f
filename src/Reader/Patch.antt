-- ===== src/Reader/Patch.antt =====
-- Stream payloads of features/reader/reader-model.ts: `mergeJobPatch`, `buildManifestFromPatch` and
-- `mergeKnownChunks`, and `hasFullDetail` of types/events.ts.
pub mod Agreement
use readflow.Common.{
  ℕ, Bool, true, false, ◌&&◌, Option, none, some, List, [], ◌∷◌, String, or_else, or_option,
  if◌then◌else◌, str_eq,
}
use readflow.Chunk.{Chunk, sort_chunks, upsert_chunk}
use readflow.Api.{JobSummary, JobDetail, StreamJob, JobManifest}

-- An absent field of the meta data is `none`; `init_segment_url` may be there and null.
pub record StreamEventMeta : Type 0 where
  pub mime_type : Option String
  pub init_segment_url : Option (Option String)

abbrev is_given {ℓ} : {A : Type ℓ} → Option A → Bool
is_given none = false
is_given (some a) = true

unfoldable pub has_full_detail : StreamJob → Bool
has_full_detail job = is_given job.chunks && is_given job.source_text

-- The spread of a summary with its two optional fields.
pub merge_summary : JobSummary → JobSummary → JobSummary
merge_summary current patch = record patch {
  folder_id = or_option patch.folder_id current.folder_id;
  progress = or_option patch.progress current.progress;
}

-- `{ ...current, ...patch, chunks: patch.chunks ?? current.chunks }`.
pub merge_fields : JobDetail → StreamJob → JobDetail
merge_fields current patch = record {
  summary = merge_summary current.summary patch.summary;
  source_kind = or_else patch.source_kind current.source_kind;
  source_text = or_else patch.source_text current.source_text;
  plan_version = or_else patch.plan_version current.plan_version;
  chunks = or_else patch.chunks current.chunks;
  failed_reason = or_else patch.failed_reason current.failed_reason;
  active_chunk_version = or_option patch.active_chunk_version current.active_chunk_version;
  audio_epoch = or_else patch.audio_epoch current.audio_epoch;
  folder_path = or_option patch.folder_path current.folder_path;
  previous_job_id = or_option patch.previous_job_id current.previous_job_id;
  next_job_id = or_option patch.next_job_id current.next_job_id;
  folder_index = or_option patch.folder_index current.folder_index;
  folder_count = or_option patch.folder_count current.folder_count;
  previous_job_title = or_option patch.previous_job_title current.previous_job_title;
  next_job_title = or_option patch.next_job_title current.next_job_title;
}

unfoldable pub merge_job_patch : JobDetail → StreamJob → Option Chunk → JobDetail
unfolding merge_fields merge_summary
merge_job_patch current patch none = merge_fields current patch
merge_job_patch current patch (some chunk) =
    let merged = merge_fields current patch in
    record merged { chunks = upsert_chunk merged.chunks chunk }

-- `previousManifest?.chunks ?? []`.
abbrev manifest_chunks : Option JobManifest → List Chunk
manifest_chunks none = []
manifest_chunks (some m) = m.chunks

abbrev manifest_mime : Option JobManifest → Option String
manifest_mime none = none
manifest_mime (some m) = some m.mime_type

abbrev manifest_init_url : Option JobManifest → Option String
manifest_init_url none = none
manifest_init_url (some m) = m.init_segment_url

abbrev manifest_epoch : Option JobManifest → ℕ
manifest_epoch none = 0
manifest_epoch (some m) = m.audio_epoch

next_chunks : List Chunk → Option (List Chunk) → Option Chunk → List Chunk
next_chunks previous (some patched) chunk = sort_chunks patched
next_chunks previous none (some chunk) = upsert_chunk previous chunk
next_chunks previous none none = previous

-- A missing and an empty mime type both give no manifest.
with_mime : Option String → (String → JobManifest) → Option JobManifest
with_mime none build = none
with_mime (some mime) build = if str_eq mime "" then none else some (build mime)

unfoldable pub build_manifest_from_patch :
    Option JobManifest → StreamJob → Option Chunk → StreamEventMeta → Option JobManifest
unfolding next_chunks with_mime
build_manifest_from_patch previous patch chunk meta =
    with_mime (or_option meta.mime_type (manifest_mime previous)) λ mime. record {
      mime_type = mime;
      init_segment_url = or_else meta.init_segment_url (manifest_init_url previous);
      chunks = next_chunks (manifest_chunks previous) patch.chunks chunk;
      audio_epoch = or_else patch.audio_epoch (manifest_epoch previous);
    }

-- The manifest wins over the job detail.
unfoldable pub merge_known_chunks : Option JobDetail → Option JobManifest → List Chunk
merge_known_chunks job (some manifest) = sort_chunks manifest.chunks
merge_known_chunks (some job) none = sort_chunks job.chunks
merge_known_chunks none none = []
