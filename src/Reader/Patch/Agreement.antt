-- ===== src/Reader/Patch/Agreement.antt =====
-- The job detail and the media manifest stay in step under streamed patches.
use readflow.Common.{
  ℕ, ◌≡◌, refl, sym, ap, ◌∙◌, ◌⊎◌, inl, inr, Option, none, some, List, String, or_else, arith,
  if◌then◌else◌, or_option,
}
use readflow.Chunk.{Chunk, sort_chunks, upsert_chunk, is_version}
use readflow.Chunk.Order.{sort_chunks_idem, upsert_chunk-sort_chunks}
use readflow.Chunk.Upsert.{find_version, find_version-upsert_chunk}
use readflow.Api.{JobDetail, StreamJob, JobManifest}
use readflow.Reader.Patch.{
  StreamEventMeta, merge_job_patch, build_manifest_from_patch, merge_known_chunks, manifest_chunks,
  next_chunks, with_mime, manifest_mime,
}

-- A delta event, which carries at most one chunk and no chunk list, changes of the chunks only what
-- a look-up of that chunk's index and version gives, and leaves the source text as it is unless it
-- brings one.
pub merge_job_patch-delta :
    (current : JobDetail) (patch : StreamJob) (chunk : Chunk) (i v : ℕ)
    → patch.chunks ≡ none
    → patch.source_text ≡ none
    → (find_version i v (merge_job_patch current patch (some chunk)).chunks
        ≡ (if is_version i v chunk then some chunk else find_version i v current.chunks))
      × ((merge_job_patch current patch (some chunk)).source_text ≡ current.source_text)
      × ((merge_job_patch current patch none).chunks ≡ current.chunks)
unfolding merge_job_patch
merge_job_patch-delta current patch chunk i v h k =
    (rw h (find_version-upsert_chunk i v chunk current.chunks), rw k, rw h)

merged_chunks : List Chunk → Option (List Chunk) → Option Chunk → List Chunk
merged_chunks current patched none = or_else patched current
merged_chunks current patched (some chunk) = upsert_chunk (or_else patched current) chunk

chunks-merge_job_patch :
    (current : JobDetail) (patch : StreamJob) (chunk : Option Chunk)
    → (merge_job_patch current patch chunk).chunks ≡ merged_chunks current.chunks patch.chunks chunk
unfolding merge_job_patch merged_chunks
chunks-merge_job_patch current patch none = refl
chunks-merge_job_patch current patch (some chunk) = refl

sort_chunks-merged :
    (held listed : List Chunk) (patched : Option (List Chunk)) (chunk : Option Chunk)
    → sort_chunks held ≡ sort_chunks listed
    → (patched ≡ none) ⊎ (chunk ≡ none)
    → sort_chunks (next_chunks listed patched chunk)
      ≡ sort_chunks (merged_chunks held patched chunk)
unfolding next_chunks merged_chunks
sort_chunks-merged held listed none none h one = sym h
sort_chunks-merged held listed none (some c) h one = ap sort_chunks (
    sym (upsert_chunk-sort_chunks c listed)
    ∙ ap (λ cs. upsert_chunk cs c) (sym h)
    ∙ upsert_chunk-sort_chunks c held)
sort_chunks-merged held listed (some cs) none h one = sort_chunks_idem cs
sort_chunks-merged held listed (some cs) (some c) h (inl e) = cc
sort_chunks-merged held listed (some cs) (some c) h (inr e) = cc

known-with_mime :
    (job : JobDetail) (mime : Option String) (build : String → JobManifest)
    → ((m : String) → sort_chunks (build m).chunks ≡ sort_chunks job.chunks)
    → merge_known_chunks (some job) (with_mime mime build) ≡ sort_chunks job.chunks
unfolding merge_known_chunks with_mime
known-with_mime job none build h = refl
known-with_mime job (some m) build h = ground (arith, h m)

-- If the detail and the manifest hold the same chunks up to order, then after a streamed event the
-- reader's chunk list is the same whether it is read from the new manifest or from the new detail,
-- provided that the event does not carry a chunk list and a single chunk at once.
pub merge_known_chunks-agree :
    (job : JobDetail) (manifest : Option JobManifest) (patch : StreamJob) (chunk : Option Chunk)
    (meta : StreamEventMeta)
    → sort_chunks job.chunks ≡ sort_chunks (manifest_chunks manifest)
    → (patch.chunks ≡ none) ⊎ (chunk ≡ none)
    → merge_known_chunks
        (some (merge_job_patch job patch chunk))
        (build_manifest_from_patch manifest patch chunk meta)
      ≡ merge_known_chunks (some (merge_job_patch job patch chunk)) none
unfolding build_manifest_from_patch merge_known_chunks
merge_known_chunks-agree job manifest patch chunk meta h one =
    unfold merge_known_chunks in
    known-with_mime (merge_job_patch job patch chunk)
      (or_option meta.mime_type (manifest_mime manifest)) _
      λ m.
        sort_chunks-merged job.chunks (manifest_chunks manifest) patch.chunks chunk h one
        ∙ ap sort_chunks (sym (chunks-merge_job_patch job patch chunk))
