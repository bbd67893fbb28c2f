-- ===== src/Reader/Tests.antt =====
-- The reader's theorems at a small book of four chunks, and runs of the model.
use readflow.Common.{
  ◌-◌, ◌*◌, ℕ, ◌+◌, ◌≡◌, refl, inl, true, false, none, some, List, [], ◌∷◌, arith, All, map, take,
}
use readflow.Common.Sets.{add, get, nat_eq}
use readflow.Common.Int.{pos, negsuc}
use readflow.Chunk.{
  Chunk, ChunkStatus, JobStatus, upsert_chunk, get_latest_version, sort_chunks,
  derive_active_versions,
}
use readflow.Chunk.Order.{IsTimeline}
use readflow.Chunk.Upsert.{IsDistinct, find_version, find_version-upsert_chunk}
use readflow.Api.{JobSummary, JobDetail, StreamJob, JobManifest}
use readflow.Reader.Patch.{
  merge_job_patch, merge_known_chunks, build_manifest_from_patch, StreamEventMeta,
}
use readflow.Reader.Patch.Agreement.{merge_known_chunks-agree}
use readflow.Reader.Active.{derive_active_chunks, derive_active_version_map, server_versions}
use readflow.Reader.Active.Choice.{find_index, find-derive_active_chunks}
use readflow.Reader.Active.Order.{
  IsIncreasing, derive_active_chunks-IsIncreasing, derive_active_chunks_complete,
}
use readflow.Reader.Playback.{derive_playback_model}
use readflow.Reader.Timeline.{chunk_start_seconds, build_stream_manifest}
use readflow.Reader.Progress.{resume_position_seconds, derive_active_chunk_progress, progress_from}
use readflow.Reader.Progress.Signature.{chunk_state_signature, chunk_state_signature-played}
use readflow.Reader.Timeline.Offset.{shift, HasStartsFrom, build_stream_manifest-offset}
use readflow.Reader.Text.Whole.{shown_text, hidden_text, build_reader_text_segments-whole}
use readflow.Reader.Text.{build_reader_text_segments, segments_from, upcoming_segment, slice}

abbrev take_of : ℕ → ℕ → ChunkStatus → ℕ → ℕ → Chunk
take_of i v status duration start = record {
  index = i;
  status = status;
  duration_seconds = duration;
  start_seconds = start;
  plan_version = 1;
  version = v;
  voice_id = "suzy";
  segment_url = some "/media/seg";
  peaks_url = none;
  deprecated = false;
  reprocessing = false;
  char_start = i * 10;
  char_end = i * 10 + 10;
}

abbrev first : Chunk
first = take_of 0 0 ChunkStatus.written 3000 0

abbrev second : Chunk
second = take_of 1 0 ChunkStatus.written 2000 3000

abbrev third : Chunk
third = take_of 2 0 ChunkStatus.rendering 4000 5000

abbrev fourth : Chunk
fourth = take_of 3 0 ChunkStatus.written 1000 9000

abbrev book : List Chunk
book = first ∷ second ∷ third ∷ fourth ∷ []

abbrev retake : Chunk
retake = take_of 1 1 ChunkStatus.written 2500 3000

upsert_run : upsert_chunk (fourth ∷ first ∷ []) retake ≡ first ∷ retake ∷ fourth ∷ []
unfolding upsert_chunk
upsert_run = refl

latest_run : get_latest_version (retake ∷ book) 1 ≡ pos 1
unfolding get_latest_version
latest_run = refl

absent_run : get_latest_version book 9 ≡ negsuc 0
unfolding get_latest_version
absent_run = refl

find_version-upsert_chunk_example : find_version 1 1 (upsert_chunk book retake) ≡ some retake
find_version-upsert_chunk_example = find_version-upsert_chunk 1 1 retake book

book-IsDistinct : IsDistinct book
book-IsDistinct = ground arith

book-IsTimeline : IsTimeline book
book-IsTimeline = ground arith

abbrev sample_summary : JobSummary
sample_summary = record {
  id = "j1";
  title = some "A book";
  status = JobStatus.rendering;
  voice_id = "suzy";
  model_id = "small";
  is_active_listening = true;
  render_to_end = false;
  total_chunks_emitted = 4;
  total_chunks_completed = 3;
  buffered_seconds = 5000;
  completed_seconds = 6000;
  folder_id = none;
  progress = none;
}

abbrev sample_detail : JobDetail
sample_detail = record {
  summary = sample_summary;
  source_kind = "text";
  source_text = "words";
  plan_version = 1;
  chunks = book;
  failed_reason = none;
  active_chunk_version = none;
  audio_epoch = 0;
  folder_path = none;
  previous_job_id = none;
  next_job_id = none;
  folder_index = none;
  folder_count = none;
  previous_job_title = none;
  next_job_title = none;
}

-- A streamed summary with no field of the detail.
abbrev delta : StreamJob
delta = record {
  summary = sample_summary;
  source_kind = none;
  source_text = none;
  plan_version = none;
  chunks = none;
  failed_reason = none;
  active_chunk_version = none;
  audio_epoch = none;
  folder_path = none;
  previous_job_id = none;
  next_job_id = none;
  folder_index = none;
  folder_count = none;
  previous_job_title = none;
  next_job_title = none;
}

abbrev sample_manifest : JobManifest
sample_manifest = record {
  mime_type = "audio/mp4";
  init_segment_url = some "/media/init";
  chunks = book;
  audio_epoch = 0;
}

abbrev no_meta : StreamEventMeta
no_meta = record { mime_type = none; init_segment_url = none }

merge_known_chunks-agree_example :
    merge_known_chunks
      (some (merge_job_patch sample_detail delta (some retake)))
      (build_manifest_from_patch (some sample_manifest) delta (some retake) no_meta)
    ≡ merge_known_chunks (some (merge_job_patch sample_detail delta (some retake))) none
merge_known_chunks-agree_example =
    merge_known_chunks-agree sample_detail (some sample_manifest) delta (some retake) no_meta refl
      (inl refl)

derive_active_chunks-IsIncreasing_example :
    IsIncreasing (derive_active_chunks book (derive_active_version_map book none))
    × All
        (λ c. get c.index (derive_active_version_map book none) ≡ some c.version)
        (derive_active_chunks book (derive_active_version_map book none))
derive_active_chunks-IsIncreasing_example =
    derive_active_chunks-IsIncreasing book (derive_active_version_map book none) book-IsTimeline

derive_active_chunks_complete_example :
    let takes = first ∷ second ∷ retake ∷ [] in
    find_index 1 (derive_active_chunks takes (derive_active_version_map takes (some ((1, 0) ∷ []))))
    ≡ find_version 1 0 takes
unfolding server_versions derive_active_version_map
derive_active_chunks_complete_example =
    derive_active_chunks_complete (first ∷ second ∷ retake ∷ []) (some ((1, 0) ∷ [])) 1 refl

-- The server names the take before the newest one, then none, and then one that is not known.
derive_active_chunks_run :
    let takes = first ∷ second ∷ retake ∷ [] in
    let shown = λ (server : List (ℕ × ℕ)).
      find_index 1 (derive_active_chunks takes (derive_active_version_map takes (some server))) in
    (shown ((1, 0) ∷ []) ≡ some second)
    × (shown ((0, 0) ∷ []) ≡ some retake)
    × (shown ((1, 2) ∷ []) ≡ none)
unfolding derive_active_chunks derive_active_version_map server_versions derive_active_versions add
derive_active_chunks_run = (refl, refl, refl)

abbrev zero_versions : List (ℕ × ℕ)
zero_versions = (0, 0) ∷ (1, 0) ∷ (2, 0) ∷ (3, 0) ∷ []

build_stream_manifest-offset_example :
    (6000 - 1000 ≡ chunk_start_seconds book 2)
    × ((stream : JobManifest) × (build_stream_manifest (some sample_manifest) [] ≡ some stream)
        × (map (shift 5000) stream.chunks ≡ [])
        × HasStartsFrom 0 stream.chunks)
unfolding derive_playback_model
build_stream_manifest-offset_example =
    build_stream_manifest-offset book book zero_versions 2 sample_manifest book-IsTimeline
      (omega arith)

resume_run :
    (resume_position_seconds (some 9000) 10000 true ≡ 0)
    × (resume_position_seconds (some 9000) 10000 false ≡ 9000)
unfolding resume_position_seconds
resume_run = (refl, refl)

find-derive_active_chunks_example :
    find_index 1 (derive_active_chunks (retake ∷ book) zero_versions) ≡ some second
find-derive_active_chunks_example = find-derive_active_chunks (retake ∷ book) zero_versions 1

-- Two chunks with a gap between them, over a text of numbers in place of characters.
abbrev spaced : List Chunk
spaced =
    record (take_of 0 1 ChunkStatus.written 4000 0) { char_start = 1; char_end = 2 }
    ∷ record (take_of 0 1 ChunkStatus.written 4000 0) { char_start = 3; char_end = 4 }
    ∷ []

build_reader_text_segments-whole_example :
    shown_text (build_reader_text_segments {A = ℕ} spaced (7 ∷ 8 ∷ 9 ∷ 10 ∷ 11 ∷ []))
    ≡ take
        (5 - hidden_text (build_reader_text_segments {A = ℕ} spaced (7 ∷ 8 ∷ 9 ∷ 10 ∷ 11 ∷ [])))
        (7 ∷ 8 ∷ 9 ∷ 10 ∷ 11 ∷ [])
build_reader_text_segments-whole_example =
    build_reader_text_segments-whole spaced (7 ∷ 8 ∷ 9 ∷ 10 ∷ 11 ∷ [])

segments_run :
    map (λ s. s.text) (build_reader_text_segments {A = ℕ} spaced (7 ∷ 8 ∷ 9 ∷ 10 ∷ 11 ∷ []))
    ≡ (7 ∷ []) ∷ (8 ∷ []) ∷ (9 ∷ []) ∷ (10 ∷ []) ∷ (11 ∷ []) ∷ []
unfolding build_reader_text_segments segments_from upcoming_segment slice sort_chunks
segments_run = refl

chunk_state_signature-played_example :
    (derive_active_chunk_progress (first ∷ second ∷ []) (pos 4000)).played_indexes
    ≡ (derive_active_chunk_progress (first ∷ second ∷ third ∷ []) (pos 3500)).played_indexes
unfolding chunk_state_signature derive_active_chunk_progress progress_from
chunk_state_signature-played_example =
    chunk_state_signature-played 0 0 1 (first ∷ second ∷ []) (first ∷ second ∷ third ∷ [])
      (pos 4000) (pos 3500) (refl, (refl, tt)) (refl, (refl, (refl, tt))) refl refl

-- Two runs that are played to their ends, with one signature.
signature_run :
    let early = derive_active_chunk_progress (first ∷ second ∷ []) (pos 9000) in
    let late =
      derive_active_chunk_progress
        (fourth ∷ take_of 4 0 ChunkStatus.written 1000 10000 ∷ [])
        (pos 9000) in
    (chunk_state_signature early ≡ chunk_state_signature late)
    × (early.played_indexes ≡ 0 ∷ 1 ∷ [])
    × (late.played_indexes ≡ 3 ∷ 4 ∷ [])
unfolding chunk_state_signature derive_active_chunk_progress progress_from add
signature_run = (refl, refl, refl)
