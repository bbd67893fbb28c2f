-- ===== src/Api.antt =====
-- The server's payloads: web/src/types/api.ts and the streamed job of web/src/types/events.ts.
-- An optional field is an `Option`; an optional field that may be null is an `Option` of an `Option`.
-- Times are in thousandths of a second, and a fraction of progress is in thousandths.
use readflow.Common.{ℕ, Bool, Option, List, String}
use readflow.Chunk.{Chunk, JobStatus}

pub data ReadStatus : Type 0 where
  unread in_progress read : ReadStatus

pub record JobProgress : Type 0 where
  pub fraction : ℕ
  pub read_status : ReadStatus
  pub heard_chunks : List ℕ
  pub remaining_seconds : ℕ
  pub position_seconds : ℕ

pub record FolderBrief : Type 0 where
  pub id : String
  pub name : String

pub record JobSummary : Type 0 where
  pub id : String
  pub title : Option String
  pub status : JobStatus
  pub voice_id : String
  pub model_id : String
  pub is_active_listening : Bool
  pub render_to_end : Bool
  pub total_chunks_emitted : ℕ
  pub total_chunks_completed : ℕ
  pub buffered_seconds : ℕ
  pub completed_seconds : ℕ
  pub folder_id : Option (Option String)
  pub progress : Option (Option JobProgress)

pub record JobDetail : Type 0 where
  pub summary : JobSummary
  pub open summary use *
  pub source_kind : String
  pub source_text : String
  pub plan_version : ℕ
  pub chunks : List Chunk
  pub failed_reason : Option String
  pub active_chunk_version : Option (List (ℕ × ℕ))
  pub audio_epoch : ℕ
  pub folder_path : Option (List FolderBrief)
  pub previous_job_id : Option (Option String)
  pub next_job_id : Option (Option String)
  pub folder_index : Option (Option ℕ)
  pub folder_count : Option (Option ℕ)
  pub previous_job_title : Option (Option String)
  pub next_job_title : Option (Option String)

-- A summary with any of the fields of the detail.
pub record StreamJob : Type 0 where
  pub summary : JobSummary
  pub open summary use *
  pub source_kind : Option String
  pub source_text : Option String
  pub plan_version : Option ℕ
  pub chunks : Option (List Chunk)
  pub failed_reason : Option (Option String)
  pub active_chunk_version : Option (List (ℕ × ℕ))
  pub audio_epoch : Option ℕ
  pub folder_path : Option (List FolderBrief)
  pub previous_job_id : Option (Option String)
  pub next_job_id : Option (Option String)
  pub folder_index : Option (Option ℕ)
  pub folder_count : Option (Option ℕ)
  pub previous_job_title : Option (Option String)
  pub next_job_title : Option (Option String)

pub record JobManifest : Type 0 where
  pub mime_type : String
  pub init_segment_url : Option String
  pub chunks : List Chunk
  pub audio_epoch : ℕ

pub record LibraryFolder : Type 0 where
  pub id : String
  pub name : String
  pub parent_id : Option String
  pub position : ℕ
  pub job_count : ℕ
  pub folder_count : ℕ
  pub progress_fraction : ℕ

pub record LibraryJob : Type 0 where
  pub summary : JobSummary
  pub open summary use *
  pub position : ℕ

pub record LibrarySnapshot : Type 0 where
  pub folders : List LibraryFolder
  pub jobs : List LibraryJob
  pub trash_count : ℕ

pub data ItemKind : Type 0 where
  folder job : ItemKind

pub record LibraryItemRef : Type 0 where
  pub kind : ItemKind
  pub id : String
