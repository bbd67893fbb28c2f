-- ===== src/Admin/Queue/Records.antt =====
-- The payloads and the state of web/src/features/admin/QueueInspector.tsx.
use readflow.Common.{ℕ, Bool, ◌&&◌, Option, List, String, ◌==◌, str_eq}
use readflow.Common.Sets.{string_eq}
use readflow.Chunk.{JobStatus, ChunkStatus}

pub record QueueBatch : Type 0 where
  pub chunk_count : ℕ
  pub model_id : Option String
  pub language : Option String
  pub voice_id : Option String
  pub started_at : Option ℕ

-- The fields that only the details show are left out.
pub record QueueChunk : Type 0 where
  pub job_id : String
  pub job_status : JobStatus
  pub index : ℕ
  pub version : ℕ
  pub status : ChunkStatus
  pub voice_id : String
  pub text : String
  pub is_pending : Bool
  pub is_rendering : Bool
  pub in_next_batch : Bool

pub record QueueJobGroup : Type 0 where
  pub job_id : String
  pub chunks : List QueueChunk

pub record AdminQueue : Type 0 where
  pub queue_depth : ℕ
  pub active_batch : Option QueueBatch
  pub next_batch : Option QueueBatch
  pub jobs : List QueueJobGroup

-- The text `job:index:version`, as its parts.
pub record ChunkKey : Type 0 where
  pub job_id : String
  pub index : ℕ
  pub version : ℕ

unfoldable pub chunk_key : QueueChunk → ChunkKey
chunk_key item = record { job_id = item.job_id; index = item.index; version = item.version }

abbrev pub same_key : ChunkKey → ChunkKey → Bool
same_key a b = str_eq a.job_id b.job_id && (a.index == b.index) && (a.version == b.version)

pub data QueueRequest : Type 0 where
  pause_job resume_job : String → QueueRequest
  reprocess_chunk : String → ℕ → String → String → QueueRequest
  set_active_version : String → ℕ → ℕ → QueueRequest

-- The keys of actions: "pause-resume", "reprocess" and `version-…`.
pub data ActionKey : Type 0 where
  pause_resume reprocess : ActionKey
  version_key : ℕ → ActionKey

pub data SuccessText : Type 0 where
  job_paused job_resumed reprocessing_queued : SuccessText
  version_activated : ℕ → SuccessText

pub data QueueMessage : Type 0 where
  success : SuccessText → QueueMessage
  failure : String → QueueMessage

pub record QueueAction : Type 0 where
  pub request : QueueRequest
  pub success_text : SuccessText
  pub closes_editor : Bool

-- Who waits for `load()`: an effect or a button, or an action, that then may close the editor.
pub data Waiter : Type 0 where
  nobody : Waiter
  after_action : Bool → Waiter

pub record QueueInspector : Type 0 where
  pub snapshot : Option AdminQueue
  pub load_error : Option String
  pub is_loading : Bool
  pub selected_key : Option ChunkKey
  pub collapsed_jobs : List String
  pub action_pending : Option ActionKey
  pub action_message : Option QueueMessage
  pub is_editing : Bool
  pub draft_text : String
  pub draft_voice : String
  pub now : ℕ
  pub loads : List Waiter
  pub actions : List QueueAction
