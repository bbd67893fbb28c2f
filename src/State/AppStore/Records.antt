-- ===== src/State/AppStore/Records.antt =====
-- The payloads and the state of web/src/state/store.ts, and the comparisons of their parts.
use readflow.Common.{
  ℕ, ◌≡◌, Bool, true, false, ◌&&◌, Option, none, some, List, [], String, str_eq, ◌==◌,
}
use readflow.Common.Sets.{string_eq}
use readflow.Api.{JobSummary, StreamJob}
use readflow.Chunk.{Chunk}
use readflow.Live.{WebSocketStatus, LiveError}

pub record Voice : Type 0 where
  pub id : String
  pub display_name : String
  pub description : Option String

-- The parts of payloads that the store does not look into, and their texts.
pub record Payloads : Type 1 where
  pub Config : Type 0
  pub Batches : Type 0
  pub Recent : Type 0
  pub Memory : Type 0
  pub Progress : Type 0

pub record RuntimeStatus : Type 0 where
  pub resident_model_id : Option String
  pub resident_voice_id : Option String
  pub model_state : Option String
  pub model_residency_batches : ℕ
  pub voice_residency_batches : ℕ

module _ (t : Payloads) where
  open t use {Config, Batches, Recent, Memory, Progress}

  -- The fields before the residency are in `batches`.
  pub record SchedulerState : Type 0 where
    pub batches : Batches
    pub resident_model_id : Option (Option String)
    pub resident_voice_id : Option (Option String)
    pub model_residency_batches : Option ℕ
    pub voice_residency_batches : Option ℕ

  -- The other fields are in `recent`.
  pub record TelemetrySnapshot : Type 0 where
    pub model_state : String
    pub recent : Recent

  pub record AdminState : Type 0 where
    pub config : Config
    pub scheduler : SchedulerState
    pub telemetry : Option TelemetrySnapshot
    pub memory : Option Memory
    pub model_last_error : Option (Option String)

  pub record ChunkReadyPayload : Type 0 where
    pub job : StreamJob
    pub chunk : Option Chunk
    pub chunk_index : ℕ
    pub mime_type : Option String
    pub init_segment_url : Option (Option String)

  pub data WsEnvelope : Type 0 where
    job_created job_updated : StreamJob → WsEnvelope
    job_completed chunk_ready : ChunkReadyPayload → WsEnvelope
    scheduler_state : SchedulerState → WsEnvelope
    model_state : String → WsEnvelope
    telemetry : TelemetrySnapshot → WsEnvelope
    admin_config_updated : Config → WsEnvelope
    memory_stats : Option Memory → WsEnvelope
    library_changed : String → WsEnvelope
    job_progress : String → Progress → WsEnvelope
    pong : WsEnvelope

  pub record AppStore : Type 0 where
    pub jobs : List (String × JobSummary)
    pub voices : List Voice
    pub admin_state : Option AdminState
    pub runtime_status : Option RuntimeStatus
    pub websocket_status : WebSocketStatus
    pub last_socket_message_at : Option ℕ
    pub last_socket_error : Option LiveError
    pub reconnect_attempt : ℕ
    pub is_socket_stale : Bool
    pub last_event : Option WsEnvelope

  abbrev pub initial_app : AppStore
  initial_app = record {
    jobs = [];
    voices = [];
    admin_state = none;
    runtime_status = none;
    websocket_status = WebSocketStatus.idle;
    last_socket_message_at = none;
    last_socket_error = none;
    reconnect_attempt = 0;
    is_socket_stale = false;
    last_event = none;
  }

-- `JSON.stringify` of the parts, and `===` on objects, which are one only if they are equal.
pub record Compare (t : Payloads) : Type 0 where
  pub config_text : t.Config → String
  pub scheduler_text : SchedulerState t → String
  pub telemetry_text : Option (TelemetrySnapshot t) → String
  pub memory_text : Option t.Memory → String
  pub same_job : JobSummary → JobSummary → Bool
  pub same_voice : Voice → Voice → Bool
  pub same_job_eq : (a b : JobSummary) → same_job a b ≡ true → a ≡ b
  pub same_voice_eq : (a b : Voice) → same_voice a b ≡ true → a ≡ b

abbrev pub optional_eq : Option String → Option String → Bool
optional_eq none none = true
optional_eq (some a) (some b) = str_eq a b
optional_eq _ _ = false

unfoldable pub runtime_status_equal : Option RuntimeStatus → Option RuntimeStatus → Bool
runtime_status_equal none none = true
runtime_status_equal (some a) (some b) =
    optional_eq a.resident_model_id b.resident_model_id
    && optional_eq a.resident_voice_id b.resident_voice_id
    && (a.model_residency_batches == b.model_residency_batches)
    && (a.voice_residency_batches == b.voice_residency_batches)
runtime_status_equal _ _ = false

unfoldable pub to_summary : JobSummary → JobSummary
to_summary j = record j { folder_id = none; progress = none }
