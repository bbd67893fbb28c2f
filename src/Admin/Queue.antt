-- ===== src/Admin/Queue.antt =====
-- The queue inspector of the admin's page, web/src/features/admin/QueueInspector.tsx. The clock is in thousandths
-- of a second. A promise that is waited for is a member of `loads` or `actions`, and how it ends is an
-- argument.
pub mod Records
pub mod Single
unfoldable pub use readflow.Admin.Queue.Records.{chunk_key}
pub use readflow.Admin.Queue.Records.{
  QueueBatch, QueueChunk, QueueJobGroup, AdminQueue, ChunkKey, same_key, QueueRequest, ActionKey,
  SuccessText, QueueMessage, QueueAction, Waiter, QueueInspector, pause_job, resume_job,
  reprocess_chunk, set_active_version, pause_resume, reprocess, version_key, job_paused,
  job_resumed, reprocessing_queued, version_activated, success, failure, nobody, after_action,
}
use readflow.Common.{
  ℕ, zero, suc, ◌-◌, Bool, true, false, not, ◌&&◌, ◌||◌, Option, none, some, List, [], ◌∷◌, String,
  ◌==◌, str_eq, find, any, or_else, or_option, get_elem?, if◌then◌else◌,
}
use readflow.Common.Sets.{has, add, delete, string_eq}
use readflow.Chunk.{JobStatus, ChunkStatus}
use readflow.State.AppStore.{Voice}

abbrev pub without {ℓ} : {A : Type ℓ} → ℕ → List A → List A
without n [] = []
without zero (x ∷ xs) = xs
without (suc n) (x ∷ xs) = x ∷ without n xs

abbrev pub load : Waiter → QueueInspector → QueueInspector
load waiter v = record v { loads = waiter ∷ v.loads }

-- Mounted at a time: the effect loads.
abbrev pub initial_queue : ℕ → QueueInspector
initial_queue now = load nobody (record {
  snapshot = none;
  load_error = none;
  is_loading = true;
  selected_key = none;
  collapsed_jobs = [];
  action_pending = none;
  action_message = none;
  is_editing = false;
  draft_text = "";
  draft_voice = "";
  now = now;
  loads = [];
  actions = [];
})

-- The `finally` of `runAction`, and what `submitReprocess` does behind it.
abbrev pub end_action : Bool → QueueInspector → QueueInspector
end_action closes v = record v { action_pending = none; is_editing = v.is_editing && not closes }

abbrev pub resume : Waiter → QueueInspector → QueueInspector
resume nobody v = v
resume (after_action closes) v = end_action closes v

unfoldable pub queue_loaded : ℕ → Waiter → AdminQueue → QueueInspector → QueueInspector
queue_loaded n waiter next v = resume waiter (record v {
  loads = without n v.loads;
  snapshot = some next;
  load_error = none;
  is_loading = false;
})

unfoldable pub queue_not_loaded : ℕ → Waiter → Option String → QueueInspector → QueueInspector
queue_not_loaded n waiter failed v = resume waiter (record v {
  loads = without n v.loads;
  load_error = some (or_else failed "Unable to load the queue");
  is_loading = false;
})

abbrev pub run_action : ActionKey → QueueAction → QueueInspector → QueueInspector
run_action key action v = record v {
  action_pending = some key;
  action_message = none;
  actions = action ∷ v.actions;
}

unfoldable pub queue_action_done : ℕ → QueueAction → QueueInspector → QueueInspector
queue_action_done n action v = load (after_action action.closes_editor) (record v {
  actions = without n v.actions;
  action_message = some (success action.success_text);
})

unfoldable pub queue_action_failed :
    ℕ → QueueAction → Option String → QueueInspector → QueueInspector
queue_action_failed n action failed v = end_action action.closes_editor (record v {
  actions = without n v.actions;
  action_message = some (failure (or_else failed "Action failed"));
})

unfoldable pub select_chunk : QueueChunk → QueueInspector → QueueInspector
select_chunk item v = record v {
  selected_key = some (chunk_key item);
  is_editing = false;
  action_message = none;
}

unfoldable pub toggle_job : String → QueueInspector → QueueInspector
toggle_job id v = record v {
  collapsed_jobs =
      if has id v.collapsed_jobs then delete id v.collapsed_jobs else add id v.collapsed_jobs;
}

abbrev is_paused : JobStatus → Bool
is_paused JobStatus.paused = true
is_paused status = false

unfoldable pub handle_pause_resume : QueueChunk → QueueInspector → QueueInspector
handle_pause_resume item v =
    run_action pause_resume
      (if is_paused item.job_status
        then record {
          request = resume_job item.job_id;
          success_text = job_resumed;
          closes_editor = false;
        }
        else record {
          request = pause_job item.job_id;
          success_text = job_paused;
          closes_editor = false;
        })
      v

unfoldable pub start_editing : QueueChunk → QueueInspector → QueueInspector
start_editing item v = record v {
  draft_text = item.text;
  draft_voice = item.voice_id;
  is_editing = true;
  action_message = none;
}

unfoldable pub submit_reprocess : QueueChunk → QueueInspector → QueueInspector
submit_reprocess item v =
    run_action reprocess
      (record {
        request = reprocess_chunk item.job_id item.index v.draft_text v.draft_voice;
        success_text = reprocessing_queued;
        closes_editor = true;
      })
      v

unfoldable pub handle_set_active : QueueChunk → ℕ → QueueInspector → QueueInspector
handle_set_active item version v =
    run_action (version_key version)
      (record {
        request = set_active_version item.job_id item.index version;
        success_text = version_activated version;
        closes_editor = false;
      })
      v

abbrev pub chunk_in : List QueueJobGroup → ChunkKey → Option QueueChunk
chunk_in [] key = none
chunk_in (g ∷ groups) key =
    or_option (find (λ item. same_key (chunk_key item) key) g.chunks) (chunk_in groups key)

abbrev selected_in : Option AdminQueue → Option ChunkKey → Option QueueChunk
selected_in none key = none
selected_in (some q) none = none
selected_in (some q) (some key) = chunk_in q.jobs key

-- `selected`, from which the sidebar's buttons take their chunk.
unfoldable pub selected_chunk : QueueInspector → Option QueueChunk
selected_chunk v = selected_in v.snapshot v.selected_key

unfoldable pub voice_options : List Voice → String → List Voice
voice_options voices draft =
    if not (str_eq draft "") && not (any (λ (w : Voice). str_eq w.id draft) voices)
    then record { id = draft; display_name = draft; description = none } ∷ voices
    else voices

abbrev started_in : Option QueueBatch → Option ℕ
started_in none = none
started_in (some b) = b.started_at

abbrev since : ℕ → Option ℕ → Option ℕ
since now none = none
since now (some started) = some (now - started)

abbrev active_in : Option AdminQueue → Option QueueBatch
active_in none = none
active_in (some q) = q.active_batch

-- `Math.max(0, now - started_at)`.
unfoldable pub elapsed_seconds : QueueInspector → Option ℕ
elapsed_seconds v = since v.now (started_in (active_in v.snapshot))
