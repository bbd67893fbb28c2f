-- ===== src/Admin.antt =====
-- The admin's page, web/src/features/admin/AdminPage.tsx: the form of the configuration, the actions on the
-- model, and the tabs. The store of the live data is in State/AppStore.antt.
pub mod Unsaved
pub mod Submit
pub mod Queue
mod Tests
use readflow.Common.{
  ℕ, ◌+◌, ◌*◌, ◌/◌, min, Bool, true, false, not, ◌&&◌, ◌||◌, Option, none, some, List, [], ◌∷◌,
  String, ◌==◌, ltb, str_eq, or_else, if◌then◌else◌,
}
use readflow.State.AppStore.{Payloads, AppStore, AdminState, Compare, set_admin_state}

pub data AdminDevice : Type 0 where
  auto gpu cpu : AdminDevice

abbrev pub same_device : AdminDevice → AdminDevice → Bool
same_device auto auto = true
same_device gpu gpu = true
same_device cpu cpu = true
same_device a b = false

unfoldable pub to_admin_device : String → AdminDevice
to_admin_device value =
    if str_eq "auto" value
    then auto
    else if str_eq "gpu" value
    then gpu
    else if str_eq "cpu" value
    then cpu
    else auto

-- An older server leaves the device out.
pub record AdminConfig : Type 0 where
  pub device : Option AdminDevice
  pub idle_unload_seconds : ℕ
  pub max_prebuffer_seconds : ℕ
  pub target_buffer_seconds : ℕ
  pub up_next_prebuffer_seconds : ℕ
  pub render_ahead_seconds : ℕ
  pub active_listener_timeout_seconds : ℕ
  pub plan_ahead_chunks : ℕ
  pub batch_candidates_small_model : List ℕ
  pub batch_candidates_large_model : List ℕ
  pub vram_soft_limit_mb : ℕ
  pub vram_hard_limit_mb : ℕ
  pub chunk_max_attempts : ℕ
  pub model_load_timeout_seconds : ℕ
  pub synthesis_timeout_seconds : ℕ
  pub dispatch_stall_seconds : ℕ
  pub model_residency_batches : ℕ
  pub voice_residency_batches : ℕ

-- `{ ...config, device: config.device ?? "auto" }`.
unfoldable pub form_of : AdminConfig → AdminConfig
form_of config = record config { device = some (or_else config.device auto) }

abbrev pub same_optional_device : Option AdminDevice → AdminDevice → Bool
same_optional_device none d = false
same_optional_device (some c) d = same_device c d

-- The lengths and the members agree.
abbrev pub same_numbers : List ℕ → List ℕ → Bool
same_numbers [] [] = true
same_numbers [] (b ∷ bs) = false
same_numbers (a ∷ as') [] = false
same_numbers (a ∷ as') (b ∷ bs) = (a == b) && same_numbers as' bs

unfoldable pub has_unsaved_changes : AdminConfig → AdminConfig → Bool
has_unsaved_changes form config =
    not (same_optional_device form.device (or_else config.device auto))
    || not (form.idle_unload_seconds == config.idle_unload_seconds)
    || not (form.max_prebuffer_seconds == config.max_prebuffer_seconds)
    || not (form.target_buffer_seconds == config.target_buffer_seconds)
    || not (form.up_next_prebuffer_seconds == config.up_next_prebuffer_seconds)
    || not (form.render_ahead_seconds == config.render_ahead_seconds)
    || not (form.active_listener_timeout_seconds == config.active_listener_timeout_seconds)
    || not (form.plan_ahead_chunks == config.plan_ahead_chunks)
    || not (form.vram_soft_limit_mb == config.vram_soft_limit_mb)
    || not (form.vram_hard_limit_mb == config.vram_hard_limit_mb)
    || not (form.chunk_max_attempts == config.chunk_max_attempts)
    || not (form.model_load_timeout_seconds == config.model_load_timeout_seconds)
    || not (form.synthesis_timeout_seconds == config.synthesis_timeout_seconds)
    || not (form.dispatch_stall_seconds == config.dispatch_stall_seconds)
    || not (form.model_residency_batches == config.model_residency_batches)
    || not (form.voice_residency_batches == config.voice_residency_batches)
    || not (same_numbers form.batch_candidates_small_model config.batch_candidates_small_model)
    || not (same_numbers form.batch_candidates_large_model config.batch_candidates_large_model)

pub data ModelAction : Type 0 where
  idle warm evict reset : ModelAction

pub record Feedback : Type 0 where
  pub is_success : Bool
  pub text : String

pub record AdminOverview : Type 0 where
  pub form_state : Option AdminConfig
  pub has_initialized : Bool
  pub model_action_pending : ModelAction
  pub feedback_message : Option Feedback
  pub feedback_timer : Bool

abbrev pub initial_overview : AdminOverview
initial_overview = record {
  form_state = none;
  has_initialized = false;
  model_action_pending = idle;
  feedback_message = none;
  feedback_timer = false;
}

-- A running timer is cleared and set anew.
unfoldable pub show_feedback : Bool → String → AdminOverview → AdminOverview
show_feedback is_success text v = record v {
  feedback_message = some (record { is_success = is_success; text = text });
  feedback_timer = true;
}

unfoldable pub feedback_over : AdminOverview → AdminOverview
feedback_over v = record v { feedback_message = none; feedback_timer = false }

-- The start of `handleWarmModel`, `handleEvictModel` and `handleResetModel`.
unfoldable pub start_action : ModelAction → AdminOverview → AdminOverview
start_action action v = record v { model_action_pending = action; feedback_message = none }

abbrev success_text : ModelAction → String
success_text warm = "Model warmed up successfully"
success_text evict = "Model evicted successfully"
success_text reset = "Provider reset — scheduling will resume on the next tick"
success_text idle = ""

abbrev failure_text : ModelAction → String
failure_text warm = "Failed to warm model"
failure_text evict = "Failed to evict model"
failure_text reset = "Failed to reset provider"
failure_text idle = ""

unfoldable pub action_done : ModelAction → AdminOverview → AdminOverview
action_done action v = record (show_feedback true (success_text action) v) {
  model_action_pending = idle;
}

unfoldable pub action_refused : ModelAction → Option String → AdminOverview → AdminOverview
action_refused action failure v =
    record (show_feedback false (or_else failure (failure_text action)) v) {
      model_action_pending = idle;
    }

-- The effect of the admin's state: the form is filled once.
unfoldable pub fill_form : Option AdminConfig → AdminOverview → AdminOverview
fill_form none v = v
fill_form (some config) v =
    if v.has_initialized
    then v
    else record v { has_initialized = true; form_state = some (form_of config) }

module _ (Batches Recent Memory Progress : Type 0) where
  abbrev pub admin_payloads : Payloads
  admin_payloads = record {
    Config = AdminConfig;
    Batches = Batches;
    Recent = Recent;
    Memory = Memory;
    Progress = Progress;
  }

-- `handleSubmit` of a rendering with this admin state, answered with the stored configuration.
unfoldable pub submit_saved :
    {B R M P : Type 0}
    → Compare (admin_payloads B R M P)
    → AdminState (admin_payloads B R M P)
    → AdminConfig
    → AdminOverview × AppStore (admin_payloads B R M P)
    → AdminOverview × AppStore (admin_payloads B R M P)
submit_saved c rendered next (v, s) =
    (record v { form_state = some next }, set_admin_state c (record rendered { config = next }) s)

unfoldable pub submit_refused : Option String → AdminOverview → AdminOverview
submit_refused failure v = show_feedback false (or_else failure "Failed to save config") v

abbrev is_given : Option ℕ → Bool
is_given none = false
is_given (some n) = true

-- The rounded share of `MemoryUsage`, where both amounts are known and the total is not 0.
unfoldable pub memory_percent : Option ℕ → Option ℕ → Option ℕ
memory_percent none total = none
memory_percent (some used) none = none
memory_percent (some used) (some total) =
    if ltb 0 total then some (min 100 ((200 * used + total) / (2 * total))) else none

pub data AdminTab : Type 0 where
  overview queue : AdminTab

-- The arrow keys, over two tabs.
unfoldable pub tab_key : String → AdminTab → AdminTab
tab_key key active =
    if str_eq key "ArrowLeft" || str_eq key "ArrowRight"
    then elim active [ overview ↦ queue | queue ↦ overview ]
    else active
