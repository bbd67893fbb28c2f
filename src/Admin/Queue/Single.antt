-- ===== src/Admin/Queue/Single.antt =====
-- The queue inspector of web/src/features/admin/QueueInspector.tsx over time, and how many actions it waits for. The
-- buttons of actions are off while one is pending.
use readflow.Common.{
  ℕ, zero, suc, ◌+◌, ◌≤◌, ◌≡◌, refl, Bool, true, false, Option, none, some, List, [], ◌∷◌, String,
  arith, length, get_elem?, if◌then◌else◌, ◌==◌,
}
use readflow.Admin.Queue.{
  QueueChunk, AdminQueue, QueueInspector, QueueAction, Waiter, ActionKey, nobody, after_action,
  load, queue_loaded, queue_not_loaded, queue_action_done, queue_action_failed, select_chunk,
  toggle_job, handle_pause_resume, start_editing, submit_reprocess, handle_set_active,
  initial_queue, selected_chunk, without,
}

pub data QueueEvent : Type 0 where
  scheduler_changed refresh_pressed closed_details cancelled_edit : QueueEvent
  clock_ticked : ℕ → QueueEvent
  chunk_selected : QueueChunk → QueueEvent
  job_toggled : String → QueueEvent
  pause_pressed edit_pressed reprocess_pressed : QueueEvent
  version_pressed : ℕ → QueueEvent
  text_typed voice_chosen : String → QueueEvent
  load_done : ℕ → AdminQueue → QueueEvent
  load_failed : ℕ → Option String → QueueEvent
  action_done : ℕ → QueueEvent
  action_failed : ℕ → Option String → QueueEvent

abbrev pub is_free : Option ActionKey → Bool
is_free none = true
is_free (some key) = false

abbrev on_chunk :
    Option QueueChunk
    → Option ActionKey
    → (QueueChunk → QueueInspector → QueueInspector)
    → QueueInspector
    → QueueInspector
on_chunk none pending change v = v
on_chunk (some item) none change v = change item v
on_chunk (some item) (some key) change v = v

abbrev with_waiter :
    Option Waiter → (Waiter → QueueInspector → QueueInspector) → QueueInspector → QueueInspector
with_waiter none change v = v
with_waiter (some w) change v = change w v

abbrev with_action :
    Option QueueAction
    → (QueueAction → QueueInspector → QueueInspector)
    → QueueInspector
    → QueueInspector
with_action none change v = v
with_action (some a) change v = change a v

unfoldable pub queue_step : QueueEvent → QueueInspector → QueueInspector
queue_step scheduler_changed v = load nobody v
queue_step refresh_pressed v = if is_free v.action_pending then load nobody v else v
queue_step closed_details v = record v { selected_key = none }
queue_step cancelled_edit v = record v { is_editing = false }
queue_step (clock_ticked now) v = record v { now = now }
queue_step (chunk_selected item) v = select_chunk item v
queue_step (job_toggled id) v = toggle_job id v
queue_step pause_pressed v = on_chunk (selected_chunk v) v.action_pending handle_pause_resume v
queue_step edit_pressed v = on_chunk (selected_chunk v) v.action_pending start_editing v
queue_step reprocess_pressed v =
    if v.is_editing then on_chunk (selected_chunk v) v.action_pending submit_reprocess v else v
queue_step (version_pressed n) v =
    on_chunk (selected_chunk v) v.action_pending (λ item. handle_set_active item n) v
queue_step (text_typed text) v = record v { draft_text = text }
queue_step (voice_chosen id) v = record v { draft_voice = id }
queue_step (load_done n next) v = with_waiter (get_elem? v.loads n) (λ w. queue_loaded n w next) v
queue_step (load_failed n failed) v =
    with_waiter (get_elem? v.loads n) (λ w. queue_not_loaded n w failed) v
queue_step (action_done n) v = with_action (get_elem? v.actions n) (queue_action_done n) v
queue_step (action_failed n failed) v =
    with_action (get_elem? v.actions n) (λ a. queue_action_failed n a failed) v

unfoldable pub queue_run : List QueueEvent → QueueInspector → QueueInspector
queue_run [] v = v
queue_run (e ∷ es) v = queue_run es (queue_step e v)

-- The loads that an action waits for.
abbrev pub action_loads : List Waiter → ℕ
action_loads [] = 0
action_loads (nobody ∷ ws) = action_loads ws
action_loads (after_action closes ∷ ws) = suc (action_loads ws)

-- The actions under way, of which each waits for its request or for the load behind it.
abbrev pub under_way : QueueInspector → ℕ
under_way v = length v.actions + action_loads v.loads

abbrev one_if_pending : Option ActionKey → ℕ
one_if_pending none = 0
one_if_pending (some key) = 1

IsSingle : QueueInspector → Type 0
IsSingle v = under_way v ≡ one_if_pending v.action_pending

length-without :
    (n : ℕ) (a : QueueAction) (xs : List QueueAction)
    → get_elem? xs n ≡ some a
    → suc (length (without n xs)) ≡ length xs
length-without n a [] h = absurd (cc h)
length-without zero a (x ∷ xs) h = refl
length-without (suc n) a (x ∷ xs) h = omega (arith, length-without n a xs h)

abbrev weight : Waiter → ℕ
weight nobody = 0
weight (after_action closes) = 1

action_loads-without :
    (n : ℕ) (w : Waiter) (ws : List Waiter)
    → get_elem? ws n ≡ some w
    → action_loads (without n ws) + weight w ≡ action_loads ws
action_loads-without n w [] h = absurd (cc h)
action_loads-without zero w (x ∷ ws) h = ground arith
action_loads-without (suc n) w (nobody ∷ ws) h = action_loads-without n w ws h
action_loads-without (suc n) w (after_action closes ∷ ws) h =
    omega (arith, action_loads-without n w ws h)

module _ (v : QueueInspector) (single : IsSingle v) where
  load_done-IsSingle :
      (n : ℕ) (next : AdminQueue) (found : Option Waiter)
      → get_elem? v.loads n ≡ found
      → IsSingle (with_waiter found (λ w. queue_loaded n w next) v)
  unfolding IsSingle queue_loaded
  load_done-IsSingle n next none e = single
  load_done-IsSingle n next (some nobody) e = ground (arith, action_loads-without n nobody v.loads)
  load_done-IsSingle n next (some (after_action closes)) e =
      ground (arith, action_loads-without n (after_action closes) v.loads)

  load_failed-IsSingle :
      (n : ℕ) (failed : Option String) (found : Option Waiter)
      → get_elem? v.loads n ≡ found
      → IsSingle (with_waiter found (λ w. queue_not_loaded n w failed) v)
  unfolding IsSingle queue_not_loaded
  load_failed-IsSingle n failed none e = single
  load_failed-IsSingle n failed (some nobody) e =
      ground (arith, action_loads-without n nobody v.loads)
  load_failed-IsSingle n failed (some (after_action closes)) e =
      ground (arith, action_loads-without n (after_action closes) v.loads)

  action_done-IsSingle :
      (n : ℕ) (found : Option QueueAction)
      → get_elem? v.actions n ≡ found
      → IsSingle (with_action found (queue_action_done n) v)
  unfolding IsSingle queue_action_done
  action_done-IsSingle n none e = single
  action_done-IsSingle n (some a) e = ground (arith, length-without n a v.actions)

  action_failed-IsSingle :
      (n : ℕ) (failed : Option String) (found : Option QueueAction)
      → get_elem? v.actions n ≡ found
      → IsSingle (with_action found (λ a. queue_action_failed n a failed) v)
  unfolding IsSingle queue_action_failed
  action_failed-IsSingle n failed none e = single
  action_failed-IsSingle n failed (some a) e = ground (arith, length-without n a v.actions)

  on_chunk-IsSingle :
      (item : Option QueueChunk) (pending : Option ActionKey)
      (change : QueueChunk → QueueInspector → QueueInspector)
      → v.action_pending ≡ pending
      → ((i : QueueChunk) → v.action_pending ≡ none → IsSingle (change i v))
      → IsSingle (on_chunk item pending change v)
  on_chunk-IsSingle none pending change e keeps = single
  on_chunk-IsSingle (some i) none change e keeps = keeps i e
  on_chunk-IsSingle (some i) (some key) change e keeps = single

  if-IsSingle : (b : Bool) (w : QueueInspector) → IsSingle w → IsSingle (if b then w else v)
  if-IsSingle true w h = h
  if-IsSingle false w h = single

  queue_step-IsSingle : (e : QueueEvent) → IsSingle (queue_step e v)
  unfolding queue_step
  queue_step-IsSingle scheduler_changed = unfold IsSingle in single
  queue_step-IsSingle refresh_pressed = unfold IsSingle in ground arith
  queue_step-IsSingle closed_details = unfold IsSingle in single
  queue_step-IsSingle cancelled_edit = unfold IsSingle in single
  queue_step-IsSingle (clock_ticked now) = unfold IsSingle in single
  queue_step-IsSingle (chunk_selected item) = unfold IsSingle select_chunk in single
  queue_step-IsSingle (job_toggled id) = unfold IsSingle toggle_job in single
  queue_step-IsSingle pause_pressed =
      on_chunk-IsSingle (selected_chunk v) v.action_pending handle_pause_resume refl
        (λ i free. unfold IsSingle handle_pause_resume in ground arith)
  queue_step-IsSingle edit_pressed =
      on_chunk-IsSingle (selected_chunk v) v.action_pending start_editing refl
        (λ i free. unfold IsSingle start_editing in single)
  queue_step-IsSingle reprocess_pressed =
      if-IsSingle v.is_editing (on_chunk (selected_chunk v) v.action_pending submit_reprocess v) (
        on_chunk-IsSingle (selected_chunk v) v.action_pending submit_reprocess refl
          (λ i free. unfold IsSingle submit_reprocess in ground arith))
  queue_step-IsSingle (version_pressed n) =
      on_chunk-IsSingle (selected_chunk v) v.action_pending (λ item. handle_set_active item n) refl
        (λ i free. unfold IsSingle handle_set_active in ground arith)
  queue_step-IsSingle (text_typed text) = unfold IsSingle in single
  queue_step-IsSingle (voice_chosen id) = unfold IsSingle in single
  queue_step-IsSingle (load_done n next) = load_done-IsSingle n next (get_elem? v.loads n) refl
  queue_step-IsSingle (load_failed n failed) =
      load_failed-IsSingle n failed (get_elem? v.loads n) refl
  queue_step-IsSingle (action_done n) = action_done-IsSingle n (get_elem? v.actions n) refl
  queue_step-IsSingle (action_failed n failed) =
      action_failed-IsSingle n failed (get_elem? v.actions n) refl

queue_run-IsSingle :
    (es : List QueueEvent) (v : QueueInspector) → IsSingle v → IsSingle (queue_run es v)
unfolding queue_run
queue_run-IsSingle [] v single = single
queue_run-IsSingle (e ∷ es) v single =
    queue_run-IsSingle es (queue_step e v) (queue_step-IsSingle v single e)

-- In every state that the inspector can reach, at most one action is under way, counted until the load
-- behind it has ended, and one is under way exactly when the buttons are off: they come on again after
-- every end of the action and of its load.
pub queue_run-single :
    (es : List QueueEvent) (now : ℕ)
    → let v = queue_run es (initial_queue now) in
      (under_way v ≤ 1) × (is_free v.action_pending ≡ (under_way v == 0))
unfolding IsSingle
queue_run-single es now =
    let single = queue_run-IsSingle es (initial_queue now) refl in (ground arith, ground arith)
