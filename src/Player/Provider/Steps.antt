-- ===== src/Player/Provider/Steps.antt =====
-- What is closed under the small changes of the provider's state holds after each event that opens no
-- other job.
use readflow.Common.{
  true, false, [], List, ◌∷◌, if◌then◌else◌, not, String, Bool, str_eq, ◌≡◌, Bool-cases, ℕ, ◌&&◌,
  Option, inl, inr, refl, none, some, ◌||◌, leb,
}
use readflow.Player.Provider.{
  source_call, anchor_call, restart_call, applied_call, seek_call, intent_call, rate_call,
  outputs_call, opened, called, ticked, finished, seek_changed, play_event, pause_event,
  waiting_event, error_event, interval_event, left, ended_event, ended_changed, succeeded, failed,
  is_terminal_job, Event, PlayerJob, Provider, call_store, PlayerStore, is_job, set_play_intent,
  set_source, step, finish_terminal, set_anchor_index, with_store, restart_stream, seek_effect,
  handle_play, request_seek, handle_pause, seek_applied, sync_playback, collect_heard,
  handle_waiting, set_playback_rate, handle_error, report_succeeded, sync_outputs, StoreCall,
  on_interval, flush, handle_ended, report_failed, set_last_sync_error, auto_advance, is_unfinished,
  is_pending, is_at_gap, has_job,
}
use readflow.Player.Store.{
  open_job, PlayerStore, is_job, set_play_intent, set_source, set_anchor_index, restart_stream,
  request_seek, seek_applied, set_playback_rate, sync_outputs, set_last_sync_error,
}
use readflow.Player.Heard.{PlayerJob}

-- The events open no other job.
abbrev pub is_opening : String → Event → Bool
is_opening j (opened k) = str_eq k.id j
is_opening j _ = true

abbrev pub stay_in : String → List Event → Bool
stay_in j [] = true
stay_in j (e ∷ es) = is_opening j e && stay_in j es

module _ (j : String) where
  open_job-is_job :
      (k : PlayerJob) (s : PlayerStore) → str_eq k.id j ≡ true → is_job (open_job k s).job j ≡ true
  unfolding open_job
  open_job-is_job k s same = elim (Bool-cases (is_job s.job k.id)) [
    | inl same_job ↦ rw same_job same
    | inr other ↦ rw other same
  ]

  call_store-job : (c : StoreCall) (s : PlayerStore) → (call_store c s).job ≡ s.job
  unfolding call_store set_source set_anchor_index restart_stream request_seek seek_applied
      set_play_intent set_playback_rate sync_outputs
  call_store-job (source_call source) s = refl
  call_store-job (anchor_call index) s = refl
  call_store-job restart_call s = refl
  call_store-job applied_call s = refl
  call_store-job (seek_call seconds) s = refl
  call_store-job (intent_call intent) s = refl
  call_store-job (rate_call rate) s = refl
  call_store-job (outputs_call outputs) s = refl

  -- The changes that events are made of, for a predicate that knows that the job is open.
  pub record IsClosed (P : Provider → Type 0) : Type 0 where
    pub here : (p : Provider) → P p → is_job p.store.job j ≡ true
    pub stored :
        (f : PlayerStore → PlayerStore) (p : Provider)
        → is_job (f p.store).job j ≡ true
        → P p
        → P (with_store f p)
    pub synced :
        (now : ℕ) (force : Bool) (playing : Option Bool) (p : Provider)
        → P p
        → P (sync_playback now force playing p)
    pub collected : (p : Provider) → P p → P (collect_heard p)
    pub accepted : (n : ℕ) (p : Provider) → P p → P (report_succeeded n p)
    pub seen :
        (pending : Option ℕ) (p : Provider) → P p → P (record p { previous_pending_seek = pending })

  either : (P : Provider → Type 0) (b : Bool) (p q : Provider) → P p → P q → P (if b then p else q)
  either P true p q kp kq = kp
  either P false p q kp kq = kq

  module _ (P : Provider → Type 0) (c : IsClosed P) where
    intent_closed : (intent : Bool) (p : Provider) → P p → P (with_store (set_play_intent intent) p)
    unfolding set_play_intent
    intent_closed intent p holds = c.stored (set_play_intent intent) p (c.here p holds) holds

    -- Of an event that opens no other job; the effect that opens the next job is left to the predicate.
    pub step_closed :
        (e : Event) (p : Provider)
        → is_opening j e ≡ true
        → ((ended on : Bool) → e ≡ ended_changed ended on → P (auto_advance ended on p))
        → P p
        → P (step e p)
    unfolding step finish_terminal seek_effect handle_play handle_pause handle_waiting handle_error
        on_interval flush handle_ended report_failed set_last_sync_error
    step_closed (opened k) p same ends holds =
        c.stored (open_job k) p (open_job-is_job k p.store same) holds
    step_closed (called call) p same ends holds =
        c.stored (call_store call) p (rw (call_store-job call p.store) (c.here p holds)) holds
    step_closed ticked p same ends holds = c.collected p holds
    step_closed finished p same ends holds =
        let q = with_store (set_play_intent false) p in
        either P (is_unfinished p.store p.store.outputs) p q holds (intent_closed false p holds)
    step_closed (seek_changed now) p same ends holds =
        let pending = p.store.pending_seek_job_seconds in
        let changed = is_pending p.previous_pending_seek && not (is_pending pending) in
        let q = sync_playback now true none p in
        c.seen pending (if changed then q else p)
          (either P changed q p (c.synced now true none p holds) holds)
    step_closed (play_event now) p same ends holds =
        let q = with_store (set_play_intent true) p in
        let terminal = is_terminal_job p.store.job in
        c.synced now true (some true) (if terminal then q else p)
          (either P terminal q p (intent_closed true p holds) holds)
    step_closed (pause_event now) p same ends holds =
        let q = with_store (set_play_intent false) p in
        let report = sync_playback now true (some false) in
        let paused = if p.store.play_intent then p else report p in
        let sent = c.synced now true (some false) in
        either P (is_terminal_job p.store.job) (report q) paused
          (sent q (intent_closed false p holds))
          (either P p.store.play_intent p (report p) holds (sent p holds))
    step_closed (waiting_event now) p same ends holds =
        c.synced now true (some p.store.play_intent) p holds
    step_closed (error_event now) p same ends holds = c.synced now true (some false) p holds
    step_closed (interval_event now) p same ends holds =
        let q = sync_playback now false none p in
        let active = p.store.play_intent || p.store.outputs.is_waiting_for_data in
        either P active q p (c.synced now false none p holds) holds
    step_closed (left now) p same ends holds = c.synced now true none p holds
    step_closed (ended_event now rendered current_time) p same ends holds =
        let q = with_store (set_play_intent false) p in
        let at_gap = is_at_gap rendered current_time p in
        let on = sync_playback now true (some true) p in
        let off = sync_playback now true (some false) q in
        let kept =
          either P at_gap on off (c.synced now true (some true) p holds)
            (c.synced now true (some false) q (intent_closed false p holds)) in
        either P (not (has_job p.store.job) || leb rendered 0) p (if at_gap then on else off) holds
          kept
    step_closed (ended_changed ended on) p same ends holds = ends ended on refl
    step_closed (succeeded n) p same ends holds = c.accepted n p holds
    step_closed (failed text) p same ends holds =
        c.stored (set_last_sync_error (some text)) p (c.here p holds) holds
