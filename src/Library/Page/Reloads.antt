-- ===== src/Library/Page/Reloads.antt =====
-- The refresh timer of the library's page, from the last event of the app's store on.
use readflow.Common.{
  ℕ, max, ◌+◌, ◌≡◌, refl, Bool, true, false, Option, none, some, List, [], ◌∷◌, String, arith, All,
  if◌then◌else◌, leb, get_elem?, ◌∙◌,
}
use readflow.Library.Filter.{SearchText}
use readflow.Library.Page.{
  LibraryPage, Caller, Action, load_succeeded, load_failed, action_succeeded, action_failed,
  notice_fires, LibrarySnapshot,
}
use readflow.Library.Page.Handlers.{
  schedule, toggle_organize, select_all, bulk_delete, toggle_selected, open_folder, ask_move,
  delete_rows, delete_only, ask_rename_folder, ask_rename_job, mark_rows, reorder, bulk_read,
  submit_folder, submit_folder_name, submit_job_title, submit_move, new_job_created, folder_changed,
  see_last_event, is_reloading, refresh_fires,
}
use readflow.Library.Page.Events.{
  refresh_due, notice_due, time_passes, seen, loaded, not_loaded, acted, not_acted, routed, used,
  load_with, act_with, Control, control, PageEvent, Moment, page_change, page_step, page_run, start,
}
use readflow.Api.{LibrarySnapshot}
use readflow.State.AppStore.{Payloads, WsEnvelope, AppStore, apply_event}
use readflow.State.AppStore.Admin.{is_seen, apply_event-last_event}

control-timer :
    (text : SearchText) (c : Control) (p : LibraryPage)
    → (control text c p).refresh_timer ≡ p.refresh_timer
unfolding control toggle_organize select_all bulk_delete toggle_selected open_folder ask_move
    delete_rows delete_only ask_rename_folder ask_rename_job mark_rows reorder bulk_read
    submit_folder submit_folder_name submit_job_title submit_move new_job_created
control-timer text c p = ground arith

load_succeeded-timer :
    (n : ℕ) (caller : Caller) (next : LibrarySnapshot) (p : LibraryPage)
    → (load_succeeded n caller next p).refresh_timer ≡ p.refresh_timer
unfolding load_succeeded
load_succeeded-timer n caller next p = ground arith

load_failed-timer :
    (n : ℕ) (caller : Caller) (failure : Option String) (p : LibraryPage)
    → (load_failed n caller failure p).refresh_timer ≡ p.refresh_timer
unfolding load_failed
load_failed-timer n caller failure p = ground arith

action_failed-timer :
    (n : ℕ) (action : Action) (failure : Option String) (p : LibraryPage)
    → (action_failed n action failure p).refresh_timer ≡ p.refresh_timer
unfolding action_failed
action_failed-timer n action failure p = ground arith

folder_changed-timer :
    (id : Option String) (p : LibraryPage) → (folder_changed id p).refresh_timer ≡ p.refresh_timer
unfolding folder_changed
folder_changed-timer id p = ground arith

notice_fires-timer : (p : LibraryPage) → (notice_fires p).refresh_timer ≡ p.refresh_timer
unfolding notice_fires
notice_fires-timer p = ground arith

load_with-timer :
    (caller : Option Caller) (settled : Caller → LibraryPage → LibraryPage) (p : LibraryPage)
    → ((c : Caller) → (settled c p).refresh_timer ≡ p.refresh_timer)
    → (load_with caller settled p).refresh_timer ≡ p.refresh_timer
load_with-timer none settled p keeps = refl
load_with-timer (some c) settled p keeps = keeps c

act_with-timer :
    (action : Option Action) (settled : Action → LibraryPage → LibraryPage) (p : LibraryPage)
    → ((a : Action) → (settled a p).refresh_timer ≡ p.refresh_timer)
    → (act_with action settled p).refresh_timer ≡ p.refresh_timer
act_with-timer none settled p keeps = refl
act_with-timer (some a) settled p keeps = keeps a

-- The timer is set and fires by then.
abbrev pub is_pending_by : Option ℕ → ℕ → Bool
is_pending_by none bound = false
is_pending_by (some due) bound = leb due bound

-- A timer that is set fires by then.
abbrev is_timely : Option ℕ → ℕ → Bool
is_timely none bound = true
is_timely (some due) bound = leb due bound

refresh_due-loads :
    (t : Payloads) (text : SearchText) (p : LibraryPage) (bound now : ℕ)
    → is_pending_by p.refresh_timer bound ≡ true
    → (page_change {t = t} text refresh_due (max now bound) p).loads ≡ Caller.bare ∷ p.loads
unfolding page_change refresh_fires
refresh_due-loads t text p bound now pending = ground arith

module _ {t : Payloads} (text : SearchText) where
  abbrev pub is_due : PageEvent t → Bool
  is_due refresh_due = true
  is_due event = false

  -- The timer after an event that is not its own.
  abbrev timer_after : PageEvent t → ℕ → Option ℕ → Option ℕ
  timer_after (seen event) now timer = if is_reloading event then schedule now timer else timer
  timer_after event now timer = timer

  -- The page with the store's last event: its effect runs for the event where there is one.
  abbrev pub page_of : Option (WsEnvelope t) → Moment → Moment
  page_of none m = m
  page_of (some event) m = page_step text (seen event) m

  page_change-timer :
      (event : PageEvent t) (now : ℕ) (p : LibraryPage)
      → is_due event ≡ false
      → (page_change text event now p).refresh_timer ≡ timer_after event now p.refresh_timer
  unfolding page_change see_last_event
  page_change-timer (time_passes n) now p other = refl
  page_change-timer (seen event) now p other = ground arith
  page_change-timer refresh_due now p other = absurd (cc other)
  page_change-timer notice_due now p other = notice_fires-timer p
  page_change-timer (loaded n next) now p other =
      load_with-timer (get_elem? p.loads n) (λ c. load_succeeded n c next) p
        (λ c. load_succeeded-timer n c next p)
  page_change-timer (not_loaded n failure) now p other =
      load_with-timer (get_elem? p.loads n) (λ c. load_failed n c failure) p
        (λ c. load_failed-timer n c failure p)
  page_change-timer (acted n) now p other =
      act_with-timer (get_elem? p.actions n) (action_succeeded n) p
        (λ a. unfold action_succeeded in refl)
  page_change-timer (not_acted n failure) now p other =
      act_with-timer (get_elem? p.actions n) (λ a. action_failed n a failure) p
        (λ a. action_failed-timer n a failure p)
  page_change-timer (routed id) now p other = folder_changed-timer id p
  page_change-timer (used c) now p other = control-timer text c p

  other-is_timely :
      (event : PageEvent t) (m : Moment)
      → is_due event ≡ false
      → is_timely m.page.refresh_timer (m.now + 250) ≡ true
      → is_timely (page_step text event m).page.refresh_timer ((page_step text event m).now + 250)
        ≡ true
  unfolding page_step
  other-is_timely event m other timely =
      rw (page_change-timer event m.now m.page other) (ground arith)

  page_step-is_timely :
      (event : PageEvent t) (m : Moment)
      → is_timely m.page.refresh_timer (m.now + 250) ≡ true
      → is_timely (page_step text event m).page.refresh_timer ((page_step text event m).now + 250)
        ≡ true
  unfolding page_step page_change refresh_fires
  page_step-is_timely refresh_due m timely = ground arith
  page_step-is_timely (time_passes n) m timely = other-is_timely (time_passes n) m refl timely
  page_step-is_timely (seen event) m timely = other-is_timely (seen event) m refl timely
  page_step-is_timely notice_due m timely = other-is_timely notice_due m refl timely
  page_step-is_timely (loaded n next) m timely = other-is_timely (loaded n next) m refl timely
  page_step-is_timely (not_loaded n failure) m timely =
      other-is_timely (not_loaded n failure) m refl timely
  page_step-is_timely (acted n) m timely = other-is_timely (acted n) m refl timely
  page_step-is_timely (not_acted n failure) m timely =
      other-is_timely (not_acted n failure) m refl timely
  page_step-is_timely (routed id) m timely = other-is_timely (routed id) m refl timely
  page_step-is_timely (used c) m timely = other-is_timely (used c) m refl timely

  page_step-is_pending_by :
      (event : PageEvent t) (m : Moment) (bound : ℕ)
      → is_due event ≡ false
      → is_pending_by m.page.refresh_timer bound ≡ true
      → is_pending_by (page_step text event m).page.refresh_timer bound ≡ true
  unfolding page_step
  page_step-is_pending_by event m bound other pending =
      rw (page_change-timer event m.now m.page other) (ground arith)

  page_run-is_timely :
      (events : List (PageEvent t)) (m : Moment)
      → is_timely m.page.refresh_timer (m.now + 250) ≡ true
      → is_timely (page_run text events m).page.refresh_timer ((page_run text events m).now + 250)
        ≡ true
  unfolding page_run
  page_run-is_timely [] m timely = timely
  page_run-is_timely (event ∷ events) m timely =
      page_run-is_timely events (page_step text event m) (page_step-is_timely event m timely)

  page_run-is_pending_by :
      (events : List (PageEvent t)) (m : Moment) (bound : ℕ)
      → All (λ event. is_due event ≡ false) events
      → is_pending_by m.page.refresh_timer bound ≡ true
      → is_pending_by (page_run text events m).page.refresh_timer bound ≡ true
  unfolding page_run
  page_run-is_pending_by [] m bound others pending = pending
  page_run-is_pending_by (event ∷ events) m bound (other, others) pending =
      page_run-is_pending_by events (page_step text event m) bound others
        (page_step-is_pending_by event m bound other pending)

  seen-is_pending_by :
      (event : WsEnvelope t) (m : Moment)
      → is_reloading event ≡ true
      → is_timely m.page.refresh_timer (m.now + 250) ≡ true
      → is_pending_by (page_step text (seen event) m).page.refresh_timer (m.now + 250) ≡ true
  unfolding page_step
  seen-is_pending_by event m reloads timely =
      rw (page_change-timer (seen event) m.now m.page refl, reloads) (ground arith)

  -- In every state that the page can reach, an event about the library that the app's store shows as its
  -- last event, which changes of the library and the progress of a job are not: the store has it as the
  -- last event, and whatever happens on the page before the refresh timer fires, however many events follow,
  -- the timer is set, due at most 250 ms after the event; and if it fires at that time or later, a request
  -- for the library is sent.
  pub page_run-reloads :
      (id : Option String) (before after : List (PageEvent t)) (event : WsEnvelope t)
      (s : AppStore t)
      → is_reloading event ≡ true
      → is_seen s.admin_state event ≡ true
      → All (λ e. is_due e ≡ false) after
      → let m = page_run text before (start id) in
        let shown = page_of (apply_event event s).last_event m in
        let later = page_run text after shown in
        ((apply_event event s).last_event ≡ some event)
        × (is_pending_by later.page.refresh_timer (m.now + 250) ≡ true)
        × ((page_change {t = t} text refresh_due (max later.now (m.now + 250)) later.page).loads
            ≡ Caller.bare ∷ later.page.loads)
  page_run-reloads id before after event s reloads visible others =
      let m = page_run text before (start id) in
      let last : (apply_event event s).last_event ≡ some event =
        apply_event-last_event event s ∙ rw visible refl in
      let later = page_run text after (page_step text (seen event) m) in
      let pending =
        page_run-is_pending_by after (page_step text (seen event) m) (m.now + 250) others
          (seen-is_pending_by event m reloads (page_run-is_timely before (start id) refl)) in
      rw last (refl, pending, refresh_due-loads t text later.page (m.now + 250) later.now pending)
