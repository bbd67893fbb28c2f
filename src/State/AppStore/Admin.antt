-- ===== src/State/AppStore/Admin.antt =====
-- What an event and a snapshot leave of the admin's state and of the last event.
use readflow.Common.{
  if◌then◌else◌, Bool-cases, inl, inr, ◌≡◌, refl, Bool, true, false, Option, none, some, String,
  arith, eq_refl,
}
use readflow.State.AppStore.{
  pong, Payloads, Compare, WsEnvelope, AppStore, AdminState, apply_event, set_admin_state,
  admin_state_equal, job_created, telemetry, with_admin, admin_config_updated, job_updated,
  job_completed, memory_stats, chunk_ready, model_state, library_changed, scheduler_state,
  job_progress,
}

module _ {t : Payloads} where
  abbrev needs_admin : Option (AdminState t) → Bool
  needs_admin none = false
  needs_admin (some a) = true

  -- The events that components see as `lastEvent`: not those of the library, of progress or a pong, and
  -- those of the admin only where the admin's state is known.
  abbrev pub is_seen : Option (AdminState t) → WsEnvelope t → Bool
  is_seen a (telemetry snapshot) = needs_admin a
  is_seen a (admin_config_updated config) = needs_admin a
  is_seen a (memory_stats memory) = needs_admin a
  is_seen a (model_state text) = needs_admin a
  is_seen a (library_changed reason) = false
  is_seen a (job_progress id progress) = false
  is_seen a pong = false
  is_seen a _ = true

  abbrev last_after : Bool → WsEnvelope t → Option (WsEnvelope t) → Option (WsEnvelope t)
  last_after true e last = some e
  last_after false e last = last

  with_admin-last :
      (a : Option (AdminState t)) (change : AdminState t → AdminState t) (e : WsEnvelope t)
      (s : AppStore t)
      → (with_admin a change e s).last_event ≡ last_after (needs_admin a) e s.last_event
  with_admin-last none change e s = refl
  with_admin-last (some a) change e s = refl

  -- An event becomes the last event exactly if it is one that is seen; a change of the library is none.
  pub apply_event-last_event :
      (e : WsEnvelope t) (s : AppStore t)
      → (apply_event e s).last_event ≡ last_after (is_seen s.admin_state e) e s.last_event
  unfolding apply_event
  apply_event-last_event (job_created j) s = refl
  apply_event-last_event (job_updated j) s = refl
  apply_event-last_event (job_completed p) s = refl
  apply_event-last_event (chunk_ready p) s = refl
  apply_event-last_event (scheduler_state p) s = refl
  apply_event-last_event (model_state text) s = with_admin-last s.admin_state _ (model_state text) s
  apply_event-last_event (telemetry p) s = with_admin-last s.admin_state _ (telemetry p) s
  apply_event-last_event (admin_config_updated config) s =
      with_admin-last s.admin_state _ (admin_config_updated config) s
  apply_event-last_event (memory_stats memory) s =
      with_admin-last s.admin_state _ (memory_stats memory) s
  apply_event-last_event (library_changed reason) s = refl
  apply_event-last_event (job_progress id progress) s = refl
  apply_event-last_event pong s = refl

  abbrev pub error_of : Option (AdminState t) → Option (Option String)
  error_of none = none
  error_of (some a) = a.model_last_error

module _ {t : Payloads} (c : Compare t) where
  admin_state_equal_refl : (a : AdminState t) → admin_state_equal c (some a) (some a) ≡ true
  unfolding admin_state_equal
  admin_state_equal_refl a = ground (
    arith,
    eq_refl (c.config_text a.config),
    eq_refl (c.scheduler_text a.scheduler),
    eq_refl (c.telemetry_text a.telemetry),
    eq_refl (c.memory_text a.memory),
  )

  -- The four parts of the store's admin state have the texts of the one that was set, but a model's last
  -- error is kept as it was if only it differs.
  pub set_admin_state_lem :
      (a : AdminState t) (s : AppStore t)
      → (admin_state_equal c (set_admin_state c a s).admin_state (some a) ≡ true)
        × (error_of (set_admin_state c a s).admin_state ≡ (
            if admin_state_equal c s.admin_state (some a)
            then error_of s.admin_state
            else a.model_last_error))
  unfolding set_admin_state
  set_admin_state_lem a s = elim (Bool-cases (admin_state_equal c s.admin_state (some a))) [
    | inl same ↦ rw same (same, refl)
    | inr different ↦ rw different (admin_state_equal_refl a, refl)
  ]
