-- ===== src/Player/Provider/Pending.antt =====
-- No heard chunk is lost while one job is open: over all orders of handlers, effects and settled requests.
use readflow.Common.{
  ℕ, ◌+◌, ◌≡◌, refl, Bool, true, false, not, ◌&&◌, ◌||◌, Option, none, some, String, List, [], ◌∷◌,
  str_eq, arith, get_elem?, length, Bool-cases, inl, inr, ltb, ◌-◌, ap,
}
use readflow.Common.Sets.{has, nat_eq}
use readflow.Player.Heard.{PlayerJob, has-collect_heard_chunk_indexes, resolve_auto_advance}
use readflow.Player.Store.{PlayerStore, is_job, set_last_sync_error}
use readflow.Player.Provider.Reports.{
  delivered, are_about, are_about-append, are_about-get_elem, delivered-append, has-delete_all,
  get_elem-length,
}
use readflow.Player.Provider.{
  Provider, Report, Event, run, step, sync_playback, report_succeeded, JobManifest, accept,
  sync_job, collect, playback_sync_interval_ms, is_http_due, advance, collect_heard, is_advanced,
  flush, auto_advance, advance_input,
}
use readflow.Api.{JobManifest}
use readflow.Player.Provider.Steps.{IsClosed, stay_in, step_closed}

-- The index waits for the next report, or a report of the job with it was accepted.
abbrev pub is_kept : String → ℕ → Provider → Bool
is_kept j i p = has i p.pending_heard || delivered j i p.accepted

module _ (j : String) (i : ℕ) where
  -- The job is open, everything sent is about it, and the index is kept.
  record IsKeeping (p : Provider) : Type 0 where
    here : is_job p.store.job j ≡ true
    about : are_about j p.reports ≡ true
    kept : is_kept j i p ≡ true

  sync_job-IsKeeping :
      (job : Option PlayerJob) (now : ℕ) (force : Bool) (playing : Option Bool) (p : Provider)
      → is_job job j ≡ true
      → IsKeeping p
      → IsKeeping (sync_job job now force playing p)
  sync_job-IsKeeping none now force playing p same keeping = keeping
  sync_job-IsKeeping (some k) now force playing p same keeping =
      elim (Bool-cases (not force && ltb (now - p.last_sync_at) playback_sync_interval_ms)) [
        | inl early ↦ rw early keeping
        | inr in_time ↦ rw in_time (elim (Bool-cases (is_http_due now force p)) [
          | inl due ↦ rw due (record {
            here = keeping.here;
            about = are_about-append j p.reports _ keeping.about (ground arith);
            kept = keeping.kept;
          })
          | inr not_due ↦
              rw not_due
                (record { here = keeping.here; about = keeping.about; kept = keeping.kept })
        ])
      ]

  sync_playback-IsKeeping :
      (now : ℕ) (force : Bool) (playing : Option Bool) (p : Provider)
      → IsKeeping p
      → IsKeeping (sync_playback now force playing p)
  unfolding sync_playback
  sync_playback-IsKeeping now force playing p keeping =
      sync_job-IsKeeping p.store.job now force playing p keeping.here keeping

  accept-IsKeeping :
      (r : Option Report) (p : Provider)
      → ((s : Report) → r ≡ some s → str_eq s.job_id j ≡ true)
      → IsKeeping p
      → IsKeeping (accept r p)
  unfolding set_last_sync_error
  accept-IsKeeping none p about keeping = keeping
  accept-IsKeeping (some r) p about keeping =
      let same = about r refl in
      record {
        here = keeping.here;
        about = keeping.about;
        kept = ground (
          arith,
          keeping.kept,
          has-delete_all i r.heard p.pending_heard,
          delivered-append j i p.accepted (r ∷ []),
        );
      }

  collect-keeps :
      (m : Option JobManifest) (s : PlayerStore) (heard : List ℕ)
      → (not (has i heard) || has i (collect m s heard)) ≡ true
  collect-keeps none s heard = ground arith
  collect-keeps (some m) s heard =
      let position = s.outputs.current_time_seconds + s.source.anchor_offset_seconds in
      ground (
        arith,
        (has-collect_heard_chunk_indexes m.chunks position position i heard (omega arith)).0,
      )

  IsKeeping-IsClosed : IsClosed j IsKeeping
  unfolding collect_heard report_succeeded
  IsKeeping-IsClosed = record {
    here = λ p keeping. keeping.here;
    stored = λ f p here keeping. record { here = here; about = keeping.about; kept = keeping.kept };
    synced = sync_playback-IsKeeping;
    collected = λ p keeping. record {
      here = keeping.here;
      about = keeping.about;
      kept =
          ground
            (arith, keeping.kept, collect-keeps p.store.source.manifest p.store p.pending_heard);
    };
    accepted = λ n p keeping.
        accept-IsKeeping (get_elem? p.reports n) p
          (λ r. are_about-get_elem j p.reports n r keeping.about) keeping;
    seen = λ pending p keeping. record {
      here = keeping.here;
      about = keeping.about;
      kept = keeping.kept;
    };
  }

  advance-IsKeeping :
      (next : Option String) (p : Provider) → IsKeeping p → IsKeeping (advance next p)
  advance-IsKeeping none p keeping = keeping
  advance-IsKeeping (some next) p keeping =
      elim (Bool-cases (is_advanced p.auto_advanced_for p.store.job)) [
        | inl again ↦ rw again keeping
        | inr first ↦
            rw first (record { here = keeping.here; about = keeping.about; kept = keeping.kept })
      ]

  auto_advance-IsKeeping :
      (ended on : Bool) (p : Provider) → IsKeeping p → IsKeeping (auto_advance ended on p)
  unfolding auto_advance
  auto_advance-IsKeeping false on p keeping = record {
    here = keeping.here;
    about = keeping.about;
    kept = keeping.kept;
  }
  auto_advance-IsKeeping true on p keeping =
      advance-IsKeeping (resolve_auto_advance (advance_input true on p.store)) p keeping

  run-IsKeeping :
      (es : List Event) (p : Provider) → stay_in j es ≡ true → IsKeeping p → IsKeeping (run es p)
  unfolding run
  run-IsKeeping [] p here keeping = keeping
  run-IsKeeping (e ∷ es) p here keeping = run-IsKeeping es (step e p) (ground arith) (
      step_closed j IsKeeping IsKeeping-IsClosed e p (ground arith)
        (λ ended on same. auto_advance-IsKeeping ended on p keeping) keeping)

  -- While one job is open, all reports so far are about it, and the events open no other: an index that
  -- waits to be reported is never lost. It waits still, or a report of this job that lists it was accepted.
  pub run-is_kept :
      (es : List Event) (p : Provider)
      → is_job p.store.job j ≡ true
      → are_about j p.reports ≡ true
      → has i p.pending_heard ≡ true
      → stay_in j es ≡ true
      → is_kept j i (run es p) ≡ true
  run-is_kept es p here about waits stays =
      (run-IsKeeping es p stays (record { here = here; about = about; kept = ground arith })).kept

  accept-delivered :
      (r : Report) (p : Provider)
      → str_eq r.job_id j ≡ true
      → r.heard ≡ p.pending_heard
      → is_kept j i p ≡ true
      → (delivered j i (accept (some r) p).accepted ≡ true)
        × (has i (accept (some r) p).pending_heard ≡ false)
  accept-delivered r p same all kept = ground (
    arith,
    ap (has i) all,
    delivered-append j i p.accepted (r ∷ []),
    has-delete_all i r.heard p.pending_heard,
  )

  sync_job-delivered :
      (job : Option PlayerJob) (now : ℕ) (p : Provider)
      → is_job job j ≡ true
      → is_kept j i p ≡ true
      → let q = report_succeeded (length p.reports) (sync_job job now true none p) in
        (delivered j i q.accepted ≡ true) × (has i q.pending_heard ≡ false)
  unfolding report_succeeded
  sync_job-delivered none now p here kept = ground arith
  sync_job-delivered (some k) now p here kept =
      let q = sync_job (some k) now true none p in
      rw (get_elem-length p.reports _) (accept-delivered _ q here refl kept)

  -- While one job is open, all reports so far are about it, and the events open no other: whatever the
  -- events are, once the tab is left and the report of that is accepted, an index that waited to be reported
  -- was delivered for this job, and waits no more.
  pub run-delivered :
      (es : List Event) (p : Provider) (now : ℕ)
      → is_job p.store.job j ≡ true
      → are_about j p.reports ≡ true
      → has i p.pending_heard ≡ true
      → stay_in j es ≡ true
      → let q = run es p in
        let r = report_succeeded (length q.reports) (flush now q) in
        (delivered j i r.accepted ≡ true) × (has i r.pending_heard ≡ false)
  unfolding flush sync_playback
  run-delivered es p now here about waits stays =
      let keeping =
        run-IsKeeping es p stays (record { here = here; about = about; kept = ground arith }) in
      sync_job-delivered (run es p).store.job now (run es p) keeping.here keeping.kept
