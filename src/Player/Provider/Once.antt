-- ===== src/Player/Provider/Once.antt =====
-- How often the end of a job opens the next one.
use readflow.Common.{
  if◌then◌else◌, eq_iff, suc, ℕ, ◌+◌, ◌≤◌, ◌≡◌, Bool, true, false, not, ◌&&◌, Option, none, some,
  String, List, [], ◌∷◌, str_eq, arith, length, Bool-cases, inl, inr, ltb, ◌-◌, get_elem?, ap,
  length-append,
}
use readflow.Player.Heard.{PlayerJob}
use readflow.Player.Store.{is_job, set_last_sync_error}
use readflow.Player.Provider.{
  Provider, Event, ended_changed, run, step, auto_advance, advance, navigate, is_advanced,
  sync_playback, sync_job, accept, collect_heard, set_last_sync_error, Report, report_succeeded,
  playback_sync_interval_ms, is_http_due, job_id_of,
}
use readflow.Player.Provider.Steps.{IsClosed, step_closed, stay_in}

-- How often the media's end is taken back, as by a replay.
abbrev replays_at : Event → ℕ
replays_at (ended_changed ended on) = if ended then 0 else 1
replays_at _ = 0

abbrev pub replays : List Event → ℕ
replays [] = 0
replays (e ∷ es) = replays_at e + replays es

abbrev is_id : Option String → String → Bool
is_id none j = false
is_id (some id) j = str_eq id j

-- How often the next job may still be opened: once, unless it was for this job.
abbrev pub openings_left : String → Provider → ℕ
openings_left j p = if is_id p.auto_advanced_for j then 0 else 1

module _ (j : String) (bound : ℕ) where
  record IsBounded (p : Provider) : Type 0 where
    here : is_job p.store.job j ≡ true
    opens : length p.navigated + openings_left j p ≤ bound

  sync_job-IsBounded :
      (job : Option PlayerJob) (now : ℕ) (force : Bool) (playing : Option Bool) (p : Provider)
      → IsBounded p
      → IsBounded (sync_job job now force playing p)
  sync_job-IsBounded none now force playing p b = b
  sync_job-IsBounded (some k) now force playing p b =
      elim (Bool-cases (not force && ltb (now - p.last_sync_at) playback_sync_interval_ms)) [
        | inl early ↦ rw early b
        | inr in_time ↦ rw in_time (elim (Bool-cases (is_http_due now force p)) [
          | inl due ↦ rw due (record { here = b.here; opens = b.opens })
          | inr not_due ↦ rw not_due (record { here = b.here; opens = b.opens })
        ])
      ]

  accept-IsBounded : (r : Option Report) (p : Provider) → IsBounded p → IsBounded (accept r p)
  unfolding set_last_sync_error
  accept-IsBounded none p b = b
  accept-IsBounded (some r) p b = record { here = b.here; opens = b.opens }

  IsBounded-IsClosed : IsClosed j IsBounded
  unfolding collect_heard report_succeeded sync_playback
  IsBounded-IsClosed = record {
    here = λ p b. b.here;
    stored = λ f p here b. record { here = here; opens = b.opens };
    synced = λ now force playing p b. sync_job-IsBounded p.store.job now force playing p b;
    collected = λ p b. record { here = b.here; opens = b.opens };
    accepted = λ n p b. accept-IsBounded (get_elem? p.reports n) p b;
    seen = λ pending p b. record { here = b.here; opens = b.opens };
  }

  -- Opening the next job uses up the one opening that is left.
  navigate-opens :
      (auto : Option String) (job : Option PlayerJob) (n : ℕ)
      → is_job job j ≡ true
      → n + (if is_id auto j then 0 else 1) ≤ bound
      → is_advanced auto job ≡ false
      → suc n + (if is_id (job_id_of job) j then 0 else 1) ≤ bound
  navigate-opens none none n here b first = ground arith
  navigate-opens (some id) none n here b first = ground arith
  navigate-opens none (some k) n here b first = ground arith
  navigate-opens (some id) (some k) n here b first =
      ground (arith, eq_iff id j, eq_iff k.id j, eq_iff id k.id)

  navigate-IsBounded :
      (next : String) (p : Provider)
      → IsBounded p
      → is_advanced p.auto_advanced_for p.store.job ≡ false
      → IsBounded (navigate next p)
  navigate-IsBounded next p b first = record {
    here = b.here;
    opens = rw (length-append p.navigated (next ∷ [])) (
        ground (
          arith,
          navigate-opens p.auto_advanced_for p.store.job (length p.navigated) b.here b.opens first,
        ));
  }

  advance-IsBounded :
      (next : Option String) (p : Provider) → IsBounded p → IsBounded (advance next p)
  advance-IsBounded none p b = b
  advance-IsBounded (some next) p b =
      elim (Bool-cases (is_advanced p.auto_advanced_for p.store.job)) [
        | inl again ↦ rw again b
        | inr first ↦ rw first (navigate-IsBounded next p b first)
      ]

  ended-IsBounded :
      (ended on : Bool) (p : Provider)
      → IsBounded p
      → length p.navigated + (if ended then 0 else 1) ≤ bound
      → IsBounded (auto_advance ended on p)
  unfolding auto_advance
  ended-IsBounded true on p b small = advance-IsBounded _ p b
  ended-IsBounded false on p b small = record { here = b.here; opens = small }

-- Each time the end is taken back, one more opening is allowed.
step-IsBounded :
    (j : String) (bound : ℕ) (e : Event) (p : Provider)
    → stay_in j (e ∷ []) ≡ true
    → IsBounded j bound p
    → IsBounded j (bound + replays_at e) (step e p)
step-IsBounded j bound e p stays b =
    let wide : IsBounded j (bound + replays_at e) p = record {
      here = b.here;
      opens = let opens = b.opens in omega arith;
    } in
    step_closed j (IsBounded j (bound + replays_at e)) (IsBounded-IsClosed j (bound + replays_at e))
      e p (ground arith)
      (λ ended on same.
        ended-IsBounded j (bound + replays_at e) ended on p wide
          (let opens = b.opens in let counted = ap replays_at same in omega arith))
      wide

run-IsBounded :
    (j : String) (bound : ℕ) (es : List Event) (p : Provider)
    → stay_in j es ≡ true
    → IsBounded j bound p
    → IsBounded j (bound + replays es) (run es p)
unfolding run
run-IsBounded j bound [] p stays b = record {
  here = b.here;
  opens = let opens = b.opens in omega arith;
}
run-IsBounded j bound (e ∷ es) p stays b =
    let next = step-IsBounded j bound e p (ground arith) b in
    let rest = run-IsBounded j (bound + replays_at e) es (step e p) (ground arith) next in
    record { here = rest.here; opens = let opens = rest.opens in omega arith }

-- While one job stays open, whatever happens and however often the effect of the media's end runs: the next
-- job is opened at most once, not at all if it was opened for this job already, and once more for each time
-- that the end is taken back.
pub run-opens_once :
    (j : String) (es : List Event) (p : Provider)
    → is_job p.store.job j ≡ true
    → stay_in j es ≡ true
    → length (run es p).navigated ≤ length p.navigated + openings_left j p + replays es
run-opens_once j es p here stays =
    let b =
      run-IsBounded j (length p.navigated + openings_left j p) es p stays
        (record { here = here; opens = omega arith }) in
    let opens = b.opens in omega arith
