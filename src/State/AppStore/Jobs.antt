-- ===== src/State/AppStore/Jobs.antt =====
-- The jobs of the store are the last that were received, of events and snapshots in any order.
use readflow.Common.{
  suc, ◌≤◌, ◌<◌, ◌≡◌, refl, sym, ◌∙◌, ap, Bool, true, false, Option, none, some, List, [], ◌∷◌,
  String, str_eq, if◌then◌else◌, arith, length, Bool-cases, Option-cases, inl, inr, eq_iff,
}
use readflow.Common.Sets.{get, put, get-put, string_eq}
use readflow.Api.{JobSummary, StreamJob}
use readflow.State.AppStore.{
  pong, Payloads, Compare, WsEnvelope, AppStore, Update, received, update, updates, apply_event,
  merge_snapshot_jobs, set_jobs, jobs_equal, are_in, to_summary, same_entry, job_created,
  set_admin_state, set_voices, synced, AdminState, Voice, job_updated, job_completed, chunk_ready,
  scheduler_state, with_admin, model_state, telemetry, admin_config_updated, memory_stats,
  library_changed, job_progress,
}

abbrev is_some : Option JobSummary → Bool
is_some none = false
is_some (some j) = true

length-put :
    (k : String) (v : JobSummary) (m : List (String × JobSummary))
    → length (put k v m) ≡ (if is_some (get k m) then length m else suc (length m))
length-put k v [] = refl
length-put k v ((j, w) ∷ m) = ground (arith, length-put k v m)

-- The job of this id that was received last, with what there was before.
abbrev pub latest_of : String → List JobSummary → Option JobSummary → Option JobSummary
latest_of k [] known = known
latest_of k (j ∷ jobs) known = latest_of k jobs (if str_eq j.id k then some j else known)

get-merge_snapshot_jobs :
    (k : String) (jobs : List JobSummary) (m : List (String × JobSummary))
    → get k (merge_snapshot_jobs jobs m) ≡ latest_of k jobs (get k m)
unfolding merge_snapshot_jobs
get-merge_snapshot_jobs k [] m = refl
get-merge_snapshot_jobs k (j ∷ jobs) m =
    get-merge_snapshot_jobs k jobs (put j.id j m) ∙ ap (latest_of k jobs) (get-put j.id k j m)

length-merge_snapshot_jobs :
    (jobs : List JobSummary) (m : List (String × JobSummary))
    → length m ≤ length (merge_snapshot_jobs jobs m)
unfolding merge_snapshot_jobs
length-merge_snapshot_jobs [] m = omega arith
length-merge_snapshot_jobs (j ∷ jobs) m =
    ground (arith, length-put j.id j m, length-merge_snapshot_jobs jobs (put j.id j m))

-- A key that a snapshot adds makes the map longer.
merge_snapshot_jobs-grows :
    (k : String) (jobs : List JobSummary) (m : List (String × JobSummary))
    → is_some (get k m) ≡ false
    → is_some (get k (merge_snapshot_jobs jobs m)) ≡ true
    → length m < length (merge_snapshot_jobs jobs m)
unfolding merge_snapshot_jobs
merge_snapshot_jobs-grows k [] m absent found = ground arith
merge_snapshot_jobs-grows k (j ∷ jobs) m absent found = ground (
  arith,
  eq_iff j.id k,
  get-put j.id k j m,
  length-put j.id j m,
  length-merge_snapshot_jobs jobs (put j.id j m),
  merge_snapshot_jobs-grows k jobs (put j.id j m),
)

module _ {t : Payloads} (c : Compare t) where
  same_entry-eq : (a : JobSummary) (b : Option JobSummary) → same_entry c a b ≡ true → b ≡ some a
  same_entry-eq a none same = ground arith
  same_entry-eq a (some b) same = ap some (sym (c.same_job_eq a b same))

  -- An entry of a map that is contained in another is there.
  get-are_in :
      (k : String) (j : JobSummary) (a b : List (String × JobSummary))
      → are_in c a b ≡ true
      → get k a ≡ some j
      → get k b ≡ some j
  get-are_in k j [] b contained found = ground arith
  get-are_in k j ((key, w) ∷ a) b contained found = elim (Bool-cases (str_eq key k)) [
    | inl here ↦
        let same = (eq_iff key k).0 here in
        let entry = same_entry-eq w (get key b) (ground arith) in
        let first : some w ≡ some j = rw here at found in rw (sym same) (entry ∙ first)
    | inr further ↦ get-are_in k j a b (ground arith) (rw further at found)
  ]

  -- A snapshot that changes nothing, as `jobsEqual` sees it, leaves every entry.
  jobs_equal-get :
      (k : String) (jobs : List JobSummary) (m : List (String × JobSummary))
      → jobs_equal c m (merge_snapshot_jobs jobs m) ≡ true
      → get k m ≡ get k (merge_snapshot_jobs jobs m)
  unfolding jobs_equal
  jobs_equal-get k jobs m same = elim (Option-cases (get k m)) [
    | inl absent ↦ elim (Option-cases (get k (merge_snapshot_jobs jobs m))) [
      | inl still ↦ absent ∙ sym still
      | inr (j, found) ↦
          let longer = merge_snapshot_jobs-grows k jobs m (ap is_some absent) (ap is_some found) in
          ground arith
    ]
    | inr (j, found) ↦ found ∙ sym (get-are_in k j m _ (ground arith) found)
  ]

  get-set_jobs :
      (k : String) (jobs : List JobSummary) (s : AppStore t)
      → get k (set_jobs c (merge_snapshot_jobs jobs s.jobs) s).jobs
        ≡ latest_of k jobs (get k s.jobs)
  unfolding set_jobs
  get-set_jobs k jobs s =
      elim (Bool-cases (jobs_equal c s.jobs (merge_snapshot_jobs jobs s.jobs))) [
        | inl same ↦
            rw same (jobs_equal-get k jobs s.jobs same ∙ get-merge_snapshot_jobs k jobs s.jobs)
        | inr different ↦ rw different (get-merge_snapshot_jobs k jobs s.jobs)
      ]

  set_voices-jobs : (voices : List Voice) (s : AppStore t) → (set_voices c voices s).jobs ≡ s.jobs
  unfolding set_voices
  set_voices-jobs voices s = ground arith

  set_admin_state-jobs : (a : AdminState t) (s : AppStore t) → (set_admin_state c a s).jobs ≡ s.jobs
  unfolding set_admin_state
  set_admin_state-jobs a s = ground arith

-- The job that an event brings, narrowed to what the store keeps of it.
abbrev latest_job : String → StreamJob → Option JobSummary → Option JobSummary
latest_job k j known = if str_eq j.id k then some (to_summary j.summary) else known

module _ {t : Payloads} where
  abbrev latest_event : String → WsEnvelope t → Option JobSummary → Option JobSummary
  latest_event k (job_created j) known = latest_job k j known
  latest_event k (job_updated j) known = latest_job k j known
  latest_event k (job_completed p) known = latest_job k p.job known
  latest_event k (chunk_ready p) known = latest_job k p.job known
  latest_event k _ known = known

  abbrev latest_update : String → Update t → Option JobSummary → Option JobSummary
  latest_update k (received event) known = latest_event k event known
  latest_update k (synced jobs voices a) known = latest_of k jobs known

  -- The last that was received of this job, over updates.
  abbrev pub latest : String → List (Update t) → Option JobSummary → Option JobSummary
  latest k [] known = known
  latest k (u ∷ us) known = latest k us (latest_update k u known)

  with_admin-jobs :
      (a : Option (AdminState t)) (change : AdminState t → AdminState t) (e : WsEnvelope t)
      (s : AppStore t)
      → (with_admin a change e s).jobs ≡ s.jobs
  with_admin-jobs none change e s = refl
  with_admin-jobs (some a) change e s = refl

  get-apply_event :
      (k : String) (e : WsEnvelope t) (s : AppStore t)
      → get k (apply_event e s).jobs ≡ latest_event k e (get k s.jobs)
  unfolding apply_event
  get-apply_event k (job_created j) s = get-put j.id k (to_summary j.summary) s.jobs
  get-apply_event k (job_updated j) s = get-put j.id k (to_summary j.summary) s.jobs
  get-apply_event k (job_completed p) s = get-put p.job.id k (to_summary p.job.summary) s.jobs
  get-apply_event k (chunk_ready p) s = get-put p.job.id k (to_summary p.job.summary) s.jobs
  get-apply_event k (scheduler_state p) s = refl
  get-apply_event k (model_state text) s =
      ap (get k) (with_admin-jobs s.admin_state _ (model_state text) s)
  get-apply_event k (telemetry p) s = ap (get k) (with_admin-jobs s.admin_state _ (telemetry p) s)
  get-apply_event k (admin_config_updated config) s =
      ap (get k) (with_admin-jobs s.admin_state _ (admin_config_updated config) s)
  get-apply_event k (memory_stats memory) s =
      ap (get k) (with_admin-jobs s.admin_state _ (memory_stats memory) s)
  get-apply_event k (library_changed reason) s = refl
  get-apply_event k (job_progress id progress) s = refl
  get-apply_event k pong s = refl

module _ {t : Payloads} (c : Compare t) where
  get-update :
      (k : String) (u : Update t) (s : AppStore t)
      → get k (update c u s).jobs ≡ latest_update k u (get k s.jobs)
  unfolding update
  get-update k (received event) s = get-apply_event k event s
  get-update k (synced jobs voices a) s =
      let with_jobs = set_jobs c (merge_snapshot_jobs jobs s.jobs) s in
      ap (get k) (
        set_admin_state-jobs c a (set_voices c voices with_jobs)
        ∙ set_voices-jobs c voices with_jobs)
      ∙ get-set_jobs c k jobs s

  -- After any events and snapshots, the store has of each job what was received last: the job of the last
  -- snapshot or event with it, of an event the summary without folder and progress; else what it had before.
  pub get-updates :
      (k : String) (us : List (Update t)) (s : AppStore t)
      → get k (updates c us s).jobs ≡ latest k us (get k s.jobs)
  unfolding updates
  get-updates k [] s = refl
  get-updates k (u ∷ us) s = get-updates k us (update c u s) ∙ ap (latest k us) (get-update k u s)
