-- ===== src/Reader/Page/Fresh.antt =====
-- A refresh that is asked for is never lost: the page under all orders of answers, events and timers.
use readflow.Common.{
  ℕ, ◌<◌, ◌≡◌, refl, ap, Bool, true, false, not, ◌&&◌, ◌||◌, Option, none, some, List, [], ◌∷◌,
  String, str_eq, ltb, arith, Bool-cases, inl, inr,
}
use readflow.Chunk.{Chunk}
use readflow.Api.{JobDetail, JobManifest, JobProgress, StreamJob}
use readflow.Live.{WebSocketStatus}
use readflow.State.AppStore.{
  pong, Payloads, WsEnvelope, scheduler_state, model_state, telemetry, admin_config_updated,
  memory_stats, job_progress,
}
use readflow.Reader.Patch.{StreamEventMeta}
use readflow.Reader.Page.Waiting.{
  IsWaiting, IsPage, is_loading_now, same-IsWaiting, refresh_reader_state-IsWaiting,
  finish_refresh-IsWaiting, is_numbered,
}
use readflow.Reader.Page.{
  not_found, ReaderPage, Refresh, LoadFailure, refresh_reader_state, refresh_succeeded,
  refresh_failed, apply_job_patch, marked, mark_failed, apply_refresh, fail, job_updated,
  show_failure, succeed, failed_with, job_completed, chunk_ready, job_created, library_changed,
  apply_progress,
}
use readflow.Reader.Page.Events.{
  see_event, socket_changed, retry_fires, poll_fires, see_patch, meta_of, needs_reconcile,
  is_retry_over, is_connected, is_quiet_before, is_live_job,
}

pub data PageEvent (t : Payloads) : Type 0 where
  mounted stall_retried retry_fired : PageEvent t
  answered : JobDetail → JobManifest → ℕ → PageEvent t
  load_failed : LoadFailure → PageEvent t
  patched : StreamJob → PageEvent t
  seen : WsEnvelope t → ℕ → PageEvent t
  socket_is : WebSocketStatus → PageEvent t
  polled : WebSocketStatus → Bool → PageEvent t
  progressed : JobProgress → PageEvent t
  mark_refused : String → PageEvent t

abbrev no_meta : StreamEventMeta
no_meta = record { mime_type = none; init_segment_url = none }

module _ {t : Payloads} where
  unfoldable pub page_step : PageEvent t → ReaderPage → ReaderPage
  page_step mounted = refresh_reader_state "initial" true
  page_step stall_retried = refresh_reader_state "stall-retry" false
  page_step retry_fired = retry_fires
  page_step (answered job manifest now) = refresh_succeeded job manifest now
  page_step (load_failed failure) = refresh_failed failure
  page_step (patched patch) = apply_job_patch patch none no_meta
  page_step (seen event now) = see_event event now
  page_step (socket_is status) = socket_changed status
  page_step (polled status is_stale) = poll_fires status is_stale
  page_step (progressed progress) = marked progress
  page_step (mark_refused text) = mark_failed text

  unfoldable pub page_run : List (PageEvent t) → ReaderPage → ReaderPage
  page_run [] p = p
  page_run (e ∷ es) p = page_run es (page_step e p)

module _ (n : ℕ) where
  apply_refresh-IsWaiting :
      (r : Refresh) (job : JobDetail) (manifest : JobManifest) (now : ℕ) (p : ReaderPage)
      → p.refresh_in_flight ≡ some r
      → IsWaiting n p
      → IsWaiting n (apply_refresh r job manifest now p)
  apply_refresh-IsWaiting r job manifest now p e w =
      elim (Bool-cases (ltb r.request_id p.last_applied_request_id)) [
        | inl old ↦ rw old w
        | inr new ↦ rw new (record {
          page = record {
            routed = w.page.routed;
            numbered = w.page.numbered;
            ordered =
                ground (arith, w.page.numbered, ap (λ f. is_numbered f p.refresh_request_id) e);
            named = w.page.named;
            later = w.page.later;
          };
          served = w.served;
        })
      ]

  succeed-IsWaiting :
      (f : Option Refresh) (job : JobDetail) (manifest : JobManifest) (now : ℕ) (p : ReaderPage)
      → p.refresh_in_flight ≡ f
      → IsWaiting n p
      → IsWaiting n (succeed f job manifest now p)
  succeed-IsWaiting none job manifest now p e w = w
  succeed-IsWaiting (some r) job manifest now p e w =
      finish_refresh-IsWaiting n r _ (apply_refresh-IsWaiting r job manifest now p e w)

  show_failure-IsWaiting :
      (failure : LoadFailure) (p : ReaderPage)
      → IsWaiting n p
      → IsWaiting n (show_failure failure p)
  show_failure-IsWaiting not_found p w =
      same-IsWaiting n p _
        (record { route = refl; flight = refl; id = refl; applied = refl; queue = refl }) w
  show_failure-IsWaiting (failed_with text) p w =
      same-IsWaiting n p _
        (record { route = refl; flight = refl; id = refl; applied = refl; queue = refl }) w

  fail-IsWaiting :
      (f : Option Refresh) (failure : LoadFailure) (p : ReaderPage)
      → IsWaiting n p
      → IsWaiting n (fail f failure p)
  fail-IsWaiting none failure p w = w
  fail-IsWaiting (some r) failure p w =
      finish_refresh-IsWaiting n r (show_failure failure p) (show_failure-IsWaiting failure p w)

  apply_job_patch-IsWaiting :
      (patch : StreamJob) (chunk : Option Chunk) (meta : StreamEventMeta) (p : ReaderPage)
      → IsWaiting n p
      → IsWaiting n (apply_job_patch patch chunk meta p)
  unfolding apply_job_patch
  apply_job_patch-IsWaiting patch chunk meta p w =
      elim (Bool-cases (not (str_eq patch.id p.job_id))) [
        | inl other ↦ rw other w
        | inr same ↦ rw same (
            same-IsWaiting n p _
              (record { route = refl; flight = refl; id = refl; applied = refl; queue = refl }) w)
      ]

  see_patch-IsWaiting :
      (patch : StreamJob) (chunk : Option Chunk) (meta : StreamEventMeta) (reason : String)
      (now : ℕ) (p : ReaderPage)
      → IsWaiting n p
      → IsWaiting n (see_patch patch chunk meta reason now p)
  see_patch-IsWaiting patch chunk meta reason now p w =
      elim (Bool-cases (not (str_eq patch.id p.job_id))) [
        | inl other ↦ rw other w
        | inr same ↦
            let q = apply_job_patch patch chunk meta p in
            rw same (
              same-IsWaiting n q _
                (record { route = refl; flight = refl; id = refl; applied = refl; queue = refl })
                (apply_job_patch-IsWaiting patch chunk meta p w))
      ]

  module _ {t : Payloads} where
    see_event-IsWaiting :
        (e : WsEnvelope t) (now : ℕ) (p : ReaderPage)
        → IsWaiting n p
        → IsWaiting n (see_event e now p)
    unfolding see_event
    see_event-IsWaiting (job_updated j) now p w =
        see_patch-IsWaiting j none _ "ws:job_updated" now p w
    see_event-IsWaiting (job_completed c) now p w =
        see_patch-IsWaiting c.job c.chunk _ "ws:job_completed" now p w
    see_event-IsWaiting (chunk_ready c) now p w =
        let seen = see_patch-IsWaiting c.job c.chunk (meta_of c) "ws:chunk_ready" now p w in
        elim (Bool-cases (needs_reconcile (meta_of c) c.job.id p)) [
          | inl bare ↦
              rw bare
                (refresh_reader_state-IsWaiting n "ws:chunk_ready:reconcile" false _ refl seen.page)
          | inr known ↦ rw known seen
        ]
    see_event-IsWaiting (job_created j) now p w =
        refresh_reader_state-IsWaiting n "ws:job_created" false p refl w.page
    see_event-IsWaiting (library_changed reason) now p w =
        refresh_reader_state-IsWaiting n "ws:library_changed" false p refl w.page
    see_event-IsWaiting (scheduler_state x) now p w = w
    see_event-IsWaiting (model_state x) now p w = w
    see_event-IsWaiting (telemetry x) now p w = w
    see_event-IsWaiting (admin_config_updated x) now p w = w
    see_event-IsWaiting (memory_stats x) now p w = w
    see_event-IsWaiting (job_progress id x) now p w = w
    see_event-IsWaiting pong now p w = w

    page_step-IsWaiting :
        (e : PageEvent t) (p : ReaderPage) → IsWaiting n p → IsWaiting n (page_step e p)
    unfolding page_step retry_fires refresh_succeeded refresh_failed socket_changed poll_fires
        marked mark_failed apply_progress
    page_step-IsWaiting mounted p w = refresh_reader_state-IsWaiting n "initial" true p refl w.page
    page_step-IsWaiting stall_retried p w =
        refresh_reader_state-IsWaiting n "stall-retry" false p refl w.page
    page_step-IsWaiting retry_fired p w = elim (Bool-cases (is_retry_over p)) [
      | inl over ↦ rw over w
      | inr next ↦ rw next (
          refresh_reader_state-IsWaiting n "retry" false _ refl (record {
            routed = w.page.routed;
            numbered = w.page.numbered;
            ordered = w.page.ordered;
            named = w.page.named;
            later = w.page.later;
          }))
    ]
    page_step-IsWaiting (answered job manifest now) p w =
        succeed-IsWaiting p.refresh_in_flight job manifest now p refl w
    page_step-IsWaiting (load_failed failure) p w = fail-IsWaiting p.refresh_in_flight failure p w
    page_step-IsWaiting (patched patch) p w = apply_job_patch-IsWaiting patch none no_meta p w
    page_step-IsWaiting (seen event now) p w = see_event-IsWaiting event now p w
    page_step-IsWaiting (socket_is status) p w =
        let same : IsWaiting n (record p { previous_socket_status = status }) =
          same-IsWaiting n p _
            (record { route = refl; flight = refl; id = refl; applied = refl; queue = refl }) w in
        elim (Bool-cases (not (is_connected status) || is_quiet_before p.previous_socket_status)) [
          | inl quiet ↦ rw quiet same
          | inr back ↦ rw back (
              refresh_reader_state-IsWaiting n "reconnect" false _ refl (record {
                routed = w.page.routed;
                numbered = w.page.numbered;
                ordered = w.page.ordered;
                named = w.page.named;
                later = w.page.later;
              }))
        ]
    page_step-IsWaiting (polled status is_stale) p w =
        elim (Bool-cases (is_live_job p.job && (not (is_connected status) || is_stale))) [
          | inl needed ↦ rw needed (refresh_reader_state-IsWaiting n "poll" false p refl w.page)
          | inr idle ↦ rw idle w
        ]
    page_step-IsWaiting (progressed progress) p w =
        same-IsWaiting n p _
          (record { route = refl; flight = refl; id = refl; applied = refl; queue = refl }) w
    page_step-IsWaiting (mark_refused text) p w =
        same-IsWaiting n p _
          (record { route = refl; flight = refl; id = refl; applied = refl; queue = refl }) w

    pub page_run-IsWaiting :
        (es : List (PageEvent t)) (p : ReaderPage) → IsWaiting n p → IsWaiting n (page_run es p)
    unfolding page_run
    page_run-IsWaiting [] p w = w
    page_run-IsWaiting (e ∷ es) p w =
        page_run-IsWaiting es (page_step e p) (page_step-IsWaiting e p w)

-- On a page with a route, whose request under way is the last that was started: after a refresh is asked for
-- with a reason, whatever comes in between, when no request is under way any more, one was started since.
pub page_run-refreshes :
    {t : Payloads} (reason : String) (shows : Bool) (p : ReaderPage) (es : List (PageEvent t))
    → str_eq reason "" ≡ false
    → IsPage p.refresh_request_id p
    → is_loading_now (page_run es (refresh_reader_state reason shows p)).refresh_in_flight ≡ false
    → p.refresh_request_id < (page_run es (refresh_reader_state reason shows p)).refresh_request_id
page_run-refreshes reason shows p es known page over =
    let n = p.refresh_request_id in
    let w =
      page_run-IsWaiting n es _ (refresh_reader_state-IsWaiting n reason shows p known page) in
    ground (arith, w.served)
