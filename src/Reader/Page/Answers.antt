-- ===== src/Reader/Page/Answers.antt =====
-- Every answer of the server that is waited for is taken, whole: job and manifest are of one answer.
use readflow.Common.{
  ℕ, ◌≡◌, refl, true, false, Option, none, some, List, String, str_eq, arith, Bool-cases, inl, inr,
  Bool, ltb, ◌||◌, ap,
}
use readflow.Api.{JobDetail, JobManifest}
use readflow.Live.{WebSocketStatus}
use readflow.State.AppStore.{Payloads}
use readflow.Reader.Page.{
  ReaderPage, Refresh, refresh_reader_state, refresh_succeeded, initial_page, resume_queue,
  refresh_over, succeed,
}
use readflow.Reader.Page.Waiting.{
  IsPage, is_loading_now, is_numbered, refresh_reader_state-IsWaiting,
}
use readflow.Reader.Page.Fresh.{PageEvent, page_run, page_run-IsWaiting}

-- The page shows this job and this manifest, and no error.
abbrev pub IsShown : JobDetail → JobManifest → ReaderPage → Type 0
IsShown job manifest p = (p.job ≡ some job) × (p.manifest ≡ some manifest) × (p.error ≡ none)

module _ (job : JobDetail) (manifest : JobManifest) where
  refresh_over-IsShown :
      (f : Option Refresh) (reason : String) (shows : Bool) (p : ReaderPage)
      → IsShown job manifest p
      → IsShown job manifest (refresh_over f reason shows p)
  refresh_over-IsShown none reason shows p s = s
  refresh_over-IsShown (some r) reason shows p s = s

  resume_queue-IsShown :
      (q : Option String) (p : ReaderPage)
      → IsShown job manifest p
      → IsShown job manifest (resume_queue q p)
  unfolding refresh_reader_state
  resume_queue-IsShown none p s = s
  resume_queue-IsShown (some reason) p s =
      elim (Bool-cases (str_eq reason "" || str_eq p.job_id "")) [
        | inl nothing ↦ ground (arith, refresh_over-IsShown p.refresh_in_flight reason false p s)
        | inr next ↦ ground (arith, refresh_over-IsShown p.refresh_in_flight reason false p s)
      ]

  succeed-IsShown :
      (f : Option Refresh) (now : ℕ) (p : ReaderPage) (n : ℕ)
      → p.refresh_in_flight ≡ f
      → is_loading_now f ≡ true
      → IsPage n p
      → IsShown job manifest (succeed f job manifest now p)
  succeed-IsShown none now p n e loading page = ground arith
  succeed-IsShown (some r) now p n e loading page =
      let taken : ltb r.request_id p.last_applied_request_id ≡ false =
        ground
          (arith, page.ordered, page.numbered, ap (λ f. is_numbered f p.refresh_request_id) e) in
      rw taken (resume_queue-IsShown p.queued_refresh_reason _ (refl, refl, refl))

-- On a page that was opened with a route, in every state that events, timers and answers lead to: an answer
-- of the request under way is shown, job and manifest together, whatever patches came before it.
pub page_run-answered :
    {t : Payloads} (id : String) (status : WebSocketStatus) (es : List (PageEvent t))
    (job : JobDetail) (manifest : JobManifest) (now : ℕ)
    → str_eq id "" ≡ false
    → is_loading_now
        (page_run es
          (refresh_reader_state "initial" true (initial_page id status))).refresh_in_flight
      ≡ true
    → IsShown job manifest (
        refresh_succeeded job manifest now
          (page_run es (refresh_reader_state "initial" true (initial_page id status))))
unfolding refresh_succeeded
page_run-answered id status es job manifest now routed loading =
    let page : IsPage 0 (initial_page id status) = record {
      routed = routed;
      numbered = refl;
      ordered = omega arith;
      named = refl;
      later = omega arith;
    } in
    let p = page_run es (refresh_reader_state "initial" true (initial_page id status)) in
    let w =
      page_run-IsWaiting 0 es _
        (refresh_reader_state-IsWaiting 0 "initial" true (initial_page id status) refl page) in
    succeed-IsShown job manifest p.refresh_in_flight now p 0 refl loading w.page
