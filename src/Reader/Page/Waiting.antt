-- ===== src/Reader/Page/Waiting.antt =====
-- What the page keeps about its refreshes: one request under way, and one more for those that wait.
use readflow.Common.{
  ℕ, ◌≤◌, ◌≡◌, refl, ap, Bool, true, false, not, ◌&&◌, ◌||◌, Option, none, some, String, str_eq,
  ltb, arith, ◌==◌,
}
use readflow.Reader.Page.{
  ReaderPage, Refresh, refresh_reader_state, refresh_over, finish_refresh, resume_queue,
  start_refresh,
}

abbrev pub is_loading_now : Option Refresh → Bool
is_loading_now none = false
is_loading_now (some r) = true

abbrev pub is_numbered : Option Refresh → ℕ → Bool
is_numbered none id = true
is_numbered (some r) id = r.request_id == id

abbrev is_reason : Option String → Bool
is_reason none = true
is_reason (some reason) = not (str_eq reason "")

abbrev is_queued : Option String → Bool
is_queued none = false
is_queued (some reason) = true

-- A request after the first `n` was started, or will be when the one under way is over.
abbrev pub is_served : ℕ → ReaderPage → Bool
is_served n p =
    ltb n p.refresh_request_id
    || (is_loading_now p.refresh_in_flight && is_queued p.queued_refresh_reason)

-- The page has a route; the request under way is the last that was started, and no later answer was taken.
pub record IsPage (n : ℕ) (p : ReaderPage) : Type 0 where
  pub routed : str_eq p.job_id "" ≡ false
  pub numbered : is_numbered p.refresh_in_flight p.refresh_request_id ≡ true
  pub ordered : p.last_applied_request_id ≤ p.refresh_request_id
  pub named : is_reason p.queued_refresh_reason ≡ true
  pub later : n ≤ p.refresh_request_id

-- The fields that a refresh looks at.
pub record IsSame (p q : ReaderPage) : Type 0 where
  pub route : q.job_id ≡ p.job_id
  pub flight : q.refresh_in_flight ≡ p.refresh_in_flight
  pub id : q.refresh_request_id ≡ p.refresh_request_id
  pub applied : q.last_applied_request_id ≡ p.last_applied_request_id
  pub queue : q.queued_refresh_reason ≡ p.queued_refresh_reason

module _ (n : ℕ) where
  pub record IsWaiting (p : ReaderPage) : Type 0 where
    pub page : IsPage n p
    pub served : is_served n p ≡ true

  same-IsPage : (p q : ReaderPage) → IsSame p q → IsPage n p → IsPage n q
  same-IsPage p q s w = record {
    routed = rw s.route w.routed;
    numbered = rw (s.flight, s.id) w.numbered;
    ordered = rw (s.applied, s.id) w.ordered;
    named = rw s.queue w.named;
    later = rw s.id w.later;
  }

  pub same-IsWaiting : (p q : ReaderPage) → IsSame p q → IsWaiting p → IsWaiting q
  same-IsWaiting p q s w = record {
    page = same-IsPage p q s w.page;
    served = rw (s.id, s.flight, s.queue) w.served;
  }

  start_refresh-IsWaiting :
      (reason : String) (shows : Bool) (p : ReaderPage)
      → IsPage n p
      → IsWaiting (start_refresh reason shows p)
  start_refresh-IsWaiting reason shows p w = record {
    page = record {
      routed = w.routed;
      numbered = ground arith;
      ordered = ground (arith, w.ordered);
      named = w.named;
      later = ground (arith, w.later);
    };
    served = ground (arith, w.later);
  }

  refresh_over-IsWaiting :
      (f : Option Refresh) (reason : String) (shows : Bool) (p : ReaderPage)
      → p.refresh_in_flight ≡ f
      → str_eq reason "" ≡ false
      → IsPage n p
      → IsWaiting (refresh_over f reason shows p)
  refresh_over-IsWaiting none reason shows p e known w = start_refresh-IsWaiting reason shows p w
  refresh_over-IsWaiting (some r) reason shows p e known w = record {
    page = record {
      routed = w.routed;
      numbered = w.numbered;
      ordered = w.ordered;
      named = ground arith;
      later = w.later;
    };
    served = ground (arith, ap is_loading_now e);
  }

  pub refresh_reader_state-IsWaiting :
      (reason : String) (shows : Bool) (p : ReaderPage)
      → str_eq reason "" ≡ false
      → IsPage n p
      → IsWaiting (refresh_reader_state reason shows p)
  unfolding refresh_reader_state
  refresh_reader_state-IsWaiting reason shows p known w =
      rw w.routed (refresh_over-IsWaiting p.refresh_in_flight reason shows p refl known w)

  -- The end of the request under way.
  resume_queue-IsWaiting :
      (q : Option String) (p : ReaderPage)
      → is_reason q ≡ true
      → (is_queued q || ltb n p.refresh_request_id) ≡ true
      → IsPage n p
      → IsWaiting (resume_queue q p)
  resume_queue-IsWaiting none p known served w = record { page = w; served = ground arith }
  resume_queue-IsWaiting (some reason) p known served w =
      let nonblank : str_eq reason "" ≡ false = ground arith in
      rw nonblank (refresh_reader_state-IsWaiting reason false p nonblank w)

  pub finish_refresh-IsWaiting :
      (r : Refresh) (p : ReaderPage) → IsWaiting p → IsWaiting (finish_refresh r p)
  finish_refresh-IsWaiting r p w =
      resume_queue-IsWaiting p.queued_refresh_reason _ w.page.named (ground (arith, w.served))
        (record {
          routed = w.page.routed;
          numbered = refl;
          ordered = w.page.ordered;
          named = refl;
          later = w.page.later;
        })
