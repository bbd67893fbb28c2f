-- ===== src/Library/Page/Settled.antt =====
-- What the end of a request leaves on the library's page.
use readflow.Common.{
  ℕ, ◌≡◌, false, Option, none, some, String, arith, if◌then◌else◌, or_else, str_eq,
}
use readflow.Api.{LibrarySnapshot}
use readflow.Library.Page.{LibraryPage, Caller, Action, load_succeeded, load_failed, action_failed}

-- The error after a failed load.
abbrev pub failure_shown : Caller → Option String → Option String
failure_shown Caller.bare failure = some (or_else failure "Unable to load the library")
failure_shown Caller.of_new_job failure = some (or_else failure "Unable to load the library")
failure_shown (Caller.of_run message next) failure = none

abbrev said : Option String → Option String → Option String
said none notice = notice
said (some message) notice = if str_eq message "" then notice else some message

-- The notice after a load, however it ends.
abbrev pub notice_after : Caller → Option String → Option String
notice_after Caller.bare notice = notice
notice_after Caller.of_new_job notice = some "Job created"
notice_after (Caller.of_run message next) notice = said message notice

-- A load that succeeds shows what was loaded and no error; one that fails keeps what is shown and shows
-- why it failed, but not if it is the reload after an action, where no error is shown. The success of
-- the action is announced in both cases, and the page is no longer loading. An action that fails shows
-- why, changes neither the snapshot nor the notice, and loads nothing.
pub settled_lem :
    (n : ℕ) (caller : Caller) (next : LibrarySnapshot) (failure : Option String) (action : Action)
    (p : LibraryPage)
    → let shown = load_succeeded n caller next p in
      let kept = load_failed n caller failure p in
      let refused = action_failed n action failure p in
      ((shown.snapshot ≡ some next)
        × (shown.error ≡ none)
        × (shown.notice ≡ notice_after caller p.notice)
        × (shown.loading ≡ false))
      × ((kept.snapshot ≡ p.snapshot)
          × (kept.error ≡ failure_shown caller failure)
          × (kept.notice ≡ notice_after caller p.notice)
          × (kept.loading ≡ false))
      × ((refused.error ≡ some (or_else failure "That action could not be completed"))
          × (refused.snapshot ≡ p.snapshot)
          × (refused.notice ≡ p.notice)
          × (refused.loads ≡ p.loads))
unfolding load_succeeded load_failed action_failed
settled_lem n caller next failure action p = (
  (ground arith, ground arith, ground arith, ground arith),
  (ground arith, ground arith, ground arith, ground arith),
  (ground arith, ground arith, ground arith, ground arith),
)
