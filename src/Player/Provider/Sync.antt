-- ===== src/Player/Provider/Sync.antt =====
-- The state of web/src/player/PlayerProvider.tsx and its `syncPlayback`.
use readflow.Common.{
  ℕ, ◌+◌, ◌-◌, Bool, true, false, not, ◌&&◌, ◌||◌, Option, none, some, String, List, [], ◌∷◌, ◌++◌,
  leb, ltb, if◌then◌else◌,
}
use readflow.Common.Sets.{nat_eq}
use readflow.Player.Heard.{PlayerJob}
use readflow.Player.Store.{PlayerStore}

abbrev pub playback_sync_interval_ms : ℕ
playback_sync_interval_ms = 3000

-- 0.5 seconds.
abbrev pub gap_buffering_epsilon_seconds : ℕ
gap_buffering_epsilon_seconds = 500

-- The arguments of `updateProgress`.
pub record Report : Type 0 where
  pub job_id : String
  pub position : ℕ
  pub is_playing : Bool
  pub heard : List ℕ

-- The arguments of `sendPlaybackSync`.
pub record Ping : Type 0 where
  pub job_id : String
  pub position : ℕ
  pub is_playing : Bool

-- The store, the refs, and what was sent: the pings, the reports, those of the reports that the server
-- accepted, and the jobs that were navigated to. The times of the last reports are 0 at first.
pub record Provider : Type 0 where
  pub store : PlayerStore
  pub pending_heard : List ℕ
  pub last_sync_at : ℕ
  pub last_http_sync_at : ℕ
  pub previous_pending_seek : Option ℕ
  pub auto_advanced_for : Option String
  pub pings : List Ping
  pub reports : List Report
  pub accepted : List Report
  pub navigated : List String

abbrev pub with_store : (PlayerStore → PlayerStore) → Provider → Provider
with_store f p = record p { store = f p.store }

abbrev pub is_pending : Option ℕ → Bool
is_pending none = false
is_pending (some seconds) = true

-- `position` of a report: where a pending seek goes, else where the player is.
abbrev pub position_of : Option ℕ → PlayerStore → ℕ
position_of none s = s.outputs.current_time_seconds + s.source.anchor_offset_seconds
position_of (some seconds) s = seconds

abbrev pub playing_of : Option Bool → PlayerStore → Bool
playing_of none s =
    s.play_intent && (s.outputs.is_actually_playing || s.outputs.is_waiting_for_data)
playing_of (some playing) s = playing

abbrev pub is_empty : List ℕ → Bool
is_empty [] = true
is_empty (i ∷ indexes) = false

abbrev pub is_http_due : ℕ → Bool → Provider → Bool
is_http_due now force p =
    force
    || not (is_empty p.pending_heard)
    || leb playback_sync_interval_ms (now - p.last_http_sync_at)

abbrev pub sync_job : Option PlayerJob → ℕ → Bool → Option Bool → Provider → Provider
sync_job none now force playing p = p
sync_job (some j) now force playing p =
    let position = position_of p.store.pending_seek_job_seconds p.store in
    let is_playing = playing_of playing p.store in
    let due = is_http_due now force p in
    let ping : Ping = record { job_id = j.id; position = position; is_playing = is_playing } in
    let report : Report = record {
      job_id = j.id;
      position = position;
      is_playing = is_playing;
      heard = p.pending_heard;
    } in
    let pinged = record p {
      last_sync_at = now;
      pings = if j.is_terminal then p.pings else p.pings ++ ping ∷ [];
    } in
    if not force && ltb (now - p.last_sync_at) playback_sync_interval_ms
    then p
    else if due
    then record pinged { last_http_sync_at = now; reports = p.reports ++ report ∷ [] }
    else pinged

-- The clock does not run backwards: a difference of times that is negative in the source would be 0 here.
unfoldable pub sync_playback : ℕ → Bool → Option Bool → Provider → Provider
sync_playback now force playing p = sync_job p.store.job now force playing p
