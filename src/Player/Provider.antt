-- ===== src/Player/Provider.antt =====
-- web/src/player/PlayerProvider.tsx: the reports of playback, the heard chunks, the handlers of the audio
-- element, and the effects that open the next job and clear a stale intent. An event is one handler, effect
-- or settled request; effects read the store, which the layout effect of the same commit has filled. The
-- media element and the server are not modelled: what is sent is logged.
pub mod Sync
pub mod Steps
pub mod Reports
pub mod Pending
pub mod Once
unfoldable pub use readflow.Player.Provider.Sync.{sync_playback}
pub use readflow.Player.Provider.Sync.{
  playback_sync_interval_ms, gap_buffering_epsilon_seconds, Report, Ping, Provider, with_store,
  is_pending, position_of, playing_of, is_empty, is_http_due, sync_job,
}
use readflow.Common.{
  ℕ, suc, ◌+◌, ◌-◌, ◌≡◌, refl, Bool, true, false, not, ◌&&◌, ◌||◌, Option, none, some, String, List,
  [], ◌∷◌, ◌++◌, leb, ltb, str_eq, if◌then◌else◌, ◌==◌, get_elem?,
}
use readflow.Common.Sets.{delete, nat_eq}
use readflow.Player.Heard.{
  AutoAdvanceInput, PlayerJob, collect_heard_chunk_indexes, resolve_auto_advance,
}
use readflow.Player.Store.{
  PlayerStore, PlayerOutputs, PlayerSource, is_job, open_job, set_source, set_anchor_index,
  restart_stream, request_seek, seek_applied, set_play_intent, set_playback_rate, sync_outputs,
  set_last_sync_error,
}
use readflow.Api.{JobManifest}

abbrev pub delete_all : List ℕ → List ℕ → List ℕ
delete_all [] pending = pending
delete_all (i ∷ indexes) pending = delete_all indexes (delete i pending)

abbrev pub accept : Option Report → Provider → Provider
accept none p = p
accept (some r) p = record p {
  pending_heard = delete_all r.heard p.pending_heard;
  store = set_last_sync_error none p.store;
  accepted = p.accepted ++ r ∷ [];
}

-- The report with this number was accepted, or failed with a text.
unfoldable pub report_succeeded : ℕ → Provider → Provider
report_succeeded n p = accept (get_elem? p.reports n) p

unfoldable pub report_failed : String → Provider → Provider
report_failed text p = with_store (set_last_sync_error (some text)) p

abbrev pub collect : Option JobManifest → PlayerStore → List ℕ → List ℕ
collect none s heard = heard
collect (some manifest) s heard =
    if not s.outputs.is_actually_playing
      || s.outputs.is_waiting_for_data
      || is_pending s.pending_seek_job_seconds
    then heard
    else collect_heard_chunk_indexes manifest.chunks
        (s.outputs.current_time_seconds + s.source.anchor_offset_seconds) heard

-- The effect of a tick.
unfoldable pub collect_heard : Provider → Provider
collect_heard p = record p {
  pending_heard = collect p.store.source.manifest p.store p.pending_heard;
}

-- The ref is written first here, which the report does not read.
unfoldable pub seek_effect : ℕ → Provider → Provider
seek_effect now p =
    let pending = p.store.pending_seek_job_seconds in
    let reported =
      if is_pending p.previous_pending_seek && not (is_pending pending)
      then sync_playback now true none p
      else p in
    record reported { previous_pending_seek = pending }

abbrev job_id_of : Option PlayerJob → Option String
job_id_of none = none
job_id_of (some j) = some j.id

abbrev pub is_advanced : Option String → Option PlayerJob → Bool
is_advanced (some id) (some j) = str_eq id j.id
is_advanced _ _ = false

abbrev pub navigate : String → Provider → Provider
navigate next p = record p {
  auto_advanced_for = job_id_of p.store.job;
  navigated = p.navigated ++ next ∷ [];
}

abbrev pub advance : Option String → Provider → Provider
advance none p = p
advance (some next) p = if is_advanced p.auto_advanced_for p.store.job then p else navigate next p

abbrev pub advance_input : Bool → Bool → PlayerStore → AutoAdvanceInput
advance_input has_ended continuous_play s = record {
  player_job = s.job;
  has_ended = has_ended;
  stream_end_seconds = s.source.anchor_offset_seconds + s.outputs.rendered_duration_seconds;
  duration_seconds = s.source.duration_seconds;
  continuous_play = continuous_play;
}

-- The effect of a change of `hasEnded`, with the setting for continuous play.
unfoldable pub auto_advance : Bool → Bool → Provider → Provider
auto_advance has_ended continuous_play p =
    if not has_ended
    then record p { auto_advanced_for = none }
    else advance
        (resolve_auto_advance (record {
          player_job = p.store.job;
          has_ended = has_ended;
          stream_end_seconds =
              p.store.source.anchor_offset_seconds + p.store.outputs.rendered_duration_seconds;
          duration_seconds = p.store.source.duration_seconds;
          continuous_play = continuous_play;
        }))
        p

abbrev pub is_terminal_job : Option PlayerJob → Bool
is_terminal_job none = false
is_terminal_job (some j) = j.is_terminal

unfoldable pub handle_play : ℕ → Provider → Provider
handle_play now p =
    sync_playback now true (some true)
      (if is_terminal_job p.store.job then with_store (set_play_intent true) p else p)

unfoldable pub handle_pause : ℕ → Provider → Provider
handle_pause now p =
    if is_terminal_job p.store.job
    then sync_playback now true (some false) (with_store (set_play_intent false) p)
    else if p.store.play_intent
    then p
    else sync_playback now true (some false) p

unfoldable pub handle_waiting : ℕ → Provider → Provider
handle_waiting now p = sync_playback now true (some p.store.play_intent) p

abbrev pub has_job : Option PlayerJob → Bool
has_job none = false
has_job (some j) = true

abbrev pub is_at_gap : ℕ → ℕ → Provider → Bool
is_at_gap rendered current_time p =
    not (is_terminal_job p.store.job) && leb (rendered - gap_buffering_epsilon_seconds) current_time

-- With the rendered duration of the last rendering and the element's current time.
unfoldable pub handle_ended : ℕ → ℕ → ℕ → Provider → Provider
handle_ended now rendered current_time p =
    if not (has_job p.store.job) || leb rendered 0
    then p
    else if is_at_gap rendered current_time p
    then sync_playback now true (some true) p
    else sync_playback now true (some false) (with_store (set_play_intent false) p)

unfoldable pub handle_error : ℕ → Provider → Provider
handle_error now p = sync_playback now true (some false) p

unfoldable pub on_interval : ℕ → Provider → Provider
on_interval now p =
    if p.store.play_intent || p.store.outputs.is_waiting_for_data
    then sync_playback now false none p
    else p

-- The tab is hidden or left.
unfoldable pub flush : ℕ → Provider → Provider
flush now p = sync_playback now true none p

abbrev pub is_unfinished : PlayerStore → PlayerOutputs → Bool
is_unfinished s o =
    not (is_terminal_job s.job)
    || not s.play_intent
    || o.is_actually_playing
    || leb o.rendered_duration_seconds 0
    || ltb o.current_time_seconds (o.rendered_duration_seconds - gap_buffering_epsilon_seconds)

-- The effect that clears the intent at the end of a terminal job.
unfoldable pub finish_terminal : Provider → Provider
finish_terminal p =
    let o = p.store.outputs in
    if not (is_terminal_job p.store.job)
      || not p.store.play_intent
      || o.is_actually_playing
      || leb o.rendered_duration_seconds 0
      || ltb o.current_time_seconds (o.rendered_duration_seconds - gap_buffering_epsilon_seconds)
    then p
    else with_store (set_play_intent false) p

pub data StoreCall : Type 0 where
  source_call : PlayerSource → StoreCall
  anchor_call : ℕ → StoreCall
  restart_call applied_call : StoreCall
  seek_call : Option ℕ → StoreCall
  intent_call : Bool → StoreCall
  rate_call : ℕ → StoreCall
  outputs_call : PlayerOutputs → StoreCall

-- The reader's and the media hook's calls of the store, but for `openJob`.
unfoldable pub call_store : StoreCall → PlayerStore → PlayerStore
call_store (source_call source) = set_source source
call_store (anchor_call index) = set_anchor_index index
call_store restart_call = restart_stream
call_store applied_call = seek_applied
call_store (seek_call seconds) = request_seek seconds
call_store (intent_call intent) = set_play_intent intent
call_store (rate_call rate) = set_playback_rate rate
call_store (outputs_call outputs) = sync_outputs outputs

pub data Event : Type 0 where
  opened : PlayerJob → Event
  called : StoreCall → Event
  ticked finished : Event
  seek_changed play_event pause_event waiting_event error_event interval_event left : ℕ → Event
  ended_event : ℕ → ℕ → ℕ → Event
  ended_changed : Bool → Bool → Event
  succeeded : ℕ → Event
  failed : String → Event

unfoldable pub step : Event → Provider → Provider
step (opened j) = with_store (open_job j)
step (called c) = with_store (call_store c)
step ticked = collect_heard
step finished = finish_terminal
step (seek_changed now) = seek_effect now
step (play_event now) = handle_play now
step (pause_event now) = handle_pause now
step (waiting_event now) = handle_waiting now
step (error_event now) = handle_error now
step (interval_event now) = on_interval now
step (left now) = flush now
step (ended_event now rendered current_time) = handle_ended now rendered current_time
step (ended_changed has_ended continuous_play) = auto_advance has_ended continuous_play
step (succeeded n) = report_succeeded n
step (failed text) = report_failed text

unfoldable pub run : List Event → Provider → Provider
run [] p = p
run (e ∷ es) p = run es (step e p)
