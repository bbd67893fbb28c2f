-- ===== src/Media/Tests.antt =====
-- The theorems on the player's stream and flags at a small book of two chunks.
use readflow.Common.{
  ℕ, ◌+◌, ◌≡◌, refl, true, false, none, some, List, [], ◌∷◌, ◌++◌, arith, All, map,
}
use readflow.Common.Sets.{add}
use readflow.Common.Sort.{sort_by}
use readflow.Common.Int.{pos}
use readflow.Chunk.{Chunk, ChunkStatus}
use readflow.Api.{JobManifest}
use readflow.Reader.Active.{derive_active_chunks}
use readflow.Reader.Playback.{derive_playback_model, anchored, written_run}
use readflow.Reader.Timeline.{normalized, build_stream_manifest}
use readflow.Media.Stream.Takes.{IsFirstTake, fill_append_window-IsFirstTake}
use readflow.Media.Window.{
  SecondsRange, resolve_eviction_range, is_seconds_buffered, needs_window_fill,
  resolve_append_window_end,
}
use readflow.Media.Stream.{
  StreamRefs, QueuedChunk, FillInput, fill_append_window, can_fill, fill_scan, scan_window,
  start_queue, process_round, open_stream, source_opened, init_appended, fetched, appended, failed,
  after_scan, is_empty,
}
use readflow.Media.Stream.Entries.{entries, indexes}
use readflow.Media.Stream.Order.{IsInOrder}
use readflow.Media.Stream.Reach.{
  Session, Reach, IsOrderlyRun, here, then_step, attach, prime, fill, finish, replace,
  Reach-appended_prefix,
}
use readflow.Media.Stream.Late.{process_round-stale_append}
use readflow.Media.Stream.Bounds.{process_round-stale_failure}
use readflow.Media.Playback.{Intent, PlaybackSnapshot, Playback, StreamState, handle_event, waiting}
use readflow.Media.Playback.Flags.{IsUpdated, handle_event-IsUpdated}
use readflow.Media.Seek.{clamp_to_buffered, seek_to_seconds, seek_within_buffered}
use readflow.Media.Eviction.{EvictionInput, begin_eviction, end_eviction, evicted_range}
use readflow.Media.Eviction.Stall.{end_eviction-stalls}

abbrev segment : ℕ → ℕ → Chunk
segment i start = record {
  index = i;
  status = ChunkStatus.written;
  duration_seconds = 4000;
  start_seconds = start;
  plan_version = 1;
  version = 0;
  voice_id = "suzy";
  segment_url = some "/media/seg";
  peaks_url = none;
  deprecated = false;
  reprocessing = false;
  char_start = i;
  char_end = i + 1;
}

abbrev book : List Chunk
book = segment 0 0 ∷ segment 1 4000 ∷ []

abbrev before : StreamRefs
before = record {
  active_stream_key = none;
  has_source_buffer = false;
  processing_queue = false;
  init_segment_appended = false;
  append_queue = [];
  appended_indexes = [];
  pending_indexes = [];
  window_cursor = 0;
  append_retry_at = 0;
  quota_retried_indexes = [];
  appended_chunks_count = 0;
  last_player_error = none;
  has_ended = false;
}

abbrev input : FillInput
input = record {
  chunks = book;
  stream_key = "j1:0";
  now = 10;
  playhead_seconds = 0;
  buffered_end = 0;
  pending_seek_seconds = none;
}

abbrev queued : ℕ → QueuedChunk
queued i = record { index = i; url = "/media/seg"; position = i }

abbrev opened : Session
opened = record { chunks = book; refs = open_stream "j1:0" before }

abbrev primed : Session
primed = record { chunks = book; refs = init_appended (source_opened (open_stream "j1:0" before)) }

abbrev filled : Session
filled = record { chunks = book; refs = fill_append_window input primed.refs }

-- A fetch of an older stream comes back, and then that of the chunk at the head.
abbrev fetched_refs : StreamRefs
fetched_refs =
    process_round "j1:0" (queued 0) fetched (process_round "j0:0" (queued 7) fetched filled.refs)

abbrev played_on : Session
played_on = record {
  chunks = book ++ segment 2 8000 ∷ [];
  refs = process_round "j1:0" (queued 0) appended fetched_refs;
}

filled_queue : filled.refs.append_queue ≡ queued 0 ∷ queued 1 ∷ []
unfolding fill_append_window open_stream source_opened init_appended can_fill needs_window_fill
    fill_scan scan_window resolve_append_window_end add start_queue sort_by
filled_queue = refl

fetched_queue : fetched_refs.append_queue ≡ queued 0 ∷ queued 1 ∷ []
unfolding fill_append_window open_stream source_opened init_appended process_round can_fill
    needs_window_fill fill_scan scan_window resolve_append_window_end add start_queue sort_by
fetched_queue = refl

appended_run : played_on.refs.appended_indexes ≡ 0 ∷ []
unfolding fill_append_window open_stream source_opened init_appended process_round can_fill
    needs_window_fill fill_scan scan_window resolve_append_window_end add start_queue sort_by
appended_run = refl

played_on_steps : Reach opened played_on
played_on_steps =
    then_step
      (then_step
        (then_step
          (then_step
            (then_step (then_step (then_step here (attach refl)) (prime refl))
              (fill input refl refl))
            (finish "j0:0" (queued 7) fetched refl))
          (finish "j1:0" (queued 0) fetched refl))
        (finish "j1:0" (queued 0) appended refl))
      (replace (book ++ segment 2 8000 ∷ []) refl)

played_on-IsOrderlyRun : IsOrderlyRun played_on_steps
unfolding played_on_steps
played_on-IsOrderlyRun = (
  (((((((tt, tt), tt), tt), tt), tt), (queued 1 ∷ [], fetched_queue))),
  (segment 2 8000 ∷ [], refl, omega arith),
)

Reach-appended_prefix_example :
    (later : List ℕ) × ((played_on.refs.appended_indexes ++ indexes played_on.refs.append_queue)
        ++ later
      ≡ indexes (entries 0 (book ++ segment 2 8000 ∷ [])))
Reach-appended_prefix_example =
    Reach-appended_prefix "j1:0" book before played_on (omega arith) played_on_steps
      played_on-IsOrderlyRun

filled-IsInOrder : IsInOrder book filled.refs
unfolding fill_append_window open_stream source_opened init_appended can_fill needs_window_fill
    fill_scan scan_window resolve_append_window_end add start_queue sort_by entries
filled-IsInOrder = record {
  done = [];
  listed = refl;
  covers = refl;
  within = omega arith;
  marks = λ i. refl;
}

process_round-stale_append_example :
    ((process_round "j0:0" (queued 5) appended filled.refs).append_queue ≡ queued 1 ∷ [])
    × ((process_round "j0:0" (queued 5) appended filled.refs).appended_indexes ≡ 5 ∷ [])
unfolding fill_append_window open_stream source_opened init_appended can_fill needs_window_fill
    fill_scan scan_window resolve_append_window_end add start_queue sort_by
process_round-stale_append_example =
    (process_round-stale_append book filled.refs (queued 0) (queued 5) (queued 1 ∷ []) "j0:0"
      filled-IsInOrder refl refl (omega arith)).0

process_round-stale_failure_example :
    ¬ IsInOrder book
      (process_round "j1:0" (queued 1) (failed false false 10 "gone") (open_stream "j2:0" before))
process_round-stale_failure_example =
    process_round-stale_failure "j2:0" "j1:0" before (segment 0 0) (segment 1 4000 ∷ []) (queued 1)
      10 "gone" refl (omega arith)

abbrev two_ranges : List SecondsRange
two_ranges = record { start = 1000; end = 4000 } ∷ record { start = 6000; end = 9000 } ∷ []

eviction_run :
    resolve_eviction_range 0 (pos 200000) (pos 120000) ≡ some (record { start = 0; end = 80000 })
unfolding resolve_eviction_range
eviction_run = refl

abbrev snapshot : ℕ → PlaybackSnapshot
snapshot current = record {
  paused = false;
  ready_state = 4;
  network_state = 1;
  playback_rate = 1000;
  buffered_until_seconds = 8000;
  current_time_seconds = current;
}

abbrev intent : Intent
intent = record {
  play_intent = true;
  is_terminal = true;
  pending_seek_seconds = none;
  rendered_duration_seconds = 8000;
}

abbrev playback : Playback
playback = record {
  last_snapshot = snapshot 8000;
  shown_snapshot = snapshot 8000;
  is_actually_playing = true;
  is_waiting_for_data = false;
  has_ended = false;
  is_autoplay_blocked = false;
  last_player_error = none;
}

handle_event-IsUpdated_example :
    IsUpdated intent (snapshot 8000) playback (handle_event waiting intent (snapshot 8000) playback)
handle_event-IsUpdated_example = handle_event-IsUpdated waiting intent (snapshot 8000) playback refl

abbrev stream_state : StreamState
stream_state = record { has_stream_key = true; is_stream_primed = true }

seek_run : seek_within_buffered (record { start = 0; end = 8000 } ∷ []) 8000 (pos 5000) ≡ some 5000
unfolding seek_within_buffered is_seconds_buffered seek_to_seconds clamp_to_buffered
seek_run = refl

-- 200 seconds in, with everything from the start on still buffered.
abbrev far_input : FillInput
far_input = record input { playhead_seconds = 200000; buffered_end = 205000 }

abbrev eviction : EvictionInput
eviction = record { is_updating = false; buffered_start = 0; playhead_seconds = 200000 }

eviction_range : evicted_range eviction primed.refs ≡ some (record { start = 0; end = 80000 })
unfolding evicted_range resolve_eviction_range open_stream source_opened init_appended
eviction_range = refl

stalled_queue :
    is_empty (fill_append_window far_input (begin_eviction eviction primed.refs)).append_queue
    ≡ false
unfolding fill_append_window open_stream source_opened init_appended can_fill needs_window_fill
    fill_scan scan_window resolve_append_window_end add start_queue sort_by begin_eviction
    evicted_range resolve_eviction_range after_scan
stalled_queue = refl

end_eviction-stalls_example :
    fill_append_window input
      (end_eviction (fill_append_window far_input (begin_eviction eviction primed.refs)))
    ≡ end_eviction (fill_append_window far_input (begin_eviction eviction primed.refs))
unfolding init_appended source_opened open_stream
end_eviction-stalls_example =
    (end_eviction-stalls eviction (record { start = 0; end = 80000 }) far_input input primed.refs
      refl eviction_range stalled_queue).2

-- Two takes of the second chunk; the newer one is active.
abbrev retaken : List Chunk
retaken =
    segment 0 0
    ∷ segment 1 4000
    ∷ record (segment 1 4000) { version = 1; segment_url = some "/media/seg?v=1" }
    ∷ []

abbrev current_versions : List (ℕ × ℕ)
current_versions = (0, 0) ∷ (1, 1) ∷ []

abbrev served : List Chunk → JobManifest
served chunks = record {
  mime_type = "audio/mp4";
  init_segment_url = none;
  chunks = chunks;
  audio_epoch = 0;
}

abbrev retaken_input : FillInput
retaken_input = record input {
  chunks = (served (normalized 0 (written_run (anchored 0 retaken)))).chunks;
}

fill_append_window-IsFirstTake_example :
    All
      (IsFirstTake retaken)
      (fill_append_window retaken_input
        (init_appended (source_opened (open_stream "j1:0" before)))).append_queue
unfolding build_stream_manifest derive_playback_model
fill_append_window-IsFirstTake_example =
    fill_append_window-IsFirstTake "j1:0" before retaken_input retaken
      (derive_active_chunks retaken current_versions) current_versions 0 (served retaken)
      (served (normalized 0 (written_run (anchored 0 retaken)))) refl refl

-- The reader shows the newer take, and the player queues the older one.
retaken_run :
    (map (λ c. c.segment_url) (derive_active_chunks retaken current_versions)
      ≡ some "/media/seg" ∷ some "/media/seg?v=1" ∷ [])
    × ((fill_append_window retaken_input
          (init_appended (source_opened (open_stream "j1:0" before)))).append_queue
        ≡ queued 0 ∷ queued 1 ∷ [])
unfolding fill_append_window open_stream source_opened init_appended can_fill needs_window_fill
    fill_scan scan_window resolve_append_window_end add start_queue sort_by derive_active_chunks
    normalized written_run anchored
retaken_run = (refl, refl)
