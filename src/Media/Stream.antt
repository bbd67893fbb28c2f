-- ===== src/Media/Stream.antt =====
-- The append window of web/src/lib/media-source.ts: the refs of `useMediaSourcePlayer` that hold the
-- stream, `fillAppendWindow`, the loop of `processQueue`, and the reset of a stream. Fetching and the
-- browser's SourceBuffer are not modelled: how a fetch and an append end is an argument.
pub mod Refs
pub mod Entries
pub mod Scanning
pub mod Order
pub mod Rounds
pub mod Reach
pub mod Bounds
pub mod Takes
pub mod Late
unfoldable pub use readflow.Media.Stream.Refs.{scan_window}
pub use readflow.Media.Stream.Refs.{
  append_retry_backoff, QueuedChunk, StreamRefs, Scan, entry_of, is_key, is_some_key, is_empty,
}
use readflow.Common.{
  ℕ, suc, ◌+◌, Bool, true, false, not, ◌&&◌, ◌||◌, Option, none, some, List, [], ◌∷◌, ◌++◌, String,
  leb, ltb, length, drop, or_else, str_eq, if◌then◌else◌, map,
}
use readflow.Common.Sets.{has, add, delete, nat_eq}
use readflow.Common.Sort.{sort_by}
use readflow.Common.Int.{ℤ, pos}
use readflow.Chunk.{Chunk}
use readflow.Reader.Playback.{is_url}
use readflow.Media.Window.{needs_window_fill, resolve_append_window_end}

-- The guard of `processQueue`; the loop then waits for a fetch.
unfoldable pub start_queue : StreamRefs → StreamRefs
start_queue s =
    if s.processing_queue || not s.has_source_buffer || not (is_some_key s.active_stream_key)
    then s
    else record s { processing_queue = true }

abbrev pub queue_le : QueuedChunk → QueuedChunk → Bool
queue_le left right = leb left.index right.index

unfoldable pub after_scan : Scan → StreamRefs → StreamRefs
after_scan found s =
    if is_empty found.queue
    then record s {
      pending_indexes = found.pending;
      window_cursor = found.cursor;
      append_queue = found.queue;
    }
    else start_queue (record s {
      pending_indexes = found.pending;
      window_cursor = found.cursor;
      append_queue = sort_by queue_le found.queue;
    })

-- What `fillAppendWindow` reads besides the refs.
pub record FillInput : Type 0 where
  pub chunks : List Chunk
  pub stream_key : String
  pub now : ℕ
  pub playhead_seconds : ℕ
  pub buffered_end : ℕ
  pub pending_seek_seconds : Option ℤ

-- The early returns of `fillAppendWindow`, for a manifest that is there.
unfoldable pub can_fill : FillInput → StreamRefs → Bool
can_fill i s =
    not (str_eq i.stream_key "")
    && is_key s.active_stream_key i.stream_key
    && s.init_segment_appended
    && is_empty s.append_queue
    && leb s.append_retry_at i.now
    && needs_window_fill (pos i.playhead_seconds) i.buffered_end i.pending_seek_seconds

unfoldable pub fill_scan : FillInput → StreamRefs → Scan
fill_scan i s =
    scan_window (resolve_append_window_end (pos i.playhead_seconds) i.pending_seek_seconds)
      s.appended_indexes
      (record { cursor = s.window_cursor; pending = s.pending_indexes; queue = s.append_queue })
      (drop s.window_cursor i.chunks)

unfoldable pub fill_append_window : FillInput → StreamRefs → StreamRefs
unfolding after_scan
fill_append_window i s = if can_fill i s then after_scan (fill_scan i s) s else s

-- What a round waited for and how that ended: first the fetch of its chunk, then the append.
pub data AppendOutcome : Type 0 where
  -- The fetch succeeds; the stream's key and its buffer are tested, and the append starts.
  fetched : AppendOutcome
  -- The append succeeds; nothing is tested any more.
  appended : AppendOutcome
  -- Either fails, and the wait for space is over where the code waits for it: whether it is a quota error, whether space could be freed, the clock, the message.
  failed : Bool → Bool → ℕ → String → AppendOutcome

abbrev tail_of {ℓ} : {A : Type ℓ} → List A → List A
tail_of [] = []
tail_of (x ∷ xs) = xs

-- The end of the loop's body that appended: `shift` takes off what stands at the head by then.
on_appended : QueuedChunk → StreamRefs → StreamRefs
on_appended next s = record s {
  append_queue = tail_of s.append_queue;
  pending_indexes = delete next.index s.pending_indexes;
  appended_indexes = add next.index s.appended_indexes;
  append_retry_at = 0;
  appended_chunks_count = length (add next.index s.appended_indexes);
  last_player_error = none;
  has_ended = false;
}

delete_all : List QueuedChunk → List ℕ → List ℕ
delete_all [] pending = pending
delete_all (q ∷ qs) pending = delete_all qs (delete q.index pending)

abbrev quota_message : String
quota_message = "This device ran out of audio buffer space. Reload the reader to continue."

-- The end of the loop's body that gives up on the queue.
on_dropped : QueuedChunk → Bool → ℕ → String → StreamRefs → StreamRefs
on_dropped next quota now message s = record s {
  pending_indexes = delete_all s.append_queue (delete next.index s.pending_indexes);
  append_queue = [];
  window_cursor = next.position;
  append_retry_at = now + append_retry_backoff;
  last_player_error = some (if quota then quota_message else message);
  processing_queue = false;
}

-- Space could be freed for the retry of a chunk, or not.
on_quota : QueuedChunk → Bool → ℕ → String → StreamRefs → StreamRefs
on_quota next true now message s = record s {
  pending_indexes = add next.index (delete next.index s.pending_indexes);
}
on_quota next false now message s = on_dropped next true now message s

-- A quota error is retried once for each chunk.
on_failed : QueuedChunk → Bool → Bool → ℕ → String → StreamRefs → StreamRefs
on_failed next quota freed now message s =
    if quota && not (has next.index s.quota_retried_indexes)
    then on_quota next freed now message
        (record s { quota_retried_indexes = add next.index s.quota_retried_indexes })
    else on_dropped next quota now message s

-- The head of the loop: it goes on while something is queued for its own stream.
settle : String → StreamRefs → StreamRefs
settle stream_key s =
    if not (is_empty s.append_queue) && is_key s.active_stream_key stream_key
    then s
    else record s { processing_queue = false }

-- One wait of the loop of `processQueue` ends, for the chunk that it took from the head of the queue
-- before it waited; the refs may be another stream's by then.
unfoldable pub process_round : String → QueuedChunk → AppendOutcome → StreamRefs → StreamRefs
unfolding on_appended on_failed on_quota on_dropped delete_all settle
process_round stream_key next fetched s =
    if is_key s.active_stream_key stream_key && s.has_source_buffer
    then s
    else record s { processing_queue = false }
process_round stream_key next appended s = settle stream_key (on_appended next s)
process_round stream_key next (failed quota freed now message) s =
    settle stream_key (on_failed next quota freed now message s)

-- The refs as the stream effect sets them for a new key; the source buffer comes with `sourceopen`.
unfoldable pub open_stream : String → StreamRefs → StreamRefs
open_stream stream_key s = record {
  active_stream_key = some stream_key;
  has_source_buffer = false;
  processing_queue = false;
  init_segment_appended = false;
  append_queue = [];
  appended_indexes = [];
  pending_indexes = [];
  window_cursor = 0;
  append_retry_at = 0;
  quota_retried_indexes = [];
  appended_chunks_count = 0;
  last_player_error = none;
  has_ended = false;
}

-- `handleSourceOpen` that succeeds for the stream that is active.
unfoldable pub source_opened : StreamRefs → StreamRefs
source_opened s = record s { has_source_buffer = true; last_player_error = none }

-- The init segment was appended to the active stream; a fill follows.
unfoldable pub init_appended : StreamRefs → StreamRefs
init_appended s = record s { init_segment_appended = true; last_player_error = none }

-- The clean-up of the stream effect.
unfoldable pub close_stream : StreamRefs → StreamRefs
close_stream s = record s {
  active_stream_key = none;
  has_source_buffer = false;
  processing_queue = false;
  init_segment_appended = false;
  append_queue = [];
  appended_indexes = [];
  pending_indexes = [];
  window_cursor = 0;
  append_retry_at = 0;
  quota_retried_indexes = [];
  has_ended = false;
}
