-- ===== src/Media/Eviction/Stall.antt =====
-- The lock of the append queue: whether queued chunks are worked on.
use readflow.Common.{
  none, ◌≡◌, true, false, some, ◌||◌, arith, refl, Option, String, str_eq, eq_iff,
}
use readflow.Media.Window.{SecondsRange}
use readflow.Media.Stream.{
  StreamRefs, FillInput, fill_append_window, can_fill, start_queue, is_empty, is_some_key,
  after_scan, fill_scan, is_key,
}
use readflow.Media.Eviction.{EvictionInput, evicted_range, begin_eviction, end_eviction}

-- Queued chunks are worked on: the loop holds the lock.
abbrev pub IsServed : StreamRefs → Type 0
IsServed s = (is_empty s.append_queue || s.processing_queue) ≡ true

full_no-fill :
    (i : FillInput) (s : StreamRefs) → is_empty s.append_queue ≡ false → fill_append_window i s ≡ s
unfolding fill_append_window can_fill
full_no-fill i s e = ground arith

-- With a source buffer and an active stream, where queued chunks were worked on or there were none,
-- the same holds after a fill.
pub fill_append_window-IsServed :
    (i : FillInput) (s : StreamRefs)
    → s.has_source_buffer ≡ true
    → is_some_key s.active_stream_key ≡ true
    → IsServed s
    → IsServed (fill_append_window i s)
unfolding fill_append_window can_fill start_queue after_scan
fill_append_window-IsServed i s b k h = ground arith

some_key :
    (key : Option String) (active : String)
    → str_eq active "" ≡ false
    → is_key key active ≡ true
    → is_some_key key ≡ true
some_key none active e h = h
some_key (some k) active e h = ground (arith, eq_iff k active, eq_iff k "", eq_iff active "")

-- The same fill with the lock free starts the loop.
free_fill-starts :
    (i : FillInput) (s : StreamRefs)
    → s.processing_queue ≡ false
    → s.has_source_buffer ≡ true
    → is_empty (fill_append_window i (record s { processing_queue = true })).append_queue ≡ false
    → is_empty s.append_queue ≡ true
    → (fill_append_window i s).processing_queue ≡ true
unfolding fill_append_window can_fill start_queue after_scan fill_scan
free_fill-starts i s free b q e = ground (arith, some_key s.active_stream_key i.stream_key)

evicted_range-free :
    (e : EvictionInput) (range : SecondsRange) (s : StreamRefs)
    → evicted_range e s ≡ some range
    → (s.has_source_buffer ≡ true) × (s.processing_queue ≡ false)
unfolding evicted_range
evicted_range-free e range s h = ground arith

begin_eviction-lock :
    (e : EvictionInput) (range : SecondsRange) (s : StreamRefs)
    → evicted_range e s ≡ some range
    → begin_eviction e s ≡ record s { processing_queue = true }
unfolding begin_eviction
begin_eviction-lock e range s h = rw h refl

-- Where queued chunks are worked on, an eviction starts, and a fill queues chunks while it holds the
-- lock: when the eviction ends the chunks are not worked on, and no later fill starts on them, since
-- each returns early for the queue that is not empty. Without the eviction the same fill would have
-- started the loop.
pub end_eviction-stalls :
    (e : EvictionInput) (range : SecondsRange) (i later : FillInput) (s : StreamRefs)
    → IsServed s
    → evicted_range e s ≡ some range
    → is_empty (fill_append_window i (begin_eviction e s)).append_queue ≡ false
    → let stuck = end_eviction (fill_append_window i (begin_eviction e s)) in
      (stuck.processing_queue ≡ false)
      × (is_empty stuck.append_queue ≡ false)
      × (fill_append_window later stuck ≡ stuck)
      × ((fill_append_window i s).processing_queue ≡ true)
unfolding end_eviction
end_eviction-stalls e range i later s served h q =
    let (buffer, free) = evicted_range-free e range s h in
    let locked = begin_eviction-lock e range s h in
    (
      refl,
      q,
      full_no-fill later (end_eviction (fill_append_window i (begin_eviction e s))) q,
      free_fill-starts i s free buffer (rw locked at q) (ground arith),
    )
