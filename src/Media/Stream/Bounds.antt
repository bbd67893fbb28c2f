-- ===== src/Media/Stream/Bounds.antt =====
-- How far a fill reaches, and what a late failure does to a newer stream.
use readflow.Common.{
  ◌≡◌, ℕ, List, String, arith, true, drop, ◌+◌, ◌<◌, ◌∷◌, All, false, suc, ◌||◌, take, ◌==◌,
  Bool-cases, ◌++◌, inl, [], inr, leb, zero,
}
use readflow.Chunk.{Chunk}
use readflow.Media.Window.{resolve_append_window_end, needs_window_fill}
use readflow.Media.Stream.{
  QueuedChunk, StreamRefs, Scan, scan_window, FillInput, fill_scan, can_fill, fill_append_window,
  after_scan, start_queue, process_round, failed, open_stream, pos, is_url, add, entry_of,
}
use readflow.Media.Stream.Entries.{entries, indexes}
use readflow.Common.Sets.{nat_eq, add, has}
use readflow.Media.Stream.Order.{IsInOrder}
use readflow.Common.Int.{pos}
use readflow.Reader.Playback.{is_url}

-- From one cursor to a later one every chunk starts before the window's end.
abbrev pub IsEarly : ℕ → ℕ → ℕ → List Chunk → Type 0
IsEarly window_end from to chunks =
    (passed : ℕ) × (to ≡ from + passed)
    × All (λ c. c.start_seconds < window_end) (take passed chunks)

IsEarly-cons :
    (window_end from to : ℕ) (c : Chunk) (cs : List Chunk)
    → c.start_seconds < window_end
    → IsEarly window_end (suc from) to cs
    → IsEarly window_end from to (c ∷ cs)
IsEarly-cons window_end from to c cs b (passed, moved, early) =
    (suc passed, omega arith, (b, early))

scan_window-IsEarly :
    (window_end : ℕ) (appended : List ℕ) (start : Scan) (cs : List Chunk)
    → IsEarly window_end start.cursor (scan_window window_end appended start cs).cursor cs
unfolding scan_window
scan_window-IsEarly window_end appended start [] = (0, omega arith, tt)
scan_window-IsEarly window_end appended start (c ∷ cs) =
    let skipped =
      scan_window-IsEarly window_end appended (record start { cursor = suc start.cursor }) cs in
    let taken =
      scan_window-IsEarly window_end appended
        (record {
          cursor = suc start.cursor;
          pending = add c.index start.pending;
          queue = start.queue ++ entry_of c start.cursor ∷ [];
        })
        cs in
    elim (Bool-cases (leb window_end c.start_seconds)) [
      | inl stop ↦ rw stop (0, omega arith, tt)
      | inr on ↦
          let early : c.start_seconds < window_end = ground arith in
          elim (Bool-cases (is_url c.segment_url)) [
            | inr u ↦ rw (on, u) (IsEarly-cons window_end start.cursor _ c cs early skipped)
            | inl u ↦ elim (Bool-cases (has c.index appended)) [
              | inl a ↦ rw (on, u, a) (IsEarly-cons window_end start.cursor _ c cs early skipped)
              | inr a ↦ elim (Bool-cases (has c.index start.pending)) [
                | inl p ↦
                    rw (on, u, a, p) (IsEarly-cons window_end start.cursor _ c cs early skipped)
                | inr p ↦ rw (on, u, a, p) (IsEarly-cons window_end start.cursor _ c cs early taken)
              ]
            ]
          ]
    ]

cursor-after_scan : (r : Scan) (s : StreamRefs) → (after_scan r s).window_cursor ≡ r.cursor
unfolding after_scan start_queue
cursor-after_scan r s = ground arith

fill_scan-IsEarly :
    (i : FillInput) (s : StreamRefs)
    → IsEarly
        (resolve_append_window_end (pos i.playhead_seconds) i.pending_seek_seconds)
        s.window_cursor
        (fill_scan i s).cursor
        (drop s.window_cursor i.chunks)
unfolding fill_scan
fill_scan-IsEarly i s =
    scan_window-IsEarly _ s.appended_indexes
      (record { cursor = s.window_cursor; pending = s.pending_indexes; queue = s.append_queue })
      (drop s.window_cursor i.chunks)

can_fill-needs :
    (i : FillInput) (s : StreamRefs)
    → can_fill i s ≡ true
    → needs_window_fill (pos i.playhead_seconds) i.buffered_end i.pending_seek_seconds ≡ true
unfolding can_fill
can_fill-needs i s h = ground arith

-- A fill moves the cursor forward, or not at all, and only past chunks that start before the end of
-- the window, which lies 240 seconds ahead of the playhead or 1 second past a pending seek; it leaves
-- the cursor where it is while no fill is needed.
pub fill_append_window-IsEarly :
    (i : FillInput) (s : StreamRefs)
    → let playhead = pos i.playhead_seconds in
      IsEarly
        (resolve_append_window_end playhead i.pending_seek_seconds)
        s.window_cursor
        (fill_append_window i s).window_cursor
        (drop s.window_cursor i.chunks)
      × ((needs_window_fill playhead i.buffered_end i.pending_seek_seconds
            || ((fill_append_window i s).window_cursor == s.window_cursor))
          ≡ true)
unfolding fill_append_window
fill_append_window-IsEarly i s = elim (Bool-cases (can_fill i s)) [
  | inl opened ↦
      rw (opened, cursor-after_scan (fill_scan i s) s)
        (fill_scan-IsEarly i s, ground (arith, can_fill-needs i s opened))
  | inr closed ↦ rw closed ((0, omega arith, tt), ground arith)
]

nothing_done :
    (done : List QueuedChunk) (position : ℕ) (c : Chunk) (cs : List Chunk)
    → [] ≡ indexes done
    → done ++ [] ≡ entries 0 (take position (c ∷ cs))
    → is_url c.segment_url ≡ true
    → ¬ (0 < position)
unfolding entries
nothing_done (d ∷ ds) position c cs l e u p = cc
nothing_done [] zero c cs l e u p = absurd (omega arith)
nothing_done [] (suc k) c cs l e u p = cc (rw u at e)

-- Where the first chunk of a newly opened stream has a segment, and a chunk that was not the first in
-- the old stream fails late: the catch block of `processQueue` does not look at the stream key, so the
-- new stream's cursor is moved to the old position, and what is appended and queued are no longer the
-- playable chunks before the cursor.
pub process_round-stale_failure :
    (key old_key : String) (before : StreamRefs) (c : Chunk) (cs : List Chunk) (next : QueuedChunk)
    (now : ℕ) (message : String)
    → is_url c.segment_url ≡ true
    → 0 < next.position
    → ¬ IsInOrder
        (c ∷ cs)
        (process_round old_key next (failed false false now message) (open_stream key before))
unfolding process_round open_stream entries
process_round-stale_failure key old_key before c cs next now message u p h =
    nothing_done h.done next.position c cs h.listed h.covers u p
