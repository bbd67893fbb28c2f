-- ===== src/Media/Stream/Order.antt =====
-- The append order, and the filling of the window.
use readflow.Common.{
  length, ℕ, ◌≤◌, ◌<◌, ◌≡◌, inl, inr, true, not, ◌||◌, List, [], ◌∷◌, ◌++◌, take, arith, All,
  Bool-cases, ◌+◌, drop, suc, sym, append-nil, subst, ◌∙◌, ap, refl, zero,
}
use readflow.Common.Sets.{has, nat_eq}
use readflow.Common.Sort.{IsSorted, sort_by, sort_by_of_IsSorted}
use readflow.Chunk.{Chunk}
use readflow.Media.Stream.{
  QueuedChunk, queue_le, StreamRefs, start_queue, is_some_key, after_scan, can_fill, is_empty,
  FillInput, Scan, scan_window, fill_append_window, fill_scan, resolve_append_window_end, pos,
}
use readflow.Media.Stream.Entries.{
  entries, indexes, IsRising, IsFresh, entries-IsRising, take-IsIncreasing, drop-IsIncreasing,
  entries-IsFresh, IsFresh-empty, entries-take_add,
}
use readflow.Reader.Active.Order.{IsIncreasing}
use readflow.Media.Stream.Scanning.{scan_window-Found}
use readflow.Media.Window.{resolve_append_window_end}
use readflow.Common.Int.{pos}

-- What is appended and what waits in the queue, in this order, are the playable chunks before the
-- cursor, each once; and exactly what waits is marked as pending.
pub record InOrder (chunks : List Chunk) (appended : List ℕ) (queue : List QueuedChunk) (cursor : ℕ)
    (pending : List ℕ) : Type 0 where
  pub done : List QueuedChunk
  pub listed : appended ≡ indexes done
  pub covers : done ++ queue ≡ entries 0 (take cursor chunks)
  pub within : cursor ≤ length chunks
  pub marks : (i : ℕ) → has i pending ≡ has i (indexes queue)

abbrev pub IsInOrder : List Chunk → StreamRefs → Type 0
IsInOrder chunks s =
    InOrder chunks s.appended_indexes s.append_queue s.window_cursor s.pending_indexes

start_queue-IsInOrder :
    (chunks : List Chunk) (s : StreamRefs) → IsInOrder chunks s → IsInOrder chunks (start_queue s)
unfolding start_queue
start_queue-IsInOrder chunks s h =
    elim (Bool-cases
      (s.processing_queue || not s.has_source_buffer || not (is_some_key s.active_stream_key))) [
        | inl e ↦ rw e h
        | inr e ↦ rw e (record {
          done = h.done;
          listed = h.listed;
          covers = h.covers;
          within = h.within;
          marks = h.marks;
        })
      ]

IsSorted-entries : (queue : List QueuedChunk) → IsRising (indexes queue) → IsSorted queue_le queue
IsSorted-entries [] h = tt
IsSorted-entries (q ∷ qs) h = (below q qs h.0, IsSorted-entries qs h.1)
  where
    below :
        (q : QueuedChunk) (qs : List QueuedChunk)
        → All (λ j. q.index < j) (indexes qs)
        → All (λ r. queue_le q r ≡ true) qs
    below q [] k = tt
    below q (r ∷ rs) k = (ground arith, below q rs k.1)

queue_of_found :
    (chunks : List Chunk) (s : StreamRefs) (r : Scan)
    → IsIncreasing chunks
    → InOrder chunks s.appended_indexes r.queue r.cursor r.pending
    → (passed : ℕ) (from : ℕ) → r.queue ≡ entries from (take passed (drop from chunks))
    → IsInOrder chunks (after_scan r s)
unfolding after_scan
queue_of_found chunks s r inc h passed from e = elim (Bool-cases (is_empty r.queue)) [
  | inl none_found ↦ rw none_found (record {
    done = h.done;
    listed = h.listed;
    covers = h.covers;
    within = h.within;
    marks = h.marks;
  })
  | inr some_found ↦ rw some_found (
      start_queue-IsInOrder chunks
        (record s {
          pending_indexes = r.pending;
          window_cursor = r.cursor;
          append_queue = sort_by queue_le r.queue;
        })
        (subst (λ q. InOrder chunks s.appended_indexes q r.cursor r.pending) (sym sorted) h))
]
  where
    sorted : sort_by queue_le r.queue ≡ r.queue
    sorted = sort_by_of_IsSorted queue_le r.queue (
        IsSorted-entries r.queue (
          subst (λ q. IsRising (indexes q)) (sym e)
            (entries-IsRising from (take passed (drop from chunks))
              (take-IsIncreasing passed (drop from chunks) (drop-IsIncreasing from chunks inc)))))

is_empty-eq : (queue : List QueuedChunk) → is_empty queue ≡ true → queue ≡ []
is_empty-eq [] h = refl
is_empty-eq (q ∷ qs) h = cc

can_fill-is_empty :
    (i : FillInput) (s : StreamRefs) → can_fill i s ≡ true → is_empty s.append_queue ≡ true
unfolding can_fill
can_fill-is_empty i s h = ground arith

length-drop :
    (n : ℕ) (chunks : List Chunk) → n ≤ length chunks → n + length (drop n chunks) ≡ length chunks
length-drop zero chunks h = omega arith
length-drop (suc n) [] h = omega arith
length-drop (suc n) (c ∷ cs) h = omega (arith, length-drop n cs)

-- A scan from an empty queue that is in order finds a queue that is in order.
found-InOrder :
    (chunks : List Chunk) (window_end : ℕ) (appended pending : List ℕ) (cursor : ℕ)
    → IsIncreasing chunks
    → InOrder chunks appended [] cursor pending
    → let start : Scan = record { cursor = cursor; pending = pending; queue = [] } in
      let r = scan_window window_end appended start (drop cursor chunks) in
      (passed : ℕ) × (r.queue ≡ entries cursor (take passed (drop cursor chunks)))
      × InOrder chunks appended r.queue r.cursor r.pending
found-InOrder chunks window_end appended pending cursor inc h =
    let start : Scan = record { cursor = cursor; pending = pending; queue = [] } in
    let whole : h.done ≡ entries 0 (take cursor chunks) = sym (append-nil h.done) ∙ h.covers in
    let fresh : IsFresh appended (drop cursor chunks) =
      subst (λ a. IsFresh a (drop cursor chunks)) (sym (h.listed ∙ ap indexes whole))
        (entries-IsFresh 0 cursor chunks inc) in
    let f =
      scan_window-Found window_end appended start (drop cursor chunks)
        (drop-IsIncreasing cursor chunks inc) fresh
        (IsFresh-empty pending (drop cursor chunks) h.marks) in
    (
      f.passed,
      f.queued,
      record {
        done = h.done;
        listed = h.listed;
        covers =
            rw (f.queued, whole)
              (entries-take_add 0 cursor f.passed _ cursor chunks f.moved (omega arith));
        within = omega (arith, f.moved, f.within, length-drop cursor chunks h.within);
        marks = λ i. f.marked i ∙ rw (h.marks i, f.queued) refl;
      },
    )

-- Filling the window keeps the order.
pub fill_append_window-IsInOrder :
    (i : FillInput) (s : StreamRefs)
    → IsIncreasing i.chunks
    → IsInOrder i.chunks s
    → IsInOrder i.chunks (fill_append_window i s)
unfolding fill_append_window fill_scan
fill_append_window-IsInOrder i s inc h = elim (Bool-cases (can_fill i s)) [
  | inr closed ↦ rw closed h
  | inl opened ↦
      let none_queued = is_empty-eq s.append_queue (can_fill-is_empty i s opened) in
      let empty =
        subst (λ q. InOrder i.chunks s.appended_indexes q s.window_cursor s.pending_indexes)
          none_queued h in
      let (passed, queued, fits) =
        found-InOrder i.chunks
          (resolve_append_window_end (pos i.playhead_seconds) i.pending_seek_seconds)
          s.appended_indexes s.pending_indexes s.window_cursor inc empty in
      rw (opened, none_queued) (queue_of_found i.chunks s _ inc fits passed s.window_cursor queued)
]
