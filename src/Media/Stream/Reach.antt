-- ===== src/Media/Stream/Reach.antt =====
-- The life of the append window as steps, and the runs in which it keeps the append order.
use readflow.Common.{
  none, some, ◌≡◌, ℕ, List, String, subst, [], sym, ◌++◌, ◌≤◌, arith, drop, length, ◌∷◌,
  length-append, refl, take, suc, ap, zero,
}
use readflow.Chunk.{Chunk}
use readflow.Reader.Active.Order.{IsIncreasing}
use readflow.Media.Stream.{
  QueuedChunk, StreamRefs, FillInput, fill_append_window, process_round, AppendOutcome, fetched,
  appended, failed, open_stream, close_stream, source_opened, init_appended,
}
use readflow.Media.Eviction.{EvictionInput, evicted_range, begin_eviction, end_eviction, locked_for}
use readflow.Media.Stream.Entries.{entries, indexes, entries-take_whole}
use readflow.Media.Stream.Order.{InOrder, IsInOrder, fill_append_window-IsInOrder}
use readflow.Media.Stream.Rounds.{process_round-IsInOrder, fetched-IsInOrder, indexes-append}

-- The chunks of the stream's manifest with the refs.
pub record Session : Type 0 where
  pub chunks : List Chunk
  pub refs : StreamRefs

-- The manifest is replaced by any other, the window is filled, a wait of the append loop ends for whatever
-- chunk it was for, the lock of evictions is taken and returned, and streams are opened and closed.
pub data Step (s t : Session) : Type 0 where
  replace : (chunks : List Chunk) → t ≡ record s { chunks = chunks } → Step s t
  fill :
      (i : FillInput)
      → i.chunks ≡ s.chunks
      → t ≡ record s { refs = fill_append_window i s.refs }
      → Step s t
  finish :
      (key : String) (next : QueuedChunk) (outcome : AppendOutcome)
      → t ≡ record s { refs = process_round key next outcome s.refs }
      → Step s t
  lock : (e : EvictionInput) → t ≡ record s { refs = begin_eviction e s.refs } → Step s t
  unlock : t ≡ record s { refs = end_eviction s.refs } → Step s t
  attach : t ≡ record s { refs = source_opened s.refs } → Step s t
  prime : t ≡ record s { refs = init_appended s.refs } → Step s t
  opening :
      (key : String) (chunks : List Chunk)
      → t ≡ record { chunks = chunks; refs = open_stream key s.refs }
      → Step s t
  closing : t ≡ record s { refs = close_stream s.refs } → Step s t

-- The end of a fetch that succeeded, or the end of another wait for the chunk at the head of the queue.
abbrev pub IsTimely : QueuedChunk → AppendOutcome → StreamRefs → Type 0
IsTimely next fetched s = Unit
IsTimely next outcome s = (rest : List QueuedChunk) × (s.append_queue ≡ next ∷ rest)

-- Manifests have increasing indexes, and one of a stream that is open is only extended; no append and no
-- failure arrives for a chunk that is not at the head of the queue.
abbrev pub IsOrderly : {s t : Session} → Step s t → Type 0
IsOrderly {s} (replace chunks e) =
    (more : List Chunk) × (chunks ≡ s.chunks ++ more) × IsIncreasing chunks
IsOrderly {s} (finish key next outcome e) = IsTimely next outcome s.refs
IsOrderly (opening key chunks e) = IsIncreasing chunks
IsOrderly step = Unit

pub data Reach (s : Session) : Session → Type 0 where
  here : Reach s s
  then_step : {t u : Session} → Reach s t → Step t u → Reach s u

abbrev pub IsOrderlyRun : {s t : Session} → Reach s t → Type 0
IsOrderlyRun here = Unit
IsOrderlyRun (then_step r step) = IsOrderlyRun r × IsOrderly step

pub record IsGood (s : Session) : Type 0 where
  pub increasing : IsIncreasing s.chunks
  pub in_order : IsInOrder s.chunks s.refs

empty-InOrder : (chunks : List Chunk) → InOrder chunks [] [] 0 []
unfolding entries
empty-InOrder chunks = record {
  done = [];
  listed = refl;
  covers = refl;
  within = omega arith;
  marks = λ i. refl;
}

take-grown :
    (n : ℕ) (chunks more : List Chunk) → n ≤ length chunks → take n (chunks ++ more) ≡ take n chunks
take-grown zero chunks more h = refl
take-grown (suc n) [] more h = absurd (omega arith)
take-grown (suc n) (c ∷ cs) more h = ap (◌∷◌ c) (take-grown n cs more (omega arith))

grown-InOrder :
    (chunks more : List Chunk) (s : StreamRefs) → IsInOrder chunks s → IsInOrder (chunks ++ more) s
grown-InOrder chunks more s h = record {
  done = h.done;
  listed = h.listed;
  covers = rw (take-grown s.window_cursor chunks more h.within) h.covers;
  within = omega (arith, h.within, length-append chunks more);
  marks = h.marks;
}

begin_eviction-IsInOrder :
    (chunks : List Chunk) (e : EvictionInput) (s : StreamRefs)
    → IsInOrder chunks s
    → IsInOrder chunks (begin_eviction e s)
unfolding begin_eviction
begin_eviction-IsInOrder chunks e s h =
    elim (evicted_range e s) as (λ r. IsInOrder chunks (locked_for r s)) [
      | none ↦ h
      | some range ↦ record {
        done = h.done;
        listed = h.listed;
        covers = h.covers;
        within = h.within;
        marks = h.marks;
      }
    ]

finish-IsInOrder :
    (chunks : List Chunk) (key : String) (next : QueuedChunk) (outcome : AppendOutcome)
    (s : StreamRefs)
    → IsIncreasing chunks
    → IsTimely next outcome s
    → IsInOrder chunks s
    → IsInOrder chunks (process_round key next outcome s)
finish-IsInOrder chunks key next fetched s inc timely h = fetched-IsInOrder chunks key next s h
finish-IsInOrder chunks key next appended s inc (rest, head) h =
    process_round-IsInOrder chunks next rest inc key appended s head h
finish-IsInOrder chunks key next (failed quota freed now message) s inc (rest, head) h =
    process_round-IsInOrder chunks next rest inc key (failed quota freed now message) s head h

pub Step-IsGood : {s t : Session} (step : Step s t) → IsOrderly step → IsGood s → IsGood t
unfolding open_stream close_stream source_opened init_appended end_eviction
Step-IsGood {s} (replace chunks e) (more, extends, inc) g = subst IsGood (sym e) (record {
  increasing = inc;
  in_order =
      subst (λ cs. IsInOrder cs s.refs) (sym extends)
        (grown-InOrder s.chunks more s.refs g.in_order);
})
Step-IsGood {s} (fill i same e) orderly g = subst IsGood (sym e) (record {
  increasing = g.increasing;
  in_order =
      subst (λ cs. IsInOrder cs (fill_append_window i s.refs)) same
        (fill_append_window-IsInOrder i s.refs (rw same g.increasing) (rw same g.in_order));
})
Step-IsGood {s} (finish key next outcome e) timely g = subst IsGood (sym e) (record {
  increasing = g.increasing;
  in_order = finish-IsInOrder s.chunks key next outcome s.refs g.increasing timely g.in_order;
})
Step-IsGood {s} (lock e l) orderly g = subst IsGood (sym l) (record {
  increasing = g.increasing;
  in_order = begin_eviction-IsInOrder s.chunks e s.refs g.in_order;
})
Step-IsGood {s} (unlock e) orderly g = subst IsGood (sym e) (record {
  increasing = g.increasing;
  in_order = record {
    done = g.in_order.done;
    listed = g.in_order.listed;
    covers = g.in_order.covers;
    within = g.in_order.within;
    marks = g.in_order.marks;
  };
})
Step-IsGood {s} (attach e) orderly g = subst IsGood (sym e) (record {
  increasing = g.increasing;
  in_order = record {
    done = g.in_order.done;
    listed = g.in_order.listed;
    covers = g.in_order.covers;
    within = g.in_order.within;
    marks = g.in_order.marks;
  };
})
Step-IsGood {s} (prime e) orderly g = subst IsGood (sym e) (record {
  increasing = g.increasing;
  in_order = record {
    done = g.in_order.done;
    listed = g.in_order.listed;
    covers = g.in_order.covers;
    within = g.in_order.within;
    marks = g.in_order.marks;
  };
})
Step-IsGood {s} (opening key chunks e) inc g =
    subst IsGood (sym e) (record { increasing = inc; in_order = empty-InOrder chunks })
Step-IsGood {s} (closing e) orderly g =
    subst IsGood (sym e) (record { increasing = g.increasing; in_order = empty-InOrder s.chunks })

Reach-IsGood : {s t : Session} (r : Reach s t) → IsOrderlyRun r → IsGood s → IsGood t
Reach-IsGood here orderly g = g
Reach-IsGood (then_step r step) (before, now) g = Step-IsGood step now (Reach-IsGood r before g)

-- From a newly opened stream on, in every state that the steps reach, as long as manifests have increasing
-- indexes and are only extended while their stream is open, and no append and no failure arrives for a
-- chunk that is not at the head of the queue: the appended indexes followed by the queued ones are an
-- initial part of the indexes of the manifest's chunks with a segment. So no playable chunk is skipped,
-- none is appended twice, and segments are appended in timeline order, also after failed and retried
-- appends, after fetches of older streams that succeed late, and when streams are closed and reopened.
pub Reach-appended_prefix :
    (key : String) (chunks : List Chunk) (before : StreamRefs) (t : Session)
    → IsIncreasing chunks
    → (r : Reach (record { chunks = chunks; refs = open_stream key before }) t) → IsOrderlyRun r
    → (later : List ℕ) × ((t.refs.appended_indexes ++ indexes t.refs.append_queue) ++ later
        ≡ indexes (entries 0 t.chunks))
unfolding open_stream
Reach-appended_prefix key chunks before t inc r orderly =
    let g = Reach-IsGood r orderly (record { increasing = inc; in_order = empty-InOrder chunks }) in
    let cursor = t.refs.window_cursor in
    let rest = entries cursor (drop cursor t.chunks) in
    let whole = entries-take_whole cursor t.chunks in
    (
      indexes rest,
      rw
          (
            g.in_order.listed,
            ← indexes-append g.in_order.done t.refs.append_queue,
            g.in_order.covers,
            ← indexes-append (entries 0 (take cursor t.chunks)) rest,
            whole,
          )
          refl,
    )
