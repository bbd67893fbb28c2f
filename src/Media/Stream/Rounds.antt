-- ===== src/Media/Stream/Rounds.antt =====
-- The rounds of the append loop keep the append order.
use readflow.Common.{
  ◌≡◌, ℕ, List, false, not, ◌++◌, ◌∷◌, All, Bool, [], ap, arith, subst, take, ◌&&◌, ◌==◌, ◌∙◌,
  String, refl, sym, ◌<◌, append-nil, append_assoc, Bool-cases, true, inl, inr,
}
use readflow.Common.Sets.{has, add, delete, nat_eq, has-add}
use readflow.Chunk.{Chunk}
use readflow.Reader.Active.Order.{IsIncreasing}
use readflow.Media.Stream.{
  QueuedChunk, StreamRefs, on_appended, on_failed, on_quota, on_dropped, delete_all, settle,
  process_round, AppendOutcome, fetched, appended, failed, is_empty, is_key,
}
use readflow.Media.Stream.Entries.{
  entries, indexes, IsRising, entries-IsRising, take-IsIncreasing, entries_cut,
}
use readflow.Media.Stream.Order.{IsInOrder}

has-delete : (a i : ℕ) (xs : List ℕ) → has i (delete a xs) ≡ (not (a == i) && has i xs)
has-delete a i [] = ground arith
has-delete a i (x ∷ xs) = ground (arith, has-delete a i xs)

-- In a rising list a number stands once.
rising-split :
    (done rest : List QueuedChunk) (q : QueuedChunk)
    → IsRising (indexes (done ++ q ∷ rest))
    → (has q.index (indexes done) ≡ false) × (has q.index (indexes rest) ≡ false)
rising-split [] rest q h = (refl, above rest h.0)
  where
    above :
        (rs : List QueuedChunk)
        → All (λ j. q.index < j) (indexes rs)
        → has q.index (indexes rs) ≡ false
    above [] k = refl
    above (r ∷ rs) k = ground (arith, above rs k.1)
rising-split (d ∷ ds) rest q h =
    let ih = rising-split ds rest q h.1 in (ground (arith, ih, later ds h.0), ih.1)
  where
    later :
        (es : List QueuedChunk)
        → All (λ j. d.index < j) (indexes (es ++ q ∷ rest))
        → d.index < q.index
    later [] k = k.0
    later (e ∷ es) k = later es k.1

pub indexes-append : (xs ys : List QueuedChunk) → indexes (xs ++ ys) ≡ indexes xs ++ indexes ys
indexes-append [] ys = refl
indexes-append (x ∷ xs) ys = ap (◌∷◌ x.index) (indexes-append xs ys)

add_fresh : (i : ℕ) (xs : List ℕ) → has i xs ≡ false → add i xs ≡ xs ++ i ∷ []
unfolding add
add_fresh i xs h = rw h

has-delete_all :
    (i : ℕ) (queue : List QueuedChunk) (pending : List ℕ)
    → has i (delete_all queue pending) ≡ (not (has i (indexes queue)) && has i pending)
unfolding delete_all
has-delete_all i [] pending = ground arith
has-delete_all i (q ∷ qs) pending =
    ground (arith, has-delete_all i qs (delete q.index pending), has-delete q.index i pending)

module _ (chunks : List Chunk) (s : StreamRefs) (next : QueuedChunk) (rest : List QueuedChunk)
    (inc : IsIncreasing chunks) (head : s.append_queue ≡ next ∷ rest) (h : IsInOrder chunks s) where
  covers : h.done ++ next ∷ rest ≡ entries 0 (take s.window_cursor chunks)
  covers = rw head at h.covers

  once : (has next.index (indexes h.done) ≡ false) × (has next.index (indexes rest) ≡ false)
  once = rising-split h.done rest next (
      subst (λ q. IsRising (indexes q)) (sym covers)
        (entries-IsRising 0 (take s.window_cursor chunks)
          (take-IsIncreasing s.window_cursor chunks inc)))

  marks : (i : ℕ) → has i s.pending_indexes ≡ has i (indexes (next ∷ rest))
  marks i = h.marks i ∙ ap (λ q. has i (indexes q)) head

  on_appended-IsInOrder : IsInOrder chunks (on_appended next s)
  unfolding on_appended
  on_appended-IsInOrder = record {
    done = h.done ++ next ∷ [];
    listed =
        rw h.listed
          (add_fresh next.index (indexes h.done) once.0 ∙ sym (indexes-append h.done (next ∷ [])));
    covers = rw head (append_assoc h.done (next ∷ []) rest ∙ covers);
    within = h.within;
    marks =
        λ i. rw head (ground (arith, has-delete next.index i s.pending_indexes, marks i, once.1));
  }

  on_dropped-IsInOrder :
      (quota : Bool) (now : ℕ) (message : String)
      → IsInOrder chunks (on_dropped next quota now message s)
  unfolding on_dropped
  on_dropped-IsInOrder quota now message =
      let sp = entries_cut 0 s.window_cursor chunks h.done rest next covers in
      let same : next.position ≡ sp.into = omega (arith, sp.position) in
      record {
        done = h.done;
        listed = h.listed;
        covers = rw same (append-nil h.done ∙ sp.before);
        within = omega (arith, sp.within, sp.position);
        marks = λ i. rw head (
            ground (
              arith,
              has-delete_all i (next ∷ rest) (delete next.index s.pending_indexes),
              has-delete next.index i s.pending_indexes,
              marks i,
            ));
      }

  on_freed-IsInOrder :
      IsInOrder chunks
        (record s { pending_indexes = add next.index (delete next.index s.pending_indexes) })
  on_freed-IsInOrder = record {
    done = h.done;
    listed = h.listed;
    covers = h.covers;
    within = h.within;
    marks = λ i. rw head (
        ground (
          arith,
          has-add next.index i (delete next.index s.pending_indexes),
          has-delete next.index i s.pending_indexes,
          marks i,
        ));
  }

-- A fetch that succeeds leaves the queue as it is, whatever stream and chunk it was for.
pub fetched-IsInOrder :
    (chunks : List Chunk) (key : String) (next : QueuedChunk) (s : StreamRefs)
    → IsInOrder chunks s
    → IsInOrder chunks (process_round key next fetched s)
unfolding process_round
fetched-IsInOrder chunks key next s h =
    elim (Bool-cases (is_key s.active_stream_key key && s.has_source_buffer)) [
      | inl e ↦ rw e h
      | inr e ↦ rw e (record {
        done = h.done;
        listed = h.listed;
        covers = h.covers;
        within = h.within;
        marks = h.marks;
      })
    ]

settle-IsInOrder :
    (chunks : List Chunk) (key : String) (s : StreamRefs)
    → IsInOrder chunks s
    → IsInOrder chunks (settle key s)
unfolding settle
settle-IsInOrder chunks key s h =
    elim (Bool-cases (not (is_empty s.append_queue) && is_key s.active_stream_key key)) [
      | inl e ↦ rw e h
      | inr e ↦ rw e (record {
        done = h.done;
        listed = h.listed;
        covers = h.covers;
        within = h.within;
        marks = h.marks;
      })
    ]

module _ (chunks : List Chunk) (next : QueuedChunk) (rest : List QueuedChunk)
    (inc : IsIncreasing chunks) where
  on_quota-IsInOrder :
      (freed : Bool) (now : ℕ) (message : String) (s : StreamRefs)
      → s.append_queue ≡ next ∷ rest
      → IsInOrder chunks s
      → IsInOrder chunks (on_quota next freed now message s)
  unfolding on_quota
  on_quota-IsInOrder true now message s head h = on_freed-IsInOrder chunks s next rest inc head h
  on_quota-IsInOrder false now message s head h =
      on_dropped-IsInOrder chunks s next rest inc head h true now message

  on_failed-IsInOrder :
      (quota freed : Bool) (now : ℕ) (message : String) (s : StreamRefs)
      → s.append_queue ≡ next ∷ rest
      → IsInOrder chunks s
      → IsInOrder chunks (on_failed next quota freed now message s)
  unfolding on_failed
  on_failed-IsInOrder quota freed now message s head h =
      elim (Bool-cases (quota && not (has next.index s.quota_retried_indexes))) [
        | inl e ↦ rw e (
            on_quota-IsInOrder freed now message
              (record s { quota_retried_indexes = add next.index s.quota_retried_indexes }) head
              (record {
                done = h.done;
                listed = h.listed;
                covers = h.covers;
                within = h.within;
                marks = h.marks;
              }))
        | inr e ↦ rw e (on_dropped-IsInOrder chunks s next rest inc head h quota now message)
      ]

  -- However the fetch and the append of the chunk at the head end, the order is kept.
  pub process_round-IsInOrder :
      (key : String) (outcome : AppendOutcome) (s : StreamRefs)
      → s.append_queue ≡ next ∷ rest
      → IsInOrder chunks s
      → IsInOrder chunks (process_round key next outcome s)
  unfolding process_round
  process_round-IsInOrder key fetched s head h = fetched-IsInOrder chunks key next s h
  process_round-IsInOrder key appended s head h =
      settle-IsInOrder chunks key (on_appended next s)
        (on_appended-IsInOrder chunks s next rest inc head h)
  process_round-IsInOrder key (failed quota freed now message) s head h =
      settle-IsInOrder chunks key (on_failed next quota freed now message s)
        (on_failed-IsInOrder quota freed now message s head h)
