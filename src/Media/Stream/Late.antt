-- ===== src/Media/Stream/Late.antt =====
-- An append of an older stream that ends late, in `processQueue` of web/src/lib/media-source.ts.
use readflow.Common.{◌≡◌, refl, sym, ap, ◌∙◌, String, List, [], ◌∷◌, ◌++◌, take, arith}
use readflow.Common.Sets.{add, nat_eq}
use readflow.Chunk.{Chunk}
use readflow.Media.Stream.{QueuedChunk, StreamRefs, process_round, on_appended, settle, appended}
use readflow.Media.Stream.Entries.{entries, indexes}
use readflow.Media.Stream.Order.{IsInOrder}

no_entries : (done : List QueuedChunk) → [] ≡ indexes done → done ≡ []
no_entries [] h = refl
no_entries (d ∷ ds) h = absurd (cc h)

marked_other :
    (done rest : List QueuedChunk) (first next : QueuedChunk)
    → next.index ∷ [] ≡ indexes done
    → done ++ rest ≡ first ∷ rest
    → next.index ≡ first.index
marked_other [] rest first next listed covers = absurd (cc listed)
marked_other (d ∷ []) rest first next listed covers =
    let same : d ≡ first = cc covers in
    let at : next.index ≡ d.index = cc listed in at ∙ ap (λ q. q.index) same
marked_other (d ∷ e ∷ ds) rest first next listed covers = absurd (cc listed)

-- The success path of `processQueue` tests the stream key before the append, and not after it. Where a
-- stream that keeps the append order has appended nothing yet and waits for its first chunk, and the append
-- of a chunk with another index, of an older stream, ends late: the waiting chunk is taken off the queue,
-- the other one is marked as appended, and the append order is lost.
pub process_round-stale_append :
    (chunks : List Chunk) (s : StreamRefs) (first next : QueuedChunk) (rest : List QueuedChunk)
    (old_key : String)
    → IsInOrder chunks s
    → s.appended_indexes ≡ []
    → s.append_queue ≡ first ∷ rest
    → ¬ (next.index ≡ first.index)
    → (((process_round old_key next appended s).append_queue ≡ rest)
        × ((process_round old_key next appended s).appended_indexes ≡ next.index ∷ []))
      × (¬ IsInOrder chunks (process_round old_key next appended s))
unfolding process_round on_appended settle add
process_round-stale_append chunks s first next rest old_key h nothing queue other =
    let late = process_round old_key next appended s in
    let left : late.append_queue ≡ rest = ground arith in
    let marked : late.appended_indexes ≡ next.index ∷ [] = ground arith in
    let cursor : late.window_cursor ≡ s.window_cursor = ground arith in
    (
      (left, marked),
      λ k.
          let done = no_entries h.done (sym nothing ∙ h.listed) in
          let waiting : first ∷ rest ≡ entries 0 (take s.window_cursor chunks) =
            sym queue ∙ sym (ap (◌++ s.append_queue) done) ∙ h.covers in
          other (
            marked_other k.done rest first next (sym marked ∙ k.listed) (
              sym (ap (λ q. k.done ++ q) left)
              ∙ k.covers
              ∙ ap (λ n. entries 0 (take n chunks)) cursor
              ∙ sym waiting)),
    )
