-- ===== src/Media/Stream/Takes.antt =====
-- The takes of a chunk between the reader's chunk list and the player's queue: `derivePlaybackModel` and
-- `buildStreamManifest` of web/src/features/reader/reader-model.ts, then `fillAppendWindow` of
-- web/src/lib/media-source.ts.
use readflow.Common.{
  ℕ, suc, ◌+◌, ◌≡◌, refl, sym, ap, ◌∙◌, subst, true, false, not, ◌||◌, ◌&&◌, Option, none, some,
  List, [], ◌∷◌, ◌++◌, String, arith, All, All-append, ◌==◌, if◌then◌else◌, Bool-cases, inl, inr,
  leb, or_else, All-map,
}
use readflow.Common.Sets.{has, add, nat_eq, has-add}
use readflow.Common.Sort.{All-sort_by}
use readflow.Chunk.{Chunk}
use readflow.Api.{JobManifest}
use readflow.Reader.Playback.{derive_playback_model, anchored, written_run, is_url}
use readflow.Reader.Timeline.{normalized, build_stream_manifest}
use readflow.Media.Stream.{
  QueuedChunk, StreamRefs, Scan, FillInput, entry_of, scan_window, fill_scan, fill_append_window,
  after_scan, start_queue, open_stream, source_opened, init_appended, queue_le,
  resolve_append_window_end, pos, can_fill,
}
use readflow.Media.Window.{resolve_append_window_end}
use readflow.Common.Int.{pos}

-- The segment of the first take of a chunk index that has one.
abbrev pub first_url : ℕ → List Chunk → Option String
first_url i [] = none
first_url i (c ∷ cs) =
    let rest = first_url i cs in
    if (c.index == i) && is_url c.segment_url then c.segment_url else rest

abbrev pub IsFirstTake : List Chunk → QueuedChunk → Type 0
IsFirstTake chunks q = first_url q.index chunks ≡ some q.url

-- What the scan does with the chunks before it: each with a segment is appended or pending.
abbrev IsSeen : List ℕ → List ℕ → Chunk → Type 0
IsSeen done pending c =
    (not (is_url c.segment_url) || has c.index done || has c.index pending) ≡ true

IsSeen-add :
    (done pending : List ℕ) (i : ℕ) (cs : List Chunk)
    → All (IsSeen done pending) cs
    → All (IsSeen done (add i pending)) cs
IsSeen-add done pending i [] h = tt
IsSeen-add done pending i (c ∷ cs) h =
    (ground (arith, has-add i c.index pending), IsSeen-add done pending i cs h.1)

first_url-unseen :
    (done pending : List ℕ) (i : ℕ) (cs more : List Chunk)
    → All (IsSeen done pending) cs
    → has i done ≡ false
    → has i pending ≡ false
    → first_url i (cs ++ more) ≡ first_url i more
first_url-unseen done pending i [] more h a b = refl
first_url-unseen done pending i (c ∷ cs) more h a b =
    ground (arith, first_url-unseen done pending i cs more h.1 a b)

url_of : (o : Option String) → is_url o ≡ true → o ≡ some (or_else o "")
url_of none h = absurd (cc h)
url_of (some u) h = refl

append-snoc :
    (cs : List Chunk) (c : Chunk) (more : List Chunk) → (cs ++ c ∷ []) ++ more ≡ cs ++ c ∷ more
append-snoc [] c more = refl
append-snoc (d ∷ cs) c more = ap (◌∷◌ d) (append-snoc cs c more)

IsSeen-snoc :
    (done pending : List ℕ) (c : Chunk) (cs : List Chunk)
    → All (IsSeen done pending) cs
    → IsSeen done pending c
    → All (IsSeen done pending) (cs ++ c ∷ [])
IsSeen-snoc done pending c cs h here = All-append (IsSeen done pending) cs (c ∷ []) h (here, tt)

IsFirstTake-new :
    (done pending : List ℕ) (c : Chunk) (position : ℕ) (before cs : List Chunk)
    → All (IsSeen done pending) before
    → is_url c.segment_url ≡ true
    → has c.index done ≡ false
    → has c.index pending ≡ false
    → IsFirstTake (before ++ c ∷ cs) (entry_of c position)
IsFirstTake-new done pending c position before cs seen url a b =
    first_url-unseen done pending c.index before (c ∷ cs) seen a b
    ∙ ground (arith, url_of c.segment_url url)

module _ (window_end : ℕ) (done : List ℕ) (all : List Chunk) where
  scan_window-IsFirstTake :
      (found : Scan) (before cs : List Chunk)
      → all ≡ before ++ cs
      → All (IsSeen done found.pending) before
      → All (IsFirstTake all) found.queue
      → All (IsFirstTake all) (scan_window window_end done found cs).queue
  unfolding scan_window
  scan_window-IsFirstTake found before [] whole seen h = h
  scan_window-IsFirstTake found before (c ∷ cs) whole seen h =
      let next = whole ∙ sym (append-snoc before c cs) in
      let passed : Scan = record found { cursor = suc found.cursor } in
      elim (Bool-cases (leb window_end c.start_seconds)) [
        | inl stop ↦ rw stop h
        | inr go ↦
            elim (Bool-cases
              (not (is_url c.segment_url) || has c.index done || has c.index found.pending)) [
                | inl known ↦
                    let ih =
                      scan_window-IsFirstTake passed (before ++ c ∷ []) cs next
                        (IsSeen-snoc done found.pending c before seen known) h in
                    ground arith
                | inr new ↦
                    let url : is_url c.segment_url ≡ true = ground arith in
                    let out : has c.index done ≡ false = ground arith in
                    let fresh : has c.index found.pending ≡ false = ground arith in
                    let taken : Scan = record {
                      cursor = suc found.cursor;
                      pending = add c.index found.pending;
                      queue = found.queue ++ entry_of c found.cursor ∷ [];
                    } in
                    let ih =
                      scan_window-IsFirstTake taken (before ++ c ∷ []) cs next
                        (IsSeen-snoc done (add c.index found.pending) c before
                          (IsSeen-add done found.pending c.index before seen)
                          (ground (arith, has-add c.index c.index found.pending)))
                        (All-append (IsFirstTake all) found.queue (entry_of c found.cursor ∷ []) h (
                          subst (λ cs. IsFirstTake cs (entry_of c found.cursor)) (sym whole)
                              (IsFirstTake-new done found.pending c found.cursor before cs seen url
                                out fresh),
                          tt,
                        )) in
                    rw (go, url, out, fresh) ih
              ]
      ]

first_url-normalized : (i n : ℕ) (cs : List Chunk) → first_url i (normalized n cs) ≡ first_url i cs
unfolding normalized
first_url-normalized i n [] = refl
first_url-normalized i n (c ∷ cs) =
    ground (arith, first_url-normalized i (n + c.duration_seconds) cs)

first_url-written_run :
    (i : ℕ) (u : String) (cs : List Chunk)
    → first_url i (written_run cs) ≡ some u
    → first_url i cs ≡ some u
unfolding written_run
first_url-written_run i u [] h = h
first_url-written_run i u (c ∷ cs) h = ground (arith, first_url-written_run i u cs)

first_url-before :
    (i anchor : ℕ) (cs : List Chunk)
    → leb anchor i ≡ false
    → first_url i (anchored anchor cs) ≡ none
unfolding anchored
first_url-before i anchor [] h = refl
first_url-before i anchor (c ∷ cs) h = ground (arith, first_url-before i anchor cs h)

first_url-anchored :
    (i anchor : ℕ) (cs : List Chunk)
    → leb anchor i ≡ true
    → first_url i (anchored anchor cs) ≡ first_url i cs
unfolding anchored
first_url-anchored i anchor [] h = refl
first_url-anchored i anchor (c ∷ cs) h = ground (arith, first_url-anchored i anchor cs h)

streamed-IsFirstTake :
    (anchor : ℕ) (known : List Chunk) (q : QueuedChunk)
    → IsFirstTake (normalized 0 (written_run (anchored anchor known))) q
    → IsFirstTake known q
streamed-IsFirstTake anchor known q h =
    let run =
      first_url-written_run q.index q.url (anchored anchor known)
        (sym (first_url-normalized q.index 0 (written_run (anchored anchor known))) ∙ h) in
    elim (Bool-cases (leb anchor q.index)) [
      | inl within ↦ sym (first_url-anchored q.index anchor known within) ∙ run
      | inr out ↦ absurd (cc (first_url-before q.index anchor known out, run))
    ]

after_scan-IsFirstTake :
    (known : List Chunk) (found : Scan) (s : StreamRefs)
    → All (IsFirstTake known) found.queue
    → All (IsFirstTake known) (after_scan found s).append_queue
unfolding after_scan start_queue
after_scan-IsFirstTake known found s h =
    let sorted = All-sort_by queue_le (IsFirstTake known) found.queue h in ground arith

fill_append_window-known :
    (key : String) (refs : StreamRefs) (input : FillInput) (known : List Chunk) (anchor : ℕ)
    → input.chunks ≡ normalized 0 (written_run (anchored anchor known))
    → All
        (IsFirstTake known)
        (fill_append_window input
          (init_appended (source_opened (open_stream key refs)))).append_queue
unfolding fill_append_window fill_scan init_appended source_opened open_stream
fill_append_window-known key refs input known anchor streamed =
    let primed = init_appended (source_opened (open_stream key refs)) in
    let scanned =
      scan_window-IsFirstTake
        (resolve_append_window_end (pos input.playhead_seconds) input.pending_seek_seconds) []
        input.chunks (record { cursor = 0; pending = []; queue = [] }) [] input.chunks refl tt tt in
    let taken =
      All-map (IsFirstTake input.chunks) (IsFirstTake known)
        (λ q k. streamed-IsFirstTake anchor known q (subst (λ cs. IsFirstTake cs q) streamed k))
        (fill_scan input primed).queue scanned in
    elim (Bool-cases (can_fill input primed)) [
      | inl full ↦ rw full (after_scan-IsFirstTake known (fill_scan input primed) primed taken)
      | inr early ↦ rw early tt
    ]

chunks_of : Option JobManifest → List Chunk
chunks_of none = []
chunks_of (some m) = m.chunks

-- The reader hands the player the stream of its playback model, for any known chunks, active chunks,
-- active versions and anchor, and the player fills its window just after it opened a stream: every segment
-- that it queues is that of the first known take of its chunk index that has a segment. So which take is
-- played does not depend on the versions that are active.
pub fill_append_window-IsFirstTake :
    (key : String) (refs : StreamRefs) (input : FillInput) (known active : List Chunk)
    (versions : List (ℕ × ℕ)) (anchor : ℕ) (full stream : JobManifest)
    → build_stream_manifest
        (some full)
        (derive_playback_model known active versions anchor).contiguous_ready_chunks
      ≡ some stream
    → input.chunks ≡ stream.chunks
    → All
        (IsFirstTake known)
        (fill_append_window input
          (init_appended (source_opened (open_stream key refs)))).append_queue
unfolding build_stream_manifest derive_playback_model chunks_of
fill_append_window-IsFirstTake key refs input known active versions anchor full stream built same =
    fill_append_window-known key refs input known anchor (same ∙ sym (ap chunks_of built))
