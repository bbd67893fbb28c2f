-- ===== src/Media/Stream/Scanning.antt =====
-- What the scan of the append window finds.
use readflow.Common.{
  length, append-nil, append_assoc, ℕ, suc, ◌+◌, ◌≤◌, ◌<◌, ◌≡◌, sym, ◌∙◌, inl, inr, true, false,
  ◌||◌, List, [], ◌∷◌, ◌++◌, take, arith, All, Bool-cases, leb,
}
use readflow.Common.Sets.{has, add, nat_eq, has-add}
use readflow.Chunk.{Chunk}
use readflow.Reader.Playback.{is_url}
use readflow.Reader.Active.Order.{IsIncreasing}
use readflow.Media.Stream.{entry_of, Scan, scan_window}
use readflow.Media.Stream.Entries.{entries, indexes, IsFresh, IsFresh-add}

-- What a scan finds in front of it: the entries of the chunks that it passes.
pub record Found (window_end : ℕ) (start : Scan) (cs : List Chunk) (end : Scan) : Type 0 where
  pub passed : ℕ
  pub within : passed ≤ length cs
  pub moved : end.cursor ≡ start.cursor + passed
  pub queued : end.queue ≡ start.queue ++ entries start.cursor (take passed cs)
  pub marked :
      (i : ℕ)
      → has i end.pending
        ≡ (has i start.pending || has i (indexes (entries start.cursor (take passed cs))))
  pub early : All (λ c. c.start_seconds < window_end) (take passed cs)

Found-stop : (window_end : ℕ) (start : Scan) (cs : List Chunk) → Found window_end start cs start
unfolding entries
Found-stop window_end start cs = record {
  passed = 0;
  within = omega arith;
  moved = omega arith;
  queued = sym (append-nil start.queue);
  marked = λ i. ground arith;
  early = tt;
}

module _ (window_end : ℕ) (start : Scan) (c : Chunk) (cs : List Chunk) (end : Scan) where
  Found-skip :
      is_url c.segment_url ≡ false
      → c.start_seconds < window_end
      → Found window_end (record start { cursor = suc start.cursor }) cs end
      → Found window_end start (c ∷ cs) end
  unfolding entries
  Found-skip u b f = record {
    passed = suc f.passed;
    within = omega (arith, f.within);
    moved = omega (arith, f.moved);
    queued = rw u f.queued;
    marked = rw u f.marked;
    early = (b, f.early);
  }

  Found-take :
      is_url c.segment_url ≡ true
      → c.start_seconds < window_end
      → Found window_end
          (record {
            cursor = suc start.cursor;
            pending = add c.index start.pending;
            queue = start.queue ++ entry_of c start.cursor ∷ [];
          })
          cs
          end
      → Found window_end start (c ∷ cs) end
  unfolding entries
  Found-take u b f = record {
    passed = suc f.passed;
    within = omega (arith, f.within);
    moved = omega (arith, f.moved);
    queued = rw u (f.queued ∙ append_assoc start.queue (entry_of c start.cursor ∷ []) _);
    marked = λ i. rw u (ground (arith, f.marked i, has-add c.index i start.pending));
    early = (b, f.early);
  }

pub scan_window-Found :
    (window_end : ℕ) (appended : List ℕ) (start : Scan) (cs : List Chunk)
    → IsIncreasing cs
    → IsFresh appended cs
    → IsFresh start.pending cs
    → Found window_end start cs (scan_window window_end appended start cs)
unfolding scan_window
scan_window-Found window_end appended start [] s a p = Found-stop window_end start []
scan_window-Found window_end appended start (c ∷ cs) s a p =
    elim (Bool-cases (leb window_end c.start_seconds)) [
      | inl stop ↦ rw stop (Found-stop window_end start (c ∷ cs))
      | inr on ↦ elim (Bool-cases (is_url c.segment_url)) [
        | inr u ↦
            rw (on, u)
              (Found-skip window_end start c cs _ u (ground arith) (
                scan_window-Found window_end appended (record start { cursor = suc start.cursor })
                  cs s.1 a.1 p.1))
        | inl u ↦
            rw (on, u, a.0, p.0)
              (Found-take window_end start c cs _ u (ground arith) (
                scan_window-Found window_end appended
                  (record {
                    cursor = suc start.cursor;
                    pending = add c.index start.pending;
                    queue = start.queue ++ entry_of c start.cursor ∷ [];
                  })
                  cs s.1 a.1 (IsFresh-add c.index start.pending cs s.0 p.1)))
      ]
    ]
