-- ===== src/Media/Window/Bounds.antt =====
-- Eviction keeps what will be played, and evicted positions are not taken for buffered ones.
use readflow.Common.{
  ℕ, ◌+◌, ◌≤◌, ◌<◌, ◌≡◌, refl, ◌⊎◌, true, false, some, List, [], ◌∷◌, leb, All, arith, ◌&&◌, ◌||◌,
}
use readflow.Common.Int.{ℤ, pos, pos_part}
use readflow.Media.Window.{
  SecondsRange, resolve_eviction_range, is_seconds_buffered, is_seconds_evicted, needs_window_fill,
  resolve_append_window_end, window_epsilon_seconds, ahead_seconds, seek_lookahead_seconds,
}

-- What an eviction removes ends behind the start of the buffer and by the whole margin before the
-- playhead; in the buffered range that is left, from there to the old end, the playhead is still
-- buffered, and so is every position up to the margin behind it.
pub resolve_eviction_range-keeps :
    (start until : ℕ) (playhead keep_behind : ℤ) (range : SecondsRange) (position : ℕ)
    → resolve_eviction_range start playhead keep_behind ≡ some range
    → pos_part playhead ≤ position + pos_part keep_behind
    → position ≤ until
    → (start < range.end)
      × (range.end + pos_part keep_behind ≡ pos_part playhead)
      × (is_seconds_buffered (record { start = range.end; end = until } ∷ []) position ≡ true)
unfolding resolve_eviction_range is_seconds_buffered
resolve_eviction_range-keeps start until playhead keep_behind range position h k u = ground arith

-- Ranges in order, none empty.
abbrev pub IsOrdered : List SecondsRange → Type 0
IsOrdered [] = Unit
IsOrdered (r ∷ rs) = (r.start ≤ r.end) × All (λ s. r.end ≤ s.start) rs × IsOrdered rs

not-buffered_before :
    (start target : ℕ) (rs : List SecondsRange)
    → target + window_epsilon_seconds < start
    → All (λ s. start ≤ s.start) rs
    → is_seconds_buffered rs target ≡ false
unfolding is_seconds_buffered
not-buffered_before start target [] h k = refl
not-buffered_before start target (r ∷ rs) h k =
    ground (arith, not-buffered_before start target rs h k.1)

start_mono :
    (a b : ℕ) (rs : List SecondsRange)
    → a ≤ b
    → All (λ s. b ≤ s.start) rs
    → All (λ s. a ≤ s.start) rs
start_mono a b [] h k = tt
start_mono a b (r ∷ rs) h k = (omega arith, start_mono a b rs h k.1)

-- In ordered ranges a position that counts as evicted is in none of them.
pub is_seconds_evicted-not-buffered :
    (ranges : List SecondsRange) (target : ℕ)
    → IsOrdered ranges
    → (is_seconds_evicted ranges target && is_seconds_buffered ranges target) ≡ false
unfolding is_seconds_evicted is_seconds_buffered
is_seconds_evicted-not-buffered [] target h = refl
is_seconds_evicted-not-buffered (r ∷ rs) target h =
    ground (arith, not-buffered_before r.start target rs, start_mono r.start r.end rs h.0 h.1)

-- When no fill is needed, at least 210 seconds are buffered ahead of the playhead, and a pending seek
-- target is not ahead of the buffered audio. The window of a fill reaches 240 seconds ahead of the
-- playhead and 1 second past a pending target, and no further than the later of the two.
pub needs_window_fill_lem :
    (playhead : ℤ) (until : ℕ) (target : ℕ)
    → let filled = needs_window_fill playhead until (some (pos target)) in
      let window = resolve_append_window_end playhead (some (pos target)) in
      ((filled || (leb (pos_part playhead + 210000) until && leb target until)) ≡ true)
      × (pos_part playhead + ahead_seconds ≤ window)
      × (target + seek_lookahead_seconds ≤ window)
      × ((window ≡ pos_part playhead + ahead_seconds) ⊎ (window ≡ target + seek_lookahead_seconds))
unfolding needs_window_fill resolve_append_window_end
needs_window_fill_lem playhead until target = ground arith
