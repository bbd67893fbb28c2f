-- ===== src/Media/Window.antt =====
-- The streaming window rules of web/src/lib/media-window.ts. Positions that the code guards by
-- `Math.max(0, …)` are integers; differences are compared with the subtrahend on the other side.
pub mod Bounds
use readflow.Common.{
  ℕ, ◌+◌, ◌-◌, Bool, true, false, ◌&&◌, ◌||◌, Option, none, some, List, [], ◌∷◌, leb, ltb, max,
  if◌then◌else◌,
}
use readflow.Common.Int.{ℤ, pos, pos_part, neg_part, ltb_ℤ}

abbrev pub ahead_seconds : ℕ
ahead_seconds = 240000

abbrev pub keep_behind_seconds : ℕ
keep_behind_seconds = 120000

abbrev pub refill_seconds : ℕ
refill_seconds = 30000

abbrev pub seek_lookahead_seconds : ℕ
seek_lookahead_seconds = 1000

abbrev pub emergency_keep_behind_seconds : ℕ
emergency_keep_behind_seconds = 10000

abbrev pub window_epsilon_seconds : ℕ
window_epsilon_seconds = 50

pub record SecondsRange : Type 0 where
  pub start : ℕ
  pub end : ℕ

-- The end is not negative, since the lookahead is added to a number that is not.
unfoldable pub resolve_append_window_end : ℤ → Option ℤ → ℕ
resolve_append_window_end playhead none = pos_part playhead + ahead_seconds
resolve_append_window_end playhead (some target) =
    max (pos_part playhead + ahead_seconds)
      (pos_part target + seek_lookahead_seconds - neg_part target)

-- `pendingSeekSeconds !== null && pendingSeekSeconds > bufferedUntilSeconds`.
abbrev pub seek_is_ahead : Option ℤ → ℕ → Bool
seek_is_ahead none buffered_until = false
seek_is_ahead (some target) buffered_until = ltb_ℤ (pos buffered_until) target

unfoldable pub needs_window_fill : ℤ → ℕ → Option ℤ → Bool
needs_window_fill playhead buffered_until pending_seek =
    seek_is_ahead pending_seek buffered_until
    || ltb (buffered_until + refill_seconds) (pos_part playhead + ahead_seconds)

unfoldable pub resolve_eviction_range : ℕ → ℤ → ℤ → Option SecondsRange
resolve_eviction_range buffered_start playhead keep_behind =
    if leb (pos_part playhead) (pos_part keep_behind + buffered_start + window_epsilon_seconds)
    then none
    else some (record { start = 0; end = pos_part playhead - pos_part keep_behind })

abbrev pub in_range : SecondsRange → ℕ → Bool
in_range range target =
    leb range.start (target + window_epsilon_seconds)
    && leb target (range.end + window_epsilon_seconds)

unfoldable pub is_seconds_buffered : List SecondsRange → ℕ → Bool
is_seconds_buffered [] target = false
is_seconds_buffered (range ∷ ranges) target =
    if in_range range target then true else is_seconds_buffered ranges target

unfoldable pub is_seconds_evicted : List SecondsRange → ℕ → Bool
is_seconds_evicted [] target = false
is_seconds_evicted (range ∷ ranges) target = ltb (target + window_epsilon_seconds) range.start
