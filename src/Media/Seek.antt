-- ===== src/Media/Seek.antt =====
-- Seeks of web/src/lib/media-source.ts: `clampToBuffered`, `seekToSeconds`, `seekWithinBuffered` and
-- the effect that applies a pending seek. The ranges are those of the element; without an element
-- nothing is loaded, which is the empty list.
pub mod Landing
use readflow.Common.{
  ℕ, Bool, true, false, not, ◌&&◌, ◌||◌, Option, none, some, List, [], ◌∷◌, leb, ltb, min, ◌==◌,
  if◌then◌else◌,
}
use readflow.Common.Int.{ℤ, pos, pos_part}
use readflow.Media.Window.{SecondsRange, is_seconds_buffered}

-- The loop of `clampToBuffered`, with the end of the range before.
unfoldable clamp_from : ℕ → ℕ → List SecondsRange → ℕ
clamp_from last_end target [] = last_end
clamp_from last_end target (r ∷ rs) =
    let rest = clamp_from r.end target rs in
    if ltb target r.start then r.start else if leb target r.end then target else rest

unfoldable pub clamp_to_buffered : List SecondsRange → ℤ → ℕ
unfolding clamp_from
clamp_to_buffered [] target = 0
clamp_to_buffered (r ∷ rs) target = clamp_from 0 (pos_part target) (r ∷ rs)

-- The position that the element is set to.
unfoldable pub seek_to_seconds : List SecondsRange → ℕ → ℕ → ℕ
seek_to_seconds ranges rendered target = clamp_to_buffered ranges (pos (min target rendered))

unfoldable pub seek_within_buffered : List SecondsRange → ℕ → ℤ → Option ℕ
seek_within_buffered ranges rendered target =
    let capped = min (pos_part target) rendered in
    if not (is_seconds_buffered ranges capped)
    then none
    else some (seek_to_seconds ranges rendered capped)

-- What the effect for a pending seek reads: the refs and the element.
pub record SeekInput : Type 0 where
  pub ranges : List SecondsRange
  pub is_stream_primed : Bool
  pub buffered_until : ℕ
  pub rendered_duration : ℕ

abbrev is_applied : Option ℕ → ℕ → Bool
is_applied none target = false
is_applied (some last) target = last == target

-- The last applied target, and the position where the element is set to if the seek is applied now.
unfoldable pub apply_pending_seek : SeekInput → Option ℕ → Option ℕ → Option ℕ × Option ℕ
apply_pending_seek i none last = (none, none)
apply_pending_seek i (some target) last =
    if is_applied last target
      || not i.is_stream_primed
      || leb i.rendered_duration 0
      || ltb i.buffered_until target
      || not (is_seconds_buffered i.ranges target)
    then (last, none)
    else (some target, some (seek_to_seconds i.ranges i.rendered_duration target))
