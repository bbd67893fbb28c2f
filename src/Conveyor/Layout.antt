-- ===== src/Conveyor/Layout.antt =====
-- The scale of the strip in web/src/features/reader/conveyor-physics.ts, over numbers as in
-- Conveyor/Number.antt.
use readflow.Common.{ℕ, ◌*◌, Bool, not, ◌&&◌, ◌||◌, List, [], ◌∷◌, length, if◌then◌else◌}
use readflow.Reader.Slots.{TimelineSlotData}
use readflow.State.Settings.{ConveyorWindowSize, auto_size, three, four, five}
use readflow.Conveyor.Number.{Number, at_most}

module _ (n : Number) where
  open n use {Num, milli, plus, minus, times, over, less}

  -- What `||` replaces: zero, and a number that no comparison holds of.
  abbrev is_falsy : Num → Bool
  is_falsy a = not (less a (milli 0)) && not (less (milli 0) a)

  summed_durations : Num → List TimelineSlotData → Num
  summed_durations total [] = total
  summed_durations total (s ∷ slots) =
      summed_durations (plus total (milli s.duration_seconds)) slots

  average_of : Num → Num
  average_of average = if is_falsy average then milli 4000 else average

  unfoldable pub average_duration_seconds : List TimelineSlotData → Num
  unfolding average_of summed_durations
  average_duration_seconds [] = milli 4000
  average_duration_seconds (s ∷ slots) =
      average_of (over (summed_durations (milli 0) (s ∷ slots)) (milli (1000 * length (s ∷ slots))))

  -- The width of the strip is a number of pixels.
  unfoldable pub resolve_conveyor_window_size : ConveyorWindowSize → Num → ℕ
  resolve_conveyor_window_size three width = 3
  resolve_conveyor_window_size four width = 4
  resolve_conveyor_window_size five width = 5
  resolve_conveyor_window_size auto_size width =
      if less width (milli 480_000) then 3 else if less width (milli 900_000) then 4 else 5

  unfoldable pub conveyor_px_per_second : Num → ℕ → Num → Num
  conveyor_px_per_second width window average =
      let size = milli (1000 * window) in
      if at_most n width (milli 0) || at_most n size (milli 0) || at_most n average (milli 0)
      then milli 0
      else over width (times size average)

  unfoldable pub conveyor_track_origin_px : Num → Num → Num → Num
  conveyor_track_origin_px width center px_per_second =
      minus (over width (milli 2000)) (times center px_per_second)
