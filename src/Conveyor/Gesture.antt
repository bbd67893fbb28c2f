-- ===== src/Conveyor/Gesture.antt =====
-- Gestures of web/src/features/reader/conveyor-physics.ts, over numbers as in Conveyor/Number.antt.
-- Positions are seconds of the timeline, offsets are from the position where a gesture began.
pub mod Records
pub mod Rest
pub use readflow.Conveyor.Gesture.Records.{
  Motion, PointerSample, DraggingGesture, CoastingGesture, SettlingGesture, ConveyorGesture,
  ConveyorBounds, SettleState, EndDragOptions, SmoothedPlayheadInput, animated, reduced, dragging,
  coasting, settling,
}
use readflow.Common.{
  ℕ, suc, ◌-◌, Bool, true, false, not, ◌&&◌, ◌||◌, Option, none, some, List, [], ◌∷◌, ◌++◌, length,
  drop, if◌then◌else◌,
}
use mathlib.Core.List.{reverse}
use readflow.Conveyor.Number.{Number, min_num, max_num, abs_num, negate, at_most, clamp_seconds}

module _ (n : Number) where
  open n use {Num, milli, plus, minus, times, over, exp, less}

  unfoldable pub px_per_ms_to_strip_speed : Num → Num → Num
  px_per_ms_to_strip_speed velocity px_per_second =
      if at_most n px_per_second (milli 0)
      then milli 0
      else times (over velocity px_per_second) (milli 1_000_000)

  -- The loop over the samples from the newest to the oldest: the oldest inside the window.
  unfoldable pub oldest_in_window :
      Num → PointerSample Num → PointerSample Num → List (PointerSample Num) → PointerSample Num
  oldest_in_window window newest oldest [] = oldest
  oldest_in_window window newest oldest (s ∷ ss) =
      let rest = oldest_in_window window newest s ss in
      if less window (minus newest.at_ms s.at_ms) then oldest else rest

  velocity_from : Num → List (PointerSample Num) → Num
  velocity_from window [] = milli 0
  velocity_from window (newest ∷ []) = milli 0
  velocity_from window (newest ∷ (s ∷ ss)) =
      let oldest = oldest_in_window window newest newest (newest ∷ s ∷ ss) in
      let elapsed = minus newest.at_ms oldest.at_ms in
      if at_most n elapsed (milli 0) then milli 0 else over (minus newest.x oldest.x) elapsed

  -- The samples of a gesture have the newest at the end.
  unfoldable pub velocity_from_samples : List (PointerSample Num) → Num → Num
  unfolding velocity_from
  velocity_from_samples samples window = velocity_from window (reverse samples)

  -- 0.45 px/ms.
  unfoldable pub is_flick : Num → Bool
  is_flick velocity = at_most n (milli 450) (abs_num n velocity)

  -- 6 px.
  unfoldable pub is_tap : Num → Num → Bool
  is_tap start_x end_x = at_most n (abs_num n (minus end_x start_x)) (milli 6000)

  unfoldable pub begin_drag : Num → Num → Num → DraggingGesture Num
  begin_drag base pointer_x now = record {
    base_seconds = base;
    offset_seconds = milli 0;
    pointer_start_x = pointer_x;
    samples = record { x = pointer_x; at_ms = now } ∷ [];
  }

  unfoldable pub update_drag :
      DraggingGesture Num → Num → Num → Num → ConveyorBounds Num → DraggingGesture Num
  update_drag g pointer_x now px_per_second bounds =
      let travelled =
        if less (milli 0) px_per_second
        then over (minus pointer_x g.pointer_start_x) px_per_second
        else milli 0 in
      record g {
        offset_seconds =
            minus
              (clamp_seconds n (plus g.base_seconds (negate n travelled)) bounds.max_visual_seconds)
              g.base_seconds;
        samples =
            drop (length g.samples - 8) g.samples ++ record { x = pointer_x; at_ms = now } ∷ [];
      }

  abbrev is_given {ℓ} : {A : Type ℓ} → Option A → Bool
  is_given none = false
  is_given (some a) = true

  abbrev aligned_offset : DraggingGesture Num → ConveyorBounds Num → Option Num → Num
  aligned_offset g bounds none = g.offset_seconds
  aligned_offset g bounds (some alignment) =
      minus (clamp_seconds n (plus g.base_seconds alignment) bounds.max_visual_seconds)
        g.base_seconds

  -- `samples[0].atMs`, for a gesture with samples.
  abbrev first_at : Num → List (PointerSample Num) → Num
  first_at now [] = now
  first_at now (s ∷ ss) = s.at_ms

  unfoldable pub end_drag :
      DraggingGesture Num
      → Num
      → Num
      → Motion
      → ConveyorBounds Num
      → EndDragOptions Num
      → ConveyorGesture Num
  end_drag g now px_per_second motion bounds options =
      let tapped = is_given options.alignment_offset_seconds in
      let allows = tapped && options.allows_unrendered_target in
      let offset = aligned_offset g bounds options.alignment_offset_seconds in
      let limit = if allows then bounds.max_visual_seconds else bounds.max_seek_seconds in
      let target = minus (clamp_seconds n (plus g.base_seconds offset) limit) g.base_seconds in
      let velocity = velocity_from_samples g.samples (minus now (first_at now g.samples)) in
      let settle = λ (from : Num). settling (record {
        base_seconds = g.base_seconds;
        offset_seconds = from;
        target_offset_seconds = target;
        speed = milli 0;
        allows_unrendered_target = allows;
        has_reported_rest = false;
      }) in
      elim motion [
        | reduced ↦ settle target
        | animated ↦
            if not tapped && is_flick velocity
            then coasting (record {
              base_seconds = g.base_seconds;
              offset_seconds = offset;
              speed = negate n (px_per_ms_to_strip_speed velocity px_per_second);
            })
            else settle offset
      ]

  -- Stiffness 200, damping 16.
  unfoldable pub step_settle_spring : SettleState Num → Num → Num → SettleState Num
  step_settle_spring s target dt =
      let displacement = minus target s.offset_seconds in
      let acceleration =
        minus (times (milli 200_000) displacement) (times (milli 16_000) s.speed) in
      let speed = plus s.speed (times acceleration dt) in
      record { offset_seconds = plus s.offset_seconds (times speed dt); speed = speed }

  -- Within 0.01 s and slower than 2.
  unfoldable pub is_settle_at_rest : SettleState Num → Num → Bool
  is_settle_at_rest s target =
      less (abs_num n (minus target s.offset_seconds)) (milli 10)
      && less (abs_num n s.speed) (milli 2000)

  -- Where a coast has got to in one frame, before it stops at the end of the rendered audio.
  unfoldable pub coast_step : CoastingGesture Num → Num → SettleState Num
  coast_step g dt =
      let decay = exp (times (negate n (milli 2000)) dt) in
      record {
        offset_seconds =
            plus g.offset_seconds (over (times g.speed (minus (milli 1000) decay)) (milli 2000));
        speed = times g.speed decay;
      }

  unfoldable pub stop_coast : SettleState Num → Num → ConveyorBounds Num → SettleState Num
  stop_coast s base bounds =
      let max_offset = minus bounds.max_seek_seconds base in
      let min_offset = negate n base in
      if less max_offset s.offset_seconds
      then record { offset_seconds = max_offset; speed = milli 0 }
      else if less s.offset_seconds min_offset
      then record { offset_seconds = min_offset; speed = milli 0 }
      else s

  unfoldable pub advance_coast :
      CoastingGesture Num → Num → ConveyorBounds Num → ConveyorGesture Num
  advance_coast g dt bounds =
      let s = stop_coast (coast_step g dt) g.base_seconds bounds in
      if at_most n (milli 2000) (abs_num n s.speed)
      then coasting (record g { offset_seconds = s.offset_seconds; speed = s.speed })
      else settling (record {
        base_seconds = g.base_seconds;
        offset_seconds = s.offset_seconds;
        target_offset_seconds =
            minus (clamp_seconds n (plus g.base_seconds s.offset_seconds) bounds.max_seek_seconds)
              g.base_seconds;
        speed = s.speed;
        allows_unrendered_target = false;
        has_reported_rest = false;
      })

  unfoldable pub commit_limit : Bool → ConveyorBounds Num → Num
  commit_limit allows bounds = if allows then bounds.max_visual_seconds else bounds.max_seek_seconds

  unfoldable pub advance_settle :
      SettlingGesture Num → Num → ConveyorBounds Num → ConveyorGesture Num × Option Num
  advance_settle g dt bounds =
      let next =
        step_settle_spring (record { offset_seconds = g.offset_seconds; speed = g.speed })
          g.target_offset_seconds dt in
      if g.has_reported_rest
      then (settling g, none)
      else if not (is_settle_at_rest next g.target_offset_seconds)
      then (settling (record g { offset_seconds = next.offset_seconds; speed = next.speed }), none)
      else (
        settling (record g {
          offset_seconds = g.target_offset_seconds;
          speed = milli 0;
          has_reported_rest = true;
        }),
        some (
            clamp_seconds n (plus g.base_seconds g.target_offset_seconds)
              (commit_limit g.allows_unrendered_target bounds)),
      )

  -- One frame, with the position to commit if the strip came to rest.
  unfoldable pub advance_conveyor :
      ConveyorGesture Num → Num → ConveyorBounds Num → ConveyorGesture Num × Option Num
  advance_conveyor (dragging g) dt bounds = (dragging g, none)
  advance_conveyor (coasting g) dt bounds =
      if at_most n dt (milli 0) then (coasting g, none) else (advance_coast g dt bounds, none)
  advance_conveyor (settling g) dt bounds =
      if at_most n dt (milli 0) then (settling g, none) else advance_settle g dt bounds

  unfoldable pub gesture_center_seconds : ConveyorGesture Num → Num
  gesture_center_seconds (dragging g) = plus g.base_seconds g.offset_seconds
  gesture_center_seconds (coasting g) = plus g.base_seconds g.offset_seconds
  gesture_center_seconds (settling g) = plus g.base_seconds g.offset_seconds

  unfoldable pub is_moving_gesture : Option (ConveyorGesture Num) → Bool
  is_moving_gesture none = false
  is_moving_gesture (some (dragging g)) = false
  is_moving_gesture (some (coasting g)) = true
  is_moving_gesture (some (settling g)) = true

  -- One frame of the strip's own clock: a gap of half a second or more is a seek.
  unfoldable pub advance_smoothed_playhead : SmoothedPlayheadInput Num → Num
  advance_smoothed_playhead i =
      let predicted = plus i.smoothed_seconds (times i.rate i.dt_seconds) in
      let correction = minus (milli 1000) (exp (over (negate n i.dt_seconds) (milli 2000))) in
      if at_most n (milli 500) (abs_num n (minus i.reported_seconds i.smoothed_seconds))
      then clamp_seconds n i.reported_seconds i.max_seconds
      else if at_most n i.dt_seconds (milli 0)
      then clamp_seconds n i.smoothed_seconds i.max_seconds
      else clamp_seconds n (plus predicted (times (minus i.reported_seconds predicted) correction))
          i.max_seconds
