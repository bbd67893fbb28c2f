-- ===== src/Conveyor/Tests.antt =====
-- The conveyor at three slots, and a gesture over thousandths as integers.
use readflow.Common.{
  ◌+◌, ◌*◌, ◌/◌, ◌≤◌, ◌≡◌, refl, true, false, none, some, List, [], ◌∷◌, arith, length,
}
use readflow.Common.Int.{ℤ, pos, negsuc, ltb_ℤ, sub_ℕ, pos_part, neg_part}
use readflow.Reader.Slots.{TimelineSlotData, ready, played, missing_expected}
use readflow.Conveyor.Slots.{build_cumulative_start_times}
use readflow.Conveyor.Search.{bisect, visible_slot_indexes}
use readflow.Conveyor.Search.Visible.{is_visible, overlaps, visible_slot_indexes-overlaps}
use readflow.Conveyor.Number.{Number, clamp_seconds}
use readflow.Conveyor.Gesture.{
  reduced, DraggingGesture, ConveyorBounds, EndDragOptions, end_drag, advance_conveyor,
  advance_settle, is_settle_at_rest, step_settle_spring, commit_limit,
}
use readflow.State.Settings.{auto_size}
use readflow.Conveyor.Layout.{
  average_duration_seconds, resolve_conveyor_window_size, conveyor_px_per_second,
  conveyor_track_origin_px,
}
use readflow.Conveyor.Gesture.Rest.{Frame, run, end_drag-commits}

abbrev slots : List TimelineSlotData
slots =
    record { chunk_index = 0; state = played; duration_seconds = 3000 }
    ∷ record { chunk_index = 1; state = ready; duration_seconds = 2000 }
    ∷ record { chunk_index = 2; state = missing_expected; duration_seconds = 4000 }
    ∷ []

visible_slot_indexes-overlaps_example :
    is_visible
      (visible_slot_indexes (build_cumulative_start_times slots) slots (pos 3500) (pos 6000))
      1
    ≡ overlaps (build_cumulative_start_times slots) slots (pos 3500) (pos 6000) 1
visible_slot_indexes-overlaps_example =
    visible_slot_indexes-overlaps slots (pos 3500) (pos 6000) 1 (omega arith)

visible_run :
    visible_slot_indexes (build_cumulative_start_times slots) slots (pos 3500) (pos 6000)
    ≡ some (1, 2)
unfolding visible_slot_indexes build_cumulative_start_times bisect
visible_run = refl

-- The window of a strip at the start of the timeline.
start_run :
    visible_slot_indexes (build_cumulative_start_times slots) slots (negsuc 1999) (pos 2000)
    ≡ some (0, 0)
unfolding visible_slot_indexes build_cumulative_start_times bisect
start_run = refl

ltb_ℤ_asym : (a b : ℤ) → ltb_ℤ a b ≡ true → ltb_ℤ b a ≡ false
ltb_ℤ_asym a b h = ground arith

-- The products and quotients round toward zero.
abbrev thousandths : Number
thousandths = record {
  Num = ℤ;
  milli = pos;
  plus = λ a b. sub_ℕ (pos_part a + pos_part b) (neg_part a + neg_part b);
  minus = λ a b. sub_ℕ (pos_part a + neg_part b) (neg_part a + pos_part b);
  times = λ a b.
      sub_ℕ ((pos_part a * pos_part b + neg_part a * neg_part b) / 1000)
        ((pos_part a * neg_part b + neg_part a * pos_part b) / 1000);
  over = λ a b. sub_ℕ (pos_part a * 1000 / pos_part b) (neg_part a * 1000 / pos_part b);
  exp = λ a. pos 900;
  less = ltb_ℤ;
  less_asym = ltb_ℤ_asym;
}

abbrev dragged : DraggingGesture ℤ
dragged = record {
  base_seconds = pos 4000;
  offset_seconds = pos 3000;
  pointer_start_x = pos 0;
  samples = record { x = pos 0; at_ms = pos 0 } ∷ [];
}

abbrev bounds : ConveyorBounds ℤ
bounds = record { max_seek_seconds = pos 5000; max_visual_seconds = pos 9000 }

abbrev drag_only : EndDragOptions ℤ
drag_only = record { alignment_offset_seconds = none; allows_unrendered_target = true }

abbrev frames : List (Frame thousandths)
frames = record { dt = pos 16; bounds = bounds } ∷ record { dt = pos 16; bounds = bounds } ∷ []

end_drag-commits_example :
    length (
      run thousandths frames
        (end_drag thousandths dragged (pos 90) (pos 50_000) reduced bounds drag_only))
    ≤ 1
end_drag-commits_example =
    (end_drag-commits thousandths dragged (pos 90) (pos 50_000) reduced bounds drag_only frames).0

commit_run :
    run thousandths frames
      (end_drag thousandths dragged (pos 90) (pos 50_000) reduced bounds drag_only)
    ≡ record { bounds = bounds; at = pos 5000 } ∷ []
unfolding run end_drag advance_conveyor advance_settle is_settle_at_rest clamp_seconds
    step_settle_spring commit_limit
commit_run = refl

-- Three slots of 9 seconds together, in a strip of 500 pixels.
layout_run :
    let average = average_duration_seconds thousandths slots in
    let window = resolve_conveyor_window_size thousandths auto_size (pos 500_000) in
    let scale = conveyor_px_per_second thousandths (pos 500_000) window average in
    (average ≡ pos 3000)
    × (window ≡ 4)
    × (scale ≡ pos 41_666)
    × (conveyor_track_origin_px thousandths (pos 500_000) (pos 4000) scale ≡ pos 83_336)
unfolding average_duration_seconds resolve_conveyor_window_size conveyor_px_per_second
    conveyor_track_origin_px
layout_run = (refl, refl, refl, refl)
