-- ===== src/Input/Sheet.antt =====
-- The settings sheet that is dragged down to close it: web/src/lib/sheet-gesture.ts and
-- web/src/hooks/useSheetDismissGesture.ts. Lengths are in thousandths of a pixel, times in milliseconds; a velocity is
-- a length and a time.
pub mod Dismissed
use readflow.Common.{
  ℕ, ◌+◌, ◌-◌, ◌*◌, ◌/◌, max, min, Bool, true, false, not, ◌&&◌, ◌||◌, Option, none, some, List, [],
  ◌∷◌, leb, ltb, ◌==◌, if◌then◌else◌,
}
use readflow.Common.Int.{ℤ, pos, ◌-ℤ◌, ltb_ℤ, pos_part}

abbrev pub sheet_dismiss_min : ℕ
sheet_dismiss_min = 80000

-- 0.5 pixels in a millisecond.
abbrev pub sheet_dismiss_velocity : ℕ
sheet_dismiss_velocity = 500

abbrev pub sheet_backdrop_fade : ℕ
sheet_backdrop_fade = 280000

unfoldable pub sheet_drag_offset : ℤ → ℕ
sheet_drag_offset delta = pos_part delta

pub record Velocity : Type 0 where
  pub travelled : ℤ
  pub elapsed : ℕ

abbrev pub is_sheet_flick : Velocity → Bool
is_sheet_flick v = leb (sheet_dismiss_velocity * v.elapsed) (pos_part v.travelled)

-- A quarter of the height is far enough, if it is 80 pixels.
unfoldable pub should_dismiss_sheet : ℕ → ℕ → Velocity → Bool
should_dismiss_sheet delta height v =
    if leb delta 0
    then false
    else if leb sheet_dismiss_min delta && leb height (4 * delta)
    then true
    else is_sheet_flick v && leb sheet_dismiss_min (2 * delta)

-- In thousandths: `1 - progress * 0.85`, but at least 0.15; 280 pixels are the whole of the progress.
unfoldable pub sheet_backdrop_opacity : ℤ → ℕ
sheet_backdrop_opacity delta =
    max 150 (1000 - min sheet_backdrop_fade (sheet_drag_offset delta) * 850 / sheet_backdrop_fade)

pub record DragState : Type 0 where
  pub start_y : ℤ
  pub last_y : ℤ
  pub last_at : ℕ
  pub velocity : Velocity

-- The state of the hook, with the number of calls of `onDismiss`.
pub record SheetGesture : Type 0 where
  pub offset : ℕ
  pub is_dragging : Bool
  pub drag : Option DragState
  pub dismissals : ℕ

abbrev pub cancel_drag : SheetGesture → SheetGesture
cancel_drag g = record g { drag = none; is_dragging = false; offset = 0 }

pub record Touch : Type 0 where
  pub client_y : ℤ
  pub time_stamp : ℕ

-- With the number of fingers and the panel's `scrollTop`.
unfoldable pub handle_touch_start : ℕ → ℕ → Touch → SheetGesture → SheetGesture
handle_touch_start touches scroll_top touch g =
    if not (touches == 1)
    then cancel_drag g
    else if ltb 0 scroll_top
    then record g { drag = none }
    else record g {
      drag = some (record {
        start_y = touch.client_y;
        last_y = touch.client_y;
        last_at = touch.time_stamp;
        velocity = record { travelled = pos 0; elapsed = 1 };
      });
      is_dragging = true;
    }

abbrev pub drag_moved : DragState → Touch → DragState
drag_moved drag touch = record drag {
  velocity = record {
    travelled = touch.client_y -ℤ drag.last_y;
    elapsed = max 1 (touch.time_stamp - drag.last_at);
  };
  last_y = touch.client_y;
  last_at = touch.time_stamp;
}

abbrev move_drag : Option DragState → Touch → SheetGesture → SheetGesture
move_drag none touch g = g
move_drag (some drag) touch g =
    if not (ltb_ℤ drag.start_y touch.client_y) then cancel_drag g else record g {
      drag = some (drag_moved drag touch);
      offset = sheet_drag_offset (touch.client_y -ℤ drag.start_y);
    }

unfoldable pub handle_touch_move : Touch → SheetGesture → SheetGesture
handle_touch_move touch g = move_drag g.drag touch g

-- `touch?.clientY ?? drag.lastY`.
abbrev pub end_of : Option ℤ → DragState → ℤ
end_of none drag = drag.last_y
end_of (some y) drag = y

abbrev lift_drag : Option DragState → Option ℤ → ℕ → SheetGesture → SheetGesture
lift_drag none y height g = record g { drag = none; is_dragging = false }
lift_drag (some drag) y height g = record g {
  drag = none;
  is_dragging = false;
  offset = 0;
  dismissals =
      if should_dismiss_sheet (sheet_drag_offset (end_of y drag -ℤ drag.start_y)) height
        drag.velocity
      then g.dismissals + 1
      else g.dismissals;
}

unfoldable pub handle_touch_end : Option ℤ → ℕ → SheetGesture → SheetGesture
handle_touch_end y height g = lift_drag g.drag y height g
