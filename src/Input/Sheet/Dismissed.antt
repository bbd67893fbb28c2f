-- ===== src/Input/Sheet/Dismissed.antt =====
-- Which drags close the sheet.
use readflow.Common.{
  ℕ, ◌+◌, ◌≡◌, Bool, true, false, ◌&&◌, Option, none, some, List, [], ◌∷◌, if◌then◌else◌, ◌||◌,
  ◌==◌,
}
use readflow.Common.Int.{ℤ, pos, ◌-ℤ◌, ltb_ℤ}
use readflow.Input.Sheet.{
  DragState, SheetGesture, Touch, handle_touch_move, should_dismiss_sheet, sheet_drag_offset,
  drag_moved, end_of,
}

unfoldable pub moves : List Touch → SheetGesture → SheetGesture
moves [] g = g
moves (t ∷ ts) g = moves ts (handle_touch_move t g)

-- All touches are below this height.
abbrev pub are_below : ℤ → List Touch → Bool
are_below y [] = true
are_below y (t ∷ ts) = ltb_ℤ y t.client_y && are_below y ts

-- The last sample of a drag: where the finger was last, and how fast it moved there.
abbrev pub last_sample : List Touch → DragState → DragState
last_sample [] drag = drag
last_sample (t ∷ ts) drag = last_sample ts (drag_moved drag t)

abbrev pub first_sample : Touch → DragState
first_sample t = record {
  start_y = t.client_y;
  last_y = t.client_y;
  last_at = t.time_stamp;
  velocity = record { travelled = pos 0; elapsed = 1 };
}

-- What a drag and the moves of one finger leave.
record IsMoved (ts : List Touch) (d : DragState) (g h : SheetGesture) : Type 0 where
  drag_left : h.drag ≡ (if are_below d.start_y ts then some (last_sample ts d) else none)
  offset_left : (are_below d.start_y ts || (h.offset == 0)) ≡ true
  dismissals_left : h.dismissals ≡ g.dismissals

-- Whether the end of a drag closes the sheet.
abbrev pub dismisses : Touch → List Touch → Option ℤ → ℕ → Bool
dismisses t ts y height =
    let last = last_sample ts (first_sample t) in
    are_below t.client_y ts
    && should_dismiss_sheet (sheet_drag_offset (end_of y last -ℤ t.client_y)) height last.velocity

-- What is left after the finger is lifted.
pub record IsEnded (closes : Bool) (g h : SheetGesture) : Type 0 where
  pub ended : h.drag ≡ none
  pub rests : h.is_dragging ≡ false
  pub returned : h.offset ≡ 0
  pub counted : h.dismissals ≡ (if closes then g.dismissals + 1 else g.dismissals)
