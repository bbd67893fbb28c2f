-- ===== src/Input/Tests.antt =====
-- Drags and keys at small inputs.
use readflow.Common.{◌≡◌, refl, Bool, true, false, none, some, List, [], ◌∷◌, String}
use readflow.Common.Int.{pos, negsuc, ◌-ℤ◌}
use readflow.Input.Sheet.{SheetGesture, Touch, should_dismiss_sheet, sheet_drag_offset}
use readflow.Input.Sheet.Dismissed.{dismisses}
use readflow.Input.Shortcuts.{
  KeyEvent, handle_key_down, call_skip_by, no_call, should_ignore_playback_shortcut,
  resolve_playback_shortcut,
}

abbrev sheet : SheetGesture
sheet = record { offset = 0; is_dragging = false; drag = none; dismissals = 0 }

abbrev down : Touch
down = record { client_y = pos 100000; time_stamp = 0 }

abbrev drag : List Touch
drag =
    record { client_y = pos 150000; time_stamp = 16 }
    ∷ record { client_y = pos 220000; time_stamp = 32 }
    ∷ []

closes : dismisses down drag none 400000 ≡ true
unfolding should_dismiss_sheet sheet_drag_offset ◌-ℤ◌
closes = refl

abbrev key : String → Bool → KeyEvent
key text shift = record {
  key = text;
  shift_key = shift;
  ctrl_key = false;
  meta_key = false;
  alt_key = false;
  repeat = false;
}

left_key : handle_key_down none (key "ArrowLeft" true) ≡ (call_skip_by (negsuc 4), true)
unfolding handle_key_down should_ignore_playback_shortcut resolve_playback_shortcut
left_key = refl

typed_key :
    handle_key_down
      (some (record { is_content_editable = false; tag_name = "INPUT"; is_in_dialog = false }))
      (key "k" false)
    ≡ (no_call, false)
unfolding handle_key_down should_ignore_playback_shortcut
typed_key = refl
