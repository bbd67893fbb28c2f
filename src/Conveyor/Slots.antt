-- ===== src/Conveyor/Slots.antt =====
-- Slot geometry of web/src/lib/waveform-timeline.ts: where each slot starts, and which slot a position
-- is in, found by a walk from the front.
pub mod Starts
use readflow.Common.{
  ℕ, zero, suc, ◌+◌, Bool, true, false, Option, none, some, List, [], ◌∷◌, leb, ltb, get_elem?,
  if◌then◌else◌, or_else,
}
use readflow.Reader.Slots.{TimelineSlotData, TimelineSlotState, played, failed, missing_expected}

abbrev pub starts_from : ℕ → List TimelineSlotData → List ℕ
starts_from running [] = []
starts_from running (slot ∷ slots) = running ∷ starts_from (running + slot.duration_seconds) slots

unfoldable pub build_cumulative_start_times : List TimelineSlotData → List ℕ
build_cumulative_start_times slots = starts_from 0 slots

unfoldable pub total_slot_duration : List TimelineSlotData → ℕ
total_slot_duration [] = 0
total_slot_duration (slot ∷ slots) = slot.duration_seconds + total_slot_duration slots

-- The loop with the index so far and the position in the list.
unfoldable pub scan_starts : ℕ → ℕ → ℕ → List ℕ → ℕ
scan_starts seconds index i [] = index
scan_starts seconds index i (start ∷ starts) =
    let rest = scan_starts seconds i (suc i) starts in if leb start seconds then rest else index

-- `slotIndexAtSeconds` of lib/waveform-timeline.ts.
unfoldable pub slot_index_by_scan : List ℕ → ℕ → ℕ
slot_index_by_scan starts seconds = scan_starts seconds 0 0 starts

-- `starts[i] ?? 0`.
abbrev pub start_at : List ℕ → ℕ → ℕ
start_at starts i = or_else (get_elem? starts i) 0

abbrev slot_duration : Option TimelineSlotData → ℕ
slot_duration none = 0
slot_duration (some slot) = slot.duration_seconds

-- `slots[i].durationSeconds`, for an index in range.
abbrev pub duration_at : List TimelineSlotData → ℕ → ℕ
duration_at slots i = slot_duration (get_elem? slots i)

unfoldable pub is_non_fill_state : TimelineSlotState → Bool
is_non_fill_state failed = true
is_non_fill_state missing_expected = true
is_non_fill_state _ = false

abbrev is_played : TimelineSlotState → Bool
is_played played = true
is_played _ = false

unfoldable pub is_slot_dimmed : TimelineSlotData → ℕ → ℕ → Bool
is_slot_dimmed slot start playhead =
    if is_played slot.state then ltb (start + slot.duration_seconds) playhead else false

-- The position a slot is drawn for: its start, its end and a little, or the playhead inside it. The
-- little is the smallest step of a position here.
unfoldable pub playhead_for_slot : ℕ → ℕ → ℕ → ℕ
playhead_for_slot playhead start duration =
    if leb playhead start
    then start
    else if leb (start + duration) playhead
    then suc (start + duration)
    else playhead
