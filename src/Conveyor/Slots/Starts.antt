-- ===== src/Conveyor/Slots/Starts.antt =====
-- The start times of consecutive slots never fall, and each slot ends where the next one starts.
use readflow.Common.{ℕ, zero, suc, ◌+◌, ◌≤◌, ◌<◌, ◌≡◌, List, [], ◌∷◌, length, false, arith, ◌==◌}
use readflow.Reader.Slots.{TimelineSlotData}
use readflow.Conveyor.Slots.{starts_from, start_at, duration_at, is_slot_dimmed, playhead_for_slot}

pub length-starts_from :
    (running : ℕ) (slots : List TimelineSlotData)
    → length (starts_from running slots) ≡ length slots
length-starts_from running [] = omega arith
length-starts_from running (s ∷ ss) =
    omega (arith, length-starts_from (running + s.duration_seconds) ss)

pub start_at-le :
    (running : ℕ) (slots : List TimelineSlotData) (i : ℕ)
    → i < length slots
    → running ≤ start_at (starts_from running slots) i
start_at-le running [] i h = absurd (omega arith)
start_at-le running (s ∷ ss) zero h = omega arith
start_at-le running (s ∷ ss) (suc i) h =
    omega (arith, start_at-le (running + s.duration_seconds) ss i (omega arith))

pub end_at_mono :
    (running : ℕ) (slots : List TimelineSlotData) (i j : ℕ)
    → i < j
    → j < length slots
    → start_at (starts_from running slots) i + duration_at slots i
      ≤ start_at (starts_from running slots) j
end_at_mono running [] i j h k = absurd (omega arith)
end_at_mono running (s ∷ ss) i zero h k = absurd (omega arith)
end_at_mono running (s ∷ ss) zero (suc j) h k =
    omega (arith, start_at-le (running + s.duration_seconds) ss j (omega arith))
end_at_mono running (s ∷ ss) (suc i) (suc j) h k =
    omega (arith, end_at_mono (running + s.duration_seconds) ss i j (omega arith) (omega arith))

-- A slot is dimmed for the clamped playhead exactly if it is for the playhead itself.
pub is_slot_dimmed-playhead_for_slot :
    (slot : TimelineSlotData) (start playhead : ℕ)
    → (playhead == start + slot.duration_seconds) ≡ false
    → is_slot_dimmed slot start (playhead_for_slot playhead start slot.duration_seconds)
      ≡ is_slot_dimmed slot start playhead
unfolding is_slot_dimmed playhead_for_slot
is_slot_dimmed-playhead_for_slot slot start playhead e = ground arith
