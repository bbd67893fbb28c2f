-- ===== src/Conveyor/Search.antt =====
-- The binary searches of web/src/features/reader/conveyor-physics.ts: `visibleSlotIndexes`,
-- `slotIndexAtSeconds` and `slotAtSeconds`. The three loops are one, by its test; lists are shorter than
-- 2 ^ 31, so that `>>> 1` halves.
pub mod Splits
pub mod Visible
use readflow.Common.{
  ℕ, zero, suc, ◌+◌, ◌-◌, ◌/◌, Bool, true, false, Option, none, some, List, [], ◌∷◌, leb, ltb,
  length, get_elem?, if◌then◌else◌, not,
}
use readflow.Reader.Slots.{
  TimelineSlotData, TimelineSlotState, played, playing, ready, ready_after_gap,
}
use readflow.Common.Int.{ℤ, pos, ltb_ℤ}
use readflow.Conveyor.Slots.{start_at, duration_at}

-- `while (low < high)`: above `mid` where the test holds at it, else below.
unfoldable pub bisect : ℕ → (ℕ → Bool) → ℕ → ℕ → ℕ
bisect zero test low high = low
bisect (suc fuel) test low high =
    let mid = (low + high) / 2 in
    let below = test mid in
    let rest = bisect fuel test (if below then suc mid else low) (if below then high else mid) in
    if ltb low high then rest else low

-- A window of time may begin before the start of the timeline.
abbrev pub ends_by : List ℕ → List TimelineSlotData → ℤ → ℕ → Bool
ends_by starts slots from i = not (ltb_ℤ from (pos (start_at starts i + duration_at slots i)))

abbrev pub starts_before : List ℕ → ℤ → ℕ → Bool
starts_before starts to i = ltb_ℤ (pos (start_at starts i)) to

-- The first and last index; none for `{ first: 0, last: -1 }`.
unfoldable pub visible_slot_indexes : List ℕ → List TimelineSlotData → ℤ → ℤ → Option (ℕ × ℕ)
visible_slot_indexes starts slots from to =
    let n = length slots in
    let first = bisect n (ends_by starts slots from) 0 n in
    let low = bisect n (starts_before starts to) first n in
    if leb low first then none else some (first, low - 1)

unfoldable pub slot_index_at_seconds : List ℕ → ℕ → ℕ
slot_index_at_seconds starts seconds =
    bisect (length starts) (λ i. leb (start_at starts i) seconds) 0 (length starts) - 1

unfoldable pub is_rendered_state : TimelineSlotState → Bool
is_rendered_state played = true
is_rendered_state playing = true
is_rendered_state ready = true
is_rendered_state ready_after_gap = true
is_rendered_state _ = false

unfoldable pub slot_at_seconds : List TimelineSlotData → List ℕ → ℕ → Option TimelineSlotData
slot_at_seconds slots starts seconds = get_elem? slots (slot_index_at_seconds starts seconds)
