-- ===== src/Conveyor/Search/Visible.antt =====
-- The searches find what a walk over the slots finds.
use readflow.Common.{
  ℕ, zero, suc, ◌+◌, ◌-◌, ◌≤◌, ◌<◌, ◌≡◌, refl, Bool, true, false, not, ◌&&◌, Bool-cases, inl, inr,
  leb, ◌==◌, List, [], ◌∷◌, Option, none, some, length, arith, if◌then◌else◌,
}
use readflow.Common.Int.{ℤ}
use readflow.Reader.Slots.{TimelineSlotData}
use readflow.Conveyor.Slots.{
  starts_from, start_at, scan_starts, slot_index_by_scan, build_cumulative_start_times,
}
use readflow.Conveyor.Slots.Starts.{length-starts_from, end_at_mono}
use readflow.Conveyor.Search.{
  bisect, ends_by, starts_before, visible_slot_indexes, slot_index_at_seconds,
}
use readflow.Conveyor.Search.Splits.{Splits, IsFalling, IsFalling-after, bisect-Splits}

Splits-unique :
    (test : ℕ → Bool) (low high a b : ℕ) → Splits test low high a → Splits test low high b → a ≡ b
Splits-unique test low high a b p q =
    ground (
      arith,
      p.holds b,
      p.fails a,
      q.holds a,
      q.fails b,
      p.holds a,
      p.fails b,
      q.holds b,
      q.fails a,
    )

module _ (running : ℕ) (slots : List TimelineSlotData) where
  ends-IsFalling :
      (from : ℤ) → IsFalling (ends_by (starts_from running slots) slots from) (length slots)
  ends-IsFalling from i j le lt t = ground (arith, end_at_mono running slots i j)

  starts-IsFalling :
      (to : ℤ) → IsFalling (starts_before (starts_from running slots) to) (length slots)
  starts-IsFalling to i j le lt t = ground (arith, end_at_mono running slots i j)

  reached-IsFalling :
      (seconds : ℕ)
      → IsFalling (λ i. leb (start_at (starts_from running slots) i) seconds) (length slots)
  reached-IsFalling seconds i j le lt t = ground (arith, end_at_mono running slots i j)

-- A slot overlaps a window of time if it ends behind the window's start and starts before its end.
abbrev pub overlaps : List ℕ → List TimelineSlotData → ℤ → ℤ → ℕ → Bool
overlaps starts slots from to i = not (ends_by starts slots from i) && starts_before starts to i

abbrev pub is_visible : Option (ℕ × ℕ) → ℕ → Bool
is_visible none i = false
is_visible (some (first, last)) i = leb first i && leb i last

is_visible-Splits :
    (test other : ℕ → Bool) (n first low i : ℕ)
    → Splits test 0 n first
    → Splits other first n low
    → i < n
    → is_visible (if leb low first then none else some (first, low - 1)) i
      ≡ (not (test i) && other i)
is_visible-Splits test other n first low i p q h =
    ground (arith, p.holds i, p.fails i, q.holds i, q.fails i, p.below, q.above)

-- Of consecutive slots, `visibleSlotIndexes` returns exactly those that overlap the window, also where it
-- begins before the timeline does.
pub visible_slot_indexes-overlaps :
    (slots : List TimelineSlotData) (from to : ℤ) (i : ℕ)
    → i < length slots
    → let starts = build_cumulative_start_times slots in
      is_visible (visible_slot_indexes starts slots from to) i ≡ overlaps starts slots from to i
unfolding visible_slot_indexes build_cumulative_start_times
visible_slot_indexes-overlaps slots from to i h =
    let n = length slots in
    let starts = starts_from 0 slots in
    let one =
      bisect-Splits n (ends_by starts slots from) 0 n (ends-IsFalling 0 slots from) (omega arith)
        (omega arith) in
    let first = bisect n (ends_by starts slots from) 0 n in
    let two =
      bisect-Splits n (starts_before starts to) first n (starts-IsFalling 0 slots to) one.below
        (omega arith) in
    is_visible-Splits (ends_by starts slots from) (starts_before starts to) n first
      (bisect n (starts_before starts to) first n) i one two h

-- How many starts the position has reached, from the front.
abbrev reached : ℕ → List ℕ → ℕ
reached seconds [] = 0
reached seconds (x ∷ xs) = if leb x seconds then suc (reached seconds xs) else 0

reached-le : (seconds : ℕ) (starts : List ℕ) → reached seconds starts ≤ length starts
reached-le seconds [] = omega arith
reached-le seconds (x ∷ xs) = ground (arith, reached-le seconds xs)

reached-holds :
    (seconds : ℕ) (starts : List ℕ) (i : ℕ)
    → i < reached seconds starts
    → leb (start_at starts i) seconds ≡ true
reached-holds seconds [] i h = absurd (omega arith)
reached-holds seconds (x ∷ xs) zero h = ground arith
reached-holds seconds (x ∷ xs) (suc i) h = ground (arith, reached-holds seconds xs i)

reached-stops :
    (seconds : ℕ) (starts : List ℕ)
    → reached seconds starts < length starts
    → leb (start_at starts (reached seconds starts)) seconds ≡ false
reached-stops seconds [] h = absurd (omega arith)
reached-stops seconds (x ∷ xs) h = elim (Bool-cases (leb x seconds)) [
  | inl t ↦
      let shorter : reached seconds xs < length xs = ground arith in
      rw t (reached-stops seconds xs shorter)
  | inr f ↦ rw f f
]

reached-Splits :
    (seconds : ℕ) (starts : List ℕ)
    → IsFalling (λ i. leb (start_at starts i) seconds) (length starts)
    → Splits (λ i. leb (start_at starts i) seconds) 0 (length starts) (reached seconds starts)
reached-Splits seconds starts mono = record {
  above = omega arith;
  below = reached-le seconds starts;
  holds = λ i p q. reached-holds seconds starts i q;
  fails = λ i p q.
      IsFalling-after (λ k. leb (start_at starts k) seconds) (length starts)
        (reached seconds starts) mono (reached-stops seconds starts (omega arith)) i p q;
}

scan-reached :
    (seconds index i : ℕ) (starts : List ℕ)
    → scan_starts seconds index i starts
      ≡ (if reached seconds starts == 0 then index else i + reached seconds starts - 1)
unfolding scan_starts
scan-reached seconds index i [] = refl
scan-reached seconds index i (x ∷ xs) = ground (arith, scan-reached seconds i (suc i) xs)

-- On consecutive slots the binary search of the conveyor and the walk of the timeline find the same slot.
pub slot_index_at_seconds-slot_index_by_scan :
    (slots : List TimelineSlotData) (seconds : ℕ)
    → let starts = build_cumulative_start_times slots in
      slot_index_at_seconds starts seconds ≡ slot_index_by_scan starts seconds
unfolding slot_index_at_seconds slot_index_by_scan build_cumulative_start_times
slot_index_at_seconds-slot_index_by_scan slots seconds =
    let starts = starts_from 0 slots in
    let n = length starts in
    let test = λ (i : ℕ). leb (start_at starts i) seconds in
    let mono : IsFalling test n =
      rw (length-starts_from 0 slots) (reached-IsFalling 0 slots seconds) in
    let searched = bisect-Splits n test 0 n mono (omega arith) (omega arith) in
    let walked = reached-Splits seconds starts mono in
    let same =
      Splits-unique test 0 n (bisect n test 0 n) (reached seconds starts) searched walked in
    ground (arith, same, scan-reached seconds 0 0 starts)
