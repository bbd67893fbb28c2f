-- ===== src/Media/Seek/Landing.antt =====
-- Where a seek lands.
use readflow.Common.{
  ℕ, ◌+◌, ◌≤◌, ◌≡◌, Bool, true, false, not, ◌&&◌, ◌||◌, List, [], ◌∷◌, some, leb, min, All, arith,
  ◌==◌, Bool-cases, inl, inr,
}
use readflow.Common.Int.{ℤ, pos_part}
use readflow.Media.Window.{SecondsRange, is_seconds_buffered}
use readflow.Media.Window.Bounds.{IsOrdered}
use readflow.Media.Seek.{clamp_to_buffered, clamp_from, seek_to_seconds, seek_within_buffered}

-- A position lies in one of the ranges, with no tolerance.
abbrev pub is_inside : List SecondsRange → ℕ → Bool
is_inside [] x = false
is_inside (r ∷ rs) x = (leb r.start x && leb x r.end) || is_inside rs x

clamp_from-inside :
    (last target : ℕ) (rs : List SecondsRange)
    → IsOrdered rs
    → (is_inside rs (clamp_from last target rs) || (clamp_from last target rs == last)) ≡ true
unfolding clamp_from
clamp_from-inside last target [] h = ground arith
clamp_from-inside last target (r ∷ rs) h = ground (arith, clamp_from-inside r.end target rs h.2)

inside-later :
    (end target : ℕ) (rs : List SecondsRange)
    → All (λ s. end ≤ s.start) rs
    → is_inside rs target ≡ true
    → end ≤ target
inside-later end target [] h e = absurd (ground arith)
inside-later end target (r ∷ rs) h e = elim (Bool-cases (is_inside rs target)) [
  | inl later ↦ inside-later end target rs h.1 later
  | inr other ↦ let first = h.0 in ground arith
]

clamp_from-exact :
    (last target : ℕ) (rs : List SecondsRange)
    → IsOrdered rs
    → is_inside rs target ≡ true
    → clamp_from last target rs ≡ target
unfolding clamp_from
clamp_from-exact last target [] h e = absurd (ground arith)
clamp_from-exact last target (r ∷ rs) h e = elim (Bool-cases (is_inside rs target)) [
  | inl later ↦
      let known = clamp_from-exact r.end target rs h.2 later in
      let after = inside-later r.end target rs h.1 later in let own = h.0 in ground arith
  | inr other ↦ ground arith
]

-- In ordered ranges that are not empty, a position is clamped to one that lies in a range, and a
-- position that lies in a range is kept.
pub clamp_to_buffered_lem :
    (r : SecondsRange) (rs : List SecondsRange) (target : ℤ)
    → IsOrdered (r ∷ rs)
    → (is_inside (r ∷ rs) (clamp_to_buffered (r ∷ rs) target) ≡ true)
      × ((not (is_inside (r ∷ rs) (pos_part target))
            || (clamp_to_buffered (r ∷ rs) target == pos_part target))
          ≡ true)
unfolding clamp_to_buffered clamp_from
clamp_to_buffered_lem r rs target h =
    let rest = clamp_from-inside r.end (pos_part target) rs h.2 in
    let own = h.0 in (ground arith, kept)
  where
    kept :
        (not (is_inside (r ∷ rs) (pos_part target))
          || (clamp_to_buffered (r ∷ rs) target == pos_part target))
        ≡ true
    kept = ground (arith, clamp_from-exact 0 (pos_part target) (r ∷ rs) h)

-- With one buffered range that is not empty, as of a stream that is appended in sequence: a seek that
-- is made lands in the range and within 50 ms of the target capped to the rendered audio.
pub seek_within_buffered_lem :
    (r : SecondsRange) (rendered : ℕ) (target : ℤ) (landed : ℕ)
    → r.start ≤ r.end
    → seek_within_buffered (r ∷ []) rendered target ≡ some landed
    → let capped = min (pos_part target) rendered in
      (is_inside (r ∷ []) landed ≡ true) × (landed ≤ capped + 50) × (capped ≤ landed + 50)
unfolding seek_within_buffered seek_to_seconds clamp_to_buffered clamp_from is_seconds_buffered
seek_within_buffered_lem r rendered target landed o h = ground arith
