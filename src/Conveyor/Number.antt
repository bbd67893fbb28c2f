-- ===== src/Conveyor/Number.antt =====
-- JavaScript's numbers as the gesture code uses them, and `Math.min`, `Math.max` and `Math.abs`. Floating
-- point is a parameter: of the arithmetic nothing is assumed, so rounding is covered; of the comparison
-- only that no number is less than one that is less than it, which holds unless an operand is NaN.
use readflow.Common.{
  ℕ, ◌≡◌, Bool, true, false, not, arith, if◌then◌else◌, Bool-cases, ◌||◌, inl, inr,
}

pub record Number : Type 1 where
  pub Num : Type 0
  -- The number of this many thousandths.
  pub milli : ℕ → Num
  pub plus : Num → Num → Num
  pub minus : Num → Num → Num
  pub times : Num → Num → Num
  pub over : Num → Num → Num
  pub exp : Num → Num
  pub less : Num → Num → Bool
  pub less_asym : (a b : Num) → less a b ≡ true → less b a ≡ false

module _ (n : Number) where
  open n use {Num, milli, plus, minus, times, over, exp, less, less_asym}

  abbrev pub zero_num : Num
  zero_num = milli 0

  abbrev pub at_most : Num → Num → Bool
  at_most a b = not (less b a)

  abbrev pub min_num : Num → Num → Num
  min_num a b = if less b a then b else a

  abbrev pub max_num : Num → Num → Num
  max_num a b = if less a b then b else a

  abbrev pub negate : Num → Num
  negate a = minus (milli 0) a

  abbrev pub abs_num : Num → Num
  abs_num a = if less a (milli 0) then minus (milli 0) a else a

  unfoldable pub clamp_seconds : Num → Num → Num
  clamp_seconds seconds max_seconds = min_num (max_num (milli 0) seconds) max_seconds

  less_irrefl : (a : Num) → less a a ≡ false
  less_irrefl a = elim (Bool-cases (less a a)) [ inl t ↦ less_asym a a t | inr f ↦ f ]

  -- A clamped position is at most the limit, and not negative where the limit is not.
  pub clamp_seconds-range :
      (seconds limit : Num)
      → (at_most (clamp_seconds seconds limit) limit ≡ true)
        × ((less limit (milli 0) || at_most (milli 0) (clamp_seconds seconds limit)) ≡ true)
  unfolding clamp_seconds
  clamp_seconds-range seconds limit = ground (
    arith,
    less_irrefl limit,
    less_irrefl (milli 0),
    less_asym (milli 0) seconds,
    less_asym limit seconds,
  )
