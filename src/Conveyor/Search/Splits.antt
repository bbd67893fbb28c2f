-- ===== src/Conveyor/Search/Splits.antt =====
-- A bisection finds where its test stops to hold.
use readflow.Common.{
  ℕ, zero, suc, ◌+◌, ◌/◌, ◌≤◌, ◌<◌, ◌≡◌, Bool, true, false, Bool-cases, inl, inr, ltb, arith,
}
use readflow.Conveyor.Search.{bisect}

pub record Splits (test : ℕ → Bool) (low high at : ℕ) : Type 0 where
  pub above : low ≤ at
  pub below : at ≤ high
  pub holds : (i : ℕ) → low ≤ i → i < at → test i ≡ true
  pub fails : (i : ℕ) → at ≤ i → i < high → test i ≡ false

-- Where the test holds at an index it holds at those before.
abbrev pub IsFalling : (ℕ → Bool) → ℕ → Type 0
IsFalling test n = (i j : ℕ) → i ≤ j → j < n → test j ≡ true → test i ≡ true

half_between : (low high : ℕ) → low < high → (low ≤ (low + high) / 2) × ((low + high) / 2 < high)
half_between low high h = omega arith

pub IsFalling-after :
    (test : ℕ → Bool) (last mid : ℕ)
    → IsFalling test last
    → test mid ≡ false
    → (i : ℕ) → mid ≤ i
    → i < last
    → test i ≡ false
IsFalling-after test last mid mono f i p q = elim (Bool-cases (test i)) [
  | inl t ↦ absurd (cc (mono mid i p q t, f))
  | inr n ↦ n
]

bisect_from :
    (fuel : ℕ) (test : ℕ → Bool) (first last low high : ℕ)
    → IsFalling test last
    → first ≤ low
    → low ≤ high
    → high ≤ last
    → high ≤ low + fuel
    → ((i : ℕ) → first ≤ i → i < low → test i ≡ true)
    → ((i : ℕ) → high ≤ i → i < last → test i ≡ false)
    → Splits test first last (bisect fuel test low high)
unfolding bisect
bisect_from zero test first last low high mono a b c d holds fails = record {
  above = a;
  below = omega arith;
  holds = holds;
  fails = λ i p q. fails i (omega arith) q;
}
bisect_from (suc fuel) test first last low high mono a b c d holds fails =
    let mid = (low + high) / 2 in
    elim (Bool-cases (ltb low high)) [
      | inr stop ↦
          let same : high ≤ low = ground arith in
          rw stop (record {
            above = a;
            below = omega arith;
            holds = holds;
            fails = λ i p q. fails i (omega arith) q;
          })
      | inl go ↦
          let small : low < high = ground arith in
          let (ge, lt) = half_between low high small in
          elim (Bool-cases (test mid)) [
            | inl t ↦
                rw (go, t)
                  (bisect_from fuel test first last (suc mid) high mono (omega arith) (omega arith)
                    c (omega arith) (λ i p q. mono i mid (omega arith) (omega arith) t) fails)
            | inr f ↦
                rw (go, f)
                  (bisect_from fuel test first last low mid mono a ge (omega arith) (omega arith)
                    holds (IsFalling-after test last mid mono f))
          ]
    ]

-- As many steps as there are indexes are enough.
pub bisect-Splits :
    (fuel : ℕ) (test : ℕ → Bool) (low high : ℕ)
    → IsFalling test high
    → low ≤ high
    → high ≤ low + fuel
    → Splits test low high (bisect fuel test low high)
bisect-Splits fuel test low high mono a b =
    bisect_from fuel test low high low high mono (omega arith) a (omega arith) b
      (λ i p q. absurd (omega arith)) (λ i p q. absurd (omega arith))
