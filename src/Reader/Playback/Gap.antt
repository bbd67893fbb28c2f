-- ===== src/Reader/Playback/Gap.antt =====
-- How the playback model classifies chunks around the gap.
use readflow.Common.{
  ◌∙◌, ◌<◌, ℕ, ◌≡◌, refl, inl, inr, Bool, true, false, Option, none, some, List, [], ◌∷◌, arith,
  ◌==◌, ◌&&◌, ◌||◌, not, any, All, Bool-cases, Option-cases,
}
use readflow.Common.Sets.{has, add, nat_eq, has-add}
use readflow.Chunk.{Chunk, is_written, is_failed}
use readflow.Reader.Active.Order.{Before, IsIncreasing, find_index-above}
use readflow.Reader.Active.Choice.{find_index}
use readflow.Reader.Playback.{
  derive_playback_model, expected_next, beyond, written_after_gap, missing_expected,
}

-- Some active chunk of the index passes the test.
abbrev any_at : ℕ → (Chunk → Bool) → List Chunk → Bool
any_at i p chunks = any (λ c. c.index == i && p c) chunks

abbrev after_test : Option ℕ → Chunk → Bool
after_test gap c = beyond gap c.index && is_written c.status

abbrev missing_test : Chunk → Bool
missing_test c = not (is_written c.status) && not (is_failed c.status)

has-written_after_gap :
    (gap : Option ℕ) (i : ℕ) (found : List ℕ) (chunks : List Chunk)
    → has i (written_after_gap gap found chunks) ≡ (has i found || any_at i (after_test gap) chunks)
unfolding written_after_gap
has-written_after_gap gap i found [] = ground arith
has-written_after_gap gap i found (c ∷ cs) = elim (Bool-cases (after_test gap c)) [
  | inl e ↦
      rw e (
        ground (arith, has-written_after_gap gap i (add c.index found) cs, has-add c.index i found))
  | inr e ↦ rw e (ground (arith, has-written_after_gap gap i found cs))
]

has-missing_expected :
    (i : ℕ) (found : List ℕ) (chunks : List Chunk)
    → has i (missing_expected found chunks) ≡ (has i found || any_at i missing_test chunks)
unfolding missing_expected
has-missing_expected i found [] = ground arith
has-missing_expected i found (c ∷ cs) = elim (Bool-cases (missing_test c)) [
  | inl e ↦
      rw e (ground (arith, has-missing_expected i (add c.index found) cs, has-add c.index i found))
  | inr e ↦ rw e (ground (arith, has-missing_expected i found cs))
]

any_at-above :
    (p : Chunk → Bool) (d : Chunk) (chunks : List Chunk)
    → All (Before d) chunks
    → any_at d.index p chunks ≡ false
any_at-above p d [] h = refl
any_at-above p d (c ∷ cs) h = ground (arith, any_at-above p d cs h.1)

-- Where the indexes increase, the chunk of an index settles every test at that index.
any_at_unique :
    (p : Chunk → Bool) (chunks : List Chunk) (c : Chunk)
    → IsIncreasing chunks
    → find_index c.index chunks ≡ some c
    → any_at c.index p chunks ≡ p c
any_at_unique p [] c s h = cc
any_at_unique p (d ∷ ds) c s h = ground (arith, any_at_unique p ds c s.1, any_at-above p d ds s.0)

expected_next-above :
    (d : Chunk) (chunks : List Chunk) (i : ℕ)
    → All (Before d) chunks
    → expected_next chunks ≡ some i
    → d.index < i
unfolding expected_next
expected_next-above d [] i s h = cc
expected_next-above d (e ∷ es) i s h = ground (arith, expected_next-above d es i s.1)

-- The index of the gap.
abbrev pub is_gap : Option ℕ → ℕ → Bool
is_gap none i = false
is_gap (some gap) i = gap == i

expected_next-is_gap :
    (d : Chunk) (chunks : List Chunk)
    → All (Before d) chunks
    → is_gap (expected_next chunks) d.index ≡ false
expected_next-is_gap d chunks s = elim (Option-cases (expected_next chunks)) [
  | inl e ↦ rw e refl
  | inr (i, e) ↦ rw e (ground (arith, expected_next-above d chunks i s e))
]

abbrev Around : Option ℕ → Chunk → Type 0
Around gap c =
    ((beyond gap c.index || is_written c.status) ≡ true)
    × ((is_gap gap c.index && is_written c.status) ≡ false)

Around-gap :
    (active : List Chunk) (c : Chunk)
    → IsIncreasing active
    → find_index c.index active ≡ some c
    → Around (expected_next active) c
unfolding expected_next
Around-gap [] c s h = cc
Around-gap (d ∷ ds) c s h = elim (Bool-cases (is_written d.status)) [
  | inl w ↦ ground (arith, Around-gap ds c s.1, expected_next-is_gap d ds s.0)
  | inr w ↦ ground (arith, find_index-above d c ds s.0)
]

pub derive_playback_model-gap :
    (known active : List Chunk) (versions : List (ℕ × ℕ)) (anchor : ℕ) (c : Chunk)
    → IsIncreasing active
    → find_index c.index active ≡ some c
    → let m = derive_playback_model known active versions anchor in
      let gap = m.expected_next_chunk_index in
      (has c.index m.written_after_gap_indexes ≡ (beyond gap c.index && is_written c.status))
      × (has c.index m.missing_expected_indexes
          ≡ (not (is_written c.status) && not (is_failed c.status)))
      × ((beyond gap c.index || is_written c.status) ≡ true)
      × ((is_gap gap c.index && is_written c.status) ≡ false)
unfolding derive_playback_model
derive_playback_model-gap known active versions anchor c s h =
    let gap = expected_next active in
    let (before, at) = Around-gap active c s h in
    (
      has-written_after_gap gap c.index [] active ∙ any_at_unique (after_test gap) active c s h,
      has-missing_expected c.index [] active ∙ any_at_unique missing_test active c s h,
      before,
      at,
    )
