-- ===== src/Reader/Active/Order.antt =====
-- The active chunks in timeline order: one for each index, and none left out.
use readflow.Common.{
  subst, All-map, ℕ, ◌≡◌, refl, ◌∙◌, ◌<◌, Bool, true, false, Option, none, some, List, [], ◌∷◌,
  arith, find, any, inl, inr, Bool-cases, All,
}
use readflow.Common.Sets.{get, has, add, nat_eq, has-add}
use readflow.Common.Sort.{Pairs}
use readflow.Chunk.{Chunk, derive_active_versions, is_version, index_le}
use readflow.Chunk.Upsert.{find_version}
use readflow.Chunk.Order.{IsTimeline}
use readflow.Chunk.Versions.{any_index, IsNewest, IsLatest, derive_active_versions-IsLatest}
use readflow.Reader.Active.{
  server_versions, derive_active_version_map, is_active, active_from, derive_active_chunks,
}
use readflow.Reader.Active.Choice.{
  find_index, chosen, find-derive_active_chunks, get-derive_active_version_map,
}

-- Each later chunk has a higher index.
abbrev pub Before : Chunk → Chunk → Type 0
Before c d = c.index < d.index

abbrev pub IsIncreasing : List Chunk → Type 0
IsIncreasing chunks = Pairs Before chunks

-- No chunk of such a list behind another has its index.
pub find_index-above :
    (d c : Chunk) (chunks : List Chunk)
    → All (Before d) chunks
    → find_index c.index chunks ≡ some c
    → d.index < c.index
find_index-above d c [] s h = cc
find_index-above d c (e ∷ es) s h = ground (arith, find_index-above d c es s.1)

abbrev Kept : List (ℕ × ℕ) → List ℕ → Chunk → Type 0
Kept versions seen c = (has c.index seen ≡ false) × (is_active versions c ≡ true)

Kept-add :
    (versions : List (ℕ × ℕ)) (i : ℕ) (seen : List ℕ) (c : Chunk)
    → Kept versions (add i seen) c
    → Kept versions seen c
Kept-add versions i seen c h = ground (arith, has-add i c.index seen)

module _ (versions : List (ℕ × ℕ)) where
  All-active_from {κ} :
      (P : Chunk → Type κ) (seen : List ℕ) (chunks : List Chunk)
      → All P chunks
      → All P (active_from versions seen chunks)
  unfolding active_from
  All-active_from P seen [] h = tt
  All-active_from P seen (c ∷ cs) h = elim (Bool-cases (has c.index seen)) [
    | inl e ↦ rw e (All-active_from P seen cs h.1)
    | inr e ↦ elim (Bool-cases (is_active versions c)) [
      | inl a ↦ rw (e, a) (h.0, All-active_from P (add c.index seen) cs h.1)
      | inr a ↦ rw (e, a) (All-active_from P seen cs h.1)
    ]
  ]

  active_from-Kept :
      (seen : List ℕ) (chunks : List Chunk)
      → All (Kept versions seen) (active_from versions seen chunks)
  unfolding active_from
  active_from-Kept seen [] = tt
  active_from-Kept seen (c ∷ cs) = elim (Bool-cases (has c.index seen)) [
    | inl e ↦ rw e (active_from-Kept seen cs)
    | inr e ↦ elim (Bool-cases (is_active versions c)) [
      | inl a ↦
          rw (e, a)
            (
              (e, a),
              All-map _ _ (Kept-add versions c.index seen) _
                  (active_from-Kept (add c.index seen) cs),
            )
      | inr a ↦ rw (e, a) (active_from-Kept seen cs)
    ]
  ]

  Before-Kept :
      (c : Chunk) (seen : List ℕ) (ds : List Chunk)
      → All (λ d. index_le c d ≡ true) ds
      → All (Kept versions (add c.index seen)) ds
      → All (Before c) ds
  Before-Kept c seen [] h k = tt
  Before-Kept c seen (d ∷ ds) h k =
      (ground (arith, has-add c.index d.index seen), Before-Kept c seen ds h.1 k.1)

  active_from-IsIncreasing :
      (seen : List ℕ) (chunks : List Chunk)
      → IsTimeline chunks
      → IsIncreasing (active_from versions seen chunks)
  unfolding active_from
  active_from-IsIncreasing seen [] h = tt
  active_from-IsIncreasing seen (c ∷ cs) h = elim (Bool-cases (has c.index seen)) [
    | inl e ↦ rw e (active_from-IsIncreasing seen cs h.1)
    | inr e ↦ elim (Bool-cases (is_active versions c)) [
      | inl a ↦
          rw (e, a)
            (
              Before-Kept c seen _
                  (All-active_from (λ d. index_le c d ≡ true) (add c.index seen) cs h.0)
                  (active_from-Kept (add c.index seen) cs),
              active_from-IsIncreasing (add c.index seen) cs h.1,
            )
      | inr a ↦ rw (e, a) (active_from-IsIncreasing seen cs h.1)
    ]
  ]

-- Of chunks in timeline order the active ones have strictly increasing indexes, so at most one for
-- each index, and each is at the active version of its index.
pub derive_active_chunks-IsIncreasing :
    (known : List Chunk) (versions : List (ℕ × ℕ))
    → IsTimeline known
    → IsIncreasing (derive_active_chunks known versions)
      × All (λ c. get c.index versions ≡ some c.version) (derive_active_chunks known versions)
unfolding derive_active_chunks
derive_active_chunks-IsIncreasing known versions h = (
  active_from-IsIncreasing versions [] known h,
  All-map _ _ (λ c k. ground arith) _ (active_from-Kept versions [] known),
)

any-find :
    (p : Chunk → Bool) (chunks : List Chunk)
    → any p chunks ≡ true
    → (c : Chunk) × (find p chunks ≡ some c) × (p c ≡ true)
any-find p [] h = cc
any-find p (c ∷ cs) h = elim (Bool-cases (p c)) [
  | inl e ↦ (c, rw e, e)
  | inr e ↦ rw e (any-find p cs (ground arith))
]

complete_at :
    (known : List Chunk) (i : ℕ) (versions : List (ℕ × ℕ)) (o : Option ℕ)
    → get i versions ≡ o
    → IsLatest i o known
    → any_index i known ≡ true
    → (c : Chunk) × (chosen versions i known ≡ some c) × IsNewest i c.version known
complete_at known i versions none e latest h = cc
complete_at known i versions (some v) e latest h =
    let (c, found, hit) = any-find (is_version i v) known latest.0 in
    let same : v ≡ c.version = ground arith in
    (c, ground arith, subst (λ w. IsNewest i w known) same latest.1)

-- What stands for an index, by the version that the server names for it.
abbrev pub IsShown : Option ℕ → ℕ → List Chunk → Option Chunk → Type 0
IsShown none i known found = (c : Chunk) × (found ≡ some c) × IsNewest i c.version known
IsShown (some v) i known found = found ≡ find_version i v known

IsShown-by_server :
    (known : List Chunk) (server : Option (List (ℕ × ℕ))) (i : ℕ) (named : Option ℕ)
    → get i (server_versions server) ≡ named
    → any_index i known ≡ true
    → IsShown named i known
        (find_index i (derive_active_chunks known (derive_active_version_map known server)))
IsShown-by_server known server i none unnamed h =
    let versions = derive_active_version_map known server in
    let latest : get i versions ≡ get i (derive_active_versions known) =
      get-derive_active_version_map known server i ∙ rw unnamed refl in
    let (c, found, newest) =
      complete_at known i versions (get i (derive_active_versions known)) latest
        (derive_active_versions-IsLatest known i) h in
    (c, find-derive_active_chunks known versions i ∙ found, newest)
IsShown-by_server known server i (some v) named h =
    let versions = derive_active_version_map known server in
    let version : get i versions ≡ some v =
      get-derive_active_version_map known server i ∙ rw named refl in
    find-derive_active_chunks known versions i ∙ rw (chosen, version) refl

-- An index that some known chunk has, with the versions that the server names or without any: where the
-- server names none for the index, it is not lost, and no known chunk of it is newer than the active one;
-- where the server names one, the active chunk is the first known one of that version, and the index is
-- lost exactly if no known chunk has that version.
pub derive_active_chunks_complete :
    (known : List Chunk) (server : Option (List (ℕ × ℕ))) (i : ℕ)
    → any_index i known ≡ true
    → IsShown
        (get i (server_versions server))
        i
        known
        (find_index i (derive_active_chunks known (derive_active_version_map known server)))
derive_active_chunks_complete known server i h =
    IsShown-by_server known server i (get i (server_versions server)) refl h
