-- ===== src/Media/Stream/Entries.antt =====
-- The playable chunks of a manifest as queue entries, and how the scan finds them.
use readflow.Common.{
  zero, ℕ, suc, ◌<◌, ◌≡◌, refl, false, List, [], ◌∷◌, take, drop, map, arith, if◌then◌else◌, All,
  ◌++◌, ◌+◌, Bool-cases, ◌≢◌, ◌≤◌, inl, length, inr,
}
use readflow.Common.Sets.{has, add, nat_eq, has-add}
use readflow.Common.Sort.{Pairs}
use readflow.Chunk.{Chunk}
use readflow.Reader.Playback.{is_url}
use readflow.Reader.Active.Order.{IsIncreasing, Before}
use readflow.Media.Stream.{QueuedChunk, entry_of}

-- The chunks with a segment, as entries; the first chunk stands at `position`.
unfoldable pub entries : ℕ → List Chunk → List QueuedChunk
entries position [] = []
entries position (c ∷ cs) =
    let rest = entries (suc position) cs in
    if is_url c.segment_url then entry_of c position ∷ rest else rest

abbrev pub indexes : List QueuedChunk → List ℕ
indexes queue = map (λ q. q.index) queue

-- Each later number is greater.
abbrev pub IsRising : List ℕ → Type 0
IsRising xs = Pairs (λ a b. a < b) xs

All-entries :
    (i n : ℕ) (chunks : List Chunk)
    → All (λ c. i < c.index) chunks
    → All (λ j. i < j) (indexes (entries n chunks))
unfolding entries
All-entries i n [] h = tt
All-entries i n (c ∷ cs) h = ground (arith, All-entries i (suc n) cs h.1)

pub entries-IsRising :
    (n : ℕ) (chunks : List Chunk) → IsIncreasing chunks → IsRising (indexes (entries n chunks))
unfolding entries
entries-IsRising n [] h = tt
entries-IsRising n (c ∷ cs) h =
    ground (arith, entries-IsRising (suc n) cs h.1, All-entries c.index (suc n) cs h.0)

All-take {κ} :
    (P : Chunk → Type κ) (m : ℕ) (chunks : List Chunk) → All P chunks → All P (take m chunks)
All-take P zero chunks h = tt
All-take P (suc m) [] h = tt
All-take P (suc m) (c ∷ cs) h = (h.0, All-take P m cs h.1)

All-drop {κ} :
    (P : Chunk → Type κ) (m : ℕ) (chunks : List Chunk) → All P chunks → All P (drop m chunks)
All-drop P zero chunks h = h
All-drop P (suc m) [] h = tt
All-drop P (suc m) (c ∷ cs) h = All-drop P m cs h.1

pub take-IsIncreasing :
    (m : ℕ) (chunks : List Chunk) → IsIncreasing chunks → IsIncreasing (take m chunks)
take-IsIncreasing zero chunks h = tt
take-IsIncreasing (suc m) [] h = tt
take-IsIncreasing (suc m) (c ∷ cs) h = (All-take (Before c) m cs h.0, take-IsIncreasing m cs h.1)

pub drop-IsIncreasing :
    (m : ℕ) (chunks : List Chunk) → IsIncreasing chunks → IsIncreasing (drop m chunks)
drop-IsIncreasing zero chunks h = h
drop-IsIncreasing (suc m) [] h = tt
drop-IsIncreasing (suc m) (c ∷ cs) h = drop-IsIncreasing m cs h.1

-- A chunk whose index is in no list of numbers seen.
abbrev pub IsFresh : List ℕ → List Chunk → Type 0
IsFresh seen chunks = All (λ c. has c.index seen ≡ false) chunks

IsFresh-cons :
    (i : ℕ) (seen : List ℕ) (chunks : List Chunk)
    → All (λ c. i < c.index) chunks
    → IsFresh seen chunks
    → IsFresh (i ∷ seen) chunks
IsFresh-cons i seen [] h k = tt
IsFresh-cons i seen (c ∷ cs) h k = (ground arith, IsFresh-cons i seen cs h.1 k.1)

pub IsFresh-add :
    (i : ℕ) (seen : List ℕ) (chunks : List Chunk)
    → All (λ c. i < c.index) chunks
    → IsFresh seen chunks
    → IsFresh (add i seen) chunks
IsFresh-add i seen [] h k = tt
IsFresh-add i seen (c ∷ cs) h k =
    (ground (arith, has-add i c.index seen), IsFresh-add i seen cs h.1 k.1)

pub IsFresh-empty :
    (seen : List ℕ) (chunks : List Chunk) → ((i : ℕ) → has i seen ≡ false) → IsFresh seen chunks
IsFresh-empty seen [] h = tt
IsFresh-empty seen (c ∷ cs) h = (h c.index, IsFresh-empty seen cs h)

-- What stands behind a position has none of the indexes before it.
pub entries-IsFresh :
    (n m : ℕ) (chunks : List Chunk)
    → IsIncreasing chunks
    → IsFresh (indexes (entries n (take m chunks))) (drop m chunks)
unfolding entries
entries-IsFresh n zero chunks h = IsFresh-empty [] chunks (λ i. refl)
entries-IsFresh n (suc m) [] h = tt
entries-IsFresh n (suc m) (c ∷ cs) h =
    let ih = entries-IsFresh (suc n) m cs h.1 in
    ground (
      arith,
      ih,
      IsFresh-cons c.index (indexes (entries (suc n) (take m cs))) (drop m cs)
          (All-drop (λ d. c.index < d.index) m cs h.0) ih,
    )

take_nil : (m : ℕ) → take {A = Chunk} m [] ≡ []
take_nil zero = refl
take_nil (suc m) = refl

-- The entries up to one position and from there on.
pub entries-take_add :
    (n m p k l : ℕ) (chunks : List Chunk)
    → k ≡ m + p
    → l ≡ n + m
    → entries n (take m chunks) ++ entries l (take p (drop m chunks)) ≡ entries n (take k chunks)
unfolding entries
entries-take_add n zero p k l chunks e f =
    let same : k ≡ p = omega arith in let here : l ≡ n = omega arith in rw (same, here)
entries-take_add n (suc m) p zero l chunks e f = absurd (omega arith)
entries-take_add n (suc m) p (suc k) l [] e f = rw (take_nil p)
entries-take_add n (suc m) p (suc k) l (c ∷ cs) e f =
    ground (arith, entries-take_add (suc n) m p k l cs (omega arith) (omega arith))

-- The first of the entries that are left stands behind exactly those before it.
pub record Split (n : ℕ) (chunks : List Chunk) (done : List QueuedChunk) (q : QueuedChunk)
    : Type 0 where
  pub into : ℕ
  pub within : into ≤ length chunks
  pub position : q.position ≡ n + into
  pub before : done ≡ entries n (take into chunks)

not-nil : (done rest : List QueuedChunk) (q : QueuedChunk) → done ++ q ∷ rest ≢ []
not-nil [] rest q h = cc
not-nil (d ∷ ds) rest q h = cc

pub entries_cut :
    (n m : ℕ) (chunks : List Chunk) (done rest : List QueuedChunk) (q : QueuedChunk)
    → done ++ q ∷ rest ≡ entries n (take m chunks)
    → Split n chunks done q
unfolding entries
entries_cut n zero chunks done rest q h = absurd (not-nil done rest q h)
entries_cut n (suc m) [] done rest q h = absurd (not-nil done rest q h)
entries_cut n (suc m) (c ∷ cs) [] rest q h = elim (Bool-cases (is_url c.segment_url)) [
  | inl u ↦ record { into = 0; within = omega arith; position = ground arith; before = refl }
  | inr u ↦
      let s = entries_cut (suc n) m cs [] rest q (rw u at h) in
      record {
        into = suc s.into;
        within = omega (arith, s.within);
        position = omega (arith, s.position);
        before = rw u s.before;
      }
]
entries_cut n (suc m) (c ∷ cs) (d ∷ ds) rest q h = elim (Bool-cases (is_url c.segment_url)) [
  | inl u ↦
      let s = entries_cut (suc n) m cs ds rest q (ground arith) in
      record {
        into = suc s.into;
        within = omega (arith, s.within);
        position = omega (arith, s.position);
        before = ground (arith, s.before);
      }
  | inr u ↦
      let s = entries_cut (suc n) m cs (d ∷ ds) rest q (rw u at h) in
      record {
        into = suc s.into;
        within = omega (arith, s.within);
        position = omega (arith, s.position);
        before = rw u s.before;
      }
]

entries-whole :
    (n m l : ℕ) (chunks : List Chunk)
    → l ≡ n + m
    → entries n (take m chunks) ++ entries l (drop m chunks) ≡ entries n chunks
unfolding entries
entries-whole n zero l chunks e = let same : l ≡ n = omega arith in rw same
entries-whole n (suc m) l [] e = refl
entries-whole n (suc m) l (c ∷ cs) e = ground (arith, entries-whole (suc n) m l cs (omega arith))

pub entries-take_whole :
    (m : ℕ) (chunks : List Chunk)
    → entries 0 (take m chunks) ++ entries m (drop m chunks) ≡ entries 0 chunks
entries-take_whole m chunks = entries-whole 0 m m chunks (omega arith)
