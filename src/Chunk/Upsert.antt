-- ===== src/Chunk/Upsert.antt =====
-- `upsertChunk` as a map from (index, version) to chunks that stays in timeline order.
use readflow.Common.{
  ℕ, ◌≡◌, refl, ◌∙◌, false, not, Option, some, List, [], ◌∷◌, ◌++◌, arith, keep, find, All-keep,
  All-append, if◌then◌else◌,
}
use readflow.Common.Sort.{Pairs}
use readflow.Chunk.{Chunk, upsert_chunk, is_version}
use readflow.Chunk.Order.{IsTimeline, sort_chunks-IsTimeline, find-sort_chunks, Pairs-sort_chunks}

-- The first chunk recorded under an index and a version.
abbrev pub find_version : ℕ → ℕ → List Chunk → Option Chunk
find_version i v chunks = find (is_version i v) chunks

find-replaced :
    (i v : ℕ) (incoming : Chunk) (chunks : List Chunk)
    → find_version i v
        (keep (λ c. not (is_version incoming.index incoming.version c)) chunks ++ incoming ∷ [])
      ≡ (if is_version i v incoming then some incoming else find_version i v chunks)
find-replaced i v incoming [] = refl
find-replaced i v incoming (c ∷ cs) = ground (arith, find-replaced i v incoming cs)

-- After an upsert a look-up of the incoming chunk's index and version gives that chunk, and every
-- other look-up gives what it gave before.
pub find_version-upsert_chunk :
    (i v : ℕ) (incoming : Chunk) (chunks : List Chunk)
    → find_version i v (upsert_chunk chunks incoming)
      ≡ (if is_version i v incoming then some incoming else find_version i v chunks)
unfolding upsert_chunk
find_version-upsert_chunk i v incoming chunks =
    find-sort_chunks i v
      (keep (λ c. not (is_version incoming.index incoming.version c)) chunks ++ incoming ∷ [])
    ∙ find-replaced i v incoming chunks

-- No two chunks share index and version.
abbrev pub Differ : Chunk → Chunk → Type 0
Differ c d = is_version c.index c.version d ≡ false

abbrev pub IsDistinct : List Chunk → Type 0
IsDistinct chunks = Pairs Differ chunks

Pairs-replaced :
    (incoming : Chunk) (chunks : List Chunk)
    → IsDistinct chunks
    → IsDistinct
        (keep (λ c. not (is_version incoming.index incoming.version c)) chunks ++ incoming ∷ [])
Pairs-replaced incoming [] h = (tt, tt)
Pairs-replaced incoming (c ∷ cs) h =
    let later = Pairs-replaced incoming cs h.1 in
    let kept =
      All-keep (Differ c) (λ d. not (is_version incoming.index incoming.version d)) cs h.0 in
    let all = λ (e : Differ c incoming).
      All-append (Differ c) (keep (λ d. not (is_version incoming.index incoming.version d)) cs)
        (incoming ∷ []) kept (e, tt) in
    ground (arith, later, all)

-- An upsert leaves the chunks in timeline order, and with no two of the same index and version if
-- there were none before.
pub upsert_chunk-IsTimeline :
    (incoming : Chunk) (chunks : List Chunk)
    → IsDistinct chunks
    → IsTimeline (upsert_chunk chunks incoming) × IsDistinct (upsert_chunk chunks incoming)
unfolding upsert_chunk
upsert_chunk-IsTimeline incoming chunks h = (
  sort_chunks-IsTimeline
      (keep (λ c. not (is_version incoming.index incoming.version c)) chunks ++ incoming ∷ []),
  Pairs-sort_chunks Differ (λ a b e. ground arith) _ (Pairs-replaced incoming chunks h),
)
