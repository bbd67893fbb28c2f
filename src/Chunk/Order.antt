-- ===== src/Chunk/Order.antt =====
-- The timeline order of chunks: `sortChunks` and the order of equal indexes.
use readflow.Common.{Bool, keep, not, ℕ, ◌≡◌, true, false, List, arith, find, All}
use readflow.Common.Sort.{
  sort_by, IsSorted, Pairs, sort_by-IsSorted, sort_by_of_IsSorted, keep-sort_by, All-sort_by,
  Pairs-sort_by, find_of_keep,
}
use readflow.Common.Sort.Stable.{sort_by_idem, sort_by-keep, sort_by-keep_snoc}
use readflow.Chunk.{Chunk, index_le, sort_chunks, upsert_chunk, is_version}

-- Chunks in timeline order.
abbrev pub IsTimeline : List Chunk → Type 0
IsTimeline chunks = IsSorted index_le chunks

index_le_trans : (a b c : Chunk) → index_le a b ≡ true → index_le b c ≡ true → index_le a c ≡ true
index_le_trans a b c h k = ground arith

index_le_total : (a b : Chunk) → index_le a b ≡ false → index_le b a ≡ true
index_le_total a b h = ground arith

pub sort_chunks-IsTimeline : (chunks : List Chunk) → IsTimeline (sort_chunks chunks)
unfolding sort_chunks
sort_chunks-IsTimeline chunks = sort_by-IsSorted index_le index_le_trans index_le_total chunks

pub sort_chunks_of_IsTimeline :
    (chunks : List Chunk) → IsTimeline chunks → sort_chunks chunks ≡ chunks
unfolding sort_chunks
sort_chunks_of_IsTimeline chunks s = sort_by_of_IsSorted index_le chunks s

pub All-sort_chunks {κ} :
    (P : Chunk → Type κ) (chunks : List Chunk) → All P chunks → All P (sort_chunks chunks)
unfolding sort_chunks
All-sort_chunks P chunks h = All-sort_by index_le P chunks h

pub Pairs-sort_chunks {κ} :
    (R : Chunk → Chunk → Type κ)
    → ((a b : Chunk) → R a b → R b a)
    → (chunks : List Chunk) → Pairs R chunks
    → Pairs R (sort_chunks chunks)
unfolding sort_chunks
Pairs-sort_chunks R flip chunks h = Pairs-sort_by index_le R flip chunks h

-- A look-up by index and version does not see the sorting.
pub find-sort_chunks :
    (i v : ℕ) (chunks : List Chunk)
    → find (is_version i v) (sort_chunks chunks) ≡ find (is_version i v) chunks
unfolding sort_chunks
find-sort_chunks i v chunks =
    find_of_keep (is_version i v) (sort_by index_le chunks) chunks
      (keep-sort_by index_le (is_version i v) (λ a b h k. ground arith) chunks)

pub sort_chunks_idem : (chunks : List Chunk) → sort_chunks (sort_chunks chunks) ≡ sort_chunks chunks
unfolding sort_chunks
sort_chunks_idem chunks = sort_by_idem index_le index_le_trans index_le_total chunks

pub sort_chunks-keep :
    (p : Chunk → Bool) (chunks : List Chunk)
    → keep p (sort_chunks chunks) ≡ sort_chunks (keep p chunks)
unfolding sort_chunks
sort_chunks-keep p chunks = sort_by-keep index_le index_le_trans index_le_total p chunks

-- An upsert sees its list only up to the order of different indexes.
pub upsert_chunk-sort_chunks :
    (c : Chunk) (chunks : List Chunk) → upsert_chunk (sort_chunks chunks) c ≡ upsert_chunk chunks c
unfolding upsert_chunk
upsert_chunk-sort_chunks c chunks =
    sort_by-keep_snoc index_le index_le_trans index_le_total
      (λ d. not (is_version c.index c.version d)) chunks c
