-- ===== src/Reader/Active/Choice.antt =====
-- Which chunk stands for an index.
use readflow.Common.{
  ℕ, ◌≡◌, ◌∙◌, Option, none, some, List, [], ◌∷◌, arith, find, or_option, ◌==◌, if◌then◌else◌,
}
use readflow.Common.Sets.{get, has, add, nat_eq, get-put, has-add}
use readflow.Chunk.{Chunk, derive_active_versions}
use readflow.Chunk.Upsert.{find_version}
use readflow.Reader.Active.{
  server_versions, fill_missing, add_missing, derive_active_version_map, active_from,
  derive_active_chunks,
}

get-fill_missing :
    (i : ℕ) (versions entries : List (ℕ × ℕ))
    → get i (fill_missing versions entries) ≡ or_option (get i versions) (get i entries)
unfolding fill_missing
get-fill_missing i versions [] = ground arith
get-fill_missing i versions ((j, v) ∷ entries) =
    get-fill_missing i (add_missing versions j v) entries ∙ ground (arith, get-put j i v versions)

-- The active version of an index is the server's where it names one, and else the highest version
-- among the chunks.
pub get-derive_active_version_map :
    (chunks : List Chunk) (active_chunk_version : Option (List (ℕ × ℕ))) (i : ℕ)
    → get i (derive_active_version_map chunks active_chunk_version)
      ≡ or_option
          (get i (server_versions active_chunk_version))
          (get i (derive_active_versions chunks))
unfolding derive_active_version_map
get-derive_active_version_map chunks acv i =
    get-fill_missing i (server_versions acv) (derive_active_versions chunks)

abbrev pub find_index : ℕ → List Chunk → Option Chunk
find_index i chunks = find (λ c. c.index == i) chunks

-- The first chunk of an index at its active version.
abbrev pub chosen : List (ℕ × ℕ) → ℕ → List Chunk → Option Chunk
chosen versions i chunks = elim (get i versions) [ none ↦ none | some v ↦ find_version i v chunks ]

find-active_from :
    (versions : List (ℕ × ℕ)) (i : ℕ) (seen : List ℕ) (chunks : List Chunk)
    → find_index i (active_from versions seen chunks)
      ≡ (if has i seen then none else chosen versions i chunks)
unfolding active_from
find-active_from versions i seen [] = ground arith
find-active_from versions i seen (c ∷ cs) = ground (
  arith,
  find-active_from versions i seen cs,
  find-active_from versions i (add c.index seen) cs,
  has-add c.index i seen,
)

-- Looking an index up among the active chunks gives the first known chunk of its active version, and
-- nothing where the index has no active version or no chunk of it is known.
pub find-derive_active_chunks :
    (known : List Chunk) (versions : List (ℕ × ℕ)) (i : ℕ)
    → find_index i (derive_active_chunks known versions) ≡ chosen versions i known
unfolding derive_active_chunks
find-derive_active_chunks known versions i = find-active_from versions i [] known
