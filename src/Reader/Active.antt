-- ===== src/Reader/Active.antt =====
-- Version resolution of features/reader/reader-model.ts: `deriveActiveVersionMap` and
-- `deriveActiveChunks`.
pub mod Choice
pub mod Order
use readflow.Common.{ℕ, Bool, true, false, Option, none, some, List, [], ◌∷◌, ◌==◌, if◌then◌else◌}
use readflow.Common.Sets.{get, put, has, add, nat_eq}
use readflow.Chunk.{Chunk, derive_active_versions}

set_entries : List (ℕ × ℕ) → List (ℕ × ℕ) → List (ℕ × ℕ)
set_entries versions [] = versions
set_entries versions ((i, v) ∷ entries) = set_entries (put i v versions) entries

-- The entries of `job.active_chunk_version`, none where the job has no such field.
unfoldable pub server_versions : Option (List (ℕ × ℕ)) → List (ℕ × ℕ)
unfolding set_entries
server_versions none = []
server_versions (some entries) = set_entries [] entries

-- `if (!versions.has(index)) versions.set(index, version)`.
abbrev add_missing : List (ℕ × ℕ) → ℕ → ℕ → List (ℕ × ℕ)
add_missing versions i v = elim (get i versions) [ none ↦ put i v versions | some w ↦ versions ]

fill_missing : List (ℕ × ℕ) → List (ℕ × ℕ) → List (ℕ × ℕ)
fill_missing versions [] = versions
fill_missing versions ((i, v) ∷ entries) = fill_missing (add_missing versions i v) entries

unfoldable pub derive_active_version_map : List Chunk → Option (List (ℕ × ℕ)) → List (ℕ × ℕ)
unfolding server_versions set_entries fill_missing derive_active_versions
derive_active_version_map chunks active_chunk_version =
    fill_missing (server_versions active_chunk_version) (derive_active_versions chunks)

-- `chunk.version === activeVersions.get(chunk.index)`.
abbrev pub is_active : List (ℕ × ℕ) → Chunk → Bool
is_active versions chunk = elim (get chunk.index versions) [
  | none ↦ false
  | some v ↦ chunk.version == v
]

active_from : List (ℕ × ℕ) → List ℕ → List Chunk → List Chunk
active_from versions seen [] = []
active_from versions seen (chunk ∷ chunks) =
    let skipped = active_from versions seen chunks in
    let taken = chunk ∷ active_from versions (add chunk.index seen) chunks in
    if has chunk.index seen then skipped else if is_active versions chunk then taken else skipped

unfoldable pub derive_active_chunks : List Chunk → List (ℕ × ℕ) → List Chunk
unfolding active_from
derive_active_chunks known versions = active_from versions [] known
