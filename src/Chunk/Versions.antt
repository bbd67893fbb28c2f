-- ===== src/Chunk/Versions.antt =====
-- The active version of each index.
use readflow.Common.{
  inl, Bool, true, false, any, All, ltb, ◌⊎◌, ◌≤◌, ℕ, ◌≡◌, refl, ◌∙◌, sym, ap, Option, none, some,
  List, [], ◌∷◌, ◌&&◌, arith, ◌==◌, if◌then◌else◌,
}
use readflow.Common.Sets.{get, nat_eq, get-put}
use readflow.Common.Int.{ℤ, pos, negsuc, ltb_ℤ}
use readflow.Chunk.{
  is_version, Chunk, derive_active_versions, versions_from, record_version, latest_from,
  get_latest_version,
}

-- The version of a map entry, -1 where there is none.
abbrev pub as_version : Option ℕ → ℤ
as_version none = negsuc 0
as_version (some v) = pos v

get-record_version :
    (i : ℕ) (versions : List (ℕ × ℕ)) (c : Chunk)
    → as_version (get i (record_version versions c)) ≡ (
        if c.index == i && ltb_ℤ (as_version (get i versions)) (pos c.version)
        then pos c.version
        else as_version (get i versions))
get-record_version i versions c = ground (arith, get-put c.index i c.version versions)

get-versions_from :
    (i : ℕ) (versions : List (ℕ × ℕ)) (chunks : List Chunk)
    → latest_from i (as_version (get i versions)) chunks
      ≡ as_version (get i (versions_from versions chunks))
unfolding versions_from latest_from
get-versions_from i versions [] = refl
get-versions_from i versions (c ∷ cs) =
    ap (λ m. latest_from i m cs) (sym (get-record_version i versions c))
    ∙ get-versions_from i (record_version versions c) cs

-- `getLatestVersion` and `deriveActiveVersions` agree: the one gives the entry of the other, or -1
-- where the index has none.
pub get_latest_version-derive_active_versions :
    (chunks : List Chunk) (i : ℕ)
    → get_latest_version chunks i ≡ as_version (get i (derive_active_versions chunks))
unfolding get_latest_version derive_active_versions
get_latest_version-derive_active_versions chunks i = get-versions_from i [] chunks

abbrev pub any_index : ℕ → List Chunk → Bool
any_index i chunks = any (λ c. c.index == i) chunks

-- The versions of one index alone.
max_step : ℕ → Option ℕ → Chunk → Option ℕ
max_step i none c = if c.index == i then some c.version else none
max_step i (some w) c = if c.index == i && ltb w c.version then some c.version else some w

max_from : ℕ → Option ℕ → List Chunk → Option ℕ
max_from i o [] = o
max_from i o (c ∷ cs) = max_from i (max_step i o c) cs

get-max_step :
    (i : ℕ) (versions : List (ℕ × ℕ)) (c : Chunk)
    → get i (record_version versions c) ≡ max_step i (get i versions) c
unfolding max_step
get-max_step i versions c = ground (arith, get-put c.index i c.version versions)

get-max_from :
    (i : ℕ) (versions : List (ℕ × ℕ)) (chunks : List Chunk)
    → get i (versions_from versions chunks) ≡ max_from i (get i versions) chunks
unfolding versions_from max_from
get-max_from i versions [] = refl
get-max_from i versions (c ∷ cs) =
    get-max_from i (record_version versions c) cs
    ∙ ap (λ o. max_from i o cs) (get-max_step i versions c)

-- No chunk of the index is newer.
abbrev pub IsNewest : ℕ → ℕ → List Chunk → Type 0
IsNewest i v chunks = All (λ c. (c.index == i && ltb v c.version) ≡ false) chunks

abbrev AtMost : Option ℕ → ℕ → Type 0
AtMost none v = Unit
AtMost (some w) v = w ≤ v

max_from-IsNewest :
    (i v : ℕ) (o : Option ℕ) (chunks : List Chunk)
    → max_from i o chunks ≡ some v
    → IsNewest i v chunks × AtMost o v
unfolding max_from max_step
max_from-IsNewest i v o [] h = ground arith
max_from-IsNewest i v none (c ∷ cs) h =
    ground (arith, max_from-IsNewest i v (max_step i none c) cs h)
max_from-IsNewest i v (some w) (c ∷ cs) h =
    ground (arith, max_from-IsNewest i v (max_step i (some w) c) cs h)

max_from-attained :
    (i v : ℕ) (o : Option ℕ) (chunks : List Chunk)
    → max_from i o chunks ≡ some v
    → (o ≡ some v) ⊎ (any (is_version i v) chunks ≡ true)
unfolding max_from max_step
max_from-attained i v o [] h = inl h
max_from-attained i v none (c ∷ cs) h =
    ground (arith, max_from-attained i v (max_step i none c) cs h)
max_from-attained i v (some w) (c ∷ cs) h =
    ground (arith, max_from-attained i v (max_step i (some w) c) cs h)

max_from-none :
    (i : ℕ) (o : Option ℕ) (chunks : List Chunk)
    → max_from i o chunks ≡ none
    → (o ≡ none) × (any_index i chunks ≡ false)
unfolding max_from max_step
max_from-none i o [] h = (h, refl)
max_from-none i none (c ∷ cs) h = ground (arith, max_from-none i (max_step i none c) cs h)
max_from-none i (some w) (c ∷ cs) h = ground (arith, max_from-none i (max_step i (some w) c) cs h)

-- What `deriveActiveVersions` says of an index: nothing if no chunk has the index, and else a version
-- that one of its chunks has and that none of them exceeds.
abbrev pub IsLatest : ℕ → Option ℕ → List Chunk → Type 0
IsLatest i none chunks = any_index i chunks ≡ false
IsLatest i (some v) chunks = (any (is_version i v) chunks ≡ true) × IsNewest i v chunks

IsLatest-max_from :
    (i : ℕ) (chunks : List Chunk) (o : Option ℕ) → max_from i none chunks ≡ o → IsLatest i o chunks
IsLatest-max_from i chunks none h = (max_from-none i none chunks h).1
IsLatest-max_from i chunks (some v) h =
    (ground (arith, max_from-attained i v none chunks h), (max_from-IsNewest i v none chunks h).0)

-- For every index `deriveActiveVersions` records the highest version among its chunks, and records
-- nothing exactly where no chunk has the index.
pub derive_active_versions-IsLatest :
    (chunks : List Chunk) (i : ℕ) → IsLatest i (get i (derive_active_versions chunks)) chunks
unfolding derive_active_versions
derive_active_versions-IsLatest chunks i =
    rw (get-max_from i [] chunks) (IsLatest-max_from i chunks (max_from i none chunks) refl)
