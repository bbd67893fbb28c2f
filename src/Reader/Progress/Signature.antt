-- ===== src/Reader/Progress/Signature.antt =====
-- The key of the memoized chunk states in web/src/features/reader/ReaderPage.tsx.
use readflow.Common.{
  ℕ, zero, suc, ◌+◌, ◌-◌, ◌≡◌, refl, sym, ◌∙◌, ap, false, Option, none, some, List, [], ◌∷◌, ◌++◌,
  arith, length, length-append, leb, ◌⊎◌, inl, inr, Bool-cases, subst, ◌≤◌,
}
use readflow.Common.Int.{ℤ, pos_part}
use readflow.Common.Sets.{has, add, has-append, nat_eq}
use readflow.Chunk.{Chunk}
use readflow.Reader.Progress.{
  ActiveChunkProgress, derive_active_chunk_progress, progress_from, mark_played, no_progress,
}

-- The text `active:size`, as its parts.
pub record ChunkStateSignature : Type 0 where
  pub active : Option ℕ
  pub played_count : ℕ

unfoldable pub chunk_state_signature : ActiveChunkProgress → ChunkStateSignature
chunk_state_signature p = record {
  active = p.active_chunk_index;
  played_count = length p.played_indexes;
}

-- The chunks are numbered from `n` on without a hole.
abbrev pub IsConsecutive : ℕ → List Chunk → Type 0
IsConsecutive n [] = Unit
IsConsecutive n (c ∷ cs) = (c.index ≡ n) × IsConsecutive (suc n) cs

-- The `m` numbers from `n` on.
abbrev numbers : ℕ → ℕ → List ℕ
numbers n zero = []
numbers n (suc m) = numbers n m ++ (n + m) ∷ []

length-numbers : (n m : ℕ) → length (numbers n m) ≡ m
length-numbers n zero = refl
length-numbers n (suc m) =
    omega (arith, length-append (numbers n m) ((n + m) ∷ []), length-numbers n m)

has-numbers : (n m k : ℕ) → n + m ≤ k → has k (numbers n m) ≡ false
has-numbers n zero k beyond = refl
has-numbers n (suc m) k beyond =
    let before = has-numbers n m k (omega arith) in
    ground (arith, has-append k (numbers n m) ((n + m) ∷ []))

add-numbers : (n m k : ℕ) → k ≡ n + m → add k (numbers n m) ≡ numbers n (suc m)
unfolding add
add-numbers n m k here = rw (has-numbers n m k (omega arith)) (ap (λ x. numbers n m ++ x ∷ []) here)

-- What the loop leaves: the chunks before the active one, or all of them.
IsPrefix : ℕ → ActiveChunkProgress → Type 0
IsPrefix n p =
    (m : ℕ) × (p.played_indexes ≡ numbers n m)
    × ((p.active_chunk_index ≡ none) ⊎ (p.active_chunk_index ≡ some (n + m)))

progress_from-IsPrefix :
    (n m remaining : ℕ) (p : ActiveChunkProgress) (cs : List Chunk)
    → IsConsecutive (n + m) cs
    → p.played_indexes ≡ numbers n m
    → p.active_chunk_index ≡ none
    → IsPrefix n (progress_from remaining p cs)
unfolding progress_from IsPrefix
progress_from-IsPrefix n m remaining p [] order played idle = (m, played, inl idle)
progress_from-IsPrefix n m remaining p (c ∷ cs) (here, order) played idle =
    elim (Bool-cases (leb c.duration_seconds remaining)) [
      | inl reached ↦
          let ih =
            progress_from-IsPrefix n (suc m) (remaining - c.duration_seconds) (mark_played c p) cs
              (subst (λ k. IsConsecutive k cs) (omega arith) order)
              (ap (add c.index) played ∙ add-numbers n m c.index here) idle in
          rw reached ih
      | inr inside ↦ rw inside (m, played, inr (ap some here))
    ]

derive_active_chunk_progress-IsPrefix :
    (n : ℕ) (ready : List Chunk) (current : ℤ)
    → IsConsecutive n ready
    → IsPrefix n (derive_active_chunk_progress ready current)
unfolding derive_active_chunk_progress
derive_active_chunk_progress-IsPrefix n ready current order =
    progress_from-IsPrefix n 0 (pos_part current) no_progress ready
      (subst (λ k. IsConsecutive k ready) (omega arith) order) refl refl

same_prefix :
    (n m n' m' k : ℕ) (p q : ActiveChunkProgress)
    → p.played_indexes ≡ numbers n m
    → q.played_indexes ≡ numbers n' m'
    → length p.played_indexes ≡ length q.played_indexes
    → n + m ≡ k
    → n' + m' ≡ k
    → p.played_indexes ≡ q.played_indexes
same_prefix n m n' m' k p q hp hq lengths e e' =
    let counts : m ≡ m' =
      sym (length-numbers n m)
      ∙ sym (ap length hp)
      ∙ lengths
      ∙ ap length hq
      ∙ length-numbers n' m' in
    let starts : n ≡ n' = omega arith in
    hp ∙ ap (λ x. numbers x m) starts ∙ ap (numbers n') counts ∙ sym hq

active_of : (a b : ℕ) (o : Option ℕ) → o ≡ some a → o ≡ some b → a ≡ b
active_of a b none h k = absurd (cc h)
active_of a b (some c) h k = cc (h, k)

-- While a chunk is active, the signature determines the set of played chunks: two ready runs without holes,
-- whatever their anchors, and two positions in them with the same signature have played the same chunks.
pub chunk_state_signature-played :
    (n n' k : ℕ) (ready ready' : List Chunk) (current current' : ℤ)
    → IsConsecutive n ready
    → IsConsecutive n' ready'
    → chunk_state_signature (derive_active_chunk_progress ready current)
      ≡ chunk_state_signature (derive_active_chunk_progress ready' current')
    → (derive_active_chunk_progress ready current).active_chunk_index ≡ some k
    → (derive_active_chunk_progress ready current).played_indexes
      ≡ (derive_active_chunk_progress ready' current').played_indexes
unfolding chunk_state_signature IsPrefix
chunk_state_signature-played n n' k ready ready' current current' order order' same active =
    let p = derive_active_chunk_progress ready current in
    let q = derive_active_chunk_progress ready' current' in
    let (m, hp, ends) = derive_active_chunk_progress-IsPrefix n ready current order in
    let (m', hq, ends') = derive_active_chunk_progress-IsPrefix n' ready' current' order' in
    let also : q.active_chunk_index ≡ some k = sym (ap (λ g. g.active) same) ∙ active in
    let lengths = ap (λ (g : ChunkStateSignature). g.played_count) same in
    elim ends [
      | inl idle ↦ absurd (cc (idle, active))
      | inr at ↦ elim ends' [
        | inl idle' ↦ absurd (cc (idle', also))
        | inr at' ↦
            same_prefix n m n' m' k p q hp hq lengths
              (active_of (n + m) k p.active_chunk_index at active)
              (active_of (n' + m') k q.active_chunk_index at' also)
      ]
    ]
