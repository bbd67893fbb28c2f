-- ===== src/Player/Heard.antt =====
-- web/src/player/heard.ts and web/src/player/auto-advance.ts: which chunks count as heard, and when the
-- next job is opened.
use readflow.Common.{
  ℕ, ◌+◌, ◌*◌, ◌≤◌, ◌≡◌, refl, Bool, true, false, not, ◌&&◌, ◌||◌, Option, none, some, List, [],
  ◌∷◌, String, leb, ltb, arith, if◌then◌else◌, str_eq, ◌==◌,
}
use readflow.Common.Sets.{has, add, has-add, nat_eq}
use readflow.Chunk.{Chunk, is_written}

-- `start + duration * 0.9`, both sides times ten.
abbrev pub is_heard : Chunk → ℕ → Bool
is_heard c position =
    is_written c.status
    && ltb 0 c.duration_seconds
    && leb (10 * c.start_seconds + 9 * c.duration_seconds) (10 * position)

unfoldable pub collect_heard_chunk_indexes : List Chunk → ℕ → List ℕ → List ℕ
collect_heard_chunk_indexes [] position into = into
collect_heard_chunk_indexes (c ∷ cs) position into =
    collect_heard_chunk_indexes cs position (if is_heard c position then add c.index into else into)

abbrev pub any_heard : ℕ → ℕ → List Chunk → Bool
any_heard index position [] = false
any_heard index position (c ∷ cs) =
    (is_heard c position && (c.index == index)) || any_heard index position cs

any_heard_mono :
    (index p q : ℕ) (chunks : List Chunk)
    → p ≤ q
    → (not (any_heard index p chunks) || any_heard index q chunks) ≡ true
any_heard_mono index p q [] h = refl
any_heard_mono index p q (c ∷ cs) h = ground (arith, any_heard_mono index p q cs h)

has-collect :
    (chunks : List Chunk) (position index : ℕ) (into : List ℕ)
    → has index (collect_heard_chunk_indexes chunks position into)
      ≡ (has index into || any_heard index position chunks)
unfolding collect_heard_chunk_indexes
has-collect [] position index into = ground arith
has-collect (c ∷ cs) position index into = ground (
  arith,
  has-collect cs position index into,
  has-collect cs position index (add c.index into),
  has-add c.index index into,
)

-- Exactly the indexes that were in the set, or belong to a written chunk of positive length of which
-- nine tenths lie before the position, are heard; and further on no index is lost.
pub has-collect_heard_chunk_indexes :
    (chunks : List Chunk) (position further index : ℕ) (into : List ℕ)
    → position ≤ further
    → (has index (collect_heard_chunk_indexes chunks position into)
        ≡ (has index into || any_heard index position chunks))
      × ((not (has index (collect_heard_chunk_indexes chunks position into))
            || has index (collect_heard_chunk_indexes chunks further into))
          ≡ true)
has-collect_heard_chunk_indexes chunks position further index into h = ground (
  arith,
  has-collect chunks position index into,
  has-collect chunks further index into,
  any_heard_mono index position further chunks h,
)

pub record PlayerJob : Type 0 where
  pub id : String
  pub title : Option String
  pub is_terminal : Bool
  pub audio_epoch : ℕ
  pub folder_id : Option String
  pub next_job_id : Option String
  pub previous_job_id : Option String

pub record AutoAdvanceInput : Type 0 where
  pub player_job : Option PlayerJob
  pub has_ended : Bool
  pub stream_end_seconds : ℕ
  pub duration_seconds : ℕ
  pub continuous_play : Bool

-- 0.5 seconds.
abbrev pub end_epsilon_seconds : ℕ
end_epsilon_seconds = 500

unfoldable pub is_at_job_end : ℕ → ℕ → Bool
is_at_job_end seconds duration =
    ltb end_epsilon_seconds duration && leb duration (seconds + end_epsilon_seconds)

abbrev advance_to : Option String → AutoAdvanceInput → Option String
advance_to none i = none
advance_to (some next) i =
    if str_eq next "" || not i.continuous_play || not i.has_ended
    then none
    else if not (is_at_job_end i.stream_end_seconds i.duration_seconds)
    then none
    else some next

abbrev advance_job : Option PlayerJob → AutoAdvanceInput → Option String
advance_job none i = none
advance_job (some j) i = if not j.is_terminal then none else advance_to j.next_job_id i

unfoldable pub resolve_auto_advance : AutoAdvanceInput → Option String
resolve_auto_advance i = advance_job i.player_job i
