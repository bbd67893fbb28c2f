-- ===== src/Reader/Progress.antt =====
-- Playback progress of features/reader/reader-model.ts: `deriveActiveChunkProgress`,
-- `skipTargetSeconds` and `resumePositionSeconds`.
pub mod Played
pub mod Seek
pub mod Signature
use readflow.Common.{
  ℕ, ◌+◌, ◌-◌, Bool, true, false, ◌&&◌, ◌||◌, Option, none, some, List, [], ◌∷◌, leb, ltb, min,
  if◌then◌else◌,
}
use readflow.Common.Sets.{put, add, nat_eq}
use readflow.Common.Int.{ℤ, pos, pos_part, ◌+ℤ◌}
use readflow.Chunk.{Chunk}

-- A fill in percent: a whole number, or `part / whole * 100`.
pub data Fill : Type 0 where
  percent : ℕ → Fill
  ratio : ℕ → ℕ → Fill

pub record ActiveChunkProgress : Type 0 where
  pub active_chunk_index : Option ℕ
  pub fill_by_index : List (ℕ × Fill)
  pub played_indexes : List ℕ

-- One round for a chunk that `remaining` reaches the end of.
abbrev mark_played : Chunk → ActiveChunkProgress → ActiveChunkProgress
mark_played c p = record p {
  fill_by_index = put c.index (percent 100) p.fill_by_index;
  played_indexes = add c.index p.played_indexes;
}

-- The round that ends the loop.
abbrev mark_active : Chunk → ℕ → ActiveChunkProgress → ActiveChunkProgress
mark_active c remaining p = record p {
  active_chunk_index = some c.index;
  fill_by_index =
      put c.index
        (if ltb 0 c.duration_seconds then ratio remaining c.duration_seconds else percent 0)
        p.fill_by_index;
}

unfoldable pub progress_from : ℕ → ActiveChunkProgress → List Chunk → ActiveChunkProgress
progress_from remaining p [] = p
progress_from remaining p (c ∷ cs) =
    let rest = progress_from (remaining - c.duration_seconds) (mark_played c p) cs in
    if leb c.duration_seconds remaining then rest else mark_active c remaining p

abbrev no_progress : ActiveChunkProgress
no_progress = record { active_chunk_index = none; fill_by_index = []; played_indexes = [] }

-- `Math.max(0, currentTimeSeconds)` is the positive part of the position.
unfoldable pub derive_active_chunk_progress : List Chunk → ℤ → ActiveChunkProgress
unfolding progress_from
derive_active_chunk_progress ready current_time =
    progress_from (pos_part current_time) no_progress ready

unfoldable pub skip_target_seconds : ℤ → ℤ → ℕ → ℕ
unfolding ◌+ℤ◌
skip_target_seconds current delta rendered_duration =
    min (pos_part (current +ℤ delta)) rendered_duration

-- 2 seconds.
abbrev pub resume_end_epsilon_seconds : ℕ
resume_end_epsilon_seconds = 2000

-- `none` is a position that is not finite; `saved >= known - epsilon` is written with a sum.
unfoldable pub resume_position_seconds : Option ℕ → ℕ → Bool → ℕ
resume_position_seconds none known_duration is_finished = 0
resume_position_seconds (some saved) known_duration is_finished =
    if leb saved 1000
    then 0
    else if is_finished
        && ltb 0 known_duration
        && leb known_duration (saved + resume_end_epsilon_seconds)
    then 0
    else saved
