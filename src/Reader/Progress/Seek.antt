-- ===== src/Reader/Progress/Seek.antt =====
-- Skips and resume positions.
use readflow.Reader.Progress.{
  resume_end_epsilon_seconds, resume_position_seconds, skip_target_seconds,
}
use readflow.Common.Int.{pos, ℤ, ◌≤ℤ◌, ◌-ℤ◌, +ℤ_parts}
use readflow.Common.{
  true, false, ◌&&◌, ◌||◌, ◌==◌, leb, ltb, ◌⊎◌, some, Bool, ◌≡◌, ◌+◌, ℕ, ◌≤◌, arith,
}

-- A skip lands inside the rendered audio, a longer skip never lands before a shorter one, and
-- skipping ahead from a position and back by as much returns to it, provided that the audio reaches
-- that far.
pub skip_target_seconds-bounds :
    (current delta more : ℤ) (position ahead rendered : ℕ)
    → delta ≤ℤ more
    → position + ahead ≤ rendered
    → (skip_target_seconds current delta rendered ≤ rendered)
      × (skip_target_seconds current delta rendered ≤ skip_target_seconds current more rendered)
      × (skip_target_seconds
            (pos (skip_target_seconds (pos position) (pos ahead) rendered))
            (pos 0 -ℤ pos ahead)
            rendered
          ≡ position)
unfolding skip_target_seconds ◌-ℤ◌
skip_target_seconds-bounds current delta more position ahead rendered h k =
    (omega (arith, +ℤ_parts), ground arith, ground arith)

-- Resuming a job gives the saved position or the start; never one at or behind the last 2 seconds of
-- a finished job of known length; and for an unfinished job always the saved position, if that is
-- behind the first second.
pub resume_position_seconds_lem :
    (saved known : ℕ) (is_finished : Bool)
    → let resumed = resume_position_seconds (some saved) known is_finished in
      ((resumed ≡ saved) ⊎ (resumed ≡ 0))
      × ((is_finished && ltb 0 known && leb known (resumed + resume_end_epsilon_seconds)) ≡ false
          ⊎ (resumed ≡ 0))
      × ((is_finished || leb saved 1000 || (resumed == saved)) ≡ true)
unfolding resume_position_seconds
resume_position_seconds_lem saved known is_finished = ground arith
