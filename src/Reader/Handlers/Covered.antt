-- ===== src/Reader/Handlers/Covered.antt =====
-- What a seek of the reader leaves in the player's store.
use readflow.Common.{
  ℕ, suc, ◌-◌, ◌≡◌, refl, Bool, true, false, not, ◌||◌, some, arith, Bool-cases, inl, inr, ◌==◌,
  sym, subst, ◌&&◌, String,
}
use readflow.Chunk.{is_terminal_status}
use readflow.Api.{JobDetail}
use readflow.Player.Store.{PlayerStore, set_anchor_index, request_seek, restart_stream}
use readflow.Reader.Controls.{ReaderSession}
use readflow.Reader.Handlers.{StreamView, move_anchor, seek_job, anchor_offset, resume_seek}

resume_seek-store :
    (resumes is_terminal : Bool) (id : String) (s : ReaderSession)
    → (resume_seek resumes is_terminal id s).store ≡ s.store
resume_seek-store false is_terminal id s = refl
resume_seek-store true true id s = refl
resume_seek-store true false id s = refl

module _ (view : StreamView) where
  -- The seek waits at its anchor and the play state is as it was; and the anchor is new, or the stream is
  -- said to hold the audio, or it is restarted.
  abbrev pub IsCovered : ℕ → ℕ → ℕ → PlayerStore → PlayerStore → Type 0
  IsCovered offset index seconds before after =
      (after.pending_seek_job_seconds ≡ some seconds)
      × (after.source.anchor_index ≡ index)
      × (after.play_intent ≡ before.play_intent)
      × ((not (index == before.source.anchor_index)
            || view.is_loaded (seconds - offset)
            || (after.stream_restart_key == suc before.stream_restart_key))
          ≡ true)

  move_anchor-IsCovered :
      (offset index seconds : ℕ) (store : PlayerStore)
      → IsCovered offset index seconds store (move_anchor view offset index seconds store)
  unfolding set_anchor_index request_seek restart_stream
  move_anchor-IsCovered offset index seconds store =
      elim (Bool-cases
        ((index == store.source.anchor_index) && not (view.is_loaded (seconds - offset)))) [
          | inl gone ↦ rw gone (refl, refl, refl, ground arith)
          | inr held ↦ rw held (refl, refl, refl, ground arith)
        ]

  pub seek_job-IsCovered :
      (job : JobDetail) (index seconds : ℕ) (s : ReaderSession)
      → IsCovered
          (anchor_offset s)
          index
          seconds
          s.store
          (seek_job view (some job) index seconds s).store
  seek_job-IsCovered job index seconds s =
      subst (IsCovered (anchor_offset s) index seconds s.store)
        (sym
          (resume_seek-store s.store.play_intent (is_terminal_status (some job.status)) job.id _))
        (move_anchor-IsCovered (anchor_offset s) index seconds s.store)
