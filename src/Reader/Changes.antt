-- ===== src/Reader/Changes.antt =====
-- The changes of a job from its page, web/src/features/reader/ReaderPage.tsx, as they end: rendering to the end,
-- another voice, a chunk narrated again, another version; and the text that is edited for that.
use readflow.Common.{ℕ, Bool, false, Option, none, some, String, if◌then◌else◌}
use readflow.Api.{StreamJob}
use readflow.Player.Store.{set_anchor_index, request_seek, set_play_intent}
use readflow.Reader.Page.{apply_job_patch, no_meta}
use readflow.Reader.Controls.{ReaderSession, pause_player, call, with_player, with_error}

abbrev pub patched_session : StreamJob → ReaderSession → ReaderSession
patched_session patch s =
    with_error none (record s { page = apply_job_patch patch none no_meta s.page })

-- `handleRenderToEnd`.
unfoldable pub rendered_to_end : StreamJob → ReaderSession → ReaderSession
rendered_to_end patch s = patched_session patch s

-- The local playback state after every chunk was invalidated.
abbrev pub reset_playback : ReaderSession → ReaderSession
reset_playback s =
    with_player (λ store. set_anchor_index 0 (request_seek none store))
      (call pause_player (with_player (set_play_intent false) s))

-- `handleVoiceChange`, which may narrate again what was written.
unfoldable pub voice_changed : Bool → StreamJob → ReaderSession → ReaderSession
voice_changed rerender_written patch s =
    patched_session patch (if rerender_written then reset_playback s else s)

-- The failures of both.
unfoldable pub change_refused : String → ReaderSession → ReaderSession
change_refused text s = with_error (some text) s

-- The state of editing and of narrating again.
pub record ChunkEditing : Type 0 where
  pub editing_chunk_index : Option ℕ
  pub edit_text : String
  pub reprocessing_chunk_index : Option ℕ
  pub reprocess_error : Option String

unfoldable pub start_reprocess : ℕ → ChunkEditing → ChunkEditing
start_reprocess index e = record e {
  reprocessing_chunk_index = some index;
  reprocess_error = none;
  editing_chunk_index = none;
}

unfoldable pub reprocessed : StreamJob → ReaderSession → ChunkEditing → ReaderSession × ChunkEditing
reprocessed patch s e = (patched_session patch s, record e { reprocessing_chunk_index = none })

unfoldable pub reprocess_failed : String → ChunkEditing → ChunkEditing
reprocess_failed text e = record e { reprocess_error = some text; reprocessing_chunk_index = none }

unfoldable pub version_changed :
    StreamJob → ReaderSession → ChunkEditing → ReaderSession × ChunkEditing
version_changed patch s e = (patched_session patch s, record e { reprocess_error = none })

unfoldable pub version_failed : String → ChunkEditing → ChunkEditing
version_failed text e = record e { reprocess_error = some text }

-- `handleStartEdit` with the chunk's text, and `handleCancelEdit`.
unfoldable pub start_edit : ℕ → String → ChunkEditing → ChunkEditing
start_edit index text e = record e { edit_text = text; editing_chunk_index = some index }

unfoldable pub cancel_edit : ChunkEditing → ChunkEditing
cancel_edit e = record e { editing_chunk_index = none; edit_text = "" }
