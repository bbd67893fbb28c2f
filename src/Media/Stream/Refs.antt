-- ===== src/Media/Stream/Refs.antt =====
-- The refs of the append window of web/src/lib/media-source.ts and its scan of the manifest.
use readflow.Common.{
  ℕ, suc, Bool, true, false, not, Option, none, some, List, [], ◌∷◌, ◌++◌, String, leb, or_else,
  str_eq, if◌then◌else◌,
}
use readflow.Common.Sets.{has, add, nat_eq}
use readflow.Chunk.{Chunk}
use readflow.Reader.Playback.{is_url}

-- 3 seconds.
abbrev pub append_retry_backoff : ℕ
append_retry_backoff = 3000

pub record QueuedChunk : Type 0 where
  pub index : ℕ
  pub url : String
  pub position : ℕ

pub record StreamRefs : Type 0 where
  pub active_stream_key : Option String
  pub has_source_buffer : Bool
  pub processing_queue : Bool
  pub init_segment_appended : Bool
  pub append_queue : List QueuedChunk
  pub appended_indexes : List ℕ
  pub pending_indexes : List ℕ
  pub window_cursor : ℕ
  pub append_retry_at : ℕ
  pub quota_retried_indexes : List ℕ
  pub appended_chunks_count : ℕ
  pub last_player_error : Option String
  pub has_ended : Bool

-- What the scan of the window leaves: the cursor, the pending indexes and the queue.
pub record Scan : Type 0 where
  pub cursor : ℕ
  pub pending : List ℕ
  pub queue : List QueuedChunk

abbrev pub entry_of : Chunk → ℕ → QueuedChunk
entry_of c position = record {
  index = c.index;
  url = or_else c.segment_url "";
  position = position;
}

-- The loop over `manifest.chunks` from the cursor on.
unfoldable pub scan_window : ℕ → List ℕ → Scan → List Chunk → Scan
scan_window window_end appended found [] = found
scan_window window_end appended found (c ∷ cs) =
    let skipped = scan_window window_end appended (record found { cursor = suc found.cursor }) cs in
    let taken =
      scan_window window_end appended
        (record {
          cursor = suc found.cursor;
          pending = add c.index found.pending;
          queue = found.queue ++ entry_of c found.cursor ∷ [];
        })
        cs in
    if leb window_end c.start_seconds
    then found
    else if not (is_url c.segment_url)
    then skipped
    else if has c.index appended
    then skipped
    else if has c.index found.pending
    then skipped
    else taken

abbrev pub is_key : Option String → String → Bool
is_key none key = false
is_key (some active) key = str_eq active key

abbrev pub is_some_key : Option String → Bool
is_some_key none = false
is_some_key (some key) = not (str_eq key "")

abbrev pub is_empty {ℓ} : {A : Type ℓ} → List A → Bool
is_empty [] = true
is_empty (x ∷ xs) = false
