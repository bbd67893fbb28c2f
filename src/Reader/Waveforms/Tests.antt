-- ===== src/Reader/Waveforms/Tests.antt =====
-- The queue of waveforms on one chunk that is narrated again while its peaks are fetched.
use readflow.Common.{ℕ, ◌≡◌, refl, none, some, [], ◌∷◌, false}
use readflow.Common.Sets.{get, nat_eq, add}
use readflow.Chunk.{Chunk, ChunkStatus}
use readflow.Reader.Waveforms.{ChunkWaveforms, chunks_changed, settle, enqueue, process_queue}
use readflow.Reader.Waveforms.Requested.{is_requested}

abbrev narrated : ℕ → Chunk
narrated version = record {
  index = 3;
  status = ChunkStatus.written;
  duration_seconds = 4000;
  start_seconds = 0;
  plan_version = 1;
  version = version;
  voice_id = "suzy";
  segment_url = some "/media/seg";
  peaks_url = some "/media/peaks";
  deprecated = false;
  reprocessing = false;
  char_start = 0;
  char_end = 9;
}

abbrev no_waveforms : ChunkWaveforms ℕ
no_waveforms = record {
  chunks = [];
  fetched = [];
  inflight = [];
  queue = [];
  is_processing = false;
  fetching = none;
  waveforms = [];
  requests = [];
}

-- A new take that comes while the old one's peaks are fetched is not asked for when that is over, and the
-- old peaks are shown.
abbrev renewed : ChunkWaveforms ℕ
renewed =
    settle (some 7)
      (chunks_changed (narrated 2 ∷ []) (chunks_changed (narrated 1 ∷ []) no_waveforms))

stale_peaks_run : (get 3 renewed.waveforms ≡ some 7) × (is_requested 3 renewed ≡ false)
unfolding settle chunks_changed enqueue process_queue add
stale_peaks_run = (refl, refl)
