-- ===== src/Reader/Text.antt =====
-- web/src/features/reader/reader-text.ts: the text laid out in blocks, and `getChunkText` of
-- chunk-utils.ts. A text is a list of characters of any type; a key is what it is made from.
pub mod Whole
use mathlib.Core.List.{reverse}
use readflow.Common.{
  ℕ, zero, suc, ◌+◌, ◌-◌, Bool, true, false, Option, none, some, List, [], ◌∷◌, ◌++◌, leb, ltb, max,
  length, take, drop, if◌then◌else◌,
}
use readflow.Chunk.{Chunk, sort_chunks}

abbrev pub full_tail_render_chars : ℕ
full_tail_render_chars = 200_000

abbrev pub upcoming_preview_chars : ℕ
upcoming_preview_chars = 12_000

-- `gap-3`, `chunk-3` and `upcoming`.
pub data SegmentKey : Type 0 where
  gap_key chunk_key : ℕ → SegmentKey
  upcoming_key : SegmentKey

pub data SegmentKind : Type 0 where
  chunk_kind upcoming_kind : SegmentKind

pub record ReaderTextSegment (A : Type 0) : Type 0 where
  pub key : SegmentKey
  pub kind : SegmentKind
  pub chunk_index : Option ℕ
  pub text : List A
  pub hidden_chars : ℕ

-- `slice(from, to)` for a start and an end that are not negative.
unfoldable pub slice {ℓ} : {A : Type ℓ} → ℕ → ℕ → List A → List A
slice from to xs = take (to - from) (drop from xs)

abbrev chunk_segment : {A : Type 0} → ℕ → ℕ → ℕ → List A → ReaderTextSegment A
chunk_segment index start end source = record {
  key = chunk_key index;
  kind = chunk_kind;
  chunk_index = some index;
  text = slice start end source;
  hidden_chars = 0;
}

abbrev gap_segment : {A : Type 0} → ℕ → ℕ → List A → List (ReaderTextSegment A)
gap_segment cursor start source =
    if ltb cursor start
    then record {
      key = gap_key cursor;
      kind = upcoming_kind;
      chunk_index = none;
      text = slice cursor start source;
      hidden_chars = 0;
    }
      ∷ []
    else []

-- The last block, behind the chunks.
unfoldable pub upcoming_segment : {A : Type 0} → ℕ → List A → List (ReaderTextSegment A)
upcoming_segment cursor source =
    let remaining = length source - cursor in
    let rendered =
      if leb remaining full_tail_render_chars then remaining else upcoming_preview_chars in
    if ltb cursor (length source)
    then record {
      key = upcoming_key;
      kind = upcoming_kind;
      chunk_index = none;
      text = slice cursor (cursor + rendered) source;
      hidden_chars = remaining - rendered;
    }
      ∷ []
    else []

-- The loop over the sorted chunks, with the block behind them.
unfoldable pub segments_from : {A : Type 0} → ℕ → List Chunk → List A → List (ReaderTextSegment A)
segments_from cursor [] source = upcoming_segment cursor source
segments_from cursor (c ∷ cs) source =
    let start = max cursor c.char_start in
    let end = max start c.char_end in
    gap_segment cursor start source
    ++ chunk_segment c.index start end source ∷ segments_from end cs source

unfoldable pub build_reader_text_segments :
    {A : Type 0} → List Chunk → List A → List (ReaderTextSegment A)
build_reader_text_segments chunks source = segments_from 0 (sort_chunks chunks) source

-- `trim` for characters of which some are blank.
abbrev drop_blank : {A : Type 0} → (A → Bool) → List A → List A
drop_blank blank [] = []
drop_blank blank (x ∷ xs) = if blank x then drop_blank blank xs else x ∷ xs

unfoldable pub trim : {A : Type 0} → (A → Bool) → List A → List A
trim blank xs = reverse (drop_blank blank (reverse (drop_blank blank xs)))

unfoldable pub get_chunk_text : {A : Type 0} → (A → Bool) → Chunk → List A → List A
get_chunk_text blank c source = trim blank (slice c.char_start c.char_end source)
