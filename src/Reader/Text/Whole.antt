-- ===== src/Reader/Text/Whole.antt =====
-- The blocks put together are the text: nothing is lost and nothing is shown twice.
use readflow.Common.{
  ℕ, zero, suc, ◌+◌, ◌-◌, ◌≤◌, ◌≡◌, refl, ap, ◌∙◌, sym, List, [], ◌∷◌, ◌++◌, append_assoc,
  append-nil, length, take, drop, max, ltb, leb, Bool-cases, inl, inr, arith, subst,
}
use readflow.Chunk.{Chunk, sort_chunks}
use readflow.Reader.Text.{
  ReaderTextSegment, slice, upcoming_segment, segments_from, build_reader_text_segments,
  full_tail_render_chars, upcoming_preview_chars,
}

module _ {A : Type 0} where
  abbrev pub shown_text : List (ReaderTextSegment A) → List A
  shown_text [] = []
  shown_text (s ∷ ss) = s.text ++ shown_text ss

  abbrev pub hidden_text : List (ReaderTextSegment A) → ℕ
  hidden_text [] = 0
  hidden_text (s ∷ ss) = s.hidden_chars + hidden_text ss

  take-nil : (n : ℕ) → take {A = A} n [] ≡ []
  take-nil zero = refl
  take-nil (suc n) = refl

  take-all : (n : ℕ) (xs : List A) → length xs ≤ n → take n xs ≡ xs
  take-all n [] h = take-nil n
  take-all zero (x ∷ xs) h = absurd (omega arith)
  take-all (suc n) (x ∷ xs) h = ap (◌∷◌ x) (take-all n xs (omega arith))

  take-add : (a k b : ℕ) (xs : List A) → b ≡ a + k → take a xs ++ take k (drop a xs) ≡ take b xs
  take-add zero k b xs e = let same : k ≡ b = omega arith in ap (λ n. take n xs) same
  take-add (suc a) k zero xs e = absurd (omega arith)
  take-add (suc a) k (suc b) [] e = take-nil k
  take-add (suc a) k (suc b) (x ∷ xs) e = ap (◌∷◌ x) (take-add a k b xs (omega arith))

  take-slice : (a b : ℕ) (xs : List A) → a ≤ b → take a xs ++ slice a b xs ≡ take b xs
  unfolding slice
  take-slice a b xs h = take-add a (b - a) b xs (omega arith)

  take-slice-append :
      (a b : ℕ) (xs ys : List A) → a ≤ b → take a xs ++ (slice a b xs ++ ys) ≡ take b xs ++ ys
  take-slice-append a b xs ys h =
      rw (← append_assoc (take a xs) (slice a b xs) ys, take-slice a b xs h) refl

  upcoming_segment-whole :
      (cursor : ℕ) (source : List A)
      → take cursor source ++ shown_text (upcoming_segment cursor source)
        ≡ take (length source - hidden_text (upcoming_segment cursor source)) source
  unfolding upcoming_segment
  upcoming_segment-whole cursor source = elim (Bool-cases (ltb cursor (length source))) [
    | inr past ↦ rw past (
        let long : length source ≤ cursor = ground arith in
        append-nil _
        ∙ take-all cursor source long
        ∙ sym (take-all (length source - 0) source (omega arith)))
    | inl more ↦ elim (Bool-cases (leb (length source - cursor) full_tail_render_chars)) [
      | inl small ↦
          rw (more, small)
            (let remaining = length source - cursor in
              let end : cursor + remaining ≡ length source - (remaining - remaining + 0) =
                ground arith in
              rw (append-nil (slice cursor (cursor + remaining) source)) (
                take-slice cursor (cursor + remaining) source (omega arith)
                ∙ ap (λ n. take n source) end))
      | inr large ↦
          rw (more, large)
            (let end : cursor + upcoming_preview_chars
                  ≡ length source - (length source - cursor - upcoming_preview_chars + 0) =
                ground arith in
              rw (append-nil (slice cursor (cursor + upcoming_preview_chars) source)) (
                take-slice cursor (cursor + upcoming_preview_chars) source (omega arith)
                ∙ ap (λ n. take n source) end))
    ]
  ]

  segments_from-whole :
      (cursor : ℕ) (chunks : List Chunk) (source : List A)
      → take cursor source ++ shown_text (segments_from cursor chunks source)
        ≡ take (length source - hidden_text (segments_from cursor chunks source)) source
  unfolding segments_from
  segments_from-whole cursor [] source = upcoming_segment-whole cursor source
  segments_from-whole cursor (c ∷ cs) source =
      let start = max cursor c.char_start in
      let end = max start c.char_end in
      let rest = segments_from end cs source in
      let chunk = take-slice-append start end source (shown_text rest) (omega arith) in
      let whole = chunk ∙ segments_from-whole end cs source in
      let once : hidden_text rest ≡ 0 + hidden_text rest = omega arith in
      let twice : hidden_text rest ≡ 0 + (0 + hidden_text rest) = omega arith in
      elim (Bool-cases (ltb cursor start)) [
        | inl gap ↦ rw gap (
            take-slice-append cursor start source (slice start end source ++ shown_text rest)
              (omega arith)
            ∙ whole
            ∙ ap (λ n. take (length source - n) source) twice)
        | inr touching ↦
            let same : cursor ≡ start = ground arith in
            rw touching (
              subst
                (λ k.
                  take k source ++ (slice start end source ++ shown_text rest)
                  ≡ take (length source - hidden_text rest) source)
                (sym same) whole
              ∙ ap (λ n. take (length source - n) source) once)
      ]

  -- The texts of the blocks, one after the other, are the source text up to what the last block hides:
  -- whatever ranges the chunks have, no character is lost, repeated or moved.
  pub build_reader_text_segments-whole :
      (chunks : List Chunk) (source : List A)
      → shown_text (build_reader_text_segments chunks source)
        ≡ take (length source - hidden_text (build_reader_text_segments chunks source)) source
  unfolding build_reader_text_segments
  build_reader_text_segments-whole chunks source = segments_from-whole 0 (sort_chunks chunks) source
