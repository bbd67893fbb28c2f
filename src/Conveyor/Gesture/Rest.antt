-- ===== src/Conveyor/Gesture/Rest.antt =====
-- When a gesture commits, and where: over all frames, whatever their lengths and bounds.
use readflow.Common.{
  if◌then◌else◌, ◌≤◌, ◌≡◌, Bool, true, false, not, ◌&&◌, ◌||◌, Option, none, some, List, [], ◌∷◌,
  arith, All, length, subst,
}
use readflow.Conveyor.Number.{Number, at_most, clamp_seconds-range}
use readflow.Conveyor.Gesture.{
  Motion, animated, reduced, ConveyorGesture, dragging, coasting, settling, DraggingGesture,
  SettlingGesture, CoastingGesture, ConveyorBounds, EndDragOptions, end_drag, advance_conveyor,
  advance_settle, advance_coast, commit_limit, is_given,
}

module _ (n : Number) where
  open n use {Num, milli, plus, less}

  pub record Frame : Type 0 where
    pub dt : Num
    pub bounds : ConveyorBounds Num

  -- The bounds of a frame with the position committed in it.
  pub record Commit : Type 0 where
    pub bounds : ConveyorBounds Num
    pub at : Num

  add_commit : ConveyorBounds Num → Option Num → List Commit → List Commit
  add_commit bounds none commits = commits
  add_commit bounds (some at) commits = record { bounds = bounds; at = at } ∷ commits

  -- The commits over frames.
  unfoldable pub run : List Frame → ConveyorGesture Num → List Commit
  unfolding add_commit
  run [] g = []
  run (f ∷ fs) g =
      let (next, rest) = advance_conveyor n g f.dt f.bounds in
      add_commit f.bounds rest (run fs next)

  abbrev pub has_rested : ConveyorGesture Num → Bool
  has_rested (dragging g) = false
  has_rested (coasting g) = false
  has_rested (settling g) = g.has_reported_rest

  -- Only a tap on a chunk with audio may commit past the rendered run.
  abbrev pub may_pass : ConveyorGesture Num → Bool
  may_pass (dragging g) = false
  may_pass (coasting g) = false
  may_pass (settling g) = g.allows_unrendered_target

  abbrev pub is_committed : Option Num → Bool
  is_committed none = false
  is_committed (some at) = true

  -- A position at most the limit of its frame, and not negative where the limit is not.
  abbrev pub is_in_limit : Bool → ConveyorBounds Num → Num → Bool
  is_in_limit pass bounds at =
      at_most n at (commit_limit n pass bounds)
      && (less (commit_limit n pass bounds) (milli 0) || at_most n (milli 0) at)

  abbrev rest_in_limit : Bool → ConveyorBounds Num → Option Num → Bool
  rest_in_limit pass bounds none = true
  rest_in_limit pass bounds (some at) = is_in_limit pass bounds at

  -- One frame: a rest is delivered only by a gesture that has not rested, which then has; a gesture that
  -- rested stays so; what it may pass is kept; and a position is inside the limit.
  record IsStep (g : ConveyorGesture Num) (bounds : ConveyorBounds Num) (next : ConveyorGesture Num)
      (rest : Option Num) : Type 0 where
    once : (not (has_rested g) || (not (is_committed rest) && has_rested next)) ≡ true
    marks : (not (is_committed rest) || has_rested next) ≡ true
    keeps : may_pass next ≡ may_pass g
    inside : rest_in_limit (may_pass g) bounds rest ≡ true

  advance_settle-IsStep :
      (g : SettlingGesture Num) (dt : Num) (bounds : ConveyorBounds Num)
      → IsStep (settling g) bounds (advance_settle n g dt bounds).0 (advance_settle n g dt bounds).1
  unfolding advance_settle
  advance_settle-IsStep g dt bounds =
      let range =
        clamp_seconds-range n (plus g.base_seconds g.target_offset_seconds)
          (commit_limit n g.allows_unrendered_target bounds) in
      ground arith

  advance_coast-IsStep :
      (g : CoastingGesture Num) (dt : Num) (bounds : ConveyorBounds Num)
      → IsStep (coasting g) bounds (advance_coast n g dt bounds) none
  unfolding advance_coast
  advance_coast-IsStep g dt bounds = ground arith

  advance_conveyor-IsStep :
      (g : ConveyorGesture Num) (dt : Num) (bounds : ConveyorBounds Num)
      → IsStep g bounds (advance_conveyor n g dt bounds).0 (advance_conveyor n g dt bounds).1
  unfolding advance_conveyor
  advance_conveyor-IsStep (dragging g) dt bounds = ground arith
  advance_conveyor-IsStep (coasting g) dt bounds = ground (arith, advance_coast-IsStep g dt bounds)
  advance_conveyor-IsStep (settling g) dt bounds = ground (arith, advance_settle-IsStep g dt bounds)

  -- From any gesture on, over any frames: at most one position is committed, none if the gesture had
  -- rested, and it lies inside the rendered run of its frame, or the known timeline for a tap on audio.
  pub run-commits :
      (fs : List Frame) (g : ConveyorGesture Num)
      → (length (run fs g) ≤ (if has_rested g then 0 else 1))
        × All (λ c. is_in_limit (may_pass g) c.bounds c.at ≡ true) (run fs g)
  unfolding run add_commit
  run-commits [] g = (omega arith, tt)
  run-commits (f ∷ fs) g =
      let next = (advance_conveyor n g f.dt f.bounds).0 in
      let rest = (advance_conveyor n g f.dt f.bounds).1 in
      let step = advance_conveyor-IsStep g f.dt f.bounds in
      let (few, inside) = run-commits fs next in
      let kept =
        subst (λ p. All (λ c. is_in_limit p c.bounds c.at ≡ true) (run fs next)) step.keeps
          inside in
      added rest step.once step.marks step.inside few kept
    where
      added :
          (rest : Option Num)
          → (not (has_rested g)
              || (not (is_committed rest) && has_rested (advance_conveyor n g f.dt f.bounds).0))
            ≡ true
          → (not (is_committed rest) || has_rested (advance_conveyor n g f.dt f.bounds).0) ≡ true
          → rest_in_limit (may_pass g) f.bounds rest ≡ true
          → length (run fs (advance_conveyor n g f.dt f.bounds).0)
            ≤ (if has_rested (advance_conveyor n g f.dt f.bounds).0 then 0 else 1)
          → All
              (λ c. is_in_limit (may_pass g) c.bounds c.at ≡ true)
              (run fs (advance_conveyor n g f.dt f.bounds).0)
          → (length (add_commit f.bounds rest (run fs (advance_conveyor n g f.dt f.bounds).0))
              ≤ (if has_rested g then 0 else 1))
            × All
                (λ c. is_in_limit (may_pass g) c.bounds c.at ≡ true)
                (add_commit f.bounds rest (run fs (advance_conveyor n g f.dt f.bounds).0))
      added none once marks inside few kept = (ground arith, kept)
      added (some at) once marks inside few kept = (ground arith, (inside, kept))

  -- A release never rests at once, and may commit past the rendered run only for a tap that asks for it.
  end_drag-fresh :
      (g : DraggingGesture Num) (now px : Num) (motion : Motion) (bounds : ConveyorBounds Num)
      (options : EndDragOptions Num)
      → (has_rested (end_drag n g now px motion bounds options) ≡ false)
        × (may_pass (end_drag n g now px motion bounds options)
            ≡ (is_given n options.alignment_offset_seconds && options.allows_unrendered_target))
  unfolding end_drag
  end_drag-fresh g now px animated bounds options = ground arith
  end_drag-fresh g now px reduced bounds options = ground arith

  -- From a release on, over any frames: at most one position is committed; it is at most the end of the
  -- rendered run in its frame, or of the known timeline if a tap asked for that, and not negative unless
  -- that end is. So momentum never takes the audio past what is rendered.
  pub end_drag-commits :
      (g : DraggingGesture Num) (now px : Num) (motion : Motion) (bounds : ConveyorBounds Num)
      (options : EndDragOptions Num) (fs : List Frame)
      → (length (run fs (end_drag n g now px motion bounds options)) ≤ 1)
        × All
            (λ c.
              is_in_limit
                (is_given n options.alignment_offset_seconds && options.allows_unrendered_target)
                c.bounds
                c.at
              ≡ true)
            (run fs (end_drag n g now px motion bounds options))
  end_drag-commits g now px motion bounds options fs =
      let e = end_drag n g now px motion bounds options in
      let (fresh, pass) = end_drag-fresh g now px motion bounds options in
      let (few, inside) = run-commits fs e in
      (
        ground arith,
        subst (λ p. All (λ c. is_in_limit p c.bounds c.at ≡ true) (run fs e)) pass inside,
      )
