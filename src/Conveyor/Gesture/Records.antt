-- ===== src/Conveyor/Gesture/Records.antt =====
-- The gestures of web/src/features/reader/conveyor-physics.ts and what their functions are given.
use readflow.Common.{Bool, Option, List}

pub data Motion : Type 0 where
  animated reduced : Motion

pub record PointerSample (A : Type 0) : Type 0 where
  pub x : A
  pub at_ms : A

pub record DraggingGesture (A : Type 0) : Type 0 where
  pub base_seconds : A
  pub offset_seconds : A
  pub pointer_start_x : A
  pub samples : List (PointerSample A)

pub record CoastingGesture (A : Type 0) : Type 0 where
  pub base_seconds : A
  pub offset_seconds : A
  pub speed : A

pub record SettlingGesture (A : Type 0) : Type 0 where
  pub base_seconds : A
  pub offset_seconds : A
  pub target_offset_seconds : A
  pub speed : A
  pub allows_unrendered_target : Bool
  pub has_reported_rest : Bool

pub data ConveyorGesture (A : Type 0) : Type 0 where
  dragging : DraggingGesture A → ConveyorGesture A
  coasting : CoastingGesture A → ConveyorGesture A
  settling : SettlingGesture A → ConveyorGesture A

pub record ConveyorBounds (A : Type 0) : Type 0 where
  pub max_seek_seconds : A
  pub max_visual_seconds : A

pub record SettleState (A : Type 0) : Type 0 where
  pub offset_seconds : A
  pub speed : A

pub record EndDragOptions (A : Type 0) : Type 0 where
  pub alignment_offset_seconds : Option A
  pub allows_unrendered_target : Bool

pub record SmoothedPlayheadInput (A : Type 0) : Type 0 where
  pub smoothed_seconds : A
  pub reported_seconds : A
  pub rate : A
  pub dt_seconds : A
  pub max_seconds : A
