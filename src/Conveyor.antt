-- ===== src/Conveyor.antt =====
-- The chunk conveyor: web/src/features/reader/conveyor-physics.ts, with the slot geometry of
-- web/src/lib/waveform-timeline.ts that it shares with the timeline.
pub mod Slots
pub mod Search
pub mod Number
pub mod Gesture
pub mod Layout
mod Tests
