-- ===== src/Reader.antt =====
-- The reader's pure state: web/src/features/reader/reader-model.ts, one module per section of it.
pub mod Patch
pub mod Active
pub mod Playback
pub mod Timeline
pub mod Progress
pub mod Slots
pub mod Text
pub mod Page
pub mod Waveforms
pub mod Controls
pub mod Handlers
pub mod Changes
pub mod Session
mod Tests
