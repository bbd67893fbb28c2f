-- ===== src/Media.antt =====
-- The streaming player: web/src/lib/media-window.ts and web/src/lib/media-source.ts.
pub mod Window
pub mod Stream
pub mod Element
pub mod Eviction
pub mod Playback
pub mod Seek
mod Tests
