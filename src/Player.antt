-- ===== src/Player.antt =====
-- The player above the media stream: web/src/player and web/src/features/reader/transport.ts.
pub mod Heard
pub mod Transport
pub mod Store
pub mod Provider
mod Tests
