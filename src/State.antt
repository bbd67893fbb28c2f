-- ===== src/State.antt =====
-- Client state outside the player: web/src/state.
pub mod Settings
pub mod Theme
pub mod AppStore
mod Tests
