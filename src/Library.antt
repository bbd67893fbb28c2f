-- ===== src/Library.antt =====
-- The library screen: web/src/features/library/library-model.ts.
pub mod Folders
pub mod Selection
pub mod Filter
pub mod Moves
pub mod Page
pub mod Tree
mod Tests
mod PageTests
