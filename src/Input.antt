-- ===== src/Input.antt =====
-- The touches and keys of the web client: web/src/lib/sheet-gesture.ts, web/src/hooks/useSheetDismissGesture.ts and
-- web/src/hooks/usePlaybackShortcuts.ts.
pub mod Sheet
pub mod Shortcuts
mod Tests
