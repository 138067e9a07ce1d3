-- ===== src/Shortcuts.antt =====
-- src/lib/keyboard-shortcuts.ts and src/lib/shortcut-registry.ts: chords, their accelerators, and the
-- conflicts of the commands' bindings.
pub mod Chords
pub mod Registry
pub mod Conflicts
pub mod Clear
pub mod Engine
pub mod Owners
pub mod Saved
pub mod Legacy
pub mod Migrated
pub mod Keydown
pub mod Synced
pub mod Labels
mod Examples
