-- ===== src/Tui.antt =====
-- internal/tui: what the terminal client knows, and what it does with events and keys. Drawing, the
-- text fields' editing and the viewport are those of a library.
pub mod Timeline
pub mod Chat
pub mod Keys
pub mod Picker
pub mod Recall
pub mod Screen
pub mod Switch
pub mod Update
mod Examples
