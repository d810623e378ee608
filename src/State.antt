-- ===== src/State.antt =====
-- inquint/src/state.rs: states, the flat arena of explored states, and the two seen-sets.
mod Tests
pub mod ListTable
pub mod Arena
pub mod Table
pub mod Seen
