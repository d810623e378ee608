-- ===== src/Temporal.antt =====
-- The temporal checker, inquint/src/temporal/.
mod Tests
pub mod Ltl
pub mod Semantics
pub mod Graph
pub mod Safety
pub mod Lasso
pub mod Classical
pub mod NnfMeaning
pub mod Expansion
pub mod Buchi
pub mod Product
pub mod Witness
