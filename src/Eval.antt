-- ===== src/Eval.antt =====
-- The eager builtin operators of inquint/src/eval/builtins_eager.rs.
mod Tests
pub mod Arith
pub mod Lists
pub mod SetOps
pub mod Maps
pub mod Opcode
pub mod Dispatch
