-- ===== src/Errors.antt =====
-- `QuintError` of inquint/src/error.rs by its code; messages and traces of expressions are left out.
use inquint.Prelude.{ℕ}

-- `panic` stands for a panic of the thread, which is no error value in the source. `evaluation`
-- stands for the codes that a parameter of the model raises.
pub data QuintError : Type 0 where
  qnt501 qnt502 qnt503 qnt505 qnt506 qnt507 qnt508 qnt510 qnt511 qnt599 qnt601 : QuintError
  panic : QuintError
  evaluation : ℕ → QuintError

-- `unsupported`, `undefined_var` and `overflow`.
abbrev pub unsupported : QuintError
unsupported = qnt501

abbrev pub undefined_var : QuintError
undefined_var = qnt502

abbrev pub overflow : QuintError
overflow = qnt601
