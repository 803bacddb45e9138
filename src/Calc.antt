-- ===== src/Calc.antt =====
-- The calculator of util/calc/calc.go: tokens and their tables, the shunting-yard conversion to
-- reverse Polish order, and the evaluation of the result.
pub mod Token
pub mod Shunt
pub mod Eval
pub mod Lex
mod Tests
mod LexTests
