-- ===== src/Datetime.antt =====
-- util/datetime: the tokens of dates, what the parser collects from them, and the time it makes.
pub mod Time
pub mod State
pub mod Setters
pub mod Calls
pub mod Resolve
pub mod Week
pub mod Tables
pub mod ZoneTable
pub mod Words
pub mod Lex
pub mod Tests
pub mod LexTests
