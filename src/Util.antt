-- ===== src/Util.antt =====
-- The string utilities of util/.
pub mod Utf8
pub mod Unicode
pub mod Lexer
pub mod Text
pub mod Nick
mod Tests
mod SinceTests
pub mod Colours
pub mod Pointer
pub mod Since
pub mod Plugin
mod PluginTests
