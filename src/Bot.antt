-- ===== src/Bot.antt =====
-- The bot's dispatch of lines, bot/.
pub mod Filter
pub mod Context
pub mod Commands
pub mod Pollers
mod Tests
pub mod Servers
mod ServersTests
