-- ===== src/Drivers.antt =====
-- The drivers of the bot, which connect its commands to the collections.
pub mod Factoids
mod Tests
pub mod Karma
mod KarmaTests
pub mod Urls
mod UrlsTests
pub mod Quotes
mod QuotesTests
pub mod Reminders
mod RemindersTests
mod OneValue
pub mod Stats
mod StatsTests
