-- ===== src/Collections.antt =====
-- collections/: what the collections do beyond passing calls on to db/.
pub mod PseudoRand
pub mod Fresh
pub mod Seen
pub mod Factoid
pub mod Keys
pub mod Latest
pub mod Newest
mod Tests
pub mod Karma
pub mod Urls
pub mod Stats
