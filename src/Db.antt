-- ===== src/Db.antt =====
-- db/: the keys, the buckets of the BoltDB library and the collections on them.
pub mod Key
pub mod Bolt
pub mod Keyed
pub mod Scan
pub mod IndexedScan
pub mod Fsck
pub mod Indexed
pub mod Conf
mod Tests
mod ConfTests
mod ScanTests
mod FsckTests
