-- ===== src/LockTable.antt =====
-- include/LocalLockTable.h: the locks that the threads and coroutines of one compute node share, so
-- that operations on one key queue up locally and all but the first are spared the remote work.
pub mod Slot
pub mod Write
pub mod Read
pub mod Handover
pub mod Combine
pub mod Delegate
pub mod Remote
pub mod Tests
