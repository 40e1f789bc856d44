-- ===== src/Tree.antt =====
-- src/Tree.cpp: the radix tree in remote memory.
pub mod Memory
pub mod Client
pub mod Write
pub mod Search
pub mod Insert
pub mod Shape
pub mod Quiet
pub mod Slots
pub mod Holds
pub mod Lookup
pub mod Written
pub mod Update
pub mod Range
pub mod Scan
pub mod Tests
