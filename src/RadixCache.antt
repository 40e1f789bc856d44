-- ===== src/RadixCache.antt =====
-- The cache of nodes of a compute node: include/RadixCache.h, src/RadixCache.cpp and the entry of
-- include/NormalCache.h, one operation at a time.
pub mod Entry
pub mod Node
pub mod Header
pub mod Charged
pub mod Content
pub mod Cache
pub mod Sizes
pub mod Accounts
pub mod Placed
pub mod Longest
pub mod Search
pub mod Range
pub mod Reach
pub mod Found
pub mod Tests
