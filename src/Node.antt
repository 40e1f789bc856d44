-- ===== src/Node.antt =====
-- include/Node.h: node types, headers, entries, pages and leaves of the radix tree.
pub mod Types
pub mod Header
pub mod Entry
pub mod Page
pub mod Tests
