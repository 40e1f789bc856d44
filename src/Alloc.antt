-- ===== src/Alloc.antt =====
-- The allocators: chunks of a memory node (include/GlobalAllocator.h), blocks of a thread
-- (include/LocalAllocator.h; include/CXLAllocator.h is the same text), and `DSM::alloc` of
-- include/DSM.h, which joins them through src/Directory.cpp.
pub mod Global
pub mod Local
pub mod Dsm
pub mod Tests
