-- ===== src/Lib.antt =====
-- Hybrid-Heterogeneous-Memory is an adaptive radix tree in the memory of memory nodes, which compute
-- nodes read and write by one-sided remote operations. A client allocates leaves and nodes through
-- `DSM::alloc` (include/DSM.h), finds its way by the bytes of a key (include/Key.h) through headers
-- and entries (include/Node.h), and shares the work of the clients of one compute node by the lock
-- table (include/LocalLockTable.h) and by caches. The model is of the default configuration: fine
-- grained nodes, embedded locks, read delegation and write combining.
--
-- Prelude and Common: shared names, lists, families of threads; the constants of include/Common.h.
-- Key: include/Key.h. A key is the list of its bytes. `minus` takes a byte by a loop that borrows; it
--   is given two rounds of borrowing, which is enough for a byte, and `none` is the case that it is
--   not. Key.Prefix reads bytes by `get_partial`, `none` where it would read outside of the key.
-- Address: include/GlobalAddress.h, and `PackedGAddr` of include/Node.h.
-- Node.Types, Node.Header, Node.Entry, Node.Page: the node types, headers, entries and
--   pages of include/Node.h. The loop of `num_to_node_type` has as many rounds as types; `mismatch` is the loop of `Tree::insert` in
--   src/Tree.cpp that compares a key with a header.
-- Leaf: the leaf of include/Node.h, and `read_leaf` and `in_place_update_leaf` of src/Tree.cpp with the lock
--   in the leaf. A read of a leaf is a list of what its rounds see; clients that update a leaf take
--   their steps in any order. The write of a leaf may be met half done, with anything in front of the
--   byte of the lock, which is the last one of the leaf.
-- Alloc.Global, Alloc.Local, Alloc.Dsm: include/GlobalAllocator.h, include/LocalAllocator.h, and
--   `DSM::alloc` with the answer of `Directory::process_message` (src/Directory.cpp) to it, for one
--   target node and directory.
-- LockTable: include/LocalLockTable.h, one node of the table. A function of the source that waits is cut
--   at its waits: `request_...` is the part before, `may_...` the test of the wait, `enter_...` the
--   part behind it. LockTable.Combine and LockTable.Delegate run a queue of clients through these
--   parts; LockTable.Remote counts the remote locks that the handover path takes and gives up.
-- WrLock: include/WRLock.h. A thread is at a place of its call, and a step is one access of the word.
-- LocalCache: include/LocalCache.h, an operation at a time; the hash is a parameter.
-- HashTable: include/MyLocalHashTable.h; the comparison of the size with the load factor, a `float`, is a
--   parameter.
-- BitMap: include/Bitmap.h; a word of 64 bits is the list of its bits.
-- RdmaBuffer: include/RdmaBuffer.h, the pointers as addresses.
--
-- Tree: src/Tree.cpp. Tree.Memory is the remote memory as its operations show it, with the root entry, the
--   pages and the leaves by their addresses; Tree.Client is one client, between whose operations the
--   others may change the memory, as `env` says. Tree.Search, Tree.Write and Tree.Insert are `search` and
--   `insert` for a client whose cache has nothing of the key; Tree.Range and Tree.Scan are `range_query`
--   with the contexts of include/Node.h. `rounds` bounds the loops that go back to `next`; Tree.Lookup and
--   Tree.Update show that ten are enough when no one else works on the memory, since every round but
--   the last two passes a byte of the key. Tree.Shape says when the memory holds a tree, and Tree.Holds what
--   keys and values are in it and when it is a radix tree. An operation of the client meets no half-done
--   write of its own.
--
-- RadixCache: the cache of include/RadixCache.h and src/RadixCache.cpp, which `add_to_cache` fills with the pages that a client
--   reads; RadixCache.Entry is `CacheEntry` of include/NormalCache.h, RadixCache.Node the nodes and `_insert`
--   on them, RadixCache.Cache the other operations, one at a time and with the time as an argument. The
--   other files of the folder say what the nodes hold (Header, Content, Placed), what `free_size` counts
--   (Sizes, Charged, Accounts) and what a search finds (Longest, Search, Reach, Found).
-- NormalCache: the cache of src/NormalCache.cpp, which stands in for the other when the program is built with it:
--   a map from byte arrays to entries. `rounds` bounds `_evict`: one more than the list of evictions has pairs is
--   enough, since every round takes one of them. RadixCache.Range is the range search of both caches; it takes one
--   round for each key of the range, and one more.
--
-- Not modelled: the remote operations (src/DSM.cpp, src/rdma), connections and keepers, the updates of leaves out of
-- place, node locks and coroutines of src/Tree.cpp, the branches of the caches behind a compare-and-swap that another
-- thread was ahead of, their queues of freed entries, printing and benchmarks. They belong to
-- configurations that are off, call ibverbs, memcached, tbb and boost, or stand on such calls.
pub mod Prelude
pub mod Common
pub mod Key
pub mod Address
pub mod Node
pub mod Alloc
pub mod LockTable
pub mod WrLock
pub mod LocalCache
pub mod RdmaBuffer
pub mod Leaf
pub mod HashTable
pub mod BitMap
pub mod Tree
pub mod NormalCache
pub mod RadixCache
