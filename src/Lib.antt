-- ===== src/Lib.antt =====
-- Verification of HomeStore's own logic: block ids, the choice of chunks, the allocators of
-- single chunks and the cache of free blocks, the tracker of reads, checkpoints, the nodes of the index
-- B-tree, the journal that logs are written to, the groups of a log device, log stores, and the raft log
-- store.
--
-- The program keeps data blocks, an index and logs on devices that are split into chunks. An
-- allocator for each chunk hands out block ids, which consumers pass on and write to their journals;
-- at a checkpoint it writes what was committed to a superblock, from which it starts again. The index
-- keeps its keys in B-tree nodes of one page each. A replicated device keeps its raft log in a log
-- store, below which a log device writes groups of entries.
--
-- Prelude: numbers, Boolean tests, lists, bytes and orders that all parts share.
--
-- Blk (src/include/homestore/blk.h, src/lib/blkalloc/blk.cpp): BlkId and, in Blk/Multi, MultiBlkId.
-- The packed struct is a record of numbers; Fits says that they are in the range of their bit fields,
-- and to_integer packs them. The iterator of MultiBlkId is a loop on fuel; seven rounds are enough for
-- the six pieces that a value can have. The bytes of an id are a list, in little-endian order. The
-- interval sets of boost, by which two ids of several pieces compare, are a parameter.
--
-- Btree/Node (src/include/homestore/btree/detail/simple_node.hpp, btree_node.hpp): the fields of the
-- persistent header that the operations use, and the data area as a list of slots. Sizes in bytes that
-- are multiples of an entry are counted in slots; the free size is computed in bytes as in the code,
-- with its 32-bit arithmetic, and nentries has 30 bits. Failed release assertions and reads outside
-- the data area are none. Btree/Search (btree_node.hpp, variant_node.hpp): the binary search, on fuel
-- of one more than the number of entries, which is enough, find, match_range and get_any.
-- Btree/Keyed (btree_node.hpp, variant_node.hpp): insert, remove_one, update_one and put by key.
-- Btree/Ranged (variant_node.hpp): multi_remove and multi_put on the leaves.
--
-- Superblk (src/include/homestore/superblk_handler.hpp): superblk with the copy that the meta service
-- holds of it. Alloc/Append (src/lib/blkalloc/append_blk_allocator.cpp): AppendBlkAllocator; every
-- operation is one step, and Alloc/Append/Runs puts steps together to runs. A restart is the
-- constructor followed by on_meta_blk_found with what the meta service holds. Alloc/Bitmap
-- (src/lib/blkalloc/bitmap_blk_allocator.cpp): BitmapBlkAllocator over a bitset, a parameter whose laws
-- speak of single bits; its flush is split into acquiring the buffer, writing it and releasing it, with
-- reservations by other threads in between. Alloc/Fixed (src/lib/blkalloc/fixed_blk_allocator.cpp):
-- FixedBlkAllocator, with its queue as a list; the loops of load are on fuel, one round for each block
-- and one more.
--
-- BlkCache (src/lib/blkalloc/blk_cache_queue.cpp, blk_cache.h): the queues of SlabCacheQueue, and freeing and
-- allocation in one slab of FreeBlkCacheQueue. The circle of levels is on fuel, one round for each level,
-- and so are the pieces of an entry, one round for each block. The lookup tables are the functions whose
-- values they hold.
--
-- ReadTracker (src/lib/blkdata_svc/blk_read_tracker.cpp): BlkReadTracker; the hash map is a function from
-- record numbers, and the loop over the records of a block id is on fuel, one round for each record.
--
-- Checkpoint (src/lib/checkpoint/cp_mgr.cpp): CPManager, its CPs kept by number. Checkpoint/System puts it
-- and its threads together as a step relation, in which reading the pointer, counting, and the two
-- halves of cp_io_exit are steps of their own, and synchronize_rcu waits for the readers. Timers, the
-- watchdog and the deletion at shutdown are left out; CPGuard's stack is the rule that a nested guard is
-- on a CP that is held.
--
-- Journal (src/lib/device/journal_vdev.cpp): JournalVirtualDev::Descriptor, its chunks as a list of the
-- private data that they keep; Journal/Truncate has truncate and the reads of the stream. A chunk from
-- the pool is given by its number and time. An offset is a natural number. The recovery of the chunk
-- lists at start and the I/O are left out.
--
-- LogGroup (src/lib/logstore/log_group.cpp, log_dev.hpp, log_dev.cpp): LogGroup, with its buffers as the
-- bytes that records put into them, and the part of LogDev::read that finds a record in a group. Checksums
-- are left out.
--
-- HomeLogStore (src/lib/logstore/log_store.cpp, log_dev.cpp): HomeLogStore over StreamTracker, the
-- interface of the library's tracker, with the choice of the key in LogDev::truncate, up to which the
-- device is truncated. HomeLogStore/System has the runs
-- in which writes complete in the order of their lsns, as they do in append mode; a flush inside an
-- operation is completions before it. HomeLogStore/Device is one store with its device, which no other
-- store uses: LogDev keeps the records by log number and how many are flushed, flush makes groups of at
-- most as many records as LogDev::flush puts into one, and a key leads back to the data of its record,
-- which is what the layout of LogGroup is for. The journal's offset of a group is a parameter, space is
-- always found and writes do not fail, and the fuel of the flush loop is the number of records to flush, as
-- each group has one. HomeLogStore/Device/Window is a tracker for runs.
--
-- ChunkSelector (src/lib/device/round_robin_chunk_selector.cpp): RoundRobinChunkSelector as one thread
-- sees it, since each thread has its own index.
--
-- LogStore (src/include/homestore/logstore/log_store.hpp): the operations of HomeLogStore that the raft
-- log store calls, with the log that they act on, as an interface, which HomeLogStore/Device/HomeOps
-- fills with a store and its device; the runs of Raft/Tests are over that store. Raft (src/lib/replication/log_store/home_raft_log_store.cpp):
-- HomeRaftLogStore over that interface, its cache of 100 entries included. Entries are those of NuRaft, a
-- parameter with the assumption that serialization can be undone and starts with the term. The loop that
-- fills in dummy entries is on fuel, the number of the next slot, since it runs while the index is below
-- it.
--
-- Indices and log sequence numbers are natural numbers: a store lsn, which starts at -1, is kept as the
-- number one above it. Locks are not modelled: each operation runs alone, and a loop around a compare
-- and exchange is one step. Not modelled are metrics, logging, printing and debug assertions, and the
-- parts that mainly issue I/O or start other parts: the device managers, the data service, the
-- replication devices and services, and start-up. The allocator of variable sizes above its cache, the
-- log device around its groups, the meta block service, the tree operations above the nodes, nodes of
-- variable size and the write-back cache are not modelled here.
pub mod Prelude
pub mod Blk
pub mod Btree
pub mod Superblk
pub mod Alloc
pub mod LogStore
pub mod Raft
pub mod ReadTracker
pub mod ChunkSelector
pub mod Checkpoint
pub mod Journal
pub mod LogGroup
pub mod StreamTracker
pub mod HomeLogStore
pub mod BlkCache
