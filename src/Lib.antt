-- ===== src/Lib.antt =====
-- Sniper with approximate memory: a model of the parts of the simulator that this repository changes,
-- and the theorems that make them correct.
--
-- A simulated program declares addresses as approximate through commands to the magic server, which
-- keeps them in an ordered set with counters for each byte. The caches ask the server whether a block
-- holds an approximate byte: a set keeps its ways in two segments, one for exact and one for
-- approximate blocks, and replaces within the segment of the new block. When a fault injector is
-- configured, the sets hold the blocks' bytes, and the injector asks the magic server byte by byte which
-- of them it may change. The DRAM controller keeps the blocks' bytes behind the caches, and tells the
-- magic server of each access, which derives the bytes' lifetimes from the times of the accesses.
--
-- The files, each with its children of the same name:
--   Base            numbers as machine words, loops, and lemmas on lists
--   BlockInfo       what the caches use of `CacheBlockInfo`, and the tests on a block in
--                   common/core/memory_subsystem/cache/cache_set.cc
--   Lru2            common/core/memory_subsystem/cache/cache_set_lru2.cc: `CacheSetLRU2`, its ages and
--                   the choice of a victim
--   CacheSet        common/core/memory_subsystem/cache/cache_set.cc: `create`, `read_line`, `write_line`,
--                   `find`, `invalidate`, `insert`, over any replacement policy; Policy is that
--                   interface, and Lru2Laws its instance for `CacheSetLRU2`
--   ApproxVars      common/system/magic_server.h: class `appvar` and the set of them
--   MagicServer     common/system/magic_server.cc: `add_approx`, `del_approx`, `is_approx`,
--                   `is_block_approx`, `approx_addr_setnum`, `approx_block_setnum`, `add_read_acc`,
--                   `add_write_acc`, `reset_cnters`, `upsave_cnters`; its child Commands has the cases
--                   of `Magic_unlocked` that change the registry, and Lifetime `update_liftime`
--   FaultInjection  common/fault_injection/fault_injection.cc and fault_injector_random.cc
--   Cache           common/core/memory_subsystem/cache/cache.cc: `create`, `access_single_line`,
--                   `insert_single_line`, `invalidate_single_line`, `peek_single_line`, `update_counters`,
--                   `update_hits`, composed of the sets, the magic server and the injector
--   Dram            common/core/memory_subsystem/pr_l1_pr_l2_dram_directory_msi/dram_cntlr.cc:
--                   `get_data_from_dram`, `put_data_to_dram`, `update_page_acc`, `get_last_page_acc`,
--                   `add_related_appvar`, `get_pagevar` (`find_page`), `add_pagevar`
--
--   CacheCntlr      common/core/memory_subsystem/parametric_dram_directory_msi/cache_cntlr.cc. Update:
--                   `write_cache_block`, `update_cache_block`; Insertion: `insert_cache_block`,
--                   `access_dram`; Directory: the requests to the directory and the handlers of its
--                   messages; Waiters: `handle_msg`, which is `handleMsgFromDramDirectory`; Mshr:
--                   `cleanup_mshr`; Counters: `update_counters`; Prefetching: `train_prefetcher`,
--                   and `run_prefetch`, which is `Prefetch`; Request: `process_shmem_req`, which is
--                   `processShmemReqFromPrevCache`, and `copy_data_from_next_level`; MemOps:
--                   `process_mem_op`, which is `processMemOpFromCore`, and `access_cache`
--
-- The controllers are a hierarchy of masters, named by numbers: which controllers are before or
-- behind one is fixed by its `Config`, and the state of all of them is one record that a step changes.
-- A controller sees its cache by address, as the lines that it holds with their states and bytes; it
-- is a cache without a fault injector that keeps its blocks' bytes. A walk to the previous levels
-- takes fuel, for which the number of levels is enough, by the theorem of Update/Fuel; a message that
-- is sent is put on a list.
--
-- State is passed on explicitly: an operation takes the record of its object and returns the new one.
-- An assertion that fails is `none`, since it stops the simulator. Words are natural numbers with the
-- wrap-around written out. Counted loops are structural recursion on the number of rounds; `log2` runs
-- on fuel 32, which is enough for every 32-bit number by `log2_bounds`. The loops of the commands on a
-- range have a 32-bit variable and do not end for a size of 2 ^ 32 or more, where the model is `none`.
--
-- Parameters: `CacheBlockInfo` with its documented behaviour (`BlockLaws`), the splitting of an address
-- (`Addressing`), the random generators of the C++ library (`Rng`) and the DRAM behind a last-level
-- cache (`DramInterface`); none is in the repository. The choice of the line that an insertion evicts,
-- what a woken thread does until it hands its line back, what the network thread does while an
-- operation waits for it, which states of a line may be read and written, and the time are parameters
-- of the controllers. A request to the next cache takes fuel, for which the number of caches from there
-- on is enough, by the theorem of Request/Fuel. Not modelled: locks, since every operation runs under
-- its caller's lock; output to the terminal; hooks; the performance models; the power model under
-- mcpat; the memory manager; the programs that run in the simulator; a bound on the misses of a first
-- level; and what the macros ENABLE_TRACK_SHARING_PREVCACHES, ENABLE_TRANSITIONS and
-- PRIVATE_L2_OPTIMIZATION switch on.
pub mod ApproxVars
pub mod Base
pub mod BlockInfo
pub mod Cache
pub mod CacheCntlr
pub mod CacheSet
pub mod Dram
pub mod FaultInjection
pub mod Lru2
pub mod MagicServer
