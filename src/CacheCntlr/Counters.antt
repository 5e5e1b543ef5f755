-- ===== src/CacheCntlr/Counters.antt =====
-- The access counters of a controller, `updateCounters` of
-- common/core/memory_subsystem/parametric_dram_directory_msi/cache_cntlr.cc. The counters of set 1
-- are those with a name that ends in `_2`.
pub mod Runs
pub mod Tally
use sniper.Base.{
  ℕ, Bool, true, false, not, ◌||◌, Option, none, some, List, [], ◌∷◌, ◌==◌, if◌then◌else◌, length,
  inc_u64,
}
use sniper.Base.Results.{◌>>=◌}
use sniper.MagicServer.{MagicServer, approx_block_setnum}
use sniper.CacheCntlr.{
  CState, ◌=s◌, MemOp, read, read_ex, write, MshrEntry, AccessCounts, AccessCounters,
}
use sniper.CacheCntlr.Update.{bump}
use sniper.CacheCntlr.Mshr.{find_mshr, in_progress, cleanup_mshr}

-- `Prefetch::prefetch_type_t`: `NONE`, `OWN` and `OTHER`.
pub data PrefetchType : Type 0 where
  no_prefetch own_prefetch other_prefetch : PrefetchType

-- `x++` under a condition.
abbrev pub inc_if : Bool → ℕ → ℕ
inc_if true x = inc_u64 x
inc_if false x = x

-- `approx_block_setnum(address, block_size) == n`
abbrev pub is_setnum : Option ℕ → ℕ → Bool
is_setnum none n = false
is_setnum (some k) n = k == n

-- An access that misses.
unfoldable pub count_miss : Option ℕ → Bool → CState → AccessCounts → AccessCounts
count_miss setnum overlapping state c = record c {
  misses = inc_u64 c.misses;
  approx_misses = inc_if (is_setnum setnum 0) c.approx_misses;
  approx_misses_2 = inc_if (is_setnum setnum 1) c.approx_misses_2;
  misses_state = bump c.misses_state state;
  overlapping_misses = inc_if overlapping c.overlapping_misses;
}

-- An access, hit or miss; `prefetches` is what the count of prefetches becomes.
unfoldable pub count_hit : Option ℕ → ℕ → CState → AccessCounts → AccessCounts
count_hit setnum prefetches state c = record c {
  prefetch_accesses = prefetches;
  accesses = inc_u64 c.accesses;
  approx_accesses = inc_if (is_setnum setnum 0) c.approx_accesses;
  approx_accesses_2 = inc_if (is_setnum setnum 1) c.approx_accesses_2;
  accesses_state = bump c.accesses_state state;
}

-- An access, which `missed` tells the outcome of; of a cache's own prefetch only the prefetch
-- counts.
unfoldable pub count_access :
    PrefetchType → Option ℕ → Bool → Bool → CState → AccessCounts → AccessCounts
count_access own_prefetch setnum missed overlapping state c = record c {
  prefetch_accesses = inc_u64 c.prefetch_accesses;
}
count_access no_prefetch setnum missed overlapping state c =
    let c1 = count_hit setnum c.prefetch_accesses state c in
    if missed then count_miss setnum overlapping state c1 else c1
count_access other_prefetch setnum missed overlapping state c =
    let c1 = count_hit setnum (inc_u64 c.prefetch_accesses) state c in
    if missed then count_miss setnum overlapping state c1 else c1

-- A store is a miss while an earlier miss of the line is in progress; a load then is a hit.
unfoldable pub count_mem_op :
    MemOp → PrefetchType → Option ℕ → Bool → Bool → CState → AccessCounters → AccessCounters
count_mem_op write kind setnum cache_hit overlapping state c = record c {
  stores = count_access kind setnum (not cache_hit || overlapping) overlapping state c.stores;
}
count_mem_op _ kind setnum cache_hit overlapping state c = record c {
  loads = count_access kind setnum (not cache_hit) overlapping state c.loads;
}

-- One access, as `updateCounters` is told of it, at the time `t_now`.
pub record Access : Type 0 where
  pub mem_op_type : MemOp
  pub address : ℕ
  pub cache_hit : Bool
  pub state : CState
  pub kind : PrefetchType
  pub t_now : ℕ

unfoldable pub update_counters :
    MagicServer
    → ℕ
    → ℕ
    → Access
    → AccessCounters × List MshrEntry
    → Option (AccessCounters × List MshrEntry)
update_counters ms block_size max_time a (c, mshr) = do
  mshr' ← cleanup_mshr max_time (length mshr) mshr
  some (
    count_mem_op a.mem_op_type a.kind (approx_block_setnum ms a.address block_size) a.cache_hit
        (in_progress a.t_now (find_mshr a.address mshr)) a.state c,
    mshr',
  )

unfoldable pub run_counters :
    MagicServer
    → ℕ
    → ℕ
    → List Access
    → AccessCounters × List MshrEntry
    → Option (AccessCounters × List MshrEntry)
run_counters ms block_size max_time [] s = some s
run_counters ms block_size max_time (a ∷ rest) s = do
  s' ← update_counters ms block_size max_time a s
  run_counters ms block_size max_time rest s'
