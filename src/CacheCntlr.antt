-- ===== src/CacheCntlr.antt =====
-- The cache controllers, common/core/memory_subsystem/parametric_dram_directory_msi/cache_cntlr.cc and
-- cache_cntlr.h: their data, and the operations of one controller on its own cache. A controller is
-- a master, named by a number, and the caches are seen by address: which line they hold, with its
-- state and its bytes. `none` is a failed assertion, or a null pointer that the code must not follow.
pub mod Update
pub mod Insertion
pub mod Directory
pub mod Waiters
pub mod Mshr
pub mod Counters
pub mod Prefetching
pub mod Request
pub mod MemOps
mod Tests
mod QueueTests
use sniper.Base.{
  ℕ, ◌+◌, ◌≡◌, Bool, true, false, not, ◌&&◌, Option, none, some, List, [], ◌∷◌, ◌++◌, ◌==◌,
  if◌then◌else◌, take, drop, length,
}
use sniper.Base.Results.{◌>>=◌, ◌>>◌, assert}

-- `CacheState::cstate_t`, as `CStateString` lists it.
pub data CState : Type 0 where
  invalid shared shared_upgrading modified exclusive owned : CState
  invalid_cold invalid_evict invalid_coherency : CState

-- `new_cstate < CacheState::NUM_CSTATE_STATES`: not one of the states of the statistics only.
abbrev pub is_cstate : CState → Bool
is_cstate invalid_cold = false
is_cstate invalid_evict = false
is_cstate invalid_coherency = false
is_cstate _ = true

-- `Transition::reason_t`
pub data Reason : Type 0 where
  core_rd core_wr core_rdex upgrade evict back_inval coherency : Reason

-- `Core::mem_op_t`
pub data MemOp : Type 0 where
  read read_ex write : MemOp

infix 50 ◌=s◌
abbrev pub ◌=s◌ : CState → CState → Bool
invalid =s invalid = true
shared =s shared = true
shared_upgrading =s shared_upgrading = true
modified =s modified = true
exclusive =s exclusive = true
owned =s owned = true
invalid_cold =s invalid_cold = true
invalid_evict =s invalid_evict = true
invalid_coherency =s invalid_coherency = true
_ =s _ = false

-- A line of a cache: its block's state and options, and its bytes.
pub record Line : Type 0 where
  pub cstate : CState
  pub data_buf : List ℕ
  pub prefetch : Bool
  pub warmup : Bool

-- What the constructor and `setPrevCacheCntlrs`, `setNextCacheCntlr` and `setDRAMDirectAccess` leave.
pub record Config : Type 0 where
  pub prev_cache_cntlrs : List ℕ
  pub next_cache_cntlr : Option ℕ
  pub core_id : ℕ
  pub perfect : Bool
  pub passthrough : Bool
  pub coherent : Bool
  pub writethrough : Bool
  pub block_size : ℕ
  pub writeback_time : ℕ
  pub dram_direct : Bool

-- `HitWhere::where_t`, as far as the controllers tell it: a miss, a cache with or without a sibling
-- that had the line, or the DRAM.
pub data HitWhere : Type 0 where
  miss : HitWhere
  at_cache : ℕ → Bool → HitWhere
  at_dram : HitWhere

-- The statistics of accesses and of changes of a block's state; an array over the states is a function.
pub record Stats : Type 0 where
  pub evict_state : CState → ℕ
  pub backinval : CState → ℕ
  pub evict_prefetch : ℕ
  pub evict_warmup : ℕ
  pub invalidate_prefetch : ℕ
  pub invalidate_warmup : ℕ
  pub coherency_downgrades : ℕ
  pub coherency_upgrades : ℕ
  pub coherency_writebacks : ℕ
  pub coherency_invalidates : ℕ
  pub snoop_latency : ℕ
  pub hits_prefetch : ℕ
  pub hits_warmup : ℕ
  pub prefetches : ℕ
  pub total_latency : ℕ
  pub mshr_latency : ℕ
  pub loads_where : HitWhere → ℕ
  pub stores_where : HitWhere → ℕ

abbrev pub no_stats : Stats
no_stats = record {
  evict_state = λ c. 0;
  backinval = λ c. 0;
  evict_prefetch = 0;
  evict_warmup = 0;
  invalidate_prefetch = 0;
  invalidate_warmup = 0;
  coherency_downgrades = 0;
  coherency_upgrades = 0;
  coherency_writebacks = 0;
  coherency_invalidates = 0;
  snoop_latency = 0;
  hits_prefetch = 0;
  hits_warmup = 0;
  prefetches = 0;
  total_latency = 0;
  mshr_latency = 0;
  loads_where = λ w. 0;
  stores_where = λ w. 0;
}

-- The counters of one kind of access, loads or stores.
pub record AccessCounts : Type 0 where
  pub accesses : ℕ
  pub misses : ℕ
  pub overlapping_misses : ℕ
  pub approx_accesses : ℕ
  pub approx_misses : ℕ
  pub approx_accesses_2 : ℕ
  pub approx_misses_2 : ℕ
  pub accesses_state : CState → ℕ
  pub misses_state : CState → ℕ
  pub prefetch_accesses : ℕ

pub record AccessCounters : Type 0 where
  pub loads : AccessCounts
  pub stores : AccessCounts

abbrev pub no_accesses : AccessCounts
no_accesses = record {
  accesses = 0;
  misses = 0;
  overlapping_misses = 0;
  approx_accesses = 0;
  approx_misses = 0;
  approx_accesses_2 = 0;
  approx_misses_2 = 0;
  accesses_state = λ c. 0;
  misses_state = λ c. 0;
  prefetch_accesses = 0;
}

-- `CacheDirectoryWaiter`
pub record Waiter : Type 0 where
  pub exclusive_req : Bool
  pub is_prefetch : Bool
  pub cache_cntlr : ℕ
  pub t_issue : ℕ

-- `MshrEntry`, with its key in `Mshr`.
pub record MshrEntry : Type 0 where
  pub key : ℕ
  pub t_issue : ℕ
  pub t_complete : ℕ

-- A controller with its master: the cache, the eviction buffer with its address, the requests that
-- wait for the directory, in order, and the miss status registers.
pub record Cntlr : Type 0 where
  pub lines : ℕ → Option Line
  pub evicting : Option (ℕ × List ℕ)
  pub directory_waiters : ℕ → List Waiter
  pub mshr : List MshrEntry
  pub stats : Stats
  pub counters : AccessCounters

-- `ShmemMsg::msg_t`, the types that pass between a last-level cache and a directory.
pub data MsgType : Type 0 where
  ex_req sh_req upgrade_req inv_req flush_req wb_req : MsgType
  ex_rep sh_rep upgrade_rep inv_rep flush_rep wb_rep : MsgType

pub record Msg : Type 0 where
  pub msg_type : MsgType
  pub requester : ℕ
  pub receiver : ℕ
  pub address : ℕ
  pub data_sent : Option (List ℕ)

-- `DramCntlrInterface`, which is not in this repository.
pub record DramInterface : Type 1 where
  pub State : Type 0
  pub get_bytes : State → ℕ → Option (List ℕ × State)
  pub put_bytes : State → ℕ → List ℕ → Option State

-- `memcpy(line + offset, buf, n)`
abbrev pub copy_to : List ℕ → ℕ → List ℕ → List ℕ
copy_to line offset buf = take offset line ++ buf ++ drop (offset + length buf) line

abbrev pub state_of : Option Line → CState
state_of none = invalid
state_of (some line) = line.cstate

abbrev pub with_cstate : CState → Option Line → Option Line
with_cstate cstate none = none
with_cstate cstate (some line) = some (record line { cstate = cstate })

module _ (d : DramInterface) where
  -- All controllers, the memory behind them, and the messages that were sent, the last one first.
  pub record Hierarchy : Type 0 where
    pub cntlrs : ℕ → Cntlr
    pub dram : d.State
    pub sent : List Msg

  abbrev pub put : Hierarchy → ℕ → Cntlr → Hierarchy
  put h k c = record h { cntlrs = λ j. if j == k then c else h.cntlrs j }

  abbrev pub put_stats : Hierarchy → ℕ → Stats → Hierarchy
  put_stats h k s = put h k (record (h.cntlrs k) { stats = s })

  abbrev pub put_line : Hierarchy → ℕ → ℕ → Option Line → Hierarchy
  put_line h k address line =
      put h k
        (record (h.cntlrs k) { lines = λ x. if x == address then line else (h.cntlrs k).lines x })

  abbrev pub send : Hierarchy → Msg → Hierarchy
  send h msg = record h { sent = msg ∷ h.sent }

  -- `getCacheBlockInfo`
  abbrev pub get_cache_block_info : Hierarchy → ℕ → ℕ → Option Line
  get_cache_block_info h k address = (h.cntlrs k).lines address

  -- `getCacheState`
  abbrev pub get_cache_state : Hierarchy → ℕ → ℕ → CState
  get_cache_state h k address = state_of (get_cache_block_info h k address)

  -- `cache_block_info->setCState`
  abbrev pub set_cstate : Hierarchy → ℕ → ℕ → CState → Hierarchy
  set_cstate h k address cstate =
      put_line h k address (with_cstate cstate (get_cache_block_info h k address))

  -- `setCacheState`
  unfoldable pub set_cache_state : Hierarchy → ℕ → ℕ → CState → Option Hierarchy
  set_cache_state h k address cstate = elim (get_cache_block_info h k address) [
    | none ↦ none
    | some line ↦ some (put_line h k address (some (record line { cstate = cstate })))
  ]

  unfoldable pub invalidate_cache_block : Hierarchy → ℕ → ℕ → Option Hierarchy
  invalidate_cache_block h k address = do
    assert (not (get_cache_state h k address =s modified))
    assert (not (get_cache_state h k address =s invalid))
    some (put_line h k address none)

  -- `retrieveCacheBlock`, the bytes that it copies to `data_buf`.
  abbrev pub retrieve_cache_block : Hierarchy → ℕ → ℕ → Option (List ℕ)
  retrieve_cache_block h k address = elim (get_cache_block_info h k address) [
    | none ↦ none
    | some line ↦ some line.data_buf
  ]

  module _ (readable writable : CState → Bool) where
    unfoldable pub operation_permissible : Hierarchy → ℕ → ℕ → MemOp → Bool
    operation_permissible h k address read = readable (get_cache_state h k address)
    operation_permissible h k address read_ex = writable (get_cache_state h k address)
    operation_permissible h k address write = writable (get_cache_state h k address)
