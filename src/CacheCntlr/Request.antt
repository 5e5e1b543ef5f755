-- ===== src/CacheCntlr/Request.antt =====
-- A request from the previous level, `processShmemReqFromPrevCache` and `copyDataFromNextLevel` of
-- common/core/memory_subsystem/parametric_dram_directory_msi/cache_cntlr.cc, for caches without a
-- prefetcher. A request recurses to the next cache, on fuel: the number of levels is enough.
pub mod Exclusive
pub mod Fuel
use sniper.Base.{
  ℕ, zero, suc, ◌+◌, ◌-◌, Bool, true, false, not, ◌&&◌, ◌||◌, Option, none, some, List, [], ◌∷◌,
  ◌==◌, if◌then◌else◌, inc_u64, length,
}
use sniper.Base.Results.{◌>>=◌, ◌>>◌, assert}
use sniper.MagicServer.{MagicServer, approx_block_setnum}
use sniper.CacheCntlr.{
  HitWhere, miss, at_cache, at_dram, CState, invalid, shared, modified, exclusive, ◌=s◌, Reason,
  upgrade, coherency, MemOp, read, read_ex, write, Line, Config, Stats, Cntlr, AccessCounters,
  MshrEntry, DramInterface, Hierarchy, put, put_stats, put_line, get_cache_block_info,
  get_cache_state, state_of, set_cstate, set_cache_state, invalidate_cache_block,
  retrieve_cache_block, operation_permissible,
}
use sniper.CacheCntlr.Update.{Updated, update_prevs, update_cache_block}
use sniper.CacheCntlr.Insertion.{access_dram, insert_cache_block}
use sniper.CacheCntlr.Directory.{initiate_directory_access, is_exclusive_op}
use sniper.CacheCntlr.Mshr.{make_mshr, set_mshr, find_mshr, in_progress, cleanup_mshr}
use sniper.CacheCntlr.Counters.{PrefetchType, no_prefetch, other_prefetch, Access, update_counters}
use sniper.CacheCntlr.Waiters.{put_mshr, mark_prefetch}

abbrev pub is_miss : HitWhere → Bool
is_miss miss = true
is_miss _ = false

abbrev pub is_prefetch_req : PrefetchType → Bool
is_prefetch_req no_prefetch = false
is_prefetch_req _ = true

-- What the caller of a request passes on.
pub record Req : Type 0 where
  pub mem_op_type : MemOp
  pub address : ℕ
  pub modeled : Bool
  pub count : Bool
  pub kind : PrefetchType
  pub t_issue : ℕ

-- The time until a miss in progress completes.
abbrev pub time_left : ℕ → Option MshrEntry → ℕ
time_left t_now none = 0
time_left t_now (some e) = e.t_complete - t_now

-- The previous levels but the one that asks.
abbrev pub others : ℕ → List ℕ → List ℕ
others requester [] = []
others requester (k ∷ ks) =
    let rest = others requester ks in if k == requester then rest else k ∷ rest

-- What is fixed while operations run: the hierarchy, the number of its levels and the homes of
-- addresses; which line leaves a cache for another; whether the simulator only warms its caches up;
-- `CacheState::readable` and `CacheState::writable`; the magic server; the time, and the greatest
-- time; and what the bytes of a line were before one without data comes in.
pub record Setting : Type 0 where
  pub t : ℕ → Config
  pub levels : ℕ
  pub home : ℕ → ℕ
  pub victim : ℕ → (ℕ → Option Line) → ℕ → Option ℕ
  pub warming : Bool
  pub readable : CState → Bool
  pub writable : CState → Bool
  pub ms : MagicServer
  pub now : ℕ
  pub max_time : ℕ
  pub stale : List ℕ

module _ (d : DramInterface) (env : Setting) where
  abbrev pub permissible : Hierarchy d → ℕ → ℕ → MemOp → Bool
  permissible h k address op = operation_permissible d env.readable env.writable h k address op

  -- The loops over the previous levels but the requester.
  unfoldable pub snoop : Hierarchy d → ℕ → ℕ → ℕ → CState → Reason → Option (Hierarchy d × Bool)
  snoop h k requester address new reason = do
    (h', latency, hit) ←
        update_prevs d env.t
          (λ j g. update_cache_block d env.t env.levels env.levels g j address new reason false)
          (others requester (env.t k).prev_cache_cntlrs) h
    some (
      put_stats d h' k (record (h'.cntlrs k).stats {
        snoop_latency = (h'.cntlrs k).stats.snoop_latency + latency;
      }),
      hit,
    )

  abbrev pub new_line_state : MemOp → CState
  new_line_state read = shared
  new_line_state _ = modified

  -- A perfect cache makes a miss a hit, and one that is passed through makes a hit a miss.
  unfoldable pub adjust_hit : Hierarchy d → ℕ → Req → Bool → Option (Hierarchy d × Bool)
  adjust_hit h k r false =
      if (env.t k).perfect
      then elim (get_cache_block_info d h k r.address) [
        | none ↦ (do
          h' ←
              insert_cache_block d env.t env.levels env.home env.victim env.warming h k r.address
                (new_line_state r.mem_op_type) env.stale
          some (h', true))
        | some line ↦ some (set_cstate d h k r.address modified, true)
      ]
      else some (h, false)
  adjust_hit h k r true =
      if (env.t k).passthrough && r.count
      then (do _ ← (env.t k).next_cache_cntlr; some (put_line d h k r.address none, false))
      else some (h, true)

  abbrev pub access_of : Hierarchy d → ℕ → Req → Bool → Access
  access_of h k r cache_hit = record {
    mem_op_type = r.mem_op_type;
    address = r.address;
    cache_hit = cache_hit;
    state = get_cache_state d h k r.address;
    kind = r.kind;
    t_now = env.now;
  }

  abbrev pub put_counted : Hierarchy d → ℕ → AccessCounters × List MshrEntry → Hierarchy d
  put_counted h k c = put d h k (record (h.cntlrs k) { counters = c.0; mshr = c.1 })

  unfoldable pub count_req : Hierarchy d → ℕ → Req → Bool → Option (Hierarchy d)
  count_req h k r cache_hit =
      if r.count
      then (do
        c ←
            update_counters env.ms (env.t k).block_size env.max_time (access_of h k r cache_hit)
              ((h.cntlrs k).counters, (h.cntlrs k).mshr)
        some (put_counted h k c))
      else some h

  -- A hit on a line that was prefetched, or brought in while the caches were warmed up.
  abbrev pub is_useful : Req → Line → Bool
  is_useful r line = not (is_prefetch_req r.kind) && line.prefetch

  abbrev pub cleared : Req → Line → Line
  cleared r line = record line {
    prefetch = if is_useful r line then false else line.prefetch;
    warmup = if line.warmup && not env.warming then false else line.warmup;
  }

  abbrev pub count_useful : Req → Line → Stats → Stats
  count_useful r line s = record s {
    hits_prefetch = if is_useful r line then inc_u64 s.hits_prefetch else s.hits_prefetch;
    hits_warmup = if line.warmup && not env.warming then inc_u64 s.hits_warmup else s.hits_warmup;
  }

  unfoldable pub note_useful : Hierarchy d → ℕ → Req → Option (Hierarchy d)
  note_useful h k r = do
    line ← get_cache_block_info d h k r.address
    let h1 = put_stats d h k (count_useful r line (h.cntlrs k).stats)
    some (put_line d h1 k r.address (some (cleared r line)))

  -- A modeled hit on a line that comes in later waits for it.
  unfoldable pub wait_for_line : Hierarchy d → ℕ → ℕ → Bool → Hierarchy d
  wait_for_line h k address modeled =
      let e = find_mshr address (h.cntlrs k).mshr in
      let s = (h.cntlrs k).stats in
      if modeled && in_progress env.now e
      then put_stats d h k (record s { mshr_latency = s.mshr_latency + time_left env.now e })
      else h

  -- The previous levels at a hit: others lose the line at a write, and share it at a read of a
  -- MODIFIED or EXCLUSIVE line.
  unfoldable pub snoop_hit : Hierarchy d → ℕ → ℕ → Req → Option (Hierarchy d × Bool)
  snoop_hit h k requester r =
      if is_exclusive_op r.mem_op_type
      then snoop h k requester r.address invalid coherency
      else if (get_cache_state d h k r.address =s modified)
          || (get_cache_state d h k r.address =s exclusive)
      then snoop h k requester r.address shared coherency
      else some (h, false)

  -- `copyDataFromNextLevel`
  unfoldable pub copy_data_from_next_level : Hierarchy d → ℕ → MemOp → ℕ → Option (Hierarchy d)
  copy_data_from_next_level h k op address = do
    next ← (env.t k).next_cache_cntlr
    assert (permissible h next address op)
    data_buf ← retrieve_cache_block d h next address
    elim (get_cache_block_info d h k address) [
      | none ↦
          insert_cache_block d env.t env.levels env.home env.victim env.warming h k address
            (get_cache_state d h next address) data_buf
      | some line ↦ (do
        r ←
            update_cache_block d env.t env.levels env.levels h k address
              (get_cache_state d h next address) upgrade false
        some r.hier)
    ]

  -- A miss of the last level: the line is upgraded silently, comes from the DRAM, or is asked for.
  unfoldable pub miss_at_last : Hierarchy d → ℕ → ℕ → Req → Option (Hierarchy d × HitWhere)
  miss_at_last h k requester r =
      if get_cache_state d h k r.address =s exclusive
      then (do
        (h1, _) ← snoop h k requester r.address invalid upgrade
        some (set_cstate d h1 k r.address modified, at_cache k false))
      else if (env.t k).dram_direct
      then elim (get_cache_block_info d h k r.address) [
        | none ↦ (do
          (bytes, h1) ← access_dram d read h r.address env.stale
          h2 ←
              insert_cache_block d env.t env.levels env.home env.victim env.warming h1 k r.address
                (new_line_state r.mem_op_type) bytes
          h3 ← mark_prefetch d h2 k r.address (is_prefetch_req r.kind)
          some (h3, at_dram))
        | some line ↦ some (set_cstate d h k r.address modified, at_cache k false)
      ]
      else (do
        h1 ←
            initiate_directory_access d env.t env.levels env.home env.victim env.warming h k k
              r.mem_op_type r.address (is_prefetch_req r.kind) r.t_issue
        some (h1, miss))

  -- A hit, of which the previous levels are told.
  unfoldable pub serve_hit : Hierarchy d → ℕ → ℕ → Req → Option (Hierarchy d × HitWhere)
  serve_hit h k requester r = do
    h1 ← note_useful h k r
    (h2, sibling_hit) ← snoop_hit (wait_for_line h1 k r.address r.modeled) k requester r
    some (h2, at_cache k sibling_hit)

  -- A write to a line that is only SHARED takes it from the other previous levels.
  unfoldable pub snoop_upgrade : Hierarchy d → ℕ → ℕ → Req → Option (Hierarchy d)
  snoop_upgrade h k requester r =
      if get_cache_state d h k r.address =s shared
      then (do (h', _) ← snoop h k requester r.address invalid upgrade; some h')
      else some h

  -- The line leaves the cache before the next one is asked, if it is there.
  unfoldable pub drop_line : Hierarchy d → ℕ → ℕ → Option (Hierarchy d)
  drop_line h k address = elim (get_cache_block_info d h k address) [
    | none ↦ some h
    | some _ ↦ invalidate_cache_block d h k address
  ]

  -- A miss that the next cache handles, by `ask`; if it has the line, the line is copied from there.
  unfoldable pub miss_at_next :
      (Hierarchy d → Option (Hierarchy d × HitWhere))
      → Hierarchy d
      → ℕ
      → Req
      → Option (Hierarchy d × HitWhere)
  miss_at_next ask h k r = do
    h1 ← drop_line h k r.address
    (h2, hit_where) ← ask h1
    if is_miss hit_where then some (h2, hit_where) else (do
      h3 ← copy_data_from_next_level h2 k r.mem_op_type r.address
      h4 ← mark_prefetch d h3 k r.address (is_prefetch_req r.kind)
      some (h4, hit_where))

  -- The end of a request that hits in the end: the data must be there, and a miss is registered.
  unfoldable pub finish_hit : Hierarchy d → ℕ → Req → Bool → Option (Hierarchy d)
  finish_hit h k r first_hit = do
    _ ← retrieve_cache_block d h k r.address
    if r.modeled && not first_hit && not (env.t k).passthrough
        then (do
          let m = set_mshr (make_mshr r.address r.t_issue env.now) (h.cntlrs k).mshr
          m' ← cleanup_mshr env.max_time (length m) m
          some (put_mshr d h k m'))
        else some h

  abbrev pub passed_kind : PrefetchType → PrefetchType
  passed_kind no_prefetch = no_prefetch
  passed_kind _ = other_prefetch

  -- The part of a request that depends on whether it hits.
  unfoldable pub serve_req :
      (ℕ → Hierarchy d → Option (Hierarchy d × HitWhere))
      → Hierarchy d
      → ℕ
      → ℕ
      → Req
      → Bool
      → Option (Hierarchy d × HitWhere)
  serve_req ask h k requester r true = serve_hit h k requester r
  serve_req ask h k requester r false = do
    g ← snoop_upgrade h k requester r
    elim (env.t k).next_cache_cntlr [
      | none ↦ miss_at_last g k requester r
      | some next ↦ miss_at_next (ask next) g k r
    ]

  -- A request, where the next cache is asked by `ask`.
  abbrev pub request_body :
      (Hierarchy d → ℕ → ℕ → Req → Option (Hierarchy d × HitWhere))
      → Hierarchy d
      → ℕ
      → ℕ
      → Req
      → Option (Hierarchy d × HitWhere)
  request_body ask h k requester r = do
    (h1, cache_hit) ← adjust_hit h k r (permissible h k r.address r.mem_op_type)
    h2 ← count_req h1 k r cache_hit
    (h3, hit_where) ←
        serve_req (λ next g. ask g next k (record r { kind = passed_kind r.kind })) h2 k requester r
          cache_hit
    if is_miss hit_where then some (h3, hit_where) else (do
      h4 ← finish_hit h3 k r (permissible h k r.address r.mem_op_type && cache_hit)
      some (h4, hit_where))

  unfoldable pub process_shmem_req : ℕ → Hierarchy d → ℕ → ℕ → Req → Option (Hierarchy d × HitWhere)
  process_shmem_req zero h k requester r = none
  process_shmem_req (suc n) h k requester r = request_body (process_shmem_req n) h k requester r
