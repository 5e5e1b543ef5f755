-- ===== src/CacheCntlr/MemOps.antt =====
-- A memory operation of a core, `processMemOpFromCore` and `accessCache` of
-- common/core/memory_subsystem/parametric_dram_directory_msi/cache_cntlr.cc, for caches without a
-- prefetcher and without a bound on the misses of the first level. The locks are those of one
-- operation at a time; what the network thread does while the operation waits is a parameter.
pub mod Exclusive
pub mod Held
pub mod RoundTrip
use sniper.Base.{
  ℕ, ◌+◌, Bool, true, false, not, ◌&&◌, Option, none, some, List, ◌==◌, if◌then◌else◌, inc_u64,
  take, drop, leb, length, ◌%◌, ◌-◌, u32_mod, u64_mod,
}
use sniper.Base.Results.{◌>>=◌, ◌>>◌, assert}
use sniper.MagicServer.{MagicServer}
use sniper.CacheCntlr.{
  HitWhere, miss, at_cache, at_dram, CState, invalid, modified, ◌=s◌, MemOp, write, Line, Config,
  Stats, MshrEntry, DramInterface, Hierarchy, put_stats, put_line, copy_to, get_cache_block_info,
  get_cache_state, set_cstate, invalidate_cache_block,
}
use sniper.CacheCntlr.Update.{write_cache_block}
use sniper.CacheCntlr.Insertion.{insert_cache_block}
use sniper.CacheCntlr.Mshr.{find_mshr, in_progress}
use sniper.CacheCntlr.Counters.{no_prefetch}
use sniper.CacheCntlr.Request.{
  Setting, is_miss, Req, permissible, new_line_state, count_req, note_useful, wait_for_line,
  copy_data_from_next_level, process_shmem_req,
}

-- `Core::lock_signal_t`
pub data LockSignal : Type 0 where
  no_lock lock unlock : LockSignal

-- What the core passes; `data_buf` is what a write writes, and a read fills it.
pub record CoreOp : Type 0 where
  pub lock_signal : LockSignal
  pub mem_op_type : MemOp
  pub ca_address : ℕ
  pub offset : ℕ
  pub data_buf : List ℕ
  pub modeled : Bool
  pub count : Bool

abbrev pub same_where : HitWhere → HitWhere → Bool
same_where miss miss = true
same_where (at_cache j true) (at_cache k true) = j == k
same_where (at_cache j false) (at_cache k false) = j == k
same_where at_dram at_dram = true
same_where _ _ = false

abbrev pub bump_where : (HitWhere → ℕ) → HitWhere → HitWhere → ℕ
bump_where f w x = if same_where x w then inc_u64 (f x) else f x

abbrev pub count_where : MemOp → HitWhere → Stats → Stats
count_where write w s = record s { stores_where = bump_where s.stores_where w }
count_where _ w s = record s { loads_where = bump_where s.loads_where w }

abbrev pub is_unlock : LockSignal → Bool
is_unlock unlock = true
is_unlock _ = false

-- The request to the next level; the time is that of the start.
abbrev pub req_of : CoreOp → ℕ → Bool → Bool → Req
req_of op t_start modeled count = record {
  mem_op_type = op.mem_op_type;
  address = op.ca_address;
  modeled = modeled;
  count = count;
  kind = no_prefetch;
  t_issue = t_start;
}

-- Where `accessSingleLine(ca_address + offset)` looks: the line, and the offset in it.
abbrev pub offset_at : ℕ → CoreOp → ℕ
offset_at block_size op = (op.ca_address + op.offset) % u64_mod % block_size

abbrev pub line_at : ℕ → CoreOp → ℕ
line_at block_size op = (op.ca_address + op.offset) % u64_mod - offset_at block_size op

-- `offset + bytes <= m_blocksize`, a sum of two 32-bit words.
abbrev pub in_line : ℕ → ℕ → List ℕ → Bool
in_line block_size offset data_buf = leb ((offset + length data_buf) % u32_mod) block_size

module _ (d : DramInterface) (env : Setting) where
  -- A perfect cache makes a miss a hit, and one that is passed through makes a hit a miss.
  unfoldable pub adjust_core_hit : Hierarchy d → ℕ → CoreOp → Bool → Option (Hierarchy d × Bool)
  adjust_core_hit h k op false =
      if (env.t k).perfect
      then elim (get_cache_block_info d h k op.ca_address) [
        | none ↦ (do
          h' ←
              insert_cache_block d env.t env.levels env.home env.victim env.warming h k
                op.ca_address (new_line_state d env op.mem_op_type) env.stale
          some (h', true))
        | some line ↦ some (set_cstate d h k op.ca_address modified, true)
      ]
      else some (h, false)
  adjust_core_hit h k op true =
      if (env.t k).passthrough
      then some (put_line d h k op.ca_address none, false)
      else some (h, true)

  unfoldable pub core_hit : Hierarchy d → ℕ → CoreOp → Option (Hierarchy d × HitWhere)
  core_hit h k op = do
    h1 ← note_useful d env h k (req_of op env.now op.modeled op.count)
    some (wait_for_line d env h1 k op.ca_address op.modeled, at_cache k false)

  -- A line that is there leaves the cache before the next level is asked.
  unfoldable pub drop_valid : Hierarchy d → ℕ → ℕ → Option (Hierarchy d)
  drop_valid h k address =
      if get_cache_state d h k address =s invalid
      then some h
      else invalidate_cache_block d h k address

  -- `accessSingleLine` of a store and of a load; a line that is not there is left alone.
  unfoldable pub store_single_line : Hierarchy d → ℕ → ℕ → ℕ → List ℕ → Option (Hierarchy d)
  store_single_line h k address offset data_buf = elim (get_cache_block_info d h k address) [
    | none ↦ some h
    | some line ↦ (do
      assert (in_line (env.t k).block_size offset data_buf)
      some (
          put_line d h k address
            (some (record line { data_buf = copy_to line.data_buf offset data_buf }))))
  ]

  unfoldable pub load_single_line : Hierarchy d → ℕ → ℕ → ℕ → List ℕ → Option (List ℕ)
  load_single_line h k address offset data_buf = elim (get_cache_block_info d h k address) [
    | none ↦ some data_buf
    | some line ↦ (do
      assert (in_line (env.t k).block_size offset data_buf)
      some (take (length data_buf) (drop offset line.data_buf)))
  ]

  -- `accessCache`: the caches, and what is in the buffer then.
  unfoldable pub access_cache : MemOp → Hierarchy d → ℕ → CoreOp → Option (Hierarchy d × List ℕ)
  access_cache write h k op = do
    h1 ←
        store_single_line h k (line_at (env.t k).block_size op) (offset_at (env.t k).block_size op)
          op.data_buf
    h2 ←
        if (env.t k).writethrough
        then (do
          next ← (env.t k).next_cache_cntlr
          write_cache_block d env.t env.levels h1 next op.ca_address op.offset op.data_buf)
        else some h1
    some (h2, op.data_buf)
  access_cache _ h k op = do
    bytes ←
        load_single_line h k (line_at (env.t k).block_size op) (offset_at (env.t k).block_size op)
          op.data_buf
    some (h, bytes)

  module _ (network : ℕ → ℕ → Hierarchy d → Option (Hierarchy d)) where
    -- After a miss of the last level the next level is asked again, once the reply has come.
    unfoldable pub ask_again :
        ℕ → ℕ → CoreOp → Hierarchy d × HitWhere → Option (Hierarchy d × HitWhere)
    ask_again k next op (h, w) =
        if is_miss w
        then (do
          h1 ← network k op.ca_address h
          (h2, w2) ← process_shmem_req d env env.levels h1 next k (req_of op env.now false false)
          assert (not (is_miss w2))
          some (h2, w2))
        else some (h, w)

    unfoldable pub core_miss : Hierarchy d → ℕ → CoreOp → Option (Hierarchy d × HitWhere)
    core_miss h k op = do
      assert (not (is_unlock op.lock_signal))
      h1 ← drop_valid h k op.ca_address
      next ← (env.t k).next_cache_cntlr
      asked ← process_shmem_req d env env.levels h1 next k (req_of op env.now op.modeled op.count)
      (h2, w) ← ask_again k next op asked
      h3 ← copy_data_from_next_level d env h2 k op.mem_op_type op.ca_address
      assert (permissible d env h3 k op.ca_address op.mem_op_type)
      some (h3, w)

    unfoldable pub serve_core : Hierarchy d → ℕ → CoreOp → Bool → Option (Hierarchy d × HitWhere)
    serve_core h k op true = core_hit h k op
    serve_core h k op false = core_miss h k op

    -- The statistics at the end, which is at the time `t_end`.
    abbrev pub count_end : Hierarchy d → ℕ → CoreOp → Bool → HitWhere → ℕ → Hierarchy d
    count_end h k op cache_hit w t_end =
        let s = (h.cntlrs k).stats in
        put_stats d h k (
          count_where op.mem_op_type w (record s {
            total_latency =
                if not cache_hit && op.count
                then s.total_latency + (t_end - env.now)
                else s.total_latency;
          }))

    -- `processMemOpFromCore`: the caches, where it hit, and what is in the buffer.
    unfoldable pub process_mem_op :
        Hierarchy d → ℕ → CoreOp → ℕ → Option (Hierarchy d × HitWhere × List ℕ)
    process_mem_op h k op t_end = do
      assert (op.ca_address % (env.t k).block_size == 0)
      assert (in_line (env.t k).block_size op.offset op.data_buf)
      (h1, cache_hit) ← adjust_core_hit h k op (permissible d env h k op.ca_address op.mem_op_type)
      h2 ← count_req d env h1 k (req_of op env.now op.modeled op.count) cache_hit
      (h3, w) ← serve_core h2 k op cache_hit
      (h4, bytes) ← access_cache op.mem_op_type h3 k op
      some (count_end h4 k op cache_hit w t_end, w, bytes)
