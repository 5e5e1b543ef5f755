-- ===== src/CacheCntlr/Update.antt =====
-- `writeCacheBlock` and `updateCacheBlock` of
-- common/core/memory_subsystem/parametric_dram_directory_msi/cache_cntlr.cc: a change of a block's
-- state, first in the caches before a controller, then in its own, with the write-back of modified
-- bytes to the next cache. The walks take fuel: the number of levels is enough.
pub mod Fuel
pub mod Flush
pub mod Frame
pub mod Kept
pub mod Leaves
pub mod Invalidation
use sniper.Base.{
  ℕ, inc_u64, zero, suc, ◌+◌, Bool, true, false, not, ◌&&◌, ◌||◌, Option, none, some, List, [], ◌∷◌,
  ◌==◌, ltb, if◌then◌else◌, length,
}
use sniper.Base.Results.{◌>>=◌, ◌>>◌, assert}
use sniper.CacheCntlr.{
  CState, invalid, shared, modified, ◌=s◌, is_cstate, Reason, upgrade, evict, back_inval, coherency,
  Line, Config, Stats, DramInterface, Hierarchy, put, put_stats, put_line, get_cache_block_info,
  get_cache_state, set_cstate, invalidate_cache_block, retrieve_cache_block, copy_to,
}

-- `n` more in place `c` of an array.
abbrev pub bump : (CState → ℕ) → CState → CState → ℕ
bump counts c x = if x =s c then inc_u64 (counts x) else counts x

-- What a change of a block counts, for the reasons that count.
unfoldable pub count_transition : Reason → CState → Line → Stats → Stats
count_transition coherency new line s =
    let s1 =
      if new =s shared
      then record s { coherency_downgrades = inc_u64 s.coherency_downgrades }
      else if line.cstate =s modified
      then record s { coherency_writebacks = inc_u64 s.coherency_writebacks }
      else record s { coherency_invalidates = inc_u64 s.coherency_invalidates } in
    let s2 =
      if line.prefetch && (new =s invalid)
      then record s1 { invalidate_prefetch = inc_u64 s1.invalidate_prefetch }
      else s1 in
    if line.warmup && (new =s invalid)
    then record s2 { invalidate_warmup = inc_u64 s2.invalidate_warmup }
    else s2
count_transition upgrade new line s = record s { coherency_upgrades = inc_u64 s.coherency_upgrades }
count_transition back_inval new line s = record s { backinval = bump s.backinval line.cstate }
count_transition _ new line s = s

-- The reason that the previous levels are told.
abbrev pub passed_reason : Reason → Reason
passed_reason evict = back_inval
passed_reason r = r

module _ (d : DramInterface) where
  -- What `updateCacheBlock` returns, and the bytes that it wrote to `out_buf`, if it did.
  pub record Updated : Type 0 where
    pub hier : Hierarchy d
    pub latency : ℕ
    pub sibling_hit : Bool
    pub out : Option (List ℕ)

  module _ (t : ℕ → Config) where
    -- The write to a line, which must be there, and MODIFIED.
    unfoldable pub write_line : Hierarchy d → ℕ → ℕ → ℕ → List ℕ → Option (Hierarchy d)
    write_line h k address offset data_buf = do
      line ← get_cache_block_info d h k address
      assert (line.cstate =s modified)
      some (
          put_line d h k address
            (some (record line { data_buf = copy_to line.data_buf offset data_buf })))

    -- The write to the eviction buffer, or to the line.
    unfoldable pub write_own : Hierarchy d → ℕ → ℕ → ℕ → List ℕ → Option (Hierarchy d)
    write_own h k address offset data_buf = elim (h.cntlrs k).evicting [
      | none ↦ write_line h k address offset data_buf
      | some (evicting_address, evicting_buf) ↦
          if address == evicting_address
          then (do
            assert (offset == 0)
            assert (length data_buf == (t k).block_size)
            some (
                put d h k (record (h.cntlrs k) {
                  evicting = some (evicting_address, copy_to evicting_buf offset data_buf);
                })))
          else write_line h k address offset data_buf
    ]

    -- The write, and then the same of the next cache, by `ask`.
    abbrev pub write_body :
        (ℕ → Hierarchy d → Option (Hierarchy d))
        → Hierarchy d
        → ℕ
        → ℕ
        → ℕ
        → List ℕ
        → Option (Hierarchy d)
    write_body ask h k address offset data_buf = do
      h' ← write_own h k address offset data_buf
      if (t k).writethrough then (do next ← (t k).next_cache_cntlr; ask next h') else some h'

    unfoldable pub write_cache_block : ℕ → Hierarchy d → ℕ → ℕ → ℕ → List ℕ → Option (Hierarchy d)
    write_cache_block zero h k address offset data_buf = none
    write_cache_block (suc n) h k address offset data_buf =
        write_body (λ next g. write_cache_block n g next address offset data_buf) h k address offset
          data_buf

    -- The write-back of a MODIFIED block: the changed controllers, whether it was written back, and
    -- the bytes for `out_buf`, which only the last level gives.
    unfoldable pub write_back :
        ℕ → Hierarchy d → ℕ → ℕ → Bool → Option (Hierarchy d × Bool × Option (List ℕ))
    write_back n h k address wanted =
        if (t k).writethrough then some (h, false, none) else elim (t k).next_cache_cntlr [
          | some next ↦ (do
            data_buf ← retrieve_cache_block d h k address
            h' ← write_cache_block n h next address 0 data_buf
            some (h', true, none))
          | none ↦
              if wanted
              then (do data_buf ← retrieve_cache_block d h k address; some (h, true, some data_buf))
              else none
        ]

    -- The bytes for `out_buf`, if it is passed: a second copy replaces the first.
    abbrev pub copy_out :
        Hierarchy d → ℕ → ℕ → Bool → Bool × Option (List ℕ) → Option (Bool × Option (List ℕ))
    copy_out h k address true done = do
      data_buf ← retrieve_cache_block d h k address
      some (true, some data_buf)
    copy_out h k address false done = some done

    -- The new state, after the write-back.
    unfoldable pub change_state : Hierarchy d → ℕ → ℕ → CState → Option (Hierarchy d)
    change_state h k address invalid =
        if (t k).coherent then invalidate_cache_block d h k address else some h
    change_state h k address shared = some (set_cstate d h k address shared)
    change_state h k address modified = some (set_cstate d h k address modified)
    change_state h k address _ = none

    -- Whether the branch of a new state copies to `out_buf`.
    abbrev pub copies_out : CState → Bool
    copies_out invalid = true
    copies_out shared = true
    copies_out _ = false

    -- The write-back, when there is something to write back; the block is SHARED after it.
    unfoldable pub write_dirty :
        ℕ → Hierarchy d → ℕ → ℕ → Bool → Line → Option (Hierarchy d × Bool × Option (List ℕ))
    write_dirty n h k address wanted line =
        if line.cstate =s modified
        then (do
          (h1, written, out) ← write_back n h k address wanted
          some (set_cstate d h1 k address shared, written, out))
        else some (h, false, none)

    -- The change of a block that the cache holds.
    unfoldable pub update_present :
        ℕ → Hierarchy d → Bool → ℕ → ℕ → CState → Reason → Bool → Line → Option Updated
    update_present n h sibling_hit k address new reason wanted line =
        if (new =s line.cstate) && wanted
        then some (record {
          hier = h;
          latency = (t k).writeback_time;
          sibling_hit = true;
          out = some line.data_buf;
        })
        else (do
          (h1, written, copied) ←
              write_dirty n (put_stats d h k (count_transition reason new line (h.cntlrs k).stats))
                k address wanted line
          (is_writeback, out) ← copy_out h1 k address (copies_out new && wanted) (written, copied)
          h2 ← change_state h1 k address new
          some (record {
            hier = h2;
            latency = if is_writeback then (t k).writeback_time else 0;
            sibling_hit = sibling_hit || is_writeback;
            out = out;
          }))

    abbrev pub given : Option (List ℕ) → Bool
    given none = false
    given (some _) = true

    -- The assertions at the end of `updateCacheBlock`.
    unfoldable pub check_updated : ℕ → ℕ → CState → Bool → Updated → Option Updated
    check_updated k address new wanted r = do
      assert (
          (get_cache_state d r.hier k address =s invalid)
          || (get_cache_state d r.hier k address =s new)
          || not (t k).coherent)
      assert (if wanted then given r.out else true)
      some r

    -- The change of the controller's own block, if its cache holds it.
    unfoldable pub update_block :
        ℕ → Hierarchy d → Bool → ℕ → ℕ → CState → Reason → Bool → Option Updated
    update_block n h sibling_hit k address new reason wanted =
        elim (get_cache_block_info d h k address) [
          | none ↦ some (record { hier = h; latency = 0; sibling_hit = sibling_hit; out = none })
          | some line ↦ update_present n h sibling_hit k address new reason wanted line
        ]

    -- `updateCacheBlock` after the previous levels.
    unfoldable pub update_own :
        ℕ → Hierarchy d → Bool → ℕ → ℕ → CState → Reason → Bool → Option Updated
    update_own n h sibling_hit k address new reason wanted = do
      r ← update_block n h sibling_hit k address new reason wanted
      check_updated k address new wanted r

    -- A loop over the previous levels: the greatest latency, and whether any of them had the line.
    unfoldable pub update_prevs :
        (ℕ → Hierarchy d → Option Updated) → List ℕ → Hierarchy d → Option (Hierarchy d × ℕ × Bool)
    update_prevs update [] h = some (h, 0, false)
    update_prevs update (k ∷ ks) h = do
      r ← update k h
      (h', latency, hit) ← update_prevs update ks r.hier
      some (h', if ltb latency r.latency then r.latency else latency, r.sibling_hit || hit)

    -- `levels` is the fuel of the write-backs, the next number that of the walk to previous levels.
    -- The previous levels, by `ask`, and then the controller's own cache.
    abbrev pub update_body :
        ℕ
        → (ℕ → Hierarchy d → Option Updated)
        → Hierarchy d
        → ℕ
        → ℕ
        → CState
        → Reason
        → Bool
        → Option Updated
    update_body levels ask h k address new reason wanted = do
      assert (is_cstate new)
      (h', _, hit) ← update_prevs ask (t k).prev_cache_cntlrs h
      update_own levels h' hit k address new reason wanted

    unfoldable pub update_cache_block :
        ℕ → ℕ → Hierarchy d → ℕ → ℕ → CState → Reason → Bool → Option Updated
    update_cache_block levels zero h k address new reason wanted = none
    update_cache_block levels (suc n) h k address new reason wanted =
        update_body levels
          (λ j g. update_cache_block levels n g j address new (passed_reason reason) false) h k
          address new reason wanted
