-- ===== src/CacheCntlr/Insertion.antt =====
-- `insertCacheBlock` and `accessDRAM` of
-- common/core/memory_subsystem/parametric_dram_directory_msi/cache_cntlr.cc: the insertion of a
-- line, and what becomes of the line that leaves. Which line leaves is the choice of the set's
-- replacement policy, a parameter here.
pub mod Eviction
pub mod Inserted
use sniper.Base.{
  ℕ, inc_u64, ◌+◌, Bool, true, false, not, ◌&&◌, ◌||◌, Option, none, some, List, [], ◌∷◌, ◌==◌,
  if◌then◌else◌,
}
use sniper.Base.Results.{◌>>=◌, ◌>>◌, assert}
use sniper.CacheCntlr.{
  CState, invalid, shared, modified, exclusive, ◌=s◌, back_inval, MemOp, read, read_ex, write, Line,
  Config, Stats, Msg, MsgType, flush_rep, inv_rep, DramInterface, Hierarchy, put, put_stats,
  put_line, send, get_cache_block_info, get_cache_state, set_cache_state,
}
use sniper.CacheCntlr.Update.{bump, write_cache_block, update_prevs, update_cache_block}

-- What an eviction counts.
unfoldable pub count_evict : Line → Stats → Stats
count_evict line s =
    let s1 = record s { evict_state = bump s.evict_state line.cstate } in
    let s2 =
      if line.prefetch then record s1 { evict_prefetch = inc_u64 s1.evict_prefetch } else s1 in
    if line.warmup then record s2 { evict_warmup = inc_u64 s2.evict_warmup } else s2

module _ (d : DramInterface) where
  -- The bytes that a read gives, and the DRAM controller's state.
  unfoldable pub access_dram : MemOp → Hierarchy d → ℕ → List ℕ → Option (List ℕ × Hierarchy d)
  access_dram read h address data_buf = do
    (bytes, dram) ← d.get_bytes h.dram address
    some (bytes, record h { dram = dram })
  access_dram _ h address data_buf = do
    dram ← d.put_bytes h.dram address data_buf
    some (data_buf, record h { dram = dram })

  module _ (t : ℕ → Config) (levels : ℕ)
      -- The node that keeps an address's directory entry.
      (home : ℕ → ℕ)
      -- The address of the line that leaves the cache of a controller when a line comes in.
      (victim : ℕ → (ℕ → Option Line) → ℕ → Option ℕ)
      -- Whether the simulator only warms its caches up, `InstMode::CACHE_ONLY`.
      (warming : Bool) where
    -- The previous levels invalidate the line, and write modified bytes to the eviction buffer.
    unfoldable pub evict_prevs :
        List ℕ → Hierarchy d → ℕ → ℕ → List ℕ → Option (Hierarchy d × List ℕ)
    evict_prevs [] h k evict_address evict_buf = some (h, evict_buf)
    evict_prevs (x ∷ xs) h k evict_address evict_buf = do
      (h', latency, _) ←
          update_prevs d t
            (λ j g. update_cache_block d t levels levels g j evict_address invalid back_inval false)
            (x ∷ xs)
            (put d h k (record (h.cntlrs k) { evicting = some (evict_address, evict_buf) }))
      (_, buf) ← (h'.cntlrs k).evicting
      some (
        put d h' k (record (h'.cntlrs k) {
          evicting = none;
          stats = record (h'.cntlrs k).stats {
            snoop_latency = (h'.cntlrs k).stats.snoop_latency + latency;
          };
        }),
        buf,
      )

    -- The message of an eviction to the directory.
    abbrev pub evict_msg : ℕ → ℕ → MsgType → Option (List ℕ) → Msg
    evict_msg k evict_address msg_type bytes = record {
      msg_type = msg_type;
      requester = (t k).core_id;
      receiver = home evict_address;
      address = evict_address;
      data_sent = bytes;
    }

    -- The last level's evicted line goes to the DRAM, if it was modified,
    unfoldable pub dispose_to_dram : Hierarchy d → ℕ → Line → List ℕ → Option (Hierarchy d)
    dispose_to_dram h evict_address line evict_buf =
        if line.cstate =s modified
        then (do (_, h') ← access_dram write h evict_address evict_buf; some h')
        else some h

    -- or to the directory.
    unfoldable pub dispose_to_directory : Hierarchy d → ℕ → ℕ → Line → List ℕ → Option (Hierarchy d)
    dispose_to_directory h k evict_address line evict_buf =
        if line.cstate =s modified
        then some (send d h (evict_msg k evict_address flush_rep (some evict_buf)))
        else (do
          assert ((line.cstate =s shared) || (line.cstate =s exclusive))
          some (send d h (evict_msg k evict_address inv_rep none)))

    -- A line that another level is behind.
    unfoldable pub dispose_to_next : Hierarchy d → ℕ → ℕ → ℕ → Line → List ℕ → Option (Hierarchy d)
    dispose_to_next h k next evict_address line evict_buf =
        if not (t k).writethrough && (line.cstate =s modified)
        then write_cache_block d t levels h next evict_address 0 evict_buf
        else some h

    -- Where the evicted line goes.
    unfoldable pub dispose : Hierarchy d → ℕ → ℕ → Line → List ℕ → Option (Hierarchy d)
    dispose h k evict_address line evict_buf =
        if (t k).perfect
        then some h
        else if not (t k).coherent
        then (do assert ((t k).writethrough || not (line.cstate =s modified)); some h)
        else elim (t k).next_cache_cntlr [
          | none ↦
              if (t k).dram_direct
              then dispose_to_dram h evict_address line evict_buf
              else dispose_to_directory h k evict_address line evict_buf
          | some next ↦ dispose_to_next h k next evict_address line evict_buf
        ]

    -- The eviction, after the line has left the cache.
    unfoldable pub evict_line : Hierarchy d → ℕ → ℕ → Line → Option (Hierarchy d)
    evict_line h k evict_address line = do
      (h1, evict_buf) ←
          evict_prevs (t k).prev_cache_cntlrs
            (put_stats d h k (count_evict line (h.cntlrs k).stats)) k evict_address line.data_buf
      h2 ← dispose h1 k evict_address line evict_buf
      assert (get_cache_state d h2 k evict_address =s invalid)
      some h2

    -- `insertSingleLine` as a controller sees it: the line that left, with its address.
    unfoldable pub insert_single_line : Hierarchy d → ℕ → ℕ → Line → Hierarchy d × Option (ℕ × Line)
    insert_single_line h k address line = elim (victim k (h.cntlrs k).lines address) [
      | none ↦ (put_line d h k address (some line), none)
      | some evict_address ↦ elim (get_cache_block_info d h k evict_address) [
        | none ↦ (put_line d h k address (some line), none)
        | some old ↦ (
          put_line d (put_line d h k evict_address none) k address (some line),
          some (evict_address, old),
        )
      ]
    ]

    unfoldable pub evict_after : ℕ → Hierarchy d × Option (ℕ × Line) → Option (Hierarchy d)
    evict_after k (h, none) = some h
    evict_after k (h, some (evict_address, line)) = evict_line h k evict_address line

    -- `insertCacheBlock`
    unfoldable pub insert_cache_block : Hierarchy d → ℕ → ℕ → CState → List ℕ → Option (Hierarchy d)
    insert_cache_block h k address cstate data_buf = do
      assert (get_cache_state d h k address =s invalid)
      evict_after k (
          insert_single_line h k address
            (record { cstate = cstate; data_buf = data_buf; prefetch = false; warmup = warming }))
