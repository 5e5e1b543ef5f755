-- ===== src/CacheSet.antt =====
-- A cache set, common/core/memory_subsystem/cache/cache_set.cc and cache_set.h: its blocks' tags and
-- states, the bytes that they hold when faults are injected, and its replacement policy, which is
-- the interface `Policy`. `none` is a failed assertion, which stops the simulator.
pub mod Policy
pub mod Bytes
pub mod Lookup
pub mod Tags
pub mod Storage
pub mod Invariant
pub mod Insertion
pub mod Lru2Laws
pub mod Segments
mod Tests
use mathlib.Core.Option
use sniper.Base.{
  ℕ, zero, suc, ◌+◌, ◌*◌, ◌%◌, ◌^◌, Bool, true, false, ◌&&◌, Option, none, some, List, ltb, leb,
  ◌==◌, if◌then◌else◌, get_elem?, set, replicate, u32_mod, u64_mod, log2,
}
use sniper.Base.Results.{◌>>=◌, ◌>>◌, assert}
use sniper.BlockInfo.{BlockInfo, CacheType}
use Policy.{ReplacementPolicy}
use Bytes.{read_bytes, write_bytes}

pub record CacheSet (b : BlockInfo) (p : ReplacementPolicy b) : Type 0 where
  pub blocks : List b.Info
  -- `m_blocks`: `none` is the null pointer.
  pub bytes : Option (List ℕ)
  pub associativity : ℕ
  pub blocksize : ℕ
  pub approx_flag : Bool
  pub policy : p.State

-- What `insert` writes through its pointers: `*eviction`, `*evict_block_info`, and `evict_buff` if
-- it was written.
pub record Inserted (b : BlockInfo) : Type 0 where
  pub eviction : Bool
  pub evict_block_info : b.Info
  pub evict_buff : Option (List ℕ)

module _ (b : BlockInfo) where
  -- The loop of `find` and `invalidate`, over the ways below `n` from the last one on.
  unfoldable pub find_below : List b.Info → ℕ → ℕ → Option (ℕ × b.Info)
  find_below blocks zero tag = none
  find_below blocks (suc index) tag =
      let rest = find_below blocks index tag in
      elim (get_elem? blocks index) [
        | none ↦ rest
        | some info ↦ if b.get_tag info == tag then some (index, info) else rest
      ]

module _ (b : BlockInfo) (p : ReplacementPolicy b) where
  -- The constructor. The flag `m_approx_flag` is written by `insert` before it is read.
  unfoldable pub create : Bool → CacheType → ℕ → ℕ → p.State → CacheSet b p
  create fault_injection cache_type associativity blocksize policy = record {
    blocks = replicate associativity (b.create cache_type);
    bytes =
        if fault_injection then some (replicate (associativity * blocksize % u32_mod) 0) else none;
    associativity = associativity;
    blocksize = blocksize;
    approx_flag = false;
    policy = policy;
  }

  -- `line_index * m_blocksize + offset`
  abbrev pub position : CacheSet b p → ℕ → ℕ → ℕ
  position s line_index offset = (line_index * s.blocksize + offset) % u32_mod

  pub touch_if : Bool → ℕ → CacheSet b p → CacheSet b p
  touch_if update_replacement line_index s =
      if update_replacement then record s { policy = p.update s.policy line_index } else s

  -- The `n` bytes of a line from `offset` on, if the set holds bytes.
  abbrev pub line_bytes : CacheSet b p → ℕ → ℕ → ℕ → Option (List ℕ)
  line_bytes s line_index offset n =
      Option.map (read_bytes (position s line_index offset) n) s.bytes

  -- `wanted` tells whether `out_buff` is not null; the bytes are returned if they are copied.
  pub read_line : CacheSet b p → ℕ → ℕ → Bool → ℕ → Bool → Option (CacheSet b p × Option (List ℕ))
  unfolding touch_if
  read_line s line_index offset wanted n update_replacement = do
    assert (leb ((offset + n) % u32_mod) s.blocksize)
    some (
      touch_if update_replacement line_index s,
      if wanted then line_bytes s line_index offset n else none,
    )

  unfoldable pub store : ℕ → Option (List ℕ) → CacheSet b p → CacheSet b p
  store at none s = s
  store at (some buff) s = record s { bytes = Option.map (write_bytes at buff) s.bytes }

  -- `in_buff` holds the bytes that are copied, or is null.
  pub write_line : CacheSet b p → ℕ → ℕ → Option (List ℕ) → ℕ → Bool → Option (CacheSet b p)
  unfolding store touch_if
  write_line s line_index offset in_buff n update_replacement = do
    assert (leb ((offset + n) % u32_mod) s.blocksize)
    some (touch_if update_replacement line_index (store (position s line_index offset) in_buff s))

  unfoldable pub find : CacheSet b p → ℕ → Option (ℕ × b.Info)
  unfolding find_below
  find s tag = find_below b s.blocks s.associativity tag

  pub invalidate : CacheSet b p → ℕ → CacheSet b p × Bool
  unfolding find_below
  invalidate s tag = elim (find_below b s.blocks s.associativity tag) [
    | none ↦ (s, false)
    | some (index, info) ↦ (record s { blocks = set s.blocks index (b.invalidate info) }, true)
  ]

  -- The address that `insert` asks the magic server about.
  abbrev pub insert_address : CacheSet b p → b.Info → ℕ
  insert_address s info = b.get_tag info * 2 ^ log2 s.blocksize % u64_mod

  -- From `assert(index < m_associativity)` on.
  pub replace_way :
      CacheSet b p
      → ℕ
      → b.Info
      → Option (List ℕ)
      → b.Info
      → Bool
      → Option (CacheSet b p × Inserted b)
  unfolding store
  replace_way s index info fill_buff evict_block_info evict_wanted = do
    assert (ltb index s.associativity)
    old ← get_elem? s.blocks index
    some (
      store (position s index 0) fill_buff
          (record s { blocks = set s.blocks index (b.clone old info) }),
      if b.is_valid old
          then record {
            eviction = true;
            evict_block_info = b.clone evict_block_info old;
            evict_buff = if evict_wanted then line_bytes s index 0 s.blocksize else none;
          }
          else record { eviction = false; evict_block_info = evict_block_info; evict_buff = none },
    )

  -- `is_block_approx` is the magic server's. `evict_wanted` tells whether `evict_buff` is not null.
  pub insert :
      (ℕ → ℕ → Bool)
      → CacheSet b p
      → b.Info
      → Option (List ℕ)
      → b.Info
      → Bool
      → Option (CacheSet b p × Inserted b)
  unfolding replace_way
  insert is_block_approx s info fill_buff evict_block_info evict_wanted = do
    (index, policy) ←
        p.replace s.policy s.blocks (is_block_approx (insert_address s info) s.blocksize)
    replace_way (record s { policy = policy; approx_flag = false }) index info fill_buff
        evict_block_info evict_wanted
