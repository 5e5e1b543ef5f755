-- ===== src/Cache.antt =====
-- A cache, common/core/memory_subsystem/cache/cache.cc and cache.h: its sets, and the operations on a
-- single line, which tell the magic server of each access and let the fault injector change the
-- line's bytes. `CacheBase`, which splits an address, is not in this repository: `Addressing` is a
-- parameter. `none` is a failed assertion, or an index or a pointer that the code must not follow.
pub mod Sets
pub mod Lines
pub mod Blocks
mod Tests
use Prim.Native.String.{String}
use sniper.Base.{
  ℕ, ◌+◌, ◌%◌, Bool, true, false, Option, none, some, List, ◌++◌, ltb, if◌then◌else◌, get_elem?,
  set, replicate, u64_mod, take, drop,
}
use sniper.BlockInfo.{BlockInfo, CacheType}
use sniper.MagicServer.{MagicServer, is_block_approx, add_read_acc, add_write_acc}
use sniper.FaultInjection.{Rng, Injector, pre_read, post_write}
use sniper.CacheSet
use sniper.Base.Results.{◌>>=◌, ◌>>◌, assert}
use sniper.CacheSet.{CacheSet, Inserted, position, read_line, write_line, find, invalidate, insert}
use sniper.CacheSet.Policy.{ReplacementPolicy}

-- `splitAddress` and `tagToAddress`.
pub record Addressing : Type 0 where
  pub tag_of : ℕ → ℕ
  pub set_index_of : ℕ → ℕ
  pub block_offset_of : ℕ → ℕ
  pub tag_to_address : ℕ → ℕ

module _ (b : BlockInfo) (p : ReplacementPolicy b) (rng : Rng) where
  pub record Cache : Type 0 where
    pub enabled : Bool
    pub core_id : ℕ
    pub name : String
    pub num_accesses : ℕ
    pub num_hits : ℕ
    pub cache_type : CacheType
    pub num_sets : ℕ
    pub associativity : ℕ
    pub blocksize : ℕ
    pub sets : List (CacheSet b p)
    pub fault_injector : Option (Injector rng)

  -- An access: a load tells whether `buff` is not null, a store holds the bytes, or is without them.
  pub data AccessType : Type 0 where
    load : Bool → AccessType
    store : Option (List ℕ) → AccessType

  -- What an access returns: the block, if it is a hit, and the bytes that are copied to `buff`.
  pub record Accessed : Type 0 where
    pub cache : Cache
    pub server : MagicServer
    pub block : Option b.Info
    pub out : Option (List ℕ)

  -- What an insertion writes through its pointers.
  pub record InsertedLine : Type 0 where
    pub cache : Cache
    pub inserted : Inserted b
    pub evict_addr : ℕ

  -- The constructor. The sets start with equal policies; `fault_injection` tells whether faults are
  -- injected, as the sets' constructor asks.
  pub create : String → ℕ → ℕ → ℕ → ℕ → CacheType → Bool → Option (Injector rng) → p.State → Cache
  create name core_id num_sets associativity blocksize cache_type fault_injection injector policy =
      record {
        enabled = false;
        core_id = core_id;
        name = name;
        num_accesses = 0;
        num_hits = 0;
        cache_type = cache_type;
        num_sets = num_sets;
        associativity = associativity;
        blocksize = blocksize;
        sets =
            replicate num_sets
              (CacheSet.create b p fault_injection cache_type associativity blocksize policy);
        fault_injector = injector;
      }

  -- The injector's call on the bytes of a set from a pointer on.
  pub inject :
      (Injector rng → List ℕ → List ℕ × Injector rng)
      → ℕ
      → Option (Injector rng)
      → CacheSet b p
      → Option (CacheSet b p × Option (Injector rng))
  inject call at none s = some (s, none)
  inject call at (some injector) s = elim s.bytes [
    | none ↦ none
    | some bytes ↦
        let (fault, injector') = call injector (drop at bytes) in
        some (record s { bytes = some (take at bytes ++ fault) }, some injector')
  ]

  -- `m_sets[set_index]` after a call on it, and the injector after its own.
  abbrev pub put : Cache → ℕ → CacheSet b p → Option (Injector rng) → Cache
  put c i s injector = record c { sets = set c.sets i s; fault_injector = injector }

  module _ (a : Addressing) where
    -- `invalidateSingleLine` on the address's set.
    pub invalidate_set : Cache → ℕ → CacheSet b p → Cache × Bool
    invalidate_set c addr s =
        let (s', found) = invalidate b p s (a.tag_of addr) in
        (put c (a.set_index_of addr) s' c.fault_injector, found)

    pub invalidate_single_line : Cache → ℕ → Option (Cache × Bool)
    unfolding invalidate_set
    invalidate_single_line c addr = do
      assert (ltb (a.set_index_of addr) c.num_sets)
      s ← get_elem? c.sets (a.set_index_of addr)
      some (invalidate_set c addr s)

    -- `accessSingleLine` after a hit in way `line_index`.
    pub access_line :
        Cache
        → MagicServer
        → ℕ
        → AccessType
        → ℕ
        → Bool
        → CacheSet b p
        → ℕ
        → b.Info
        → Option Accessed
    unfolding inject
    access_line c ms addr (load wanted) bytes update s line_index info = do
      (s', injector) ←
          inject (pre_read rng (add_read_acc ms addr c.core_id c.name c.blocksize) addr bytes)
            (position b p s line_index (a.block_offset_of addr)) c.fault_injector s
      (s'', out) ← read_line b p s' line_index (a.block_offset_of addr) wanted bytes update
      some (record {
        cache = put c (a.set_index_of addr) s'' injector;
        server = add_read_acc ms addr c.core_id c.name c.blocksize;
        block = some info;
        out = out;
      })
    access_line c ms addr (store buff) bytes update s line_index info = do
      s' ← write_line b p s line_index (a.block_offset_of addr) buff bytes update
      (s'', injector) ←
          inject (post_write rng (add_write_acc ms addr c.core_id c.name c.blocksize) addr bytes)
            (position b p s line_index (a.block_offset_of addr)) c.fault_injector s'
      some (record {
        cache = put c (a.set_index_of addr) s'' injector;
        server = add_write_acc ms addr c.core_id c.name c.blocksize;
        block = some info;
        out = none;
      })

    -- `accessSingleLine` on the address's set.
    pub access_set :
        Cache → MagicServer → ℕ → AccessType → ℕ → Bool → CacheSet b p → Option Accessed
    unfolding access_line
    access_set c ms addr access bytes update s = elim (find b p s (a.tag_of addr)) [
      | none ↦ some (record { cache = c; server = ms; block = none; out = none })
      | some (line_index, info) ↦ access_line c ms addr access bytes update s line_index info
    ]

    pub access_single_line : Cache → MagicServer → ℕ → AccessType → ℕ → Bool → Option Accessed
    unfolding access_set
    access_single_line c ms addr access bytes update = do
      s ← get_elem? c.sets (a.set_index_of addr)
      access_set c ms addr access bytes update s

    -- The fault injector's part of `insertSingleLine`; the line must be there.
    pub inject_inserted :
        Cache → MagicServer → ℕ → CacheSet b p → Option (CacheSet b p × Option (Injector rng))
    unfolding inject
    inject_inserted c ms addr s = elim c.fault_injector [
      | none ↦ some (s, none)
      | some injector ↦ elim (find b p s (a.tag_of addr)) [
        | none ↦ none
        | some (line_index, _) ↦
            inject (post_write rng ms addr s.blocksize) (position b p s line_index 0)
              (some injector) s
      ]
    ]

    -- `insertSingleLine` on the address's set.
    pub insert_set :
        Cache
        → MagicServer
        → ℕ
        → Option (List ℕ)
        → b.Info
        → Bool
        → CacheSet b p
        → Option InsertedLine
    unfolding inject_inserted
    insert_set c ms addr fill_buff evict_block_info evict_wanted s = do
      (s', inserted) ←
          insert b p (is_block_approx ms) s (b.set_tag (b.create c.cache_type) (a.tag_of addr))
            fill_buff evict_block_info evict_wanted
      (s'', injector) ← inject_inserted c ms addr s'
      some (record {
        cache = put c (a.set_index_of addr) s'' injector;
        inserted = inserted;
        evict_addr = a.tag_to_address (b.get_tag inserted.evict_block_info);
      })

    pub insert_single_line :
        Cache → MagicServer → ℕ → Option (List ℕ) → b.Info → Bool → Option InsertedLine
    unfolding insert_set
    insert_single_line c ms addr fill_buff evict_block_info evict_wanted = do
      s ← get_elem? c.sets (a.set_index_of addr)
      insert_set c ms addr fill_buff evict_block_info evict_wanted s

    -- `some none` is the null pointer.
    pub peek_single_line : Cache → ℕ → Option (Option (ℕ × b.Info))
    peek_single_line c addr = do
      s ← get_elem? c.sets (a.set_index_of addr)
      some (find b p s (a.tag_of addr))

  pub update_counters : Cache → Bool → Cache
  update_counters c cache_hit =
      if c.enabled
      then record c {
        num_accesses = (c.num_accesses + 1) % u64_mod;
        num_hits = if cache_hit then (c.num_hits + 1) % u64_mod else c.num_hits;
      }
      else c

  pub update_hits : Cache → ℕ → Cache
  update_hits c hits =
      if c.enabled
      then record c {
        num_accesses = (c.num_accesses + hits) % u64_mod;
        num_hits = (c.num_hits + hits) % u64_mod;
      }
      else c
