-- ===== src/Lru2.antt =====
-- The replacement policy `CacheSetLRU2`, common/core/memory_subsystem/cache/cache_set_lru2.cc and
-- cache_set_lru2.h: the ways below the margin hold exact blocks, the others approximate ones, and
-- each of the two segments keeps its own ages. An age is a `UInt8`.
pub mod Aging
pub mod Segments
pub mod Recency
pub mod Victim
pub mod Replacement
mod Tests
use sniper.Base.{
  ℕ, ◌+◌, ◌-◌, ◌%◌, Bool, true, false, ◌&&◌, Option, none, some, List, ltb, if◌then◌else◌, get_or,
  set, replicate, for_range, u8_mod, log2,
}
use sniper.BlockInfo.{BlockInfo, is_valid_way, is_valid_replacement}

pub record Lru2 : Type 0 where
  pub associativity : ℕ
  pub approx_margin : ℕ
  pub lru_bits : List ℕ

abbrev pub age_at : List ℕ → ℕ → ℕ
age_at bits i = get_or bits i 0

-- The constructor. `new UInt8[n]` leaves the array as it is; both loops together write all of it.
unfoldable pub create : ℕ → Lru2
unfolding for_range
create assoc = record {
  associativity = assoc;
  approx_margin = log2 assoc;
  lru_bits =
      for_range (assoc - log2 assoc) (log2 assoc) (λ i bits. set bits i ((i - log2 assoc) % u8_mod))
        (for_range (log2 assoc) 0 (λ i bits. set bits i (i % u8_mod)) (replicate assoc 0));
}

-- The body of the aging loops, `if (m_lru_bits[i] < m_lru_bits[a]) m_lru_bits[i] ++`.
abbrev pub age_way : ℕ → ℕ → List ℕ → List ℕ
age_way a i bits =
    if ltb (age_at bits i) (age_at bits a) then set bits i ((age_at bits i + 1) % u8_mod) else bits

-- One branch of `updateReplacementIndex`, for the segment of `n` ways from `lo` on.
pub touch_segment : ℕ → ℕ → ℕ → List ℕ → List ℕ
unfolding for_range
touch_segment n lo a bits = set (for_range n lo (age_way a) bits) a 0

pub update_replacement_index : Lru2 → ℕ → Lru2
update_replacement_index s a =
    if ltb a s.approx_margin
    then record s { lru_bits = touch_segment s.approx_margin 0 a s.lru_bits }
    else record s {
      lru_bits = touch_segment (s.associativity - s.approx_margin) s.approx_margin a s.lru_bits;
    }

module _ (b : BlockInfo) where
  -- The first loop of `getReplacementIndex`: the first way of the segment that holds no block.
  unfoldable pub first_invalid : List b.Info → ℕ → ℕ → Option ℕ
  first_invalid blocks ℕ.zero i = none
  first_invalid blocks (ℕ.suc n) i =
      let rest = first_invalid blocks n (i + 1) in if is_valid_way b blocks i then rest else some i

  -- The second loop, on `index` and `max_bits`.
  abbrev pub scan_way : List b.Info → List ℕ → ℕ → ℕ × ℕ → ℕ × ℕ
  scan_way blocks bits i (index, max_bits) =
      if ltb max_bits (age_at bits i) && is_valid_replacement b blocks i
      then (i, age_at bits i)
      else (index, max_bits)

  pub oldest_way : List b.Info → List ℕ → ℕ → ℕ → ℕ
  unfolding for_range is_valid_replacement
  oldest_way blocks bits n lo = (for_range n lo (scan_way blocks bits) (lo, 0)).0

  -- One branch of `getReplacementIndex`, for the ways from `lo` to `hi`. `none` is the failed
  -- assertion "Error Finding LRU bits", which stops the simulator.
  unfoldable pub replace_in : List b.Info → Lru2 → ℕ → ℕ → Option (ℕ × Lru2)
  unfolding first_invalid oldest_way
  replace_in blocks s lo hi = elim (first_invalid blocks (hi - lo) lo) [
    | some i ↦ some (i, update_replacement_index s i)
    | none ↦
        let index = oldest_way blocks s.lru_bits (hi - lo) lo in
        if ltb index hi then some (index, update_replacement_index s index) else none
  ]

  unfoldable pub get_replacement_index : Lru2 → List b.Info → Bool → Option (ℕ × Lru2)
  unfolding replace_in
  get_replacement_index s blocks approx_flag =
      if approx_flag
      then replace_in blocks s s.approx_margin s.associativity
      else replace_in blocks s 0 s.approx_margin
