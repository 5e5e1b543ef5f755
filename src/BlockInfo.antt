-- ===== src/BlockInfo.antt =====
-- The cache block's tag and state, `CacheBlockInfo` of the simulator's cache_block_info.h. That file
-- is not part of this repository, so the type and its methods are a parameter here, and what the
-- code relies on is stated by `BlockLaws`. The two tests below are those of
-- common/core/memory_subsystem/cache/cache_set.cc.
use sniper.Base.{
  ℕ, ◌≡◌, ◌≢◌, Bool, true, false, not, none, some, List, get_elem?, refl, ◌==◌, arith,
  if◌then◌else◌,
}

-- `CacheBase::cache_t`.
pub data CacheType : Type 0 where
  invalid_cache_type pr_l1_cache pr_l2_cache shared_cache : CacheType

pub record BlockInfo : Type 1 where
  pub Info : Type 0
  pub create : CacheType → Info
  pub get_tag : Info → ℕ
  pub set_tag : Info → ℕ → Info
  pub is_valid : Info → Bool
  -- `getCState() == CacheState::SHARED_UPGRADING`
  pub is_upgrading : Info → Bool
  pub invalidate : Info → Info
  -- `clone dst src` is `dst` after `dst->clone(src)`.
  pub clone : Info → Info → Info
  -- The tag of a block that holds nothing.
  pub no_tag : ℕ

pub record BlockLaws (b : BlockInfo) : Type 0 where
  pub clone-get_tag : (d s : b.Info) → b.get_tag (b.clone d s) ≡ b.get_tag s
  pub set_tag-get_tag : (i : b.Info) (t : ℕ) → b.get_tag (b.set_tag i t) ≡ t
  pub invalidate-get_tag : (i : b.Info) → b.get_tag (b.invalidate i) ≡ b.no_tag
  pub is_valid-get_tag : (i : b.Info) → b.get_tag i ≢ b.no_tag → b.is_valid i ≡ true
  pub not_valid-get_tag : (i : b.Info) → b.get_tag i ≡ b.no_tag → b.is_valid i ≡ false

module _ (b : BlockInfo) where
  -- `m_cache_block_info_array[i]->isValid()`. Every index that the code reads is below the
  -- associativity, which is the array's length.
  abbrev pub is_valid_way : List b.Info → ℕ → Bool
  is_valid_way blocks i = elim (get_elem? blocks i) [ none ↦ false | some x ↦ b.is_valid x ]

  unfoldable pub is_valid_replacement : List b.Info → ℕ → Bool
  is_valid_replacement blocks i = elim (get_elem? blocks i) [
    | none ↦ false
    | some x ↦ if b.is_upgrading x then false else true
  ]

-- A block with a tag and an upgrade mark, as the simulator's own is: the tag of an empty block is
-- all ones.
pub record PlainBlock : Type 0 where
  pub tag : ℕ
  pub upgrading : Bool

abbrev pub plain : BlockInfo
plain = record {
  Info = PlainBlock;
  create = λ t. record { tag = 0xffff_ffff_ffff_ffff; upgrading = false };
  get_tag = λ i. i.tag;
  set_tag = λ i t. record i { tag = t };
  is_valid = λ i. not (i.tag == 0xffff_ffff_ffff_ffff);
  is_upgrading = λ i. i.upgrading;
  invalidate = λ i. record { tag = 0xffff_ffff_ffff_ffff; upgrading = false };
  clone = λ d s. s;
  no_tag = 0xffff_ffff_ffff_ffff;
}

pub plain-BlockLaws : BlockLaws plain
plain-BlockLaws = record {
  clone-get_tag = λ d s. refl;
  set_tag-get_tag = λ i t. refl;
  invalidate-get_tag = λ i. refl;
  is_valid-get_tag = λ i h. ground arith;
  not_valid-get_tag = λ i h. ground arith;
}
