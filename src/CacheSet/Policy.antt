-- ===== src/CacheSet/Policy.antt =====
-- The replacement policies' virtual functions, and the laws that a cache set relies on.
use sniper.Base.{ℕ, ◌<◌, ◌≡◌, Bool, Option, some, List}
use sniper.BlockInfo.{BlockInfo}
use sniper.Lru2.{Lru2, update_replacement_index, get_replacement_index}

pub record ReplacementPolicy (b : BlockInfo) : Type 1 where
  pub State : Type 0
  -- `updateReplacementIndex`
  pub update : State → ℕ → State
  -- `getReplacementIndex`, with the set's blocks and its `m_approx_flag`
  pub replace : State → List b.Info → Bool → Option (ℕ × State)

pub record PolicyLaws (b : BlockInfo) (p : ReplacementPolicy b) (ways : ℕ) : Type 1 where
  pub Inv : p.State → Type 0
  pub update-Inv : (s : p.State) (a : ℕ) → a < ways → Inv s → Inv (p.update s a)
  pub replace-Inv :
      (s : p.State) (blocks : List b.Info) (f : Bool) {k : ℕ} {s' : p.State}
      → Inv s
      → p.replace s blocks f ≡ some (k, s')
      → (k < ways) × Inv s'

-- `CacheSetLRU2` as a policy.
abbrev pub lru2 : (b : BlockInfo) → ReplacementPolicy b
lru2 b = record {
  State = Lru2;
  update = update_replacement_index;
  replace = get_replacement_index b;
}
