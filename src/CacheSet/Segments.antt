-- ===== src/CacheSet/Segments.antt =====
-- Where `insert` puts a block in a set with the policy `CacheSetLRU2`.
use sniper.Base.{ℕ, ◌≤◌, ◌<◌, ◌≡◌, ◌≢◌, Bool, Option, none, some, List}
use sniper.BlockInfo.{BlockInfo, BlockLaws}
use sniper.Lru2.{update_replacement_index}
use sniper.Lru2.Replacement.{
  Victim, empty, oldest, first_way, end_way, get_replacement_index-Victim,
}
use sniper.CacheSet.Policy.{lru2}
use sniper.CacheSet.Lru2Laws.{lru2_laws}
use sniper.CacheSet.Invariant.{IsValid}
use sniper.CacheSet.Insertion.{insert_lem}
use sniper.CacheSet.{CacheSet, Inserted, find, insert, insert_address}

module _ (b : BlockInfo) (block : BlockLaws b) (ways : ℕ) (is_block_approx : ℕ → ℕ → Bool)
    (s : CacheSet b (lru2 b)) (info : b.Info) where
  -- What the magic server says of the block's address.
  abbrev pub approx_flag : Bool
  approx_flag = is_block_approx (insert_address b (lru2 b) s info) s.blocksize

  Victim-bounds : (lo hi k : ℕ) → Victim b s.blocks s.policy lo hi k → (lo ≤ k) × (k < hi)
  Victim-bounds lo hi k (empty p q _ _) = (p, q)
  Victim-bounds lo hi k (oldest p q _ _) = (p, q)

  -- In a valid set with the policy LRU2, insert of a tag that the set does not hold, into a segment
  -- that has a way, succeeds, and the block is then found in a way from the margin on if the magic
  -- server says that the block is approximate, and in one below the margin otherwise.
  pub insert-segment :
      (fill : Option (List ℕ)) (evict : b.Info) (wanted : Bool)
      → IsValid b (lru2 b) (lru2_laws b ways) s
      → b.get_tag info ≢ b.no_tag
      → find b (lru2 b) s (b.get_tag info) ≡ none
      → first_way s.policy approx_flag < end_way s.policy approx_flag
      → (k : ℕ) × (old : b.Info) × (s' : CacheSet b (lru2 b)) × (r : Inserted b) × (insert b
            (lru2 b)
            is_block_approx
            s
            info
            fill
            evict
            wanted
          ≡ some (s', r))
        × (first_way s.policy approx_flag ≤ k)
        × (k < end_way s.policy approx_flag)
        × (find b (lru2 b) s' (b.get_tag info) ≡ some (k, b.clone old info))
  insert-segment fill evict wanted v live absent some_way =
      let (k, chosen, victim) =
        get_replacement_index-Victim b s.blocks s.policy approx_flag some_way in
      let (old, s', r, e, replaced) =
        insert_lem b (lru2 b) (lru2_laws b ways) block is_block_approx s info fill evict wanted k
          (update_replacement_index s.policy k) v live absent chosen in
      let bounds =
        Victim-bounds (first_way s.policy approx_flag) (end_way s.policy approx_flag) k victim in
      (k, old, s', r, e, bounds.0, bounds.1, replaced.placed)
