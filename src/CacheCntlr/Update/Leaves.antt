-- ===== src/CacheCntlr/Update/Leaves.antt =====
-- A flush of the first-level caches before a controller, one of which has written the line.
use mathlib.Core.List.{Memᴰ}
use sniper.Base.{
  ℕ, suc, ◌≡◌, refl, Bool, true, false, ltb, Option, none, some, List, [], ◌∷◌, ◌++◌, arith,
  if◌then◌else◌, ◌==◌,
}
use sniper.CacheCntlr.{
  ◌=s◌, invalid, modified, shared, coherency, Line, Config, DramInterface, Hierarchy, copy_to,
  put_line, put_stats, retrieve_cache_block, set_cstate, invalidate_cache_block,
}
use sniper.CacheCntlr.Update.{
  Updated, write_line, write_own, write_cache_block, write_back, write_dirty, change_state,
  count_transition, update_present, update_block, update_own, check_updated, update_prevs,
  update_cache_block,
}
use sniper.CacheCntlr.Update.Kept.{update_cache_block-Only}

module _ (d : DramInterface) (t : ℕ → Config) (address levels n : ℕ) where
  unfoldable pub flush_leaf : Hierarchy d → ℕ → Option (Updated d)
  flush_leaf h i = update_cache_block d t levels (suc n) h i address invalid coherency false

  untouched : Hierarchy d → Updated d
  untouched h = record { hier = h; latency = 0; sibling_hit = false; out = none }

  flush_leaf-absent :
      (h : Hierarchy d) (i : ℕ)
      → (t i).prev_cache_cntlrs ≡ []
      → (h.cntlrs i).lines address ≡ none
      → flush_leaf h i ≡ some (untouched h)
  unfolding flush_leaf update_cache_block update_own update_block check_updated update_prevs
      untouched
  flush_leaf-absent h i leaf gone = ground (arith, leaf, gone)

  flush_prevs-absent :
      (h : Hierarchy d) (ks : List ℕ)
      → ((i : ℕ) → Memᴰ i ks → (t i).prev_cache_cntlrs ≡ [])
      → ((i : ℕ) → Memᴰ i ks → (h.cntlrs i).lines address ≡ none)
      → update_prevs d t (λ i g. flush_leaf g i) ks h ≡ some (h, 0, false)
  unfolding update_prevs untouched
  flush_prevs-absent h [] leaves gone = refl
  flush_prevs-absent h (k ∷ ks) leaves gone =
      rw (flush_leaf-absent h k (leaves k (Memᴰ.head refl)) (gone k (Memᴰ.head refl))) (
        rw (flush_prevs-absent h ks (λ i m. leaves i (Memᴰ.tail m)) (λ i m. gone i (Memᴰ.tail m)))
          refl)

  write_cache_block-line :
      (h : Hierarchy d) (k up : ℕ) (buf : List ℕ) (above : Line)
      → levels ≡ suc up
      → (t k).writethrough ≡ false
      → (h.cntlrs k).evicting ≡ none
      → (h.cntlrs k).lines address ≡ some above
      → (above.cstate =s modified) ≡ true
      → write_cache_block d t levels h k address 0 buf
        ≡ some (
            put_line d h k address
              (some (record above { data_buf = copy_to above.data_buf 0 buf })))
  unfolding write_cache_block write_own write_line
  write_cache_block-line h k up buf above lv wt ev there dirty =
      ground (arith, lv, wt, ev, there, dirty)

  retrieved :
      (h : Hierarchy d) (j : ℕ) (line : Line)
      → (h.cntlrs j).lines address ≡ some line
      → retrieve_cache_block d h j address ≡ some line.data_buf
  retrieved h j line here = rw (here, retrieve_cache_block) refl

  write_dirty-next :
      (h : Hierarchy d) (j k up : ℕ) (line above : Line)
      → levels ≡ suc up
      → (t j).next_cache_cntlr ≡ some k
      → (t j).writethrough ≡ false
      → (t k).writethrough ≡ false
      → (h.cntlrs k).evicting ≡ none
      → (h.cntlrs j).lines address ≡ some line
      → (line.cstate =s modified) ≡ true
      → (h.cntlrs k).lines address ≡ some above
      → (above.cstate =s modified) ≡ true
      → write_dirty d t levels h j address false line
        ≡ some (
          set_cstate d
              (put_line d h k address
                (some (record above { data_buf = copy_to above.data_buf 0 line.data_buf })))
              j
              address
              shared,
          true,
          none,
        )
  unfolding write_dirty write_back
  write_dirty-next h j k up line above lv next wt wtk ev here dirty there dirty' =
      let e = write_cache_block-line h k up line.data_buf above lv wtk ev there dirty' in
      rw (dirty, wt, next, retrieved h j line here) (rw e refl)

  -- The dirty line of a first-level cache `j` is in `k` after its invalidation.
  unfoldable pub leaf_flushed : Hierarchy d → ℕ → ℕ → Line → Line → Updated d
  leaf_flushed h j k line above = record {
    hier =
        put_line d
          (set_cstate d
            (put_line d
              (put_stats d h j (count_transition coherency invalid line (h.cntlrs j).stats)) k
              address (some (record above { data_buf = copy_to above.data_buf 0 line.data_buf })))
            j address shared)
          j address none;
    latency = (t j).writeback_time;
    sibling_hit = true;
    out = none;
  }

  -- A first-level cache `j` and the cache `k` behind it hold the line MODIFIED, and both write back.
  pub record IsDirty (h : Hierarchy d) (j k : ℕ) (line above : Line) : Type 0 where
    pub apart : ((j == k) ≡ false) × ((k == j) ≡ false)
    pub first_level : (t j).prev_cache_cntlrs ≡ []
    pub linked : (t j).next_cache_cntlr ≡ some k
    pub writes_back : ((t j).writethrough ≡ false) × ((t k).writethrough ≡ false)
    pub is_coherent : (t j).coherent ≡ true
    pub no_eviction : (h.cntlrs k).evicting ≡ none
    pub held : (h.cntlrs j).lines address ≡ some line
    pub written : (line.cstate =s modified) ≡ true
    pub held_above : (h.cntlrs k).lines address ≡ some above
    pub written_above : (above.cstate =s modified) ≡ true

  flush_leaf-dirty :
      (h : Hierarchy d) (j k up : ℕ) (line above : Line)
      → levels ≡ suc up
      → IsDirty h j k line above
      → flush_leaf h j ≡ some (leaf_flushed h j k line above)
  unfolding flush_leaf update_cache_block update_own update_block update_present update_prevs
      check_updated leaf_flushed change_state invalidate_cache_block
  flush_leaf-dirty h j k up line above lv i =
      let ne = i.apart.0 in
      let ne' = i.apart.1 in
      let leaf = i.first_level in
      let coh = i.is_coherent in
      let here = i.held in
      let w =
        write_dirty-next
          (put_stats d h j (count_transition coherency invalid line (h.cntlrs j).stats)) j k up line
          above lv i.linked i.writes_back.0 i.writes_back.1 (ground (arith, ne', i.no_eviction))
          (ground (arith, here)) i.written (ground (arith, ne', i.held_above)) i.written_above in
      ground (arith, w, leaf, coh, here, ne, ne')

  -- The other first-level caches do not hold the line.
  abbrev pub AreAbsent : Hierarchy d → List ℕ → Type 0
  AreAbsent h ks =
      (i : ℕ) → Memᴰ i ks → ((t i).prev_cache_cntlrs ≡ []) × ((h.cntlrs i).lines address ≡ none)

  pub leaf_flushed_lem :
      (h : Hierarchy d) (j k : ℕ) (line above : Line)
      → ((j == k) ≡ false) × ((k == j) ≡ false)
      → (((leaf_flushed h j k line above).hier.cntlrs k).lines address
          ≡ some (record above { data_buf = copy_to above.data_buf 0 line.data_buf }))
        × (((leaf_flushed h j k line above).hier.cntlrs j).lines address ≡ none)
  unfolding leaf_flushed
  leaf_flushed_lem h j k line above (ne, ne') = (ground (arith, ne, ne'), ground (arith, ne, ne'))

  pub flush_prevs-dirty :
      (h : Hierarchy d) (before after : List ℕ) (j k up : ℕ) (line above : Line)
      → levels ≡ suc up
      → IsDirty h j k line above
      → AreAbsent h before
      → AreAbsent h after
      → (latency : ℕ) × (hit : Bool) × (update_prevs d t
            (λ i g. flush_leaf g i)
            (before ++ j ∷ after)
            h
          ≡ some ((leaf_flushed h j k line above).hier, latency, hit))
  unfolding update_prevs flush_leaf leaf_flushed untouched
  flush_prevs-dirty h [] after j k up line above lv i none_before none_after =
      let e = flush_leaf-dirty h j k up line above lv i in
      let kept = update_cache_block-Only d address t levels (suc n) h j invalid coherency false e in
      (
        if ltb 0 (t j).writeback_time then (t j).writeback_time else 0,
        true,
        rw e (
            rw
              (flush_prevs-absent (leaf_flushed h j k line above).hier after
                (λ x m. (none_after x m).0) (λ x m. kept.absent x (none_after x m).1))
              refl),
      )
  flush_prevs-dirty h (x ∷ before) after j k up line above lv i none_before none_after =
      let (latency, hit, e) =
        flush_prevs-dirty h before after j k up line above lv i (λ y m. none_before y (Memᴰ.tail m))
          none_after in
      let (leaf, gone) = none_before x (Memᴰ.head refl) in
      (if ltb latency 0 then 0 else latency, hit, rw (flush_leaf-absent h x leaf gone) (rw e refl))
