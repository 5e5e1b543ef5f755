-- ===== src/CacheCntlr/Update/Flush.antt =====
-- A flush of a line that one first-level cache has written: the bytes that it returns.
use sniper.Base.{
  ℕ, zero, suc, ◌≤◌, ◌≡◌, refl, ◌∙◌, ap, Bool, true, false, ◌||◌, none, some, List, [], ◌∷◌, ◌++◌,
  arith, ◌+◌, length, drop,
}
use sniper.Base.Results.{bind_cong_both}
use sniper.CacheCntlr.{
  ◌=s◌, invalid, modified, shared, coherency, Line, Config, DramInterface, Hierarchy, copy_to,
  put_line, put_stats, set_cstate, invalidate_cache_block,
}
use sniper.CacheCntlr.Update.{
  Updated, write_back, write_dirty, change_state, count_transition, update_present, update_block,
  update_own, check_updated, update_cache_block,
}
use sniper.CacheCntlr.Update.Kept.{update_own-Only}
use sniper.CacheCntlr.Update.Leaves.{
  IsDirty, AreAbsent, leaf_flushed, leaf_flushed_lem, flush_leaf, flush_prevs-dirty,
}

drop_all : (xs : List ℕ) (n : ℕ) → length xs ≤ n → drop n xs ≡ []
drop_all [] zero le = refl
drop_all [] (suc n) le = refl
drop_all (x ∷ xs) zero le = absurd (omega arith)
drop_all (x ∷ xs) (suc n) le = drop_all xs n (omega arith)

append_nil : (xs : List ℕ) → xs ++ [] ≡ xs
append_nil [] = refl
append_nil (x ∷ xs) = ap (λ ys. x ∷ ys) (append_nil xs)

copy_whole : (old buf : List ℕ) → length old ≤ length buf → copy_to old 0 buf ≡ buf
copy_whole old buf le =
    ap (λ ys. buf ++ ys) (drop_all old (0 + length buf) (omega arith)) ∙ append_nil buf

module _ (d : DramInterface) (t : ℕ → Config) (address levels n : ℕ) where
  -- The flush of a dirty line of the last level.
  own_flushed : Hierarchy d → Bool → ℕ → Line → Updated d
  own_flushed h sibling_hit k line = record {
    hier =
        put_line d
          (set_cstate d
            (put_stats d h k (count_transition coherency invalid line (h.cntlrs k).stats)) k address
            shared)
          k address none;
    latency = (t k).writeback_time;
    sibling_hit = sibling_hit || true;
    out = some line.data_buf;
  }

  flush_own-dirty :
      (h : Hierarchy d) (sibling_hit : Bool) (k : ℕ) (line : Line)
      → (t k).next_cache_cntlr ≡ none
      → (t k).writethrough ≡ false
      → (t k).coherent ≡ true
      → (h.cntlrs k).lines address ≡ some line
      → (line.cstate =s modified) ≡ true
      → update_own d t levels h sibling_hit k address invalid coherency true
        ≡ some (own_flushed h sibling_hit k line)
  unfolding update_own update_block update_present write_dirty write_back check_updated own_flushed
      change_state invalidate_cache_block
  flush_own-dirty h sibling_hit k line last wt coh there dirty =
      ground (arith, last, wt, coh, there, dirty)

  -- A flush of a line that one first-level cache has written returns that cache's bytes.
  pub flush-dirty :
      (h : Hierarchy d) (before after : List ℕ) (j k up : ℕ) (line above : Line)
      → levels ≡ suc up
      → (t k).prev_cache_cntlrs ≡ before ++ j ∷ after
      → (t k).next_cache_cntlr ≡ none
      → (t k).coherent ≡ true
      → length above.data_buf ≤ length line.data_buf
      → IsDirty d t address levels n h j k line above
      → AreAbsent d t address levels n h before
      → AreAbsent d t address levels n h after
      → (r : Updated d) × (update_cache_block d t levels
            (suc (suc n))
            h
            k
            address
            invalid
            coherency
            true
          ≡ some r)
        × (r.out ≡ some line.data_buf)
        × ((r.hier.cntlrs k).lines address ≡ none)
        × ((r.hier.cntlrs j).lines address ≡ none)
  unfolding update_cache_block flush_leaf own_flushed
  flush-dirty h before after j k up line above lv prevs last coh le i none_before none_after =
      let (latency, hit, e) =
        flush_prevs-dirty d t address levels n h before after j k up line above lv i none_before
          none_after in
      let h1 = (leaf_flushed d t address levels n h j k line above).hier in
      let line' = record above { data_buf = copy_to above.data_buf 0 line.data_buf } in
      let (there, gone) = leaf_flushed_lem d t address levels n h j k line above i.apart in
      let own = flush_own-dirty h1 hit k line' last i.writes_back.1 coh there i.written_above in
      (
        own_flushed h1 hit k line',
        rw prevs (bind_cong_both e (λ _. refl) ∙ own),
        ap some (copy_whole above.data_buf line.data_buf le),
        ground arith,
        (update_own-Only d address t levels h1 hit k invalid coherency true own).absent j gone,
      )
