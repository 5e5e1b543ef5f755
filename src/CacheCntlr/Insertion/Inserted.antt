-- ===== src/CacheCntlr/Insertion/Inserted.antt =====
-- What an insertion leaves: the new line, other addresses' lines, and no copy of the evicted line.
use mathlib.Core.List.{Memᴰ}
use sniper.Base.{
  ℕ, ◌≡◌, refl, ◌∙◌, sym, subst, some_inj, Bool, true, false, Option, none, some, List, arith,
  Option-cases, inl, inr, ◌==◌, ◌⊎◌, ==-ne,
}
use sniper.Base.Results.{assert_inv}
use sniper.CacheCntlr.{
  CState, invalid, ◌=s◌, Line, Config, DramInterface, Hierarchy, put_line, get_cache_state,
}
use sniper.CacheCntlr.Update.Frame.{Filled}
use sniper.CacheCntlr.Update.Invalidation.{Below}
use sniper.CacheCntlr.Insertion.{evict_line, evict_after, insert_single_line, insert_cache_block}
use sniper.CacheCntlr.Insertion.Eviction.{evict_line-OnlyLines, evict_line-gone}

module _ (d : DramInterface) (t : ℕ → Config) (levels : ℕ) (home : ℕ → ℕ)
    (victim : ℕ → (ℕ → Option Line) → ℕ → Option ℕ) (warming : Bool) where
  -- The line at `ea`, `old`, leaves for the line at `address`.
  pub record IsEvicted (h : Hierarchy d) (k address ea : ℕ) (old : Line) : Type 0 where
    pub chosen : victim k (h.cntlrs k).lines address ≡ some ea
    pub held : (h.cntlrs k).lines ea ≡ some old

  insert_single_line_cases :
      (h : Hierarchy d) (k address : ℕ) (line : Line)
      → ((insert_single_line d t levels home victim warming h k address line
            ≡ (put_line d h k address (some line), none))
          × ((ea : ℕ) (old : Line) → ¬ IsEvicted h k address ea old))
        ⊎ ((ea : ℕ) × (old : Line) × IsEvicted h k address ea old
            × (insert_single_line d t levels home victim warming h k address line
                ≡ (put_line d (put_line d h k ea none) k address (some line), some (ea, old))))
  unfolding insert_single_line
  insert_single_line_cases h k address line =
      elim (Option-cases (victim k (h.cntlrs k).lines address)) [
        | inl stays ↦
            inl (rw (stays, insert_single_line) refl, λ ea old i. absurd (cc (stays, i.chosen)))
        | inr (ea, chosen) ↦ elim (Option-cases ((h.cntlrs k).lines ea)) [
          | inl empty ↦ inl (
            rw (chosen, empty, insert_single_line) refl,
            λ ea' old i. absurd (cc (chosen, empty, i.chosen, i.held)),
          )
          | inr (old, held) ↦ inr (
            ea,
            old,
            record { chosen = chosen; held = held },
            rw (chosen, held, insert_single_line) refl,
          )
        ]
      ]

  apart :
      (h : Hierarchy d) (k address ea : ℕ) (old : Line)
      → (h.cntlrs k).lines address ≡ none
      → (h.cntlrs k).lines ea ≡ some old
      → (address == ea) ≡ false
  apart h k address ea old absent held = ==-ne address ea (λ same. absurd (cc (same, absent, held)))

  -- What an insertion of `line` has done.
  pub record IsInserted (h h' : Hierarchy d) (k address : ℕ) (line : Line) : Type 0 where
    pub inserted : (h'.cntlrs k).lines address ≡ some line
    pub kept :
        (j x : ℕ)
        → (x == address) ≡ false
        → ((ea : ℕ) (old : Line) → IsEvicted h k address ea old → (x == ea) ≡ false)
        → (h'.cntlrs j).lines x ≡ (h.cntlrs j).lines x
    pub evicted_gone :
        (ea : ℕ) (old : Line)
        → IsEvicted h k address ea old
        → Filled d ea h
        → (i j : ℕ) → Memᴰ i (t k).prev_cache_cntlrs
        → Below t i j
        → (t j).coherent ≡ true
        → (h'.cntlrs j).lines ea ≡ none

  evicted_IsInserted :
      (h : Hierarchy d) (k address : ℕ) (line : Line) (ea : ℕ) (old : Line) {h' : Hierarchy d}
      → (h.cntlrs k).lines address ≡ none
      → IsEvicted h k address ea old
      → evict_line d t levels home victim warming
          (put_line d (put_line d h k ea none) k address (some line))
          k
          ea
          old
        ≡ some h'
      → IsInserted h h' k address line
  evicted_IsInserted h k address line ea old {h'} absent i e =
      let h1 = put_line d (put_line d h k ea none) k address (some line) in
      let o = evict_line-OnlyLines d t levels home victim warming h1 k ea old e in
      let ne = apart h k address ea old absent i.held in
      record {
        inserted = o.others k address ne ∙ ground arith;
        kept = λ j x nx none_left.
            o.others j x (none_left ea old i) ∙ ground (arith, nx, none_left ea old i);
        evicted_gone = λ ea' old' i' full x j m below coherent.
            let same : ea ≡ ea' = some_inj (sym i.chosen ∙ i'.chosen) in
            let full' : Filled d ea h = subst (λ (y : ℕ). Filled d y h) (sym same) full in
            subst (λ (y : ℕ). (h'.cntlrs j).lines y ≡ none) same
              (evict_line-gone d t levels home victim warming h1 k ea old
                (λ z l there. ground (arith, full' z l, ne)) e x j m below coherent);
      }

  -- After an insertion of a line that the cache does not hold, the cache holds the line with the
  -- state and the bytes given; every other line but the evicted one is in every cache as before;
  -- and no coherent cache before it holds the evicted line, if no cache held that one in the state
  -- INVALID.
  pub insert_cache_block-IsInserted :
      (h : Hierarchy d) (k address : ℕ) (cstate : CState) (data_buf : List ℕ) {h' : Hierarchy d}
      → (h.cntlrs k).lines address ≡ none
      → insert_cache_block d t levels home victim warming h k address cstate data_buf ≡ some h'
      → IsInserted h h' k address
          (record { cstate = cstate; data_buf = data_buf; prefetch = false; warmup = warming })
  unfolding insert_cache_block evict_after
  insert_cache_block-IsInserted h k address cstate data_buf {h'} absent e =
      let line : Line = record {
        cstate = cstate;
        data_buf = data_buf;
        prefetch = false;
        warmup = warming;
      } in
      let (_, e1) = assert_inv (get_cache_state d h k address =s invalid) e in
      elim (insert_single_line_cases h k address line) [
        | inl (stays, no_victim) ↦
            subst (λ (x : Hierarchy d). IsInserted h x k address line) (some_inj (rw stays at e1))
              (record {
                inserted = ground arith;
                kept = λ j x ne _. ground (arith, ne);
                evicted_gone = λ ea old i. absurd (no_victim ea old i);
              })
        | inr (ea, old, i, result) ↦
            evicted_IsInserted h k address line ea old absent i (rw result at e1)
      ]

  -- Another cache that does not hold the line does not hold it afterwards.
  pub insert_cache_block-elsewhere :
      (h : Hierarchy d) (k address : ℕ) (cstate : CState) (data_buf : List ℕ) {h' : Hierarchy d}
      → (h.cntlrs k).lines address ≡ none
      → insert_cache_block d t levels home victim warming h k address cstate data_buf ≡ some h'
      → (j : ℕ) → (j == k) ≡ false
      → (h.cntlrs j).lines address ≡ none
      → (h'.cntlrs j).lines address ≡ none
  unfolding insert_cache_block evict_after
  insert_cache_block-elsewhere h k address cstate data_buf {h'} absent e j ne gone =
      let line : Line = record {
        cstate = cstate;
        data_buf = data_buf;
        prefetch = false;
        warmup = warming;
      } in
      let (_, e1) = assert_inv (get_cache_state d h k address =s invalid) e in
      elim (insert_single_line_cases h k address line) [
        | inl (stays, _) ↦
            subst (λ (x : Hierarchy d). (x.cntlrs j).lines address ≡ none)
              (some_inj (rw stays at e1)) (ground (arith, ne, gone))
        | inr (ea, old, i, result) ↦
            let h1 = put_line d (put_line d h k ea none) k address (some line) in
            (evict_line-OnlyLines d t levels home victim warming h1 k ea old
                (rw result at e1)).others
              j address (apart h k address ea old absent i.held)
            ∙ ground (arith, ne, gone)
      ]
