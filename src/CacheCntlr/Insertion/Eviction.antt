-- ===== src/CacheCntlr/Insertion/Eviction.antt =====
-- What an insertion leaves: the new line, other addresses' lines, and no copy of the evicted line.
use mathlib.Core.List.{Memᴰ}
use sniper.Base.{
  ℕ, ◌≡◌, ◌∙◌, ap, sym, subst, some_inj, Bool, true, false, not, ◌&&◌, ◌||◌, Option, none, some,
  List, [], ◌∷◌, Option-cases, inl, inr, ◌==◌,
}
use sniper.Base.Results.{bind_inv, assert_inv, if_inv}
use sniper.CacheCntlr.{
  invalid, shared, modified, exclusive, ◌=s◌, back_inval, write, Line, Config, DramInterface,
  Hierarchy, put, put_stats, get_cache_state, Cntlr,
}
use sniper.CacheCntlr.Update.{update_prevs, update_cache_block}
use sniper.CacheCntlr.Update.Frame.{
  Filled, Only, Only-refl, Only-trans, Only-subst, put-Only, put_stats-Only, put_evicting-Only,
}
use sniper.CacheCntlr.Update.Kept.{
  write_cache_block-Only, update_prevs-Only, update_cache_block-Only,
}
use sniper.CacheCntlr.Update.Invalidation.{Below, prevs-gone, prevs_step, update_cache_block-gone}
use sniper.CacheCntlr.Insertion.{
  count_evict, access_dram, evict_prevs, dispose_to_dram, dispose_to_directory, dispose_to_next,
  dispose, evict_line,
}

module _ (d : DramInterface) (t : ℕ → Config) (levels : ℕ) (home : ℕ → ℕ)
    (victim : ℕ → (ℕ → Option Line) → ℕ → Option ℕ) (warming : Bool) where
  -- What is done with the evicted line touches no other address.
  pub record OnlyLines (address : ℕ) (h h' : Hierarchy d) : Type 0 where
    pub others : (j x : ℕ) → (x == address) ≡ false → (h'.cntlrs j).lines x ≡ (h.cntlrs j).lines x
    pub absent : (j : ℕ) → (h.cntlrs j).lines address ≡ none → (h'.cntlrs j).lines address ≡ none

  weaken : (address : ℕ) (h h' : Hierarchy d) → Only d address h h' → OnlyLines address h h'
  weaken address h h' o = record { others = o.others; absent = o.absent }

  same_lines : (address : ℕ) (h h' : Hierarchy d) → h'.cntlrs ≡ h.cntlrs → OnlyLines address h h'
  same_lines address h h' e = record {
    others = λ j x _. ap (λ (c : ℕ → Cntlr). (c j).lines x) e;
    absent = λ j gone. ap (λ (c : ℕ → Cntlr). (c j).lines address) e ∙ gone;
  }

  cntlrs_inj : {h h' : Hierarchy d} → some h ≡ some h' → h'.cntlrs ≡ h.cntlrs
  cntlrs_inj e = ap (λ (x : Hierarchy d). x.cntlrs) (sym (some_inj e))

  evict_prevs-Only :
      (ks : List ℕ) (h : Hierarchy d) (k address : ℕ) (buf : List ℕ) {h' : Hierarchy d}
      {buf' : List ℕ}
      → evict_prevs d t levels home victim warming ks h k address buf ≡ some (h', buf')
      → Only d address h h'
  unfolding evict_prevs
  evict_prevs-Only [] h k address buf e = Only-subst d address h (cc e) (Only-refl d address h)
  evict_prevs-Only (x ∷ xs) h k address buf e =
      let ((h1, latency, hit), prevs, e1) = bind_inv (update_prevs d t _ (x ∷ xs) _) e in
      let ((_, buf1), _, e2) = bind_inv (h1.cntlrs k).evicting e1 in
      Only-subst d address h (ap (λ (x : Hierarchy d × List ℕ). some x.0) (some_inj e2)) (
        Only-trans d address h _ _ (put_evicting-Only d address h k (some (address, buf))) (
          Only-trans d address _ h1 _
            (update_prevs-Only d address t _
              (λ j g r here.
                update_cache_block-Only d address t levels levels g j invalid back_inval false here)
              (x ∷ xs) _ prevs)
            (put-Only d address h1 k none _)))

  dispose_to_dram-same :
      (h : Hierarchy d) (address : ℕ) (line : Line) (buf : List ℕ) {h' : Hierarchy d}
      → dispose_to_dram d t levels home victim warming h address line buf ≡ some h'
      → h'.cntlrs ≡ h.cntlrs
  unfolding dispose_to_dram access_dram
  dispose_to_dram-same h address line buf e = elim (if_inv (line.cstate =s modified) e) [
    | inl (_, e1) ↦
        let ((_, h1), accessed, e2) = bind_inv (access_dram d write h address buf) e1 in
        let (dram, _, e3) = bind_inv (d.put_bytes h.dram address buf) accessed in
        cntlrs_inj e2 ∙ ap (λ (x : List ℕ × Hierarchy d). x.1.cntlrs) (sym (some_inj e3))
    | inr (_, e1) ↦ cntlrs_inj e1
  ]

  dispose_to_directory-same :
      (h : Hierarchy d) (k address : ℕ) (line : Line) (buf : List ℕ) {h' : Hierarchy d}
      → dispose_to_directory d t levels home victim warming h k address line buf ≡ some h'
      → h'.cntlrs ≡ h.cntlrs
  unfolding dispose_to_directory
  dispose_to_directory-same h k address line buf e = elim (if_inv (line.cstate =s modified) e) [
    | inl (_, e1) ↦ cntlrs_inj e1
    | inr (_, e1) ↦
        let (_, e2) = assert_inv ((line.cstate =s shared) || (line.cstate =s exclusive)) e1 in
        cntlrs_inj e2
  ]

  dispose_to_next-Only :
      (h : Hierarchy d) (k next address : ℕ) (line : Line) (buf : List ℕ) {h' : Hierarchy d}
      → dispose_to_next d t levels home victim warming h k next address line buf ≡ some h'
      → Only d address h h'
  unfolding dispose_to_next
  dispose_to_next-Only h k next address line buf e =
      elim (if_inv (not (t k).writethrough && (line.cstate =s modified)) e) [
        | inl (_, e1) ↦ write_cache_block-Only d address t levels h next 0 buf e1
        | inr (_, e1) ↦ Only-subst d address h e1 (Only-refl d address h)
      ]

  dispose-OnlyLines :
      (h : Hierarchy d) (k address : ℕ) (line : Line) (buf : List ℕ) {h' : Hierarchy d}
      → dispose d t levels home victim warming h k address line buf ≡ some h'
      → OnlyLines address h h'
  unfolding dispose
  dispose-OnlyLines h k address line buf e = elim (if_inv (t k).perfect e) [
    | inl (_, e1) ↦ same_lines address h _ (cntlrs_inj e1)
    | inr (_, e1) ↦ elim (if_inv (not (t k).coherent) e1) [
      | inl (_, e2) ↦
          let (_, e3) = assert_inv ((t k).writethrough || not (line.cstate =s modified)) e2 in
          same_lines address h _ (cntlrs_inj e3)
      | inr (_, e2) ↦ elim (Option-cases (t k).next_cache_cntlr) [
        | inl last ↦ elim (if_inv (t k).dram_direct (rw last at e2)) [
          | inl (_, e3) ↦ same_lines address h _ (dispose_to_dram-same h address line buf e3)
          | inr (_, e3) ↦ same_lines address h _ (dispose_to_directory-same h k address line buf e3)
        ]
        | inr (next, there) ↦
            weaken address h _ (dispose_to_next-Only h k next address line buf (rw there at e2))
      ]
    ]
  ]

  evict_prevs-gone :
      (ks : List ℕ) (h : Hierarchy d) (k address : ℕ) (buf : List ℕ) {h' : Hierarchy d}
      {buf' : List ℕ}
      → Filled d address h
      → evict_prevs d t levels home victim warming ks h k address buf ≡ some (h', buf')
      → (i j : ℕ) → Memᴰ i ks
      → Below t i j
      → (t j).coherent ≡ true
      → (h'.cntlrs j).lines address ≡ none
  unfolding evict_prevs
  evict_prevs-gone [] h k address buf full e i j m below coherent = elim m [ ]
  evict_prevs-gone (x ∷ xs) h k address buf full e i j m below coherent =
      let h0 = put d h k (record (h.cntlrs k) { evicting = some (address, buf) }) in
      let ((h1, latency, hit), prevs, e1) =
        bind_inv
          (update_prevs d t
            (λ j g. update_cache_block d t levels levels g j address invalid back_inval false)
            (x ∷ xs) h0)
          e in
      let ((_, buf1), _, e2) = bind_inv (h1.cntlrs k).evicting e1 in
      let full0 = (put_evicting-Only d address h k (some (address, buf))).filled full in
      let gone =
        prevs-gone d t address _ (prevs_step d t address levels levels back_inval) j (x ∷ xs) i m
          (λ g r full' here.
            update_cache_block-gone d t address levels levels g i back_inval false j full' below
              coherent here)
          h0 full0 prevs in
      subst (λ (x : Hierarchy d × List ℕ). (x.0.cntlrs j).lines address ≡ none) (some_inj e2)
        ((put-Only d address h1 k none _).absent j gone)

  pub evict_line-OnlyLines :
      (h : Hierarchy d) (k address : ℕ) (line : Line) {h' : Hierarchy d}
      → evict_line d t levels home victim warming h k address line ≡ some h'
      → OnlyLines address h h'
  unfolding evict_line
  evict_line-OnlyLines h k address line {h'} e =
      let h0 = put_stats d h k (count_evict line (h.cntlrs k).stats) in
      let ((h1, buf), prevs, e1) =
        bind_inv
          (evict_prevs d t levels home victim warming (t k).prev_cache_cntlrs h0 k address
            line.data_buf)
          e in
      let (h2, disposed, e2) =
        bind_inv (dispose d t levels home victim warming h1 k address line buf) e1 in
      let (_, e3) = assert_inv (get_cache_state d h2 k address =s invalid) e2 in
      let p0 = put_stats-Only d address h k (count_evict line (h.cntlrs k).stats) in
      let p1 = evict_prevs-Only (t k).prev_cache_cntlrs h0 k address line.data_buf prevs in
      let p2 = dispose-OnlyLines h1 k address line buf disposed in
      subst (OnlyLines address h) (some_inj e3) (record {
        others = λ j x ne. p2.others j x ne ∙ p1.others j x ne ∙ p0.others j x ne;
        absent = λ j gone. p2.absent j (p1.absent j (p0.absent j gone));
      })

  pub evict_line-gone :
      (h : Hierarchy d) (k address : ℕ) (line : Line) {h' : Hierarchy d}
      → Filled d address h
      → evict_line d t levels home victim warming h k address line ≡ some h'
      → (i j : ℕ) → Memᴰ i (t k).prev_cache_cntlrs
      → Below t i j
      → (t j).coherent ≡ true
      → (h'.cntlrs j).lines address ≡ none
  unfolding evict_line
  evict_line-gone h k address line {h'} full e i j m below coherent =
      let h0 = put_stats d h k (count_evict line (h.cntlrs k).stats) in
      let ((h1, buf), prevs, e1) =
        bind_inv
          (evict_prevs d t levels home victim warming (t k).prev_cache_cntlrs h0 k address
            line.data_buf)
          e in
      let (h2, disposed, e2) =
        bind_inv (dispose d t levels home victim warming h1 k address line buf) e1 in
      let (_, e3) = assert_inv (get_cache_state d h2 k address =s invalid) e2 in
      let full0 =
        (put_stats-Only d address h k (count_evict line (h.cntlrs k).stats)).filled full in
      subst (λ (x : Hierarchy d). (x.cntlrs j).lines address ≡ none) (some_inj e3)
        ((dispose-OnlyLines h1 k address line buf disposed).absent j (
          evict_prevs-gone (t k).prev_cache_cntlrs h0 k address line.data_buf full0 prevs i j m
            below coherent))
