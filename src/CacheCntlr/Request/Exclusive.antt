-- ===== src/CacheCntlr/Request/Exclusive.antt =====
-- A write that hits in a cache leaves the line to no other cache before it but the requester's.
use mathlib.Core.List.{Memᴰ}
use sniper.Base.{
  Bool-cases, ℕ, zero, suc, ◌≡◌, refl, ◌∙◌, sym, subst, some_inj, Bool, true, false, not, ◌&&◌,
  none, some, List, [], ◌∷◌, ◌==◌, arith, inl, inr, length,
}
use sniper.Base.Results.{bind_inv, bind_at, if_inv}
use sniper.CacheCntlr.{
  HitWhere, invalid, ◌=s◌, coherency, Reason, Line, MshrEntry, Stats, AccessCounters, put,
  DramInterface, Hierarchy, put_line, put_stats, get_cache_block_info, retrieve_cache_block,
}
use sniper.CacheCntlr.Update.{update_prevs, update_cache_block}
use sniper.CacheCntlr.Update.Frame.{Filled, put_stats-Only, put_line-Only}
use sniper.CacheCntlr.Update.Invalidation.{Below, prevs-gone, prevs_step, update_cache_block-gone}
use sniper.CacheCntlr.Directory.{is_exclusive_op}
use sniper.CacheCntlr.Mshr.{find_mshr, in_progress, cleanup_mshr, set_mshr, make_mshr}
use sniper.CacheCntlr.Counters.{update_counters}
use sniper.CacheCntlr.Request.{
  Setting, wait_for_line, is_miss, Req, others, permissible, snoop, access_of, adjust_hit,
  count_req, note_useful, snoop_hit, serve_hit, finish_hit, serve_req, process_shmem_req,
}

Mem-others :
    (requester i : ℕ) (ks : List ℕ)
    → Memᴰ i ks
    → (i == requester) ≡ false
    → Memᴰ i (others requester ks)
Mem-others requester i [] m ne = m
Mem-others requester i (k ∷ ks) (Memᴰ.head e) ne =
    rw (subst (λ (x : ℕ). (x == requester) ≡ false) e ne) (Memᴰ.head e)
Mem-others requester i (k ∷ ks) (Memᴰ.tail m) ne =
    let rest = Mem-others requester i ks m ne in
    elim (Bool-cases (k == requester)) [
      | inl same ↦ rw same rest
      | inr other ↦ rw other (Memᴰ.tail rest)
    ]

module _ (d : DramInterface) where
  -- The caches hold the same lines.
  pub record SameLines (h h' : Hierarchy d) : Type 0 where
    pub same : (j x : ℕ) → (h'.cntlrs j).lines x ≡ (h.cntlrs j).lines x

  -- A controller that keeps its lines.
  put-SameLines :
      (h : Hierarchy d) (k : ℕ) (c : AccessCounters) (m : List MshrEntry)
      → SameLines h (put d h k (record (h.cntlrs k) { counters = c; mshr = m }))
  put-SameLines h k c m = record { same = λ j x. ground arith }

  pub SameLines-Filled :
      (address : ℕ) (h h' : Hierarchy d) → SameLines h h' → Filled d address h → Filled d address h'
  SameLines-Filled address h h' s full j line there = full j line (sym (s.same j address) ∙ there)

module _ (d : DramInterface) (env : Setting) where
  marked_Filled :
      (h : Hierarchy d) (k address : ℕ) (line : Line) (s : Stats) (prefetch warmup : Bool)
      → Filled d address h
      → (h.cntlrs k).lines address ≡ some line
      → Filled d address (
          put_line d
            (put_stats d h k s)
            k
            address
            (some (record line { prefetch = prefetch; warmup = warmup })))
  marked_Filled h k address line s prefetch warmup full there =
      let valid = full k line there in
      let o =
        put_line-Only d address (put_stats d h k s) k
          (some (record line { prefetch = prefetch; warmup = warmup }))
          (λ gone. absurd (ground (arith, gone, there)))
          (λ l e. subst (λ (x : Line). (x.cstate =s invalid) ≡ false) (some_inj e) valid) in
      o.filled ((put_stats-Only d address h k s).filled full)

  pub count_req-SameLines :
      (h : Hierarchy d) (k : ℕ) (r : Req) (hit : Bool) {h' : Hierarchy d}
      → count_req d env h k r hit ≡ some h'
      → SameLines d h h'
  unfolding count_req
  count_req-SameLines h k r hit e = elim (if_inv r.count e) [
    | inl (_, e1) ↦
        let (c, _, e2) =
          bind_inv
            (update_counters env.ms (env.t k).block_size env.max_time (access_of d env h k r hit)
              ((h.cntlrs k).counters, (h.cntlrs k).mshr))
            e1 in
        subst (SameLines d h) (some_inj e2) (put-SameLines d h k c.0 c.1)
    | inr (_, e1) ↦ subst (SameLines d h) (some_inj e1) (record { same = λ j x. refl })
  ]

  pub finish_hit-SameLines :
      (h : Hierarchy d) (k : ℕ) (r : Req) (first_hit : Bool) {h' : Hierarchy d}
      → finish_hit d env h k r first_hit ≡ some h'
      → SameLines d h h'
  unfolding finish_hit
  finish_hit-SameLines h k r first_hit e =
      let (_, _, e0) = bind_inv (retrieve_cache_block d h k r.address) e in
      elim (if_inv (r.modeled && not first_hit && not (env.t k).passthrough) e0) [
        | inl (_, e1) ↦
            let (m, _, e2) =
              bind_inv
                (cleanup_mshr env.max_time
                  (length (set_mshr (make_mshr r.address r.t_issue env.now) (h.cntlrs k).mshr))
                  (set_mshr (make_mshr r.address r.t_issue env.now) (h.cntlrs k).mshr))
                e1 in
            subst (SameLines d h) (some_inj e2) (put-SameLines d h k (h.cntlrs k).counters m)
        | inr (_, e1) ↦ subst (SameLines d h) (some_inj e1) (record { same = λ j x. refl })
      ]

  note_useful-Filled :
      (h : Hierarchy d) (k : ℕ) (r : Req) {h' : Hierarchy d}
      → Filled d r.address h
      → note_useful d env h k r ≡ some h'
      → Filled d r.address h'
  unfolding note_useful
  note_useful-Filled h k r full e =
      let (line, there, e1) = bind_inv (get_cache_block_info d h k r.address) e in
      subst (Filled d r.address) (some_inj e1) (marked_Filled h k r.address line _ _ _ full there)

  wait_for_line-Filled :
      (h : Hierarchy d) (k address : ℕ) (modeled : Bool)
      → Filled d address h
      → Filled d address (wait_for_line d env h k address modeled)
  unfolding wait_for_line
  wait_for_line-Filled h k address modeled full =
      elim (Bool-cases (modeled && in_progress env.now (find_mshr address (h.cntlrs k).mshr))) [
        | inl waits ↦ rw (waits, wait_for_line) ((put_stats-Only d address h k _).filled full)
        | inr goes_on ↦ rw (goes_on, wait_for_line) full
      ]

  snoop-gone :
      (h : Hierarchy d) (k requester address : ℕ) (reason : Reason) {h' : Hierarchy d} {hit : Bool}
      → Filled d address h
      → snoop d env h k requester address invalid reason ≡ some (h', hit)
      → (i j : ℕ) → Memᴰ i (env.t k).prev_cache_cntlrs
      → (i == requester) ≡ false
      → Below env.t i j
      → (env.t j).coherent ≡ true
      → (h'.cntlrs j).lines address ≡ none
  unfolding snoop
  snoop-gone h k requester address reason full e i j m ne below coherent =
      let ((h1, latency, hit), prevs, e1) =
        bind_inv
          (update_prevs d env.t
            (λ j g.
              update_cache_block d env.t env.levels env.levels g j address invalid reason false)
            (others requester (env.t k).prev_cache_cntlrs) h)
          e in
      let gone =
        prevs-gone d env.t address _ (prevs_step d env.t address env.levels env.levels reason) j
          (others requester (env.t k).prev_cache_cntlrs) i
          (Mem-others requester i (env.t k).prev_cache_cntlrs m ne)
          (λ g r full' here.
            update_cache_block-gone d env.t address env.levels env.levels g i reason false j full'
              below coherent here)
          h full prevs in
      subst (λ (x : Hierarchy d × Bool). (x.0.cntlrs j).lines address ≡ none) (some_inj e1)
        ((put_stats-Only d address h1 k _).absent j gone)

  serve_hit-gone :
      (h : Hierarchy d) (k requester : ℕ) (r : Req) {h' : Hierarchy d} {w : HitWhere}
      → Filled d r.address h
      → is_exclusive_op r.mem_op_type ≡ true
      → serve_hit d env h k requester r ≡ some (h', w)
      → (i j : ℕ) → Memᴰ i (env.t k).prev_cache_cntlrs
      → (i == requester) ≡ false
      → Below env.t i j
      → (env.t j).coherent ≡ true
      → (is_miss w ≡ false) × ((h'.cntlrs j).lines r.address ≡ none)
  unfolding serve_hit snoop_hit
  serve_hit-gone h k requester r {h'} full ex e i j m ne below coherent =
      let (h1, noted, e1) = bind_inv (note_useful d env h k r) e in
      let h2 = wait_for_line d env h1 k r.address r.modeled in
      let ((h3, sibling), snooped, e2) = bind_inv (snoop_hit d env h2 k requester r) e1 in
      let snooped' : snoop d env h2 k requester r.address invalid coherency ≡ some (h3, sibling) =
        rw ex at snooped in
      subst
        (λ (x : Hierarchy d × HitWhere).
          (is_miss x.1 ≡ false) × ((x.0.cntlrs j).lines r.address ≡ none))
        (some_inj e2)
        (
          refl,
          snoop-gone h2 k requester r.address coherency
              (wait_for_line-Filled h1 k r.address r.modeled (note_useful-Filled h k r full noted))
              snooped' i j m ne below coherent,
        )

  adjust_hit_kept :
      (h : Hierarchy d) (k : ℕ) (r : Req) (may : Bool)
      → may ≡ true
      → ((env.t k).passthrough && r.count) ≡ false
      → adjust_hit d env h k r may ≡ some (h, true)
  unfolding adjust_hit
  adjust_hit_kept h k r true e pass = rw pass refl
  adjust_hit_kept h k r false e pass = absurd (cc e)

  -- A request to write to a line that the cache may write, which does not pass it through, and that
  -- succeeds, is not a miss, and leaves the line, if no cache held it in the state INVALID, in no
  -- coherent cache before this one but the requester and those before that.
  pub process_shmem_req-exclusive :
      (n : ℕ) (h : Hierarchy d) (k requester : ℕ) (r : Req) {h' : Hierarchy d} {w : HitWhere}
      → Filled d r.address h
      → is_exclusive_op r.mem_op_type ≡ true
      → permissible d env h k r.address r.mem_op_type ≡ true
      → ((env.t k).passthrough && r.count) ≡ false
      → process_shmem_req d env n h k requester r ≡ some (h', w)
      → (i j : ℕ) → Memᴰ i (env.t k).prev_cache_cntlrs
      → (i == requester) ≡ false
      → Below env.t i j
      → (env.t j).coherent ≡ true
      → (is_miss w ≡ false) × ((h'.cntlrs j).lines r.address ≡ none)
  unfolding process_shmem_req serve_req
  process_shmem_req-exclusive zero h k requester r full ex may pass e i j m ne below coherent =
      absurd (cc e)
  process_shmem_req-exclusive (suc n) h k requester r full ex may pass e i j m ne below coherent =
      let e1 =
        bind_at _ (adjust_hit_kept h k r (permissible d env h k r.address r.mem_op_type) may pass)
          e in
      let (h2, counted, e2) = bind_inv (count_req d env h k r true) e1 in
      let ((h3, w3), served, e3) = bind_inv (serve_hit d env h2 k requester r) e2 in
      let gone =
        serve_hit-gone h2 k requester r
          (SameLines-Filled d r.address h h2 (count_req-SameLines h k r true counted) full) ex
          served i j m ne below coherent in
      elim (if_inv (is_miss w3) e3) [
        | inl (_, e4) ↦
            subst
              (λ (x : Hierarchy d × HitWhere).
                (is_miss x.1 ≡ false) × ((x.0.cntlrs j).lines r.address ≡ none))
              (some_inj e4) gone
        | inr (_, e4) ↦
            let first = permissible d env h k r.address r.mem_op_type && true in
            let (h4, finished, e5) = bind_inv (finish_hit d env h3 k r first) e4 in
            subst
              (λ (x : Hierarchy d × HitWhere).
                (is_miss x.1 ≡ false) × ((x.0.cntlrs j).lines r.address ≡ none))
              (some_inj e5)
              (gone.0, (finish_hit-SameLines h3 k r first finished).same j r.address ∙ gone.1)
      ]
