-- ===== src/CacheCntlr/MemOps/Exclusive.antt =====
-- A write that misses in a first level takes the line from every other cache before the next level.
use mathlib.Core.List.{Memᴰ}
use sniper.Base.{
  ℕ, ◌≡◌, refl, ◌∙◌, ap, subst, some_inj, Bool, true, false, not, ◌&&◌, Option, none, some, List,
  ◌==◌, ◌%◌, arith, Option-cases, inl, inr, if◌then◌else◌,
}
use sniper.Base.Results.{◌>>=◌, bind_inv, bind_at, assert_inv, if_inv}
use sniper.CacheCntlr.{
  HitWhere, invalid, modified, ◌=s◌, state_of, upgrade, MemOp, read, read_ex, write, DramInterface,
  Hierarchy, get_cache_block_info, get_cache_state, retrieve_cache_block, invalidate_cache_block,
  operation_permissible,
}
use sniper.CacheCntlr.Update.{write_cache_block, update_cache_block}
use sniper.CacheCntlr.Update.Frame.{Filled, put_line-Only, put_stats-Only}
use sniper.CacheCntlr.Update.Kept.{update_cache_block-Only, write_cache_block-Only}
use sniper.CacheCntlr.Update.Invalidation.{Below}
use sniper.CacheCntlr.Insertion.{insert_cache_block}
use sniper.CacheCntlr.Insertion.Inserted.{insert_cache_block-elsewhere}
use sniper.CacheCntlr.Directory.{is_exclusive_op}
use sniper.CacheCntlr.Request.{
  Setting, permissible, count_req, copy_data_from_next_level, process_shmem_req,
}
use sniper.CacheCntlr.Request.Exclusive.{
  SameLines-Filled, count_req-SameLines, process_shmem_req-exclusive,
}
use sniper.CacheCntlr.MemOps.{
  offset_at, line_at, in_line, load_single_line, CoreOp, is_unlock, req_of, adjust_core_hit,
  drop_valid, ask_again, core_miss, store_single_line, access_cache, serve_core, process_mem_op,
}

module _ (d : DramInterface) (env : Setting) where
  -- A copy from the next level brings the line into no other cache.
  copy_data-elsewhere :
      (h : Hierarchy d) (k : ℕ) (op : MemOp) (address : ℕ) {h' : Hierarchy d}
      → copy_data_from_next_level d env h k op address ≡ some h'
      → (j : ℕ) → (j == k) ≡ false
      → (h.cntlrs j).lines address ≡ none
      → (h'.cntlrs j).lines address ≡ none
  unfolding copy_data_from_next_level
  copy_data-elsewhere h k op address {h'} e j ne gone =
      let (next, _, e1) = bind_inv (env.t k).next_cache_cntlr e in
      let (_, e2) = assert_inv (permissible d env h next address op) e1 in
      let (bytes, _, e3) = bind_inv (retrieve_cache_block d h next address) e2 in
      elim (Option-cases (get_cache_block_info d h k address)) [
        | inl absent ↦
            let e4 : insert_cache_block d env.t env.levels env.home env.victim env.warming h k
                  address (get_cache_state d h next address) bytes
                ≡ some h' =
              rw absent at e3 in
            insert_cache_block-elsewhere d env.t env.levels env.home env.victim env.warming h k
              address (get_cache_state d h next address) bytes absent e4 j ne gone
        | inr (line, held) ↦
            let (r, updated, e4) =
              bind_inv
                (update_cache_block d env.t env.levels env.levels h k address
                  (get_cache_state d h next address) upgrade false)
                (rw held at e3) in
            subst (λ (x : Hierarchy d). (x.cntlrs j).lines address ≡ none) (some_inj e4)
              ((update_cache_block-Only d address env.t env.levels env.levels h k
                  (get_cache_state d h next address) upgrade false updated).absent
                j gone)
      ]

  store_single_line-elsewhere :
      (h : Hierarchy d) (k address offset : ℕ) (bytes : List ℕ) {h' : Hierarchy d}
      → store_single_line d env h k address offset bytes ≡ some h'
      → (j x : ℕ) → (j == k) ≡ false
      → (h.cntlrs j).lines x ≡ none
      → (h'.cntlrs j).lines x ≡ none
  unfolding store_single_line
  store_single_line-elsewhere h k address offset bytes e j x ne gone =
      elim (Option-cases (get_cache_block_info d h k address)) [
        | inl absent ↦
            subst (λ (g : Hierarchy d). (g.cntlrs j).lines x ≡ none)
              (some_inj (rw (absent, store_single_line) at e)) gone
        | inr (line, held) ↦
            let (_, e1) =
              assert_inv (in_line (env.t k).block_size offset bytes)
                (rw (held, store_single_line) at e) in
            subst (λ (g : Hierarchy d). (g.cntlrs j).lines x ≡ none) (some_inj e1)
              (ground (arith, ne, gone))
      ]

  access_cache-elsewhere :
      (op : MemOp) (h : Hierarchy d) (k : ℕ) (c : CoreOp) {h' : Hierarchy d} {bytes : List ℕ}
      → access_cache d env op h k c ≡ some (h', bytes)
      → (j : ℕ) → (j == k) ≡ false
      → (h.cntlrs j).lines c.ca_address ≡ none
      → (h'.cntlrs j).lines c.ca_address ≡ none
  unfolding access_cache
  access_cache-elsewhere read h k c e j ne gone =
      let (_, _, e1) =
        bind_inv
          (load_single_line d env h k (line_at (env.t k).block_size c)
            (offset_at (env.t k).block_size c) c.data_buf)
          e in
      subst (λ (x : Hierarchy d × List ℕ). (x.0.cntlrs j).lines c.ca_address ≡ none) (some_inj e1)
        gone
  access_cache-elsewhere read_ex h k c e j ne gone =
      let (_, _, e1) =
        bind_inv
          (load_single_line d env h k (line_at (env.t k).block_size c)
            (offset_at (env.t k).block_size c) c.data_buf)
          e in
      subst (λ (x : Hierarchy d × List ℕ). (x.0.cntlrs j).lines c.ca_address ≡ none) (some_inj e1)
        gone
  access_cache-elsewhere write h k c e j ne gone =
      let at = line_at (env.t k).block_size c in
      let offset = offset_at (env.t k).block_size c in
      let (h1, done, e0) = bind_inv (store_single_line d env h k at offset c.data_buf) e in
      let stored =
        store_single_line-elsewhere h k at offset c.data_buf done j c.ca_address ne gone in
      let (h2, written, e1) =
        bind_inv
          (if (env.t k).writethrough
            then ((env.t k).next_cache_cntlr >>= λ next.
                write_cache_block d env.t env.levels h1 next c.ca_address c.offset c.data_buf)
            else some h1)
          e0 in
      subst (λ (x : Hierarchy d × List ℕ). (x.0.cntlrs j).lines c.ca_address ≡ none) (some_inj e1)
        (elim (if_inv (env.t k).writethrough written) [
          | inl (_, e2) ↦
              let (next, _, e3) = bind_inv (env.t k).next_cache_cntlr e2 in
              (write_cache_block-Only d c.ca_address env.t env.levels h1 next c.offset c.data_buf
                  e3).absent
                j stored
          | inr (_, e2) ↦
              subst (λ (x : Hierarchy d). (x.cntlrs j).lines c.ca_address ≡ none) (some_inj e2)
                stored
        ])

  -- A line that leaves one cache leaves the others as they are.
  record IsDropped (h h' : Hierarchy d) (k address : ℕ) : Type 0 where
    filled : Filled d address h → Filled d address h'
    elsewhere :
        (j : ℕ) → (j == k) ≡ false → (h'.cntlrs j).lines address ≡ (h.cntlrs j).lines address

  drop_valid-IsDropped :
      (h : Hierarchy d) (k address : ℕ) {h' : Hierarchy d}
      → drop_valid d env h k address ≡ some h'
      → IsDropped h h' k address
  unfolding drop_valid invalidate_cache_block
  drop_valid-IsDropped h k address e = elim (if_inv (get_cache_state d h k address =s invalid) e) [
    | inl (_, e1) ↦
        subst (λ (x : Hierarchy d). IsDropped h x k address) (some_inj e1)
          (record { filled = λ full. full; elsewhere = λ j ne. refl })
    | inr (_, e1) ↦
        let (_, e2) = assert_inv (not (get_cache_state d h k address =s modified)) e1 in
        let (_, e3) = assert_inv (not (get_cache_state d h k address =s invalid)) e2 in
        subst (λ (x : Hierarchy d). IsDropped h x k address) (some_inj e3)
          (record {
            filled =
                (put_line-Only d address h k none (λ gone. refl)
                  (λ l held. absurd (cc held))).filled;
            elsewhere = λ j ne. ground (arith, ne);
          })
  ]

  permissible_kept :
      (h h' : Hierarchy d) (k address : ℕ) (op : MemOp)
      → (h'.cntlrs k).lines address ≡ (h.cntlrs k).lines address
      → permissible d env h' k address op ≡ permissible d env h k address op
  unfolding operation_permissible
  permissible_kept h h' k address read e = ap (λ o. env.readable (state_of o)) e
  permissible_kept h h' k address read_ex e = ap (λ o. env.writable (state_of o)) e
  permissible_kept h h' k address write e = ap (λ o. env.writable (state_of o)) e

  adjust_core_hit_missed :
      (h : Hierarchy d) (k : ℕ) (c : CoreOp) (may : Bool)
      → may ≡ false
      → (env.t k).perfect ≡ false
      → adjust_core_hit d env h k c may ≡ some (h, false)
  unfolding adjust_core_hit
  adjust_core_hit_missed h k c true missed real = absurd (cc missed)
  adjust_core_hit_missed h k c false missed real = rw real refl

  module _ (network : ℕ → ℕ → Hierarchy d → Option (Hierarchy d)) where
    -- The miss of a write whose next level, `q`, may write the line.
    core_miss-exclusive :
        (h : Hierarchy d) (k q : ℕ) (c : CoreOp) {h' : Hierarchy d} {w : HitWhere}
        → Filled d c.ca_address h
        → is_exclusive_op c.mem_op_type ≡ true
        → (env.t k).next_cache_cntlr ≡ some q
        → (q == k) ≡ false
        → permissible d env h q c.ca_address c.mem_op_type ≡ true
        → ((env.t q).passthrough && c.count) ≡ false
        → core_miss d env network h k c ≡ some (h', w)
        → (i j : ℕ) → Memᴰ i (env.t q).prev_cache_cntlrs
        → (i == k) ≡ false
        → Below env.t i j
        → (j == k) ≡ false
        → (env.t j).coherent ≡ true
        → (h'.cntlrs j).lines c.ca_address ≡ none
    unfolding core_miss ask_again
    core_miss-exclusive h k q c full ex linked apart may pass e i j m ne below other coherent =
        let (_, e1) = assert_inv (not (is_unlock c.lock_signal)) e in
        let (h1, dropped, e2) = bind_inv (drop_valid d env h k c.ca_address) e1 in
        let o = drop_valid-IsDropped h k c.ca_address dropped in
        let e3 = bind_at _ linked e2 in
        let ((h2, w2), asked, e4) =
          bind_inv (process_shmem_req d env env.levels h1 q k (req_of c env.now c.modeled c.count))
            e3 in
        let (hit, gone) =
          process_shmem_req-exclusive d env env.levels h1 q k (req_of c env.now c.modeled c.count)
            (o.filled full) ex
            (permissible_kept h h1 q c.ca_address c.mem_op_type (o.elsewhere q apart) ∙ may) pass
            asked i j m ne below coherent in
        let once : ask_again d env network k q c (h2, w2) ≡ some (h2, w2) = rw hit refl in
        let e5 = bind_at _ once e4 in
        let (h3, copied, e6) =
          bind_inv (copy_data_from_next_level d env h2 k c.mem_op_type c.ca_address) e5 in
        let (_, e7) = assert_inv (permissible d env h3 k c.ca_address c.mem_op_type) e6 in
        subst (λ (x : Hierarchy d × HitWhere). (x.0.cntlrs j).lines c.ca_address ≡ none)
          (some_inj e7) (copy_data-elsewhere h2 k c.mem_op_type c.ca_address copied j other gone)

    -- A core's write that its first level cannot serve, and that succeeds, leaves the line, if no
    -- cache held it in the state INVALID, in no coherent cache before the next level but the
    -- writer's and those before that, when the next level is another cache that may write the line
    -- and does not pass the request through, and the first level is not perfect.
    pub process_mem_op-exclusive :
        (h : Hierarchy d) (k q : ℕ) (c : CoreOp) (t_end : ℕ) {h' : Hierarchy d} {w : HitWhere}
        {bytes : List ℕ}
        → Filled d c.ca_address h
        → is_exclusive_op c.mem_op_type ≡ true
        → (env.t k).perfect ≡ false
        → permissible d env h k c.ca_address c.mem_op_type ≡ false
        → (env.t k).next_cache_cntlr ≡ some q
        → (q == k) ≡ false
        → permissible d env h q c.ca_address c.mem_op_type ≡ true
        → ((env.t q).passthrough && c.count) ≡ false
        → process_mem_op d env network h k c t_end ≡ some (h', w, bytes)
        → (i j : ℕ) → Memᴰ i (env.t q).prev_cache_cntlrs
        → (i == k) ≡ false
        → Below env.t i j
        → (j == k) ≡ false
        → (env.t j).coherent ≡ true
        → (h'.cntlrs j).lines c.ca_address ≡ none
    unfolding process_mem_op serve_core
    process_mem_op-exclusive h k q c t_end full ex real missed linked apart may pass e i j m ne
          below other coherent =
        let (_, e1) = assert_inv (c.ca_address % (env.t k).block_size == 0) e in
        let (_, e2) = assert_inv (in_line (env.t k).block_size c.offset c.data_buf) e1 in
        let e3 =
          bind_at _
            (adjust_core_hit_missed h k c (permissible d env h k c.ca_address c.mem_op_type) missed
              real)
            e2 in
        let (h2, counted, e4) =
          bind_inv (count_req d env h k (req_of c env.now c.modeled c.count) false) e3 in
        let s = count_req-SameLines d env h k (req_of c env.now c.modeled c.count) false counted in
        let ((h3, w3), served, e5) = bind_inv (core_miss d env network h2 k c) e4 in
        let gone =
          core_miss-exclusive h2 k q c (SameLines-Filled d c.ca_address h h2 s full) ex linked apart
            (permissible_kept h h2 q c.ca_address c.mem_op_type (s.same q c.ca_address) ∙ may) pass
            served i j m ne below other coherent in
        let ((h4, bytes'), accessed, e6) = bind_inv (access_cache d env c.mem_op_type h3 k c) e5 in
        subst (λ (x : Hierarchy d × HitWhere × List ℕ). (x.0.cntlrs j).lines c.ca_address ≡ none)
          (some_inj e6)
          ((put_stats-Only d c.ca_address h4 k _).absent j
            (access_cache-elsewhere c.mem_op_type h3 k c accessed j other gone))
