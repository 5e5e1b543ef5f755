-- ===== src/CacheCntlr/MemOps/RoundTrip.antt =====
-- What a core has written to its first level it reads back.
use sniper.Base.{
  ◌<◌, ◌≤◌, u32_mod, u64_mod, ℕ, ◌≡◌, refl, ◌∙◌, ap, subst, some_inj, true, false, ◌+◌, Option,
  some, List, ◌==◌, ◌%◌, leb, length, take, drop, arith,
}
use sniper.Base.Results.{bind_inv, bind_at, assert_inv}
use sniper.CacheCntlr.{
  HitWhere, at_cache, CState, read, write, copy_to, Line, DramInterface, Hierarchy,
}
use sniper.CacheCntlr.Request.{Setting, permissible, count_req}
use sniper.CacheCntlr.Request.Exclusive.{count_req-SameLines}
use sniper.CacheCntlr.MemOps.{
  in_line, CoreOp, req_of, adjust_core_hit, core_hit, access_cache, serve_core, count_end,
  process_mem_op,
}
use sniper.CacheCntlr.MemOps.Held.{
  copy_read, IsHeld, IsHeld-kept, core_hit-IsHeld, IsInside, inside_lem, adjust_core_hit_kept,
  store_hit, load_hit, may_write, may_read,
}

module _ (d : DramInterface) (env : Setting) where
  module _ (network : ℕ → ℕ → Hierarchy d → Option (Hierarchy d)) where
    -- A write that hits changes the bytes that it writes, and only those.
    write-IsHeld :
        (h : Hierarchy d) (k : ℕ) (c : CoreOp) (t_end : ℕ) (cstate : CState) (bytes : List ℕ)
        {h' : Hierarchy d} {w : HitWhere} {out : List ℕ}
        → IsHeld d env h k c.ca_address cstate bytes
        → 0 < length c.data_buf
        → c.offset + length c.data_buf < u32_mod
        → c.ca_address + (env.t k).block_size ≤ u64_mod
        → env.writable cstate ≡ true
        → (env.t k).passthrough ≡ false
        → (env.t k).writethrough ≡ false
        → process_mem_op d env network h k (record c { mem_op_type = write }) t_end
          ≡ some (h', w, out)
        → ((c.ca_address % (env.t k).block_size == 0) ≡ true)
          × IsInside d env k c
          × IsHeld d env h' k c.ca_address cstate (copy_to bytes c.offset c.data_buf)
    unfolding process_mem_op serve_core access_cache
    write-IsHeld h k c t_end cstate bytes {h'} i some_bytes word end may pass back e =
        let cw : CoreOp = record c { mem_op_type = write } in
        let (aligned, e1) = assert_inv (c.ca_address % (env.t k).block_size == 0) e in
        let (fits, e2) = assert_inv (in_line (env.t k).block_size c.offset c.data_buf) e1 in
        let e3 =
          bind_at _
            (adjust_core_hit_kept d env h k cw (permissible d env h k c.ca_address write)
              (may_write d env h k c.ca_address cstate bytes i may) pass)
            e2 in
        let (h2, counted, e4) =
          bind_inv (count_req d env h k (req_of cw env.now c.modeled c.count) true) e3 in
        let s = count_req-SameLines d env h k (req_of cw env.now c.modeled c.count) true counted in
        let (h3, hit, held) =
          core_hit-IsHeld d env h2 k cw cstate bytes
            (IsHeld-kept d env (s.same k c.ca_address) i) in
        let e5 = bind_at _ hit e4 in
        let inside = inside_lem d env k c some_bytes word end aligned fits in
        let (h4, stored, held') =
          store_hit d env h3 k cw cstate bytes
            (inside_lem d env k cw some_bytes word end aligned fits) back held in
        let e6 = bind_at _ stored e5 in
        (
          aligned,
          inside,
          subst
              (λ (x : Hierarchy d × HitWhere × List ℕ).
                IsHeld d env x.0 k c.ca_address cstate (copy_to bytes c.offset c.data_buf))
              (some_inj e6) (IsHeld-kept d env (ground arith) held'),
        )

    -- A read that is not counted and hits, step by step.
    read_steps :
        (h : Hierarchy d) (k : ℕ) (c : CoreOp) (t_end : ℕ) {h1 : Hierarchy d} {out : List ℕ}
        → (c.ca_address % (env.t k).block_size == 0) ≡ true
        → in_line (env.t k).block_size c.offset c.data_buf ≡ true
        → adjust_core_hit d env h k
            (record c { mem_op_type = read; count = false })
            (permissible d env h k c.ca_address read)
          ≡ some (h, true)
        → core_hit d env h k (record c { mem_op_type = read; count = false })
          ≡ some (h1, at_cache k false)
        → access_cache d env read h1 k (record c { mem_op_type = read; count = false })
          ≡ some (h1, out)
        → (h'' : Hierarchy d) × (process_mem_op d env network h k
              (record c { mem_op_type = read; count = false })
              t_end
            ≡ some (h'', at_cache k false, out))
    unfolding process_mem_op serve_core count_req
    read_steps h k c t_end {h1} aligned fits kept hit loaded = (
      count_end d env network h1 k (record c { mem_op_type = read; count = false }) true
          (at_cache k false) t_end,
      rw (aligned, fits, kept, hit, loaded) refl,
    )

    -- A core that has written one byte or more to a line that its first level holds whole and may
    -- write, not passed through and not write-through, where the offset and the length do not add
    -- up to 2 ^ 32 or more and the line ends within 64 bits, reads there what it has written: an
    -- uncounted read of as many bytes at the same place succeeds, hits in the first level, and
    -- gives these bytes, when a state that may be written may be read.
    pub process_mem_op-write-read :
        (h : Hierarchy d) (k : ℕ) (c : CoreOp) (t_end t_end' : ℕ) (line : Line) (buf : List ℕ)
        {h' : Hierarchy d} {w : HitWhere} {out : List ℕ}
        → ((cstate : CState) → env.writable cstate ≡ true → env.readable cstate ≡ true)
        → (h.cntlrs k).lines c.ca_address ≡ some line
        → 0 < length c.data_buf
        → c.offset + length c.data_buf < u32_mod
        → c.ca_address + (env.t k).block_size ≤ u64_mod
        → length line.data_buf ≡ (env.t k).block_size
        → env.writable line.cstate ≡ true
        → (env.t k).passthrough ≡ false
        → (env.t k).writethrough ≡ false
        → length buf ≡ length c.data_buf
        → process_mem_op d env network h k (record c { mem_op_type = write }) t_end
          ≡ some (h', w, out)
        → (h'' : Hierarchy d) × (process_mem_op d env network h' k
              (record c { mem_op_type = read; data_buf = buf; count = false })
              t_end'
            ≡ some (h'', at_cache k false, c.data_buf))
    process_mem_op-write-read h k c t_end t_end' line buf {h'} reads there some_bytes word end whole
          may pass back as_long e =
        let (aligned, inside, held) =
          write-IsHeld h k c t_end line.cstate line.data_buf
            (record { line = line; there = there; same_state = refl; same_bytes = refl }) some_bytes
            word end may pass back e in
        let cr : CoreOp = record c { mem_op_type = read; data_buf = buf; count = false } in
        let bytes = copy_to line.data_buf c.offset c.data_buf in
        let (h1, hit, held') = core_hit-IsHeld d env h' k cr line.cstate bytes held in
        let kept =
          adjust_core_hit_kept d env h' k cr (permissible d env h' k c.ca_address read)
            (may_read d env h' k c.ca_address line.cstate bytes held (reads line.cstate may))
            pass in
        let fits' : in_line (env.t k).block_size c.offset buf ≡ true =
          ap (λ (n : ℕ). leb ((c.offset + n) % u32_mod) (env.t k).block_size) as_long
          ∙ inside.fits in
        let loaded =
          load_hit d env h1 k cr line.cstate bytes
            (record {
              same_line = inside.same_line;
              same_offset = inside.same_offset;
              fits = fits';
            })
            held' in
        let (h'', e') =
          read_steps h' k (record c { data_buf = buf }) t_end' aligned fits' kept hit loaded in
        let read_back : take (length buf) (drop c.offset bytes) ≡ c.data_buf =
          ap (λ (n : ℕ). take n (drop c.offset bytes)) as_long
          ∙ copy_read line.data_buf c.data_buf c.offset
              (let fits = inside.fits in ground (arith, fits, word, whole)) in
        (h'', e' ∙ ap (λ (b : List ℕ). some (h'', at_cache k false, b)) read_back)
