-- ===== src/CacheCntlr/MemOps/Held.antt =====
-- A line that a first level holds, and what the steps of an operation that hits leave of it.
use native.Mathlib.Nat.{mod-eq_of_lt, add-mod}
use sniper.Base.{
  ◌%◌, ◌==◌, ==_iff, ◌<◌, u32_mod, u64_mod, ℕ, zero, suc, ◌≡◌, ◌≤◌, refl, ◌∙◌, ap, Bool, true,
  false, ◌&&◌, ◌+◌, some, List, [], ◌∷◌, ◌++◌, length, take, drop, arith, Bool-cases, inl, inr,
}
use sniper.CacheCntlr.{
  at_cache, CState, read, write, state_of, copy_to, Line, DramInterface, Hierarchy, put_line,
  put_stats, operation_permissible,
}
use sniper.CacheCntlr.Mshr.{find_mshr, in_progress}
use sniper.CacheCntlr.Request.{
  Setting, Req, permissible, cleared, count_useful, note_useful, wait_for_line,
}
use sniper.CacheCntlr.MemOps.{
  offset_at, line_at, in_line, load_single_line, CoreOp, req_of, adjust_core_hit, core_hit,
  store_single_line, access_cache,
}

take_of_append : (xs ys : List ℕ) → take (length xs) (xs ++ ys) ≡ xs
take_of_append [] ys = refl
take_of_append (x ∷ xs) ys = ap (λ zs. x ∷ zs) (take_of_append xs ys)

drop_written :
    (n : ℕ) (xs buf ys : List ℕ) → n ≤ length xs → drop n (take n xs ++ buf ++ ys) ≡ buf ++ ys
drop_written zero xs buf ys le = refl
drop_written (suc n) [] buf ys le = absurd (omega (arith, le))
drop_written (suc n) (x ∷ xs) buf ys le = drop_written n xs buf ys (omega (arith, le))

pub copy_read :
    (line buf : List ℕ) (offset : ℕ)
    → offset + length buf ≤ length line
    → take (length buf) (drop offset (copy_to line offset buf)) ≡ buf
copy_read line buf offset le =
    ap (take (length buf))
      (drop_written offset line buf (drop (offset + length buf) line) (omega (arith, le)))
    ∙ take_of_append buf (drop (offset + length buf) line)

module _ (d : DramInterface) (env : Setting) where
  -- The cache holds a line with this state and these bytes.
  pub record IsHeld (h : Hierarchy d) (k address : ℕ) (cstate : CState) (bytes : List ℕ)
      : Type 0 where
    pub line : Line
    pub there : (h.cntlrs k).lines address ≡ some line
    pub same_state : line.cstate ≡ cstate
    pub same_bytes : line.data_buf ≡ bytes

  pub IsHeld-kept :
      {h h' : Hierarchy d} {k address : ℕ} {cstate : CState} {bytes : List ℕ}
      → (h'.cntlrs k).lines address ≡ (h.cntlrs k).lines address
      → IsHeld h k address cstate bytes
      → IsHeld h' k address cstate bytes
  IsHeld-kept same i = record {
    line = i.line;
    there = same ∙ i.there;
    same_state = i.same_state;
    same_bytes = i.same_bytes;
  }

  note_useful-IsHeld :
      (h : Hierarchy d) (k : ℕ) (r : Req) (cstate : CState) (bytes : List ℕ)
      → IsHeld h k r.address cstate bytes
      → (h' : Hierarchy d) × (note_useful d env h k r ≡ some h')
        × IsHeld h' k r.address cstate bytes
  unfolding note_useful
  note_useful-IsHeld h k r cstate bytes i = (
    put_line d (put_stats d h k (count_useful d env r i.line (h.cntlrs k).stats)) k r.address
        (some (cleared d env r i.line)),
    rw i.there refl,
    record {
      line = cleared d env r i.line;
      there = ground arith;
      same_state = i.same_state;
      same_bytes = i.same_bytes;
    },
  )

  wait_for_line-IsHeld :
      (h : Hierarchy d) (k address : ℕ) (modeled : Bool) (cstate : CState) (bytes : List ℕ)
      → IsHeld h k address cstate bytes
      → IsHeld (wait_for_line d env h k address modeled) k address cstate bytes
  unfolding wait_for_line
  wait_for_line-IsHeld h k address modeled cstate bytes i =
      elim (Bool-cases (modeled && in_progress env.now (find_mshr address (h.cntlrs k).mshr))) [
        | inl waits ↦ rw (waits, wait_for_line) (IsHeld-kept (ground arith) i)
        | inr goes_on ↦ rw (goes_on, wait_for_line) i
      ]

  pub core_hit-IsHeld :
      (h : Hierarchy d) (k : ℕ) (c : CoreOp) (cstate : CState) (bytes : List ℕ)
      → IsHeld h k c.ca_address cstate bytes
      → (h' : Hierarchy d) × (core_hit d env h k c ≡ some (h', at_cache k false))
        × IsHeld h' k c.ca_address cstate bytes
  unfolding core_hit
  core_hit-IsHeld h k c cstate bytes i =
      let (h1, noted, held) =
        note_useful-IsHeld h k (req_of c env.now c.modeled c.count) cstate bytes i in
      (
        wait_for_line d env h1 k c.ca_address c.modeled,
        rw noted refl,
        wait_for_line-IsHeld h1 k c.ca_address c.modeled cstate bytes held,
      )

  pub store-IsHeld :
      (h : Hierarchy d) (k address offset : ℕ) (buf : List ℕ) (cstate : CState) (bytes : List ℕ)
      → in_line (env.t k).block_size offset buf ≡ true
      → IsHeld h k address cstate bytes
      → (h' : Hierarchy d) × (store_single_line d env h k address offset buf ≡ some h')
        × IsHeld h' k address cstate (copy_to bytes offset buf)
  unfolding store_single_line
  store-IsHeld h k address offset buf cstate bytes fits i =
      let line' = record i.line { data_buf = copy_to i.line.data_buf offset buf } in
      (
        put_line d h k address (some line'),
        rw (i.there, store_single_line) (rw fits refl),
        record {
          line = line';
          there = ground arith;
          same_state = i.same_state;
          same_bytes = ap (λ b. copy_to b offset buf) i.same_bytes;
        },
      )

  pub load_lem :
      (h : Hierarchy d) (k address offset : ℕ) (buf : List ℕ) (cstate : CState) (bytes : List ℕ)
      → in_line (env.t k).block_size offset buf ≡ true
      → IsHeld h k address cstate bytes
      → load_single_line d env h k address offset buf ≡ some (take (length buf) (drop offset bytes))
  unfolding load_single_line
  load_lem h k address offset buf cstate bytes fits i =
      rw (i.there, load_single_line)
        (rw fits (ap (λ b. some (take (length buf) (drop offset b))) i.same_bytes))

  -- The operation is on bytes of its own line.
  pub record IsInside (k : ℕ) (c : CoreOp) : Type 0 where
    pub same_line : line_at (env.t k).block_size c ≡ c.ca_address
    pub same_offset : offset_at (env.t k).block_size c ≡ c.offset
    pub fits : in_line (env.t k).block_size c.offset c.data_buf ≡ true

  pub inside_lem :
      (k : ℕ) (c : CoreOp)
      → 0 < length c.data_buf
      → c.offset + length c.data_buf < u32_mod
      → c.ca_address + (env.t k).block_size ≤ u64_mod
      → (c.ca_address % (env.t k).block_size == 0) ≡ true
      → in_line (env.t k).block_size c.offset c.data_buf ≡ true
      → IsInside k c
  inside_lem k c some_bytes word end aligned fits =
      let b = (env.t k).block_size in
      let le : c.offset + length c.data_buf ≤ b = ground (arith, fits, word) in
      let zero' : c.ca_address % b ≡ 0 = (==_iff (c.ca_address % b) 0).0 aligned in
      let whole : (c.ca_address + c.offset) % u64_mod ≡ c.ca_address + c.offset =
        mod-eq_of_lt (omega (arith, end, le, some_bytes)) in
      let at : (c.ca_address + c.offset) % b ≡ c.offset =
        add-mod c.ca_address c.offset b
        ∙ ap (λ (n : ℕ). (n + c.offset % b) % b) zero'
        ∙ ap (λ (n : ℕ). (0 + n) % b) (mod-eq_of_lt (omega (arith, le, some_bytes)))
        ∙ ap (λ (n : ℕ). n % b) (omega arith)
        ∙ mod-eq_of_lt (omega (arith, le, some_bytes)) in
      let here : offset_at b c ≡ c.offset = ap (λ (n : ℕ). n % b) whole ∙ at in
      record { same_line = omega (arith, whole, here); same_offset = here; fits = fits }

  pub adjust_core_hit_kept :
      (h : Hierarchy d) (k : ℕ) (c : CoreOp) (may : Bool)
      → may ≡ true
      → (env.t k).passthrough ≡ false
      → adjust_core_hit d env h k c may ≡ some (h, true)
  unfolding adjust_core_hit
  adjust_core_hit_kept h k c true e pass = rw pass refl
  adjust_core_hit_kept h k c false e pass = absurd (cc e)

  pub store_hit :
      (h : Hierarchy d) (k : ℕ) (c : CoreOp) (cstate : CState) (bytes : List ℕ)
      → IsInside k c
      → (env.t k).writethrough ≡ false
      → IsHeld h k c.ca_address cstate bytes
      → (h' : Hierarchy d) × (access_cache d env write h k c ≡ some (h', c.data_buf))
        × IsHeld h' k c.ca_address cstate (copy_to bytes c.offset c.data_buf)
  unfolding access_cache
  store_hit h k c cstate bytes inside back i =
      let (h', stored, held) =
        store-IsHeld h k c.ca_address c.offset c.data_buf cstate bytes inside.fits i in
      (h', rw (inside.same_line, inside.same_offset, stored, back) refl, held)

  pub load_hit :
      (h : Hierarchy d) (k : ℕ) (c : CoreOp) (cstate : CState) (bytes : List ℕ)
      → IsInside k c
      → IsHeld h k c.ca_address cstate bytes
      → access_cache d env read h k c ≡ some (h, take (length c.data_buf) (drop c.offset bytes))
  unfolding access_cache
  load_hit h k c cstate bytes inside i =
      rw
        (
          inside.same_line,
          inside.same_offset,
          load_lem h k c.ca_address c.offset c.data_buf cstate bytes inside.fits i,
        )
        refl

  pub may_write :
      (h : Hierarchy d) (k address : ℕ) (cstate : CState) (bytes : List ℕ)
      → IsHeld h k address cstate bytes
      → env.writable cstate ≡ true
      → permissible d env h k address write ≡ true
  unfolding operation_permissible
  may_write h k address cstate bytes i may =
      ap (λ o. env.writable (state_of o)) i.there ∙ ap env.writable i.same_state ∙ may

  pub may_read :
      (h : Hierarchy d) (k address : ℕ) (cstate : CState) (bytes : List ℕ)
      → IsHeld h k address cstate bytes
      → env.readable cstate ≡ true
      → permissible d env h k address read ≡ true
  unfolding operation_permissible
  may_read h k address cstate bytes i may =
      ap (λ o. env.readable (state_of o)) i.there ∙ ap env.readable i.same_state ∙ may
