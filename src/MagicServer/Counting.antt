-- ===== src/MagicServer/Counting.antt =====
-- Which bytes of a block the access counters and the per-byte loops reach.
use mathlib.Core.Option
use Prim.Native.String.{String}
use sniper.Base.{
  ℕ, suc, zero, ◌+◌, ◌-◌, ◌≤◌, ◌<◌, ◌≡◌, refl, ◌∙◌, ap, inl, inr, Bool, true, ◌&&◌, none, some,
  List, ltb, leb, if◌then◌else◌, arith, u64_mod, Option-cases, Bool-cases, ℕ_discrete, dec_lt,
}
use sniper.ApproxVars.{AppVar, find_var, update_var, inc_read_cnt, inc_write_cnt, reset, upsave}
use sniper.ApproxVars.Ordered.{find-update_var}
use sniper.ApproxVars.Counters.{addr-reset, addr-upsave, addr-inc_read_cnt, addr-inc_write_cnt}
use sniper.MagicServer.Registry.{IsRegistry, present}
use sniper.MagicServer.{
  MagicServer, byte_addr, count_bytes, each_byte, is_outside, add_read_acc, add_write_acc,
  reset_cnters, upsave_cnters,
}

-- All of the `n` bytes from `lo` on are approximate.
pub all_present : List AppVar → ℕ → ℕ → Bool
all_present vars lo zero = true
all_present vars lo (suc n) = present vars lo && all_present vars (lo + 1) n

-- The bytes from `lo` to `hi` - 1.
abbrev pub in_block : ℕ → ℕ → ℕ → Bool
in_block lo hi j = leb lo j && ltb j hi

module _ (f : AppVar → AppVar) (same : (v : AppVar) → (f v).addr ≡ v.addr) where
  present-update : (a j : ℕ) (vars : List AppVar) → present (update_var f a vars) j ≡ present vars j
  present-update a j vars = ground (arith, find-update_var f a j vars same)

  all_present-update :
      (a lo n : ℕ) (vars : List AppVar)
      → all_present (update_var f a vars) lo n ≡ all_present vars lo n
  unfolding all_present
  all_present-update a lo zero vars = refl
  all_present-update a lo (suc n) vars =
      ground (arith, present-update a lo vars, all_present-update a (lo + 1) n vars)

  each_byte-find :
      (address n i j : ℕ) (vars : List AppVar)
      → address + i + n ≤ u64_mod
      → find_var j (each_byte f address n i vars) ≡ (
          if in_block (address + i) (address + i + n) j
          then Option.map f (find_var j vars)
          else find_var j vars)
  unfolding each_byte
  each_byte-find address zero i j vars h = ground arith
  each_byte-find address (suc n) i j vars h = ground (
    arith,
    each_byte-find address n (i + 1) j (update_var f (byte_addr address i) vars),
    find-update_var f (byte_addr address i) j vars same,
  )

  all_present-step :
      (vars : List AppVar) (lo j : ℕ)
      → lo < j
      → all_present vars lo (j - lo) ≡ (present vars lo && all_present vars (lo + 1) (j - (lo + 1)))
  unfolding all_present
  all_present-step vars lo j h = let e : j - lo ≡ suc (j - (lo + 1)) = omega arith in rw e

  all_present-zero : (vars : List AppVar) (lo j : ℕ) → j ≤ lo → all_present vars lo (j - lo) ≡ true
  unfolding all_present
  all_present-zero vars lo j h = let e : j - lo ≡ 0 = omega arith in rw e

  -- A stopped loop leaves everything, and indeed no later byte has only approximate ones before it.
  stopped :
      (lo n j : ℕ) (vars : List AppVar)
      → find_var lo vars ≡ none
      → find_var j vars ≡ (
          if in_block lo (lo + n) j && all_present vars lo (j - lo)
          then Option.map f (find_var j vars)
          else find_var j vars)
  stopped lo n j vars e = elim (dec_lt lo j) [
    | yes h ↦ let k = all_present-step vars lo j h in ground arith
    | no h ↦ elim (ℕ_discrete lo j) [
      | yes here ↦ rw (← here) (rw e (ground arith))
      | no away ↦ ground arith
    ]
  ]

  count_stop :
      (address n i : ℕ) (vars : List AppVar)
      → find_var (byte_addr address i) vars ≡ none
      → count_bytes f address (suc n) i vars ≡ vars
  unfolding count_bytes
  count_stop address n i vars e = rw (e, count_bytes)

  count_next :
      (address n i : ℕ) (vars : List AppVar) {v : AppVar}
      → find_var (byte_addr address i) vars ≡ some v
      → count_bytes f address (suc n) i vars
        ≡ count_bytes f address n (i + 1) (update_var f (byte_addr address i) vars)
  unfolding count_bytes
  count_next address n i vars e = rw (e, count_bytes)

  round :
      (lo n j : ℕ) (vars : List AppVar)
      → present vars lo ≡ true
      → (if in_block (lo + 1) (lo + 1 + n) j
            && all_present (update_var f lo vars) (lo + 1) (j - (lo + 1))
          then Option.map f (find_var j (update_var f lo vars))
          else find_var j (update_var f lo vars))
        ≡ (if in_block lo (lo + suc n) j && all_present vars lo (j - lo)
            then Option.map f (find_var j vars)
            else find_var j vars)
  round lo n j vars here = elim (dec_lt lo j) [
    | yes after ↦ ground (
      arith,
      all_present-step vars lo j after,
      find-update_var f lo j vars same,
      all_present-update lo (lo + 1) (j - (lo + 1)) vars,
    )
    | no before ↦ elim (ℕ_discrete lo j) [
      | yes first ↦ ground (arith, find-update_var f lo j vars same, all_present-zero vars lo j)
      | no out ↦ ground (arith, find-update_var f lo j vars same)
    ]
  ]

  count_bytes-from :
      (address n i lo j : ℕ) (vars : List AppVar)
      → address + i ≡ lo
      → lo + n ≤ u64_mod
      → find_var j (count_bytes f address n i vars) ≡ (
          if in_block lo (lo + n) j && all_present vars lo (j - lo)
          then Option.map f (find_var j vars)
          else find_var j vars)
  unfolding count_bytes
  count_bytes-from address zero i lo j vars e h = ground arith
  count_bytes-from address (suc n) i lo j vars e h =
      let here : byte_addr address i ≡ lo = omega arith in
      elim (Option-cases (find_var lo vars)) [
        | inl gone ↦
            ap (find_var j) (count_stop address n i vars (ap (λ a. find_var a vars) here ∙ gone))
            ∙ stopped lo (suc n) j vars gone
        | inr (v, found) ↦
            ap (find_var j) (count_next address n i vars (ap (λ a. find_var a vars) here ∙ found))
            ∙ ap (λ a. find_var j (count_bytes f address n (i + 1) (update_var f a vars))) here
            ∙ count_bytes-from address n (i + 1) (lo + 1) j (update_var f lo vars) (omega arith)
                (omega arith)
            ∙ round lo n j vars (ground arith)
      ]

-- A loop that stops at the first byte that is not approximate changes exactly the bytes of the block
-- before it.
abbrev pub CountsPrefix : (AppVar → AppVar) → ℕ → ℕ → List AppVar → List AppVar → Type 0
CountsPrefix f address n before after =
    (j : ℕ)
    → find_var j after ≡ (
        if in_block address (address + n) j && all_present before address (j - address)
        then Option.map f (find_var j before)
        else find_var j before)

-- A loop over every byte changes exactly the approximate bytes of the block.
abbrev pub ChangesBlock : (AppVar → AppVar) → ℕ → ℕ → List AppVar → List AppVar → Type 0
ChangesBlock f address n before after =
    (j : ℕ)
    → find_var j after ≡ (
        if in_block address (address + n) j
        then Option.map f (find_var j before)
        else find_var j before)

module _ (s : MagicServer) (r : IsRegistry s) (address block_size : ℕ)
    (word : address + block_size < u64_mod) where
  -- The test by `start_addr` and `end_addr` only saves time: where it returns early, the loop would
  -- change nothing.
  skipped :
      (f : AppVar → AppVar)
      → ((v : AppVar) → (f v).addr ≡ v.addr)
      → is_outside s address block_size ≡ true
      → CountsPrefix f address block_size s.approx_vars s.approx_vars
  skipped f same out j = elim (Option-cases (find_var address s.approx_vars)) [
    | inl gone ↦ stopped f same address block_size j s.approx_vars gone
    | inr (v, found) ↦ absurd (ground (arith, r.bounded address))
  ]

  counted :
      (f : AppVar → AppVar)
      → ((v : AppVar) → (f v).addr ≡ v.addr)
      → CountsPrefix f address block_size s.approx_vars
          (count_bytes f address block_size 0 s.approx_vars)
  counted f same j =
      count_bytes-from f same address block_size 0 address j s.approx_vars (omega arith)
        (omega arith)

  -- For a block that does not wrap around, add_read_acc and add_write_acc count, for their core and
  -- level, the approximate bytes of the block that have only approximate bytes of the block before
  -- them, and no other byte: the early return by start_addr and end_addr loses no count.
  pub add_acc-CountsPrefix :
      (cid : ℕ) (level : String)
      → CountsPrefix
          (inc_read_cnt cid level)
          address
          block_size
          s.approx_vars
          (add_read_acc s address cid level block_size).approx_vars
        × CountsPrefix
            (inc_write_cnt cid level)
            address
            block_size
            s.approx_vars
            (add_write_acc s address cid level block_size).approx_vars
  unfolding add_read_acc add_write_acc
  add_acc-CountsPrefix cid level = elim (Bool-cases (is_outside s address block_size)) [
    | inl out ↦
        rw out
          (skipped (inc_read_cnt cid level) reads out, skipped (inc_write_cnt cid level) writes out)
    | inr near ↦
        rw near (counted (inc_read_cnt cid level) reads, counted (inc_write_cnt cid level) writes)
  ]
    where
      reads : (v : AppVar) → (inc_read_cnt cid level v).addr ≡ v.addr
      reads v = addr-inc_read_cnt v cid level

      writes : (v : AppVar) → (inc_write_cnt cid level v).addr ≡ v.addr
      writes v = addr-inc_write_cnt v cid level

  -- For a block that does not wrap around, reset_cnters and upsave_cnters change every approximate
  -- byte of the block, and no other byte.
  pub reset-upsave-ChangesBlock :
      ChangesBlock reset address block_size s.approx_vars
        (reset_cnters s address block_size).approx_vars
      × ChangesBlock upsave address block_size s.approx_vars
          (upsave_cnters s address block_size).approx_vars
  unfolding reset_cnters upsave_cnters
  reset-upsave-ChangesBlock = (λ j. reached reset addr-reset j, λ j. reached upsave addr-upsave j)
    where
      reached :
          (f : AppVar → AppVar)
          → ((v : AppVar) → (f v).addr ≡ v.addr)
          → ChangesBlock f address block_size s.approx_vars
              (each_byte f address block_size 0 s.approx_vars)
      reached f same j =
          ground (arith, each_byte-find f same address block_size 0 j s.approx_vars (omega arith))
