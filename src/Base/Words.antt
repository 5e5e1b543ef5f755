-- ===== src/Base/Words.antt =====
-- Machine words as native numbers: the moduli, and the integer part of the base-2 logarithm.
use Prim.Native.Nat.{ℕ, zero, suc, ◌+◌, ◌*◌, ◌/◌, ◌%◌, ◌^◌, ◌≤◌, ◌<◌}
use mathlib.Core.Path.{◌≡◌}
use native.Mathlib.Numerals.{towards_suc}
use native.Mathlib.Omega.{arith}
use sniper.Base.Tests.{ltb, if◌then◌else◌, Bool-cases, ltb→lt, ltb→le}
use mathlib.Core.Logic.{inl, inr}

abbrev pub u8_mod : ℕ
u8_mod = 2 ^ 8

abbrev pub u32_mod : ℕ
u32_mod = 2 ^ 32

abbrev pub u64_mod : ℕ
u64_mod = 2 ^ 64

-- `++x` on a `UInt64`
abbrev pub inc_u64 : ℕ → ℕ
inc_u64 x = (x + 1) % u64_mod

-- `(int) log2(n)`, on fuel.
unfoldable pub log2_fuel : ℕ → ℕ → ℕ
log2_fuel zero n = 0
log2_fuel (suc f) n = let rest = log2_fuel f (n / 2) + 1 in if ltb n 2 then 0 else rest

-- Every `n` below `2 ^ 32` needs 32 halvings at most.
unfoldable pub log2 : ℕ → ℕ
unfolding log2_fuel
log2 n = log2_fuel 32 n

pow-add_one : (n : ℕ) → 2 ^ (n + 1) ≡ 2 * 2 ^ n
pow-add_one n = simp towards_suc (omega arith)

pow_two_suc : (n : ℕ) → 2 ^ suc n ≡ 2 * 2 ^ n
pow_two_suc n = omega arith

log2_fuel_bounds :
    (f n : ℕ) → 0 < n → n < 2 ^ (f + 1) → (2 ^ log2_fuel f n ≤ n) × (n < 2 ^ (log2_fuel f n + 1))
unfolding log2_fuel
log2_fuel_bounds zero n p h = (omega arith, h)
log2_fuel_bounds (suc f) n p h = elim (Bool-cases (ltb n 2)) [
  | inl small ↦ rw small (let b = ltb→lt n 2 small in omega (arith, b))
  | inr big ↦
      let b = ltb→le n 2 big in
      let ih =
        log2_fuel_bounds f (n / 2) (omega (arith, b))
          (omega (arith, pow-add_one f, pow-add_one (suc f), pow_two_suc f)) in
      rw big (
        omega (
          arith,
          ih.0,
          ih.1,
          pow-add_one (log2_fuel f (n / 2)),
          pow-add_one (log2_fuel f (n / 2) + 1),
        ))
]

-- The integer part of the logarithm, for every positive 32-bit number.
pub log2_bounds : (n : ℕ) → 0 < n → n < u32_mod → (2 ^ log2 n ≤ n) × (n < 2 ^ (log2 n + 1))
unfolding log2
log2_bounds n p h = log2_fuel_bounds 32 n p (omega arith)

pub lt-pow_two : (n : ℕ) → n < 2 ^ n
lt-pow_two zero = omega arith
lt-pow_two (suc n) = omega (arith, lt-pow_two n, pow_two_suc n)

pub log2-lt : (n : ℕ) → 0 < n → n < u32_mod → log2 n < n
log2-lt n p h = omega (arith, log2_bounds n p h, lt-pow_two (log2 n))
