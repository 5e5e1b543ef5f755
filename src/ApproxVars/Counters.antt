-- ===== src/ApproxVars/Counters.antt =====
-- The counters of one approximate byte: what `upsave` and `reset` do to the two footprints.
use Prim.Native.String.{String}
use sniper.Base.{ℕ, ◌^◌, ◌<◌, ◌≡◌, refl, arith, ltb, if◌then◌else◌}
use sniper.ApproxVars.{
  AppVar, Footprint, max_int, upsave, reset, inc_read_cnt, inc_write_cnt, inc_add_cnt, inc_mul_cnt,
}

module _ (v : AppVar) where
  pub addr-upsave : (upsave v).addr ≡ v.addr
  unfolding upsave
  addr-upsave = refl

  pub set_num-upsave : (upsave v).set_num ≡ v.set_num
  unfolding upsave
  set_num-upsave = refl

  pub addr-reset : (reset v).addr ≡ v.addr
  unfolding reset
  addr-reset = refl

  pub addr-inc_read_cnt : (cid : ℕ) (level : String) → (inc_read_cnt cid level v).addr ≡ v.addr
  unfolding inc_read_cnt
  addr-inc_read_cnt cid level = refl

  pub addr-inc_write_cnt : (cid : ℕ) (level : String) → (inc_write_cnt cid level v).addr ≡ v.addr
  unfolding inc_write_cnt
  addr-inc_write_cnt cid level = refl

  pub addr-inc_add_cnt : (val : ℕ) → (inc_add_cnt val v).addr ≡ v.addr
  unfolding inc_add_cnt
  addr-inc_add_cnt val = refl

  pub addr-inc_mul_cnt : (val : ℕ) → (inc_mul_cnt val v).addr ≡ v.addr
  unfolding inc_mul_cnt
  addr-inc_mul_cnt val = refl

-- An `int` that is not negative.
abbrev pub IsCount : ℕ → Type 0
IsCount x = x < 2 ^ 31

-- On counts, `MAX` is the larger number.
pub max_int_lem : (a c : ℕ) → IsCount a → IsCount c → max_int a c ≡ (if ltb c a then a else c)
unfolding max_int
max_int_lem a c ha hc = ground arith

-- The footprint's counters are not negative; they are sums of single accesses.
pub record AllCounts (f : Footprint) : Type 0 where
  pub adds : IsCount f.approx_add_cnt
  pub muls : IsCount f.approx_mul_cnt
  pub l1_writes : IsCount f.l1_write_cnt
  pub l1_reads : IsCount f.l1_read_cnt
  pub l1_1_writes : IsCount f.l1_1_write_cnt
  pub l1_1_reads : IsCount f.l1_1_read_cnt
  pub l1_2_writes : IsCount f.l1_2_write_cnt
  pub l1_2_reads : IsCount f.l1_2_read_cnt
  pub l1_3_writes : IsCount f.l1_3_write_cnt
  pub l1_3_reads : IsCount f.l1_3_read_cnt
  pub l2_writes : IsCount f.l2_write_cnt
  pub l2_reads : IsCount f.l2_read_cnt

-- A maximum is not raised by the value it comes from, nor by zero.
kept : (a c : ℕ) → IsCount a → IsCount c → max_int a (max_int a c) ≡ max_int a c
unfolding max_int
kept a c ha hc = ground arith

from_zero : (a c : ℕ) → IsCount a → IsCount c → max_int 0 (max_int a c) ≡ max_int a c
unfolding max_int
from_zero a c ha hc = ground arith

-- If no counter of a byte is negative, saving its counters, resetting them and saving again saves
-- nothing new.
pub upsave-reset-upsave :
    (v : AppVar)
    → AllCounts v.saved
    → AllCounts v.poten
    → upsave (reset (upsave v)) ≡ reset (upsave v)
unfolding upsave reset
upsave-reset-upsave v s p = λ i. record (reset (upsave v)) {
  saved = record (upsave v).saved {
    approx_add_cnt = kept v.poten.approx_add_cnt v.saved.approx_add_cnt p.adds s.adds i;
    approx_mul_cnt = kept v.poten.approx_mul_cnt v.saved.approx_mul_cnt p.muls s.muls i;
    l1_write_cnt = from_zero v.poten.l1_write_cnt v.saved.l1_write_cnt p.l1_writes s.l1_writes i;
    l1_read_cnt = from_zero v.poten.l1_read_cnt v.saved.l1_read_cnt p.l1_reads s.l1_reads i;
    l1_1_write_cnt =
        from_zero v.poten.l1_1_write_cnt v.saved.l1_1_write_cnt p.l1_1_writes s.l1_1_writes i;
    l1_1_read_cnt =
        from_zero v.poten.l1_1_read_cnt v.saved.l1_1_read_cnt p.l1_1_reads s.l1_1_reads i;
    l1_2_write_cnt =
        from_zero v.poten.l1_2_write_cnt v.saved.l1_2_write_cnt p.l1_2_writes s.l1_2_writes i;
    l1_2_read_cnt =
        from_zero v.poten.l1_2_read_cnt v.saved.l1_2_read_cnt p.l1_2_reads s.l1_2_reads i;
    l1_3_write_cnt =
        from_zero v.poten.l1_3_write_cnt v.saved.l1_3_write_cnt p.l1_3_writes s.l1_3_writes i;
    l1_3_read_cnt =
        from_zero v.poten.l1_3_read_cnt v.saved.l1_3_read_cnt p.l1_3_reads s.l1_3_reads i;
    l2_write_cnt = from_zero v.poten.l2_write_cnt v.saved.l2_write_cnt p.l2_writes s.l2_writes i;
    l2_read_cnt = from_zero v.poten.l2_read_cnt v.saved.l2_read_cnt p.l2_reads s.l2_reads i;
  };
}
