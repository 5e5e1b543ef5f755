-- ===== src/ApproxVars.antt =====
-- The approximate bytes that a program has declared: class `appvar` and the set `approx_vars` of
-- common/system/magic_server.h and magic_server.cc. A `std::set` ordered by address is the list of
-- its elements in that order. Each counter is an `int`, kept as its bit pattern.
pub mod Ordered
pub mod Counters
mod Tests
use Prim.Native.String.{String}
use text.Mathlib.Text.{◌==◌ as str_eq}
use sniper.Base.{
  ℕ, ◌+◌, ◌%◌, ◌^◌, Bool, true, false, ◌||◌, Option, none, some, List, [], ◌∷◌, ltb, ◌==◌,
  if◌then◌else◌, u32_mod,
}

-- The counters of `appvar`, once for the footprint and once with the prefix `poten_`.
pub record Footprint : Type 0 where
  pub approx_add_cnt : ℕ
  pub approx_mul_cnt : ℕ
  pub l1_write_cnt : ℕ
  pub l1_read_cnt : ℕ
  pub l1_1_write_cnt : ℕ
  pub l1_1_read_cnt : ℕ
  pub l1_2_write_cnt : ℕ
  pub l1_2_read_cnt : ℕ
  pub l1_3_write_cnt : ℕ
  pub l1_3_read_cnt : ℕ
  pub l2_write_cnt : ℕ
  pub l2_read_cnt : ℕ
  pub maxlifetime : ℕ

pub record AppVar : Type 0 where
  pub addr : ℕ
  pub set_num : ℕ
  pub saved : Footprint
  pub poten : Footprint

-- `x + 1` on an `int`, by its bit pattern.
abbrev pub inc : ℕ → ℕ
inc x = (x + 1) % u32_mod

-- `MAX(a,b)` on two `int`s: adding 2 ^ 31 turns the signed order into that of the patterns.
unfoldable pub max_int : ℕ → ℕ → ℕ
max_int a b = if ltb ((b + 2 ^ 31) % u32_mod) ((a + 2 ^ 31) % u32_mod) then a else b

pub upsave : AppVar → AppVar
unfolding max_int
upsave v = record v {
  saved = record s {
    l1_write_cnt = max_int p.l1_write_cnt s.l1_write_cnt;
    l1_read_cnt = max_int p.l1_read_cnt s.l1_read_cnt;
    l1_1_write_cnt = max_int p.l1_1_write_cnt s.l1_1_write_cnt;
    l1_1_read_cnt = max_int p.l1_1_read_cnt s.l1_1_read_cnt;
    l1_2_write_cnt = max_int p.l1_2_write_cnt s.l1_2_write_cnt;
    l1_2_read_cnt = max_int p.l1_2_read_cnt s.l1_2_read_cnt;
    l1_3_write_cnt = max_int p.l1_3_write_cnt s.l1_3_write_cnt;
    l1_3_read_cnt = max_int p.l1_3_read_cnt s.l1_3_read_cnt;
    l2_write_cnt = max_int p.l2_write_cnt s.l2_write_cnt;
    l2_read_cnt = max_int p.l2_read_cnt s.l2_read_cnt;
    approx_add_cnt = max_int p.approx_add_cnt s.approx_add_cnt;
    approx_mul_cnt = max_int p.approx_mul_cnt s.approx_mul_cnt;
  };
}
  where
    s : Footprint
    s = v.saved

    p : Footprint
    p = v.poten

pub reset : AppVar → AppVar
reset v = record v {
  poten = record p {
    l1_write_cnt = 0;
    l1_read_cnt = 0;
    l1_1_write_cnt = 0;
    l1_1_read_cnt = 0;
    l1_2_write_cnt = 0;
    l1_2_read_cnt = 0;
    l1_3_write_cnt = 0;
    l1_3_read_cnt = 0;
    l2_write_cnt = 0;
    l2_read_cnt = 0;
  };
}
  where
    p : Footprint
    p = v.poten

abbrev pub is_l1 : String → Bool
is_l1 level = str_eq level "L1-D" || str_eq level "l1d"

abbrev pub is_l2 : String → Bool
is_l2 level = str_eq level "L2" || str_eq level "l2"

-- The counters of the core's own cache; a core from 4 on is only reported.
count_l1_write : ℕ → Footprint → Footprint
count_l1_write cid p =
    if cid == 0
    then record p { l1_write_cnt = inc p.l1_write_cnt }
    else if cid == 1
    then record p { l1_1_write_cnt = inc p.l1_1_write_cnt }
    else if cid == 2
    then record p { l1_2_write_cnt = inc p.l1_2_write_cnt }
    else if cid == 3
    then record p { l1_3_write_cnt = inc p.l1_3_write_cnt }
    else p

count_l1_read : ℕ → Footprint → Footprint
count_l1_read cid p =
    if cid == 0
    then record p { l1_read_cnt = inc p.l1_read_cnt }
    else if cid == 1
    then record p { l1_1_read_cnt = inc p.l1_1_read_cnt }
    else if cid == 2
    then record p { l1_2_read_cnt = inc p.l1_2_read_cnt }
    else if cid == 3
    then record p { l1_3_read_cnt = inc p.l1_3_read_cnt }
    else p

pub inc_write_cnt : ℕ → String → AppVar → AppVar
unfolding count_l1_write
inc_write_cnt cid level v = record v { poten = l2 }
  where
    l1 : Footprint
    l1 = if is_l1 level then count_l1_write cid v.poten else v.poten

    l2 : Footprint
    l2 = if is_l2 level then record l1 { l2_write_cnt = inc l1.l2_write_cnt } else l1

pub inc_read_cnt : ℕ → String → AppVar → AppVar
unfolding count_l1_read
inc_read_cnt cid level v = record v { poten = l2 }
  where
    l1 : Footprint
    l1 = if is_l1 level then count_l1_read cid v.poten else v.poten

    l2 : Footprint
    l2 = if is_l2 level then record l1 { l2_read_cnt = inc l1.l2_read_cnt } else l1

pub inc_add_cnt : ℕ → AppVar → AppVar
inc_add_cnt val v = record v {
  poten = record p { approx_add_cnt = (p.approx_add_cnt + val) % u32_mod };
}
  where
    p : Footprint
    p = v.poten

pub inc_mul_cnt : ℕ → AppVar → AppVar
inc_mul_cnt val v = record v {
  poten = record p { approx_mul_cnt = (p.approx_mul_cnt + val) % u32_mod };
}
  where
    p : Footprint
    p = v.poten

abbrev pub no_counts : Footprint
no_counts = record {
  approx_add_cnt = 0;
  approx_mul_cnt = 0;
  l1_write_cnt = 0;
  l1_read_cnt = 0;
  l1_1_write_cnt = 0;
  l1_1_read_cnt = 0;
  l1_2_write_cnt = 0;
  l1_2_read_cnt = 0;
  l1_3_write_cnt = 0;
  l1_3_read_cnt = 0;
  l2_write_cnt = 0;
  l2_read_cnt = 0;
  maxlifetime = 0;
}

-- `approx_vars.find(tmp)`
unfoldable pub find_var : ℕ → List AppVar → Option AppVar
find_var a [] = none
find_var a (v ∷ vars) = if v.addr == a then some v else find_var a vars

-- `approx_vars.insert(tmp)`: the set, and whether the element is new.
pub insert_var : AppVar → List AppVar → List AppVar × Bool
insert_var v [] = (v ∷ [], true)
insert_var v (w ∷ vars) =
    let rest = insert_var v vars in
    if ltb v.addr w.addr
    then (v ∷ w ∷ vars, true)
    else if v.addr == w.addr
    then (w ∷ vars, false)
    else (w ∷ rest.0, rest.1)

-- `approx_vars.erase(it)` at the element with the address.
pub erase_var : ℕ → List AppVar → List AppVar
erase_var a [] = []
erase_var a (v ∷ vars) = if v.addr == a then vars else v ∷ erase_var a vars

-- A write through the pointers of the element with the address.
pub update_var : (AppVar → AppVar) → ℕ → List AppVar → List AppVar
update_var f a [] = []
update_var f a (v ∷ vars) = if v.addr == a then f v ∷ vars else v ∷ update_var f a vars
