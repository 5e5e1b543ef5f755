-- ===== src/MagicServer.antt =====
-- The magic server's registry of approximate bytes, common/system/magic_server.h and
-- magic_server.cc: its state with the globals `start_addr`, `end_addr` and `app_cnter`, the queries
-- and the counting of accesses. What the caches and the DRAM controller call stands here; the
-- program's commands are in `MagicServer.Commands`.
pub mod Registry
pub mod Counting
pub mod Queries
pub mod Commands
pub mod Lifetime
mod Tests
use Prim.Native.String.{String}
use sniper.Base.{
  ℕ, zero, suc, ◌+◌, ◌-◌, ◌*◌, ◌/◌, ◌%◌, ◌==◌, Bool, true, false, ◌&&◌, ◌||◌, Option, none, some,
  List, [], ◌∷◌, ltb, leb, if◌then◌else◌, u32_mod, u64_mod,
}
use sniper.ApproxVars.{
  AppVar, find_var, insert_var, erase_var, update_var, upsave, reset, inc, inc_read_cnt,
  inc_write_cnt, no_counts,
}

pub record MagicServer : Type 0 where
  pub approx_vars : List AppVar
  pub start_addr : ℕ
  pub end_addr : ℕ
  pub app_cnter : ℕ
  pub approx_adds : ℕ
  pub approx_muls : ℕ

-- The globals' initial values, and the constructor; it leaves the two counts of operations as they are.
unfoldable pub create : ℕ → ℕ → MagicServer
create adds muls = record {
  approx_vars = [];
  start_addr = u64_mod - 1;
  end_addr = 0;
  app_cnter = 0;
  approx_adds = adds;
  approx_muls = muls;
}

-- `address + i` on `UInt64`.
abbrev pub byte_addr : ℕ → ℕ → ℕ
byte_addr address i = (address + i) % u64_mod

abbrev pub fresh_var : ℕ → AppVar
fresh_var address = record { addr = address; set_num = 0; saved = no_counts; poten = no_counts }

-- The set number is not used.
pub add_approx : MagicServer → ℕ → ℕ → MagicServer × Bool
add_approx s address set_number =
    let (vars, new) = insert_var (fresh_var address) s.approx_vars in
    if new
    then (
      record s {
        approx_vars = vars;
        end_addr = if ltb s.end_addr address then address else s.end_addr;
        start_addr = if ltb address s.start_addr then address else s.start_addr;
        app_cnter = inc s.app_cnter;
      },
      true,
    )
    else (record s { approx_vars = vars }, false)

pub del_approx : MagicServer → ℕ → MagicServer × Bool
del_approx s address = elim (find_var address s.approx_vars) [
  | none ↦ (s, false)
  | some _ ↦ (record s { approx_vars = erase_var address s.approx_vars }, true)
]

unfoldable pub is_approx : MagicServer → ℕ → Bool
is_approx s address = elim (find_var address s.approx_vars) [ none ↦ false | some _ ↦ true ]

-- The loop of `is_block_approx`, for `n` bytes from the `i`-th on.
unfoldable pub any_approx : MagicServer → ℕ → ℕ → ℕ → Bool
unfolding is_approx
any_approx s address zero i = false
any_approx s address (suc n) i =
    let rest = any_approx s address n (i + 1) in
    if is_approx s (byte_addr address i) then true else rest

unfoldable pub is_block_approx : MagicServer → ℕ → ℕ → Bool
unfolding any_approx
is_block_approx s address block_size = any_approx s address block_size 0

-- `none` is -1. The conversion of the set number to `int` keeps its low 32 bits.
pub approx_addr_setnum : MagicServer → ℕ → Option ℕ
approx_addr_setnum s address = elim (find_var address s.approx_vars) [
  | none ↦ none
  | some v ↦ if v.set_num % u32_mod == u32_mod - 1 then none else some (v.set_num % u32_mod)
]

pub first_setnum : MagicServer → ℕ → ℕ → ℕ → Option ℕ
unfolding approx_addr_setnum
first_setnum s address zero i = none
first_setnum s address (suc n) i =
    let rest = first_setnum s address n (i + 1) in
    elim (approx_addr_setnum s (byte_addr address i)) [ some k ↦ some k | none ↦ rest ]

pub approx_block_setnum : MagicServer → ℕ → ℕ → Option ℕ
unfolding first_setnum
approx_block_setnum s address block_size = first_setnum s address block_size 0

-- The loop of `add_read_acc` and `add_write_acc`: it stops at the first byte that is not approximate.
pub count_bytes : (AppVar → AppVar) → ℕ → ℕ → ℕ → List AppVar → List AppVar
count_bytes f address zero i vars = vars
count_bytes f address (suc n) i vars =
    let rest = count_bytes f address n (i + 1) (update_var f (byte_addr address i) vars) in
    elim (find_var (byte_addr address i) vars) [ none ↦ vars | some _ ↦ rest ]

-- `address+block_size < start_addr || address > end_addr`
abbrev pub is_outside : MagicServer → ℕ → ℕ → Bool
is_outside s address block_size =
    ltb (byte_addr address block_size) s.start_addr || ltb s.end_addr address

pub add_read_acc : MagicServer → ℕ → ℕ → String → ℕ → MagicServer
unfolding count_bytes
add_read_acc s address cid level block_size =
    if is_outside s address block_size then s else record s {
      approx_vars = count_bytes (inc_read_cnt cid level) address block_size 0 s.approx_vars;
    }

pub add_write_acc : MagicServer → ℕ → ℕ → String → ℕ → MagicServer
unfolding count_bytes
add_write_acc s address cid level block_size =
    if is_outside s address block_size then s else record s {
      approx_vars = count_bytes (inc_write_cnt cid level) address block_size 0 s.approx_vars;
    }

-- The loop of `reset_cnters` and `upsave_cnters`, which passes over the bytes that are not approximate.
pub each_byte : (AppVar → AppVar) → ℕ → ℕ → ℕ → List AppVar → List AppVar
each_byte f address zero i vars = vars
each_byte f address (suc n) i vars =
    each_byte f address n (i + 1) (update_var f (byte_addr address i) vars)

pub reset_cnters : MagicServer → ℕ → ℕ → MagicServer
unfolding each_byte
reset_cnters s address len = record s { approx_vars = each_byte reset address len 0 s.approx_vars }

pub upsave_cnters : MagicServer → ℕ → ℕ → MagicServer
unfolding each_byte
upsave_cnters s address len = record s {
  approx_vars = each_byte upsave address len 0 s.approx_vars;
}
