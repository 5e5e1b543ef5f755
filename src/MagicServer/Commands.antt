-- ===== src/MagicServer/Commands.antt =====
-- The commands of `Magic_unlocked` (common/system/magic_server.cc) on the registry: a range of
-- addresses that is added or deleted, the marker that adds or deletes one address, and the counts of
-- approximate operations. What a command writes to the file approx.log is part of its result.
pub mod Ranges
pub mod Markers
use Prim.Native.String.{String}
use text.Mathlib.Text.{◌==◌ as str_eq}
use sniper.Base.{
  ℕ, zero, suc, ◌+◌, ◌/◌, ◌%◌, Bool, true, false, not, ◌&&◌, Option, none, some, List, map, ◌==◌,
  ltb, if◌then◌else◌, u32_mod,
}
use sniper.ApproxVars.{AppVar, find_var, update_var, upsave, inc_add_cnt, inc_mul_cnt}
use sniper.MagicServer.{MagicServer, byte_addr, add_approx, del_approx}

-- The settings that the commands read: `fault_injection/injector` and `mem_footprint/enable`.
pub record Config : Type 0 where
  pub injector : String
  pub mem_footprint : Bool

-- The server with the two static flags `log_file_opened`, one for each command that logs.
pub record Server : Type 0 where
  pub registry : MagicServer
  pub marker_log_opened : Bool
  pub del_log_opened : Bool

-- What a command leaves in approx.log: nothing, the line "mem footprint disabled!", or a line for
-- each of the bytes.
pub data Log : Type 0 where
  no_log log_disabled : Log
  log_footprint : List AppVar → Log

-- The loops over a range, for `n` addresses from the `i`-th on.
pub add_range : MagicServer → ℕ → ℕ → ℕ → MagicServer
add_range s arg0 zero i = s
add_range s arg0 (suc n) i = add_range (add_approx s (byte_addr arg0 i) 0).0 arg0 n (i + 1)

pub del_range : MagicServer → ℕ → ℕ → ℕ → MagicServer
del_range s arg0 zero i = s
del_range s arg0 (suc n) i = del_range (del_approx s (byte_addr arg0 i)).0 arg0 n (i + 1)

-- `SIM_CMD_ADD_APPROX_ADDRS`. The loop's variable is an `unsigned int`, so for a size of 2 ^ 32 or
-- more the loop does not end: `none`.
pub add_approx_addrs : Server → ℕ → ℕ → Option Server
unfolding add_range
add_approx_addrs s arg0 arg1 =
    if ltb arg1 u32_mod
    then some (record s { registry = add_range s.registry arg0 arg1 0 })
    else none

-- The log of `SIM_CMD_DEL_APPROX_ADDRS`.
pub del_log : Config → Server → Server × Log
del_log c s =
    if not s.del_log_opened && str_eq c.injector "none"
    then (if c.mem_footprint
        then (record s { del_log_opened = true }, log_footprint s.registry.approx_vars)
        else (s, log_disabled))
    else (s, no_log)

-- `SIM_CMD_DEL_APPROX_ADDRS`
pub del_approx_addrs : Config → Server → ℕ → ℕ → Option (Server × Log)
unfolding del_range del_log
del_approx_addrs c s arg0 arg1 =
    let (s', log) = del_log c s in
    if ltb arg1 u32_mod
    then some (record s' { registry = del_range s'.registry arg0 arg1 0 }, log)
    else none

-- The log of `SIM_CMD_MARKER`, which saves every byte's counters first.
pub marker_log : Config → Server → Server × Log
marker_log c s =
    if not s.marker_log_opened && str_eq c.injector "none"
    then (if c.mem_footprint
        then (
          record s { registry = record r { approx_vars = saved }; marker_log_opened = true },
          log_footprint saved,
        )
        else (s, log_disabled))
    else (s, no_log)
  where
    r : MagicServer
    r = s.registry

    saved : List AppVar
    saved = map upsave s.registry.approx_vars

-- `SIM_CMD_MARKER`, without the hooks that it calls at its end.
pub marker : Config → Server → ℕ → ℕ → Server × Log
unfolding marker_log
marker c s arg0 arg1 =
    if arg0 % 100 == 7
    then (record s { registry = (add_approx s.registry arg1 (arg0 / 100)).0 }, no_log)
    else if arg0 % 100 == 6
    then (
      record ((marker_log c s).0) { registry = (del_approx (marker_log c s).0.registry arg1).0 },
      (marker_log c s).1,
    )
    else (s, no_log)

-- `SIM_CMD_ADD_CNT` and `SIM_CMD_MUL_CNT`, with the value that is returned. The count is an `int`.
pub count_op : (ℕ → AppVar → AppVar) → MagicServer → ℕ → ℕ → MagicServer × ℕ
count_op f s arg0 arg1 = elim (find_var arg0 s.approx_vars) [
  | none ↦ (s, 0)
  | some _ ↦ (record s { approx_vars = update_var (f (arg1 % u32_mod)) arg0 s.approx_vars }, 1)
]

pub add_cnt : MagicServer → ℕ → ℕ → MagicServer × ℕ
unfolding count_op
add_cnt s arg0 arg1 = count_op inc_add_cnt s arg0 arg1

pub mul_cnt : MagicServer → ℕ → ℕ → MagicServer × ℕ
unfolding count_op
mul_cnt s arg0 arg1 = count_op inc_mul_cnt s arg0 arg1
