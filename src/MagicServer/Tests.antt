-- ===== src/MagicServer/Tests.antt =====
-- A registry that holds the addresses 64 to 67.
use sniper.Base.{
  true, ℕ, ◌<◌, ◌≡◌, ◌↔◌, true, false, not, ◌&&◌, ◌||◌, some, arith, ◌==◌, ◌%◌, if◌then◌else◌,
}
use sniper.ApproxVars.{reset, upsave, inc_add_cnt, inc_mul_cnt, inc_read_cnt, inc_write_cnt}
use sniper.ApproxVars.Ordered.{find_var-nil}
use sniper.MagicServer.{
  MagicServer, create, byte_addr, add_approx, is_approx, is_block_approx, add_read_acc,
  add_write_acc, reset_cnters, upsave_cnters,
}
use sniper.MagicServer.Registry.{
  IsRegistry, create-IsRegistry, add_approx-IsRegistry, is_approx-add_approx,
}
use sniper.MagicServer.Queries.{is_block_approx_iff}
use sniper.MagicServer.Counting.{
  CountsPrefix, ChangesBlock, in_block, add_acc-CountsPrefix, reset-upsave-ChangesBlock,
}
use sniper.MagicServer.Commands.{
  Config, Server, Log, add_approx_addrs, del_approx_addrs, marker, add_cnt, mul_cnt,
}
use sniper.MagicServer.Commands.Ranges.{
  Adds, Deletes, add_approx_addrs-Adds, del_approx_addrs-Deletes,
}
use sniper.MagicServer.Commands.Markers.{marker_lem, count_ops-Counted, Counted}

abbrev start : MagicServer
start = create 0 0

abbrev start-IsRegistry : IsRegistry start
start-IsRegistry = create-IsRegistry 0 0

-- One address, asked for in set 1.
abbrev one : MagicServer
one = (add_approx start 64 1).0

one-IsRegistry : IsRegistry one
one-IsRegistry = add_approx-IsRegistry start start-IsRegistry 64 1

abbrev config : Config
config = record { injector = "none"; mem_footprint = true }

abbrev server : Server
server = record { registry = one; marker_log_opened = false; del_log_opened = false }

create-IsRegistry_example : IsRegistry (create 3 4)
create-IsRegistry_example = create-IsRegistry 3 4

is_block_approx_iff_example :
    (is_block_approx one 60 8 ≡ true)
    ↔ ((k : ℕ) × (k < 8) × (is_approx one (byte_addr 60 k) ≡ true))
is_block_approx_iff_example = is_block_approx_iff one 60 8

add_acc-CountsPrefix_example :
    CountsPrefix
      (inc_read_cnt 0 "L1-D")
      64
      8
      one.approx_vars
      (add_read_acc one 64 0 "L1-D" 8).approx_vars
    × CountsPrefix
        (inc_write_cnt 0 "L1-D")
        64
        8
        one.approx_vars
        (add_write_acc one 64 0 "L1-D" 8).approx_vars
add_acc-CountsPrefix_example = add_acc-CountsPrefix one one-IsRegistry 64 8 (omega arith) 0 "L1-D"

reset-upsave-ChangesBlock_example :
    ChangesBlock reset 64 8 one.approx_vars (reset_cnters one 64 8).approx_vars
    × ChangesBlock upsave 64 8 one.approx_vars (upsave_cnters one 64 8).approx_vars
reset-upsave-ChangesBlock_example = reset-upsave-ChangesBlock one one-IsRegistry 64 8 (omega arith)

add_approx_addrs-Adds_example :
    (s' : Server) × (add_approx_addrs server 100 4 ≡ some s') × Adds one s'.registry 100 104
add_approx_addrs-Adds_example =
    add_approx_addrs-Adds 100 4 (omega arith) (omega arith) server one-IsRegistry

del_approx_addrs-Deletes_example :
    (s' : Server) × (log : Log) × (del_approx_addrs config server 60 8 ≡ some (s', log))
    × Deletes one s'.registry 60 68
del_approx_addrs-Deletes_example =
    del_approx_addrs-Deletes 60 8 (omega arith) (omega arith) server one-IsRegistry config

only_64 : (j : ℕ) → in_block 100 104 j ≡ true → is_approx one j ≡ false
unfolding create is_approx
only_64 j h = ground (arith, (is_approx-add_approx start start-IsRegistry 64 1 j).0, find_var-nil j)

marker_lem_example :
    IsRegistry (marker config server 107 70).0.registry
    × ((j : ℕ)
        → is_approx (marker config server 107 70).0.registry j ≡ (
            if 107 % 100 == 7
            then (70 == j) || is_approx one j
            else if 107 % 100 == 6
            then not (70 == j) && is_approx one j
            else is_approx one j))
marker_lem_example = marker_lem config server 107 70 one-IsRegistry

count_ops-Counted_example :
    Counted (inc_add_cnt 5) one 64 (add_cnt one 64 5)
    × Counted (inc_mul_cnt 5) one 64 (mul_cnt one 64 5)
count_ops-Counted_example = count_ops-Counted one 64 5
