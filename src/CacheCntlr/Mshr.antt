-- ===== src/CacheCntlr/Mshr.antt =====
-- The miss status registers, `mshr` and `cleanupMshr` of
-- common/core/memory_subsystem/parametric_dram_directory_msi/cache_cntlr.cc: a map from a line's
-- address to the time of its miss, of which the eight that end last are kept. The list is in the
-- order in which the map is walked.
pub mod Walk
pub mod Ending
pub mod Cleanup
use sniper.Base.{
  ℕ, zero, suc, Bool, true, false, not, ◌&&◌, Option, none, some, List, [], ◌∷◌, ◌==◌, ltb,
  if◌then◌else◌, length,
}
use sniper.CacheCntlr.{MshrEntry}

-- `make_mshr`
unfoldable pub make_mshr : ℕ → ℕ → ℕ → MshrEntry
make_mshr address t_issue t_complete = record {
  key = address;
  t_issue = t_issue;
  t_complete = t_complete;
}

-- `mshr[address] = entry`
unfoldable pub set_mshr : MshrEntry → List MshrEntry → List MshrEntry
set_mshr entry [] = entry ∷ []
set_mshr entry (e ∷ m) =
    let rest = set_mshr entry m in if e.key == entry.key then entry ∷ m else e ∷ rest

-- `mshr.count(address)` with the entry
unfoldable pub find_mshr : ℕ → List MshrEntry → Option MshrEntry
find_mshr address [] = none
find_mshr address (e ∷ m) = if e.key == address then some e else find_mshr address m

unfoldable pub erase : ℕ → List MshrEntry → List MshrEntry
erase address [] = []
erase address (e ∷ m) = if e.key == address then erase address m else e ∷ erase address m

-- The walk for the entry that ends first: `address_min` and `time_min`.
unfoldable pub find_min : List MshrEntry → ℕ → ℕ → ℕ × ℕ
find_min [] address_min time_min = (address_min, time_min)
find_min (e ∷ m) address_min time_min =
    if ltb e.t_complete time_min
    then find_min m e.key e.t_complete
    else find_min m address_min time_min

-- `cleanupMshr`; `none` is a loop that goes on when the fuel is spent.
unfoldable pub cleanup_mshr : ℕ → ℕ → List MshrEntry → Option (List MshrEntry)
cleanup_mshr max_time zero m = if ltb 8 (length m) then none else some m
cleanup_mshr max_time (suc fuel) m =
    let rest = cleanup_mshr max_time fuel (erase (find_min m 0 max_time).0 m) in
    if ltb 8 (length m) then rest else some m

-- A hit while the miss is in progress: `overlapping`
unfoldable pub in_progress : ℕ → Option MshrEntry → Bool
in_progress t_now none = false
in_progress t_now (some e) = ltb e.t_issue t_now && ltb t_now e.t_complete
