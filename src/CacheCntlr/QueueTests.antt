-- ===== src/CacheCntlr/QueueTests.antt =====
-- The queues of a last-level cache 0: requests that wait, misses in progress, addresses to prefetch;
-- and its counters.
use mathlib.Core.List.{Memᴰ}
use sniper.Base.{
  ℕ, ◌≡◌, ◌<◌, ◌≤◌, refl, subst, sym, Bool, true, false, not, ◌&&◌, Option, none, some, List, [],
  ◌∷◌, ◌==◌, if◌then◌else◌, length, arith, ltb, ltb→lt,
}
use sniper.MagicServer
use sniper.MagicServer.{MagicServer, add_approx}
use sniper.MagicServer.Registry.{IsRegistry, create-IsRegistry, add_approx-IsRegistry}
use sniper.CacheCntlr.{
  invalid, shared, Line, Config, MshrEntry, Waiter, no_stats, no_accesses, AccessCounters,
  DramInterface, Hierarchy, MemOp, read, write, evict,
}
use sniper.CacheCntlr.Update.{Updated, write_cache_block, update_cache_block}
use sniper.CacheCntlr.Update.Fuel.{
  Rises, rise, Within, within, write_or, update_or, update_cache_block-ends,
}
use sniper.CacheCntlr.Mshr.{cleanup_mshr}
use sniper.CacheCntlr.Mshr.Walk.{IsMap, nothing, entry}
use sniper.CacheCntlr.Mshr.Ending.{IsEnding}
use sniper.CacheCntlr.Mshr.Cleanup.{IsCleaned, cleanup_mshr-IsCleaned}
use sniper.CacheCntlr.Counters.{Access, no_prefetch, run_counters}
use sniper.CacheCntlr.Counters.Tally.{Seen, AreTallies}
use sniper.CacheCntlr.Counters.Runs.{watch, approx_block, run_counters-AreTallies}
use sniper.CacheCntlr.Prefetching.{train_prefetcher}
use sniper.CacheCntlr.Prefetching.Queue.{IsQueue, train_prefetcher-IsQueue}

-- The tests of a list that make it a map of misses that end before 1000.
fresh : ℕ → List MshrEntry → Bool
fresh key [] = true
fresh key (e ∷ m) = not (e.key == key) && fresh key m

is_map : List MshrEntry → Bool
is_map [] = true
is_map (e ∷ m) = fresh e.key m && is_map m

all_end : List MshrEntry → Bool
all_end [] = true
all_end (e ∷ m) = ltb e.t_complete 1000 && all_end m

fresh_lem :
    (key : ℕ) (m : List MshrEntry)
    → fresh key m ≡ true
    → (x : MshrEntry) → Memᴰ x m
    → (x.key == key) ≡ false
unfolding fresh
fresh_lem key [] e x h = elim h [ ]
fresh_lem key (y ∷ m) e x (Memᴰ.head q) =
    subst (λ (z : MshrEntry). (z.key == key) ≡ false) (sym q) (ground (arith, e))
fresh_lem key (y ∷ m) e x (Memᴰ.tail h) = fresh_lem key m (ground (arith, e)) x h

is_map-IsMap : (m : List MshrEntry) → is_map m ≡ true → IsMap m
unfolding is_map
is_map-IsMap [] e = nothing
is_map-IsMap (y ∷ m) e =
    entry (fresh_lem y.key m (ground (arith, e))) (is_map-IsMap m (ground (arith, e)))

all_end_lem :
    (m : List MshrEntry) → all_end m ≡ true → (x : MshrEntry) → Memᴰ x m → x.t_complete < 1000
unfolding all_end
all_end_lem [] e x h = elim h [ ]
all_end_lem (y ∷ m) e x (Memᴰ.head q) =
    subst (λ (z : MshrEntry). z.t_complete < 1000) (sym q)
      (ltb→lt y.t_complete 1000 (ground (arith, e)))
all_end_lem (y ∷ m) e x (Memᴰ.tail h) = all_end_lem m (ground (arith, e)) x h

abbrev miss : ℕ → ℕ → MshrEntry
miss key t = record { key = key; t_issue = 0; t_complete = t }

abbrev ten_misses : List MshrEntry
ten_misses =
    miss 1 30
    ∷ miss 2 20
    ∷ miss 3 90
    ∷ miss 4 10
    ∷ miss 5 50
    ∷ miss 6 60
    ∷ miss 7 15
    ∷ miss 8 80
    ∷ miss 9 70
    ∷ miss 10 40
    ∷ []

cleanup_mshr-IsCleaned_example :
    (m' : List MshrEntry) × (cleanup_mshr 1000 (length ten_misses) ten_misses ≡ some m')
    × IsCleaned ten_misses m'
unfolding is_map fresh all_end
cleanup_mshr-IsCleaned_example =
    cleanup_mshr-IsCleaned 1000 ten_misses (is_map-IsMap ten_misses refl)
      (all_end_lem ten_misses refl)

two-IsEnding : IsEnding 1000 (miss 1 30 ∷ miss 2 20 ∷ [])
unfolding is_map fresh all_end
two-IsEnding = record {
  one_each = is_map-IsMap (miss 1 30 ∷ miss 2 20 ∷ []) refl;
  ends = all_end_lem (miss 1 30 ∷ miss 2 20 ∷ []) refl;
}

abbrev one : MagicServer
one = (add_approx (MagicServer.create 0 0) 64 1).0

one-IsRegistry : IsRegistry one
one-IsRegistry = add_approx-IsRegistry (MagicServer.create 0 0) (create-IsRegistry 0 0) 64 1

abbrev access_of : MemOp → ℕ → Bool → Access
access_of op address hit = record {
  mem_op_type = op;
  address = address;
  cache_hit = hit;
  state = shared;
  kind = no_prefetch;
  t_now = 25;
}

abbrev accesses : List Access
accesses = access_of read 64 false ∷ access_of write 1 true ∷ access_of read 32 true ∷ []

run_counters-AreTallies_example :
    (seen : List Seen) × (c : AccessCounters) × (m' : List MshrEntry) × (watch 1000 accesses
        (miss 1 30 ∷ miss 2 20 ∷ [])
        []
      ≡ some seen)
    × (run_counters one 8 1000 accesses
          (record { loads = no_accesses; stores = no_accesses }, miss 1 30 ∷ miss 2 20 ∷ [])
        ≡ some (c, m'))
    × AreTallies (approx_block one 8 1000) seen c
run_counters-AreTallies_example =
    run_counters-AreTallies one 8 1000 accesses (miss 1 30 ∷ miss 2 20 ∷ []) one-IsRegistry
      (omega arith) two-IsEnding

abbrev above_100 : ℕ → Bool
above_100 address = ltb 100 address

train_prefetcher-IsQueue_example :
    IsQueue above_100
      (train_prefetcher above_100
        (64 ∷ 128 ∷ 96 ∷ [])
        1000
        false
        false
        false
        5
        (record { prefetch_list = []; prefetch_next = 0 })).prefetch_list
train_prefetcher-IsQueue_example =
    train_prefetcher-IsQueue above_100 (64 ∷ 128 ∷ 96 ∷ []) 1000 false false false 5
      (record { prefetch_list = []; prefetch_next = 0 })
      (record { bounded = omega arith; unreadable = λ x h. elim h [ ] })

abbrev unit_dram : DramInterface
unit_dram = record { State = ℕ; get_bytes = λ s a. some ([], s); put_bytes = λ s a bytes. some s }

abbrev links : ℕ → Config
links k = record {
  prev_cache_cntlrs = if k == 0 then 1 ∷ [] else [];
  next_cache_cntlr = if k == 1 then some 0 else none;
  core_id = k;
  perfect = false;
  passthrough = false;
  coherent = true;
  writethrough = false;
  block_size = 2;
  writeback_time = 5;
  dram_direct = false;
}

abbrev waiter : Bool → Waiter
waiter exclusive_req = record {
  exclusive_req = exclusive_req;
  is_prefetch = true;
  cache_cntlr = 1;
  t_issue = 3;
}

abbrev line : Line
line = record { cstate = shared; data_buf = 1 ∷ 2 ∷ []; prefetch = false; warmup = false }

abbrev waiting : Hierarchy unit_dram
waiting = record {
  cntlrs = λ k. record {
    lines = λ x. if x == 64 then some line else none;
    evicting = none;
    directory_waiters = λ x. if x == 64 then waiter false ∷ waiter true ∷ [] else [];
    mshr = miss 1 30 ∷ miss 2 20 ∷ [];
    stats = no_stats;
    counters = record { loads = no_accesses; stores = no_accesses };
  };
  dram = 0;
  sent = [];
}

links-Rises : (k next : ℕ) → (links k).next_cache_cntlr ≡ some next → Rises links 1 next
links-Rises k next e = rise (λ above e'. ground (arith, e, e'))

links-Within : Within links 2 0
links-Within = within (λ i m. elim m [
  | Memᴰ.head q ↦
      within (λ x h. elim (subst (λ (j : ℕ). Memᴰ x (links j).prev_cache_cntlrs) q h) [ ])
  | Memᴰ.tail h ↦ elim h [ ]
])

update_cache_block-ends_example :
    ((stop : ℕ → Hierarchy unit_dram → Option (Updated unit_dram))
      → update_or unit_dram links 64 stop 1 2 waiting 0 invalid evict false
        ≡ update_cache_block unit_dram links 1 2 waiting 0 64 invalid evict false)
    × ((stop : ℕ → Hierarchy unit_dram → Option (Hierarchy unit_dram)) (g : Hierarchy unit_dram)
          (j next offset : ℕ) (data_buf : List ℕ)
        → (links j).next_cache_cntlr ≡ some next
        → write_or unit_dram links 64 stop 1 g next offset data_buf
          ≡ write_cache_block unit_dram links 1 g next 64 offset data_buf)
    × ((more m : ℕ)
        → 1 ≤ more
        → 2 ≤ m
        → update_cache_block unit_dram links more m waiting 0 64 invalid evict false
          ≡ update_cache_block unit_dram links 1 2 waiting 0 64 invalid evict false)
update_cache_block-ends_example =
    update_cache_block-ends unit_dram links 64 1 links-Rises 2 waiting 0 invalid evict false
      links-Within
