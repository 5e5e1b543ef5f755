-- ===== src/CacheCntlr/Tests.antt =====
-- A last-level cache 0 with two first-level caches 1 and 2, of lines of two bytes: cache 1 has written
-- the line 64.
mod Requests
use mathlib.Core.List.{Memᴰ}
use sniper.Base.{
  ℕ, ◌≡◌, ◌⊎◌, refl, true, false, Option, none, some, List, [], ◌∷◌, ◌==◌, if◌then◌else◌, arith,
  ◌%◌,
}
use sniper.CacheCntlr.{
  CState, invalid, shared, modified, exclusive, Line, Config, Cntlr, Msg, inv_req, flush_req,
  upgrade_rep, flush_rep, MshrEntry, Waiter, no_stats, no_accesses, DramInterface, Hierarchy,
  coherency, MsgType, invalidate_cache_block,
}
use sniper.CacheCntlr.Update.{
  Updated, update_cache_block, update_prevs, update_own, update_block, update_present, write_dirty,
  write_back, write_cache_block, write_own, write_line, change_state, check_updated,
}
use sniper.CacheCntlr.Update.Leaves.{IsDirty, AreAbsent}
use sniper.CacheCntlr.Insertion.{
  insert_cache_block, evict_after, insert_single_line, evict_line, evict_prevs, dispose,
  dispose_to_directory,
}
use sniper.CacheCntlr.Insertion.Inserted.{IsInserted, insert_cache_block-IsInserted}
use sniper.CacheCntlr.Directory.{reply, process_inv_req, process_flush_req, process_upgrade_rep}
use sniper.CacheCntlr.Directory.Requests.{
  IsInvalidated, process_inv_req_lem, process_upgrade_rep-lost, process_flush_req-dirty,
}
use sniper.CacheCntlr.Update.Frame.{Filled, Only}
use sniper.CacheCntlr.Update.Kept.{update_cache_block-Only}
use sniper.CacheCntlr.Update.Invalidation.{itself, before, update_cache_block-gone}

abbrev plain_dram : DramInterface
plain_dram = record {
  State = ℕ → List ℕ;
  get_bytes = λ s a. some (s a, s);
  put_bytes = λ s a bytes. some (λ x. if x == a then bytes else s x);
}

abbrev links : ℕ → Config
links k = record {
  prev_cache_cntlrs = if k == 0 then 1 ∷ 2 ∷ [] else [];
  next_cache_cntlr = if k == 0 then none else some 0;
  core_id = k;
  perfect = false;
  passthrough = false;
  coherent = true;
  writethrough = false;
  block_size = 2;
  writeback_time = 5;
  dram_direct = false;
}

abbrev line_of : CState → List ℕ → Line
line_of cstate bytes = record {
  cstate = cstate;
  data_buf = bytes;
  prefetch = false;
  warmup = false;
}

abbrev cache_with : (ℕ → Option Line) → List Waiter → List MshrEntry → Cntlr
cache_with lines waiters mshr = record {
  lines = lines;
  evicting = none;
  directory_waiters = λ x. if x == 64 then waiters else [];
  mshr = mshr;
  stats = no_stats;
  counters = record { loads = no_accesses; stores = no_accesses };
}

abbrev one_line : ℕ → Line → ℕ → Option Line
one_line address line x = if x == address then some line else none

abbrev caches : Hierarchy plain_dram
caches = record {
  cntlrs = λ k.
      if k == 0
      then cache_with (one_line 64 (line_of modified (1 ∷ 2 ∷ []))) [] []
      else if k == 1
      then cache_with (one_line 64 (line_of modified (7 ∷ 8 ∷ []))) [] []
      else cache_with (λ x. none) [] [];
  dram = λ x. [];
  sent = [];
}

abbrev clean : Hierarchy plain_dram
clean = record caches {
  cntlrs = λ k.
      if k == 2
      then cache_with (λ x. none) [] []
      else cache_with (one_line 64 (line_of shared (1 ∷ 2 ∷ []))) [] [];
}

clean-Filled : Filled plain_dram 64 clean
clean-Filled j line there = ground (arith, there)

caches-Filled : Filled plain_dram 64 caches
caches-Filled j line there = ground (arith, there)

-- The result of a step that succeeds.
abbrev or_else : {A : Type 0} → A → Option A → A
or_else a none = a
or_else a (some b) = b

abbrev nothing_done : Updated plain_dram
nothing_done = record { hier = caches; latency = 0; sibling_hit = false; out = none }

flushed : Updated plain_dram
flushed =
    or_else nothing_done
      (update_cache_block plain_dram links 3 3 caches 0 64 invalid coherency true)

flushed_lem :
    update_cache_block plain_dram links 3 3 caches 0 64 invalid coherency true ≡ some flushed
unfolding flushed update_cache_block update_prevs update_own update_block update_present write_dirty
    write_back write_cache_block write_own write_line change_state invalidate_cache_block
    check_updated
flushed_lem = refl

update_cache_block-gone_example : (flushed.hier.cntlrs 1).lines 64 ≡ none
update_cache_block-gone_example =
    update_cache_block-gone plain_dram links 64 3 3 caches 0 coherency true 1 caches-Filled
      (before (Memᴰ.head refl) itself) refl flushed_lem

update_cache_block-Only_example : Only plain_dram 64 caches flushed.hier
update_cache_block-Only_example =
    update_cache_block-Only plain_dram 64 links 3 3 caches 0 invalid coherency true flushed_lem

caches-IsDirty :
    IsDirty plain_dram links 64 3 1 caches 1 0
      (line_of modified (7 ∷ 8 ∷ []))
      (line_of modified (1 ∷ 2 ∷ []))
caches-IsDirty = record {
  apart = (refl, refl);
  first_level = refl;
  linked = refl;
  writes_back = (refl, refl);
  is_coherent = refl;
  no_eviction = refl;
  held = refl;
  written = refl;
  held_above = refl;
  written_above = refl;
}

none-AreAbsent : AreAbsent plain_dram links 64 3 1 caches []
none-AreAbsent i m = elim m [ ]

second-AreAbsent : AreAbsent plain_dram links 64 3 1 caches (2 ∷ [])
second-AreAbsent i (Memᴰ.head e) = rw e (refl, refl)
second-AreAbsent i (Memᴰ.tail m) = elim m [ ]

abbrev home_of : ℕ → ℕ
home_of address = address % 4

abbrev never : ℕ → (ℕ → Option Line) → ℕ → Option ℕ
never k lines address = none

abbrev evicts_64 : ℕ → (ℕ → Option Line) → ℕ → Option ℕ
evicts_64 k lines address = some 64

abbrev msg_of : MsgType → ℕ → Option (List ℕ) → Msg
msg_of msg_type address bytes = record {
  msg_type = msg_type;
  requester = 3;
  receiver = 0;
  address = address;
  data_sent = bytes;
}

process_flush_req-dirty_example :
    (h' : Hierarchy plain_dram) × (process_flush_req plain_dram links 3 home_of never false caches 0
        9
        (msg_of flush_req 64 none)
      ≡ some h')
    × (h'.sent ≡ reply (msg_of flush_req 64 none) 9 flush_rep (some (7 ∷ 8 ∷ [])) ∷ [])
    × ((h'.cntlrs 0).lines 64 ≡ none)
    × ((h'.cntlrs 1).lines 64 ≡ none)
process_flush_req-dirty_example =
    process_flush_req-dirty plain_dram links 3 home_of never false caches 0 9
      (msg_of flush_req 64 none) [] (2 ∷ []) 1 1 (line_of modified (7 ∷ 8 ∷ []))
      (line_of modified (1 ∷ 2 ∷ [])) refl refl refl refl (omega arith) caches-IsDirty
      none-AreAbsent second-AreAbsent

invalidated : Hierarchy plain_dram
invalidated =
    or_else caches
      (process_inv_req plain_dram links 3 home_of never false clean 0 9 (msg_of inv_req 64 none))

invalidated_lem :
    process_inv_req plain_dram links 3 home_of never false clean 0 9 (msg_of inv_req 64 none)
    ≡ some invalidated
unfolding invalidated process_inv_req update_cache_block update_prevs update_own update_block
    update_present write_dirty write_back change_state invalidate_cache_block check_updated
invalidated_lem = refl

process_inv_req_lem_example :
    (((clean.cntlrs 0).lines 64 ≡ none) × (invalidated ≡ clean))
    ⊎ IsInvalidated plain_dram links 3 home_of never false clean invalidated 0 9
        (msg_of inv_req 64 none)
process_inv_req_lem_example =
    process_inv_req_lem plain_dram links 3 home_of never false clean 0 9 (msg_of inv_req 64 none)
      clean-Filled invalidated_lem

process_upgrade_rep-lost_example :
    process_upgrade_rep plain_dram links 3 home_of never false caches 0
      (msg_of upgrade_rep 32 (some (5 ∷ 6 ∷ [])))
    ≡ none
process_upgrade_rep-lost_example =
    process_upgrade_rep-lost plain_dram links 3 home_of never false caches 0
      (msg_of upgrade_rep 32 (some (5 ∷ 6 ∷ []))) refl

inserted : Hierarchy plain_dram
inserted = or_else caches (
    insert_cache_block plain_dram links 3 home_of evicts_64 false caches 0 128 exclusive
      (5 ∷ 6 ∷ []))

inserted_lem :
    insert_cache_block plain_dram links 3 home_of evicts_64 false caches 0 128 exclusive
      (5 ∷ 6 ∷ [])
    ≡ some inserted
unfolding inserted insert_cache_block evict_after insert_single_line evict_line evict_prevs dispose
    dispose_to_directory update_cache_block update_prevs update_own update_block update_present
    write_dirty write_back write_cache_block write_own write_line change_state
    invalidate_cache_block check_updated
inserted_lem = refl

insert_cache_block-IsInserted_example :
    IsInserted plain_dram links 3 home_of evicts_64 false caches inserted 0 128
      (line_of exclusive (5 ∷ 6 ∷ []))
insert_cache_block-IsInserted_example =
    insert_cache_block-IsInserted plain_dram links 3 home_of evicts_64 false caches 0 128 exclusive
      (5 ∷ 6 ∷ []) refl inserted_lem
