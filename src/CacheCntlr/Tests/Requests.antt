-- ===== src/CacheCntlr/Tests/Requests.antt =====
-- Requests from the first-level cache 1 to the last-level cache 0, which has written the line 64; the
-- first-level cache 2 shares it.
use mathlib.Core.List.{Memᴰ}
use sniper.Base.{
  ℕ, Option, List, ◌≡◌, refl, Bool, true, false, ◌||◌, none, some, [], ◌∷◌, ◌==◌, if◌then◌else◌,
  arith,
}
use sniper.MagicServer
use sniper.CacheCntlr.{
  HitWhere, miss, at_cache, CState, shared, modified, exclusive, owned, ◌=s◌, read, write,
  Hierarchy, invalidate_cache_block, operation_permissible,
}
use sniper.CacheCntlr.Tests.{
  plain_dram, links, line_of, cache_with, one_line, caches, home_of, never, or_else,
}
use sniper.CacheCntlr.Update.{
  update_cache_block, update_prevs, update_own, update_block, update_present, write_dirty,
  write_back, change_state, check_updated,
}
use sniper.CacheCntlr.Update.Frame.{Filled}
use sniper.CacheCntlr.Update.Invalidation.{itself}
use sniper.CacheCntlr.Mshr.{find_mshr, in_progress, cleanup_mshr}
use sniper.CacheCntlr.Counters.{no_prefetch, update_counters}
use sniper.CacheCntlr.Insertion.{insert_cache_block, evict_after, insert_single_line}
use sniper.CacheCntlr.MemOps.{
  store_single_line, no_lock, CoreOp, adjust_core_hit, drop_valid, ask_again, core_miss,
  access_cache, serve_core, process_mem_op, core_hit,
}
use sniper.CacheCntlr.Update.Fuel.{Rises, rise}
use sniper.CacheCntlr.Request.Fuel.{request_or, process_shmem_req-ends}
use sniper.CacheCntlr.MemOps.RoundTrip.{process_mem_op-write-read}
use sniper.CacheCntlr.MemOps.Exclusive.{process_mem_op-exclusive}
use sniper.CacheCntlr.Request.{
  Setting, copy_data_from_next_level, is_miss, Req, snoop, adjust_hit, count_req, note_useful,
  wait_for_line, snoop_hit, serve_hit, finish_hit, serve_req, process_shmem_req,
}
use sniper.CacheCntlr.Request.Exclusive.{process_shmem_req-exclusive}

abbrev sharing : Hierarchy plain_dram
sharing = record caches {
  cntlrs = λ k.
      if k == 0
      then cache_with (one_line 64 (line_of modified (1 ∷ 2 ∷ []))) [] []
      else cache_with (one_line 64 (line_of shared (1 ∷ 2 ∷ []))) [] [];
}

sharing-Filled : Filled plain_dram 64 sharing
sharing-Filled j line there = ground (arith, there)

abbrev is_readable : CState → Bool
is_readable c = (c =s shared) || (c =s modified) || (c =s exclusive) || (c =s owned)

abbrev is_writable : CState → Bool
is_writable c = (c =s modified) || (c =s exclusive)

abbrev setting : Setting
setting = record {
  t = links;
  levels = 3;
  home = home_of;
  victim = never;
  warming = false;
  readable = is_readable;
  writable = is_writable;
  ms = MagicServer.create 0 0;
  now = 5;
  max_time = 1000;
  stale = [];
}

abbrev a_write : Req
a_write = record {
  mem_op_type = write;
  address = 64;
  modeled = true;
  count = true;
  kind = no_prefetch;
  t_issue = 3;
}

may_write : operation_permissible plain_dram is_readable is_writable sharing 0 64 write ≡ true
unfolding operation_permissible
may_write = refl

written : Hierarchy plain_dram × HitWhere
written = or_else (sharing, miss) (process_shmem_req plain_dram setting 3 sharing 0 1 a_write)

written_lem :
    process_shmem_req plain_dram setting 3 sharing 0 1 a_write ≡ some (written.0, written.1)
unfolding written find_mshr in_progress process_shmem_req adjust_hit count_req update_counters
    cleanup_mshr serve_req serve_hit note_useful wait_for_line snoop_hit snoop finish_hit
    update_cache_block update_prevs update_own update_block update_present write_dirty write_back
    change_state invalidate_cache_block check_updated operation_permissible
written_lem = refl

process_shmem_req-exclusive_example :
    (is_miss written.1 ≡ false) × (((written.0).cntlrs 2).lines 64 ≡ none)
process_shmem_req-exclusive_example =
    process_shmem_req-exclusive plain_dram setting 3 sharing 0 1 a_write sharing-Filled refl
      may_write refl written_lem 2 2 (Memᴰ.tail (Memᴰ.head refl)) refl itself refl

abbrev core_write : CoreOp
core_write = record {
  lock_signal = no_lock;
  mem_op_type = write;
  ca_address = 64;
  offset = 1;
  data_buf = 9 ∷ [];
  modeled = true;
  count = true;
}

abbrev quiet : ℕ → ℕ → Hierarchy plain_dram → Option (Hierarchy plain_dram)
quiet k address h = none

after_write : Hierarchy plain_dram × HitWhere × List ℕ
after_write =
    or_else (sharing, miss, []) (process_mem_op plain_dram setting quiet sharing 1 core_write 8)

after_write_lem :
    process_mem_op plain_dram setting quiet sharing 1 core_write 8
    ≡ some (after_write.0, after_write.1, after_write.2)
unfolding store_single_line after_write find_mshr in_progress process_mem_op adjust_core_hit
    serve_core core_miss drop_valid ask_again copy_data_from_next_level access_cache
    insert_cache_block evict_after insert_single_line process_shmem_req adjust_hit count_req
    update_counters cleanup_mshr serve_req serve_hit note_useful wait_for_line snoop_hit snoop
    finish_hit update_cache_block update_prevs update_own update_block update_present write_dirty
    write_back change_state invalidate_cache_block check_updated operation_permissible
after_write_lem = refl

may_not_write : operation_permissible plain_dram is_readable is_writable sharing 1 64 write ≡ false
unfolding operation_permissible
may_not_write = refl

process_mem_op-exclusive_example : ((after_write.0).cntlrs 2).lines 64 ≡ none
process_mem_op-exclusive_example =
    process_mem_op-exclusive plain_dram setting quiet sharing 1 0 core_write 8 sharing-Filled refl
      refl may_not_write refl refl may_write refl after_write_lem 2 2 (Memᴰ.tail (Memᴰ.head refl))
      refl itself refl refl

after_hit : Hierarchy plain_dram × HitWhere × List ℕ
after_hit =
    or_else (caches, miss, []) (process_mem_op plain_dram setting quiet caches 1 core_write 8)

after_hit_lem :
    process_mem_op plain_dram setting quiet caches 1 core_write 8
    ≡ some (after_hit.0, after_hit.1, after_hit.2)
unfolding store_single_line after_hit find_mshr in_progress process_mem_op adjust_core_hit
    serve_core core_hit wait_for_line access_cache count_req update_counters cleanup_mshr
    note_useful operation_permissible
after_hit_lem = refl

writable-readable : (c : CState) → is_writable c ≡ true → is_readable c ≡ true
writable-readable modified e = refl
writable-readable exclusive e = refl
writable-readable _ e = ground arith

process_mem_op-write-read_example :
    (h'' : Hierarchy plain_dram) × (process_mem_op plain_dram setting quiet after_hit.0 1
        (record core_write { mem_op_type = read; data_buf = 0 ∷ []; count = false })
        9
      ≡ some (h'', at_cache 1 false, 9 ∷ []))
process_mem_op-write-read_example =
    process_mem_op-write-read plain_dram setting quiet caches 1 core_write 8 9
      (line_of modified (7 ∷ 8 ∷ [])) (0 ∷ []) writable-readable refl (omega arith) (omega arith)
      (omega arith) refl refl refl refl refl after_hit_lem

links-Rises : Rises links 2 0
links-Rises = rise (λ next e. absurd (cc e))

process_shmem_req-ends_example :
    request_or plain_dram setting (λ h k requester r. none) 2 sharing 0 1 a_write
    ≡ process_shmem_req plain_dram setting 2 sharing 0 1 a_write
process_shmem_req-ends_example =
    process_shmem_req-ends plain_dram setting (λ h k requester r. none) 2 sharing 0 1 a_write
      links-Rises
