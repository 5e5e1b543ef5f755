-- ===== src/ApproxVars/Tests.antt =====
-- A byte with three writes of core 0 that are not saved yet, over one that is.
use sniper.Base.{ℕ, ◌<◌, ◌≡◌, arith, refl}
use sniper.ApproxVars.{AppVar, no_counts, upsave, max_int}
use sniper.ApproxVars.Counters.{AllCounts}

abbrev byte : AppVar
byte = record {
  addr = 64;
  set_num = 0;
  saved = record no_counts { l1_write_cnt = 1 };
  poten = record no_counts { l1_write_cnt = 3 };
}

saved_writes : (upsave byte).saved.l1_write_cnt ≡ 3
unfolding upsave max_int
saved_writes = refl

few : (n : ℕ) → n < 4 → AllCounts (record no_counts { l1_write_cnt = n })
few n h = record {
  adds = omega arith;
  muls = omega arith;
  l1_writes = omega arith;
  l1_reads = omega arith;
  l1_1_writes = omega arith;
  l1_1_reads = omega arith;
  l1_2_writes = omega arith;
  l1_2_reads = omega arith;
  l1_3_writes = omega arith;
  l1_3_reads = omega arith;
  l2_writes = omega arith;
  l2_reads = omega arith;
}
