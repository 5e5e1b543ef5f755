-- ===== src/CacheCntlr/Counters/Runs.antt =====
-- A run of `updateCounters` counts exactly.
use sniper.Base.{ℕ, ◌<◌, ◌+◌, ◌≡◌, refl, Bool, Option, some, List, [], ◌∷◌, length, u64_mod, arith}
use sniper.Base.Results.{◌>>=◌}
use sniper.MagicServer.{MagicServer, is_block_approx}
use sniper.MagicServer.Registry.{IsRegistry}
use sniper.MagicServer.Queries.{approx_block_setnum_lem}
use sniper.CacheCntlr.{MshrEntry, AccessCounters, no_accesses}
use sniper.CacheCntlr.Mshr.{find_mshr, in_progress, cleanup_mshr}
use sniper.CacheCntlr.Mshr.Ending.{IsEnding}
use sniper.CacheCntlr.Mshr.Cleanup.{cleanup_mshr-IsCleaned}
use sniper.CacheCntlr.Counters.{Access, count_mem_op, update_counters, run_counters}
use sniper.CacheCntlr.Counters.Tally.{
  Seen, AreTallies, setnum_of, none_seen_lem, count_mem_op-AreTallies,
}

-- Which accesses of a run find an earlier miss of their line in progress; the last access first.
unfoldable pub watch : ℕ → List Access → List MshrEntry → List Seen → Option (List Seen)
watch max_time [] m seen = some seen
watch max_time (a ∷ rest) m seen = do
  m' ← cleanup_mshr max_time (length m) m
  watch max_time rest m'
      (record { access = a; overlapping = in_progress a.t_now (find_mshr a.address m) } ∷ seen)

module _ (ms : MagicServer) (block_size max_time : ℕ) where
  abbrev pub approx_block : ℕ → Bool
  approx_block address = is_block_approx ms address block_size

  run_counters_from :
      (accesses : List Access) (seen : List Seen) (c : AccessCounters) (m : List MshrEntry)
      → IsRegistry ms
      → length seen + length accesses < u64_mod
      → AreTallies approx_block seen c
      → IsEnding max_time m
      → (seen' : List Seen) × (c' : AccessCounters) × (m' : List MshrEntry) × (watch max_time
            accesses m seen
          ≡ some seen')
        × (run_counters ms block_size max_time accesses (c, m) ≡ some (c', m'))
        × AreTallies approx_block seen' c'
  unfolding run_counters update_counters watch
  run_counters_from [] seen c m r small t e = (seen, c, m, refl, refl, t)
  run_counters_from (a ∷ rest) seen c m r small t e =
      let x : Seen = record {
        access = a;
        overlapping = in_progress a.t_now (find_mshr a.address m);
      } in
      let setnum = approx_block_setnum_lem ms a.address block_size r in
      let (m', cleaned, kept) = cleanup_mshr-IsCleaned max_time m e.one_each e.ends in
      let t' =
        count_mem_op-AreTallies approx_block x seen c a.mem_op_type refl (omega (arith, small)) t in
      let e' : IsEnding max_time m' = record {
        one_each = kept.one_each;
        ends = λ y h. e.ends y (kept.kept y h);
      } in
      let (seen', c', m'', watched, ran, t'') =
        run_counters_from rest (x ∷ seen)
          (count_mem_op a.mem_op_type a.kind (setnum_of (approx_block a.address)) a.cache_hit
            x.overlapping a.state c)
          m' r (omega (arith, small)) t' e' in
      (seen', c', m'', rw cleaned watched, rw (cleaned, setnum) ran, t'')

  -- With a registry in order and misses that end, a run of fewer than 2 ^ 64 calls of
  -- updateCounters from cleared counters succeeds, and then every counter of the loads and of the
  -- stores, those by state included, is the number of the run's accesses of its sort: a cache's own
  -- prefetches count as prefetches only, a load misses if the cache does, a store also while an
  -- earlier miss of its line is in progress, and the second set has none.
  pub run_counters-AreTallies :
      (accesses : List Access) (m : List MshrEntry)
      → IsRegistry ms
      → length accesses < u64_mod
      → IsEnding max_time m
      → (seen : List Seen) × (c : AccessCounters) × (m' : List MshrEntry) × (watch max_time accesses
            m []
          ≡ some seen)
        × (run_counters ms block_size max_time accesses
              (record { loads = no_accesses; stores = no_accesses }, m)
            ≡ some (c, m'))
        × AreTallies approx_block seen c
  run_counters-AreTallies accesses m r small e =
      run_counters_from accesses [] (record { loads = no_accesses; stores = no_accesses }) m r
        (omega (arith, small)) (none_seen_lem approx_block) e
