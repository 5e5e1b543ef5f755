-- ===== src/CacheCntlr/Prefetching.antt =====
-- The prefetch queue of a controller, `trainPrefetcher` and `Prefetch` of
-- common/core/memory_subsystem/parametric_dram_directory_msi/cache_cntlr.cc. What the prefetcher
-- proposes, and which lines the cache can be read for, are parameters.
pub mod Queue
use sniper.Base.{
  ℕ, ◌+◌, ◌≡◌, Bool, true, false, not, ◌&&◌, ◌||◌, Option, none, some, List, [], ◌∷◌, ◌++◌, ltb,
  leb, if◌then◌else◌, length,
}

-- `PREFETCH_MAX_QUEUE_LENGTH`
abbrev pub prefetch_max_queue_length : ℕ
prefetch_max_queue_length = 32

-- `m_prefetch_list` and `m_prefetch_next`
pub record PrefetchQueue : Type 0 where
  pub prefetch_list : List ℕ
  pub prefetch_next : ℕ

module _ (readable_line : ℕ → Bool) where
  -- The loop over the proposed addresses.
  unfoldable pub enqueue_all : List ℕ → List ℕ → List ℕ
  enqueue_all [] queue = queue
  enqueue_all (address ∷ proposed) queue =
      let rest =
        enqueue_all proposed (if readable_line address then queue else queue ++ address ∷ []) in
      if ltb prefetch_max_queue_length (length queue) then queue else rest

  -- `trainPrefetcher`, with what `getNextAddress` returned, `PREFETCH_INTERVAL` and
  -- `m_prefetch_on_prefetch_hit`.
  unfoldable pub train_prefetcher :
      List ℕ → ℕ → Bool → Bool → Bool → ℕ → PrefetchQueue → PrefetchQueue
  train_prefetcher proposed interval on_prefetch_hit cache_hit prefetch_hit t_issue q =
      if not cache_hit || (on_prefetch_hit && prefetch_hit)
      then record { prefetch_list = enqueue_all proposed []; prefetch_next = t_issue + interval }
      else q

  -- The loop of `Prefetch`: the first address that is still not readable, and what is left.
  unfoldable pub next_prefetch : List ℕ → Option ℕ × List ℕ
  next_prefetch [] = (none, [])
  next_prefetch (address ∷ queue) =
      let rest = next_prefetch queue in
      if readable_line address then rest else (some address, queue)

  -- `Prefetch` up to the call of `doPrefetch`, whose address and start time are returned. An
  -- address to prefetch is not `INVALID_ADDRESS`.
  unfoldable pub run_prefetch : ℕ → ℕ → PrefetchQueue → Option (ℕ × ℕ) × PrefetchQueue
  run_prefetch interval t_now q =
      if leb q.prefetch_next t_now
      then elim (next_prefetch q.prefetch_list).0 [
        | none ↦ (none, record q { prefetch_list = (next_prefetch q.prefetch_list).1 })
        | some address ↦ (
          some (address, q.prefetch_next),
          record {
            prefetch_list = (next_prefetch q.prefetch_list).1;
            prefetch_next = q.prefetch_next + interval;
          },
        )
      ]
      else (none, q)
