-- ===== src/Dram/Data.antt =====
-- What is written to the DRAM is read from it.
use sniper.Base.{
  ◌+◌, ◌%◌, u64_mod, ◌∙◌, ℕ, zero, suc, ◌≡◌, refl, ap, false, none, some, List, [], ◌∷◌, ◌==◌,
  arith, take, length, ltb,
}
use sniper.Base.Results.{bind_some}
use sniper.MagicServer.{MagicServer, is_block_approx}
use sniper.FaultInjection.{Rng, plain, post_write, pre_read}
use sniper.Dram.{
  PageSets, count_page, put_data, log_access, DramCntlr, DramAccess, write_block,
  get_data_from_dram, put_data_to_dram,
}

take_all : (n : ℕ) (xs : List ℕ) → length xs ≡ n → take n xs ≡ xs
take_all zero [] e = refl
take_all zero (x ∷ xs) e = absurd (omega (arith, e))
take_all (suc n) [] e = refl
take_all (suc n) (x ∷ xs) e = ap (λ ys. x ∷ ys) (take_all n xs (omega (arith, e)))

module _ (rng : Rng) where
  write_block-plain :
      (c : DramCntlr rng) (ms : MagicServer) (address : ℕ) (data_buf : List ℕ) {old : List ℕ}
      → length data_buf ≡ c.cache_block_size
      → c.data_map address ≡ some old
      → write_block rng c ms address data_buf (some plain)
        ≡ some (put_data rng c address data_buf plain)
  unfolding write_block post_write
  write_block-plain c ms address data_buf whole there =
      let fits : ltb (length data_buf) c.cache_block_size ≡ false = ground (arith, whole) in
      rw (fits, there, take_all c.cache_block_size data_buf whole) refl

  -- With a fault injector of the type that injects nothing, a write of a whole block that the DRAM
  -- holds succeeds, a read of the block then returns the bytes written, and no other block's bytes
  -- change.
  pub put-get_data :
      (c : DramCntlr rng) (sets : PageSets) (ms : MagicServer) (address : ℕ)
      → c.fault_injector ≡ some plain
      → (data_buf : List ℕ) (now later : ℕ) {old : List ℕ} → length data_buf ≡ c.cache_block_size
      → c.data_map address ≡ some old
      → (r : DramAccess rng) × (put_data_to_dram rng c sets ms address data_buf now ≡ some r)
        × ((get_data_from_dram rng r.cntlr r.sets r.server address later).data_buf ≡ some data_buf)
        × ((x : ℕ) → (x == address) ≡ false → r.cntlr.data_map x ≡ c.data_map x)
  unfolding get_data_from_dram put_data_to_dram log_access pre_read
  put-get_data c sets ms address kind data_buf now later whole there =
      let (logged, ms') = log_access rng c ms address now false in
      let (sets', counts) =
        count_page (is_block_approx ms' address c.cache_block_size) address sets c.counts in
      (
        record {
          cntlr = record (put_data rng logged address data_buf plain) {
            writes = (c.writes + 1) % u64_mod;
            counts = counts;
          };
          sets = sets';
          server = ms';
          data_buf = none;
        },
        bind_some _ (
            ap (write_block rng logged ms' address data_buf) kind
            ∙ write_block-plain logged ms' address data_buf whole there),
        ground arith,
        λ x ne. ground (arith, ne),
      )
