-- ===== src/MagicServer/Commands/Ranges.antt =====
-- What the two commands on a range of addresses leave registered.
use sniper.Base.{
  ℕ, zero, suc, ◌+◌, ◌≤◌, ◌<◌, ◌≡◌, refl, Bool, not, ◌&&◌, ◌||◌, some, ltb, arith, u32_mod, u64_mod,
}
use sniper.MagicServer.{
  MagicServer, byte_addr, add_approx, del_approx, is_approx, any_approx, is_block_approx,
}
use sniper.MagicServer.Counting.{in_block}
use sniper.MagicServer.Registry.{
  IsRegistry, add_approx-IsRegistry, del_approx-IsRegistry, is_approx-add_approx,
  is_approx-del_approx,
}
use sniper.MagicServer.Commands.{
  Config, Server, Log, add_range, del_range, add_approx_addrs, del_log, del_approx_addrs,
}

-- After an addition from `lo` to `hi` - 1: those addresses, and the ones from before.
abbrev pub Adds : MagicServer → MagicServer → ℕ → ℕ → Type 0
Adds s s' lo hi = IsRegistry s' × ((j : ℕ) → is_approx s' j ≡ (in_block lo hi j || is_approx s j))

-- After a deletion: the ones from before without those.
abbrev pub Deletes : MagicServer → MagicServer → ℕ → ℕ → Type 0
Deletes s s' lo hi =
    IsRegistry s' × ((j : ℕ) → is_approx s' j ≡ (not (in_block lo hi j) && is_approx s j))

add_range-Adds :
    (s : MagicServer) (r : IsRegistry s) (arg0 n i lo hi : ℕ)
    → lo ≡ arg0 + i
    → hi ≡ lo + n
    → hi ≤ u64_mod
    → Adds s (add_range s arg0 n i) lo hi
unfolding add_range
add_range-Adds s r arg0 zero i lo hi e e' h = (r, λ j. ground arith)
add_range-Adds s r arg0 (suc n) i lo hi e e' h =
    let rest =
      add_range-Adds (add_approx s (byte_addr arg0 i) 0).0
        (add_approx-IsRegistry s r (byte_addr arg0 i) 0) arg0 n (i + 1) (lo + 1) hi (omega arith)
        (omega arith) h in
    (rest.0, λ j. ground (arith, rest.1 j, (is_approx-add_approx s r (byte_addr arg0 i) 0 j).0))

del_range-Deletes :
    (s : MagicServer) (r : IsRegistry s) (arg0 n i lo hi : ℕ)
    → lo ≡ arg0 + i
    → hi ≡ lo + n
    → hi ≤ u64_mod
    → Deletes s (del_range s arg0 n i) lo hi
unfolding del_range
del_range-Deletes s r arg0 zero i lo hi e e' h = (r, λ j. ground arith)
del_range-Deletes s r arg0 (suc n) i lo hi e e' h =
    let rest =
      del_range-Deletes (del_approx s (byte_addr arg0 i)).0
        (del_approx-IsRegistry s r (byte_addr arg0 i)) arg0 n (i + 1) (lo + 1) hi (omega arith)
        (omega arith) h in
    (rest.0, λ j. ground (arith, rest.1 j, (is_approx-del_approx s r (byte_addr arg0 i) j).0))

-- The range from `lo` to `hi` - 1 has an address in common with the one from `lo'` to `hi'` - 1.
abbrev pub overlaps : ℕ → ℕ → ℕ → ℕ → Bool
overlaps lo hi lo' hi' = (ltb lo hi' && ltb lo' hi) && (ltb lo hi && ltb lo' hi')

any_approx-Adds :
    (s s' : MagicServer) (lo hi : ℕ)
    → Adds s s' lo hi
    → (address n i at end : ℕ) → at ≡ address + i
    → end ≡ at + n
    → end ≤ u64_mod
    → any_approx s' address n i ≡ (overlaps lo hi at end || any_approx s address n i)
unfolding any_approx
any_approx-Adds s s' lo hi adds address zero i at end e e' h = ground arith
any_approx-Adds s s' lo hi adds address (suc n) i at end e e' h = ground (
  arith,
  any_approx-Adds s s' lo hi adds address n (i + 1) (at + 1) end (omega arith) (omega arith) h,
  adds.1 (byte_addr address i),
)

module _ (arg0 arg1 : ℕ) (small : arg1 < u32_mod) (fits : arg0 + arg1 ≤ u64_mod) (s : Server)
    (r : IsRegistry s.registry) where
  -- For a size below 2 ^ 32 and a range that does not wrap around, the command
  -- SIM_CMD_ADD_APPROX_ADDRS ends, keeps the registry's invariant, and the approximate addresses
  -- are then those of the range and the ones from before.
  pub add_approx_addrs-Adds :
      (s' : Server) × (add_approx_addrs s arg0 arg1 ≡ some s')
      × Adds s.registry s'.registry arg0 (arg0 + arg1)
  unfolding add_approx_addrs
  add_approx_addrs-Adds = (
    record s { registry = add_range s.registry arg0 arg1 0 },
    ground arith,
    add_range-Adds s.registry r arg0 arg1 0 arg0 (arg0 + arg1) (omega arith) refl fits,
  )

  -- Under the same conditions SIM_CMD_DEL_APPROX_ADDRS ends, with or without a log, keeps the
  -- registry's invariant, and the approximate addresses are then the ones from before without the
  -- range.
  pub del_approx_addrs-Deletes :
      (c : Config)
      → (s' : Server) × (log : Log) × (del_approx_addrs c s arg0 arg1 ≡ some (s', log))
        × Deletes s.registry s'.registry arg0 (arg0 + arg1)
  unfolding del_approx_addrs del_log
  del_approx_addrs-Deletes c = (
    record ((del_log c s).0) { registry = del_range s.registry arg0 arg1 0 },
    (del_log c s).1,
    ground arith,
    del_range-Deletes s.registry r arg0 arg1 0 arg0 (arg0 + arg1) (omega arith) refl fits,
  )

  -- After the addition of a range a block that does not wrap around is approximate exactly if it
  -- was so before or has an address in the range.
  pub is_block_approx-add_approx_addrs :
      (address block_size : ℕ)
      → address + block_size ≤ u64_mod
      → (s' : Server) × (add_approx_addrs s arg0 arg1 ≡ some s')
        × (is_block_approx s'.registry address block_size ≡ (
            overlaps arg0 (arg0 + arg1) address (address + block_size)
            || is_block_approx s.registry address block_size))
  unfolding is_block_approx
  is_block_approx-add_approx_addrs address block_size h =
      let (s', e, adds) = add_approx_addrs-Adds in
      (
        s',
        e,
        any_approx-Adds s.registry s'.registry arg0 (arg0 + arg1) adds address block_size 0 address
            (address + block_size) (omega arith) refl h,
      )
