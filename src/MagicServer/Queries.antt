-- ===== src/MagicServer/Queries.antt =====
-- What the block queries return: whether some byte is approximate, and the set of the first one.
use sniper.Base.{
  ℕ, suc, zero, ◌+◌, ◌≤◌, ◌<◌, ◌≡◌, ◌↔◌, refl, inl, inr, ◌⊎◌, true, none, some, if◌then◌else◌,
  arith, Option-cases, Bool-cases, ℕ_discrete, not_false,
}
use sniper.ApproxVars.{find_var}
use sniper.MagicServer.{
  MagicServer, byte_addr, is_approx, any_approx, is_block_approx, approx_addr_setnum, first_setnum,
  approx_block_setnum, add_approx,
}
use sniper.MagicServer.Registry.{IsRegistry, add_approx-IsRegistry, is_approx-add_approx}

module _ (s : MagicServer) (address : ℕ) where
  any_approx-found :
      (n i : ℕ)
      → any_approx s address n i ≡ true
      → (k : ℕ) × (i ≤ k) × (k < i + n) × (is_approx s (byte_addr address k) ≡ true)
  unfolding any_approx
  any_approx-found zero i e = not_false e
  any_approx-found (suc n) i e = elim (Bool-cases (is_approx s (byte_addr address i))) [
    | inl here ↦ (i, omega arith, omega arith, here)
    | inr miss ↦
        let (k, p, q, h) = any_approx-found n (i + 1) (rw miss at e) in
        (k, omega arith, omega arith, h)
  ]

  any_approx-finds :
      (n i k : ℕ)
      → i ≤ k
      → k < i + n
      → is_approx s (byte_addr address k) ≡ true
      → any_approx s address n i ≡ true
  unfolding any_approx
  any_approx-finds zero i k p q h = absurd (omega arith)
  any_approx-finds (suc n) i k p q h = elim (ℕ_discrete i k) [
    | yes e ↦ rw e (ground arith)
    | no ne ↦ ground (arith, any_approx-finds n (i + 1) k (omega arith) (omega arith) h)
  ]

  -- is_block_approx holds exactly if one of the block's bytes is approximate.
  pub is_block_approx_iff :
      (block_size : ℕ)
      → (is_block_approx s address block_size ≡ true)
        ↔ ((k : ℕ) × (k < block_size) × (is_approx s (byte_addr address k) ≡ true))
  unfolding is_block_approx
  is_block_approx_iff block_size = (
    λ e. let (k, p, q, h) = any_approx-found block_size 0 e in (k, omega arith, h),
    λ t. any_approx-finds block_size 0 t.0 (omega arith) (let q = t.1 in omega arith) t.2,
  )

  first_setnum_lem :
      (n i : ℕ)
      → IsRegistry s
      → first_setnum s address n i ≡ (if any_approx s address n i then some 0 else none)
  unfolding first_setnum any_approx approx_addr_setnum is_approx
  first_setnum_lem zero i r = refl
  first_setnum_lem (suc n) i r =
      elim (Option-cases (find_var (byte_addr address i) s.approx_vars)) [
        | inl e ↦ ground (arith, first_setnum_lem n (i + 1) r)
        | inr (v, e) ↦ let z = r.unset (byte_addr address i) v e in ground (arith, z)
      ]

  -- The set number of a block is 0 if the block has an approximate byte, and otherwise there is
  -- none: no other number occurs.
  pub approx_block_setnum_lem :
      (block_size : ℕ)
      → IsRegistry s
      → approx_block_setnum s address block_size
        ≡ (if is_block_approx s address block_size then some 0 else none)
  unfolding approx_block_setnum is_block_approx
  approx_block_setnum_lem block_size r = first_setnum_lem block_size 0 r

  -- An address that was added has set number 0, whatever number add_approx was given.
  pub add_approx-setnum :
      (set_number : ℕ)
      → IsRegistry s
      → approx_addr_setnum (add_approx s address set_number).0 address ≡ some 0
  unfolding approx_addr_setnum is_approx
  add_approx-setnum set_number r =
      let there = (is_approx-add_approx s r address set_number address).0 in
      elim (Option-cases (find_var address (add_approx s address set_number).0.approx_vars)) [
        | inl e ↦ ground (arith, there)
        | inr (v, e) ↦
            let z = (add_approx-IsRegistry s r address set_number).unset address v e in
            ground (arith, z)
      ]

  -- An address has set 0 or none.
  pub approx_addr_setnum_cases :
      IsRegistry s → (approx_addr_setnum s address ≡ none) ⊎ (approx_addr_setnum s address ≡ some 0)
  unfolding approx_addr_setnum
  approx_addr_setnum_cases r = elim (Option-cases (find_var address s.approx_vars)) [
    | inl e ↦ inl (rw (e, approx_addr_setnum))
    | inr (v, e) ↦ let z = r.unset address v e in inr (ground (arith, z))
  ]
