-- ===== src/MagicServer/Registry.antt =====
-- The registry as a set of addresses, and the bounds `start_addr` and `end_addr` around it.

use sniper.Base.{ℕ, ◌≤◌, ◌≡◌, Bool, true, false, not, ◌&&◌, ◌||◌, none, some, List, ◌==◌, arith}
use sniper.ApproxVars.{AppVar, find_var}
use sniper.ApproxVars.Ordered.{
  Ordered, insert_var-Above, erase_var-Above, find-insert_var, insert_var-new, find-erase_var,
  find_var-nil,
}
use sniper.MagicServer.{MagicServer, create, fresh_var, add_approx, del_approx, is_approx}

-- Whether an address is registered.
abbrev pub present : List AppVar → ℕ → Bool
present vars a = elim (find_var a vars) [ none ↦ false | some _ ↦ true ]

pub record IsRegistry (s : MagicServer) : Type 0 where
  pub ordered : Ordered s.approx_vars
  pub bounded : (a : ℕ) → present s.approx_vars a ≡ true → (s.start_addr ≤ a) × (a ≤ s.end_addr)
  pub unset : (a : ℕ) (v : AppVar) → find_var a s.approx_vars ≡ some v → v.set_num ≡ 0

pub create-IsRegistry : (adds muls : ℕ) → IsRegistry (create adds muls)
unfolding create
create-IsRegistry adds muls = record {
  ordered = tt;
  bounded = λ a h. ground (arith, find_var-nil a);
  unset = λ a v h. ground (arith, find_var-nil a);
}

module _ (s : MagicServer) (r : IsRegistry s) (address set_number : ℕ) where
  -- After add_approx the approximate addresses are the new one and those from before, and the
  -- result tells whether it is new.
  pub is_approx-add_approx :
      (j : ℕ)
      → (is_approx (add_approx s address set_number).0 j ≡ ((address == j) || is_approx s j))
        × ((add_approx s address set_number).1 ≡ not (is_approx s address))
  unfolding is_approx add_approx
  is_approx-add_approx j = ground (
    arith,
    find-insert_var (fresh_var address) 0 j s.approx_vars r.ordered,
    insert_var-new (fresh_var address) 0 s.approx_vars r.ordered,
  )

  -- add_approx keeps the addresses rising, keeps start_addr and end_addr around all of them, and
  -- every set number 0.
  pub add_approx-IsRegistry : IsRegistry (add_approx s address set_number).0
  unfolding add_approx
  add_approx-IsRegistry = record {
    ordered =
        ground
          (arith, insert_var-Above (fresh_var address) 0 s.approx_vars (omega arith) r.ordered);
    bounded = λ a h. ground (
      arith,
      r.bounded a,
      find-insert_var (fresh_var address) 0 a s.approx_vars r.ordered,
      insert_var-new (fresh_var address) 0 s.approx_vars r.ordered,
      r.bounded address,
    );
    unset = λ a v h. ground (
      arith,
      r.unset a v,
      find-insert_var (fresh_var address) 0 a s.approx_vars r.ordered,
      insert_var-new (fresh_var address) 0 s.approx_vars r.ordered,
    );
  }

module _ (s : MagicServer) (r : IsRegistry s) (address : ℕ) where
  -- After del_approx the approximate addresses are those from before without the one deleted, and
  -- the result tells whether it was there.
  pub is_approx-del_approx :
      (j : ℕ)
      → (is_approx (del_approx s address).0 j ≡ (not (address == j) && is_approx s j))
        × ((del_approx s address).1 ≡ is_approx s address)
  unfolding is_approx del_approx
  is_approx-del_approx j = ground (arith, find-erase_var address 0 j s.approx_vars r.ordered)

  -- del_approx keeps the same invariant.
  pub del_approx-IsRegistry : IsRegistry (del_approx s address).0
  unfolding del_approx
  del_approx-IsRegistry = record {
    ordered = ground (arith, erase_var-Above address 0 s.approx_vars r.ordered);
    bounded =
        λ a h. ground (arith, r.bounded a, find-erase_var address 0 a s.approx_vars r.ordered);
    unset =
        λ a v h. ground (arith, r.unset a v, find-erase_var address 0 a s.approx_vars r.ordered);
  }
