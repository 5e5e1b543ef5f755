-- ===== src/MagicServer/Commands/Markers.antt =====
-- The marker, and the commands that count operations.
use mathlib.Core.Option
use sniper.Base.{
  ℕ, ◌/◌, ◌%◌, ◌≡◌, refl, inl, inr, not, ◌&&◌, ◌||◌, ◌==◌, if◌then◌else◌, arith, u32_mod,
  Bool-cases, Option-cases,
}
use sniper.ApproxVars.{AppVar, find_var, upsave, inc_add_cnt, inc_mul_cnt}
use sniper.ApproxVars.Ordered.{map-Above, find-map, find-update_var}
use sniper.ApproxVars.Counters.{addr-upsave, set_num-upsave, addr-inc_add_cnt, addr-inc_mul_cnt}
use sniper.MagicServer.{MagicServer, is_approx}
use sniper.MagicServer.Registry.{
  IsRegistry, add_approx-IsRegistry, del_approx-IsRegistry, is_approx-add_approx,
  is_approx-del_approx,
}
use sniper.MagicServer.Commands.{Config, Server, marker_log, marker, count_op, add_cnt, mul_cnt}

-- Saving every counter changes no address.
module _ (c : Config) (s : Server) where
  is_approx-marker_log : (j : ℕ) → is_approx (marker_log c s).0.registry j ≡ is_approx s.registry j
  unfolding is_approx marker_log
  is_approx-marker_log j = ground (arith, find-map upsave addr-upsave j s.registry.approx_vars)

  marker_log-IsRegistry : IsRegistry s.registry → IsRegistry (marker_log c s).0.registry
  unfolding marker_log
  marker_log-IsRegistry r = record {
    ordered = ground (arith, map-Above upsave addr-upsave 0 s.registry.approx_vars r.ordered);
    bounded =
        λ a h. ground (arith, r.bounded a, find-map upsave addr-upsave a s.registry.approx_vars);
    unset = λ a v h. elim (Option-cases (find_var a s.registry.approx_vars)) [
      | inl e ↦ ground (arith, r.unset a v, find-map upsave addr-upsave a s.registry.approx_vars)
      | inr (w, e) ↦ ground (
        arith,
        r.unset a v,
        r.unset a w e,
        set_num-upsave w,
        find-map upsave addr-upsave a s.registry.approx_vars,
      )
    ];
  }

  -- The marker adds its address if its number ends in 07, deletes it if the number ends in 06, and
  -- otherwise changes no address; the registry's invariant is kept.
  pub marker_lem :
      (arg0 arg1 : ℕ)
      → IsRegistry s.registry
      → IsRegistry (marker c s arg0 arg1).0.registry
        × ((j : ℕ)
            → is_approx (marker c s arg0 arg1).0.registry j ≡ (
                if arg0 % 100 == 7
                then (arg1 == j) || is_approx s.registry j
                else if arg0 % 100 == 6
                then not (arg1 == j) && is_approx s.registry j
                else is_approx s.registry j))
  unfolding marker
  marker_lem arg0 arg1 r = elim (Bool-cases (arg0 % 100 == 7)) [
    | inl e ↦ rw e (
      add_approx-IsRegistry s.registry r arg1 (arg0 / 100),
      λ j. (is_approx-add_approx s.registry r arg1 (arg0 / 100) j).0,
    )
    | inr e ↦ elim (Bool-cases (arg0 % 100 == 6)) [
      | inl e' ↦
          let logged = marker_log-IsRegistry r in
          rw (e, e')
            (
              del_approx-IsRegistry (marker_log c s).0.registry logged arg1,
              λ j. ground (
                arith,
                (is_approx-del_approx (marker_log c s).0.registry logged arg1 j).0,
                is_approx-marker_log j,
              ),
            )
      | inr e' ↦ rw (e, e') (r, λ j. refl)
    ]
  ]

-- A count that a command raised: at its address by `f`, nowhere else; the result tells whether it is
-- there.
abbrev pub Counted : (AppVar → AppVar) → MagicServer → ℕ → MagicServer × ℕ → Type 0
Counted f s a (s', result) =
    (result ≡ (if is_approx s a then 1 else 0))
    × ((j : ℕ)
        → find_var j s'.approx_vars
          ≡ (if a == j then Option.map f (find_var j s.approx_vars) else find_var j s.approx_vars))

count_op-Counted :
    (f : ℕ → AppVar → AppVar) (s : MagicServer) (arg0 arg1 : ℕ)
    → ((v : AppVar) → (f (arg1 % u32_mod) v).addr ≡ v.addr)
    → Counted (f (arg1 % u32_mod)) s arg0 (count_op f s arg0 arg1)
unfolding count_op is_approx
count_op-Counted f s arg0 arg1 same = (
  ground arith,
  λ j. ground (arith, find-update_var (f (arg1 % u32_mod)) arg0 j s.approx_vars same),
)

-- SIM_CMD_ADD_CNT and SIM_CMD_MUL_CNT return 1 for an approximate address and 0 for any other; they
-- add the value's low 32 bits to the address's count of their operation, and change no other
-- address.
pub count_ops-Counted :
    (s : MagicServer) (arg0 arg1 : ℕ)
    → Counted (inc_add_cnt (arg1 % u32_mod)) s arg0 (add_cnt s arg0 arg1)
      × Counted (inc_mul_cnt (arg1 % u32_mod)) s arg0 (mul_cnt s arg0 arg1)
unfolding add_cnt mul_cnt
count_ops-Counted s arg0 arg1 = (
  count_op-Counted inc_add_cnt s arg0 arg1 (λ v. addr-inc_add_cnt v (arg1 % u32_mod)),
  count_op-Counted inc_mul_cnt s arg0 arg1 (λ v. addr-inc_mul_cnt v (arg1 % u32_mod)),
)
