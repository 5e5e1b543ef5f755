-- ===== src/Lru2/Victim.antt =====
-- The two loops of `getReplacementIndex`: the first empty way, and the oldest one.
use sniper.Base.{
  ℕ, zero, suc, ◌+◌, ◌≤◌, ◌<◌, ◌≡◌, refl, sym, subst, inl, inr, ◌⊎◌, ℕ_discrete, List, true, false,
  ltb, arith, Bool-cases, none, some, for_range, ◌&&◌,
}
use sniper.BlockInfo.{BlockInfo, is_valid_way, is_valid_replacement}
use sniper.Lru2.{age_at, first_invalid, scan_way, oldest_way}

module _ (b : BlockInfo) (blocks : List b.Info) where
  -- What the first loop finds among the `n` ways from `i` on.
  pub first_invalid_cases :
      (n i : ℕ)
      → ((first_invalid b blocks n i ≡ none)
          × ((j : ℕ) → i ≤ j → j < i + n → is_valid_way b blocks j ≡ true))
        ⊎ ((k : ℕ) × (first_invalid b blocks n i ≡ some k)
            × (i ≤ k)
            × (k < i + n)
            × (is_valid_way b blocks k ≡ false)
            × ((j : ℕ) → i ≤ j → j < k → is_valid_way b blocks j ≡ true))
  unfolding first_invalid
  first_invalid_cases zero i = inl (refl, λ j p q. absurd (omega arith))
  first_invalid_cases (suc n) i = elim (Bool-cases (is_valid_way b blocks i)) [
    | inr empty ↦ inr (i, rw empty, omega arith, omega arith, empty, λ j p q. absurd (omega arith))
    | inl full ↦ elim (first_invalid_cases n (i + 1)) [
      | inl (e, all) ↦ inl (rw full e, λ j p q. before full j p (λ r. all j r (omega arith)))
      | inr (k, e, p, q, h, all) ↦
          inr (k, rw full e, omega arith, omega arith, h, λ j r t. before full j r (λ l. all j l t))
    ]
  ]
    where
      before :
          is_valid_way b blocks i ≡ true
          → (j : ℕ) → i ≤ j
          → (i + 1 ≤ j → is_valid_way b blocks j ≡ true)
          → is_valid_way b blocks j ≡ true
      before full j p later = elim (ℕ_discrete i j) [
        | yes h ↦ subst (λ k. is_valid_way b blocks k ≡ true) h full
        | no h ↦ later (omega arith)
      ]

  abbrev pub Replaceable : ℕ → Type 0
  Replaceable j = is_valid_replacement b blocks j ≡ true

  -- The scan kept its choice, or took a replaceable way of the `n` from `i` on, with its age.
  abbrev Chosen : List ℕ → ℕ → ℕ → ℕ × ℕ → ℕ × ℕ → Type 0
  Chosen bits n i from to =
      ((to.0 ≡ from.0) × (to.1 ≡ from.1))
      ⊎ ((to.1 ≡ age_at bits to.0) × Replaceable to.0 × (i ≤ to.0) × (to.0 < i + n))

  -- What the second loop leaves, from any state it starts in.
  record Scanned (bits : List ℕ) (n i : ℕ) (from to : ℕ × ℕ) : Type 0 where
    grows : from.1 ≤ to.1
    covers : (j : ℕ) → i ≤ j → j < i + n → Replaceable j → age_at bits j ≤ to.1
    chosen : Chosen bits n i from to

  module _ (bits : List ℕ) where
    chosen_trans :
        (n i : ℕ) (s t u : ℕ × ℕ)
        → Chosen bits 1 i s t
        → Chosen bits n (i + 1) t u
        → Chosen bits (suc n) i s u
    chosen_trans n i s t u (inl (e, f)) (inl (e', f')) = inl (omega arith, omega arith)
    chosen_trans n i s t u (inr (m, r, p, q)) (inl (e', f')) =
        inr (cc, subst Replaceable (sym e') r, omega arith, omega arith)
    chosen_trans n i s t u _ (inr (m, r, p, q)) = inr (m, r, omega arith, omega arith)

    scan_one : (i : ℕ) (s : ℕ × ℕ) → Scanned bits 1 i s (scan_way b blocks bits i s)
    scan_one i (index, best) =
        elim (Bool-cases (ltb best (age_at bits i) && is_valid_replacement b blocks i)) [
          | inl hit ↦ rw hit (record {
            grows = ground arith;
            covers = λ j p q r. ground (arith, same j p q);
            chosen = inr (refl, ground arith, omega arith, omega arith);
          })
          | inr miss ↦ rw miss (record {
            grows = omega arith;
            covers = λ j p q r. ground (arith, same j p q);
            chosen = inl (refl, refl);
          })
        ]
      where
        same : (j : ℕ) → i ≤ j → j < i + 1 → j ≡ i
        same j p q = omega arith

    scanned : (n i : ℕ) (s : ℕ × ℕ) → Scanned bits n i s (for_range n i (scan_way b blocks bits) s)
    unfolding for_range
    scanned zero i s = record {
      grows = omega arith;
      covers = λ j p q. absurd (omega arith);
      chosen = inl (refl, refl);
    }
    scanned (suc n) i s =
        let one = scan_one i s in
        let rest = scanned n (i + 1) (scan_way b blocks bits i s) in
        record {
          grows = omega (arith, one.grows, rest.grows);
          covers = λ j p q r. elim (ℕ_discrete i j) [
            | yes h ↦
                let c = one.covers j (omega arith) (omega arith) r in omega (arith, c, rest.grows)
            | no h ↦ rest.covers j (omega arith) (omega arith) r
          ];
          chosen =
              chosen_trans n i s (scan_way b blocks bits i s)
                (for_range n (i + 1) (scan_way b blocks bits) (scan_way b blocks bits i s))
                one.chosen rest.chosen;
        }

    -- The oldest way stands in the segment, and no replaceable way of it is older.
    pub oldest_way_lem :
        (n lo : ℕ)
        → 0 < n
        → (lo ≤ oldest_way b blocks bits n lo)
          × (oldest_way b blocks bits n lo < lo + n)
          × ((j : ℕ)
              → lo ≤ j
              → j < lo + n
              → Replaceable j
              → age_at bits j ≤ age_at bits (oldest_way b blocks bits n lo))
    unfolding oldest_way
    oldest_way_lem n lo h =
        let r = scanned n lo (lo, 0) in
        elim r.chosen [
          | inl (e, f) ↦ (
            omega (arith, e),
            omega (arith, e),
            λ j p q v. let c = r.covers j p q v in omega (arith, c, f),
          )
          | inr (m, _, p', q') ↦
              (p', q', λ j p q v. let c = r.covers j p q v in omega (arith, c, m))
        ]
