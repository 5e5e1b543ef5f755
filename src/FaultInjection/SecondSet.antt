-- ===== src/FaultInjection/SecondSet.antt =====
-- The second set of probabilities and generators, and an injector whose draws never hit.
use sniper.Base.{
  ℕ, zero, suc, ◌+◌, ◌≡◌, refl, ◌∙◌, ap, inl, inr, false, List, [], ◌∷◌, get_or, set, for_range,
  arith,
}
use sniper.MagicServer.{MagicServer, byte_addr}
use sniper.MagicServer.Registry.{IsRegistry}
use sniper.MagicServer.Queries.{approx_addr_setnum_cases}
use sniper.FaultInjection.{
  Rng, Generators, Injector, plain, random, flip, read_flip, read_set_0, read_set_1, write_set_0,
  write_set_1, pre_read_byte, post_write_byte, pre_read, post_write,
}

module _ (rng : Rng) (ms : MagicServer) (r : IsRegistry ms) (addr : ℕ) where
  -- The generators of the second set are as they were.
  abbrev pub SameSecond : Generators rng → Generators rng → Type 0
  SameSecond g g' = (g'.gen_r_2 ≡ g.gen_r_2) × (g'.gen_h_2 ≡ g.gen_h_2) × (g'.gen_w_2 ≡ g.gen_w_2)

  abbrev pub SecondOf : Injector rng → Injector rng → Type 0
  SecondOf (random g) (random g') = SameSecond g g'
  SecondOf plain plain = Unit {0}
  SecondOf _ _ = ⊥

  pre_read_byte-SameSecond :
      (i : ℕ) (s : List ℕ × Generators rng) → SameSecond s.1 (pre_read_byte rng ms addr i s).1
  unfolding pre_read_byte
  pre_read_byte-SameSecond i s = elim (approx_addr_setnum_cases ms (byte_addr addr i) r) [
    | inl e ↦ rw (e, pre_read_byte) (refl, refl, refl)
    | inr e ↦ rw (e, pre_read_byte) (refl, refl, refl)
  ]

  post_write_byte-SameSecond :
      (i : ℕ) (s : List ℕ × Generators rng) → SameSecond s.1 (post_write_byte rng ms addr i s).1
  unfolding post_write_byte
  post_write_byte-SameSecond i s = elim (approx_addr_setnum_cases ms (byte_addr addr i) r) [
    | inl e ↦ rw (e, post_write_byte) (refl, refl, refl)
    | inr e ↦ rw (e, post_write_byte) (refl, refl, refl)
  ]

  loop-SameSecond :
      (body : ℕ → List ℕ × Generators rng → List ℕ × Generators rng)
      → ((i : ℕ) (s : List ℕ × Generators rng) → SameSecond s.1 (body i s).1)
      → (n i : ℕ) (s : List ℕ × Generators rng) → SameSecond s.1 (for_range n i body s).1
  unfolding for_range
  loop-SameSecond body step zero i s = (refl, refl, refl)
  loop-SameSecond body step (suc n) i s =
      let (a, c, d) = step i s in
      let (a', c', d') = loop-SameSecond body step n (i + 1) (body i s) in (a' ∙ a, c' ∙ c, d' ∙ d)

  -- With a registry in order neither preRead nor postWrite draws from the generators of the second
  -- set.
  pub injector-SecondOf :
      (data_size : ℕ) (injector : Injector rng) (fault : List ℕ)
      → SecondOf injector (pre_read rng ms addr data_size injector fault).1
        × SecondOf injector (post_write rng ms addr data_size injector fault).1
  unfolding pre_read post_write
  injector-SecondOf data_size plain fault = (tt, tt)
  injector-SecondOf data_size (random g) fault = (
    loop-SameSecond (pre_read_byte rng ms addr) pre_read_byte-SameSecond data_size 0 (fault, g),
    loop-SameSecond (post_write_byte rng ms addr) post_write_byte-SameSecond data_size 0 (fault, g),
  )

set-get_or : (fault : List ℕ) (i : ℕ) → set fault i (get_or fault i 0) ≡ fault
set-get_or [] i = refl
set-get_or (x ∷ fault) zero = refl
set-get_or (x ∷ fault) (suc i) = ap (◌∷◌ x) (set-get_or fault i)

-- No draw hits: the distributions' probabilities are zero.
abbrev pub NeverHits : Rng → Type 0
NeverHits rng = (g : rng.Gen) → (rng.draw g).0 ≡ false

module _ (rng : Rng) (never : NeverHits rng) where
  flip-same : (j : ℕ) (s : ℕ × rng.Gen) → (flip rng j s).0 ≡ s.0
  flip-same j (byte, g) = rw (never g)

  read_flip-same : (j : ℕ) (s : ℕ × rng.Gen × rng.Gen) → (read_flip rng j s).0 ≡ s.0
  read_flip-same j (byte, r, h) = rw (never r, never h)

  read_flips-same :
      (n i : ℕ) (s : ℕ × rng.Gen × rng.Gen) → (for_range n i (read_flip rng) s).0 ≡ s.0
  unfolding for_range
  read_flips-same zero i s = refl
  read_flips-same (suc n) i s = read_flips-same n (i + 1) (read_flip rng i s) ∙ read_flip-same i s

  write_flips-same : (n i : ℕ) (s : ℕ × rng.Gen) → (for_range n i (flip rng) s).0 ≡ s.0
  unfolding for_range
  write_flips-same zero i s = refl
  write_flips-same (suc n) i s = write_flips-same n (i + 1) (flip rng i s) ∙ flip-same i s

  module _ (i : ℕ) (fault : List ℕ) (g : Generators rng) where
    read_sets-same :
        ((read_set_0 rng i (fault, g)).0 ≡ fault) × ((read_set_1 rng i (fault, g)).0 ≡ fault)
    unfolding read_set_0 read_set_1
    read_sets-same = (
      ap (set fault i) (read_flips-same 8 0 (get_or fault i 0, g.gen_r, g.gen_h))
          ∙ set-get_or fault i,
      ap (set fault i) (read_flips-same 8 0 (get_or fault i 0, g.gen_r_2, g.gen_h_2))
          ∙ set-get_or fault i,
    )

    write_sets-same :
        ((write_set_0 rng i (fault, g)).0 ≡ fault) × ((write_set_1 rng i (fault, g)).0 ≡ fault)
    unfolding write_set_0 write_set_1
    write_sets-same = (
      ap (set fault i) (write_flips-same 8 0 (get_or fault i 0, g.gen_w)) ∙ set-get_or fault i,
      ap (set fault i) (write_flips-same 8 0 (get_or fault i 0, g.gen_w_2)) ∙ set-get_or fault i,
    )

  module _ (ms : MagicServer) (addr : ℕ) where
    pre_read_byte-same :
        (i : ℕ) (s : List ℕ × Generators rng) → (pre_read_byte rng ms addr i s).0 ≡ s.0
    unfolding pre_read_byte
    pre_read_byte-same i (fault, g) =
        let (e, e') = read_sets-same i fault g in ground (arith, e, e')

    post_write_byte-same :
        (i : ℕ) (s : List ℕ × Generators rng) → (post_write_byte rng ms addr i s).0 ≡ s.0
    unfolding post_write_byte
    post_write_byte-same i (fault, g) =
        let (e, e') = write_sets-same i fault g in ground (arith, e, e')

    bytes-same :
        (body : ℕ → List ℕ × Generators rng → List ℕ × Generators rng)
        → ((i : ℕ) (s : List ℕ × Generators rng) → (body i s).0 ≡ s.0)
        → (n i : ℕ) (s : List ℕ × Generators rng) → (for_range n i body s).0 ≡ s.0
    unfolding for_range
    bytes-same body step zero i s = refl
    bytes-same body step (suc n) i s = bytes-same body step n (i + 1) (body i s) ∙ step i s

    -- With draws that never hit, preRead and postWrite leave the data as it was.
    pub injector-never :
        (data_size : ℕ) (injector : Injector rng) (fault : List ℕ)
        → ((pre_read rng ms addr data_size injector fault).0 ≡ fault)
          × ((post_write rng ms addr data_size injector fault).0 ≡ fault)
    unfolding pre_read post_write
    injector-never data_size plain fault = (refl, refl)
    injector-never data_size (random g) fault = (
      bytes-same (pre_read_byte rng ms addr) pre_read_byte-same data_size 0 (fault, g),
      bytes-same (post_write_byte rng ms addr) post_write_byte-same data_size 0 (fault, g),
    )
