-- ===== src/FaultInjection/Isolation.antt =====
-- Faults stay where they may be: no byte that is not approximate is touched.
use sniper.Base.{
  ℕ, zero, suc, ◌+◌, ◌≡◌, refl, sym, ◌∙◌, ap, inl, inr, ◌==◌, Option, none, some, List,
  if◌then◌else◌, get_or, set, length, for_range, length-set, get_or-set_ne, Bool-cases, not_none,
}
use sniper.MagicServer.{MagicServer, byte_addr, approx_addr_setnum}
use sniper.FaultInjection.{
  Rng, Generators, Injector, plain, random, read_set_0, read_set_1, write_set_0, write_set_1,
  pre_read_byte, post_write_byte, pre_read, post_write,
}

module _ (rng : Rng) (ms : MagicServer) (addr : ℕ) where
  -- The byte may be hit: the magic server knows a set for its address.
  abbrev pub IsExact : ℕ → Type 0
  IsExact i = approx_addr_setnum ms (byte_addr addr i) ≡ none

  -- The bytes are as many as before, and no exact one changed.
  abbrev pub KeepsExact : List ℕ → List ℕ → Type 0
  KeepsExact before after =
      (length after ≡ length before) × ((i : ℕ) → IsExact i → get_or after i 0 ≡ get_or before i 0)

  KeepsExact-trans : (a b c : List ℕ) → KeepsExact a b → KeepsExact b c → KeepsExact a c
  KeepsExact-trans a b c (l, e) (l', e') = (l' ∙ l, λ i h. e' i h ∙ e i h)

  KeepsExact-set :
      (fault : List ℕ) (i byte : ℕ) {k : ℕ}
      → approx_addr_setnum ms (byte_addr addr i) ≡ some k
      → KeepsExact fault (set fault i byte)
  KeepsExact-set fault i byte e = (
    length-set fault i byte,
    λ j exact. get_or-set_ne fault i j byte 0 (λ same.
        not_none (sym exact ∙ ap (λ m. approx_addr_setnum ms (byte_addr addr m)) (sym same) ∙ e)),
  )

  -- What the body of either loop does to a byte: nothing, or one write to it where the magic server
  -- knows a set.
  module _ (branch_0 branch_1 : List ℕ × Generators rng) (i : ℕ) (fault : List ℕ)
      (g : Generators rng) where
    abbrev chosen : Option ℕ → List ℕ × Generators rng
    chosen o = elim o [
      | none ↦ (fault, g)
      | some k ↦ if k == 0 then branch_0 else if k == 1 then branch_1 else (fault, g)
    ]

    chosen-KeepsExact :
        (x y : ℕ) (o : Option ℕ)
        → approx_addr_setnum ms (byte_addr addr i) ≡ o
        → branch_0.0 ≡ set fault i x
        → branch_1.0 ≡ set fault i y
        → KeepsExact fault (chosen o).0
    chosen-KeepsExact x y none e e0 e1 = (refl, λ j h. refl)
    chosen-KeepsExact x y (some k) e e0 e1 = elim (Bool-cases (k == 0)) [
      | inl first ↦ rw first (rw e0 (KeepsExact-set fault i x e))
      | inr other ↦ elim (Bool-cases (k == 1)) [
        | inl second ↦ rw other (rw second (rw e1 (KeepsExact-set fault i y e)))
        | inr more ↦ rw other (rw more (refl, λ j h. refl))
      ]
    ]

  pre_read_byte-KeepsExact :
      (i : ℕ) (s : List ℕ × Generators rng) → KeepsExact s.0 (pre_read_byte rng ms addr i s).0
  unfolding pre_read_byte
  pre_read_byte-KeepsExact i (fault, g) =
      chosen-KeepsExact (read_set_0 rng i (fault, g)) (read_set_1 rng i (fault, g)) i fault g _ _
        (approx_addr_setnum ms (byte_addr addr i)) refl refl refl

  post_write_byte-KeepsExact :
      (i : ℕ) (s : List ℕ × Generators rng) → KeepsExact s.0 (post_write_byte rng ms addr i s).0
  unfolding post_write_byte
  post_write_byte-KeepsExact i (fault, g) =
      chosen-KeepsExact (write_set_0 rng i (fault, g)) (write_set_1 rng i (fault, g)) i fault g _ _
        (approx_addr_setnum ms (byte_addr addr i)) refl refl refl

  loop-KeepsExact :
      (body : ℕ → List ℕ × Generators rng → List ℕ × Generators rng)
      → ((i : ℕ) (s : List ℕ × Generators rng) → KeepsExact s.0 (body i s).0)
      → (n i : ℕ) (s : List ℕ × Generators rng) → KeepsExact s.0 (for_range n i body s).0
  unfolding for_range
  loop-KeepsExact body step zero i s = (refl, λ j h. refl)
  loop-KeepsExact body step (suc n) i s =
      KeepsExact-trans s.0 (body i s).0 (for_range (suc n) i body s).0 (step i s)
        (loop-KeepsExact body step n (i + 1) (body i s))

  -- Neither preRead nor postWrite changes the number of bytes, or a byte whose address has no set
  -- number.
  pub injector-KeepsExact :
      (data_size : ℕ) (injector : Injector rng) (fault : List ℕ)
      → KeepsExact fault (pre_read rng ms addr data_size injector fault).0
        × KeepsExact fault (post_write rng ms addr data_size injector fault).0
  unfolding pre_read post_write
  injector-KeepsExact data_size plain fault = ((refl, λ j h. refl), (refl, λ j h. refl))
  injector-KeepsExact data_size (random g) fault = (
    loop-KeepsExact (pre_read_byte rng ms addr) pre_read_byte-KeepsExact data_size 0 (fault, g),
    loop-KeepsExact (post_write_byte rng ms addr) post_write_byte-KeepsExact data_size 0 (fault, g),
  )
