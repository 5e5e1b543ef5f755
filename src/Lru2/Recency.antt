-- ===== src/Lru2/Recency.antt =====
-- The ages order the ways of a segment by their last use, whatever the history of uses.
use sniper.Base.{
  ℕ, ◌+◌, ◌-◌, ◌≤◌, ◌<◌, ◌≡◌, ◌≢◌, refl, subst, inl, inr, ◌⊎◌, ℕ_discrete, List, [], ◌∷◌, Bool,
  true, false, ltb, if◌then◌else◌, length, u8_mod, arith, Bool-cases, ltb→lt, ltb→le, ◌==◌,
}
use sniper.Lru2.{Lru2, age_at, touch_segment, update_replacement_index}
use sniper.Lru2.Aging.{aged, touch_segment-used, touch_segment-inside, touch_segment-outside}
use sniper.Lru2.Segments.{IsSegment, IsLru, update_replacement_index-IsLru}

-- A policy that has seen the uses of the list, the latest first.
unfoldable pub run_uses : Lru2 → List ℕ → Lru2
run_uses s [] = s
run_uses s (a ∷ uses) = update_replacement_index (run_uses s uses) a

-- Way `i` was used, and way `j` was not used since.
unfoldable pub used_after : ℕ → ℕ → List ℕ → Bool
used_after i j [] = false
used_after i j (a ∷ uses) = if a == i then true else if a == j then false else used_after i j uses

abbrev pub AllBelow : ℕ → List ℕ → Type 0
AllBelow n [] = Unit {0}
AllBelow n (a ∷ uses) = (a < n) × AllBelow n uses

-- The two ways stand on one side of the margin.
abbrev pub SameSegment : ℕ → ℕ → ℕ → ℕ → Type 0
SameSegment margin n i j =
    ((i < margin) × (j < margin)) ⊎ ((margin ≤ i) × (margin ≤ j) × (i < n) × (j < n))

module _ (n lo a : ℕ) (bits : List ℕ) (small : n ≤ u8_mod) (fits : lo + n ≤ length bits)
    (v : IsSegment n lo bits) (la : lo ≤ a) (ha : a < lo + n) where
  inside-aged :
      (j : ℕ) → lo ≤ j → j < lo + n → a ≢ j → age_at (touch_segment n lo a bits) j ≡ aged bits a j
  inside-aged j p q h =
      touch_segment-inside n lo a bits j p q (omega arith) h
        (let k = v.bounded a la ha in omega (arith, k))

  touch_segment-first :
      (j : ℕ)
      → lo ≤ j
      → j < lo + n
      → a ≢ j
      → age_at (touch_segment n lo a bits) a < age_at (touch_segment n lo a bits) j
  touch_segment-first j p q h =
      let k = inside-aged j p q h in
      let l = touch_segment-used n lo a bits (omega arith) in
      ground (arith, k, l, v.distinct j a p q la ha)

  touch_segment-order :
      (i j : ℕ)
      → lo ≤ i
      → i < lo + n
      → lo ≤ j
      → j < lo + n
      → a ≢ i
      → a ≢ j
      → age_at bits i < age_at bits j
      → age_at (touch_segment n lo a bits) i < age_at (touch_segment n lo a bits) j
  touch_segment-order i j p q r t hi hj h =
      let k = inside-aged i p q hi in
      let l = inside-aged j r t hj in ground (arith, k, l, v.distinct j a r t la ha)

module _ (s : Lru2) (v : IsLru s) (a : ℕ) (ha : a < s.associativity) where
  -- The way just used is younger than every other way of its segment.
  pub update-first :
      (j : ℕ)
      → SameSegment s.approx_margin s.associativity a j
      → a ≢ j
      → age_at (update_replacement_index s a).lru_bits a
        < age_at (update_replacement_index s a).lru_bits j
  unfolding update_replacement_index
  update-first j same h = elim (Bool-cases (ltb a s.approx_margin)) [
    | inl below ↦
        let lt = ltb→lt a s.approx_margin below in
        rw below (
          touch_segment-first s.approx_margin 0 a s.lru_bits (omega arith) (omega arith) v.exact
            (omega arith) (omega (arith, lt)) j (omega arith) (omega (arith, lt)) h)
    | inr above ↦
        let le = ltb→le a s.approx_margin above in
        rw above (
          touch_segment-first (s.associativity - s.approx_margin) s.approx_margin a s.lru_bits
            (omega arith) (omega arith) v.approx le (omega (arith, le)) j (omega (arith, le))
            (omega (arith, le)) h)
  ]

  -- A use of another way keeps the order of two ways of one segment.
  pub update-order :
      (i j : ℕ)
      → SameSegment s.approx_margin s.associativity i j
      → a ≢ i
      → a ≢ j
      → age_at s.lru_bits i < age_at s.lru_bits j
      → age_at (update_replacement_index s a).lru_bits i
        < age_at (update_replacement_index s a).lru_bits j
  unfolding update_replacement_index
  update-order i j (inl (li, lj)) hi hj h = elim (Bool-cases (ltb a s.approx_margin)) [
    | inl below ↦
        let lt = ltb→lt a s.approx_margin below in
        rw below (
          touch_segment-order s.approx_margin 0 a s.lru_bits (omega arith) (omega arith) v.exact
            (omega arith) (omega (arith, lt)) i j (omega arith) (omega arith) (omega arith)
            (omega arith) hi hj h)
    | inr above ↦
        let n = s.associativity - s.approx_margin in
        let k = touch_segment-outside n s.approx_margin a s.lru_bits i (inl li) hi in
        let l = touch_segment-outside n s.approx_margin a s.lru_bits j (inl lj) hj in
        rw above (omega (arith, k, l))
  ]
  update-order i j (inr (li, lj, bi, bj)) hi hj h = elim (Bool-cases (ltb a s.approx_margin)) [
    | inl below ↦
        let k = touch_segment-outside s.approx_margin 0 a s.lru_bits i (inr (omega arith)) hi in
        let l = touch_segment-outside s.approx_margin 0 a s.lru_bits j (inr (omega arith)) hj in
        rw below (omega (arith, k, l))
    | inr above ↦
        let le = ltb→le a s.approx_margin above in
        rw above (
          touch_segment-order (s.associativity - s.approx_margin) s.approx_margin a s.lru_bits
            (omega arith) (omega arith) v.approx le (omega (arith, le)) i j li (omega arith) lj
            (omega arith) hi hj h)
  ]

pub run_uses-associativity :
    (s : Lru2) (uses : List ℕ)
    → ((run_uses s uses).associativity ≡ s.associativity)
      × ((run_uses s uses).approx_margin ≡ s.approx_margin)
unfolding run_uses update_replacement_index
run_uses-associativity s [] = (refl, refl)
run_uses-associativity s (a ∷ uses) = ground (arith, run_uses-associativity s uses)

pub run_uses-IsLru :
    (s : Lru2) (uses : List ℕ) → AllBelow s.associativity uses → IsLru s → IsLru (run_uses s uses)
unfolding run_uses
run_uses-IsLru s [] h v = v
run_uses-IsLru s (a ∷ uses) h v =
    update_replacement_index-IsLru (run_uses s uses) a (rw (run_uses-associativity s uses).0 h.0)
      (run_uses-IsLru s uses h.1 v)

-- After any history of uses from a state in order, of two different ways of one segment the one
-- that was used last has the smaller age.
pub run_uses-recency :
    (s : Lru2) (uses : List ℕ) (i j : ℕ)
    → AllBelow s.associativity uses
    → IsLru s
    → SameSegment s.approx_margin s.associativity i j
    → i ≢ j
    → used_after i j uses ≡ true
    → age_at (run_uses s uses).lru_bits i < age_at (run_uses s uses).lru_bits j
unfolding run_uses used_after
run_uses-recency s [] i j h v same ne e = absurd (ground arith)
run_uses-recency s (a ∷ uses) i j h v same ne e = elim (ℕ_discrete a i) [
  | yes here ↦
      subst
        (λ k.
          age_at (update_replacement_index (run_uses s uses) a).lru_bits k
          < age_at (update_replacement_index (run_uses s uses) a).lru_bits j)
        here
        (update-first (run_uses s uses) (run_uses-IsLru s uses h.1 v) a
          (rw (run_uses-associativity s uses).0 h.0) j
          (omega (arith, run_uses-associativity s uses)) (omega arith))
  | no other ↦
      update-order (run_uses s uses) (run_uses-IsLru s uses h.1 v) a
        (rw (run_uses-associativity s uses).0 h.0) i j
        (omega (arith, run_uses-associativity s uses)) other (ground arith)
        (run_uses-recency s uses i j h.1 v same ne (ground arith))
]
