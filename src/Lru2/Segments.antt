-- ===== src/Lru2/Segments.antt =====
-- The ages of a segment of `n` ways are a permutation of 0 .. n - 1, from the constructor on and
-- through every use of a way.
use sniper.Base.{
  ℕ, zero, suc, ◌+◌, ◌-◌, ◌%◌, ◌≤◌, ◌<◌, ◌≡◌, refl, sym, ◌∙◌, inl, inr, ◌⊎◌, ℕ_discrete, List, ltb,
  if◌then◌else◌, set, length, for_range, u8_mod, arith, Bool-cases, length-set, length-replicate,
  get_or-set_self, get_or-set_ne, ltb→lt, ltb→le, log2, log2-lt, replicate, ◌==◌,
}
use sniper.Lru2.{Lru2, age_at, create, touch_segment, update_replacement_index}
use sniper.Lru2.Aging.{
  aged, touch_segment-length, touch_segment-used, touch_segment-inside, touch_segment-outside,
}

-- An age smaller than the number of ways for each way, and no age twice.
pub record IsSegment (n lo : ℕ) (bits : List ℕ) : Type 0 where
  pub bounded : (i : ℕ) → lo ≤ i → i < lo + n → age_at bits i < n
  pub distinct :
      (i j : ℕ) → lo ≤ i → i < lo + n → lo ≤ j → j < lo + n → age_at bits i ≡ age_at bits j → i ≡ j

pub record IsLru (s : Lru2) : Type 0 where
  pub margin : s.approx_margin ≤ s.associativity
  pub size : length s.lru_bits ≡ s.associativity
  pub byte : s.associativity ≤ u8_mod
  pub exact : IsSegment s.approx_margin 0 s.lru_bits
  pub approx : IsSegment (s.associativity - s.approx_margin) s.approx_margin s.lru_bits

IsSegment-agree :
    {n lo : ℕ} {bits bits' : List ℕ}
    → IsSegment n lo bits
    → ((i : ℕ) → lo ≤ i → i < lo + n → age_at bits' i ≡ age_at bits i)
    → IsSegment n lo bits'
IsSegment-agree v e = record {
  bounded = λ i p q. let h = v.bounded i p q in let k = e i p q in omega (arith, h, k);
  distinct = λ i j p q r t h. v.distinct i j p q r t (sym (e i p q) ∙ h ∙ e j r t);
}

module _ (n lo a : ℕ) (bits : List ℕ) (small : n ≤ u8_mod) (fits : lo + n ≤ length bits)
    (la : lo ≤ a) (ha : a < lo + n) (v : IsSegment n lo bits) where
  -- The age of a way of the segment of `a` after a use of `a`.
  touched : (i : ℕ) → ℕ
  touched i = if i == a then 0 else aged bits a i

  touched_lem : (i : ℕ) → lo ≤ i → i < lo + n → age_at (touch_segment n lo a bits) i ≡ touched i
  unfolding touched
  touched_lem i p q = elim (ℕ_discrete a i) [
    | yes e ↦ ground (arith, touch_segment-used n lo a bits (omega arith))
    | no ne ↦ ground (
      arith,
      touch_segment-inside n lo a bits i p q (omega arith) ne
          (let h = v.bounded a la ha in omega (arith, h)),
    )
  ]

  touched-distinct :
      (i j : ℕ) → lo ≤ i → i < lo + n → lo ≤ j → j < lo + n → touched i ≡ touched j → i ≡ j
  unfolding touched
  touched-distinct i j p q r t h =
      ground (arith, v.distinct i j p q r t, v.distinct i a p q la ha, v.distinct j a r t la ha)

  touched-lt : (i : ℕ) → lo ≤ i → i < lo + n → touched i < n
  unfolding touched
  touched-lt i p q = ground (arith, v.bounded i p q, v.bounded a la ha)

  pub touch_segment-IsSegment : IsSegment n lo (touch_segment n lo a bits)
  touch_segment-IsSegment = record {
    bounded = λ i p q. omega (arith, touched_lem i p q, touched-lt i p q);
    distinct = λ i j p q r t h.
        touched-distinct i j p q r t (sym (touched_lem i p q) ∙ h ∙ touched_lem j r t);
  }

-- A use of any way of the set keeps the ages of both segments permutations of 0 to the number of
-- their ways less 1, and the set's sizes.
pub update_replacement_index-IsLru :
    (s : Lru2) (a : ℕ) → a < s.associativity → IsLru s → IsLru (update_replacement_index s a)
unfolding update_replacement_index
update_replacement_index-IsLru s a h v = elim (Bool-cases (ltb a s.approx_margin)) [
  | inl below ↦
      let lt = ltb→lt a s.approx_margin below in
      rw below (record {
        margin = v.margin;
        size = touch_segment-length s.approx_margin 0 a s.lru_bits ∙ v.size;
        byte = v.byte;
        exact =
            touch_segment-IsSegment s.approx_margin 0 a s.lru_bits (omega arith) (omega arith)
              (omega arith) (omega arith) v.exact;
        approx = IsSegment-agree v.approx λ i p q.
            touch_segment-outside s.approx_margin 0 a s.lru_bits i (inr (omega arith))
              (omega (arith, lt));
      })
  | inr above ↦
      let le = ltb→le a s.approx_margin above in
      rw above (record {
        margin = v.margin;
        size =
            touch_segment-length (s.associativity - s.approx_margin) s.approx_margin a s.lru_bits
            ∙ v.size;
        byte = v.byte;
        exact = IsSegment-agree v.exact λ i p q.
            touch_segment-outside (s.associativity - s.approx_margin) s.approx_margin a s.lru_bits i
              (inl (omega arith)) (omega (arith, le));
        approx =
            touch_segment-IsSegment (s.associativity - s.approx_margin) s.approx_margin a s.lru_bits
              (omega arith) (omega arith) le (omega (arith, le)) v.approx;
      })
]

pub associativity-update :
    (s : Lru2) (a : ℕ) → (update_replacement_index s a).associativity ≡ s.associativity
unfolding update_replacement_index
associativity-update s a = ground arith

-- The constructor's loops, `for (i = lo; i < lo + n; i++) m_lru_bits[i] = f(i)`.
module _ (f : ℕ → ℕ) where
  abbrev fill : ℕ → List ℕ → List ℕ
  fill i bits = set bits i (f i)

  fill-length : (n lo : ℕ) (bits : List ℕ) → length (for_range n lo fill bits) ≡ length bits
  unfolding for_range
  fill-length zero lo bits = refl
  fill-length (suc n) lo bits = fill-length n (lo + 1) (fill lo bits) ∙ length-set bits lo (f lo)

  fill-outside :
      (n lo j : ℕ) (bits : List ℕ)
      → (j < lo) ⊎ (lo + n ≤ j)
      → age_at (for_range n lo fill bits) j ≡ age_at bits j
  unfolding for_range
  fill-outside zero lo j bits h = refl
  fill-outside (suc n) lo j bits h =
      fill-outside n (lo + 1) j (fill lo bits) (omega arith)
      ∙ get_or-set_ne bits lo j (f lo) 0 (omega arith)

  fill-inside :
      (n lo j : ℕ) (bits : List ℕ)
      → lo ≤ j
      → j < lo + n
      → j < length bits
      → age_at (for_range n lo fill bits) j ≡ f j
  unfolding for_range
  fill-inside zero lo j bits p q r = absurd (omega arith)
  fill-inside (suc n) lo j bits p q r = elim (ℕ_discrete lo j) [
    | yes e ↦
        fill-outside n (lo + 1) j (fill lo bits) (inl (omega arith))
        ∙ rw e (get_or-set_self bits j (f j) 0 r)
    | no ne ↦
        fill-inside n (lo + 1) j (fill lo bits) (omega arith) (omega arith)
          (omega (arith, length-set bits lo (f lo)))
  ]

module _ (n : ℕ) (pos : 0 < n) (small : n ≤ u8_mod) where
  start : List ℕ
  start = for_range (log2 n) 0 (fill (λ i. i % u8_mod)) (replicate n 0)

  start-length : length start ≡ n
  unfolding start
  start-length = fill-length (λ i. i % u8_mod) (log2 n) 0 (replicate n 0) ∙ length-replicate n 0

  log2-lt_ways : log2 n < n
  log2-lt_ways = log2-lt n pos (omega arith)

  create-length : length (create n).lru_bits ≡ n
  unfolding create start
  create-length =
      fill-length (λ i. (i - log2 n) % u8_mod) (n - log2 n) (log2 n) start ∙ start-length

  created-exact : (j : ℕ) → j < log2 n → age_at (create n).lru_bits j ≡ j
  unfolding create start
  created-exact j h =
      fill-outside (λ i. (i - log2 n) % u8_mod) (n - log2 n) (log2 n) j start (inl h)
      ∙ fill-inside (λ i. i % u8_mod) (log2 n) 0 j (replicate n 0) (omega arith) (omega arith)
          (omega (arith, length-replicate n (zero), log2-lt_ways))
      ∙ omega (arith, log2-lt_ways)

  created-approx : (j : ℕ) → log2 n ≤ j → j < n → age_at (create n).lru_bits j ≡ j - log2 n
  unfolding create start
  created-approx j p q =
      fill-inside (λ i. (i - log2 n) % u8_mod) (n - log2 n) (log2 n) j start p (omega arith)
        (omega (arith, start-length))
      ∙ omega arith

  -- The constructor of a set of 1 to 256 ways leaves the ages of both segments permutations.
  pub create-IsLru : IsLru (create n)
  unfolding create
  create-IsLru = record {
    margin = omega (arith, log2-lt_ways);
    size = create-length;
    byte = small;
    exact = record {
      bounded = λ i p q. let k = created-exact i (omega arith) in omega (arith, k);
      distinct = λ i j p q r t h.
          let k = created-exact i (omega arith) in
          let l = created-exact j (omega arith) in omega (arith, k, l);
    };
    approx = record {
      bounded =
          λ i p q. let k = created-approx i p (omega (arith, log2-lt_ways)) in omega (arith, k);
      distinct = λ i j p q r t h.
          let k = created-approx i p (omega (arith, log2-lt_ways)) in
          let l = created-approx j r (omega (arith, log2-lt_ways)) in omega (arith, k, l);
    };
  }
