-- ===== src/CacheCntlr/Mshr/Walk.antt =====
-- The walk for the entry that ends first, and what its erasure leaves.
use mathlib.Core.List.{Memᴰ}
use sniper.Base.{
  ℕ, suc, ◌≤◌, ◌<◌, ◌≡◌, ◌⊎◌, inl, inr, refl, ap, ◌∙◌, sym, subst, false, List, [], ◌∷◌, ◌==◌, ltb,
  length, arith, Bool-cases, ltb→lt, ltb→le, ==-refl,
}
use sniper.CacheCntlr.{MshrEntry}
use sniper.CacheCntlr.Mshr.{erase, find_min}

-- The list has one entry for a key.
pub data IsMap : List MshrEntry → Type 0 where
  nothing : IsMap []
  entry :
      {e : MshrEntry} {m : List MshrEntry}
      → ((x : MshrEntry) → Memᴰ x m → (x.key == e.key) ≡ false)
      → IsMap m
      → IsMap (e ∷ m)

pub erase-Mem : (a : ℕ) (m : List MshrEntry) (x : MshrEntry) → Memᴰ x (erase a m) → Memᴰ x m
unfolding erase
erase-Mem a [] x h = h
erase-Mem a (e ∷ m) x h = elim (Bool-cases (e.key == a)) [
  | inl same ↦ Memᴰ.tail (erase-Mem a m x (rw same at h))
  | inr other ↦ elim (rw other at h) [
    | Memᴰ.head q ↦ Memᴰ.head q
    | Memᴰ.tail q ↦ Memᴰ.tail (erase-Mem a m x q)
  ]
]

pub erase-IsMap : (a : ℕ) (m : List MshrEntry) → IsMap m → IsMap (erase a m)
unfolding erase
erase-IsMap a [] i = i
erase-IsMap a (e ∷ m) (entry fresh i) = elim (Bool-cases (e.key == a)) [
  | inl same ↦ rw same (erase-IsMap a m i)
  | inr other ↦ rw other (entry (λ x h. fresh x (erase-Mem a m x h)) (erase-IsMap a m i))
]

erase-fresh :
    (a : ℕ) (m : List MshrEntry)
    → ((x : MshrEntry) → Memᴰ x m → (x.key == a) ≡ false)
    → erase a m ≡ m
unfolding erase
erase-fresh a [] fresh = refl
erase-fresh a (e ∷ m) fresh =
    rw (fresh e (Memᴰ.head refl)) (ap (λ l. e ∷ l) (erase-fresh a m (λ x h. fresh x (Memᴰ.tail h))))

pub length-erase :
    (x : MshrEntry) (m : List MshrEntry)
    → IsMap m
    → Memᴰ x m
    → suc (length (erase x.key m)) ≡ length m
unfolding erase
length-erase x [] i h = elim h [ ]
length-erase x (e ∷ m) (entry fresh i) (Memᴰ.head q) =
    subst (λ (y : MshrEntry). suc (length (erase y.key (e ∷ m))) ≡ suc (length m)) (sym q)
      (rw (==-refl e.key, erase-fresh e.key m fresh) refl)
length-erase x (e ∷ m) (entry fresh i) (Memᴰ.tail h) =
    let ne : (e.key == x.key) ≡ false = ground (arith, fresh x h) in
    rw ne (ap suc (length-erase x m i h))

pub Mem-erase :
    (x y : MshrEntry) (m : List MshrEntry)
    → IsMap m
    → Memᴰ x m
    → Memᴰ y m
    → (y ≡ x) ⊎ Memᴰ y (erase x.key m)
unfolding erase
Mem-erase x y [] i hx hy = elim hx [ ]
Mem-erase x y (e ∷ m) (entry fresh i) (Memᴰ.head p) (Memᴰ.head q) = inl (q ∙ sym p)
Mem-erase x y (e ∷ m) (entry fresh i) (Memᴰ.tail hx) (Memᴰ.head q) =
    let ne : (e.key == x.key) ≡ false = ground (arith, fresh x hx) in inr (rw ne (Memᴰ.head q))
Mem-erase x y (e ∷ m) (entry fresh i) (Memᴰ.head p) (Memᴰ.tail hy) = inr (
    subst (λ (z : MshrEntry). Memᴰ y (erase z.key (e ∷ m))) (sym p)
      (rw (==-refl e.key, erase-fresh e.key m fresh) hy))
Mem-erase x y (e ∷ m) (entry fresh i) (Memᴰ.tail hx) (Memᴰ.tail hy) =
    let ne : (e.key == x.key) ≡ false = ground (arith, fresh x hx) in
    elim (Mem-erase x y m i hx hy) [ inl same ↦ inl same | inr h ↦ inr (rw ne (Memᴰ.tail h)) ]

-- The walk ends at an entry that ends no later than any other, or where it started.
pub record IsMin (m : List MshrEntry) (a time : ℕ) (r : ℕ × ℕ) : Type 0 where
  pub source : (r ≡ (a, time)) ⊎ ((x : MshrEntry) × Memᴰ x m × (r ≡ (x.key, x.t_complete)))
  pub no_later : r.1 ≤ time
  pub least : (y : MshrEntry) → Memᴰ y m → r.1 ≤ y.t_complete

pub find_min-IsMin : (m : List MshrEntry) (a time : ℕ) → IsMin m a time (find_min m a time)
unfolding find_min
find_min-IsMin [] a time = record {
  source = inl refl;
  no_later = omega arith;
  least = λ y h. elim h [ ];
}
find_min-IsMin (e ∷ m) a time = elim (Bool-cases (ltb e.t_complete time)) [
  | inl earlier ↦
      let i = find_min-IsMin m e.key e.t_complete in
      let lt = ltb→lt e.t_complete time earlier in
      rw earlier (record {
        source = elim i.source [
          | inl start ↦ inr (e, Memᴰ.head refl, start)
          | inr (x, h, r) ↦ inr (x, Memᴰ.tail h, r)
        ];
        no_later = let le = i.no_later in omega (arith, le, lt);
        least = λ y h. elim h [
          | Memᴰ.head q ↦
              subst (λ (z : MshrEntry). (find_min m e.key e.t_complete).1 ≤ z.t_complete) (sym q)
                i.no_later
          | Memᴰ.tail h' ↦ i.least y h'
        ];
      })
  | inr later ↦
      let i = find_min-IsMin m a time in
      let le = ltb→le e.t_complete time later in
      rw later (record {
        source = elim i.source [ inl start ↦ inl start | inr (x, h, r) ↦ inr (x, Memᴰ.tail h, r) ];
        no_later = i.no_later;
        least = λ y h. elim h [
          | Memᴰ.head q ↦
              subst (λ (z : MshrEntry). (find_min m a time).1 ≤ z.t_complete) (sym q)
                (let le' = i.no_later in omega (arith, le, le'))
          | Memᴰ.tail h' ↦ i.least y h'
        ];
      })
]

-- The entry that the walk finds, when some entry ends.
pub found :
    (max_time : ℕ) (m : List MshrEntry)
    → 0 < length m
    → ((x : MshrEntry) → Memᴰ x m → x.t_complete < max_time)
    → (x : MshrEntry) × Memᴰ x m × (find_min m 0 max_time ≡ (x.key, x.t_complete))
found max_time [] some_entry ends = elim some_entry [ ]
found max_time (e ∷ m) some_entry ends =
    let i = find_min-IsMin (e ∷ m) 0 max_time in
    elim i.source [
      | inl start ↦
          let le = i.least e (Memᴰ.head refl) in
          let lt = ends e (Memᴰ.head refl) in
          let at_end = ap (λ (r : ℕ × ℕ). r.1) start in absurd (omega (arith, le, lt, at_end))
      | inr r ↦ r
    ]
