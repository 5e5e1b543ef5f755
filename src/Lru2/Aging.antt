-- ===== src/Lru2/Aging.antt =====
-- What the aging loop of `updateReplacementIndex` leaves in each way.
use sniper.Base.{
  ℕ, zero, suc, ◌+◌, ◌%◌, ◌≤◌, ◌<◌, ◌≡◌, ◌≢◌, refl, ◌∙◌, inl, ◌⊎◌, ℕ_discrete, List, ltb,
  if◌then◌else◌, length, for_range, u8_mod, arith, length-set, get_or-set_self, get_or-set_ne,
}
use sniper.Lru2.{age_at, age_way, touch_segment}

-- The age of way `i` once way `a` was used, if `i` stands in the segment of `a`.
abbrev pub aged : List ℕ → ℕ → ℕ → ℕ
aged bits a i = if ltb (age_at bits i) (age_at bits a) then age_at bits i + 1 else age_at bits i

-- Every age fits a byte.
abbrev pub Bytes : List ℕ → Type 0
Bytes bits = (i : ℕ) → age_at bits i < u8_mod

age_way-length : (a i : ℕ) (bits : List ℕ) → length (age_way a i bits) ≡ length bits
age_way-length a i bits = ground (arith, length-set bits i ((age_at bits i + 1) % u8_mod))

age_way-ne : (a i j : ℕ) (bits : List ℕ) → i ≢ j → age_at (age_way a i bits) j ≡ age_at bits j
age_way-ne a i j bits h = ground (arith, get_or-set_ne bits i j ((age_at bits i + 1) % u8_mod) 0 h)

-- A byte below another byte is below 255, so its increment does not wrap.
age_way_self :
    (a i : ℕ) (bits : List ℕ)
    → i < length bits
    → age_at bits a < u8_mod
    → age_at (age_way a i bits) i ≡ aged bits a i
age_way_self a i bits h v =
    ground (arith, get_or-set_self bits i ((age_at bits i + 1) % u8_mod) 0 h)

age_way-used : (a i : ℕ) (bits : List ℕ) → age_at (age_way a i bits) a ≡ age_at bits a
age_way-used a i bits = ground (arith, get_or-set_ne bits i a ((age_at bits i + 1) % u8_mod) 0)

pub age-length :
    (n lo a : ℕ) (bits : List ℕ) → length (for_range n lo (age_way a) bits) ≡ length bits
unfolding for_range
age-length zero lo a bits = refl
age-length (suc n) lo a bits =
    age-length n (lo + 1) a (age_way a lo bits) ∙ age_way-length a lo bits

pub age-outside :
    (n lo a j : ℕ) (bits : List ℕ)
    → (j < lo) ⊎ (lo + n ≤ j)
    → age_at (for_range n lo (age_way a) bits) j ≡ age_at bits j
unfolding for_range
age-outside zero lo a j bits h = refl
age-outside (suc n) lo a j bits h =
    age-outside n (lo + 1) a j (age_way a lo bits) (omega arith)
    ∙ age_way-ne a lo j bits (omega arith)

pub age-inside :
    (n lo a j : ℕ) (bits : List ℕ)
    → lo ≤ j
    → j < lo + n
    → j < length bits
    → age_at bits a < u8_mod
    → age_at (for_range n lo (age_way a) bits) j ≡ aged bits a j
unfolding for_range
age-inside zero lo a j bits p q r v = absurd (omega arith)
age-inside (suc n) lo a j bits p q r v = elim (ℕ_discrete lo j) [
  | yes e ↦
      age-outside n (lo + 1) a j (age_way a lo bits) (inl (omega arith))
      ∙ rw e (age_way_self a j bits r v)
  | no ne ↦
      age-inside n (lo + 1) a j (age_way a lo bits) (omega arith) (omega arith)
        (omega (arith, age_way-length a lo bits)) (omega (arith, age_way-used a lo bits))
      ∙ ground (arith, age_way-used a lo bits, age_way-ne a lo j bits ne)
]

module _ (n lo a : ℕ) (bits : List ℕ) where
  pub touch_segment-length : length (touch_segment n lo a bits) ≡ length bits
  unfolding touch_segment
  touch_segment-length = length-set (for_range n lo (age_way a) bits) a 0 ∙ age-length n lo a bits

  pub touch_segment-used : a < length bits → age_at (touch_segment n lo a bits) a ≡ 0
  unfolding touch_segment
  touch_segment-used h =
      get_or-set_self (for_range n lo (age_way a) bits) a 0 0
        (omega (arith, age-length n lo a bits))

  pub touch_segment-inside :
      (j : ℕ)
      → lo ≤ j
      → j < lo + n
      → j < length bits
      → a ≢ j
      → age_at bits a < u8_mod
      → age_at (touch_segment n lo a bits) j ≡ aged bits a j
  unfolding touch_segment
  touch_segment-inside j p q r h v =
      get_or-set_ne (for_range n lo (age_way a) bits) a j 0 0 h ∙ age-inside n lo a j bits p q r v

  pub touch_segment-outside :
      (j : ℕ)
      → (j < lo) ⊎ (lo + n ≤ j)
      → a ≢ j
      → age_at (touch_segment n lo a bits) j ≡ age_at bits j
  unfolding touch_segment
  touch_segment-outside j h k =
      get_or-set_ne (for_range n lo (age_way a) bits) a j 0 0 k ∙ age-outside n lo a j bits h
