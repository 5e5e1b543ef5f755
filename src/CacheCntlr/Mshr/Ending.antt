-- ===== src/CacheCntlr/Mshr/Ending.antt =====
-- Registers in which every miss ends, and the registration of one more miss.
use mathlib.Core.List.{Memᴰ}
use sniper.Base.{
  ℕ, ◌<◌, ◌≡◌, ◌⊎◌, inl, inr, sym, subst, false, List, [], ◌∷◌, ◌==◌, arith, Bool-cases,
}
use sniper.CacheCntlr.{MshrEntry}
use sniper.CacheCntlr.Mshr.{set_mshr}
use sniper.CacheCntlr.Mshr.Walk.{IsMap, nothing, entry}

-- The miss registers: one for a line, and each ends before `max_time`.
pub record IsEnding (max_time : ℕ) (m : List MshrEntry) : Type 0 where
  pub one_each : IsMap m
  pub ends : (x : MshrEntry) → Memᴰ x m → x.t_complete < max_time

Mem-set_mshr :
    (e : MshrEntry) (m : List MshrEntry) (x : MshrEntry)
    → Memᴰ x (set_mshr e m)
    → (x ≡ e) ⊎ Memᴰ x m
unfolding set_mshr
Mem-set_mshr e [] x (Memᴰ.head q) = inl q
Mem-set_mshr e [] x (Memᴰ.tail h) = elim h [ ]
Mem-set_mshr e (y ∷ m) x h = elim (Bool-cases (y.key == e.key)) [
  | inl same ↦ elim (rw same at h) [ Memᴰ.head q ↦ inl q | Memᴰ.tail h' ↦ inr (Memᴰ.tail h') ]
  | inr other ↦ elim (rw other at h) [
    | Memᴰ.head q ↦ inr (Memᴰ.head q)
    | Memᴰ.tail h' ↦ elim (Mem-set_mshr e m x h') [ inl q ↦ inl q | inr h'' ↦ inr (Memᴰ.tail h'') ]
  ]
]

set_mshr-IsMap : (e : MshrEntry) (m : List MshrEntry) → IsMap m → IsMap (set_mshr e m)
unfolding set_mshr
set_mshr-IsMap e [] i = entry (λ x h. elim h [ ]) nothing
set_mshr-IsMap e (y ∷ m) (entry fresh i) = elim (Bool-cases (y.key == e.key)) [
  | inl same ↦ rw same (entry (λ x h. ground (arith, fresh x h, same)) i)
  | inr other ↦ rw other (
      entry
        (λ x h. elim (Mem-set_mshr e m x h) [
          | inl q ↦
              subst (λ (z : MshrEntry). (z.key == y.key) ≡ false) (sym q) (ground (arith, other))
          | inr h' ↦ fresh x h'
        ])
        (set_mshr-IsMap e m i))
]

-- A miss that ends keeps the registers ending.
pub set_mshr-IsEnding :
    (max_time : ℕ) (e : MshrEntry) (m : List MshrEntry)
    → e.t_complete < max_time
    → IsEnding max_time m
    → IsEnding max_time (set_mshr e m)
set_mshr-IsEnding max_time e m lt i = record {
  one_each = set_mshr-IsMap e m i.one_each;
  ends = λ x h. elim (Mem-set_mshr e m x h) [
    | inl q ↦ subst (λ (z : MshrEntry). z.t_complete < max_time) (sym q) lt
    | inr h' ↦ i.ends x h'
  ];
}
