-- ===== src/CacheCntlr/Mshr/Cleanup.antt =====
-- `cleanupMshr` ends, and keeps the entries that end last.
use mathlib.Core.List.{Memᴰ}
use sniper.Base.{
  ℕ, zero, suc, ◌≤◌, ◌<◌, ◌+◌, ◌≡◌, ◌⊎◌, inl, inr, refl, sym, subst, false, some, List, ltb,
  if◌then◌else◌, length, arith, Bool-cases, ltb→lt,
}
use sniper.CacheCntlr.{MshrEntry}
use sniper.CacheCntlr.Mshr.{erase, find_min, cleanup_mshr}
use sniper.CacheCntlr.Mshr.Walk.{
  IsMap, erase-Mem, erase-IsMap, length-erase, Mem-erase, find_min-IsMin, found,
}

-- What is left: at most eight entries, and none that ends before one that was dropped.
pub record IsCleaned (m m' : List MshrEntry) : Type 0 where
  pub kept : (x : MshrEntry) → Memᴰ x m' → Memᴰ x m
  pub one_each : IsMap m'
  pub size : length m' ≡ (if ltb 8 (length m) then 8 else length m)
  pub last :
      (x : MshrEntry)
      → Memᴰ x m
      → Memᴰ x m' ⊎ ((y : MshrEntry) → Memᴰ y m' → x.t_complete ≤ y.t_complete)

unchanged_lem : (m : List MshrEntry) → IsMap m → ltb 8 (length m) ≡ false → IsCleaned m m
unchanged_lem m i small = record {
  kept = λ x h. h;
  one_each = i;
  size = rw small refl;
  last = λ x h. inl h;
}

-- One round of the loop before the others.
round_lem :
    (max_time : ℕ) (m m' : List MshrEntry)
    → IsMap m
    → 8 < length m
    → (x : MshrEntry) → Memᴰ x m
    → (find_min m 0 max_time ≡ (x.key, x.t_complete))
    → IsCleaned (erase x.key m) m'
    → IsCleaned m m'
round_lem max_time m m' i big x h at_min c =
    let shorter = length-erase x m i h in
    let least = λ (y : MshrEntry) (hy : Memᴰ y m).
      subst (λ (r : ℕ × ℕ). r.1 ≤ y.t_complete) at_min ((find_min-IsMin m 0 max_time).least y hy) in
    record {
      kept = λ y hy. erase-Mem x.key m y (c.kept y hy);
      one_each = c.one_each;
      size = let s = c.size in ground (arith, s, shorter, big);
      last = λ y hy. elim (Mem-erase x y m i h hy) [
        | inl same ↦ inr (λ z hz.
            subst (λ (w : MshrEntry). w.t_complete ≤ z.t_complete) (sym same)
              (least z (erase-Mem x.key m z (c.kept z hz))))
        | inr there ↦ c.last y there
      ];
    }

cleanup_mshr_fuel :
    (max_time fuel : ℕ) (m : List MshrEntry)
    → IsMap m
    → ((x : MshrEntry) → Memᴰ x m → x.t_complete < max_time)
    → length m ≤ fuel + 8
    → (m' : List MshrEntry) × (cleanup_mshr max_time fuel m ≡ some m') × IsCleaned m m'
unfolding cleanup_mshr
cleanup_mshr_fuel max_time zero m i ends enough =
    let small : ltb 8 (length m) ≡ false = ground (arith, enough) in
    (m, rw small refl, unchanged_lem m i small)
cleanup_mshr_fuel max_time (suc fuel) m i ends enough = elim (Bool-cases (ltb 8 (length m))) [
  | inl big ↦
      let lt = ltb→lt 8 (length m) big in
      let (x, h, at_min) = found max_time m (omega (arith, lt)) ends in
      let shorter = length-erase x m i h in
      let (m', e, c) =
        cleanup_mshr_fuel max_time fuel (erase x.key m) (erase-IsMap x.key m i)
          (λ y hy. ends y (erase-Mem x.key m y hy)) (omega (arith, shorter, enough)) in
      (m', rw (big, at_min) e, round_lem max_time m m' i lt x h at_min c)
  | inr small ↦ (m, rw small refl, unchanged_lem m i small)
]

-- If there is one miss for a line and every miss ends before the greatest time, cleanupMshr ends:
-- the eight last of the misses are left, or all of fewer, and none of them ends before one that was
-- dropped.
pub cleanup_mshr-IsCleaned :
    (max_time : ℕ) (m : List MshrEntry)
    → IsMap m
    → ((x : MshrEntry) → Memᴰ x m → x.t_complete < max_time)
    → (m' : List MshrEntry) × (cleanup_mshr max_time (length m) m ≡ some m') × IsCleaned m m'
cleanup_mshr-IsCleaned max_time m i ends =
    cleanup_mshr_fuel max_time (length m) m i ends (omega arith)
