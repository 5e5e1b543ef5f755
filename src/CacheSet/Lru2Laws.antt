-- ===== src/CacheSet/Lru2Laws.antt =====
-- `CacheSetLRU2` keeps the laws of a replacement policy.
use sniper.Base.{
  ℕ, ◌<◌, ◌≡◌, sym, ◌∙◌, inl, inr, ap, subst, Bool, true, false, some, List, ltb, Bool-cases, arith,
  some_inj, not_none, ltb→lt, ltb→le,
}
use sniper.BlockInfo.{BlockInfo}
use sniper.Lru2.{Lru2, update_replacement_index, get_replacement_index}
use sniper.Lru2.Segments.{IsLru, update_replacement_index-IsLru, associativity-update}
use sniper.Lru2.Replacement.{
  Victim, empty, oldest, first_way, end_way, get_replacement_index-Victim,
  get_replacement_index-none,
}
use sniper.CacheSet.Policy.{PolicyLaws, lru2}

module _ (b : BlockInfo) where
  Victim-lt :
      (s : Lru2) (blocks : List b.Info) (f : Bool) (k : ℕ)
      → IsLru s
      → Victim b blocks s (first_way s f) (end_way s f) k
      → k < s.associativity
  Victim-lt s blocks true k v (empty _ q _ _) = q
  Victim-lt s blocks true k v (oldest _ q _ _) = q
  Victim-lt s blocks false k v (empty _ q _ _) = omega (arith, v.margin)
  Victim-lt s blocks false k v (oldest _ q _ _) = omega (arith, v.margin)

  replaced :
      (s : Lru2) (blocks : List b.Info) (f : Bool) {k : ℕ} {s' : Lru2}
      → IsLru s
      → get_replacement_index b s blocks f ≡ some (k, s')
      → (k < s.associativity) × (s' ≡ update_replacement_index s k)
  replaced s blocks f v e = elim (Bool-cases (ltb (first_way s f) (end_way s f))) [
    | inr le ↦ not_none (
        sym ((get_replacement_index-none b blocks s f).1 (ltb→le (first_way s f) (end_way s f) le))
        ∙ e)
    | inl lt ↦
        let (j, e', w) =
          get_replacement_index-Victim b blocks s f (ltb→lt (first_way s f) (end_way s f) lt) in
        let same = some_inj (sym e ∙ e') in
        (
          subst (λ m. m < s.associativity) (sym (ap (λ q. q.0) same)) (Victim-lt s blocks f j v w),
          ap (λ q. q.1) same ∙ ap (update_replacement_index s) (sym (ap (λ q. q.0) same)),
        )
  ]

  pub updated :
      (s : Lru2) (ways a : ℕ)
      → a < ways
      → IsLru s × (s.associativity ≡ ways)
      → IsLru (update_replacement_index s a) × ((update_replacement_index s a).associativity ≡ ways)
  updated s ways a h v =
      (update_replacement_index-IsLru s a (omega arith) v.0, associativity-update s a ∙ v.1)

  pub replaced_ways :
      (s : Lru2) (ways : ℕ) (blocks : List b.Info) (f : Bool) (k : ℕ) (s' : Lru2)
      → IsLru s × (s.associativity ≡ ways)
      → get_replacement_index b s blocks f ≡ some (k, s')
      → (k < ways) × (IsLru s' × (s'.associativity ≡ ways))
  replaced_ways s ways blocks f k s' v e =
      let (lt, same) = replaced s blocks f v.0 e in
      (
        omega arith,
        subst (λ q. IsLru q × (q.associativity ≡ ways)) (sym same)
            (updated s ways k (omega arith) v),
      )

  -- Every way that it gives up lies in the set, and the ages stay permutations.
  abbrev pub lru2_laws : (ways : ℕ) → PolicyLaws b (lru2 b) ways
  lru2_laws ways = record {
    Inv = λ s. IsLru s × (s.associativity ≡ ways);
    update-Inv = λ s a h v. updated s ways a h v;
    replace-Inv = λ s blocks f {k} {s'} v e. replaced_ways s ways blocks f k s' v e;
  }
