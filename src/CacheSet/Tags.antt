-- ===== src/CacheSet/Tags.antt =====
-- The tags of a set: no tag stands in two ways, `find` reads them as a map, and `invalidate` removes
-- one entry of it.
use sniper.Base.{
  ℕ, ◌≡◌, ◌≢◌, refl, sym, ◌∙◌, ap, subst, ◌↔◌, inl, inr, ℕ_discrete, false, none, some, List,
  get_elem?, set, length, arith, some_inj, not_none, get_elem?-set_ne, get_elem?-set_inv,
  lt_of_get_elem?,
}
use sniper.BlockInfo.{BlockInfo, BlockLaws}
use sniper.CacheSet.Policy.{ReplacementPolicy}
use sniper.CacheSet.Lookup.{NotAt, find_below_cases, find_below_only, find_below-set_other}
use sniper.CacheSet.{CacheSet, find_below, find, invalidate}

module _ (b : BlockInfo) where
  -- A tag that stands for a block stands in one way at most.
  abbrev pub Unique : List b.Info → Type 0
  Unique blocks =
      (i j : ℕ) (x y : b.Info)
      → get_elem? blocks i ≡ some x
      → get_elem? blocks j ≡ some y
      → b.get_tag x ≡ b.get_tag y
      → b.get_tag x ≢ b.no_tag
      → i ≡ j

  pub Unique-elsewhere :
      (blocks : List b.Info) (i tag : ℕ) {x : b.Info}
      → Unique blocks
      → get_elem? blocks i ≡ some x
      → b.get_tag x ≡ tag
      → tag ≢ b.no_tag
      → (j : ℕ) → j ≢ i
      → NotAt b blocks tag j
  Unique-elsewhere blocks i tag {x} u e t n j ne y f t' =
      ne (sym (u i j x y e f (t ∙ sym t') (λ h. n (sym t ∙ h))))

  -- A way may take a block whose tag no other way holds, or the tag of no block.
  pub Unique-set :
      (blocks : List b.Info) (k : ℕ) (new : b.Info)
      → Unique blocks
      → (b.get_tag new ≢ b.no_tag → (j : ℕ) → j ≢ k → NotAt b blocks (b.get_tag new) j)
      → Unique (set blocks k new)
  Unique-set blocks k new u fresh i j x y e f t n = elim (ℕ_discrete k i) [
    | yes ki ↦ elim (ℕ_discrete k j) [
      | yes kj ↦ sym ki ∙ kj
      | no kj ↦
          let is_new =
            get_elem?-set_inv blocks k new
              (subst (λ m. get_elem? (set blocks k new) m ≡ some x) (sym ki) e) in
          absurd (
            fresh (λ h. n (ap b.get_tag is_new ∙ h)) j (λ h. kj (sym h)) y
              (sym (get_elem?-set_ne blocks k j new kj) ∙ f) (sym t ∙ ap b.get_tag is_new))
    ]
    | no ki ↦ elim (ℕ_discrete k j) [
      | yes kj ↦
          let is_new =
            get_elem?-set_inv blocks k new
              (subst (λ m. get_elem? (set blocks k new) m ≡ some y) (sym kj) f) in
          absurd (
            fresh (λ h. n (t ∙ ap b.get_tag is_new ∙ h)) i (λ h. ki (sym h)) x
              (sym (get_elem?-set_ne blocks k i new ki) ∙ e) (t ∙ ap b.get_tag is_new))
      | no kj ↦
          u i j x y (sym (get_elem?-set_ne blocks k i new ki) ∙ e)
            (sym (get_elem?-set_ne blocks k j new kj) ∙ f) t n
    ]
  ]

module _ (b : BlockInfo) (p : ReplacementPolicy b) (s : CacheSet b p)
    (size : length s.blocks ≡ s.associativity) (unique : Unique b s.blocks) where
  -- In a set where no block's tag stands twice, find returns a way and its block exactly if the
  -- block stands there and has the tag.
  pub find_iff :
      (tag i : ℕ) (x : b.Info)
      → tag ≢ b.no_tag
      → (find b p s tag ≡ some (i, x)) ↔ ((get_elem? s.blocks i ≡ some x) × (b.get_tag x ≡ tag))
  unfolding find
  find_iff tag i x n = (sound, complete)
    where
      sound : find b p s tag ≡ some (i, x) → (get_elem? s.blocks i ≡ some x) × (b.get_tag x ≡ tag)
      sound e = elim (find_below_cases b s.blocks s.associativity tag) [
        | inl (f, _) ↦ not_none (sym f ∙ e)
        | inr (j, y, f, (_, g, t, _)) ↦
            let same = some_inj (sym f ∙ e) in
            (
              subst (λ q. get_elem? s.blocks q.0 ≡ some q.1) same g,
              ap (λ q. b.get_tag q.1) (sym same) ∙ t,
            )
      ]

      complete :
          (get_elem? s.blocks i ≡ some x) × (b.get_tag x ≡ tag) → find b p s tag ≡ some (i, x)
      complete (e, t) =
          find_below_only b s.blocks s.associativity tag i
            (let lt = lt_of_get_elem? s.blocks i e in omega (arith, lt)) e t
            (Unique-elsewhere b s.blocks i tag unique e t n)

  module _ (laws : BlockLaws b) (tag : ℕ) (n : tag ≢ b.no_tag) where
    -- In a set where no block's tag stands twice, invalidate returns false exactly if the tag is
    -- not found; afterwards the tag is not found, every other block's tag is found as before, and
    -- no tag stands twice.
    pub invalidate_lem :
        let s' = (invalidate b p s tag).0 in
        (((invalidate b p s tag).1 ≡ false) ↔ (find b p s tag ≡ none))
        × (find b p s' tag ≡ none)
        × ((other : ℕ) → other ≢ tag → other ≢ b.no_tag → find b p s' other ≡ find b p s other)
        × Unique b s'.blocks
    unfolding invalidate find
    invalidate_lem = elim (find_below_cases b s.blocks s.associativity tag) [
      | inl (e, a) ↦ rw (e, invalidate) ((λ _. refl, λ _. refl), e, λ other _ _. refl, unique)
      | inr (i, x, e, (lt, g, t, _)) ↦
          rw (e, invalidate)
            (
              (λ h. cc h, λ h. cc h),
              gone i x g t,
              λ other ne live. kept i x g t other ne live,
              Unique-set b s.blocks i (b.invalidate x) unique
                  (λ live. absurd (live (laws.invalidate-get_tag x))),
            )
    ]
      where
        gone :
            (i : ℕ) (x : b.Info)
            → get_elem? s.blocks i ≡ some x
            → b.get_tag x ≡ tag
            → find_below b (set s.blocks i (b.invalidate x)) s.associativity tag ≡ none
        gone i x g t =
            elim (find_below_cases b (set s.blocks i (b.invalidate x)) s.associativity tag) [
              | inl (e, _) ↦ e
              | inr (j, y, _, (_, h, t', _)) ↦ elim (ℕ_discrete i j) [
                | yes here ↦
                    let new = get_elem?-set_inv s.blocks i (b.invalidate x) (
                      subst (λ m. get_elem? (set s.blocks i (b.invalidate x)) m ≡ some y) (sym here)
                        h) in
                    absurd (n (sym t' ∙ ap b.get_tag new ∙ laws.invalidate-get_tag x))
                | no other ↦ absurd (
                    Unique-elsewhere b s.blocks i tag unique g t n j (λ m. other (sym m)) y
                      (sym (get_elem?-set_ne s.blocks i j (b.invalidate x) other) ∙ h) t')
              ]
            ]

        kept :
            (i : ℕ) (x : b.Info)
            → get_elem? s.blocks i ≡ some x
            → b.get_tag x ≡ tag
            → (other : ℕ) → other ≢ tag
            → other ≢ b.no_tag
            → find_below b (set s.blocks i (b.invalidate x)) s.associativity other
              ≡ find_below b s.blocks s.associativity other
        kept i x g t other ne live =
            find_below-set_other b s.blocks s.associativity other i (b.invalidate x)
              (λ y h t'. ne (sym t' ∙ ap b.get_tag (some_inj (sym h ∙ g)) ∙ t))
              (λ h. live (sym h ∙ laws.invalidate-get_tag x))
