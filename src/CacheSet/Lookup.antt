-- ===== src/CacheSet/Lookup.antt =====
-- `find` and `invalidate`: the tags of a set as a partial map from tags to ways.
use sniper.Base.{
  ℕ, zero, suc, ◌≤◌, ◌<◌, ◌≡◌, ◌≢◌, refl, sym, ◌∙◌, ap, subst, ◌⊎◌, inl, inr, ℕ_discrete, Option,
  none, some, List, get_elem?, set, arith, Option-cases, ==-ne, ==_iff, get_elem?-set_ne,
  get_elem?-set_inv, some_inj, not_none,
}
use sniper.BlockInfo.{BlockInfo}
use sniper.CacheSet.{find_below}

module _ (b : BlockInfo) where
  -- No way below `n` from `i` on holds the tag.
  abbrev pub Absent : List b.Info → ℕ → ℕ → ℕ → Type 0
  Absent blocks i n tag =
      (j : ℕ) (x : b.Info) → i ≤ j → j < n → get_elem? blocks j ≡ some x → b.get_tag x ≢ tag

  -- Way `i` is the last below `n` that holds the tag, in block `x`.
  abbrev pub Found : List b.Info → ℕ → ℕ → ℕ → b.Info → Type 0
  Found blocks n tag i x =
      (i < n) × (get_elem? blocks i ≡ some x) × (b.get_tag x ≡ tag) × Absent blocks (suc i) n tag

  -- Way `j` does not hold the tag.
  abbrev pub NotAt : List b.Info → ℕ → ℕ → Type 0
  NotAt blocks tag j = (x : b.Info) → get_elem? blocks j ≡ some x → b.get_tag x ≢ tag

  Absent-suc :
      (blocks : List b.Info) (i n tag : ℕ)
      → NotAt blocks tag n
      → Absent blocks i n tag
      → Absent blocks i (suc n) tag
  Absent-suc blocks i n tag last a j y p q f = elim (ℕ_discrete j n) [
    | yes h ↦ last y (subst (λ k. get_elem? blocks k ≡ some y) h f)
    | no h ↦ a j y p (omega arith) f
  ]

  -- A step of the loop that passes over way `n`.
  find_below_pass :
      (blocks : List b.Info) (n tag : ℕ)
      → NotAt blocks tag n
      → find_below b blocks (suc n) tag ≡ find_below b blocks n tag
  unfolding find_below
  find_below_pass blocks n tag h = elim (Option-cases (get_elem? blocks n)) [
    | inl gap ↦ rw (gap, find_below)
    | inr (x, e) ↦ rw (e, find_below) (rw (==-ne (b.get_tag x) tag (h x e)))
  ]

  find_below_hit :
      (blocks : List b.Info) (n tag : ℕ) {x : b.Info}
      → get_elem? blocks n ≡ some x
      → b.get_tag x ≡ tag
      → find_below b blocks (suc n) tag ≡ some (n, x)
  unfolding find_below
  find_below_hit blocks n tag {x} e h = rw (e, find_below) (rw ((==_iff (b.get_tag x) tag).1 h))

  NotAt-cases :
      (blocks : List b.Info) (n tag : ℕ)
      → NotAt blocks tag n ⊎ ((x : b.Info) × (get_elem? blocks n ≡ some x) × (b.get_tag x ≡ tag))
  NotAt-cases blocks n tag = elim (Option-cases (get_elem? blocks n)) [
    | inl gap ↦ inl (λ x e t. not_none (sym gap ∙ e))
    | inr (x, e) ↦ elim (ℕ_discrete (b.get_tag x) tag) [
      | yes hit ↦ inr (x, e, hit)
      | no miss ↦ inl (λ y f t. miss (ap b.get_tag (some_inj (sym e ∙ f)) ∙ t))
    ]
  ]

  -- The loop returns the last way that holds the tag, and fails only if there is none.
  pub find_below_cases :
      (blocks : List b.Info) (n tag : ℕ)
      → ((find_below b blocks n tag ≡ none) × Absent blocks 0 n tag)
        ⊎ ((i : ℕ) × (x : b.Info) × (find_below b blocks n tag ≡ some (i, x))
            × Found blocks n tag i x)
  unfolding find_below
  find_below_cases blocks zero tag = inl (refl, λ j x p q. absurd (omega arith))
  find_below_cases blocks (suc n) tag = elim (NotAt-cases blocks n tag) [
    | inr (x, e, h) ↦ inr (
      n,
      x,
      find_below_hit blocks n tag e h,
      (omega arith, e, h, λ j y p q. absurd (omega arith)),
    )
    | inl pass ↦ elim (find_below_cases blocks n tag) [
      | inl (e, a) ↦ inl (find_below_pass blocks n tag pass ∙ e, Absent-suc blocks 0 n tag pass a)
      | inr (i, x, e, (lt, g, t, a)) ↦ inr (
        i,
        x,
        find_below_pass blocks n tag pass ∙ e,
        (omega arith, g, t, Absent-suc blocks (suc i) n tag pass a),
      )
    ]
  ]

  some_pair :
      {i k : ℕ} {x y : b.Info}
      → i ≡ k
      → x ≡ y
      → ◌≡◌ {A = Option (ℕ × b.Info)} (some (i, x)) (some (k, y))
  some_pair p q = cc

  -- So a way that is the only one to hold the tag is found.
  pub find_below_only :
      (blocks : List b.Info) (n tag k : ℕ) {x : b.Info}
      → k < n
      → get_elem? blocks k ≡ some x
      → b.get_tag x ≡ tag
      → ((j : ℕ) → j ≢ k → NotAt blocks tag j)
      → find_below b blocks n tag ≡ some (k, x)
  find_below_only blocks n tag k {x} lt e h alone = elim (find_below_cases blocks n tag) [
    | inl (_, a) ↦ absurd (a k x (omega arith) lt e h)
    | inr (i, y, f, (_, g, t, _)) ↦ elim (ℕ_discrete i k) [
      | yes here ↦ f ∙ some_pair here (some_inj (sym g ∙ ap (get_elem? blocks) here ∙ e))
      | no other ↦ absurd (alone i other y g t)
    ]
  ]

  -- A write to a way that neither held the tag nor does now is not seen.
  pub find_below-set_other :
      (blocks : List b.Info) (n tag k : ℕ) (new : b.Info)
      → NotAt blocks tag k
      → b.get_tag new ≢ tag
      → find_below b (set blocks k new) n tag ≡ find_below b blocks n tag
  unfolding find_below
  find_below-set_other blocks zero tag k new h g = refl
  find_below-set_other blocks (suc n) tag k new h g = elim (ℕ_discrete k n) [
    | yes e ↦
        find_below_pass (set blocks k new) n tag (λ x f t. g (
          ap b.get_tag (
            sym (
              get_elem?-set_inv blocks k new
                (subst (λ m. get_elem? (set blocks k new) m ≡ some x) (sym e) f)))
          ∙ t))
        ∙ find_below-set_other blocks n tag k new h g
        ∙ sym (find_below_pass blocks n tag (subst (NotAt blocks tag) e h))
    | no ne ↦ elim (NotAt-cases blocks n tag) [
      | inl pass ↦
          find_below_pass (set blocks k new) n tag
            (λ x f. pass x (sym (get_elem?-set_ne blocks k n new ne) ∙ f))
          ∙ find_below-set_other blocks n tag k new h g
          ∙ sym (find_below_pass blocks n tag pass)
      | inr (x, e, t) ↦
          find_below_hit (set blocks k new) n tag (get_elem?-set_ne blocks k n new ne ∙ e) t
          ∙ sym (find_below_hit blocks n tag e t)
    ]
  ]
