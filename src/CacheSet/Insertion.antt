-- ===== src/CacheSet/Insertion.antt =====
-- `insert`: the new block is found at the victim's way, and the old one is handed back.
use sniper.Base.{
  ℕ, ◌<◌, ◌≡◌, ◌≢◌, refl, sym, ◌∙◌, ap, subst, inl, inr, Bool, true, false, Option, none, some,
  List, get_elem?, set, arith, length-set, if◌then◌else◌, some_inj, not_none, not_false, ℕ_discrete,
  get_elem?-set_inv, lt→ltb, lt_of_get_elem?, get_elem?-lt, get_elem?-set_self, get_elem?-set_ne,
}
use sniper.BlockInfo.{BlockInfo, BlockLaws}
use sniper.CacheSet.Policy.{ReplacementPolicy, PolicyLaws}
use sniper.CacheSet.Lookup.{NotAt, find_below_cases, find_below_only, find_below-set_other}
use sniper.CacheSet.Tags.{Unique-set}
use sniper.CacheSet.Invariant.{IsValid, store-IsValid, find-store}
use sniper.CacheSet.{
  CacheSet, Inserted, position, line_bytes, store, find_below, find, replace_way, insert,
  insert_address,
}

module _ (b : BlockInfo) (p : ReplacementPolicy b) {ways : ℕ} (laws : PolicyLaws b p ways)
    (block : BlockLaws b) where
  store-set :
      (at : ℕ) (buff : Option (List ℕ)) (s : CacheSet b p) (blocks : List b.Info)
      → ((store b p at buff (record s { blocks = blocks })).blocksize ≡ s.blocksize)
        × ((store b p at buff (record s { blocks = blocks })).bytes ≡ (store b p at buff s).bytes)
  unfolding store
  store-set at none s blocks = (refl, refl)
  store-set at (some x) s blocks = (refl, refl)

  -- Block `old` of way `k` gave way to a copy of `info`, and `r` reports it.
  pub record Replaced (s s' : CacheSet b p) (r : Inserted b) (k : ℕ) (info old : b.Info)
      (fill : Option (List ℕ)) (wanted : Bool) : Type 0 where
    pub was : get_elem? s.blocks k ≡ some old
    pub valid : IsValid b p laws s'
    pub placed : find b p s' (b.get_tag info) ≡ some (k, b.clone old info)
    pub others : (t : ℕ) → t ≢ b.get_tag info → t ≢ b.get_tag old → find b p s' t ≡ find b p s t
    pub size : s'.blocksize ≡ s.blocksize
    pub stored : s'.bytes ≡ (store b p (position b p s k 0) fill s).bytes
    pub eviction : r.eviction ≡ b.is_valid old
    pub handed :
        b.is_valid old ≡ true
        → (b.get_tag r.evict_block_info ≡ b.get_tag old)
          × (r.evict_buff ≡ (if wanted then line_bytes b p s k 0 s.blocksize else none))
          × (find b p s' (b.get_tag old) ≡ none)

  module _ (s : CacheSet b p) (k : ℕ) (info : b.Info) (fill : Option (List ℕ)) (evict : b.Info)
      (wanted : Bool) (v : IsValid b p laws s) (lt : k < ways) (live : b.get_tag info ≢ b.no_tag)
      (new : find b p s (b.get_tag info) ≡ none) where
    after : b.Info → CacheSet b p
    after old =
        store b p (position b p s k 0) fill
          (record s { blocks = set s.blocks k (b.clone old info) })

    report : b.Info → Inserted b
    report old =
        if b.is_valid old
        then record {
          eviction = true;
          evict_block_info = b.clone evict old;
          evict_buff = if wanted then line_bytes b p s k 0 s.blocksize else none;
        }
        else record { eviction = false; evict_block_info = evict; evict_buff = none }

    -- No way of the set holds the new block's tag.
    absent : (j : ℕ) → NotAt b s.blocks (b.get_tag info) j
    unfolding find
    absent j x e t = elim (find_below_cases b s.blocks s.associativity (b.get_tag info)) [
      | inl (_, a) ↦
          a j x (omega arith)
            (let h = lt_of_get_elem? s.blocks j e in omega (arith, h, v.size, v.assoc)) e t
      | inr (i, y, f, _) ↦ not_none (sym new ∙ f)
    ]

    find-after :
        (old : b.Info) (t : ℕ)
        → find b p (after old) t
          ≡ find_below b (set s.blocks k (b.clone old info)) s.associativity t
    unfolding after
    find-after old t =
        find-store b p laws (position b p s k 0) fill
          (record s { blocks = set s.blocks k (b.clone old info) }) t

    module _ (old : b.Info) (was : get_elem? s.blocks k ≡ some old) where
      copied : b.get_tag (b.clone old info) ≡ b.get_tag info
      copied = block.clone-get_tag old info

      after-IsValid : IsValid b p laws (after old)
      unfolding after
      after-IsValid = store-IsValid b p laws (position b p s k 0) fill _ (record {
        assoc = v.assoc;
        size = length-set s.blocks k (b.clone old info) ∙ v.size;
        sized = v.sized;
        fits = v.fits;
        policy = v.policy;
        unique =
            Unique-set b s.blocks k (b.clone old info) v.unique
              (λ _ j _ x e t. absent j x e (t ∙ copied));
      })

      after-rest :
          ((after old).blocksize ≡ s.blocksize)
          × ((after old).bytes ≡ (store b p (position b p s k 0) fill s).bytes)
      unfolding after
      after-rest = store-set (position b p s k 0) fill s (set s.blocks k (b.clone old info))

      placed_lem : find b p (after old) (b.get_tag info) ≡ some (k, b.clone old info)
      placed_lem =
          find-after old (b.get_tag info)
          ∙ find_below_only b (set s.blocks k (b.clone old info)) s.associativity (b.get_tag info) k
              (omega (arith, v.assoc))
              (get_elem?-set_self s.blocks k (b.clone old info) (omega (arith, v.size))) copied
              (λ j ne x e t.
                absent j x
                  (sym (get_elem?-set_ne s.blocks k j (b.clone old info) (λ h. ne (sym h))) ∙ e) t)

      others_lem :
          (t : ℕ) → t ≢ b.get_tag info → t ≢ b.get_tag old → find b p (after old) t ≡ find b p s t
      unfolding find
      others_lem t ni no_old =
          find-after old t
          ∙ find_below-set_other b s.blocks s.associativity t k (b.clone old info)
              (λ x e h. no_old (sym h ∙ ap b.get_tag (some_inj (sym e ∙ was))))
              (λ h. ni (sym h ∙ copied))

      evicted : b.is_valid old ≡ true → find b p (after old) (b.get_tag old) ≡ none
      evicted ok =
          find-after old (b.get_tag old)
          ∙ elim (find_below_cases b (set s.blocks k (b.clone old info)) s.associativity
              (b.get_tag old)) [
                | inl (e, _) ↦ e
                | inr (j, x, _, (_, e, t, _)) ↦ elim (ℕ_discrete k j) [
                  | yes h ↦
                      let copy = get_elem?-set_inv s.blocks k (b.clone old info) (
                        subst (λ m. get_elem? (set s.blocks k (b.clone old info)) m ≡ some x)
                          (sym h) e) in
                      absurd (absent k old was (sym t ∙ ap b.get_tag copy ∙ copied))
                  | no ne ↦ absurd (
                      ne (
                        v.unique k j old x was
                          (sym (get_elem?-set_ne s.blocks k j (b.clone old info) ne) ∙ e) (sym t)
                          (λ h. not_false (sym (block.not_valid-get_tag old h) ∙ ok))))
                ]
              ]

      replace_way-after : replace_way b p s k info fill evict wanted ≡ some (after old, report old)
      unfolding replace_way after report
      replace_way-after = rw (lt→ltb k s.associativity (omega (arith, v.assoc))) (rw was refl)

      handed_lem :
          b.is_valid old ≡ true
          → (b.get_tag (report old).evict_block_info ≡ b.get_tag old)
            × ((report old).evict_buff
                ≡ (if wanted then line_bytes b p s k 0 s.blocksize else none))
            × (find b p (after old) (b.get_tag old) ≡ none)
      unfolding report
      handed_lem ok = rw ok (block.clone-get_tag evict old, refl, evicted ok)

      report-eviction : (report old).eviction ≡ b.is_valid old
      unfolding report
      report-eviction = ground arith

    -- The block is placed, whatever is in the way; the assertion on the index holds.
    pub replace_way_lem :
        (old : b.Info) × (s' : CacheSet b p) × (r : Inserted b) × (replace_way b p s k info fill
            evict wanted
          ≡ some (s', r))
        × Replaced s s' r k info old fill wanted
    replace_way_lem =
        let (old, was) = get_elem?-lt s.blocks k (omega (arith, v.size)) in
        (
          old,
          after old,
          report old,
          replace_way-after old was,
          record {
            was = was;
            valid = after-IsValid old was;
            placed = placed_lem old was;
            others = others_lem old was;
            size = (after-rest old was).0;
            stored = (after-rest old was).1;
            eviction = report-eviction old was;
            handed = handed_lem old was;
          },
        )

  -- For a valid set and a tag that it does not hold, insert at the way that the policy gives up
  -- succeeds: the new block is found there, the set stays valid, every tag other than the new and
  -- the old one is found where it was, an eviction is reported exactly if the old block was valid,
  -- and then the old block's tag and bytes are handed back and its tag is gone.
  pub insert_lem :
      (is_block_approx : ℕ → ℕ → Bool) (s : CacheSet b p) (info : b.Info) (fill : Option (List ℕ))
      (evict : b.Info) (wanted : Bool) (k : ℕ) (q : p.State)
      → IsValid b p laws s
      → b.get_tag info ≢ b.no_tag
      → find b p s (b.get_tag info) ≡ none
      → p.replace s.policy s.blocks (is_block_approx (insert_address b p s info) s.blocksize)
        ≡ some (k, q)
      → (old : b.Info) × (s' : CacheSet b p) × (r : Inserted b) × (insert b p is_block_approx s info
            fill evict wanted
          ≡ some (s', r))
        × Replaced (record s { policy = q; approx_flag = false }) s' r k info old fill wanted
  unfolding insert
  insert_lem is_block_approx s info fill evict wanted k q v live new chosen =
      let (lt, inv) = laws.replace-Inv s.policy s.blocks _ v.policy chosen in
      let (old, s', r, e, placed) =
        replace_way_lem (record s { policy = q; approx_flag = false }) k info fill evict wanted
          (record {
            assoc = v.assoc;
            size = v.size;
            sized = v.sized;
            fits = v.fits;
            unique = v.unique;
            policy = inv;
          })
          lt live (unfold find in new) in
      (old, s', r, rw chosen e, placed)
