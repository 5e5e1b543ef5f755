-- ===== src/CacheCntlr/Update/Invalidation.antt =====
-- An invalidation reaches every cache before the controller that it starts at.
use mathlib.Core.List.{Memᴰ}
use mathlib.Core.Bool.{false≢true}
use sniper.Base.{
  ℕ, zero, suc, ◌≡◌, refl, ap, sym, subst, some_inj, Bool, true, false, not, ◌||◌, Option, none,
  some, List, [], ◌∷◌, if◌then◌else◌,
}
use sniper.Base.Results.{bind_inv, assert_inv}
use sniper.CacheCntlr.{
  invalid, ◌=s◌, state_of, Reason, Line, Config, DramInterface, Hierarchy, get_cache_state,
}
use sniper.CacheCntlr.Update.{
  Updated, passed_reason, given, check_updated, update_block, update_own, update_prevs,
  update_cache_block,
}
use sniper.CacheCntlr.Update.Frame.{Filled, Only}
use sniper.CacheCntlr.Update.Kept.{update_own-Only, update_prevs-Only, update_cache_block-Only}

module _ (t : ℕ → Config) where
  -- The second cache is the first one, or before it.
  pub data Below : ℕ → ℕ → Type 0 where
    itself : {k : ℕ} → Below k k
    before : {k i j : ℕ} → Memᴰ i (t k).prev_cache_cntlrs → Below i j → Below k j

module _ (d : DramInterface) (t : ℕ → Config) (address : ℕ) where
  ended_gone :
      (o : Option Line) (coherent : Bool)
      → coherent ≡ true
      → ((line : Line) → o ≡ some line → (line.cstate =s invalid) ≡ false)
      → ((state_of o =s invalid) || (state_of o =s invalid) || not coherent) ≡ true
      → o ≡ none
  ended_gone none coherent is_coherent full ended = refl
  ended_gone (some line) coherent is_coherent full ended =
      absurd (false≢true (rw (full line refl, is_coherent) at ended))

  -- The assertions of `updateCacheBlock` leave the line in the state INVALID, and no cache holds it so.
  update_own-gone :
      (n : ℕ) (h : Hierarchy d) (sibling_hit : Bool) (k : ℕ) (reason : Reason) (wanted : Bool)
      {r : Updated d}
      → Filled d address h
      → (t k).coherent ≡ true
      → update_own d t n h sibling_hit k address invalid reason wanted ≡ some r
      → (r.hier.cntlrs k).lines address ≡ none
  unfolding update_own check_updated
  update_own-gone n h sibling_hit k reason wanted {r} full coherent e =
      let filled =
        (update_own-Only d address t n h sibling_hit k invalid reason wanted e).filled full in
      let (r', own, e1) =
        bind_inv (update_block d t n h sibling_hit k address invalid reason wanted) e in
      let (ended, e2) =
        assert_inv
          ((get_cache_state d r'.hier k address =s invalid)
            || (get_cache_state d r'.hier k address =s invalid)
            || not (t k).coherent)
          e1 in
      let (_, e3) = assert_inv (if wanted then given d t r'.out else true) e2 in
      subst (λ (x : Updated d). (x.hier.cntlrs k).lines address ≡ none) (some_inj e3)
        (ended_gone ((r'.hier.cntlrs k).lines address) (t k).coherent coherent
          (subst (λ (x : Updated d). Filled d address x.hier) (sym (some_inj e3)) filled k) ended)

  hier_inj :
      {h h' : Hierarchy d} {l l' : ℕ} {hit hit' : Bool}
      → ◌≡◌ {A = Option (Hierarchy d × ℕ × Bool)} (some (h, l, hit)) (some (h', l', hit'))
      → h ≡ h'
  hier_inj e = ap (λ (x : Hierarchy d × ℕ × Bool). x.0) (some_inj e)

  pub prevs-gone :
      (update : ℕ → Hierarchy d → Option (Updated d))
      → ((i : ℕ) (g : Hierarchy d) (r : Updated d) → update i g ≡ some r → Only d address g r.hier)
      → (j : ℕ) → (ks : List ℕ) (i : ℕ) → Memᴰ i ks
      → ((g : Hierarchy d) (r : Updated d)
          → Filled d address g
          → update i g ≡ some r
          → (r.hier.cntlrs j).lines address ≡ none)
      → (h : Hierarchy d) {h' : Hierarchy d} {l : ℕ} {hit : Bool} → Filled d address h
      → update_prevs d t update ks h ≡ some (h', l, hit)
      → (h'.cntlrs j).lines address ≡ none
  unfolding update_prevs
  prevs-gone update each j [] i m gone h full e = elim m [ ]
  prevs-gone update each j (k ∷ ks) i m gone h {h'} full e =
      let (r, here, e1) = bind_inv (update k h) e in
      let ((h1, l1, hit1), rest, e2) = bind_inv (update_prevs d t update ks r.hier) e1 in
      subst (λ (x : Hierarchy d). (x.cntlrs j).lines address ≡ none) (hier_inj e2)
        (elim m [
          | Memᴰ.head same ↦
              (update_prevs-Only d address t update each ks r.hier rest).absent j
                (gone h r full (subst (λ (x : ℕ). update x h ≡ some r) (sym same) here))
          | Memᴰ.tail m' ↦
              prevs-gone update each j ks i m' gone r.hier ((each k h r here).filled full) rest
        ])

  pub prevs_step :
      (levels n : ℕ) (reason : Reason) (i : ℕ) (g : Hierarchy d) (r : Updated d)
      → update_cache_block d t levels n g i address invalid reason false ≡ some r
      → Only d address g r.hier
  prevs_step levels n reason i g r here =
      update_cache_block-Only d address t levels n g i invalid reason false here

  -- If no cache holds the line in the state INVALID, then after an updateCacheBlock to INVALID no
  -- coherent cache that is the controller's own, or before it, holds the line.
  pub update_cache_block-gone :
      (levels n : ℕ) (h : Hierarchy d) (k : ℕ) (reason : Reason) (wanted : Bool) {r : Updated d}
      (j : ℕ)
      → Filled d address h
      → Below t k j
      → (t j).coherent ≡ true
      → update_cache_block d t levels n h k address invalid reason wanted ≡ some r
      → (r.hier.cntlrs j).lines address ≡ none
  unfolding update_cache_block
  update_cache_block-gone levels zero h k reason wanted j full below coherent e = absurd (cc e)
  update_cache_block-gone levels (suc n) h k reason wanted j full itself coherent e =
      let ((h1, l, hit), prevs, e1) =
        bind_inv
          (update_prevs d t
            (λ j g.
              update_cache_block d t levels n g j address invalid (passed_reason reason) false)
            (t k).prev_cache_cntlrs h)
          e in
      update_own-gone levels h1 hit k reason wanted
        ((update_prevs-Only d address t _ (prevs_step levels n (passed_reason reason))
            (t k).prev_cache_cntlrs h prevs).filled
          full)
        coherent e1
  update_cache_block-gone levels (suc n) h k reason wanted j full (before m rest) coherent e =
      let ((h1, l, hit), prevs, e1) =
        bind_inv
          (update_prevs d t
            (λ j g.
              update_cache_block d t levels n g j address invalid (passed_reason reason) false)
            (t k).prev_cache_cntlrs h)
          e in
      (update_own-Only d address t levels h1 hit k invalid reason wanted e1).absent j (
        prevs-gone _ (prevs_step levels n (passed_reason reason)) j (t k).prev_cache_cntlrs _ m
          (λ g r full' here.
            update_cache_block-gone levels n g _ (passed_reason reason) false j full' rest coherent
              here)
          h full prevs)
