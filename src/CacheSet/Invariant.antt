-- ===== src/CacheSet/Invariant.antt =====
-- What every operation keeps of a cache set: its sizes, its policy's invariant, and distinct tags.
use mathlib.Core.Option
use sniper.Base.{
  not_none, some_inj, sym, ℕ, ◌+◌, ◌*◌, ◌%◌, ◌≤◌, ◌<◌, ◌≡◌, ◌≢◌, refl, ◌∙◌, ap, ◌⊎◌, inl, inr, Bool,
  true, false, Option, none, some, List, length, arith, leb, u32_mod, length-set, Bool-cases,
  Option-cases, if◌then◌else◌, replicate, length-replicate, get_elem?-replicate,
}
use sniper.BlockInfo.{BlockInfo, BlockLaws, CacheType}
use sniper.CacheSet.Policy.{ReplacementPolicy, PolicyLaws}
use sniper.CacheSet.Bytes.{write_bytes, write_bytes-length}
use sniper.CacheSet.Lookup.{find_below_cases}
use sniper.CacheSet.Tags.{Unique, Unique-set}
use sniper.CacheSet.{
  CacheSet, create, line_bytes, position, touch_if, store, read_line, write_line, invalidate, find,
  find_below,
}

-- A search reads the blocks only.
pub find_agree :
    (b : BlockInfo) (p : ReplacementPolicy b) (s s' : CacheSet b p) (t : ℕ)
    → s'.blocks ≡ s.blocks
    → s'.associativity ≡ s.associativity
    → find b p s' t ≡ find b p s t
unfolding find
find_agree b p s s' t e f = λ i. find_below b (e i) (f i) t

-- The bytes, if there are any, are those of `n` blocks.
abbrev pub Sized : ℕ → Option (List ℕ) → Type 0
Sized n none = Unit {0}
Sized n (some bytes) = length bytes ≡ n

module _ (b : BlockInfo) (p : ReplacementPolicy b) {ways : ℕ} (laws : PolicyLaws b p ways) where
  pub record IsValid (s : CacheSet b p) : Type 0 where
    pub assoc : s.associativity ≡ ways
    pub size : length s.blocks ≡ ways
    pub sized : Sized (s.associativity * s.blocksize) s.bytes
    pub fits : s.associativity * s.blocksize < u32_mod
    pub unique : Unique b s.blocks
    pub policy : laws.Inv s.policy

  touch_if-IsValid :
      (f : Bool) (i : ℕ) (s : CacheSet b p) → i < ways → IsValid s → IsValid (touch_if b p f i s)
  unfolding touch_if
  touch_if-IsValid true i s h v = record {
    assoc = v.assoc;
    size = v.size;
    sized = v.sized;
    fits = v.fits;
    unique = v.unique;
    policy = laws.update-Inv s.policy i h v.policy;
  }
  touch_if-IsValid false i s h v = v

  touch_if-rest :
      (f : Bool) (i : ℕ) (s : CacheSet b p)
      → ((touch_if b p f i s).bytes ≡ s.bytes)
        × ((touch_if b p f i s).blocks ≡ s.blocks)
        × ((touch_if b p f i s).blocksize ≡ s.blocksize)
  unfolding touch_if
  touch_if-rest true i s = (refl, refl, refl)
  touch_if-rest false i s = (refl, refl, refl)

  store-blocks :
      (at : ℕ) (buff : Option (List ℕ)) (s : CacheSet b p)
      → ((store b p at buff s).blocks ≡ s.blocks) × ((store b p at buff s).blocksize ≡ s.blocksize)
  unfolding store
  store-blocks at none s = (refl, refl)
  store-blocks at (some buff) s = (refl, refl)

  pub find-store :
      (at : ℕ) (buff : Option (List ℕ)) (s : CacheSet b p) (t : ℕ)
      → find b p (store b p at buff s) t ≡ find_below b s.blocks s.associativity t
  unfolding find store
  find-store at none s t = refl
  find-store at (some buff) s t = refl

  Sized-write :
      (n at : ℕ) (buff : List ℕ) (bytes : Option (List ℕ))
      → Sized n bytes
      → Sized n (Option.map (write_bytes at buff) bytes)
  Sized-write n at buff none h = tt
  Sized-write n at buff (some bytes) h = write_bytes-length at buff bytes ∙ h

  pub store-IsValid :
      (at : ℕ) (buff : Option (List ℕ)) (s : CacheSet b p)
      → IsValid s
      → IsValid (store b p at buff s)
  unfolding store
  store-IsValid at none s v = v
  store-IsValid at (some buff) s v = record {
    assoc = v.assoc;
    size = v.size;
    fits = v.fits;
    unique = v.unique;
    policy = v.policy;
    sized = Sized-write (s.associativity * s.blocksize) at buff s.bytes v.sized;
  }

  -- In a valid set, a read of a way of the set whose end is below 2 ^ 32 fails its assertion only
  -- if it passes the line's end, and otherwise ends inside the line, returns the line's bytes if
  -- they are wanted, and keeps the set valid with its bytes, blocks and line size.
  pub read_line_lem :
      (s : CacheSet b p) (i offset : ℕ) (wanted : Bool) (n : ℕ) (update : Bool)
      → i < ways
      → offset + n < u32_mod
      → IsValid s
      → ((read_line b p s i offset wanted n update ≡ none) × (s.blocksize < offset + n))
        ⊎ ((s' : CacheSet b p) × (read_line b p s i offset wanted n update
              ≡ some (s', if wanted then line_bytes b p s i offset n else none))
            × (offset + n ≤ s.blocksize)
            × IsValid s'
            × (s'.bytes ≡ s.bytes)
            × (s'.blocks ≡ s.blocks)
            × (s'.blocksize ≡ s.blocksize))
  unfolding read_line
  read_line_lem s i offset wanted n update hi word v =
      elim (Bool-cases (leb ((offset + n) % u32_mod) s.blocksize)) [
        | inl inside ↦
            let rest = touch_if-rest update i s in
            inr (
              touch_if b p update i s,
              rw inside refl,
              ground arith,
              touch_if-IsValid update i s hi v,
              rest.0,
              rest.1,
              rest.2,
            )
        | inr past ↦ inl (rw past refl, ground arith)
      ]

  -- In a valid set, a write to a way of the set whose end is below 2 ^ 32 fails its assertion only
  -- if it passes the line's end, and otherwise ends inside the line, puts the bytes at the line's
  -- position, and keeps the set valid with its blocks and line size.
  pub write_line_lem :
      (s : CacheSet b p) (i offset : ℕ) (buff : Option (List ℕ)) (n : ℕ) (update : Bool)
      → i < ways
      → offset + n < u32_mod
      → IsValid s
      → ((write_line b p s i offset buff n update ≡ none) × (s.blocksize < offset + n))
        ⊎ ((s' : CacheSet b p) × (write_line b p s i offset buff n update ≡ some s')
            × (offset + n ≤ s.blocksize)
            × IsValid s'
            × (s'.bytes ≡ (store b p (position b p s i offset) buff s).bytes)
            × (s'.blocks ≡ s.blocks)
            × (s'.blocksize ≡ s.blocksize))
  unfolding write_line
  write_line_lem s i offset buff n update hi word v =
      elim (Bool-cases (leb ((offset + n) % u32_mod) s.blocksize)) [
        | inl inside ↦
            let at = position b p s i offset in
            let rest = touch_if-rest update i (store b p at buff s) in
            inr (
              touch_if b p update i (store b p at buff s),
              rw inside refl,
              ground arith,
              touch_if-IsValid update i (store b p at buff s) hi (store-IsValid at buff s v),
              rest.0,
              rest.1 ∙ (store-blocks at buff s).0,
              rest.2 ∙ (store-blocks at buff s).1,
            )
        | inr past ↦ inl (rw past refl, ground arith)
      ]

  -- A new set is valid if a new block has the tag of no block, the set's bytes are fewer than 2 ^
  -- 32, and its policy starts in order.
  pub create-IsValid :
      (faults : Bool) (t : CacheType) (blocksize : ℕ) (q : p.State)
      → b.get_tag (b.create t) ≡ b.no_tag
      → ways * blocksize < u32_mod
      → laws.Inv q
      → IsValid (create b p faults t ways blocksize q)
  unfolding create
  create-IsValid faults t blocksize q blank fits inv = record {
    assoc = refl;
    size = length-replicate ways (b.create t);
    sized = zeros faults;
    fits = fits;
    unique = λ i j x y e f _ live.
        absurd (live (ap b.get_tag (get_elem?-replicate ways (b.create t) i e) ∙ blank));
    policy = inv;
  }
    where
      zeros :
          (f : Bool)
          → Sized
              (ways * blocksize)
              (if f then some (replicate (ways * blocksize % u32_mod) 0) else none)
      zeros true = length-replicate (ways * blocksize % u32_mod) 0 ∙ omega arith
      zeros false = tt

  -- invalidate of a block's tag keeps a set valid.
  pub invalidate-IsValid :
      (s : CacheSet b p) (tag : ℕ)
      → BlockLaws b
      → tag ≢ b.no_tag
      → IsValid s
      → IsValid (invalidate b p s tag).0
  unfolding invalidate
  invalidate-IsValid s tag block n v =
      elim (Option-cases (find_below b s.blocks s.associativity tag)) [
        | inl e ↦ rw (e, invalidate) v
        | inr ((i, x), e) ↦
            rw (e, invalidate)
              (record {
                assoc = v.assoc;
                size = length-set s.blocks i (b.invalidate x) ∙ v.size;
                sized = v.sized;
                fits = v.fits;
                policy = v.policy;
                unique =
                    Unique-set b s.blocks i (b.invalidate x) v.unique
                      (λ live. absurd (live (block.invalidate-get_tag x)));
              })
      ]

  -- What is found lies in the set.
  pub find-lt :
      (s : CacheSet b p) (t : ℕ) {i : ℕ} {x : b.Info}
      → IsValid s
      → find b p s t ≡ some (i, x)
      → i < ways
  unfolding find
  find-lt s t {i} v e = elim (find_below_cases b s.blocks s.associativity t) [
    | inl (gone, _) ↦ not_none (sym gone ∙ e)
    | inr (j, y, here, (lt, _, _, _)) ↦
        let same = ap (λ q. q.0) (some_inj (sym here ∙ e)) in omega (arith, same, lt, v.assoc)
  ]

  pub invalidate-rest :
      (s : CacheSet b p) (tag : ℕ)
      → ((invalidate b p s tag).0.bytes ≡ s.bytes)
        × ((invalidate b p s tag).0.blocksize ≡ s.blocksize)
  unfolding invalidate
  invalidate-rest s tag = elim (Option-cases (find_below b s.blocks s.associativity tag)) [
    | inl e ↦ rw (e, invalidate) (refl, refl)
    | inr ((i, x), e) ↦ rw (e, invalidate) (refl, refl)
  ]
