-- ===== src/Cache/Sets.antt =====
-- What every operation keeps of a cache: its sets are valid, and hold bytes where faults are injected.
use sniper.Base.{
  u32_mod, ◌⊎◌, ℕ, zero, suc, ◌+◌, ◌*◌, ◌<◌, ◌≡◌, refl, sym, ◌∙◌, ap, subst, inl, inr, Bool, true,
  false, Option, none, some, List, [], ◌∷◌, ◌++◌, length, take, drop, set, get_elem?, arith,
  length-set, length-append, get_elem?-set_self, get_elem?-set_ne, get_elem?-set_inv,
  lt_of_get_elem?, ℕ_discrete, length-replicate, get_elem?-replicate,
}
use sniper.BlockInfo.{BlockInfo, CacheType}
use sniper.FaultInjection.{Rng, Injector}
use sniper.CacheSet
use mathlib.Core.Option
use sniper.CacheSet.Bytes.{write_bytes}
use sniper.CacheSet.{CacheSet, store, find, find_below}
use sniper.CacheSet.Policy.{ReplacementPolicy, PolicyLaws}
use sniper.CacheSet.Invariant.{IsValid, create-IsValid, find_agree}
use Prim.Native.String.{String}
use sniper.Cache.{Cache, create, Addressing, put, inject, peek_single_line}

length-take-drop : (n : ℕ) (xs : List ℕ) → length (take n xs) + length (drop n xs) ≡ length xs
length-take-drop zero xs = omega arith
length-take-drop (suc n) [] = refl
length-take-drop (suc n) (x ∷ xs) = let h = length-take-drop n xs in omega (arith, h)

module _ (b : BlockInfo) (p : ReplacementPolicy b) (rng : Rng) {ways : ℕ}
    (laws : PolicyLaws b p ways) where
  -- Where there is an injector, there are bytes.
  abbrev pub Fed : Option (Injector rng) → Option (List ℕ) → Type 0
  Fed none bytes = Unit {0}
  Fed (some _) none = ⊥
  Fed (some _) (some _) = Unit {0}

  -- A set of the cache.
  pub record IsCacheSet (c : Cache b p rng) (s : CacheSet b p) : Type 0 where
    pub valid : IsValid b p laws s
    pub size : s.blocksize ≡ c.blocksize
    pub fed : Fed c.fault_injector s.bytes

  pub record IsCache (c : Cache b p rng) : Type 0 where
    pub count : length c.sets ≡ c.num_sets
    pub each : (i : ℕ) {s : CacheSet b p} → get_elem? c.sets i ≡ some s → IsCacheSet c s

  -- What the injector's call does to a set: its tags stay, and the bytes stay as many.
  pub record Injected (s : CacheSet b p) (injector : Option (Injector rng)) (s' : CacheSet b p)
      (injector' : Option (Injector rng)) : Type 0 where
    pub valid : IsValid b p laws s'
    pub blocks : s'.blocks ≡ s.blocks
    pub assoc : s'.associativity ≡ s.associativity
    pub size : s'.blocksize ≡ s.blocksize
    pub fed : Fed injector' s'.bytes
    pub others : (bytes : Option (List ℕ)) → Fed injector bytes → Fed injector' bytes

  -- A call that keeps the number of bytes always succeeds on a set that is fed.
  pub inject_lem :
      (call : Injector rng → List ℕ → List ℕ × Injector rng) (at : ℕ)
      (injector : Option (Injector rng)) (s : CacheSet b p)
      → ((i : Injector rng) (fault : List ℕ) → length (call i fault).0 ≡ length fault)
      → IsValid b p laws s
      → Fed injector s.bytes
      → (s' : CacheSet b p) × (injector' : Option (Injector rng)) × (inject b p rng call at injector
            s
          ≡ some (s', injector'))
        × Injected s injector s' injector'
  unfolding inject
  inject_lem call at none s keeps v fed = (
    s,
    none,
    refl,
    record {
      valid = v;
      blocks = refl;
      assoc = refl;
      size = refl;
      fed = tt;
      others = λ bytes h. tt;
    },
  )
  inject_lem call at (some injector) s keeps v fed = held s.bytes refl
    where
      held :
          (o : Option (List ℕ))
          → s.bytes ≡ o
          → (s' : CacheSet b p) × (injector' : Option (Injector rng)) × (inject b p rng call at
                (some injector)
                s
              ≡ some (s', injector'))
            × Injected s (some injector) s' injector'
      held none e = absurd (rw e at fed)
      held (some bytes) e =
          let after = take at bytes ++ (call injector (drop at bytes)).0 in
          (
            record s { bytes = some after },
            some (call injector (drop at bytes)).1,
            rw e refl,
            record {
              valid = record {
                assoc = v.assoc;
                size = v.size;
                sized =
                    length-append (take at bytes) (call injector (drop at bytes)).0
                    ∙ omega (arith, keeps injector (drop at bytes), length-take-drop at bytes)
                    ∙ (rw e at v.sized);
                fits = v.fits;
                unique = v.unique;
                policy = v.policy;
              };
              blocks = refl;
              assoc = refl;
              size = refl;
              fed = tt;
              others = λ o h. h;
            },
          )

  -- One set and the injector may change; the other sets stay.
  pub put-IsCache :
      (c : Cache b p rng) (i : ℕ) {old s : CacheSet b p} {injector : Option (Injector rng)}
      → IsCache c
      → get_elem? c.sets i ≡ some old
      → IsValid b p laws s
      → s.blocksize ≡ old.blocksize
      → Fed injector s.bytes
      → ((bytes : Option (List ℕ)) → Fed c.fault_injector bytes → Fed injector bytes)
      → IsCache (put b p rng c i s injector)
  put-IsCache c i {old} {s} {injector} v here valid size fed others = record {
    count = length-set c.sets i s ∙ v.count;
    each = λ j {s = t} e. elim (ℕ_discrete i j) [
      | yes same ↦
          let new =
            get_elem?-set_inv c.sets i s
              (subst (λ k. get_elem? (set c.sets i s) k ≡ some t) (sym same) e) in
          subst (IsCacheSet (put b p rng c i s injector)) (sym new)
            (record { valid = valid; size = size ∙ (v.each i here).size; fed = fed })
      | no other ↦
          let was = v.each j (sym (get_elem?-set_ne c.sets i j s other) ∙ e) in
          record { valid = was.valid; size = was.size; fed = others t.bytes was.fed }
    ];
  }

  -- A change of one set that keeps its tags changes nothing that the cache is seen to hold.
  pub peek-put :
      (a : Addressing) (c : Cache b p rng) (i : ℕ) {old : CacheSet b p} (s : CacheSet b p)
      (injector : Option (Injector rng))
      → get_elem? c.sets i ≡ some old
      → s.blocks ≡ old.blocks
      → s.associativity ≡ old.associativity
      → (x : ℕ)
      → peek_single_line b p rng a (put b p rng c i s injector) x ≡ peek_single_line b p rng a c x
  unfolding peek_single_line
  peek-put a c i {old} s injector here e f x = elim (ℕ_discrete i (a.set_index_of x)) [
    | yes same ↦
        let was = subst (λ k. get_elem? c.sets k ≡ some old) same here in
        let now =
          subst (λ k. get_elem? (set c.sets i s) k ≡ some s) same
            (get_elem?-set_self c.sets i s (lt_of_get_elem? c.sets i here)) in
        rw (was, now) (ap some (find_agree b p old s (a.tag_of x) e f))
    | no other ↦ rw (get_elem?-set_ne c.sets i (a.set_index_of x) s other) refl
  ]

  -- A write of bytes leaves a set fed.
  pub store-Fed :
      (at : ℕ) (buff : Option (List ℕ)) (injector : Option (Injector rng)) (s : CacheSet b p)
      → Fed injector s.bytes
      → Fed injector (store b p at buff s).bytes
  unfolding store
  store-Fed at none injector s h = h
  store-Fed at (some buff) none s h = tt
  store-Fed at (some buff) (some i) s h = held s.bytes h
    where
      held :
          (o : Option (List ℕ)) → Fed (some i) o → Fed (some i) (Option.map (write_bytes at buff) o)
      held none h = absurd h
      held (some bytes) h = tt

  -- A new cache is valid if the sets hold bytes or there is no injector, a new block has the tag of
  -- no block, a set's bytes are fewer than 2 ^ 32, and the policy starts in order.
  pub create-IsCache :
      (name : String) (core_id num_sets blocksize : ℕ) (t : CacheType) (faults : Bool)
      (injector : Option (Injector rng)) (q : p.State)
      → (faults ≡ true) ⊎ (injector ≡ none)
      → b.get_tag (b.create t) ≡ b.no_tag
      → ways * blocksize < u32_mod
      → laws.Inv q
      → IsCache (create b p rng name core_id num_sets ways blocksize t faults injector q)
  unfolding create CacheSet.create
  create-IsCache name core_id num_sets blocksize t faults injector q held blank fits inv = record {
    count = length-replicate num_sets first;
    each = λ i e.
        subst (IsCacheSet (create b p rng name core_id num_sets ways blocksize t faults injector q))
          (sym (get_elem?-replicate num_sets first i e)) new;
  }
    where
      first : CacheSet b p
      first = CacheSet.create b p faults t ways blocksize q

      fed_first :
          (f : Bool) (o : Option (Injector rng))
          → (f ≡ true) ⊎ (o ≡ none)
          → Fed o (CacheSet.create b p f t ways blocksize q).bytes
      fed_first true none h = tt
      fed_first true (some i) h = tt
      fed_first false none h = tt
      fed_first false (some i) (inl h) = absurd (cc h)
      fed_first false (some i) (inr h) = absurd (cc h)

      new :
          IsCacheSet (create b p rng name core_id num_sets ways blocksize t faults injector q) first
      new = record {
        valid = create-IsValid b p laws faults t blocksize q blank fits inv;
        size = refl;
        fed = fed_first faults injector held;
      }
