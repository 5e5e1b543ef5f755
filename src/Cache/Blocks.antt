-- ===== src/Cache/Blocks.antt =====
-- Which addresses the cache holds after an insertion and an invalidation.
use sniper.Base.{
  ◌⊎◌, ℕ_discrete, ℕ, ◌<◌, ◌≡◌, ◌≢◌, ◌↔◌, refl, sym, ◌∙◌, ap, subst, inl, inr, Bool, true, false,
  Option, none, some, List, length, set, get_elem?, arith, get_elem?-set_self, get_elem?-set_ne,
  get_elem?-lt, lt_of_get_elem?, lt→ltb, some_inj,
}
use sniper.BlockInfo.{BlockInfo, BlockLaws}
use sniper.MagicServer.{MagicServer, is_block_approx}
use sniper.FaultInjection.{Rng, Injector, post_write}
use sniper.FaultInjection.Isolation.{injector-KeepsExact}
use sniper.CacheSet.{CacheSet, position, store, invalidate, find, insert_address}
use sniper.CacheSet.Policy.{ReplacementPolicy, PolicyLaws}
use sniper.CacheSet.Invariant.{IsValid, find_agree, invalidate-IsValid, invalidate-rest}
use sniper.CacheSet.Tags.{invalidate_lem}
use sniper.CacheSet.Insertion.{Replaced, insert_lem}
use sniper.Cache.{
  invalidate_set, invalidate_single_line, Cache, InsertedLine, Addressing, put, inject_inserted,
  insert_set, insert_single_line, peek_single_line,
}
use sniper.Cache.Sets.{IsCache, Fed, Injected, inject_lem, store-Fed, put-IsCache}

module _ (b : BlockInfo) (p : ReplacementPolicy b) (rng : Rng) {ways : ℕ}
    (laws : PolicyLaws b p ways) (block : BlockLaws b) (a : Addressing) (c : Cache b p rng)
    (v : IsCache b p rng laws c) where
  -- The set of an address after a change of it, and the other sets.
  peek-put_here :
      (addr : ℕ) (s : CacheSet b p) (injector : Option (Injector rng))
      → a.set_index_of addr < length c.sets
      → peek_single_line b p rng a (put b p rng c (a.set_index_of addr) s injector) addr
        ≡ some (find b p s (a.tag_of addr))
  unfolding peek_single_line
  peek-put_here addr s injector lt = rw (get_elem?-set_self c.sets (a.set_index_of addr) s lt) refl

  peek-put_other :
      (i x : ℕ) (s : CacheSet b p) (injector : Option (Injector rng))
      → a.set_index_of x ≢ i
      → peek_single_line b p rng a (put b p rng c i s injector) x ≡ peek_single_line b p rng a c x
  unfolding peek_single_line
  peek-put_other i x s injector ne =
      rw (get_elem?-set_ne c.sets i (a.set_index_of x) s (λ e. ne (sym e))) refl

  module _ (ms : MagicServer) (addr : ℕ) (s : CacheSet b p)
      (here : get_elem? c.sets (a.set_index_of addr) ≡ some s) where
    abbrev pub new_block : b.Info
    new_block = b.set_tag (b.create c.cache_type) (a.tag_of addr)

    -- The injector's call after an insertion finds the line.
    inject_inserted_lem :
        (s' : CacheSet b p) {k : ℕ} {x : b.Info}
        → IsValid b p laws s'
        → find b p s' (a.tag_of addr) ≡ some (k, x)
        → (injector : Option (Injector rng)) → c.fault_injector ≡ injector
        → Fed b p rng laws injector s'.bytes
        → (s'' : CacheSet b p) × (injector' : Option (Injector rng)) × (inject_inserted b p rng a c
              ms addr s'
            ≡ some (s'', injector'))
          × Injected b p rng laws s' injector s'' injector'
    unfolding inject_inserted
    inject_inserted_lem s' {k} valid found none e fed = (
      s',
      none,
      rw (e, inject_inserted) refl,
      record {
        valid = valid;
        blocks = refl;
        assoc = refl;
        size = refl;
        fed = tt;
        others = λ bytes h. tt;
      },
    )
    inject_inserted_lem s' {k} valid found (some injector) e fed =
        let (s'', injector', done, kept) =
          inject_lem b p rng laws (post_write rng ms addr s'.blocksize) (position b p s' k 0)
            (some injector) s'
            (λ i fault. (injector-KeepsExact rng ms addr s'.blocksize i fault).1.0) valid fed in
        (s'', injector', rw (e, inject_inserted) (rw (found, inject_inserted) done), kept)

    inject_none :
        (s' : CacheSet b p) {s'' : CacheSet b p} {injector : Option (Injector rng)}
        → inject_inserted b p rng a c ms addr s' ≡ some (s'', injector)
        → c.fault_injector ≡ none
        → s''.bytes ≡ s'.bytes
    unfolding inject_inserted
    inject_none s' e none_there = sym (
        ap (λ (x : CacheSet b p × Option (Injector rng)). x.0.bytes)
          (some_inj (rw (none_there, inject_inserted) at e)))

    peek_left :
        (s' : CacheSet b p) (injector : Option (Injector rng)) (x : ℕ)
        → a.set_index_of x ≡ a.set_index_of addr
        → peek_single_line b p rng a (put b p rng c (a.set_index_of addr) s' injector) x
          ≡ some (find b p s' (a.tag_of x))
    unfolding peek_single_line
    peek_left s' injector x same =
        rw
          (
            same,
            get_elem?-set_self c.sets (a.set_index_of addr) s'
                (lt_of_get_elem? c.sets (a.set_index_of addr) here),
          )
          refl

    peek_was :
        (x : ℕ)
        → a.set_index_of x ≡ a.set_index_of addr
        → peek_single_line b p rng a c x ≡ some (find b p s (a.tag_of x))
    unfolding peek_single_line
    peek_was x same = rw (same, here) refl

    -- Block `old` of way `k` gave way to the address's block, in `s'`, which the injector was then
    -- called on; the cache holds the set that this leaves.
    pub record Filled (fill : Option (List ℕ)) (wanted : Bool) (k : ℕ) (q : p.State) (old : b.Info)
        (s' : CacheSet b p) (r : InsertedLine b p rng) : Type 0 where
      pub replaced :
          Replaced b p laws block
            (record s { policy = q; approx_flag = false })
            s'
            r.inserted
            k
            new_block
            old
            fill
            wanted
      pub evicted : r.evict_addr ≡ a.tag_to_address (b.get_tag r.inserted.evict_block_info)
      pub count : r.cache.num_sets ≡ c.num_sets
      pub valid : IsCache b p rng laws r.cache
      pub held : peek_single_line b p rng a r.cache addr ≡ some (some (k, b.clone old new_block))
      pub others :
          (x : ℕ)
          → a.set_index_of x ≢ a.set_index_of addr
          → peek_single_line b p rng a r.cache x ≡ peek_single_line b p rng a c x
      pub same_set :
          (x : ℕ)
          → a.set_index_of x ≡ a.set_index_of addr
          → a.tag_of x ≢ a.tag_of addr
          → a.tag_of x ≢ b.get_tag old
          → peek_single_line b p rng a r.cache x ≡ peek_single_line b p rng a c x
      pub gone :
          b.is_valid old ≡ true
          → (x : ℕ) → a.set_index_of x ≡ a.set_index_of addr
          → a.tag_of x ≡ b.get_tag old
          → peek_single_line b p rng a r.cache x ≡ some none
      pub set_left : CacheSet b p
      pub set_there : get_elem? r.cache.sets (a.set_index_of addr) ≡ some set_left
      pub injected :
          inject_inserted b p rng a c ms addr s' ≡ some (set_left, r.cache.fault_injector)
      pub bytes :
          c.fault_injector ≡ none
          → set_left.bytes
            ≡ (store b p
                (position b p (record s { policy = q; approx_flag = false }) k 0)
                fill
                (record s { policy = q; approx_flag = false })).bytes

    module _ (fill : Option (List ℕ)) (evict : b.Info) (wanted : Bool) (k : ℕ) (q : p.State) where
      insert_set-Filled :
          a.tag_of addr ≢ b.no_tag
          → find b p s (a.tag_of addr) ≡ none
          → p.replace s.policy s.blocks
              (is_block_approx ms (insert_address b p s new_block) s.blocksize)
            ≡ some (k, q)
          → (old : b.Info) × (s' : CacheSet b p) × (r : InsertedLine b p rng) × (insert_set b p rng
                a c ms addr fill evict wanted s
              ≡ some r)
            × Filled fill wanted k q old s' r
      unfolding insert_set
      insert_set-Filled live absent chosen =
          let is_set = v.each (a.set_index_of addr) here in
          let tag = block.set_tag-get_tag (b.create c.cache_type) (a.tag_of addr) in
          let (old, s', inserted, e, placed) =
            insert_lem b p laws block (is_block_approx ms) s new_block fill evict wanted k q
              is_set.valid (λ h. live (sym tag ∙ h)) (ap (find b p s) tag ∙ absent) chosen in
          let found = ap (find b p s') (sym tag) ∙ placed.placed in
          let fed = subst (Fed b p rng laws c.fault_injector) (sym placed.stored) (
            store-Fed b p rng laws (position b p s k 0) fill c.fault_injector
              (record s { policy = q; approx_flag = false }) is_set.fed) in
          let (s'', injector, e', kept) =
            inject_inserted_lem s' placed.valid found c.fault_injector refl fed in
          (
            old,
            s',
            record {
              cache = put b p rng c (a.set_index_of addr) s'' injector;
              inserted = inserted;
              evict_addr = a.tag_to_address (b.get_tag inserted.evict_block_info);
            },
            rw e (rw e' refl),
            record {
              replaced = placed;
              evicted = refl;
              count = refl;
              valid =
                  put-IsCache b p rng laws c (a.set_index_of addr) v here kept.valid
                    (kept.size ∙ placed.size) kept.fed kept.others;
              held =
                  peek-put_here addr s'' injector
                    (lt_of_get_elem? c.sets (a.set_index_of addr) here)
                  ∙ ap some (find_agree b p s' s'' (a.tag_of addr) kept.blocks kept.assoc ∙ found);
              others = λ x ne. peek-put_other (a.set_index_of addr) x s'' injector ne;
              same_set = λ x same ne ne'.
                  peek_left s'' injector x same
                  ∙ ap some (
                      find_agree b p s' s'' (a.tag_of x) kept.blocks kept.assoc
                      ∙ placed.others (a.tag_of x) (λ e. ne (e ∙ tag)) ne'
                      ∙ find_agree b p s (record s { policy = q; approx_flag = false }) (a.tag_of x)
                          refl refl)
                  ∙ sym (peek_was x same);
              gone = λ was x same e.
                  peek_left s'' injector x same
                  ∙ ap some (
                      find_agree b p s' s'' (a.tag_of x) kept.blocks kept.assoc
                      ∙ ap (find b p s') e
                      ∙ (placed.handed was).2);
              set_left = s'';
              set_there =
                  get_elem?-set_self c.sets (a.set_index_of addr) s''
                    (lt_of_get_elem? c.sets (a.set_index_of addr) here);
              injected = e';
              bytes = λ none_there. inject_none s' e' none_there ∙ placed.stored;
            },
          )

      pub insert_single_line_lem :
          a.tag_of addr ≢ b.no_tag
          → peek_single_line b p rng a c addr ≡ some none
          → p.replace s.policy s.blocks
              (is_block_approx ms (insert_address b p s new_block) s.blocksize)
            ≡ some (k, q)
          → (old : b.Info) × (s' : CacheSet b p) × (r : InsertedLine b p rng) × (insert_single_line
                b p rng a c ms addr fill evict wanted
              ≡ some r)
            × Filled fill wanted k q old s' r
      unfolding insert_single_line peek_single_line
      insert_single_line_lem live absent chosen =
          rw here (insert_set-Filled live (some_inj (rw here at absent)) chosen)

  peek_at :
      (i x : ℕ) {s : CacheSet b p}
      → get_elem? c.sets i ≡ some s
      → i ≡ a.set_index_of x
      → peek_single_line b p rng a c x ≡ some (find b p s (a.tag_of x))
  unfolding peek_single_line
  peek_at i x {s} here e = rw (subst (λ k. get_elem? c.sets k ≡ some s) e here) refl

  peek-put_at :
      (i x : ℕ) (s : CacheSet b p) (injector : Option (Injector rng))
      → i < length c.sets
      → i ≡ a.set_index_of x
      → peek_single_line b p rng a (put b p rng c i s injector) x ≡ some (find b p s (a.tag_of x))
  unfolding peek_single_line
  peek-put_at i x s injector lt e =
      rw (subst (λ k. get_elem? (set c.sets i s) k ≡ some s) e (get_elem?-set_self c.sets i s lt))
        refl

  -- In a valid cache, invalidateSingleLine of an address with the tag of a block succeeds and
  -- returns false exactly if the cache does not hold the address; the cache stays valid and then
  -- does not hold it, and every address of another set or with another block's tag is held as
  -- before.
  pub invalidate_single_line_lem :
      (addr : ℕ)
      → a.set_index_of addr < c.num_sets
      → a.tag_of addr ≢ b.no_tag
      → (c' : Cache b p rng) × (found : Bool) × (invalidate_single_line b p rng a c addr
          ≡ some (c', found))
        × ((found ≡ false) ↔ (peek_single_line b p rng a c addr ≡ some none))
        × IsCache b p rng laws c'
        × (peek_single_line b p rng a c' addr ≡ some none)
        × ((x : ℕ)
            → (a.set_index_of x ≢ a.set_index_of addr)
              ⊎ ((a.tag_of x ≢ a.tag_of addr) × (a.tag_of x ≢ b.no_tag))
            → peek_single_line b p rng a c' x ≡ peek_single_line b p rng a c x)
  unfolding invalidate_single_line invalidate_set
  invalidate_single_line_lem addr ix live =
      let i = a.set_index_of addr in
      let tag = a.tag_of addr in
      let lt : i < length c.sets = omega (arith, v.count) in
      let (s, here) = get_elem?-lt c.sets i lt in
      let is_set = v.each i here in
      let (told, gone, kept, _) =
        invalidate_lem b p s (is_set.valid.size ∙ sym is_set.valid.assoc) is_set.valid.unique block
          tag live in
      let (bytes, size) = invalidate-rest b p laws s tag in
      (
        put b p rng c i (invalidate b p s tag).0 c.fault_injector,
        (invalidate b p s tag).1,
        rw (lt→ltb i c.num_sets ix) (rw here refl),
        (
          λ e. peek_at i addr here refl ∙ ap some (told.0 e),
          λ e. told.1 (some_inj (sym (peek_at i addr here refl) ∙ e)),
        ),
        put-IsCache b p rng laws c i v here
            (invalidate-IsValid b p laws s tag block live is_set.valid) size
            (subst (Fed b p rng laws c.fault_injector) (sym bytes) is_set.fed) (λ o h. h),
        peek-put_here addr (invalidate b p s tag).0 c.fault_injector lt ∙ ap some gone,
        λ x apart. elim (ℕ_discrete i (a.set_index_of x)) [
          | no ne ↦ peek-put_other i x (invalidate b p s tag).0 c.fault_injector (λ e. ne (sym e))
          | yes same ↦ elim apart [
            | inl ne ↦ absurd (ne (sym same))
            | inr (other, valid) ↦
                peek-put_at i x (invalidate b p s tag).0 c.fault_injector lt same
                ∙ ap some (kept (a.tag_of x) other valid)
                ∙ sym (peek_at i x here same)
          ]
        ],
      )
