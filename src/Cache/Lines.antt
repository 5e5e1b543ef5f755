-- ===== src/Cache/Lines.antt =====
-- The operations on a single line, on every branch.
use sniper.Base.{
  if◌then◌else◌, ℕ, ◌+◌, ◌≤◌, ◌<◌, ◌≡◌, ◌⊎◌, refl, sym, ◌∙◌, ap, inl, inr, Bool, Option, none, some,
  List, get_elem?, arith, get_elem?-lt, Option-cases, u32_mod,
}
use sniper.BlockInfo.{BlockInfo}
use sniper.MagicServer.{MagicServer, add_read_acc, add_write_acc}
use sniper.FaultInjection.{Rng, pre_read, post_write}
use sniper.FaultInjection.Isolation.{injector-KeepsExact}
use sniper.CacheSet.{CacheSet, position, line_bytes, find}
use sniper.CacheSet.Policy.{ReplacementPolicy, PolicyLaws}
use sniper.CacheSet.Invariant.{find-lt, read_line_lem, write_line_lem}
use sniper.Cache.{
  Cache, AccessType, load, store, Accessed, Addressing, put, access_line, access_set,
  access_single_line, peek_single_line,
}
use sniper.Cache.Sets.{IsCache, IsCacheSet, inject_lem, store-Fed, put-IsCache, peek-put}

module _ (b : BlockInfo) (p : ReplacementPolicy b) (rng : Rng) {ways : ℕ}
    (laws : PolicyLaws b p ways) (a : Addressing) (c : Cache b p rng) (v : IsCache b p rng laws c)
    (ms : MagicServer) (addr : ℕ) where
  -- The magic server after it was told of an access.
  abbrev pub counted : AccessType b p rng → MagicServer
  counted (load _) = add_read_acc ms addr c.core_id c.name c.blocksize
  counted (store _) = add_write_acc ms addr c.core_id c.name c.blocksize

  -- The access to block `info` is done.
  pub record Served (access : AccessType b p rng) (info : b.Info) (r : Accessed b p rng)
      : Type 0 where
    pub block : r.block ≡ some info
    pub server : r.server ≡ counted access
    pub valid : IsCache b p rng laws r.cache
    pub tags : (x : ℕ) → peek_single_line b p rng a r.cache x ≡ peek_single_line b p rng a c x

  module _ (s : CacheSet b p) (here : get_elem? c.sets (a.set_index_of addr) ≡ some s) (way : ℕ)
      (info : b.Info) (found : find b p s (a.tag_of addr) ≡ some (way, info)) (bytes : ℕ)
      (word : a.block_offset_of addr + bytes < u32_mod) (update : Bool) where
    is_set : IsCacheSet b p rng laws c s
    is_set = v.each (a.set_index_of addr) here

    inside_set : way < ways
    inside_set = find-lt b p laws s (a.tag_of addr) is_set.valid found

    load-Served :
        (wanted : Bool)
        → ((access_line b p rng a c ms addr (load wanted) bytes update s way info ≡ none)
            × (c.blocksize < a.block_offset_of addr + bytes))
          ⊎ ((r : Accessed b p rng) × (access_line b p rng a c ms addr
                  (load wanted)
                  bytes
                  update
                  s
                  way
                  info
                ≡ some r)
              × (a.block_offset_of addr + bytes ≤ c.blocksize)
              × Served (load wanted) info r)
    unfolding access_line
    load-Served wanted =
        let told = counted (load wanted) in
        let offset = a.block_offset_of addr in
        let (s', injector, e, k) =
          inject_lem b p rng laws (pre_read rng told addr bytes) (position b p s way offset)
            c.fault_injector s (λ i fault. (injector-KeepsExact rng told addr bytes i fault).0.0)
            is_set.valid is_set.fed in
        elim (read_line_lem b p laws s' way offset wanted bytes update inside_set word k.valid) [
          | inl (e', past) ↦ inl (rw e (rw e' refl), omega (arith, k.size, is_set.size))
          | inr (s'', e', inside, valid, kept, blocks, size) ↦ inr (
            record {
              cache = put b p rng c (a.set_index_of addr) s'' injector;
              server = told;
              block = some info;
              out = if wanted then line_bytes b p s' way offset bytes else none;
            },
            rw e (rw e' refl),
            omega (arith, k.size, is_set.size),
            record {
              block = refl;
              server = refl;
              valid =
                  put-IsCache b p rng laws c (a.set_index_of addr) v here valid (size ∙ k.size)
                    (rw kept k.fed) k.others;
              tags =
                  peek-put b p rng laws a c (a.set_index_of addr) s'' injector here
                    (blocks ∙ k.blocks) (valid.assoc ∙ sym is_set.valid.assoc);
            },
          )
        ]

    store-Served :
        (buff : Option (List ℕ))
        → ((access_line b p rng a c ms addr (store buff) bytes update s way info ≡ none)
            × (c.blocksize < a.block_offset_of addr + bytes))
          ⊎ ((r : Accessed b p rng) × (access_line b p rng a c ms addr
                  (store buff)
                  bytes
                  update
                  s
                  way
                  info
                ≡ some r)
              × (a.block_offset_of addr + bytes ≤ c.blocksize)
              × Served (store buff) info r)
    unfolding access_line
    store-Served buff =
        let told = counted (store buff) in
        let offset = a.block_offset_of addr in
        elim (write_line_lem b p laws s way offset buff bytes update inside_set word is_set.valid) [
          | inl (e', past) ↦ inl (rw e' refl, omega (arith, is_set.size))
          | inr (s', e', inside, valid, kept, blocks, size) ↦
              let (s'', injector, e, k) =
                inject_lem b p rng laws (post_write rng told addr bytes) (position b p s way offset)
                  c.fault_injector s'
                  (λ i fault. (injector-KeepsExact rng told addr bytes i fault).1.0) valid
                  (rw kept (
                    store-Fed b p rng laws (position b p s way offset) buff c.fault_injector s
                      is_set.fed)) in
              inr (
                record {
                  cache = put b p rng c (a.set_index_of addr) s'' injector;
                  server = told;
                  block = some info;
                  out = none;
                },
                rw e' (rw e refl),
                omega (arith, is_set.size),
                record {
                  block = refl;
                  server = refl;
                  valid =
                      put-IsCache b p rng laws c (a.set_index_of addr) v here k.valid
                        (k.size ∙ size) k.fed k.others;
                  tags =
                      peek-put b p rng laws a c (a.set_index_of addr) s'' injector here
                        (k.blocks ∙ blocks) (k.valid.assoc ∙ sym is_set.valid.assoc);
                },
              )
        ]

  -- What an access returns: nothing changes on a miss; an access past the line's end fails its
  -- assertion; and one inside the line is served.
  abbrev pub Answered :
      AccessType b p rng → ℕ → Option (Option (ℕ × b.Info)) → Option (Accessed b p rng) → Type 0
  Answered access bytes peeked result =
      ((peeked ≡ some none)
        × (result ≡ some (record { cache = c; server = ms; block = none; out = none })))
      ⊎ ((way : ℕ) × (info : b.Info) × (peeked ≡ some (some (way, info)))
          × (((result ≡ none) × (c.blocksize < a.block_offset_of addr + bytes))
              ⊎ ((r : Accessed b p rng) × (result ≡ some r)
                  × (a.block_offset_of addr + bytes ≤ c.blocksize)
                  × Served access info r)))

  access_set-Answered :
      (s : CacheSet b p) (access : AccessType b p rng) (bytes : ℕ) (update : Bool)
      → get_elem? c.sets (a.set_index_of addr) ≡ some s
      → a.block_offset_of addr + bytes < u32_mod
      → Answered access bytes
          (some (find b p s (a.tag_of addr)))
          (access_set b p rng a c ms addr access bytes update s)
  unfolding access_set
  access_set-Answered s access bytes update here word =
      elim (Option-cases (find b p s (a.tag_of addr))) [
        | inl gone ↦ inl (ap some gone, rw (gone, access_set) refl)
        | inr ((way, info), found) ↦
            inr (way, info, ap some found, rw (found, access_set) (line way info found access))
      ]
    where
      line :
          (way : ℕ) (info : b.Info) (found : find b p s (a.tag_of addr) ≡ some (way, info))
          (access : AccessType b p rng)
          → ((access_line b p rng a c ms addr access bytes update s way info ≡ none)
              × (c.blocksize < a.block_offset_of addr + bytes))
            ⊎ ((r : Accessed b p rng) × (access_line b p rng a c ms addr access bytes update s way
                    info
                  ≡ some r)
                × (a.block_offset_of addr + bytes ≤ c.blocksize)
                × Served access info r)
      line way info found (load wanted) = load-Served s here way info found bytes word update wanted
      line way info found (store buff) = store-Served s here way info found bytes word update buff

  -- In a valid cache, an access whose end is below 2 ^ 32 and whose address the cache does not hold
  -- changes nothing; of any other one, an access past the line's end fails its assertion, and one
  -- inside the line returns the block, tells the magic server of the access, and keeps the cache
  -- valid and every address held as before.
  pub access_single_line_lem :
      (access : AccessType b p rng) (bytes : ℕ) (update : Bool)
      → a.set_index_of addr < c.num_sets
      → a.block_offset_of addr + bytes < u32_mod
      → Answered access bytes
          (peek_single_line b p rng a c addr)
          (access_single_line b p rng a c ms addr access bytes update)
  unfolding access_single_line peek_single_line
  access_single_line_lem access bytes update ix word =
      let (s, here) = get_elem?-lt c.sets (a.set_index_of addr) (omega (arith, v.count)) in
      rw here (access_set-Answered s access bytes update here word)
