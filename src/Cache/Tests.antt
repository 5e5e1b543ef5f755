-- ===== src/Cache/Tests.antt =====
-- A cache of two sets with four ways of sixteen bytes, with an injector, empty and after an insertion.
use sniper.Base.{
  ℕ, ◌+◌, ◌*◌, ◌/◌, ◌%◌, ◌≡◌, ◌≢◌, ◌↔◌, ◌⊎◌, refl, inl, Bool, true, false, none, some, [], ◌∷◌,
  ◌==◌, arith, log2, get_elem?,
}
use sniper.BlockInfo.{plain, plain-BlockLaws, PlainBlock, pr_l1_cache}
use sniper.FaultInjection.{Rng, Injector, random}
use sniper.MagicServer
use sniper.MagicServer.{MagicServer, is_approx, any_approx, is_block_approx}
use sniper.ApproxVars.{find_var}
use sniper.Lru2
use sniper.Lru2.{update_replacement_index, get_replacement_index, replace_in, first_invalid}
use sniper.Lru2.Segments.{create-IsLru}
use sniper.CacheSet
use sniper.CacheSet.{CacheSet}
use sniper.CacheSet.Policy.{lru2, PolicyLaws}
use sniper.CacheSet.Lru2Laws.{lru2_laws}
use sniper.Cache.{
  Cache, Addressing, store, create, access_single_line, invalidate_single_line, peek_single_line,
}
use sniper.Cache.Sets.{IsCache, create-IsCache}
use sniper.Cache.Lines.{Answered, access_single_line_lem}
use sniper.Cache.Blocks.{insert_single_line_lem, invalidate_single_line_lem}

abbrev every_other : Rng
every_other = record { Gen = ℕ; draw = λ g. (g % 2 == 0, g + 1) }

abbrev seeded : Injector every_other
seeded = random (record { gen_r = 0; gen_h = 1; gen_w = 2; gen_r_2 = 3; gen_h_2 = 4; gen_w_2 = 5 })

abbrev address_bits : Addressing
address_bits = record {
  tag_of = λ addr. addr / 16;
  set_index_of = λ addr. addr / 16 % 2;
  block_offset_of = λ addr. addr % 16;
  tag_to_address = λ tag. tag * 16;
}

abbrev laws : PolicyLaws plain (lru2 plain) 4
laws = lru2_laws plain 4

abbrev Cache2 : Type 0
Cache2 = Cache plain (lru2 plain) every_other

abbrev empty_cache : Cache2
empty_cache =
    create plain (lru2 plain) every_other "L1-D" 0 2 4 16 pr_l1_cache true (some seeded)
      (Lru2.create 4)

abbrev first_set : CacheSet plain (lru2 plain)
first_set = CacheSet.create plain (lru2 plain) true pr_l1_cache 4 16 (Lru2.create 4)

abbrev server : MagicServer
server = MagicServer.create 0 0

policy-IsLru : laws.Inv (Lru2.create 4)
unfolding Lru2.create
policy-IsLru = (create-IsLru 4 (omega arith) (omega arith), refl)

empty_cache-IsCache : IsCache plain (lru2 plain) every_other laws empty_cache
empty_cache-IsCache =
    create-IsCache plain (lru2 plain) every_other laws "L1-D" 0 2 16 pr_l1_cache true (some seeded)
      (Lru2.create 4) (inl refl) refl (omega arith) policy-IsLru

empty_peek :
    peek_single_line plain (lru2 plain) every_other address_bits empty_cache 100 ≡ some none
unfolding create peek_single_line CacheSet.create CacheSet.find CacheSet.find_below
empty_peek = refl

first_set_here : get_elem? empty_cache.sets 0 ≡ some first_set
unfolding create
first_set_here = refl

first_victim :
    get_replacement_index plain first_set.policy first_set.blocks
      (is_block_approx server (100 / 16 * 16) 16)
    ≡ some (0, update_replacement_index (Lru2.create 4) 0)
unfolding CacheSet.create Lru2.create log2 get_replacement_index replace_in first_invalid
    MagicServer.create is_block_approx any_approx is_approx find_var
first_victim = refl

filled :
    (c : Cache2) × IsCache plain (lru2 plain) every_other laws c
    × (c.num_sets ≡ 2)
    × ((x : PlainBlock) × (peek_single_line plain (lru2 plain) every_other address_bits c 100
          ≡ some (some (0, x))))
unfolding CacheSet.create log2 create
filled =
    let (old, s', r, e, f) =
      insert_single_line_lem plain (lru2 plain) every_other laws plain-BlockLaws address_bits
        empty_cache empty_cache-IsCache server 100 first_set first_set_here none
        (plain.create pr_l1_cache) true 0 (update_replacement_index (Lru2.create 4) 0) (omega arith)
        empty_peek first_victim in
    (r.cache, f.valid, f.count, (_, f.held))

-- A store to the line just inserted.
access_single_line_lem_example :
    Answered plain
      (lru2 plain)
      every_other
      laws
      address_bits
      filled.0
      filled.1
      server
      100
      (store (some (1 ∷ 2 ∷ 3 ∷ 4 ∷ [])))
      4
      (peek_single_line plain (lru2 plain) every_other address_bits filled.0 100)
      (access_single_line plain
        (lru2 plain)
        every_other
        address_bits
        filled.0
        server
        100
        (store (some (1 ∷ 2 ∷ 3 ∷ 4 ∷ [])))
        4
        true)
access_single_line_lem_example =
    access_single_line_lem plain (lru2 plain) every_other laws address_bits filled.0 filled.1 server
      100 (store (some (1 ∷ 2 ∷ 3 ∷ 4 ∷ []))) 4 true (omega (arith, filled.2)) (omega arith)

invalidate_single_line_lem_example :
    (c' : Cache2) × (found : Bool) × (invalidate_single_line plain
        (lru2 plain)
        every_other
        address_bits
        filled.0
        100
      ≡ some (c', found))
    × ((found ≡ false)
        ↔ (peek_single_line plain (lru2 plain) every_other address_bits filled.0 100 ≡ some none))
    × IsCache plain (lru2 plain) every_other laws c'
    × (peek_single_line plain (lru2 plain) every_other address_bits c' 100 ≡ some none)
    × ((x : ℕ)
        → (x / 16 % 2 ≢ 0) ⊎ ((x / 16 ≢ 6) × (x / 16 ≢ plain.no_tag))
        → peek_single_line plain (lru2 plain) every_other address_bits c' x
          ≡ peek_single_line plain (lru2 plain) every_other address_bits filled.0 x)
invalidate_single_line_lem_example =
    invalidate_single_line_lem plain (lru2 plain) every_other laws plain-BlockLaws address_bits
      filled.0 filled.1 100 (omega (arith, filled.2)) (omega arith)
