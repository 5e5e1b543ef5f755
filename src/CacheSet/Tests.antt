-- ===== src/CacheSet/Tests.antt =====
-- A set of four ways of sixteen bytes, empty or with one block.
use sniper.Base.{
  ℕ, ◌+◌, ◌≤◌, ◌<◌, ◌≡◌, ◌≢◌, ◌↔◌, ◌⊎◌, refl, ◌∙◌, ap, true, false, none, some, List, [], ◌∷◌,
  arith, log2, set, replicate, length, length-set, length-replicate, get_elem?, get_elem?-replicate,
}
use sniper.BlockInfo.{plain, plain-BlockLaws, PlainBlock, pr_l1_cache}
use sniper.Lru2
use sniper.Lru2.{Lru2, update_replacement_index, first_invalid, replace_in, get_replacement_index}
use sniper.Lru2.Segments.{create-IsLru}
use sniper.CacheSet.Policy.{lru2, PolicyLaws}
use sniper.CacheSet.Lru2Laws.{lru2_laws}
use sniper.CacheSet.Tags.{Unique, Unique-set, find_iff, invalidate_lem}
use sniper.CacheSet.Invariant.{IsValid, create-IsValid}
use sniper.CacheSet.Storage.{write_line-read_line}
use sniper.CacheSet.Segments.{insert-segment}
use sniper.CacheSet.Insertion.{Replaced, insert_lem}
use sniper.CacheSet.{
  CacheSet, Inserted, create, find, find_below, invalidate, write_line, line_bytes, insert,
}

abbrev block : ℕ → PlainBlock
block tag = record { tag = tag; upgrading = false }

abbrev laws : PolicyLaws plain (lru2 plain) 4
laws = lru2_laws plain 4

abbrev Set4 : Type 0
Set4 = CacheSet plain (lru2 plain)

abbrev empty_set : Set4
empty_set = create plain (lru2 plain) true pr_l1_cache 4 16 (Lru2.create 4)

policy-IsLru : laws.Inv (Lru2.create 4)
unfolding Lru2.create
policy-IsLru = (create-IsLru 4 (omega arith) (omega arith), refl)

empty_set-IsValid : IsValid plain (lru2 plain) laws empty_set
empty_set-IsValid =
    create-IsValid plain (lru2 plain) laws true pr_l1_cache 16 (Lru2.create 4) refl (omega arith)
      policy-IsLru

abbrev empty_blocks : List PlainBlock
empty_blocks = replicate 4 (plain.create pr_l1_cache)

-- Way 2 holds the block of tag 9.
abbrev one_set : Set4
one_set = record empty_set { blocks = set empty_blocks 2 (block 9) }

one_set-size : length one_set.blocks ≡ one_set.associativity
unfolding create
one_set-size = length-set empty_blocks 2 (block 9) ∙ length-replicate 4 (plain.create pr_l1_cache)

no_block : (i : ℕ) {x : PlainBlock} → get_elem? empty_blocks i ≡ some x → x.tag ≡ plain.no_tag
no_block i e = ap (λ y. y.tag) (get_elem?-replicate 4 (plain.create pr_l1_cache) i e)

one_set-Unique : Unique plain one_set.blocks
unfolding create
one_set-Unique =
    Unique-set plain empty_blocks 2 (block 9) (λ i j x y e f t live. absurd (live (no_block i e)))
      (λ live j ne x e t. absurd (omega (arith, no_block j e)))

one_set-IsValid : IsValid plain (lru2 plain) laws one_set
unfolding create
one_set-IsValid = record {
  assoc = refl;
  size = one_set-size;
  sized = empty_set-IsValid.sized;
  fits = empty_set-IsValid.fits;
  unique = one_set-Unique;
  policy = policy-IsLru;
}

find_one : find plain (lru2 plain) one_set 9 ≡ some (2, block 9)
unfolding create find find_below
find_one = refl

invalidated_one : (invalidate plain (lru2 plain) one_set 9).1 ≡ true
unfolding create invalidate find_below
invalidated_one = refl

find_iff_example :
    (find plain (lru2 plain) one_set 9 ≡ some (2, block 9))
    ↔ ((get_elem? one_set.blocks 2 ≡ some (block 9)) × (plain.get_tag (block 9) ≡ 9))
find_iff_example =
    find_iff plain (lru2 plain) one_set one_set-size one_set-Unique 9 2 (block 9) (omega arith)

invalidate_lem_example :
    let s' = (invalidate plain (lru2 plain) one_set 9).0 in
    (((invalidate plain (lru2 plain) one_set 9).1 ≡ false)
      ↔ (find plain (lru2 plain) one_set 9 ≡ none))
    × (find plain (lru2 plain) s' 9 ≡ none)
    × ((other : ℕ)
        → other ≢ 9
        → other ≢ plain.no_tag
        → find plain (lru2 plain) s' other ≡ find plain (lru2 plain) one_set other)
    × Unique plain s'.blocks
invalidate_lem_example =
    invalidate_lem plain (lru2 plain) one_set one_set-size one_set-Unique plain-BlockLaws 9
      (omega arith)

abbrev word : List ℕ
word = 1 ∷ 2 ∷ 3 ∷ 4 ∷ []

write_line-read_line_example :
    (s' : Set4) × (write_line plain (lru2 plain) one_set 2 4 (some word) 4 true ≡ some s')
    × IsValid plain (lru2 plain) laws s'
    × (line_bytes plain (lru2 plain) s' 2 4 4 ≡ some word)
    × ((j o n : ℕ)
        → j < 4
        → o + n ≤ one_set.blocksize
        → (2 ≢ j) ⊎ ((o + n ≤ 4) ⊎ (8 ≤ o))
        → line_bytes plain (lru2 plain) s' j o n ≡ line_bytes plain (lru2 plain) one_set j o n)
unfolding create
write_line-read_line_example =
    write_line-read_line plain (lru2 plain) laws one_set one_set-IsValid 2 4 word true refl
      (omega arith) (omega arith)

-- An exact block goes to the first way, which is empty.
insert_lem_example :
    (old : PlainBlock) × (s' : Set4) × (r : Inserted plain) × (insert plain
        (lru2 plain)
        (λ address n. false)
        one_set
        (block 5)
        none
        (block 0)
        true
      ≡ some (s', r))
    × Replaced plain
        (lru2 plain)
        laws
        plain-BlockLaws
        (record one_set {
          policy = update_replacement_index (Lru2.create 4) 0;
          approx_flag = false;
        })
        s'
        r
        0
        (block 5)
        old
        none
        true
unfolding create find find_below Lru2.create log2 get_replacement_index replace_in first_invalid
insert_lem_example =
    insert_lem plain (lru2 plain) laws plain-BlockLaws (λ address n. false) one_set (block 5) none
      (block 0) true 0 (update_replacement_index (Lru2.create 4) 0) one_set-IsValid (omega arith)
      refl refl

-- An approximate block goes to one of the ways 2 and 3.
insert-segment_example :
    (k : ℕ) × (old : PlainBlock) × (s' : Set4) × (r : Inserted plain) × (insert plain
        (lru2 plain)
        (λ address n. true)
        one_set
        (block 5)
        none
        (block 0)
        true
      ≡ some (s', r))
    × (2 ≤ k)
    × (k < 4)
    × (find plain (lru2 plain) s' 5 ≡ some (k, block 5))
unfolding create Lru2.create log2 find find_below
insert-segment_example =
    insert-segment plain plain-BlockLaws 4 (λ address n. true) one_set (block 5) none (block 0) true
      one_set-IsValid (omega arith) refl (omega arith)
