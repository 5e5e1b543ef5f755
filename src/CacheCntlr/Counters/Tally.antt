-- ===== src/CacheCntlr/Counters/Tally.antt =====
-- The counters of a run of accesses are the numbers of accesses of each sort.
use sniper.Base.{
  ℕ, suc, ◌≤◌, ◌<◌, ◌≡◌, refl, ◌∙◌, ap, Bool, true, false, not, ◌&&◌, ◌||◌, Option, none, some,
  List, [], ◌∷◌, length, inc_u64, u64_mod, arith, if◌then◌else◌, Bool-cases, inl, inr,
}
use sniper.CacheCntlr.{
  CState, ◌=s◌, MemOp, read, read_ex, write, AccessCounts, AccessCounters, no_accesses,
}
use sniper.CacheCntlr.Update.{bump}
use sniper.CacheCntlr.Counters.{
  PrefetchType, no_prefetch, own_prefetch, other_prefetch, count_miss, count_hit, count_access,
  count_mem_op, Access, inc_if, is_setnum,
}

-- An access, and whether an earlier miss of its line was in progress.
pub record Seen : Type 0 where
  pub access : Access
  pub overlapping : Bool

-- How many elements a test holds of.
unfoldable pub count_if : (Seen → Bool) → List Seen → ℕ
count_if test [] = 0
count_if test (x ∷ seen) = if test x then suc (count_if test seen) else count_if test seen

abbrev pub is_store : MemOp → Bool
is_store write = true
is_store _ = false

-- Whether an access is a store, or not one.
abbrev pub is_of : Bool → Seen → Bool
is_of true x = is_store x.access.mem_op_type
is_of false x = not (is_store x.access.mem_op_type)

-- A cache's own prefetch counts only as a prefetch.
abbrev pub is_own : PrefetchType → Bool
is_own own_prefetch = true
is_own _ = false

abbrev pub is_prefetch : PrefetchType → Bool
is_prefetch no_prefetch = false
is_prefetch _ = true

-- A load misses if the cache does; a store also misses while an earlier miss is in progress.
abbrev pub is_miss_of : Bool → Seen → Bool
is_miss_of true x = not x.access.cache_hit || x.overlapping
is_miss_of false x = not x.access.cache_hit

-- The counted accesses, and those that miss, with a further test.
abbrev pub counted : Bool → (Seen → Bool) → Seen → Bool
counted store test x = is_of store x && (not (is_own x.access.kind) && test x)

abbrev pub missed : Bool → (Seen → Bool) → Seen → Bool
missed store test x = counted store (λ y. is_miss_of store y && test y) x

-- The counters of the loads or of the stores are the numbers of the accesses in `seen`.
pub record IsTally (approx : ℕ → Bool) (store : Bool) (seen : List Seen) (c : AccessCounts)
    : Type 0 where
  pub accesses : c.accesses ≡ count_if (counted store (λ x. true)) seen
  pub misses : c.misses ≡ count_if (missed store (λ x. true)) seen
  pub overlapping_misses : c.overlapping_misses ≡ count_if (missed store (λ x. x.overlapping)) seen
  pub approx_accesses :
      c.approx_accesses ≡ count_if (counted store (λ x. approx x.access.address)) seen
  pub approx_misses : c.approx_misses ≡ count_if (missed store (λ x. approx x.access.address)) seen
  pub second_set : (c.approx_accesses_2 ≡ 0) × (c.approx_misses_2 ≡ 0)
  pub accesses_state :
      (s : CState) → c.accesses_state s ≡ count_if (counted store (λ x. s =s x.access.state)) seen
  pub misses_state :
      (s : CState) → c.misses_state s ≡ count_if (missed store (λ x. s =s x.access.state)) seen
  pub prefetch_accesses :
      c.prefetch_accesses ≡ count_if (λ x. is_of store x && is_prefetch x.access.kind) seen

count_if_le : (test : Seen → Bool) (seen : List Seen) → count_if test seen ≤ length seen
unfolding count_if
count_if_le test [] = omega arith
count_if_le test (x ∷ seen) =
    let h = count_if_le test seen in
    elim (Bool-cases (test x)) [
      | inl e ↦ rw (e, count_if) (omega (arith, h))
      | inr e ↦ rw (e, count_if) (omega (arith, h))
    ]

-- A counter that one access moves, or not.
inc_if-tally :
    (test : Seen → Bool) (x : Seen) (seen : List Seen) (moves : Bool) (n : ℕ)
    → suc (length seen) < u64_mod
    → n ≡ count_if test seen
    → test x ≡ moves
    → inc_if moves n ≡ count_if test (x ∷ seen)
unfolding count_if
inc_if-tally test x seen true n small e moved =
    let le = count_if_le test seen in
    let inc : inc_u64 n ≡ suc (count_if test seen) = omega (arith, e, le, small) in
    rw (moved, count_if) inc
inc_if-tally test x seen false n small e moved = rw (moved, count_if) e

bump_lem : (f : CState → ℕ) (state s : CState) → bump f state s ≡ inc_if (s =s state) (f s)
bump_lem f state s = elim (Bool-cases (s =s state)) [
  | inl e ↦ rw (e, bump) refl
  | inr e ↦ rw (e, bump) refl
]

setnum_lem :
    (approx : Bool)
    → (is_setnum (if approx then some 0 else none) 0 ≡ approx)
      × (is_setnum (if approx then some 0 else none) 1 ≡ false)
setnum_lem true = (refl, refl)
setnum_lem false = (refl, refl)

abbrev pub setnum_of : Bool → Option ℕ
setnum_of approx = if approx then some 0 else none

and_same : (a b c : Bool) → a ≡ true → b ≡ c → (a && b) ≡ c
and_same true b c e same = same
and_same false b c e same = absurd (cc e)

and_gone : (a b : Bool) → a ≡ false → (a && b) ≡ false
and_gone false b e = refl
and_gone true b e = absurd (cc e)

negated : (a : Bool) → a ≡ false → not a ≡ true
negated false e = refl
negated true e = absurd (cc e)

abbrev prefetch_test : Bool → Seen → Bool
prefetch_test store x = is_of store x && is_prefetch x.access.kind

module _ (approx : ℕ → Bool) (store : Bool) (x : Seen) (seen : List Seen) (c : AccessCounts)
    (small : suc (length seen) < u64_mod) (i : IsTally approx store seen c) where
  counted_lem :
      (test : Seen → Bool)
      → is_of store x ≡ true
      → is_own x.access.kind ≡ false
      → counted store test x ≡ test x
  counted_lem test mine own =
      and_same (is_of store x) (not (is_own x.access.kind) && test x) (test x) mine (
        and_same (not (is_own x.access.kind)) (test x) (test x) (negated (is_own x.access.kind) own)
          refl)

  missed_lem :
      (test : Seen → Bool)
      → is_of store x ≡ true
      → is_own x.access.kind ≡ false
      → is_miss_of store x ≡ true
      → missed store test x ≡ test x
  missed_lem test mine own miss =
      counted_lem (λ y. is_miss_of store y && test y) mine own
      ∙ and_same (is_miss_of store x) (test x) (test x) miss refl

  hit_lem :
      (test : Seen → Bool)
      → is_of store x ≡ true
      → is_own x.access.kind ≡ false
      → is_miss_of store x ≡ false
      → missed store test x ≡ false
  hit_lem test mine own hit =
      counted_lem (λ y. is_miss_of store y && test y) mine own
      ∙ and_gone (is_miss_of store x) (test x) hit

  -- A counter that an access does not move.
  still :
      (test : Seen → Bool) (n : ℕ)
      → n ≡ count_if test seen
      → test x ≡ false
      → n ≡ count_if test (x ∷ seen)
  still test n e off = inc_if-tally test x seen false n small e off

  -- An access of the other kind moves none.
  other-IsTally : is_of store x ≡ false → IsTally approx store (x ∷ seen) c
  other-IsTally other =
      let off : (test : Seen → Bool) → (is_of store x && test x) ≡ false =
        λ test. and_gone (is_of store x) (test x) other in
      record {
        accesses = still _ _ i.accesses (off (λ y. not (is_own y.access.kind) && true));
        misses =
            still _ _ i.misses
              (off (λ y. not (is_own y.access.kind) && (is_miss_of store y && true)));
        overlapping_misses =
            still _ _ i.overlapping_misses
              (off (λ y. not (is_own y.access.kind) && (is_miss_of store y && y.overlapping)));
        approx_accesses =
            still _ _ i.approx_accesses
              (off (λ y. not (is_own y.access.kind) && approx y.access.address));
        approx_misses = still _ _ i.approx_misses (
            off
              (λ y. not (is_own y.access.kind) && (is_miss_of store y && approx y.access.address)));
        second_set = i.second_set;
        accesses_state = λ s.
            still _ _ (i.accesses_state s)
              (off (λ y. not (is_own y.access.kind) && (s =s y.access.state)));
        misses_state = λ s. still _ _ (i.misses_state s) (
            off (λ y. not (is_own y.access.kind) && (is_miss_of store y && (s =s y.access.state))));
        prefetch_accesses = still _ _ i.prefetch_accesses (off (λ y. is_prefetch y.access.kind));
      }

  -- A cache's own prefetch moves one.
  own-IsTally :
      is_of store x ≡ true
      → x.access.kind ≡ own_prefetch
      → IsTally approx store
          (x ∷ seen)
          (record c { prefetch_accesses = inc_u64 c.prefetch_accesses })
  own-IsTally mine own =
      let off : (test : Seen → Bool) → counted store test x ≡ false =
        λ test. and_same (is_of store x) _ false mine (ap (λ k. not (is_own k) && test x) own) in
      record {
        accesses = still _ _ i.accesses (off (λ y. true));
        misses = still _ _ i.misses (off (λ y. is_miss_of store y && true));
        overlapping_misses =
            still _ _ i.overlapping_misses (off (λ y. is_miss_of store y && y.overlapping));
        approx_accesses = still _ _ i.approx_accesses (off (λ y. approx y.access.address));
        approx_misses =
            still _ _ i.approx_misses (off (λ y. is_miss_of store y && approx y.access.address));
        second_set = i.second_set;
        accesses_state = λ s. still _ _ (i.accesses_state s) (off (λ y. s =s y.access.state));
        misses_state = λ s.
            still _ _ (i.misses_state s) (off (λ y. is_miss_of store y && (s =s y.access.state)));
        prefetch_accesses =
            inc_if-tally (prefetch_test store) x seen true c.prefetch_accesses small
              i.prefetch_accesses (and_same (is_of store x) _ true mine (ap is_prefetch own));
      }

  -- An access that hits.
  hit-IsTally :
      (prefetches : ℕ)
      → is_of store x ≡ true
      → is_own x.access.kind ≡ false
      → is_miss_of store x ≡ false
      → prefetches ≡ count_if (prefetch_test store) (x ∷ seen)
      → IsTally approx store
          (x ∷ seen)
          (count_hit (setnum_of (approx x.access.address)) prefetches x.access.state c)
  unfolding count_hit
  hit-IsTally prefetches mine own hit pf =
      let (set_0, set_1) = setnum_lem (approx x.access.address) in
      record {
        accesses =
            inc_if-tally _ x seen true c.accesses small i.accesses
              (counted_lem (λ y. true) mine own);
        misses = still _ _ i.misses (hit_lem (λ y. true) mine own hit);
        overlapping_misses =
            still _ _ i.overlapping_misses (hit_lem (λ y. y.overlapping) mine own hit);
        approx_accesses = rw set_0 (
            inc_if-tally _ x seen (approx x.access.address) c.approx_accesses small
              i.approx_accesses (counted_lem (λ y. approx y.access.address) mine own));
        approx_misses =
            still _ _ i.approx_misses (hit_lem (λ y. approx y.access.address) mine own hit);
        second_set = (rw set_1 i.second_set.0, i.second_set.1);
        accesses_state = λ s.
            bump_lem c.accesses_state x.access.state s
            ∙ inc_if-tally _ x seen (s =s x.access.state) (c.accesses_state s) small
                (i.accesses_state s) (counted_lem (λ y. s =s y.access.state) mine own);
        misses_state =
            λ s. still _ _ (i.misses_state s) (hit_lem (λ y. s =s y.access.state) mine own hit);
        prefetch_accesses = pf;
      }

  -- An access that misses.
  miss-IsTally :
      (prefetches : ℕ)
      → is_of store x ≡ true
      → is_own x.access.kind ≡ false
      → is_miss_of store x ≡ true
      → prefetches ≡ count_if (prefetch_test store) (x ∷ seen)
      → IsTally approx store (x ∷ seen) (
          count_miss
            (setnum_of (approx x.access.address))
            x.overlapping
            x.access.state
            (count_hit (setnum_of (approx x.access.address)) prefetches x.access.state c))
  unfolding count_hit count_miss
  miss-IsTally prefetches mine own miss pf =
      let (set_0, set_1) = setnum_lem (approx x.access.address) in
      record {
        accesses =
            inc_if-tally _ x seen true c.accesses small i.accesses
              (counted_lem (λ y. true) mine own);
        misses =
            inc_if-tally _ x seen true c.misses small i.misses
              (missed_lem (λ y. true) mine own miss);
        overlapping_misses =
            inc_if-tally _ x seen x.overlapping c.overlapping_misses small i.overlapping_misses
              (missed_lem (λ y. y.overlapping) mine own miss);
        approx_accesses = rw set_0 (
            inc_if-tally _ x seen (approx x.access.address) c.approx_accesses small
              i.approx_accesses (counted_lem (λ y. approx y.access.address) mine own));
        approx_misses = rw set_0 (
            inc_if-tally _ x seen (approx x.access.address) c.approx_misses small i.approx_misses
              (missed_lem (λ y. approx y.access.address) mine own miss));
        second_set = (rw set_1 i.second_set.0, rw set_1 i.second_set.1);
        accesses_state = λ s.
            bump_lem c.accesses_state x.access.state s
            ∙ inc_if-tally _ x seen (s =s x.access.state) (c.accesses_state s) small
                (i.accesses_state s) (counted_lem (λ y. s =s y.access.state) mine own);
        misses_state = λ s.
            bump_lem c.misses_state x.access.state s
            ∙ inc_if-tally _ x seen (s =s x.access.state) (c.misses_state s) small
                (i.misses_state s) (missed_lem (λ y. s =s y.access.state) mine own miss);
        prefetch_accesses = pf;
      }

  kind-IsTally :
      (kind : PrefetchType)
      → x.access.kind ≡ kind
      → is_of store x ≡ true
      → IsTally approx store (x ∷ seen) (
          count_access kind
            (setnum_of (approx x.access.address))
            (is_miss_of store x)
            x.overlapping
            x.access.state
            c)
  unfolding count_access
  kind-IsTally own_prefetch e mine = own-IsTally mine e
  kind-IsTally no_prefetch e mine =
      let pf =
        still (prefetch_test store) _ i.prefetch_accesses
          (and_same (is_of store x) _ false mine (ap is_prefetch e)) in
      elim (Bool-cases (is_miss_of store x)) [
        | inl miss ↦ rw miss (miss-IsTally c.prefetch_accesses mine (ap is_own e) miss pf)
        | inr hit ↦ rw hit (hit-IsTally c.prefetch_accesses mine (ap is_own e) hit pf)
      ]
  kind-IsTally other_prefetch e mine =
      let pf =
        inc_if-tally (prefetch_test store) x seen true c.prefetch_accesses small i.prefetch_accesses
          (and_same (is_of store x) _ true mine (ap is_prefetch e)) in
      elim (Bool-cases (is_miss_of store x)) [
        | inl miss ↦ rw miss (miss-IsTally (inc_u64 c.prefetch_accesses) mine (ap is_own e) miss pf)
        | inr hit ↦ rw hit (hit-IsTally (inc_u64 c.prefetch_accesses) mine (ap is_own e) hit pf)
      ]

-- Both kinds.
pub record AreTallies (approx : ℕ → Bool) (seen : List Seen) (c : AccessCounters) : Type 0 where
  pub of_loads : IsTally approx false seen c.loads
  pub of_stores : IsTally approx true seen c.stores

none_seen : (approx : ℕ → Bool) (store : Bool) → IsTally approx store [] no_accesses
unfolding count_if
none_seen approx store = record {
  accesses = refl;
  misses = refl;
  overlapping_misses = refl;
  approx_accesses = refl;
  approx_misses = refl;
  second_set = (refl, refl);
  accesses_state = λ s. refl;
  misses_state = λ s. refl;
  prefetch_accesses = refl;
}

pub none_seen_lem :
    (approx : ℕ → Bool)
    → AreTallies approx [] (record { loads = no_accesses; stores = no_accesses })
none_seen_lem approx = record {
  of_loads = none_seen approx false;
  of_stores = none_seen approx true;
}

pub count_mem_op-AreTallies :
    (approx : ℕ → Bool) (x : Seen) (seen : List Seen) (c : AccessCounters) (op : MemOp)
    → x.access.mem_op_type ≡ op
    → suc (length seen) < u64_mod
    → AreTallies approx seen c
    → AreTallies approx (x ∷ seen) (
        count_mem_op op x.access.kind
          (setnum_of (approx x.access.address))
          x.access.cache_hit
          x.overlapping
          x.access.state
          c)
unfolding count_mem_op
count_mem_op-AreTallies approx x seen c write e small t = record {
  of_loads =
      other-IsTally approx false x seen c.loads small t.of_loads (ap (λ o. not (is_store o)) e);
  of_stores =
      kind-IsTally approx true x seen c.stores small t.of_stores x.access.kind refl (ap is_store e);
}
count_mem_op-AreTallies approx x seen c read e small t = record {
  of_loads =
      kind-IsTally approx false x seen c.loads small t.of_loads x.access.kind refl
        (ap (λ o. not (is_store o)) e);
  of_stores = other-IsTally approx true x seen c.stores small t.of_stores (ap is_store e);
}
count_mem_op-AreTallies approx x seen c read_ex e small t = record {
  of_loads =
      kind-IsTally approx false x seen c.loads small t.of_loads x.access.kind refl
        (ap (λ o. not (is_store o)) e);
  of_stores = other-IsTally approx true x seen c.stores small t.of_stores (ap is_store e);
}
