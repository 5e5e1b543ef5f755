-- ===== src/Lru2/Replacement.antt =====
-- The way that `getReplacementIndex` gives up: an empty one, or the least recently used of its
-- segment.
use sniper.Base.{
  ℕ, ◌-◌, ◌≤◌, ◌<◌, ◌≡◌, ◌≢◌, ◌↔◌, sym, ◌∙◌, inl, inr, List, Bool, true, false, ltb, if◌then◌else◌,
  arith, Bool-cases, ltb→lt, ltb→le, lt→ltb, le→ltb, none, some, u8_mod,
}
use mathlib.Core.Bool.{false≢true}
use sniper.BlockInfo.{BlockInfo, is_valid_way, is_valid_replacement}
use sniper.Lru2.{
  Lru2, age_at, create, update_replacement_index, first_invalid, oldest_way, replace_in,
  get_replacement_index,
}
use sniper.Lru2.Victim.{first_invalid_cases, oldest_way_lem}
use sniper.Lru2.Segments.{create-IsLru}
use sniper.Lru2.Recency.{
  run_uses, used_after, AllBelow, SameSegment, run_uses-recency, run_uses-associativity,
}

lt_irrefl_at : (a c : ℕ) → a ≤ c → c < a → ⊥
lt_irrefl_at a c h k = omega arith

-- The ways open to a block: exact ones lie below the margin, approximate ones from it on.
abbrev pub first_way : Lru2 → Bool → ℕ
first_way s approx_flag = if approx_flag then s.approx_margin else 0

abbrev pub end_way : Lru2 → Bool → ℕ
end_way s approx_flag = if approx_flag then s.associativity else s.approx_margin

module _ (b : BlockInfo) (blocks : List b.Info) where
  -- Way `k` of `lo` .. `hi` - 1 is the first that is empty, or none is and no replaceable way is older.
  pub data Victim (s : Lru2) (lo hi k : ℕ) : Type 0 where
    empty :
        lo ≤ k
        → k < hi
        → is_valid_way b blocks k ≡ false
        → ((j : ℕ) → lo ≤ j → j < k → is_valid_way b blocks j ≡ true)
        → Victim s lo hi k
    oldest :
        lo ≤ k
        → k < hi
        → ((j : ℕ) → lo ≤ j → j < hi → is_valid_way b blocks j ≡ true)
        → ((j : ℕ)
            → lo ≤ j
            → j < hi
            → is_valid_replacement b blocks j ≡ true
            → age_at s.lru_bits j ≤ age_at s.lru_bits k)
        → Victim s lo hi k

  replace_in_lem :
      (s : Lru2) (lo hi : ℕ)
      → lo < hi
      → (k : ℕ) × (replace_in b blocks s lo hi ≡ some (k, update_replacement_index s k))
        × Victim s lo hi k
  unfolding replace_in
  replace_in_lem s lo hi h = elim (first_invalid_cases b blocks (hi - lo) lo) [
    | inr (k, e, p, q, v, all) ↦ (k, rw (e, replace_in), empty p (omega arith) v all)
    | inl (e, all) ↦
        let o = oldest_way_lem b blocks s.lru_bits (hi - lo) lo (omega arith) in
        let k = oldest_way b blocks s.lru_bits (hi - lo) lo in
        (
          k,
          rw (e, replace_in) (rw (lt→ltb k hi (omega (arith, o.1)))),
          oldest o.0 (omega (arith, o.1)) (λ j p q. all j p (omega arith))
              (λ j p q. o.2 j p (omega arith)),
        )
  ]

  no_empty : (n lo : ℕ) → n ≡ 0 → first_invalid b blocks n lo ≡ none
  unfolding first_invalid
  no_empty n lo e = rw e

  no_oldest : (bits : List ℕ) (n lo : ℕ) → n ≡ 0 → oldest_way b blocks bits n lo ≡ lo
  unfolding oldest_way
  no_oldest bits n lo e = rw e

  replace_in-none : (s : Lru2) (lo hi : ℕ) → hi ≤ lo → replace_in b blocks s lo hi ≡ none
  unfolding replace_in
  replace_in-none s lo hi h =
      rw (no_empty (hi - lo) lo (omega arith), replace_in)
        (rw (no_oldest s.lru_bits (hi - lo) lo (omega arith)) (rw (le→ltb lo hi h)))

  -- A segment that has a way always has a victim, which counts as used: its first empty way, or
  -- without one a way that no replaceable way of the segment is older than.
  pub get_replacement_index-Victim :
      (s : Lru2) (approx_flag : Bool)
      → first_way s approx_flag < end_way s approx_flag
      → (k : ℕ) × (get_replacement_index b s blocks approx_flag
          ≡ some (k, update_replacement_index s k))
        × Victim s (first_way s approx_flag) (end_way s approx_flag) k
  unfolding get_replacement_index
  get_replacement_index-Victim s true h = replace_in_lem s s.approx_margin s.associativity h
  get_replacement_index-Victim s false h = replace_in_lem s 0 s.approx_margin h

  -- The assertion of getReplacementIndex fails exactly if the block's segment has no way.
  pub get_replacement_index-none :
      (s : Lru2) (approx_flag : Bool)
      → (get_replacement_index b s blocks approx_flag ≡ none)
        ↔ (end_way s approx_flag ≤ first_way s approx_flag)
  unfolding get_replacement_index
  get_replacement_index-none s approx_flag = (refused approx_flag, fails approx_flag)
    where
      fails : (f : Bool) → end_way s f ≤ first_way s f → get_replacement_index b s blocks f ≡ none
      fails true h = replace_in-none s s.approx_margin s.associativity h
      fails false h = replace_in-none s 0 s.approx_margin h

      refused : (f : Bool) → get_replacement_index b s blocks f ≡ none → end_way s f ≤ first_way s f
      refused f e = elim (Bool-cases (ltb (first_way s f) (end_way s f))) [
        | inr le ↦ ltb→le (first_way s f) (end_way s f) le
        | inl lt ↦
            let v = get_replacement_index-Victim s f (ltb→lt (first_way s f) (end_way s f) lt) in
            absurd (cc (sym e ∙ v.1))
      ]

  -- Every way of the segment holds a block that may be replaced.
  abbrev pub IsFull : Lru2 → Bool → Type 0
  IsFull s approx_flag =
      (j : ℕ)
      → first_way s approx_flag ≤ j
      → j < end_way s approx_flag
      → (is_valid_way b blocks j ≡ true) × (is_valid_replacement b blocks j ≡ true)

  module _ (n : ℕ) (uses : List ℕ) (approx_flag : Bool) (pos : 0 < n) (byte : n ≤ u8_mod)
      (below : AllBelow n uses) where
    abbrev now : Lru2
    now = run_uses (create n) uses

    -- In a set of 1 to 256 ways that was used in any order since it was created, a segment that has
    -- a way and whose ways all hold replaceable blocks has a victim: getReplacementIndex returns
    -- one of its ways and counts it as used, and the way was used after no other way of the
    -- segment.
    pub least_recently_used :
        first_way now approx_flag < end_way now approx_flag
        → IsFull now approx_flag
        → (k : ℕ) × (get_replacement_index b now blocks approx_flag
            ≡ some (k, update_replacement_index now k))
          × (first_way now approx_flag ≤ k)
          × (k < end_way now approx_flag)
          × ((j : ℕ)
              → first_way now approx_flag ≤ j
              → j < end_way now approx_flag
              → k ≢ j
              → used_after k j uses ≡ false)
    unfolding create
    least_recently_used some_way full =
        let (k, e, v) = get_replacement_index-Victim now approx_flag some_way in
        (k, e, (bounds k v).0, (bounds k v).1, λ j p q ne. oldest_last k v j p q ne)
      where
        bounds :
            (k : ℕ)
            → Victim now (first_way now approx_flag) (end_way now approx_flag) k
            → (first_way now approx_flag ≤ k) × (k < end_way now approx_flag)
        bounds k (empty p q _ _) = (p, q)
        bounds k (oldest p q _ _) = (p, q)

        same :
            (f : Bool) (i j : ℕ)
            → first_way now f ≤ i
            → i < end_way now f
            → first_way now f ≤ j
            → j < end_way now f
            → SameSegment (create n).approx_margin (create n).associativity i j
        same true i j p q r t = inr (omega (arith, run_uses-associativity (create n) uses))
        same false i j p q r t = inl (omega (arith, run_uses-associativity (create n) uses))

        oldest_last :
            (k : ℕ)
            → Victim now (first_way now approx_flag) (end_way now approx_flag) k
            → (j : ℕ) → first_way now approx_flag ≤ j
            → j < end_way now approx_flag
            → k ≢ j
            → used_after k j uses ≡ false
        oldest_last k (empty p q gone _) j r t ne = absurd (false≢true (sym gone ∙ (full k p q).0))
        oldest_last k (oldest p q _ old) j r t ne = elim (Bool-cases (used_after k j uses)) [
          | inr no_later ↦ no_later
          | inl later ↦ absurd (
              lt_irrefl_at _ _ (old j r t (full j r t).1) (
                run_uses-recency (create n) uses k j below (create-IsLru n pos byte)
                  (same approx_flag k j p q r t) ne later))
        ]
