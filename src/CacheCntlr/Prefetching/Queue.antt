-- ===== src/CacheCntlr/Prefetching/Queue.antt =====
-- The length of the prefetch queue, and which addresses it holds and gives.
use mathlib.Core.List.{Memᴰ}
use sniper.Base.{
  ℕ, ◌≤◌, ◌<◌, ◌≡◌, refl, ◌⊎◌, inl, inr, Bool, true, false, not, ◌&&◌, ◌||◌, Option, none, some,
  List, [], ◌∷◌, ◌++◌, ltb, length, length-append, arith, Bool-cases, ltb→le,
}
use sniper.CacheCntlr.Prefetching.{enqueue_all, next_prefetch, train_prefetcher, PrefetchQueue}

module _ (readable_line : ℕ → Bool) where
  -- A queue of at most 33 addresses of lines that cannot be read.
  pub record IsQueue (queue : List ℕ) : Type 0 where
    pub bounded : length queue ≤ 33
    pub unreadable : (x : ℕ) → Memᴰ x queue → readable_line x ≡ false

  Mem-snoc : (x y : ℕ) (xs : List ℕ) → Memᴰ x (xs ++ y ∷ []) → Memᴰ x xs ⊎ (x ≡ y)
  Mem-snoc x y [] (Memᴰ.head e) = inr e
  Mem-snoc x y [] (Memᴰ.tail h) = elim h [ ]
  Mem-snoc x y (z ∷ xs) (Memᴰ.head e) = inl (Memᴰ.head e)
  Mem-snoc x y (z ∷ xs) (Memᴰ.tail h) = elim (Mem-snoc x y xs h) [
    | inl m ↦ inl (Memᴰ.tail m)
    | inr e ↦ inr e
  ]

  enqueue_all-IsQueue :
      (proposed queue : List ℕ) → IsQueue queue → IsQueue (enqueue_all readable_line proposed queue)
  unfolding enqueue_all
  enqueue_all-IsQueue [] queue i = i
  enqueue_all-IsQueue (address ∷ proposed) queue i = elim (Bool-cases (ltb 32 (length queue))) [
    | inl full ↦ rw full i
    | inr room ↦
        let le = ltb→le 32 (length queue) room in
        rw room (
          enqueue_all-IsQueue proposed _ (elim (Bool-cases (readable_line address)) [
            | inl readable ↦ rw readable i
            | inr missing ↦ rw missing (record {
              bounded = let e = length-append queue (address ∷ []) in omega (arith, e, le);
              unreadable = λ x h. elim (Mem-snoc x address queue h) [
                | inl m ↦ i.unreadable x m
                | inr e ↦ rw e missing
              ];
            })
          ]))
  ]

  -- What is taken from the queue: nothing is left, or an address, and what stood after it.
  pub record IsTaken (queue : List ℕ) (taken : Option ℕ) (left : List ℕ) : Type 0 where
    pub shorter : length left ≤ length queue
    pub rest : (x : ℕ) → Memᴰ x left → Memᴰ x queue
    pub outcome :
        ((taken ≡ none) × (left ≡ []) × ((x : ℕ) → Memᴰ x queue → readable_line x ≡ true))
        ⊎ ((address : ℕ) × (taken ≡ some address)
            × Memᴰ address queue
            × (readable_line address ≡ false)
            × (length left < length queue))

  -- The loop of Prefetch either empties the queue, when every line in it can be read, or takes an
  -- address of a line that cannot be read; what is left then stood in the queue and is shorter.
  pub next_prefetch-IsTaken :
      (queue : List ℕ)
      → IsTaken queue (next_prefetch readable_line queue).0 (next_prefetch readable_line queue).1
  unfolding next_prefetch
  next_prefetch-IsTaken [] = record {
    shorter = omega arith;
    rest = λ x h. h;
    outcome = inl (refl, refl, λ x h. elim h [ ]);
  }
  next_prefetch-IsTaken (address ∷ queue) = elim (Bool-cases (readable_line address)) [
    | inl readable ↦
        let i = next_prefetch-IsTaken queue in
        let le = i.shorter in
        rw readable (record {
          shorter = omega (arith, le);
          rest = λ x h. Memᴰ.tail (i.rest x h);
          outcome = elim i.outcome [
            | inl (t, l, all) ↦
                inl (t, l, λ x h. elim h [ Memᴰ.head e ↦ rw e readable | Memᴰ.tail m ↦ all x m ])
            | inr (a, t, m, missing, lt) ↦ inr (a, t, Memᴰ.tail m, missing, omega (arith, lt))
          ];
        })
    | inr missing ↦ rw missing (record {
      shorter = omega arith;
      rest = λ x h. Memᴰ.tail h;
      outcome = inr (address, refl, Memᴰ.head refl, missing, omega arith);
    })
  ]

  -- If the queue holds at most 33 addresses, all of lines that cannot be read, then so does the one
  -- that trainPrefetcher leaves.
  pub train_prefetcher-IsQueue :
      (proposed : List ℕ) (interval : ℕ) (on_prefetch_hit cache_hit prefetch_hit : Bool)
      (t_issue : ℕ) (q : PrefetchQueue)
      → IsQueue q.prefetch_list
      → IsQueue
          (train_prefetcher readable_line proposed interval on_prefetch_hit cache_hit prefetch_hit
            t_issue q).prefetch_list
  unfolding train_prefetcher
  train_prefetcher-IsQueue proposed interval on cache_hit prefetch_hit t_issue q i =
      elim (Bool-cases (not cache_hit || (on && prefetch_hit))) [
        | inl train ↦ rw train (
            enqueue_all-IsQueue proposed []
              (record { bounded = omega arith; unreadable = λ x h. elim h [ ] }))
        | inr keep ↦ rw keep i
      ]
