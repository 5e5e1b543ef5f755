-- ===== src/CacheCntlr/Update/Fuel.antt =====
-- The walks of an update end: the number of levels is fuel enough, and more changes nothing.
use mathlib.Core.List.{Memᴰ}
use sniper.Base.{
  ℕ, zero, suc, ◌≤◌, ◌≡◌, refl, Bool, false, ◌&&◌, Option, some, List, [], ◌∷◌, arith, Option-cases,
  inl, inr,
}
use sniper.Base.Results.{assert, bind_cong, bind_cong_both, if_cong}
use sniper.CacheCntlr.{
  CState, ◌=s◌, is_cstate, modified, Reason, Line, Config, DramInterface, Hierarchy, put_stats,
  retrieve_cache_block,
}
use sniper.CacheCntlr.Update.{
  Updated, write_own, write_body, write_cache_block, write_back, write_dirty, count_transition,
  passed_reason, update_present, update_block, update_own, update_prevs, update_body,
  update_cache_block,
}

module _ (t : ℕ → Config) where
  -- At most `n` controllers in a row, from `k` on to the next caches.
  pub data Rises : ℕ → ℕ → Type 0 where
    rise :
        {n k : ℕ}
        → ((next : ℕ) → (t k).next_cache_cntlr ≡ some next → Rises n next)
        → Rises (suc n) k

  -- At most `n` levels, `k` and those before it.
  pub data Within : ℕ → ℕ → Type 0 where
    within : {n k : ℕ} → ((i : ℕ) → Memᴰ i (t k).prev_cache_cntlrs → Within n i) → Within (suc n) k

module _ (d : DramInterface) (t : ℕ → Config) (address : ℕ) where
  write_cache_block-enough :
      (n m : ℕ) (h : Hierarchy d) (k offset : ℕ) (data_buf : List ℕ)
      → Rises t n k
      → n ≤ m
      → write_cache_block d t m h k address offset data_buf
        ≡ write_cache_block d t n h k address offset data_buf
  unfolding write_cache_block
  write_cache_block-enough zero m h k offset data_buf up le = elim up [ ]
  write_cache_block-enough (suc n) zero h k offset data_buf (rise up) le = absurd (omega arith)
  write_cache_block-enough (suc n) (suc m) h k offset data_buf (rise up) le =
      bind_cong (write_own d t h k address offset data_buf) (λ h1 _.
        if_cong (t k).writethrough
          (bind_cong (t k).next_cache_cntlr (λ next there.
            write_cache_block-enough n m h1 next offset data_buf (up next there) (omega arith)))
          refl)

  write_back-enough :
      (levels more : ℕ) (h : Hierarchy d) (k : ℕ) (wanted : Bool)
      → ((next : ℕ) → (t k).next_cache_cntlr ≡ some next → Rises t levels next)
      → levels ≤ more
      → write_back d t more h k address wanted ≡ write_back d t levels h k address wanted
  unfolding write_back
  write_back-enough levels more h k wanted up le = elim (Option-cases (t k).next_cache_cntlr) [
    | inl last ↦ rw last refl
    | inr (next, there) ↦ rw there (
        if_cong (t k).writethrough refl (
          bind_cong (retrieve_cache_block d h k address) (λ data_buf _.
            bind_cong_both
              (write_cache_block-enough levels more h next 0 data_buf (up next there) le)
              (λ h'. refl))))
  ]

  update_present-enough :
      (levels more : ℕ) (h : Hierarchy d) (sibling_hit : Bool) (k : ℕ) (new : CState)
      (reason : Reason) (wanted : Bool) (line : Line)
      → ((next : ℕ) → (t k).next_cache_cntlr ≡ some next → Rises t levels next)
      → levels ≤ more
      → update_present d t more h sibling_hit k address new reason wanted line
        ≡ update_present d t levels h sibling_hit k address new reason wanted line
  unfolding update_present write_dirty
  update_present-enough levels more h sibling_hit k new reason wanted line up le =
      if_cong ((new =s line.cstate) && wanted) refl (
        bind_cong_both
          (if_cong (line.cstate =s modified)
            (bind_cong_both
              (write_back-enough levels more
                (put_stats d h k (count_transition reason new line (h.cntlrs k).stats)) k wanted up
                le)
              (λ _. refl))
            refl)
          (λ _. refl))

  update_block-enough :
      (levels more : ℕ) (h : Hierarchy d) (sibling_hit : Bool) (k : ℕ) (new : CState)
      (reason : Reason) (wanted : Bool)
      → ((next : ℕ) → (t k).next_cache_cntlr ≡ some next → Rises t levels next)
      → levels ≤ more
      → update_block d t more h sibling_hit k address new reason wanted
        ≡ update_block d t levels h sibling_hit k address new reason wanted
  unfolding update_block
  update_block-enough levels more h sibling_hit k new reason wanted up le =
      elim (Option-cases ((h.cntlrs k).lines address)) [
        | inl gone ↦ rw (gone, update_block) refl
        | inr (line, there) ↦
            rw (there, update_block)
              (update_present-enough levels more h sibling_hit k new reason wanted line up le)
      ]

  update_own-enough :
      (levels more : ℕ) (h : Hierarchy d) (sibling_hit : Bool) (k : ℕ) (new : CState)
      (reason : Reason) (wanted : Bool)
      → ((next : ℕ) → (t k).next_cache_cntlr ≡ some next → Rises t levels next)
      → levels ≤ more
      → update_own d t more h sibling_hit k address new reason wanted
        ≡ update_own d t levels h sibling_hit k address new reason wanted
  unfolding update_own
  update_own-enough levels more h sibling_hit k new reason wanted up le =
      bind_cong_both (update_block-enough levels more h sibling_hit k new reason wanted up le)
        (λ _. refl)

  update_prevs-cong :
      (f g : ℕ → Hierarchy d → Option (Updated d)) (ks : List ℕ)
      → ((i : ℕ) → Memᴰ i ks → (h : Hierarchy d) → f i h ≡ g i h)
      → (h : Hierarchy d) → update_prevs d t f ks h ≡ update_prevs d t g ks h
  unfolding update_prevs
  update_prevs-cong f g [] same h = refl
  update_prevs-cong f g (k ∷ ks) same h = bind_cong_both (same k (Memᴰ.head refl) h) (λ r.
      bind_cong_both (update_prevs-cong f g ks (λ i m. same i (Memᴰ.tail m)) r.hier) (λ _. refl))

  update_cache_block-enough :
      (levels more : ℕ)
      → levels ≤ more
      → ((k next : ℕ) → (t k).next_cache_cntlr ≡ some next → Rises t levels next)
      → (n m : ℕ) (h : Hierarchy d) (k : ℕ) (new : CState) (reason : Reason) (wanted : Bool)
      → Within t n k
      → n ≤ m
      → update_cache_block d t more m h k address new reason wanted
        ≡ update_cache_block d t levels n h k address new reason wanted
  unfolding update_cache_block
  update_cache_block-enough levels more lm up zero m h k new reason wanted w le = elim w [ ]
  update_cache_block-enough levels more lm up (suc n) zero h k new reason wanted w le =
      absurd (omega arith)
  update_cache_block-enough levels more lm up (suc n) (suc m) h k new reason wanted (within w) le =
      bind_cong (assert (is_cstate new)) (λ _ _.
        bind_cong_both
          (update_prevs-cong _ _ (t k).prev_cache_cntlrs
            (λ i mem g.
              update_cache_block-enough levels more lm up n m g i new (passed_reason reason) false
                (w i mem) (omega arith))
            h)
          (λ _. update_own-enough levels more _ _ k new reason wanted (up k) lm))

  -- The two walks, where calls n levels deep return what `stop` does.
  unfoldable pub write_or :
      (ℕ → Hierarchy d → Option (Hierarchy d))
      → ℕ
      → Hierarchy d
      → ℕ
      → ℕ
      → List ℕ
      → Option (Hierarchy d)
  write_or stop zero h k offset data_buf = stop k h
  write_or stop (suc n) h k offset data_buf =
      write_body d t (λ next g. write_or stop n g next offset data_buf) h k address offset data_buf

  unfoldable pub update_or :
      (ℕ → Hierarchy d → Option (Updated d))
      → ℕ
      → ℕ
      → Hierarchy d
      → ℕ
      → CState
      → Reason
      → Bool
      → Option (Updated d)
  update_or stop levels zero h k new reason wanted = stop k h
  update_or stop levels (suc n) h k new reason wanted =
      update_body d t levels (λ j g. update_or stop levels n g j new (passed_reason reason) false) h
        k address new reason wanted

  write_cache_block-ends :
      (stop : ℕ → Hierarchy d → Option (Hierarchy d)) (n : ℕ) (h : Hierarchy d) (k offset : ℕ)
      (data_buf : List ℕ)
      → Rises t n k
      → write_or stop n h k offset data_buf ≡ write_cache_block d t n h k address offset data_buf
  unfolding write_cache_block write_or
  write_cache_block-ends stop zero h k offset data_buf up = elim up [ ]
  write_cache_block-ends stop (suc n) h k offset data_buf (rise up) =
      bind_cong (write_own d t h k address offset data_buf) (λ h1 _.
        if_cong (t k).writethrough
          (bind_cong (t k).next_cache_cntlr
            (λ next there. write_cache_block-ends stop n h1 next offset data_buf (up next there)))
          refl)

  update_walk-ends :
      (stop : ℕ → Hierarchy d → Option (Updated d)) (levels n : ℕ) (h : Hierarchy d) (k : ℕ)
      (new : CState) (reason : Reason) (wanted : Bool)
      → Within t n k
      → update_or stop levels n h k new reason wanted
        ≡ update_cache_block d t levels n h k address new reason wanted
  unfolding update_cache_block update_or
  update_walk-ends stop levels zero h k new reason wanted w = elim w [ ]
  update_walk-ends stop levels (suc n) h k new reason wanted (within w) =
      bind_cong (assert (is_cstate new)) (λ _ _.
        bind_cong_both
          (update_prevs-cong _ _ (t k).prev_cache_cntlrs
            (λ i mem g.
              update_walk-ends stop levels n g i new (passed_reason reason) false (w i mem))
            h)
          (λ _. refl))

  -- If at most `levels` controllers stand in a row from any next cache on, and at most n levels
  -- before a controller, then updateCacheBlock on that controller ends within this fuel: the result
  -- does not depend on what a call n levels deep would do, so no such call is made; neither does
  -- any write to a next cache and those behind it on a call that is `levels` deep; and with more
  -- fuel the result is the same.
  pub update_cache_block-ends :
      (levels : ℕ)
      → ((k next : ℕ) → (t k).next_cache_cntlr ≡ some next → Rises t levels next)
      → (n : ℕ) (h : Hierarchy d) (k : ℕ) (new : CState) (reason : Reason) (wanted : Bool)
      → Within t n k
      → ((stop : ℕ → Hierarchy d → Option (Updated d))
          → update_or stop levels n h k new reason wanted
            ≡ update_cache_block d t levels n h k address new reason wanted)
        × ((stop : ℕ → Hierarchy d → Option (Hierarchy d)) (g : Hierarchy d) (j next offset : ℕ)
              (data_buf : List ℕ)
            → (t j).next_cache_cntlr ≡ some next
            → write_or stop levels g next offset data_buf
              ≡ write_cache_block d t levels g next address offset data_buf)
        × ((more m : ℕ)
            → levels ≤ more
            → n ≤ m
            → update_cache_block d t more m h k address new reason wanted
              ≡ update_cache_block d t levels n h k address new reason wanted)
  update_cache_block-ends levels up n h k new reason wanted w = (
    λ stop. update_walk-ends stop levels n h k new reason wanted w,
    λ stop g j next offset data_buf there.
        write_cache_block-ends stop levels g next offset data_buf (up j next there),
    λ more m lm le. update_cache_block-enough levels more lm up n m h k new reason wanted w le,
  )
