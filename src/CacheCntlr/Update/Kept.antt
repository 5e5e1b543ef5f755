-- ===== src/CacheCntlr/Update/Kept.antt =====
-- Each step of an update of a block leaves alone what `Only` names.
use sniper.Base.{
  ℕ, zero, suc, ◌≡◌, refl, ap, subst, some_inj, Bool, true, false, Option, none, some, List, [],
  ◌∷◌, ◌==◌, Option-cases, inl, inr, length, not, ◌&&◌, ◌||◌, if◌then◌else◌,
}
use sniper.Base.Results.{bind_inv, assert_inv, if_inv}
use sniper.CacheCntlr.{
  CState, invalid, shared, modified, ◌=s◌, is_cstate, Reason, Line, Config, DramInterface,
  Hierarchy, put_stats, retrieve_cache_block, get_cache_state, invalidate_cache_block,
}
use sniper.CacheCntlr.Update.{
  Updated, write_line, write_own, write_cache_block, write_back, write_dirty, change_state,
  update_block, count_transition, passed_reason, copy_out, copies_out, given, update_present,
  check_updated, update_own, update_prevs, update_cache_block,
}
use sniper.CacheCntlr.Update.Frame.{
  Only-refl, Only-trans, put_stats-Only, put_line-Only, put_evicting-Only, set_cstate-Only,
  modified-full, Only-subst, Only,
}

module _ (d : DramInterface) (address : ℕ) (t : ℕ → Config) where
  write_line-Only :
      (h : Hierarchy d) (k offset : ℕ) (data_buf : List ℕ) {h' : Hierarchy d}
      → write_line d t h k address offset data_buf ≡ some h'
      → Only d address h h'
  unfolding write_line
  write_line-Only h k offset data_buf e =
      let (line, there, e1) = bind_inv ((h.cntlrs k).lines address) e in
      let (dirty, e2) = assert_inv (line.cstate =s modified) e1 in
      Only-subst d address h e2 (
        put_line-Only d address h k _ (λ gone. absurd (cc (gone, there)))
          (λ l new.
            subst (λ (x : Line). (x.cstate =s invalid) ≡ false) (some_inj new)
              (modified-full d address line.cstate dirty)))

  write_own-Only :
      (h : Hierarchy d) (k offset : ℕ) (data_buf : List ℕ) {h' : Hierarchy d}
      → write_own d t h k address offset data_buf ≡ some h'
      → Only d address h h'
  unfolding write_own
  write_own-Only h k offset data_buf e = elim (Option-cases (h.cntlrs k).evicting) [
    | inl none_there ↦ write_line-Only h k offset data_buf (rw (none_there, write_own) at e)
    | inr (buf, there) ↦ elim (if_inv (address == buf.0) (rw (there, write_own) at e)) [
      | inl (_, e1) ↦
          let (_, e2) = assert_inv (offset == 0) e1 in
          let (_, e3) = assert_inv (length data_buf == (t k).block_size) e2 in
          Only-subst d address h e3 (put_evicting-Only d address h k _)
      | inr (_, e1) ↦ write_line-Only h k offset data_buf e1
    ]
  ]

  pub write_cache_block-Only :
      (n : ℕ) (h : Hierarchy d) (k offset : ℕ) (data_buf : List ℕ) {h' : Hierarchy d}
      → write_cache_block d t n h k address offset data_buf ≡ some h'
      → Only d address h h'
  unfolding write_cache_block
  write_cache_block-Only zero h k offset data_buf e = absurd (cc e)
  write_cache_block-Only (suc n) h k offset data_buf e =
      let (h1, own, e1) = bind_inv (write_own d t h k address offset data_buf) e in
      let p = write_own-Only h k offset data_buf own in
      elim (if_inv (t k).writethrough e1) [
        | inl (_, e2) ↦
            let (next, _, e3) = bind_inv (t k).next_cache_cntlr e2 in
            Only-trans d address h h1 _ p (write_cache_block-Only n h1 next offset data_buf e3)
        | inr (_, e2) ↦ Only-subst d address h e2 p
      ]

  write_back-Only :
      (n : ℕ) (h : Hierarchy d) (k : ℕ) (wanted : Bool) {h' : Hierarchy d} {w : Bool}
      {o : Option (List ℕ)}
      → write_back d t n h k address wanted ≡ some (h', w, o)
      → Only d address h h'
  unfolding write_back
  write_back-Only n h k wanted e = elim (if_inv (t k).writethrough e) [
    | inl (_, e1) ↦ Only-subst d address h (cc e1) (Only-refl d address h)
    | inr (_, e1) ↦ elim (Option-cases (t k).next_cache_cntlr) [
      | inl last ↦ elim (if_inv wanted (rw last at e1)) [
        | inl (_, e2) ↦
            let (_, _, e3) = bind_inv (retrieve_cache_block d h k address) e2 in
            Only-subst d address h (cc e3) (Only-refl d address h)
        | inr (_, e2) ↦ absurd (cc e2)
      ]
      | inr (next, there) ↦
          let (data_buf, _, e2) = bind_inv (retrieve_cache_block d h k address) (rw there at e1) in
          let (h1, written, e3) = bind_inv (write_cache_block d t n h next address 0 data_buf) e2 in
          Only-subst d address h (cc e3) (write_cache_block-Only n h next 0 data_buf written)
    ]
  ]

  write_dirty-Only :
      (n : ℕ) (h : Hierarchy d) (k : ℕ) (wanted : Bool) (line : Line) {h' : Hierarchy d} {w : Bool}
      {o : Option (List ℕ)}
      → write_dirty d t n h k address wanted line ≡ some (h', w, o)
      → Only d address h h'
  unfolding write_dirty
  write_dirty-Only n h k wanted line e = elim (if_inv (line.cstate =s modified) e) [
    | inl (_, e1) ↦
        let ((h1, _, _), written, e2) = bind_inv (write_back d t n h k address wanted) e1 in
        Only-subst d address h (cc e2) (
          Only-trans d address h h1 _ (write_back-Only n h k wanted written)
            (set_cstate-Only d address h1 k shared refl))
    | inr (_, e1) ↦ Only-subst d address h (cc e1) (Only-refl d address h)
  ]

  change_state-Only :
      (h : Hierarchy d) (k : ℕ) (new : CState) {h' : Hierarchy d}
      → change_state d t h k address new ≡ some h'
      → Only d address h h'
  unfolding change_state invalidate_cache_block
  change_state-Only h k invalid e = elim (if_inv (t k).coherent e) [
    | inl (_, e1) ↦
        let (_, e2) = assert_inv (not (get_cache_state d h k address =s modified)) e1 in
        let (_, e3) = assert_inv (not (get_cache_state d h k address =s invalid)) e2 in
        Only-subst d address h e3
          (put_line-Only d address h k none (λ _. refl) (λ l gone. absurd (cc gone)))
    | inr (_, e1) ↦ Only-subst d address h e1 (Only-refl d address h)
  ]
  change_state-Only h k shared e =
      Only-subst d address h e (set_cstate-Only d address h k shared refl)
  change_state-Only h k modified e =
      Only-subst d address h e (set_cstate-Only d address h k modified refl)
  change_state-Only h k _ e = absurd (cc e)

  update_present-Only :
      (n : ℕ) (h : Hierarchy d) (sibling_hit : Bool) (k : ℕ) (new : CState) (reason : Reason)
      (wanted : Bool) (line : Line) {r : Updated d}
      → update_present d t n h sibling_hit k address new reason wanted line ≡ some r
      → Only d address h r.hier
  unfolding update_present
  update_present-Only n h sibling_hit k new reason wanted line e =
      elim (if_inv ((new =s line.cstate) && wanted) e) [
        | inl (_, e1) ↦
            Only-subst d address h (ap some (ap (λ r. r.hier) (some_inj e1)))
              (Only-refl d address h)
        | inr (_, e1) ↦
            let h0 = put_stats d h k (count_transition reason new line (h.cntlrs k).stats) in
            let ((h1, w, o), dirty, e2) =
              bind_inv (write_dirty d t n h0 k address wanted line) e1 in
            let ((w', o'), _, e3) =
              bind_inv (copy_out d t h1 k address (copies_out d t new && wanted) (w, o)) e2 in
            let (h2, changed, e4) = bind_inv (change_state d t h1 k address new) e3 in
            Only-subst d address h (ap some (ap (λ r. r.hier) (some_inj e4))) (
              Only-trans d address h h0 h2 (put_stats-Only d address h k _) (
                Only-trans d address h0 h1 h2 (write_dirty-Only n h0 k wanted line dirty)
                  (change_state-Only h1 k new changed)))
      ]

  update_block-Only :
      (n : ℕ) (h : Hierarchy d) (sibling_hit : Bool) (k : ℕ) (new : CState) (reason : Reason)
      (wanted : Bool) {r : Updated d}
      → update_block d t n h sibling_hit k address new reason wanted ≡ some r
      → Only d address h r.hier
  unfolding update_block
  update_block-Only n h sibling_hit k new reason wanted e =
      elim (Option-cases ((h.cntlrs k).lines address)) [
        | inl gone ↦
            Only-subst d address h
              (ap some (ap (λ r. r.hier) (some_inj (rw (gone, update_block) at e))))
              (Only-refl d address h)
        | inr (line, there) ↦
            update_present-Only n h sibling_hit k new reason wanted line
              (rw (there, update_block) at e)
      ]

  pub update_own-Only :
      (n : ℕ) (h : Hierarchy d) (sibling_hit : Bool) (k : ℕ) (new : CState) (reason : Reason)
      (wanted : Bool) {r : Updated d}
      → update_own d t n h sibling_hit k address new reason wanted ≡ some r
      → Only d address h r.hier
  unfolding update_own check_updated
  update_own-Only n h sibling_hit k new reason wanted e =
      let (r, own, e1) =
        bind_inv (update_block d t n h sibling_hit k address new reason wanted) e in
      let (_, e2) =
        assert_inv
          ((get_cache_state d r.hier k address =s invalid)
            || (get_cache_state d r.hier k address =s new)
            || not (t k).coherent)
          e1 in
      let (_, e3) = assert_inv (if wanted then given d t r.out else true) e2 in
      Only-subst d address h (ap some (ap (λ r. r.hier) (some_inj e3)))
        (update_block-Only n h sibling_hit k new reason wanted own)

  pub update_prevs-Only :
      (update : ℕ → Hierarchy d → Option (Updated d))
      → ((j : ℕ) (g : Hierarchy d) (r : Updated d) → update j g ≡ some r → Only d address g r.hier)
      → (ks : List ℕ) (h : Hierarchy d) {h' : Hierarchy d} {l : ℕ} {hit : Bool}
      → update_prevs d t update ks h ≡ some (h', l, hit)
      → Only d address h h'
  unfolding update_prevs
  update_prevs-Only update each [] h e = Only-subst d address h (cc e) (Only-refl d address h)
  update_prevs-Only update each (k ∷ ks) h e =
      let (r, here, e1) = bind_inv (update k h) e in
      let ((h1, l1, hit1), rest, e2) = bind_inv (update_prevs d t update ks r.hier) e1 in
      Only-subst d address h (cc e2) (
        Only-trans d address h r.hier h1 (each k h r here)
          (update_prevs-Only update each ks r.hier rest))

  -- An updateCacheBlock that succeeds changes no line of another address in any cache, brings the
  -- line into no cache that did not hold it, leaves no line in the state INVALID if none was, and
  -- leaves the waiting requests, the misses, the DRAM and the messages as they were.
  pub update_cache_block-Only :
      (levels n : ℕ) (h : Hierarchy d) (k : ℕ) (new : CState) (reason : Reason) (wanted : Bool)
      {r : Updated d}
      → update_cache_block d t levels n h k address new reason wanted ≡ some r
      → Only d address h r.hier
  unfolding update_cache_block
  update_cache_block-Only levels zero h k new reason wanted e = absurd (cc e)
  update_cache_block-Only levels (suc n) h k new reason wanted e =
      let (_, e1) = assert_inv (is_cstate new) e in
      let ((h1, l, hit), prevs, e2) = bind_inv _ e1 in
      Only-trans d address h h1 _
        (update_prevs-Only _
          (λ j g r here. update_cache_block-Only levels n g j new (passed_reason reason) false here)
          (t k).prev_cache_cntlrs h prevs)
        (update_own-Only levels h1 hit k new reason wanted e2)
