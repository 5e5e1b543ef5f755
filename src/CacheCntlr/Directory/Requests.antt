-- ===== src/CacheCntlr/Directory/Requests.antt =====
-- What a last-level cache does for the requests of a directory, and for a reply to an upgrade.
use mathlib.Core.Bool.{false≢true}
use sniper.Base.{
  ◌==◌, ℕ, zero, suc, ◌≤◌, ◌≡◌, refl, ◌∙◌, ap, sym, subst, some_inj, Bool, true, false, Option,
  none, some, List, ◌∷◌, ◌++◌, length, Bool-cases, Option-cases, inl, inr, ◌⊎◌,
}
use sniper.Base.Results.{bind_inv, bind_cong_both, if_inv}
use sniper.CacheCntlr.{
  CState, invalid, modified, ◌=s◌, is_cstate, upgrade, coherency, Reason, Line, Config, Msg,
  inv_rep, flush_rep, DramInterface, Hierarchy, send, get_cache_state, state_of,
}
use sniper.CacheCntlr.Update.{
  Updated, update_prevs, update_own, update_block, check_updated, passed_reason, update_cache_block,
}
use sniper.CacheCntlr.Update.Frame.{Filled, modified-full}
use sniper.CacheCntlr.Update.Kept.{update_prevs-Only, update_cache_block-Only}
use sniper.CacheCntlr.Update.Invalidation.{Below, update_cache_block-gone}
use sniper.CacheCntlr.Update.Flush.{flush-dirty}
use sniper.CacheCntlr.Update.Leaves.{IsDirty, AreAbsent}
use sniper.CacheCntlr.Directory.{
  reply, update, process_inv_req, process_flush_req, process_upgrade_rep,
}

filled_invalid :
    (o : Option Line)
    → ((line : Line) → o ≡ some line → (line.cstate =s invalid) ≡ false)
    → (state_of o =s invalid) ≡ true
    → o ≡ none
filled_invalid none full e = refl
filled_invalid (some line) full e = absurd (false≢true (sym (full line refl) ∙ e))

module _ (d : DramInterface) (t : ℕ → Config) (levels : ℕ) (home : ℕ → ℕ)
    (victim : ℕ → (ℕ → Option Line) → ℕ → Option ℕ) (warming : Bool) where
  -- An invalidation request that is carried out.
  pub record IsInvalidated (h h' : Hierarchy d) (k sender : ℕ) (msg : Msg) : Type 0 where
    pub gone :
        (j : ℕ) → Below t k j → (t j).coherent ≡ true → (h'.cntlrs j).lines msg.address ≡ none
    pub others :
        (j x : ℕ) → (x == msg.address) ≡ false → (h'.cntlrs j).lines x ≡ (h.cntlrs j).lines x
    pub answered : h'.sent ≡ reply msg sender inv_rep none ∷ h.sent

  -- If no cache holds the line in the state INVALID, an invalidation request that succeeds either
  -- finds the cache without the line, changes nothing and is not answered; or no coherent cache at
  -- or before this one holds the line then, all other lines are as before, and one INV_REP is sent.
  pub process_inv_req_lem :
      (h : Hierarchy d) (k sender : ℕ) (msg : Msg) {h' : Hierarchy d}
      → Filled d msg.address h
      → process_inv_req d t levels home victim warming h k sender msg ≡ some h'
      → (((h.cntlrs k).lines msg.address ≡ none) × (h' ≡ h)) ⊎ IsInvalidated h h' k sender msg
  unfolding process_inv_req
  process_inv_req_lem h k sender msg full e =
      elim (if_inv (get_cache_state d h k msg.address =s invalid) e) [
        | inl (is_invalid, e1) ↦
            inl (
              filled_invalid ((h.cntlrs k).lines msg.address) (full k) is_invalid,
              sym (some_inj e1),
            )
        | inr (_, e1) ↦
            let (r, updated, e2) =
              bind_inv (update d t levels home victim warming h k msg.address invalid false) e1 in
            let o =
              update_cache_block-Only d msg.address t levels levels h k invalid coherency false
                updated in
            inr (
              subst (λ (x : Hierarchy d). IsInvalidated h x k sender msg) (some_inj e2)
                (record {
                  gone = λ j below coherent.
                      update_cache_block-gone d t msg.address levels levels h k coherency false j
                        full below coherent updated;
                  others = o.others;
                  answered = ap (λ (l : List Msg). reply msg sender inv_rep none ∷ l) o.same_sent;
                }))
      ]

  update_own-lost :
      (h : Hierarchy d) (hit : Bool) (k address : ℕ) (new : CState) (reason : Reason)
      → (h.cntlrs k).lines address ≡ none
      → update_own d t levels h hit k address new reason true ≡ none
  unfolding update_own check_updated update_block
  update_own-lost h hit k address new reason lost = rw (lost, update_block) (rw lost refl)

  -- An update of a line that the cache does not hold has no bytes for the buffer that is passed.
  update_cache_block-lost :
      (n : ℕ) (h : Hierarchy d) (k address : ℕ) (new : CState) (reason : Reason)
      → (h.cntlrs k).lines address ≡ none
      → update_cache_block d t levels n h k address new reason true ≡ none
  unfolding update_cache_block
  update_cache_block-lost zero h k address new reason lost = refl
  update_cache_block-lost (suc n) h k address new reason lost = elim (Bool-cases (is_cstate new)) [
    | inr special ↦ rw special refl
    | inl ordinary ↦
        let step = λ (j : ℕ) (g : Hierarchy d).
          update_cache_block d t levels n g j address new (passed_reason reason) false in
        elim (Option-cases (update_prevs d t step (t k).prev_cache_cntlrs h)) [
          | inl fails ↦ rw ordinary (bind_cong_both fails (λ _. refl))
          | inr ((h1, l, hit), prevs) ↦
              let o =
                update_prevs-Only d address t step
                  (λ j g r here.
                    update_cache_block-Only d address t levels n g j new (passed_reason reason)
                      false here)
                  (t k).prev_cache_cntlrs h prevs in
              rw ordinary (
                bind_cong_both prevs (λ _. refl)
                ∙ update_own-lost h1 hit k address new reason (o.absent k lost))
        ]
  ]

  -- A reply to an upgrade for a line that the cache does not hold always fails, also with the
  -- line's bytes in the message.
  pub process_upgrade_rep-lost :
      (h : Hierarchy d) (k : ℕ) (msg : Msg)
      → (h.cntlrs k).lines msg.address ≡ none
      → process_upgrade_rep d t levels home victim warming h k msg ≡ none
  unfolding process_upgrade_rep
  process_upgrade_rep-lost h k msg lost =
      let fails = update_cache_block-lost levels h k msg.address modified upgrade lost in
      elim (Option-cases msg.data_sent) [
        | inl empty ↦ rw (lost, empty) refl
        | inr (bytes, sent) ↦ rw (lost, sent) (bind_cong_both fails (λ _. refl))
      ]

  flush_answered :
      (h : Hierarchy d) (k sender : ℕ) (msg : Msg) (line : Line) (r : Updated d) (bytes : List ℕ)
      → (h.cntlrs k).lines msg.address ≡ some line
      → (line.cstate =s invalid) ≡ false
      → update d t levels home victim warming h k msg.address invalid true ≡ some r
      → r.out ≡ some bytes
      → process_flush_req d t levels home victim warming h k sender msg
        ≡ some (send d r.hier (reply msg sender flush_rep (some bytes)))
  unfolding process_flush_req
  flush_answered h k sender msg line r bytes there valid updated out =
      rw (there, valid) (bind_cong_both updated (λ _. refl) ∙ rw out refl)

  -- A flush request for a MODIFIED line of the last-level cache, which exactly one of its
  -- first-level caches has written since, succeeds: it is answered with that cache's bytes, and
  -- neither cache holds the line then.
  pub process_flush_req-dirty :
      (h : Hierarchy d) (k sender : ℕ) (msg : Msg) (first others : List ℕ) (j up : ℕ)
      (line above : Line)
      → levels ≡ suc (suc up)
      → (t k).prev_cache_cntlrs ≡ first ++ j ∷ others
      → (t k).next_cache_cntlr ≡ none
      → (t k).coherent ≡ true
      → length above.data_buf ≤ length line.data_buf
      → IsDirty d t msg.address levels up h j k line above
      → AreAbsent d t msg.address levels up h first
      → AreAbsent d t msg.address levels up h others
      → (h' : Hierarchy d) × (process_flush_req d t levels home victim warming h k sender msg
          ≡ some h')
        × (h'.sent ≡ reply msg sender flush_rep (some line.data_buf) ∷ h.sent)
        × ((h'.cntlrs k).lines msg.address ≡ none)
        × ((h'.cntlrs j).lines msg.address ≡ none)
  unfolding process_flush_req
  process_flush_req-dirty h k sender msg first others j up line above lv prevs last coh le i n1 n2 =
      let (r, updated, out, gone, gone') =
        flush-dirty d t msg.address levels up h first others j k (suc up) line above lv prevs last
          coh le i n1 n2 in
      let updated' =
        subst
          (λ (n : ℕ).
            update_cache_block d t levels n h k msg.address invalid coherency true ≡ some r)
          (sym lv) updated in
      let o =
        update_cache_block-Only d msg.address t levels levels h k invalid coherency true updated' in
      (
        send d r.hier (reply msg sender flush_rep (some line.data_buf)),
        flush_answered h k sender msg above r line.data_buf i.held_above
            (modified-full d msg.address above.cstate i.written_above) updated' out,
        ap (λ (l : List Msg). reply msg sender flush_rep (some line.data_buf) ∷ l) o.same_sent,
        gone,
        gone',
      )
