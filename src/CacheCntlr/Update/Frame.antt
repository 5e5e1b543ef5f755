-- ===== src/CacheCntlr/Update/Frame.antt =====
-- What an update of a block leaves alone: other addresses' lines, the absence of a line, the queues,
-- the memory and the messages.
use sniper.Base.{
  ℕ, ◌≡◌, refl, ◌∙◌, ap, subst, some_inj, true, false, Option, none, some, List, ◌==◌, arith,
}
use sniper.CacheCntlr.{
  CState, invalid, modified, ◌=s◌, Line, Stats, DramInterface, Hierarchy, put, put_stats, put_line,
  with_cstate, set_cstate,
}

module _ (d : DramInterface) (address : ℕ) where
  -- No cache holds the line in the state INVALID: a line that is invalidated is gone.
  abbrev pub Filled : Hierarchy d → Type 0
  Filled h =
      (j : ℕ) (line : Line)
      → (h.cntlrs j).lines address ≡ some line
      → (line.cstate =s invalid) ≡ false

  pub record Only (h h' : Hierarchy d) : Type 0 where
    pub others : (j x : ℕ) → (x == address) ≡ false → (h'.cntlrs j).lines x ≡ (h.cntlrs j).lines x
    pub absent : (j : ℕ) → (h.cntlrs j).lines address ≡ none → (h'.cntlrs j).lines address ≡ none
    pub filled : Filled h → Filled h'
    pub same_waiters : (j : ℕ) → (h'.cntlrs j).directory_waiters ≡ (h.cntlrs j).directory_waiters
    pub same_mshr : (j : ℕ) → (h'.cntlrs j).mshr ≡ (h.cntlrs j).mshr
    pub same_dram : h'.dram ≡ h.dram
    pub same_sent : h'.sent ≡ h.sent

  pub Only-refl : (h : Hierarchy d) → Only h h
  Only-refl h = record {
    others = λ j x e. refl;
    absent = λ j e. e;
    filled = λ f. f;
    same_waiters = λ j. refl;
    same_mshr = λ j. refl;
    same_dram = refl;
    same_sent = refl;
  }

  pub Only-trans : (h h1 h2 : Hierarchy d) → Only h h1 → Only h1 h2 → Only h h2
  Only-trans h h1 h2 p q = record {
    others = λ j x e. q.others j x e ∙ p.others j x e;
    absent = λ j e. q.absent j (p.absent j e);
    filled = λ f. q.filled (p.filled f);
    same_waiters = λ j. q.same_waiters j ∙ p.same_waiters j;
    same_mshr = λ j. q.same_mshr j ∙ p.same_mshr j;
    same_dram = q.same_dram ∙ p.same_dram;
    same_sent = q.same_sent ∙ p.same_sent;
  }

  -- A controller that keeps its lines and its queues.
  pub put-Only :
      (h : Hierarchy d) (k : ℕ) (evicting : Option (ℕ × List ℕ)) (s : Stats)
      → Only h (put d h k (record (h.cntlrs k) { evicting = evicting; stats = s }))
  put-Only h k evicting s = record {
    others = λ j x e. ground arith;
    absent = λ j e. ground arith;
    filled = λ f j line e. ground (arith, f j line);
    same_waiters = λ j. ground arith;
    same_mshr = λ j. ground arith;
    same_dram = refl;
    same_sent = refl;
  }

  pub put_stats-Only : (h : Hierarchy d) (k : ℕ) (s : Stats) → Only h (put_stats d h k s)
  put_stats-Only h k s = put-Only h k (h.cntlrs k).evicting s

  pub put_line-Only :
      (h : Hierarchy d) (k : ℕ) (line : Option Line)
      → ((h.cntlrs k).lines address ≡ none → line ≡ none)
      → ((l : Line) → line ≡ some l → (l.cstate =s invalid) ≡ false)
      → Only h (put_line d h k address line)
  put_line-Only h k line kept full = record {
    others = λ j x e. ground arith;
    absent = λ j e. ground (arith, kept);
    filled = λ f j l e. ground (arith, f j l, full l);
    same_waiters = λ j. ground arith;
    same_mshr = λ j. ground arith;
    same_dram = refl;
    same_sent = refl;
  }

  pub put_evicting-Only :
      (h : Hierarchy d) (k : ℕ) (evicting : Option (ℕ × List ℕ))
      → Only h (put d h k (record (h.cntlrs k) { evicting = evicting }))
  put_evicting-Only h k evicting = put-Only h k evicting (h.cntlrs k).stats

  with_cstate-full :
      (cstate : CState) (line : Option Line)
      → (cstate =s invalid) ≡ false
      → (l : Line) → with_cstate cstate line ≡ some l
      → (l.cstate =s invalid) ≡ false
  with_cstate-full cstate none full l e = absurd (cc e)
  with_cstate-full cstate (some line) full l e =
      subst (λ (x : Line). (x.cstate =s invalid) ≡ false) (some_inj e) full

  pub set_cstate-Only :
      (h : Hierarchy d) (k : ℕ) (cstate : CState)
      → (cstate =s invalid) ≡ false
      → Only h (set_cstate d h k address cstate)
  set_cstate-Only h k cstate full =
      put_line-Only h k (with_cstate cstate ((h.cntlrs k).lines address))
        (λ e. ap (with_cstate cstate) e) (with_cstate-full cstate ((h.cntlrs k).lines address) full)

  pub modified-full : (c : CState) → (c =s modified) ≡ true → (c =s invalid) ≡ false
  modified-full modified e = refl
  modified-full _ e = ground arith

  pub Only-subst :
      (h : Hierarchy d) {h1 h2 : Hierarchy d} → some h1 ≡ some h2 → Only h h1 → Only h h2
  Only-subst h e p = subst (Only h) (some_inj e) p
