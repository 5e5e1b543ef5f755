-- ===== src/Dram/Counts.antt =====
-- The counts of pages agree with the sets of pages, which the controllers share.
use sniper.Base.{
  ℕ, zero, suc, ◌+◌, ◌/◌, ◌%◌, ◌≡◌, refl, ◌∙◌, ap, sym, Bool, true, false, ◌||◌, some, List, [],
  ◌∷◌, ◌==◌, if◌then◌else◌, arith, length, set, get_elem?, u64_mod, subst, some_inj,
}
use sniper.Base.Results.{bind_inv}
use sniper.MagicServer.{MagicServer}
use sniper.MagicServer.Lifetime.{page_size}
use sniper.FaultInjection.{Rng}
use sniper.Dram.{
  insert_addr, inc_new, PageSets, PageCounts, count_page, DramCntlr, DramAccess, log_access,
  write_block, get_data_from_dram, put_data_to_dram,
}

pub has_addr : List ℕ → ℕ → Bool
has_addr [] a = false
has_addr (x ∷ addrs) a = (x == a) || has_addr addrs a

length-insert_addr :
    (a : ℕ) (addrs : List ℕ)
    → length (insert_addr a addrs).0
      ≡ (if (insert_addr a addrs).1 then length addrs + 1 else length addrs)
unfolding insert_addr
length-insert_addr a [] = refl
length-insert_addr a (x ∷ addrs) = let h = length-insert_addr a addrs in ground (arith, h)

has_addr-insert_addr :
    (a j : ℕ) (addrs : List ℕ) → has_addr (insert_addr a addrs).0 j ≡ ((a == j) || has_addr addrs j)
unfolding insert_addr has_addr
has_addr-insert_addr a j [] = ground arith
has_addr-insert_addr a j (x ∷ addrs) = let h = has_addr-insert_addr a j addrs in ground (arith, h)

-- A counter of all controllers together.
abbrev pub sum_of : (PageCounts → ℕ) → List PageCounts → ℕ
sum_of f [] = 0
sum_of f (c ∷ cs) = f c + sum_of f cs

sum_of-set :
    (f : PageCounts → ℕ) (cs : List PageCounts) (i : ℕ) (c : PageCounts) {old : PageCounts}
    → get_elem? cs i ≡ some old
    → sum_of f (set cs i c) + f old ≡ sum_of f cs + f c
sum_of-set f [] i c e = absurd (cc e)
sum_of-set f (x ∷ cs) zero c e = let h = ap f (some_inj e) in omega (arith, h)
sum_of-set f (x ∷ cs) (suc i) c e = let h = sum_of-set f cs i c e in omega (arith, h)

-- The controllers' counters add up to the sets' sizes, and the approximate pages are among all.
pub record IsCounted (sets : PageSets) (cs : List PageCounts) : Type 0 where
  pub approx : sum_of (λ c. c.approx_addr_cnter) cs % u64_mod ≡ length sets.approx_addrs % u64_mod
  pub overall : sum_of (λ c. c.overall_addr_cnter) cs % u64_mod ≡ length sets.total_addrs % u64_mod
  pub among : (j : ℕ) → has_addr sets.approx_addrs j ≡ true → has_addr sets.total_addrs j ≡ true

-- One counter moves with the set's growth.
grown :
    (is_new : Bool) (old sum sum' size : ℕ)
    → sum' + old ≡ sum + inc_new is_new old
    → sum % u64_mod ≡ size % u64_mod
    → sum' % u64_mod ≡ (if is_new then size + 1 else size) % u64_mod
grown true old sum sum' size moved e = omega (arith, moved, e)
grown false old sum sum' size moved e = omega (arith, moved, e)

new_among :
    (page : ℕ) (approx total : List ℕ)
    → ((j : ℕ) → has_addr approx j ≡ true → has_addr total j ≡ true)
    → (is_approx : Bool) (j : ℕ)
    → has_addr (if is_approx then insert_addr page approx else (approx, false)).0 j ≡ true
    → has_addr (insert_addr page total).0 j ≡ true
new_among page approx total among true j h =
    let now = has_addr-insert_addr page j total in
    let was = has_addr-insert_addr page j approx in let k = among j in ground (arith, now, was, k)
new_among page approx total among false j h =
    let now = has_addr-insert_addr page j total in let k = among j in ground (arith, now, k)

length-insert_if :
    (page : ℕ) (addrs : List ℕ) (is_approx : Bool)
    → (if (if is_approx then insert_addr page addrs else (addrs, false)).1
        then length addrs + 1
        else length addrs)
      ≡ length (if is_approx then insert_addr page addrs else (addrs, false)).0
length-insert_if page addrs true = sym (length-insert_addr page addrs)
length-insert_if page addrs false = refl

count_page-IsCounted :
    (is_approx : Bool) (address : ℕ) (sets : PageSets) (cs : List PageCounts) (i : ℕ)
    (c : PageCounts)
    → get_elem? cs i ≡ some c
    → IsCounted sets cs
    → IsCounted
        (count_page is_approx address sets c).0
        (set cs i (count_page is_approx address sets c).1)
unfolding count_page
count_page-IsCounted is_approx address sets cs i c here v =
    let page = address / page_size in
    let c' = (count_page is_approx address sets c).1 in
    record {
      approx =
          grown
            (if is_approx then insert_addr page sets.approx_addrs else (sets.approx_addrs, false)).1
            c.approx_addr_cnter (sum_of (λ x. x.approx_addr_cnter) cs) _ _
            (sum_of-set (λ x. x.approx_addr_cnter) cs i c' here) v.approx
          ∙ ap (λ (n : ℕ). n % u64_mod) (length-insert_if page sets.approx_addrs is_approx);
      overall =
          grown (insert_addr page sets.total_addrs).1 c.overall_addr_cnter
            (sum_of (λ x. x.overall_addr_cnter) cs) _ _
            (sum_of-set (λ x. x.overall_addr_cnter) cs i c' here) v.overall
          ∙ ap (λ (n : ℕ). n % u64_mod) (sym (length-insert_addr page sets.total_addrs));
      among = new_among page sets.approx_addrs sets.total_addrs v.among is_approx;
    }

module _ (rng : Rng) (c : DramCntlr rng) (sets : PageSets) (ms : MagicServer)
    (address now : ℕ) where
  -- A read or a write of one of the controllers that share the sets of pages keeps the sum of the
  -- controllers' counters equal to the size of the set, for all pages and for the approximate ones,
  -- as far as 64 bits hold it, and the approximate pages among all.
  pub dram_access-IsCounted :
      (data_buf : List ℕ) (cs : List PageCounts) (i : ℕ)
      → get_elem? cs i ≡ some c.counts
      → IsCounted sets cs
      → (let r = get_data_from_dram rng c sets ms address now in
          IsCounted r.sets (set cs i r.cntlr.counts))
        × ((r : DramAccess rng)
            → put_data_to_dram rng c sets ms address data_buf now ≡ some r
            → IsCounted r.sets (set cs i r.cntlr.counts))
  unfolding get_data_from_dram put_data_to_dram
  dram_access-IsCounted data_buf cs i here v = (
    count_page-IsCounted _ address sets cs i c.counts here v,
    λ r e.
        let logged = log_access rng c ms address now false in
        let (stored, _, e1) =
          bind_inv (write_block rng logged.0 logged.1 address data_buf c.fault_injector) e in
        subst (λ q. IsCounted q.sets (set cs i q.cntlr.counts)) (some_inj e1)
          (count_page-IsCounted _ address sets cs i c.counts here v),
  )
