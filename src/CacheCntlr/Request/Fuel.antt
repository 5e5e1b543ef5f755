-- ===== src/CacheCntlr/Request/Fuel.antt =====
-- A request ends: the number of caches from the one that is asked on is fuel enough.
use sniper.Base.{ℕ, zero, suc, ◌≡◌, refl, Bool, true, false, Option, some, Option-cases, inl, inr}
use sniper.Base.Results.{bind_cong, bind_cong_both}
use sniper.CacheCntlr.{HitWhere, DramInterface, Hierarchy}
use sniper.CacheCntlr.Update.Fuel.{Rises, rise}
use sniper.CacheCntlr.Request.{
  Setting, Req, permissible, adjust_hit, count_req, snoop_upgrade, drop_line, miss_at_next,
  serve_req, passed_kind, request_body, process_shmem_req,
}

module _ (d : DramInterface) (env : Setting) where
  miss_at_next_cong :
      (ask ask' : Hierarchy d → Option (Hierarchy d × HitWhere)) (h : Hierarchy d) (k : ℕ) (r : Req)
      → ((g : Hierarchy d) → ask g ≡ ask' g)
      → miss_at_next d env ask h k r ≡ miss_at_next d env ask' h k r
  unfolding miss_at_next
  miss_at_next_cong ask ask' h k r same =
      bind_cong (drop_line d env h k r.address) (λ g _. bind_cong_both (same g) (λ x. refl))

  serve_req_cong :
      (ask ask' : ℕ → Hierarchy d → Option (Hierarchy d × HitWhere)) (h : Hierarchy d)
      (k requester : ℕ) (r : Req) (hit : Bool)
      → ((next : ℕ)
          → (env.t k).next_cache_cntlr ≡ some next
          → (g : Hierarchy d) → ask next g ≡ ask' next g)
      → serve_req d env ask h k requester r hit ≡ serve_req d env ask' h k requester r hit
  unfolding serve_req
  serve_req_cong ask ask' h k requester r true same = refl
  serve_req_cong ask ask' h k requester r false same =
      bind_cong (snoop_upgrade d env h k requester r) (λ g _.
        elim (Option-cases (env.t k).next_cache_cntlr) [
          | inl last ↦ rw last refl
          | inr (next, there) ↦
              rw there (miss_at_next_cong (ask next) (ask' next) g k r (same next there))
        ])

  -- A request whose calls n levels deep return what `stop` does.
  unfoldable pub request_or :
      (Hierarchy d → ℕ → ℕ → Req → Option (Hierarchy d × HitWhere))
      → ℕ
      → Hierarchy d
      → ℕ
      → ℕ
      → Req
      → Option (Hierarchy d × HitWhere)
  request_or stop zero h k requester r = stop h k requester r
  request_or stop (suc n) h k requester r = request_body d env (request_or stop n) h k requester r

  -- If at most n caches stand in a row from a cache on to the next ones, then a request to it ends
  -- within this fuel: its result does not depend on what a call n levels deep would do, so no such
  -- call is made.
  pub process_shmem_req-ends :
      (stop : Hierarchy d → ℕ → ℕ → Req → Option (Hierarchy d × HitWhere)) (n : ℕ) (h : Hierarchy d)
      (k requester : ℕ) (r : Req)
      → Rises env.t n k
      → request_or stop n h k requester r ≡ process_shmem_req d env n h k requester r
  unfolding process_shmem_req request_or
  process_shmem_req-ends stop zero h k requester r up = elim up [ ]
  process_shmem_req-ends stop (suc n) h k requester r (rise up) =
      bind_cong (adjust_hit d env h k r (permissible d env h k r.address r.mem_op_type)) (λ x _.
        bind_cong (count_req d env x.0 k r x.1) (λ h2 _.
          bind_cong_both
            (serve_req_cong
              (λ next g. request_or stop n g next k (record r { kind = passed_kind d env r.kind }))
              (λ next g.
                process_shmem_req d env n g next k (record r { kind = passed_kind d env r.kind }))
              h2 k requester r x.1
              (λ next there g.
                process_shmem_req-ends stop n g next k
                  (record r { kind = passed_kind d env r.kind }) (up next there)))
            (λ y. refl)))
