-- ===== src/Dram/Pages.antt =====
-- The last accesses of the pages.
use mathlib.Core.Option
use sniper.Base.{
  ℕ, ◌≡◌, inl, inr, none, some, List, [], ◌∷◌, ltb, ◌==◌, if◌then◌else◌, arith, Option-cases,
}
use sniper.Dram.{
  PageVar, page_start, find_page, insert_page, update_page, note_access, update_page_acc,
  get_last_page_acc,
}

find-insert_page :
    (v : PageVar) (j : ℕ) (pages : List PageVar)
    → find_page v.staddr pages ≡ none
    → find_page j (insert_page v pages) ≡ (if v.staddr == j then some v else find_page j pages)
unfolding find_page insert_page
find-insert_page v j [] h = ground arith
find-insert_page v j (w ∷ pages) h = ground (arith, find-insert_page v j pages)

find-update_page :
    (f : PageVar → PageVar) (a j : ℕ) (pages : List PageVar)
    → ((v : PageVar) → (f v).staddr ≡ v.staddr)
    → find_page j (update_page f a pages)
      ≡ (if a == j then Option.map f (find_page j pages) else find_page j pages)
unfolding find_page update_page
find-update_page f a j [] same = ground arith
find-update_page f a j (v ∷ pages) same = ground (arith, find-update_page f a j pages same, same v)

staddr-note_access : (now : ℕ) (v : PageVar) → (note_access now v).staddr ≡ v.staddr
staddr-note_access now v = ground arith

-- After update_page_acc the last access of the address's page is the later one of its last access
-- and the new time, where a page that is not there counts as accessed at 0, and no other page's
-- last access changes.
pub update_page_acc_lem :
    (pages : List PageVar) (address now x : ℕ)
    → get_last_page_acc (update_page_acc pages address now).0 x ≡ (
        if page_start address == page_start x
        then (if ltb (get_last_page_acc pages x) now then now else get_last_page_acc pages x)
        else get_last_page_acc pages x)
unfolding update_page_acc get_last_page_acc
update_page_acc_lem pages address now x =
    elim (Option-cases (find_page (page_start address) pages)) [
      | inl e ↦ ground (
        arith,
        find-insert_page
            (record { staddr = page_start address; lastacc = now; related_approx_vars = [] })
            (page_start x) pages e,
      )
      | inr (v, e) ↦ ground (
        arith,
        find-update_page (note_access now) (page_start address) (page_start x) pages
            (staddr-note_access now),
      )
    ]
