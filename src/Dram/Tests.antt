-- ===== src/Dram/Tests.antt =====
-- A controller with one block of four bytes.
use sniper.Base.{ℕ, ◌+◌, ◌≡◌, refl, false, none, some, List, [], ◌∷◌, ◌==◌, if◌then◌else◌, set}
use sniper.FaultInjection.{Rng, plain}
use sniper.MagicServer
use sniper.MagicServer.{MagicServer}
use sniper.Dram.{
  PageSets, PageCounts, DramCntlr, DramAccess, update_page_acc, get_last_page_acc,
  get_data_from_dram, put_data_to_dram, find_page, insert_page, update_page,
}
use sniper.Dram.Counts.{IsCounted, dram_access-IsCounted}
use sniper.Dram.Data.{put-get_data}

abbrev no_hits : Rng
no_hits = record { Gen = ℕ; draw = λ g. (false, g + 1) }

abbrev no_pages : PageSets
no_pages = record { approx_addrs = []; total_addrs = [] }

abbrev no_counts : PageCounts
no_counts = record { approx_addr_cnter = 0; overall_addr_cnter = 0 }

abbrev dram : DramCntlr no_hits
dram = record {
  fault_injector = some plain;
  cache_block_size = 4;
  data_map = λ a. if a == 64 then some (0 ∷ 0 ∷ 0 ∷ 0 ∷ []) else none;
  pages = [];
  counts = no_counts;
  reads = 0;
  writes = 0;
}

abbrev server : MagicServer
server = MagicServer.create 0 0

abbrev word : List ℕ
word = 1 ∷ 2 ∷ 3 ∷ 4 ∷ []

-- Two accesses of one page, the second one earlier.
later_access : get_last_page_acc (update_page_acc (update_page_acc [] 5000 7).0 8191 3).0 4096 ≡ 7
unfolding get_last_page_acc update_page_acc find_page insert_page update_page
later_access = refl

-- Two controllers that have counted nothing.
no_pages-IsCounted : IsCounted no_pages (no_counts ∷ no_counts ∷ [])
no_pages-IsCounted = record { approx = refl; overall = refl; among = λ j h. h }

dram_access-IsCounted_example :
    (let r = get_data_from_dram no_hits dram no_pages server 64 5 in
      IsCounted r.sets (set (no_counts ∷ no_counts ∷ []) 1 r.cntlr.counts))
    × ((r : DramAccess no_hits)
        → put_data_to_dram no_hits dram no_pages server 64 word 5 ≡ some r
        → IsCounted r.sets (set (no_counts ∷ no_counts ∷ []) 1 r.cntlr.counts))
dram_access-IsCounted_example =
    dram_access-IsCounted no_hits dram no_pages server 64 5 word (no_counts ∷ no_counts ∷ []) 1 refl
      no_pages-IsCounted

put-get_data_example :
    (r : DramAccess no_hits) × (put_data_to_dram no_hits dram no_pages server 64 word 5 ≡ some r)
    × ((get_data_from_dram no_hits r.cntlr r.sets r.server 64 9).data_buf ≡ some word)
    × ((x : ℕ) → (x == 64) ≡ false → r.cntlr.data_map x ≡ dram.data_map x)
put-get_data_example = put-get_data no_hits dram no_pages server 64 refl word 5 9 refl refl
