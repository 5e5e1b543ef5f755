-- ===== src/Dram.antt =====
-- The DRAM controller, common/core/memory_subsystem/pr_l1_pr_l2_dram_directory_msi/dram_cntlr.cc and
-- dram_cntlr.h: the blocks' bytes where faults are injected, the pages with their last accesses, and
-- the counts of pages. The latency comes from the performance model, which is not in the repository,
-- and changes nothing here. `none` is the error that stops the simulator.
pub mod Pages
pub mod Counts
pub mod Data
mod Tests
use sniper.Base.{
  ℕ, ◌+◌, ◌*◌, ◌/◌, ◌%◌, Bool, true, false, Option, none, some, List, [], ◌∷◌, ltb, ◌==◌,
  if◌then◌else◌, replicate, u64_mod, take, length,
}
use sniper.Base.Results.{◌>>=◌}
use sniper.MagicServer.{MagicServer, is_block_approx}
use sniper.MagicServer.Lifetime.{page_size, update_liftime}
use sniper.FaultInjection.{Rng, Injector, pre_read, post_write}

-- `pagevar`
pub record PageVar : Type 0 where
  pub staddr : ℕ
  pub lastacc : ℕ
  pub related_approx_vars : List ℕ

-- `std::set<UInt64>::insert`: the set, and whether the element is new.
pub insert_addr : ℕ → List ℕ → List ℕ × Bool
insert_addr a [] = (a ∷ [], true)
insert_addr a (x ∷ addrs) =
    let rest = insert_addr a addrs in
    if ltb a x
    then (a ∷ x ∷ addrs, true)
    else if a == x
    then (x ∷ addrs, false)
    else (x ∷ rest.0, rest.1)

abbrev pub page_start : ℕ → ℕ
page_start address = address / page_size * page_size

-- `get_pagevar`: the element of the page that starts at the address, `none` is `end()`.
pub find_page : ℕ → List PageVar → Option PageVar
find_page a [] = none
find_page a (v ∷ pages) = if v.staddr == a then some v else find_page a pages

-- `pages.insert(tmp)`
pub insert_page : PageVar → List PageVar → List PageVar
insert_page v [] = v ∷ []
insert_page v (w ∷ pages) =
    if ltb v.staddr w.staddr
    then v ∷ w ∷ pages
    else if v.staddr == w.staddr
    then w ∷ pages
    else w ∷ insert_page v pages

-- A write through the pointers of the page's element.
pub update_page : (PageVar → PageVar) → ℕ → List PageVar → List PageVar
update_page f a [] = []
update_page f a (v ∷ pages) = if v.staddr == a then f v ∷ pages else v ∷ update_page f a pages

-- `if(now > *(it->lastacc)) *(it->lastacc) = now`
abbrev pub note_access : ℕ → PageVar → PageVar
note_access now v = if ltb v.lastacc now then record v { lastacc = now } else v

pub update_page_acc : List PageVar → ℕ → ℕ → List PageVar × Bool
update_page_acc pages address now = elim (find_page (page_start address) pages) [
  | none ↦ (
    insert_page (record { staddr = page_start address; lastacc = now; related_approx_vars = [] })
        pages,
    false,
  )
  | some _ ↦ (update_page (note_access now) (page_start address) pages, true)
]

pub get_last_page_acc : List PageVar → ℕ → ℕ
get_last_page_acc pages address = elim (find_page (page_start address) pages) [
  | none ↦ 0
  | some v ↦ v.lastacc
]

pub add_related_appvar : MagicServer → ℕ → List PageVar → ℕ → List PageVar × Bool
add_related_appvar ms block_size pages address =
    if is_block_approx ms address block_size
    then (
      update_page
          (λ v. record v { related_approx_vars = (insert_addr address v.related_approx_vars).0 })
          (page_start address) pages,
      true,
    )
    else (pages, false)

pub add_pagevar : List PageVar → ℕ → List PageVar
add_pagevar pages address =
    insert_page (record { staddr = page_start address; lastacc = 0; related_approx_vars = [] })
      pages

-- `approx_addrs` and `total_addrs`, which all controllers share.
pub record PageSets : Type 0 where
  pub approx_addrs : List ℕ
  pub total_addrs : List ℕ

-- The counters of one controller.
pub record PageCounts : Type 0 where
  pub approx_addr_cnter : ℕ
  pub overall_addr_cnter : ℕ

abbrev pub inc_new : Bool → ℕ → ℕ
inc_new is_new cnter = if is_new then (cnter + 1) % u64_mod else cnter

-- The block that stands in both accesses.
pub count_page : Bool → ℕ → PageSets → PageCounts → PageSets × PageCounts
unfolding insert_addr
count_page is_approx address sets c =
    let page = address / page_size in
    let total = insert_addr page sets.total_addrs in
    let approx : List ℕ × Bool =
      if is_approx then insert_addr page sets.approx_addrs else (sets.approx_addrs, false) in
    (
      record { approx_addrs = approx.0; total_addrs = total.0 },
      record {
        approx_addr_cnter = inc_new approx.1 c.approx_addr_cnter;
        overall_addr_cnter = inc_new total.1 c.overall_addr_cnter;
      },
    )

module _ (rng : Rng) where
  pub record DramCntlr : Type 0 where
    -- `none` is no fault injection manager: a manager always gives an injector.
    pub fault_injector : Option (Injector rng)
    pub cache_block_size : ℕ
    pub data_map : ℕ → Option (List ℕ)
    pub pages : List PageVar
    pub counts : PageCounts
    pub reads : ℕ
    pub writes : ℕ

  -- What an access leaves: the controller, the sets, the magic server, and the bytes copied to `data_buf`.
  pub record DramAccess : Type 0 where
    pub cntlr : DramCntlr
    pub sets : PageSets
    pub server : MagicServer
    pub data_buf : Option (List ℕ)

  -- The part of both accesses before the data: the lifetimes and the page's last access.
  pub log_access : DramCntlr → MagicServer → ℕ → ℕ → Bool → DramCntlr × MagicServer
  unfolding get_last_page_acc add_pagevar
  log_access c ms address now is_read =
      let pages : List PageVar = elim (find_page (page_start address) c.pages) [
        | none ↦ add_pagevar c.pages address
        | some _ ↦ c.pages
      ] in
      (
        record c { pages = update_page (note_access now) (page_start address) pages },
        (update_liftime ms address now (get_last_page_acc pages address) is_read
            c.cache_block_size).0,
      )

  abbrev pub put_data : DramCntlr → ℕ → List ℕ → Injector rng → DramCntlr
  put_data c address bytes injector = record c {
    data_map = λ x. if x == address then some bytes else c.data_map x;
    fault_injector = some injector;
  }

  -- The bytes of a block, which are zero at first.
  abbrev pub block_of : DramCntlr → ℕ → List ℕ
  block_of c address = elim (c.data_map address) [
    | none ↦ replicate c.cache_block_size 0
    | some bytes ↦ bytes
  ]

  -- The block's bytes and the injector after a read; what is stored is also what is copied out.
  abbrev pub read_block :
      DramCntlr → MagicServer → ℕ → Option (Injector rng) → Option (List ℕ × Injector rng)
  read_block c ms address none = none
  read_block c ms address (some injector) =
      some (pre_read rng ms address c.cache_block_size injector (block_of c address))

  abbrev pub store_read : DramCntlr → ℕ → Option (List ℕ × Injector rng) → DramCntlr
  store_read c address none = c
  store_read c address (some (bytes, injector)) = put_data c address bytes injector

  pub get_data_from_dram : DramCntlr → PageSets → MagicServer → ℕ → ℕ → DramAccess
  unfolding log_access count_page
  get_data_from_dram c sets ms address now =
      let (logged, ms') = log_access c ms address now true in
      let (sets', counts) =
        count_page (is_block_approx ms' address c.cache_block_size) address sets c.counts in
      let block = read_block c ms' address c.fault_injector in
      record {
        cntlr = record (store_read logged address block) {
          reads = (c.reads + 1) % u64_mod;
          counts = counts;
        };
        sets = sets';
        server = ms';
        data_buf = elim block [ none ↦ none | some (bytes, _) ↦ some bytes ];
      }

  -- The copy of a block's size from `data_buf`, which must hold as many bytes, to a block that must
  -- be there.
  unfoldable pub write_block :
      DramCntlr → MagicServer → ℕ → List ℕ → Option (Injector rng) → Option DramCntlr
  write_block c ms address data_buf none = some c
  write_block c ms address data_buf (some injector) =
      if ltb (length data_buf) c.cache_block_size then none else elim (c.data_map address) [
        | none ↦ none
        | some _ ↦
            let (bytes, injector') =
              post_write rng ms address c.cache_block_size injector
                (take c.cache_block_size data_buf) in
            some (put_data c address bytes injector')
      ]

  pub put_data_to_dram : DramCntlr → PageSets → MagicServer → ℕ → List ℕ → ℕ → Option DramAccess
  unfolding log_access count_page
  put_data_to_dram c sets ms address data_buf now =
      let (logged, ms') = log_access c ms address now false in
      let (sets', counts) =
        count_page (is_block_approx ms' address c.cache_block_size) address sets c.counts in
      (do
        stored ← write_block logged ms' address data_buf c.fault_injector
        some (record {
          cntlr = record stored { writes = (c.writes + 1) % u64_mod; counts = counts };
          sets = sets';
          server = ms';
          data_buf = none;
        }))
