-- ===== src/MagicServer/Lifetime.antt =====
-- Lifetimes of approximate bytes, `update_liftime` of common/system/magic_server.cc: an access to the
-- memory raises the lifetimes in its page, and settles those in its block.
use sniper.Base.{
  ℕ, zero, suc, ◌+◌, ◌-◌, ◌*◌, ◌/◌, ◌%◌, Bool, true, false, ◌&&◌, Option, none, some, List, [], ◌∷◌,
  ltb, leb, if◌then◌else◌, u64_mod,
}
use sniper.ApproxVars.{AppVar, Footprint, find_var, update_var}
use sniper.MagicServer.{MagicServer, byte_addr, each_byte, is_outside}

abbrev pub page_size : ℕ
page_size = 4096

-- `if(inter > *(poten_maxlifetime)) *(poten_maxlifetime) = inter`
abbrev pub raise : ℕ → AppVar → AppVar
raise inter v =
    if ltb v.poten.maxlifetime inter
    then record v { poten = record poten { maxlifetime = inter } }
    else v
  where
    poten : Footprint
    poten = v.poten

-- The `normal updata stuff`: a read takes a longer lifetime over, a write drops it.
abbrev pub settle : Bool → AppVar → AppVar
settle is_read v =
    if ltb v.saved.maxlifetime v.poten.maxlifetime
    then (if is_read
        then record v { saved = record saved { maxlifetime = v.poten.maxlifetime } }
        else record v { poten = record poten { maxlifetime = v.saved.maxlifetime } })
    else v
  where
    saved : Footprint
    saved = v.saved

    poten : Footprint
    poten = v.poten

-- An iterator is the address of its element, `none` is `end()`.
pub locate : ℕ → List AppVar → Option ℕ
locate a vars = elim (find_var a vars) [ none ↦ none | some v ↦ some v.addr ]

-- `it++` from the element with the address.
pub next_var : ℕ → List AppVar → Option ℕ
next_var a [] = none
next_var a (v ∷ vars) = if ltb a v.addr then some v.addr else next_var a vars

-- The rounds of the second loop, from round `i` on.
pub settle_block : Bool → ℕ → ℕ → ℕ → ℕ → Option ℕ → Bool → List AppVar → List AppVar
unfolding locate next_var
settle_block is_read address block_size zero i it realend vars = vars
settle_block is_read address block_size (suc n) i none realend vars = elim realend [
  | true ↦ vars
  | false ↦
      settle_block is_read address block_size n (i + 1) (locate (byte_addr address i) vars) false
        vars
]
settle_block is_read address block_size (suc n) i (some a) realend vars =
    elim (leb address a && ltb a (byte_addr address block_size)) [
      | true ↦
          settle_block is_read address block_size n (i + 1) (next_var a vars) true
            (update_var (settle is_read) a vars)
      | false ↦ settle_block is_read address block_size n (i + 1) (next_var a vars) realend vars
    ]

-- The rounds of the first loop: the bound of the last page wraps around to 0.
abbrev pub page_rounds : ℕ → ℕ
page_rounds address =
    (address / page_size + 1) * page_size % u64_mod - address / page_size * page_size

pub raise_page : ℕ → ℕ → List AppVar → List AppVar
unfolding each_byte
raise_page inter address vars =
    each_byte (raise inter) (address / page_size * page_size) (page_rounds address) 0 vars

pub update_liftime : MagicServer → ℕ → ℕ → ℕ → Bool → ℕ → MagicServer × Bool
unfolding raise_page settle_block
update_liftime s address now lpacc is_read block_size =
    let inter = if leb lpacc now then now - lpacc else lpacc - now in
    let raised = raise_page inter address s.approx_vars in
    if is_outside s address block_size then (record s { approx_vars = raised }, false) else (
      record s {
        approx_vars =
            settle_block is_read address block_size (block_size + 1) 0 (locate address raised) false
              raised;
      },
      true,
    )
