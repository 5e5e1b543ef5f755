-- ===== src/CacheCntlr/Directory.antt =====
-- The messages between a last-level cache and a directory, in
-- common/core/memory_subsystem/parametric_dram_directory_msi/cache_cntlr.cc: the requests that the
-- cache sends, and what it does for a reply or a request of a directory.
pub mod Requests
use sniper.Base.{
  ℕ, ◌+◌, Bool, true, false, not, ◌&&◌, Option, none, some, List, [], ◌∷◌, ◌++◌, ◌==◌,
  if◌then◌else◌, length,
}
use sniper.Base.Results.{◌>>=◌, ◌>>◌, assert}
use sniper.CacheCntlr.{
  CState, invalid, shared, shared_upgrading, modified, exclusive, ◌=s◌, upgrade, coherency, MemOp,
  read, read_ex, write, Line, Config, Waiter, Msg, MsgType, ex_req, sh_req, upgrade_req, inv_rep,
  flush_rep, wb_rep, DramInterface, Hierarchy, put, send, get_cache_block_info, get_cache_state,
  state_of, set_cache_state,
}
use sniper.CacheCntlr.Update.{Updated, update_cache_block}
use sniper.CacheCntlr.Insertion.{insert_cache_block}

abbrev pub is_exclusive_op : MemOp → Bool
is_exclusive_op read = false
is_exclusive_op _ = true

-- A reply of `k` to the directory at `sender`.
abbrev pub reply : Msg → ℕ → MsgType → Option (List ℕ) → Msg
reply msg sender msg_type bytes = record {
  msg_type = msg_type;
  requester = msg.requester;
  receiver = sender;
  address = msg.address;
  data_sent = bytes;
}

module _ (d : DramInterface) where
  abbrev pub put_waiters : Hierarchy d → ℕ → ℕ → List Waiter → Hierarchy d
  put_waiters h k address ws = put d h k (record (h.cntlrs k) {
    directory_waiters = λ x. if x == address then ws else (h.cntlrs k).directory_waiters x;
  })

module _ (d : DramInterface) (t : ℕ → Config) (levels : ℕ) (home : ℕ → ℕ)
    (victim : ℕ → (ℕ → Option Line) → ℕ → Option ℕ) (warming : Bool) where
  -- A request of the last-level cache `k`.
  abbrev pub request : ℕ → MsgType → ℕ → Msg
  request k msg_type address = record {
    msg_type = msg_type;
    requester = (t k).core_id;
    receiver = home address;
    address = address;
    data_sent = none;
  }

  -- `processExReqToDirectory`
  unfoldable pub process_ex_req : Hierarchy d → ℕ → ℕ → Option (Hierarchy d)
  process_ex_req h k address = do
    assert (not (get_cache_state d h k address =s shared))
    assert (get_cache_state d h k address =s invalid)
    some (send d h (request k ex_req address))

  -- `processUpgradeReqToDirectory`
  unfoldable pub process_upgrade_req : Hierarchy d → ℕ → ℕ → Option (Hierarchy d)
  process_upgrade_req h k address = do
    assert (get_cache_state d h k address =s shared)
    h' ← set_cache_state d h k address shared_upgrading
    some (send d h' (request k upgrade_req address))

  -- `processShReqToDirectory`
  unfoldable pub process_sh_req : Hierarchy d → ℕ → ℕ → Option (Hierarchy d)
  process_sh_req h k address = some (send d h (request k sh_req address))

  -- The request that is sent for an access, when no other waits for the line.
  unfoldable pub send_request : Hierarchy d → ℕ → MemOp → ℕ → Option (Hierarchy d)
  send_request h k op address =
      if is_exclusive_op op
      then if get_cache_state d h k address =s shared
        then process_upgrade_req h k address
        else process_ex_req h k address
      else process_sh_req h k address

  -- `initiateDirectoryAccess`, for the controller `by`
  unfoldable pub initiate_directory_access :
      Hierarchy d → ℕ → ℕ → MemOp → ℕ → Bool → ℕ → Option (Hierarchy d)
  initiate_directory_access h k by op address is_prefetch t_issue =
      let waiting = (h.cntlrs k).directory_waiters address in
      let waiter : Waiter = record {
        exclusive_req = is_exclusive_op op;
        is_prefetch = is_prefetch;
        cache_cntlr = by;
        t_issue = t_issue;
      } in
      let h' = put_waiters d h k address (waiting ++ waiter ∷ []) in
      if length (waiting ++ waiter ∷ []) == 1 then send_request h' k op address else some h'

  -- `processExRepFromDramDirectory`: the message has the line's bytes.
  unfoldable pub process_ex_rep : Hierarchy d → ℕ → Msg → Option (Hierarchy d)
  process_ex_rep h k msg = do
    data_buf ← msg.data_sent
    insert_cache_block d t levels home victim warming h k msg.address exclusive data_buf

  -- `processShRepFromDramDirectory`
  unfoldable pub process_sh_rep : Hierarchy d → ℕ → Msg → Option (Hierarchy d)
  process_sh_rep h k msg = do
    data_buf ← msg.data_sent
    insert_cache_block d t levels home victim warming h k msg.address shared data_buf

  abbrev pub update : Hierarchy d → ℕ → ℕ → CState → Bool → Option (Updated d)
  update h k address new wanted =
      update_cache_block d t levels levels h k address new coherency wanted

  -- `processUpgradeRepFromDramDirectory`
  unfoldable pub process_upgrade_rep : Hierarchy d → ℕ → Msg → Option (Hierarchy d)
  process_upgrade_rep h k msg =
      if get_cache_state d h k msg.address =s invalid
      then (do
        _ ← msg.data_sent
        r ← update_cache_block d t levels levels h k msg.address modified upgrade true
        some r.hier)
      else if get_cache_state d h k msg.address =s shared_upgrading
      then (do
        r ← update_cache_block d t levels levels h k msg.address modified upgrade false
        some r.hier)
      else none

  -- `processInvReqFromDramDirectory`
  unfoldable pub process_inv_req : Hierarchy d → ℕ → ℕ → Msg → Option (Hierarchy d)
  process_inv_req h k sender msg =
      if get_cache_state d h k msg.address =s invalid then some h else (do
        r ← update h k msg.address invalid false
        some (send d r.hier (reply msg sender inv_rep none)))

  -- `processFlushReqFromDramDirectory`
  unfoldable pub process_flush_req : Hierarchy d → ℕ → ℕ → Msg → Option (Hierarchy d)
  process_flush_req h k sender msg =
      if get_cache_state d h k msg.address =s invalid then some h else (do
        r ← update h k msg.address invalid true
        bytes ← r.out
        some (send d r.hier (reply msg sender flush_rep (some bytes))))

  -- `processWbReqFromDramDirectory`: a line that waits for an upgrade is not written back, and the
  -- reply then has what the buffer held before, `stale`.
  unfoldable pub process_wb_req : List ℕ → Hierarchy d → ℕ → ℕ → Msg → Option (Hierarchy d)
  process_wb_req stale h k sender msg =
      if get_cache_state d h k msg.address =s invalid
      then some h
      else if get_cache_state d h k msg.address =s shared_upgrading
      then some (send d h (reply msg sender wb_rep (some stale)))
      else (do
        r ← update h k msg.address shared true
        bytes ← r.out
        some (send d r.hier (reply msg sender wb_rep (some bytes))))
