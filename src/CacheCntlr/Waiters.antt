-- ===== src/CacheCntlr/Waiters.antt =====
-- `handleMsgFromDramDirectory` of
-- common/core/memory_subsystem/parametric_dram_directory_msi/cache_cntlr.cc: the handler of a
-- message of a directory, and the loop that serves the requests that wait for the line. What a
-- woken user thread does until it hands the line back is a parameter, and so are the time and the
-- bytes that an uninitialised buffer holds.
use sniper.Base.{
  ℕ, zero, suc, Bool, true, false, ◌&&◌, Option, none, some, List, [], ◌∷◌, if◌then◌else◌, length,
}
use sniper.Base.Results.{◌>>=◌}
use sniper.CacheCntlr.{
  shared, ◌=s◌, Line, Config, Waiter, MshrEntry, Msg, MsgType, inv_req, flush_req, wb_req, ex_rep,
  sh_rep, upgrade_rep, DramInterface, Hierarchy, put, put_line, get_cache_block_info,
  get_cache_state,
}
use sniper.CacheCntlr.Directory.{
  put_waiters, process_upgrade_req, process_ex_rep, process_sh_rep, process_upgrade_rep,
  process_inv_req, process_flush_req, process_wb_req,
}
use sniper.CacheCntlr.Mshr.{make_mshr, set_mshr, cleanup_mshr}

abbrev pub pop : List Waiter → List Waiter
pop [] = []
pop (w ∷ ws) = ws

abbrev pub is_rep : MsgType → Bool
is_rep ex_rep = true
is_rep sh_rep = true
is_rep upgrade_rep = true
is_rep _ = false

module _ (d : DramInterface) where
  abbrev pub put_mshr : Hierarchy d → ℕ → List MshrEntry → Hierarchy d
  put_mshr h k m = put d h k (record (h.cntlrs k) { mshr = m })

  -- `setOption(PREFETCH)`, on a block that must be there.
  unfoldable pub mark_prefetch : Hierarchy d → ℕ → ℕ → Bool → Option (Hierarchy d)
  mark_prefetch h k address false = some h
  mark_prefetch h k address true = do
    line ← get_cache_block_info d h k address
    some (put_line d h k address (some (record line { prefetch = true })))

module _ (d : DramInterface) (t : ℕ → Config) (levels : ℕ) (home : ℕ → ℕ)
    (victim : ℕ → (ℕ → Option Line) → ℕ → Option ℕ) (warming : Bool)
    (user_thread : Waiter → Hierarchy d → Option (Hierarchy d)) (now max_time : ℕ) where
  -- The requester's register gets the miss, and then the handler's own registers are cleaned up.
  unfoldable pub record_miss : Hierarchy d → ℕ → ℕ → Waiter → Option (Hierarchy d)
  record_miss h k address w = do
    let h' =
        put_mshr d h w.cache_cntlr
          (set_mshr (make_mshr address w.t_issue now) (h.cntlrs w.cache_cntlr).mshr)
    m ← cleanup_mshr max_time (length (h'.cntlrs k).mshr) (h'.cntlrs k).mshr
    some (put_mshr d h' k m)

  -- A request that the line can serve: its thread runs, and it leaves the queue.
  unfoldable pub serve : Hierarchy d → ℕ → ℕ → Waiter → Option (Hierarchy d)
  serve h k address w = do
    h1 ← mark_prefetch d h k address w.is_prefetch
    h2 ← user_thread w h1
    h3 ← record_miss h2 k address w
    some (put_waiters d h3 k address (pop ((h3.cntlrs k).directory_waiters address)))

  -- The loop; it stops at a request for a line that is only SHARED, for which it asks for an
  -- upgrade. `none` is a loop that goes on when the fuel is spent.
  unfoldable pub serve_waiters : ℕ → Hierarchy d → ℕ → ℕ → Option (Hierarchy d)
  serve_waiters zero h k address = elim ((h.cntlrs k).directory_waiters address) [
    | [] ↦ some h
    | _ ∷ _ ↦ none
  ]
  serve_waiters (suc fuel) h k address = elim ((h.cntlrs k).directory_waiters address) [
    | [] ↦ some h
    | w ∷ _ ↦
        if w.exclusive_req && (get_cache_state d h k address =s shared)
        then process_upgrade_req d t levels home victim warming h k address
        else (do h' ← serve h k address w; serve_waiters fuel h' k address)
  ]

  -- The dispatch on the message's type.
  unfoldable pub process_msg : List ℕ → Hierarchy d → ℕ → ℕ → Msg → Option (Hierarchy d)
  process_msg stale h k sender msg = elim msg.msg_type [
    | ex_rep ↦ process_ex_rep d t levels home victim warming h k msg
    | sh_rep ↦ process_sh_rep d t levels home victim warming h k msg
    | upgrade_rep ↦ process_upgrade_rep d t levels home victim warming h k msg
    | inv_req ↦ process_inv_req d t levels home victim warming h k sender msg
    | flush_req ↦ process_flush_req d t levels home victim warming h k sender msg
    | wb_req ↦ process_wb_req d t levels home victim warming stale h k sender msg
    | _ ↦ none
  ]

  -- A reply is for the first request that waits for the line, which must be there.
  unfoldable pub handle_msg : ℕ → List ℕ → Hierarchy d → ℕ → ℕ → Msg → Option (Hierarchy d)
  handle_msg fuel stale h k sender msg =
      if is_rep msg.msg_type
      then elim ((h.cntlrs k).directory_waiters msg.address) [
        | [] ↦ none
        | _ ∷ _ ↦ (do h' ← process_msg stale h k sender msg; serve_waiters fuel h' k msg.address)
      ]
      else process_msg stale h k sender msg
