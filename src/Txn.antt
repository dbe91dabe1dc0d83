-- ===== src/Txn.antt =====
-- src/c2sql.c, `SqlRDBBeginTx`, `SqlRDBCommitTx` and `SqlRDBRollbackTx`, over the state of
-- src/txn_manager.h.
pub mod Matches
pub mod Savepoints
pub mod Run
mod Tests
use c2sql.Prelude.{
  ℕ, ◌+◌, ◌-◌, CStr, Bool, List, [], ◌∷◌, ◌++◌, ◌==◌, leb, if◌then◌else◌, lit, decimal, take, set,
  get_or, Option,
}
use c2sql.Types.{SqlRdbResult, ok, err_nested_tx, err_no_active_tx, is_ok}
use c2sql.Driver.{Driver}
use c2sql.Handle.{Handle, TxnState, err_set, api}

abbrev pub max_tx_depth : ℕ
max_tx_depth = 16

-- `snprintf(buf, 32, "sp_%d", depth)`
unfoldable pub sp_name : ℕ → CStr
sp_name depth = take 31 (lit "sp_" ++ decimal depth)

abbrev pub deeper : TxnState → TxnState
deeper t = record t { depth = t.depth + 1 }

abbrev pub shallower : TxnState → TxnState
shallower t = record t { depth = t.depth - 1 }

module _ (drv : Driver) where
  -- The part that the three functions end with: an error is recorded, success moves the depth.
  settle : (TxnState → TxnState) → SqlRdbResult → Handle drv → SqlRdbResult × Handle drv
  settle move r h = if is_ok r then (ok, record h { txn = move h.txn }) else (r, err_set h r)

  abbrev called : Handle drv → SqlRdbResult × drv.Ctx → SqlRdbResult × Handle drv
  called h (r, c) = (r, record h { driver_ctx = c })

  -- BEGIN at depth 0, a savepoint under its number below that.
  open_level : Handle drv → SqlRdbResult × Handle drv
  open_level h =
      if h.txn.depth == 0
      then called h (drv.begin h.driver_ctx)
      else (let new_depth = h.txn.depth + 1 in
          let names = set h.txn.sp_names (new_depth - 1) (sp_name new_depth) in
          called (record h { txn = record h.txn { sp_names = names } })
            (drv.savepoint (get_or names (new_depth - 1) []) h.driver_ctx))

  pub begin_body : Handle drv → SqlRdbResult × Handle drv
  unfolding settle open_level
  begin_body h =
      if leb max_tx_depth h.txn.depth
      then (err_nested_tx, err_set h err_nested_tx)
      else (let (r, h') = open_level h in settle deeper r h')

  pub begin_tx : Handle drv → Option (SqlRdbResult × Handle drv)
  unfolding begin_body
  begin_tx h = api begin_body h

  -- The name in the slot of the innermost savepoint.
  abbrev innermost : Handle drv → CStr
  innermost h = get_or h.txn.sp_names (h.txn.depth - 1) []

  commit_level : Handle drv → SqlRdbResult × Handle drv
  commit_level h =
      if h.txn.depth == 1
      then called h (drv.commit h.driver_ctx)
      else called h (drv.release_sp (innermost h) h.driver_ctx)

  pub commit_body : Handle drv → SqlRdbResult × Handle drv
  unfolding settle commit_level
  commit_body h =
      if h.txn.depth == 0
      then (err_no_active_tx, h)
      else (let (r, h') = commit_level h in settle shallower r h')

  pub commit_tx : Handle drv → Option (SqlRdbResult × Handle drv)
  unfolding commit_body
  commit_tx h = api commit_body h

  -- A savepoint is rewound and then released.
  rewind : CStr → Handle drv → SqlRdbResult × Handle drv
  rewind name h =
      let (r, c) = drv.rollback_sp name h.driver_ctx in
      if is_ok r then called h (drv.release_sp name c) else called h (r, c)

  rollback_level : Handle drv → SqlRdbResult × Handle drv
  unfolding rewind
  rollback_level h =
      if h.txn.depth == 1 then called h (drv.rollback h.driver_ctx) else rewind (innermost h) h

  pub rollback_body : Handle drv → SqlRdbResult × Handle drv
  unfolding settle rollback_level
  rollback_body h =
      if h.txn.depth == 0
      then (err_no_active_tx, h)
      else (let (r, h') = rollback_level h in settle shallower r h')

  pub rollback_tx : Handle drv → Option (SqlRdbResult × Handle drv)
  unfolding rollback_body
  rollback_tx h = api rollback_body h
