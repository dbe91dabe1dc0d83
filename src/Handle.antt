-- ===== src/Handle.antt =====
-- src/handle_internal.h, src/mutex.c and src/error_ctx.c: the handle, its lock and its last error.
-- The error's message text is not modelled.
pub mod Frame
use c2sql.Prelude.{ℕ, CStr, Bool, true, false, Option, none, some, List, ◌==◌, if◌then◌else◌}
use c2sql.Types.{SqlRdbResult, ok, err_invalid_handle}
use c2sql.Driver.{Driver}
use c2sql.Registry.{SchemaRegistry}

-- `held` is the state of the system mutex. One thread is modelled: a lock that is held already is
-- never given to it again, so that taking it has no result.
pub record Mutex : Type 0 where
  pub threadsafe : Bool
  pub held : Bool

unfoldable pub mutex_lock : Mutex → Option Mutex
mutex_lock m =
    if m.threadsafe then if m.held then none else some (record m { held = true }) else some m

unfoldable pub mutex_unlock : Mutex → Mutex
mutex_unlock m = if m.threadsafe then record m { held = false } else m

pub record TxnState : Type 0 where
  pub depth : ℕ
  pub sp_names : List CStr

pub record Handle (drv : Driver) : Type 0 where
  pub magic : ℕ
  pub driver_ctx : drv.Ctx
  pub registry : SchemaRegistry
  pub txn : TxnState
  pub error : SqlRdbResult
  pub mutex : Mutex

abbrev pub handle_magic : ℕ
handle_magic = 0xC2DB1234

-- `c2sql_handle_valid` of a pointer that is not NULL.
abbrev pub handle_valid : {drv : Driver} → Handle drv → Bool
handle_valid h = h.magic == handle_magic

-- `c2sql_internal_err_set`
abbrev pub err_set : {drv : Driver} → Handle drv → SqlRdbResult → Handle drv
err_set h code = record h { error = code }

-- The frame of the API functions: the check of the handle, then the body under the lock.
unfoldable pub api :
    {drv : Driver}
    → (Handle drv → SqlRdbResult × Handle drv)
    → Handle drv
    → Option (SqlRdbResult × Handle drv)
api body h =
    if handle_valid h
    then elim (mutex_lock h.mutex) [
      | none ↦ none
      | some m ↦
          let (r, h') = body (record h { mutex = m }) in
          some (r, record h' { mutex = mutex_unlock h'.mutex })
    ]
    else some (err_invalid_handle, h)
