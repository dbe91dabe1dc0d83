-- ===== src/Life.antt =====
-- src/c2sql.c: SqlRDBInit, SqlRDBClose, SqlRDBSetConfig and the list of live handles. A handle stands at
-- an address, 0 is NULL; what is not allocated is `none`. The list has a lock of its own, which one
-- thread never finds taken.
pub mod Live
pub mod Configured
pub mod World
pub mod Opening
pub mod Closing
pub mod Tally
pub mod History
mod Tests
use c2sql.Prelude.{
  ℕ, zero, suc, ◌+◌, ◌*◌, CStr, Bool, true, false, not, ◌&&◌, ◌||◌, Option, none, some, List, [],
  ◌∷◌, ◌++◌, ◌==◌, ltb, if◌then◌else◌, length, lit, str_eq, take, Memory, malloc,
}
use c2sql.Types.{
  SqlRdbResult, ok, err_invalid_arg, err_invalid_handle, SqlDialect, sqlite, postgres, is_ok,
}
use c2sql.Driver.{Driver}
use c2sql.Handle.{Handle, handle_magic, handle_valid, mutex_lock, mutex_unlock}
use c2sql.Registry.{empty_registry}
use c2sql.StmtCache.{StmtCache, cache_init}
use c2sql.StmtCache.Calls.{cache_rebuild, cache_destroy}

-- `strncmp(dsn, prefix, strlen(prefix)) == 0`
abbrev has_prefix : CStr → CStr → Bool
has_prefix prefix dsn = str_eq (take (length prefix) dsn) prefix

unfoldable pub dsn_is_postgres : CStr → Bool
dsn_is_postgres dsn = has_prefix (lit "postgresql://") dsn || has_prefix (lit "postgres://") dsn

-- The driver, by its dialect; `have_postgres` is the build option.
unfoldable pub select_driver : Bool → CStr → Option SqlDialect
select_driver have_postgres dsn =
    if dsn_is_postgres dsn then if have_postgres then some postgres else none else some sqlite

pub record Config : Type 0 where
  pub threadsafe : Bool
  pub stmt_cache_size : ℕ
  pub auto_migrate : Bool
  pub multirow_default : ℕ
  pub require_strict : Bool

abbrev pub default_config : Config
default_config = record {
  threadsafe = true;
  stmt_cache_size = 64;
  auto_migrate = false;
  multirow_default = 0;
  require_strict = false;
}

-- `g_live_handles[i] = g_live_handles[--g_live_count]`, from `i` on: the last entry takes the place of
-- the first one.
abbrev pub last_or : ℕ → List ℕ → ℕ
last_or a [] = a
last_or a (b ∷ bs) = last_or b bs

abbrev pub but_last : ℕ → List ℕ → List ℕ
but_last a [] = []
but_last a (b ∷ bs) = a ∷ but_last b bs

abbrev pub refill : List ℕ → List ℕ
refill [] = []
refill (b ∷ bs) = last_or b bs ∷ but_last b bs

unfoldable pub live_remove : ℕ → List ℕ → Bool × List ℕ
live_remove p [] = (false, [])
live_remove p (x ∷ xs) =
    let (found, rest) = live_remove p xs in if x == p then (true, refill xs) else (found, x ∷ rest)

unfoldable pub live_contains : ℕ → List ℕ → Bool
live_contains p [] = false
live_contains p (x ∷ xs) = (x == p) || live_contains p xs

-- A handle with the fields that the other modules do not use.
pub record OpenHandle (drv : Driver) : Type 0 where
  pub handle : Handle drv
  pub config : Config
  pub cache : StmtCache drv.Stmt

-- The process: the handles in memory, the list of live ones, and the connections that were closed, as
-- they were then.
pub record Process (drv : Driver) : Type 0 where
  pub at : ℕ → Option (OpenHandle drv)
  pub fresh : ℕ
  pub live : List ℕ
  pub live_capacity : ℕ
  pub closed : List drv.Ctx

module _ (drv : Driver) where
  abbrev pub State : Type 0
  State = Process drv

  abbrev pub store : ℕ → Option (OpenHandle drv) → State → State
  store p o w = record w { at = λ a. if a == p then o else w.at a }

  -- `drv->close`
  abbrev pub close_connection : drv.Ctx → State → State
  close_connection q w = record w { closed = q ∷ w.closed }

  -- `live_register`, with the allocator after it.
  unfoldable pub live_register : ℕ → State → Memory → Bool × State × Memory
  live_register p w m =
      let capacity = if w.live_capacity == 0 then 8 else w.live_capacity * 2 in
      let added = record w { live = w.live ++ p ∷ [] } in
      if length w.live == w.live_capacity
      then (let (got, m') = malloc m in
          if got then (true, record added { live_capacity = capacity }, m') else (false, w, m'))
      else (true, added, m)

  -- A new handle, before its cache is made. The addresses of the entries of its cache start at 1.
  unfoldable pub new_handle : drv.Stmt → drv.Ctx → OpenHandle drv
  new_handle null q = record {
    handle = record {
      magic = handle_magic;
      driver_ctx = q;
      registry = empty_registry;
      txn = record { depth = 0; sp_names = [] };
      error = ok;
      mutex = record { threadsafe = true; held = false };
    };
    config = default_config;
    cache = record {
      capacity = 0;
      size = 0;
      lru_head = 0;
      lru_tail = 0;
      buckets = [];
      bucket_count = 0;
      sql = λ a. [];
      stmt = λ a. null;
      lru_prev = λ a. 0;
      lru_next = λ a. 0;
      bucket_next = λ a. 0;
      fresh = 1;
    };
  }

  -- The handle at `p` that could not be entered into the list is torn down again.
  unfoldable pub abandon : ℕ → OpenHandle drv → State → Option (ℕ × State)
  abandon p o w = elim (cache_destroy drv o.cache o.handle.driver_ctx) [
    | none ↦ none
    | some (c, q) ↦ some (0, close_connection q (store p none w))
  ]

  -- The end of SqlRDBInit: the cache is made, and the handle entered into the list.
  unfoldable pub enter_handle : OpenHandle drv → State → Memory → Option (ℕ × State)
  enter_handle o w m = elim (cache_init o.cache default_config.stmt_cache_size m) [
    | none ↦ none
    | some (r, c) ↦
        let p = w.fresh in
        let t = record o { cache = c } in
        let made = store p (some t) (record w { fresh = suc p }) in
        let (got, w', m') = live_register p made (malloc m).1 in
        if is_ok r
        then if got then some (p, w') else abandon p t made
        else some (0, close_connection o.handle.driver_ctx w)
  ]

  -- `SqlRDBInit`; `open` is the driver's, and the list of the allocator also says whether the mutex can
  -- be made.
  unfoldable pub init :
      drv.Stmt
      → (CStr → SqlRdbResult × drv.Ctx)
      → Bool
      → Option CStr
      → State
      → Memory
      → Option (ℕ × State)
  init null open_db have_postgres none w m = some (0, w)
  init null open_db have_postgres (some dsn) w m = elim (select_driver have_postgres dsn) [
    | none ↦ some (0, w)
    | some d ↦
        let (r, q) = open_db dsn in
        let (got, m') = malloc m in
        let (mutex, m'') = malloc m' in
        if is_ok r
        then if got && mutex
          then enter_handle (new_handle null q) w m''
          else some (0, close_connection q w)
        else some (0, w)
  ]

  -- The end of SqlRDBClose, on a handle that is live and valid.
  unfoldable pub tear_down : ℕ → OpenHandle drv → State → Option (SqlRdbResult × State)
  tear_down p o w =
      let q = o.handle.driver_ctx in
      let q' = if ltb 0 o.handle.txn.depth then (drv.rollback q).1 else q in
      elim (cache_destroy drv o.cache q') [
        | none ↦ none
        | some (c, q'') ↦ some (ok, close_connection q'' (store p none w))
      ]

  -- `SqlRDBClose`; `none` is also the use of a handle that is freed.
  unfoldable pub close : ℕ → State → Option (SqlRdbResult × State)
  close p w =
      if not (p == 0) && live_contains p w.live
      then elim (w.at p) [
        | none ↦ none
        | some o ↦
            if handle_valid o.handle
            then tear_down p o (record w { live = (live_remove p w.live).1 })
            else some (err_invalid_handle, w)
      ]
      else some (err_invalid_handle, w)

  abbrev pub rebuilt :
      Config → OpenHandle drv → Memory → Option (SqlRdbResult × StmtCache drv.Stmt × drv.Ctx)
  rebuilt cfg o m =
      if cfg.stmt_cache_size == o.config.stmt_cache_size
      then some (ok, o.cache, o.handle.driver_ctx)
      else cache_rebuild drv cfg.stmt_cache_size o.cache m o.handle.driver_ctx

  abbrev pub configured : Config → SqlRdbResult → OpenHandle drv → OpenHandle drv
  configured cfg r o =
      if is_ok r
      then record o {
        config = cfg;
        handle = record o.handle { mutex = record o.handle.mutex { threadsafe = cfg.threadsafe } };
      }
      else o

  -- SqlRDBSetConfig under the lock.
  unfoldable pub set_config_locked :
      Config → OpenHandle drv → Memory → Option (SqlRdbResult × OpenHandle drv)
  set_config_locked cfg o m = elim (rebuilt cfg o m) [
    | none ↦ none
    | some (r, c, q) ↦
        let moved = record o { cache = c; handle = record o.handle { driver_ctx = q } } in
        let t = configured cfg r moved in
        some (r, record t { handle = record t.handle { mutex = mutex_unlock t.handle.mutex } })
  ]

  -- `SqlRDBSetConfig` on a handle in memory.
  unfoldable pub set_config :
      Option Config → OpenHandle drv → Memory → Option (SqlRdbResult × OpenHandle drv)
  set_config cfg o m =
      if handle_valid o.handle
      then elim cfg [
        | none ↦ some (err_invalid_arg, o)
        | some new ↦ elim (mutex_lock o.handle.mutex) [
          | none ↦ none
          | some x ↦ set_config_locked new (record o { handle = record o.handle { mutex = x } }) m
        ]
      ]
      else some (err_invalid_handle, o)
