-- ===== src/Crud/Rows.antt =====
-- src/c2sql.c: SqlRDBWrite, SqlRDBWriteMany, SqlRDBDelete and SqlRDBCount, over the interface of the
-- statement cache. `none` as a result is a run without a defined outcome, such as a row that is shorter
-- than its struct.
pub mod Kept
pub mod Careful
pub mod Release
pub mod Read
mod Tests
use c2sql.Prelude.{
  ℕ, zero, suc, ◌+◌, ◌*◌, ◌-◌, ◌/◌, ◌^◌, CStr, Bool, true, false, not, ◌&&◌, ◌||◌, length, Option,
  none, some, List, [], ◌∷◌, ◌==◌, ltb, if◌then◌else◌, drop, Memory,
}
use c2sql.Types.{
  SqlRdbResult, ok, err_invalid_arg, err_invalid_handle, err_unknown_struct, is_ok, Schema,
}
use c2sql.Condition.{Condition}
use c2sql.Driver.{Driver}
use c2sql.Handle.{Handle, handle_valid, err_set, mutex_lock, mutex_unlock}
use c2sql.Registry.{lookup}
use c2sql.QueryBuilder.Where.{cond_needs_where}
use c2sql.QueryBuilder.Build.{Op, insert, upsert, delete, count, QuerySpec, Built, qb_build}
use c2sql.TypeMapping.{Row, bind_row}
use c2sql.Crud.{bind_cond_values}

-- What a caller gets from `get_or_prepare`: a statement and whether it owns it, on success.
pub record Acquired (Stmt Cache Ctx : Type 0) : Type 0 where
  pub code : SqlRdbResult
  pub stmt : Stmt
  pub owned : Bool
  pub cache : Cache
  pub ctx : Ctx

-- The statement cache, as the functions of this file use it.
pub record Statements (drv : Driver) : Type 1 where
  pub Cache : Type 0
  pub get_or_prepare : CStr → Cache → drv.Ctx → Acquired drv.Stmt Cache drv.Ctx

-- What a call writes to the buffers of its caller.
pub record Outputs : Type 0 where
  pub number : Option ℕ
  pub row : Row
  pub null_map : Option (List ℕ)

module _ (drv : Driver) (stmts : Statements drv) where
  -- The handle with its cache, the allocator, and what the call has written to its out parameters.
  pub record Session : Type 0 where
    pub handle : Handle drv
    pub cache : stmts.Cache
    pub memory : Memory
    pub out : Outputs

  abbrev pub Result : Type 0
  Result = SqlRdbResult × Session

  abbrev pub at : Session → drv.Ctx → Session
  at s c = record s { handle = record s.handle { driver_ctx = c } }

  abbrev pub fails_with : Session → SqlRdbResult → Result
  fails_with s r = (r, record s { handle = err_set s.handle r })

  -- A driver call.
  abbrev pub calling : Session → SqlRdbResult × drv.Ctx → Result
  calling s (r, c) = (r, at s c)

  pub release_cached_stmt : drv.Stmt → Bool → Session → Session
  release_cached_stmt stmt owned s =
      if owned
      then at s (drv.finalize stmt s.handle.driver_ctx).1
      else at s (drv.reset stmt s.handle.driver_ctx).1

  abbrev pub Body : Type 0
  Body = drv.Stmt → Session → Option Result

  -- A body on a statement that was acquired, and the release that follows on every branch.
  pub released : drv.Stmt → Bool → Option Result → Option Result
  unfolding release_cached_stmt
  released stmt owned none = none
  released stmt owned (some (r, s)) = some (r, release_cached_stmt stmt owned s)

  pub on_acquired : Session → Body → Acquired drv.Stmt stmts.Cache drv.Ctx → Option Result
  unfolding released
  on_acquired s body a =
      let s' = at (record s { cache = a.cache }) a.ctx in
      if is_ok a.code then released a.stmt a.owned (body a.stmt s') else some (a.code, s')

  pub on_built : Session → Body → Option Built → Option Result
  unfolding on_acquired
  on_built s body none = none
  on_built s body (some b) =
      let s' = record s { memory = b.memory } in
      if is_ok b.code
      then elim b.sql [
        | none ↦ none
        | some sql ↦ on_acquired s' body (stmts.get_or_prepare sql s.cache s.handle.driver_ctx)
      ]
      else some (b.code, s')

  -- The part that the four functions share: the schema, the text, the statement.
  pub with_statement : CStr → (Schema → QuerySpec) → (Schema → Body) → Session → Option Result
  unfolding on_built
  with_statement name spec body s = elim (lookup name s.handle.registry.entries) [
    | none ↦ some (fails_with s err_unknown_struct)
    | some schema ↦ on_built s (body schema) (qb_build (some (spec schema)) s.memory)
  ]

  -- The frame of the API functions; `none` is an argument that is NULL but must not be, or is 0. The
  -- source unlocks on every early return; here the unlock stands once, behind the body.
  pub entry : Option (Session → Option Result) → Session → Option Result
  entry arguments s =
      if handle_valid s.handle
      then elim arguments [
        | none ↦ some (err_invalid_arg, s)
        | some body ↦ elim (mutex_lock s.handle.mutex) [
          | none ↦ none
          | some m ↦ elim (body (record s { handle = record s.handle { mutex = m } })) [
            | none ↦ none
            | some (r, t) ↦
                some
                  (r, record t { handle = record t.handle { mutex = mutex_unlock t.handle.mutex } })
          ]
        ]
      ]
      else some (err_invalid_handle, s)

  abbrev is_some : {A : Type 0} → Option A → Bool
  is_some none = false
  is_some (some a) = true

  abbrev write_spec : Schema → QuerySpec
  write_spec schema = record {
    op = if is_some schema.pk_index then upsert else insert;
    schema = some schema;
    cond = none;
    new_col = none;
    target_col = none;
    dialect = drv.dialect;
  }

  abbrev filter_spec : Op → Option Condition → Schema → QuerySpec
  filter_spec op cond schema = record {
    op = op;
    schema = some schema;
    cond = cond;
    new_col = none;
    target_col = none;
    dialect = drv.dialect;
  }

  step_row : drv.Stmt → Session → Result
  step_row stmt s = let t = drv.step stmt s.handle.driver_ctx in (t.0, at s t.2)

  -- The error is recorded before the release here, after it in the source: neither sees the other.
  noted_step : drv.Stmt → Session → Result
  unfolding step_row
  noted_step stmt s = let (r, t) = step_row stmt s in if is_ok r then (r, t) else fails_with t r

  pub write_row : Row → Option (List ℕ) → Schema → Body
  unfolding noted_step
  write_row row null_map schema stmt s =
      elim (bind_row drv (some stmt) (some schema) (some row) null_map s.handle.driver_ctx) [
        | none ↦ none
        | some (r, c) ↦ some (if is_ok r then noted_step stmt (at s c) else (r, at s c))
      ]

  -- `SqlRDBWrite`
  pub write : Option CStr → Option Row → Option (List ℕ) → Session → Option Result
  unfolding entry with_statement write_row
  write (some name) (some row) null_map s =
      entry (some (with_statement name write_spec (write_row row null_map))) s
  write _ _ null_map s = entry none s

  -- The step of one row of many, and the reset that follows it at once.
  step_and_reset : drv.Stmt → Session → Result
  unfolding step_row
  step_and_reset stmt s =
      let (r, t) = step_row stmt s in (r, at t (drv.reset stmt t.handle.driver_ctx).1)

  abbrev bitmap_bytes : ℕ → ℕ
  bitmap_bytes n = (n + 7) / 8

  abbrev map_at : ℕ → ℕ → Option (List ℕ) → Option (List ℕ)
  map_at i bytes none = none
  map_at i bytes (some maps) = some (drop (i * bytes) maps)

  -- The loop over the rows, with `left` of them to go from row `i` on.
  write_rows : ℕ → ℕ → Row → ℕ → ℕ → Option (List ℕ) → Schema → Body
  unfolding step_and_reset
  write_rows zero i rows stride bytes maps schema stmt s = some (ok, s)
  write_rows (suc left) i rows stride bytes maps schema stmt s =
      elim (bind_row drv (some stmt) (some schema) (some (drop (i * stride) rows))
        (map_at i bytes maps) s.handle.driver_ctx) [
          | none ↦ none
          | some (r, c) ↦
              let (q, t) = step_and_reset stmt (at s c) in
              let rest = write_rows left (suc i) rows stride bytes maps schema stmt t in
              if not (is_ok r) then some (r, at s c) else if is_ok q then rest else some (q, t)
        ]

  -- What ends the implicit transaction; its own result is dropped.
  end_implicit : Option Result → Option Result
  end_implicit none = none
  end_implicit (some (r, s)) =
      let c = s.handle.driver_ctx in
      some (r, at s (if is_ok r then (drv.commit c).1 else (drv.rollback c).1))

  pub write_all : ℕ → Row → ℕ → Option (List ℕ) → Schema → Body
  unfolding write_rows end_implicit
  write_all n rows stride maps schema stmt s =
      let bytes = bitmap_bytes (length schema.cols) in
      let (b, c) = drv.begin s.handle.driver_ctx in
      if s.handle.txn.depth == 0
      then if is_ok b
        then end_implicit (write_rows n 0 rows stride bytes maps schema stmt (at s c))
        else some (b, at s c)
      else write_rows n 0 rows stride bytes maps schema stmt s

  -- `SqlRDBWriteMany`
  pub write_many : Option CStr → Option Row → ℕ → ℕ → Option (List ℕ) → Session → Option Result
  unfolding entry with_statement write_all
  write_many (some name) (some rows) n stride maps s =
      if n == 0 || stride == 0
      then entry none s
      else entry (some (with_statement name write_spec (write_all n rows stride maps))) s
  write_many _ _ n stride maps s = entry none s

  -- The values of the condition, if the statement has placeholders for them.
  bind_filter : Option Condition → drv.Stmt → Session → Result
  bind_filter cond stmt s =
      if cond_needs_where cond
      then (let p = bind_cond_values drv stmt cond 1 s.handle.driver_ctx in (p.0, at s p.2))
      else (ok, s)

  -- `(n >= 0) ? (size_t)n : 0`, for the bit pattern of an integer of `bits` bits.
  abbrev not_negative : ℕ → ℕ → ℕ
  not_negative bits n = if ltb n (2 ^ (bits - 1)) then n else 0

  pub delete_rows : Option Condition → Schema → Body
  unfolding bind_filter step_row
  delete_rows cond schema stmt s =
      let (r, t) = bind_filter cond stmt s in some (if is_ok r then step_row stmt t else (r, t))

  report_changes : Bool → Option Result → Option Result
  report_changes wanted none = none
  report_changes wanted (some (r, s)) = some (
    r,
    if is_ok r && wanted
        then record s {
          out = record s.out { number = some (not_negative 32 (drv.changes s.handle.driver_ctx)) };
        }
        else s,
  )

  -- `SqlRDBDelete`; `wanted`: the caller asks for the number of rows.
  pub delete_where : Option CStr → Option Condition → Bool → Session → Option Result
  unfolding entry with_statement delete_rows report_changes
  delete_where (some name) (some cond) wanted s =
      entry
        (some (λ t.
          report_changes wanted
            (with_statement name (filter_spec delete (some cond)) (delete_rows (some cond)) t)))
        s
  delete_where _ _ wanted s = entry none s

  fetch_count : drv.Stmt → Session → Result
  fetch_count stmt s =
      let p = drv.column_int64 stmt 0 s.handle.driver_ctx in
      let t = at s p.2 in
      (
        p.0,
        if is_ok p.0
            then record t { out = record t.out { number = some (not_negative 64 p.1) } }
            else t,
      )

  pub count_rows : Option Condition → Schema → Body
  unfolding bind_filter fetch_count
  count_rows cond schema stmt s =
      let (r, t) = bind_filter cond stmt s in
      let p = drv.step stmt t.handle.driver_ctx in
      let u = at t p.2 in
      some (
        if not (is_ok r) then (r, t) else if is_ok p.0 && p.1 then fetch_count stmt u else (p.0, u))

  -- `SqlRDBCount`, with an `out_count` that is not NULL.
  pub count_where : Option CStr → Option Condition → Session → Option Result
  unfolding entry with_statement count_rows
  count_where (some name) cond s =
      entry (some (with_statement name (filter_spec count cond) (count_rows cond))) s
  count_where none cond s = entry none s
