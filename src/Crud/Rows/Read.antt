-- ===== src/Crud/Rows/Read.antt =====
-- src/c2sql.c: SqlRDBRead. The field `multirow_default` of the handle's configuration is an argument.
pub mod Unchanged
mod Tests
use c2sql.Prelude.{
  ℕ, zero, suc, ◌+◌, ◌/◌, bit_or, CStr, Bool, true, false, not, ◌&&◌, ◌||◌, Option, none, some,
  List, [], ◌∷◌, ltb, leb, ◌==◌, if◌then◌else◌, length, patch, malloc, Memory,
}
use c2sql.Types.{
  SqlRdbResult, ok, warn_truncated, err_no_memory, err_not_found, err_multiple_rows, is_ok,
  ColumnDef, Schema,
}
use c2sql.Condition.{Condition}
use c2sql.Driver.{Driver}
use c2sql.QueryBuilder.Build.{select}
use c2sql.TypeMapping.{Row, Reading, read_row}
use c2sql.Crud.Rows.{
  Statements, Outputs, Session, Result, Body, at, entry, with_statement, filter_spec, bind_filter,
  bitmap_bytes,
}

-- The end of the last member.
unfoldable pub buf_size : ℕ → List ColumnDef → ℕ
buf_size size [] = size
buf_size size (col ∷ cols) =
    let end = col.offset + col.size in buf_size (if ltb size end then end else size) cols

unfoldable pub zeros : ℕ → List ℕ
zeros zero = []
zeros (suc n) = 0 ∷ zeros n

-- `out_null_map[i] |= tmp_null[i]` for the bytes of `tmp_null`.
unfoldable pub or_into : List ℕ → List ℕ → Option (List ℕ)
or_into bytes [] = some bytes
or_into [] (t ∷ tmp) = none
or_into (b ∷ bytes) (t ∷ tmp) = elim (or_into bytes tmp) [
  | none ↦ none
  | some bs ↦ some (bit_or b t ∷ bs)
]

-- A result that comes with a row.
abbrev pub has_read : SqlRdbResult → Bool
has_read ok = true
has_read warn_truncated = true
has_read _ = false

module _ (drv : Driver) (stmts : Statements drv) where
  abbrev keep_row : Session drv stmts → SqlRdbResult × Reading drv → Result drv stmts
  keep_row s (r, rd) = (
    r,
    record (at drv stmts s rd.ctx) { out = record s.out { row = rd.row; null_map = rd.null_map } },
  )

  -- The row is read into the caller's buffers at once.
  read_first : Schema → Body drv stmts
  read_first schema stmt s =
      elim (read_row drv (some stmt) (some schema) s.out.row s.out.null_map s.handle.driver_ctx) [
        | none ↦ none
        | some p ↦ some (keep_row s p)
      ]

  -- The copy of the temporary buffers to the caller's.
  copied_map : Option (List ℕ) → Option (List ℕ) → Option (Option (List ℕ))
  copied_map (some bytes) (some tmp) = elim (or_into bytes tmp) [
    | none ↦ none
    | some bs ↦ some (some bs)
  ]
  copied_map m _ = some m

  copy_out : SqlRdbResult → Row → Option (List ℕ) → Session drv stmts → Option (Result drv stmts)
  unfolding copied_map
  copy_out r row tmp_null s = elim (patch 0 row s.out.row) [
    | none ↦ none
    | some bytes ↦ elim (copied_map s.out.null_map tmp_null) [
      | none ↦ none
      | some m ↦ some (r, record s { out = record s.out { row = bytes; null_map = m } })
    ]
  ]

  -- The step that looks for a second row.
  check_second : SqlRdbResult → Row → Option (List ℕ) → Body drv stmts
  unfolding copy_out
  check_second r row tmp_null stmt s =
      let (q, has_row, c) = drv.step stmt s.handle.driver_ctx in
      let t = at drv stmts s c in
      if not (is_ok q) || has_row
      then some (if has_row then err_multiple_rows else q, t)
      else copy_out r row tmp_null t

  read_temporary : Option (List ℕ) → Schema → Body drv stmts
  unfolding check_second
  read_temporary tmp_null schema stmt s =
      elim (read_row drv (some stmt) (some schema) (zeros (buf_size 0 schema.cols)) tmp_null
        s.handle.driver_ctx) [
          | none ↦ none
          | some (r, rd) ↦
              let t = at drv stmts s rd.ctx in
              if has_read r then check_second r rd.row rd.null_map stmt t else some (r, t)
        ]

  -- The allocations of the temporary row and, if the caller wants one, of the temporary bitmap: without
  -- memory for the bitmap the call goes on without it.
  abbrev temporary_map : Bool → ℕ → Option (List ℕ) → Option (List ℕ)
  temporary_map got n none = none
  temporary_map got n (some bytes) = if got then some (zeros (bitmap_bytes drv stmts n)) else none

  abbrev map_memory : Option (List ℕ) → Memory → Bool × Memory
  map_memory none m = (false, m)
  map_memory (some bytes) m = malloc m

  read_only : Schema → Body drv stmts
  unfolding read_temporary
  read_only schema stmt s =
      let (got, m) = malloc s.memory in
      let (got_map, m') = map_memory s.out.null_map m in
      if got
      then read_temporary (temporary_map got_map (length schema.cols) s.out.null_map) schema stmt
          (record s { memory = m' })
      else some (err_no_memory, record s { memory = m })

  read_body : Option Condition → Bool → Schema → Body drv stmts
  unfolding read_first read_only
  read_body cond allow_multi schema stmt s =
      let (r, t) = bind_filter drv stmts cond stmt s in
      let (q, has_row, c) = drv.step stmt t.handle.driver_ctx in
      let u = at drv stmts t c in
      if not (is_ok r)
      then some (r, t)
      else if not (is_ok q)
      then some (q, u)
      else if not has_row
      then some (err_not_found, u)
      else if allow_multi
      then read_first schema stmt u
      else read_only schema stmt u

  -- `SqlRDBRead`; the caller's buffers are the session's outputs, `allow_multi` is that of the options.
  pub read :
      Option CStr
      → Option Condition
      → Bool
      → ℕ
      → Bool
      → Session drv stmts
      → Option (Result drv stmts)
  unfolding entry with_statement read_body
  read (some name) cond allow_multi multirow_default true s =
      entry drv stmts
        (some (
          with_statement drv stmts name (filter_spec drv stmts select cond)
            (read_body cond (allow_multi || multirow_default == 1))))
        s
  read _ cond allow_multi multirow_default has_out_row s = entry drv stmts none s
