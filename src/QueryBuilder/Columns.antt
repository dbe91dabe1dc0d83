-- ===== src/QueryBuilder/Columns.antt =====
-- The column fragments of src/query_builder.c: type names, constraints, and the loops over the
-- columns that the builders share. A loop's `first` is the source's `i == 0` (or its `first`).
pub mod Texts
use c2sql.Prelude.{ℕ, suc, CStr, Bool, false, not, ◌&&◌, List, [], ◌∷◌, ◌==◌, if◌then◌else◌, lit}
use c2sql.Types.{
  SqlRdbType, int32, int64, real, text, blob, SqlDialect, sqlite, postgres, ok, ColumnDef, has_flag,
  flag_nullable, flag_primary_key, flag_unique,
}
use c2sql.QueryBuilder.Emit.{Step, return, append, append_when, append_placeholder, ◌>>◌}

-- The default branches, for values that are no SqlRDBType, have no counterpart.
unfoldable pub type_to_sql_str : SqlRdbType → SqlDialect → CStr
type_to_sql_str int32 postgres = lit "INTEGER"
type_to_sql_str int64 postgres = lit "BIGINT"
type_to_sql_str real postgres = lit "DOUBLE PRECISION"
type_to_sql_str text postgres = lit "TEXT"
type_to_sql_str blob postgres = lit "BYTEA"
type_to_sql_str int32 sqlite = lit "INTEGER"
type_to_sql_str int64 sqlite = lit "INTEGER"
type_to_sql_str real sqlite = lit "REAL"
type_to_sql_str text sqlite = lit "TEXT"
type_to_sql_str blob sqlite = lit "BLOB"

unfoldable pub append_col_constraints : ColumnDef → Step
append_col_constraints col = do
  append_when (not (has_flag col flag_nullable)) (lit " NOT NULL")
  append_when (has_flag col flag_primary_key) (lit " PRIMARY KEY")
  append_when (has_flag col flag_unique && not (has_flag col flag_primary_key)) (lit " UNIQUE")

-- The loop of `build_create`.
unfoldable pub append_col_defs : SqlDialect → Bool → List ColumnDef → Step
append_col_defs d first [] = return ok
append_col_defs d first (col ∷ cols) = do
  append_when (not first) (lit ",")
  append (lit "\"")
  append col.name
  append (lit "\" ")
  append (type_to_sql_str col.type d)
  append_col_constraints col
  append_col_defs d false cols

-- The loop of `build_insert` and `build_select` over the quoted column names.
unfoldable pub append_names : Bool → List ColumnDef → Step
append_names first [] = return ok
append_names first (col ∷ cols) = do
  append_when (not first) (lit ",")
  append (lit "\"")
  append col.name
  append (lit "\"")
  append_names false cols

-- The loop of `build_insert` over the placeholders.
unfoldable pub append_placeholders : SqlDialect → Bool → List ColumnDef → Step
append_placeholders d first [] = return ok
append_placeholders d first (col ∷ cols) = do
  append_when (not first) (lit ",")
  append_placeholder d
  append_placeholders d false cols

-- The loop of `build_upsert`, from column `i` on, over the columns other than `pk`.
unfoldable pub append_updates : ℕ → ℕ → Bool → List ColumnDef → Step
append_updates pk i first [] = return ok
append_updates pk i first (col ∷ cols) =
    let skipped = append_updates pk (suc i) first cols in
    let rest = append_updates pk (suc i) false cols in
    if i == pk then skipped else do
      append_when (not first) (lit ",")
      append (lit "\"")
      append col.name
      append (lit "\"=excluded.\"")
      append col.name
      append (lit "\"")
      rest
