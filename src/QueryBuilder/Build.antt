-- ===== src/QueryBuilder/Build.antt =====
-- The statement builders of src/query_builder.c and their entry `c2sql_internal_qb_build`.
pub mod Texts
pub mod ValueFree
pub mod Correct
pub mod KeyOnly
use c2sql.Prelude.{
  ℕ, CStr, Bool, true, false, Option, none, some, get_elem?, if◌then◌else◌, lit, Memory,
}
use c2sql.Types.{
  SqlRdbResult, ok, err_invalid_arg, err_no_memory, err_unknown_column, is_ok, SqlDialect, sqlite,
  postgres, ColumnDef, Schema,
}
use c2sql.Condition.{Condition}
use c2sql.QueryBuilder.Buf.{Buf, buf_init}
use c2sql.QueryBuilder.Emit.{BuildState, Step, return, append, append_placeholder, ◌>>◌}
use c2sql.QueryBuilder.Columns.{
  type_to_sql_str, append_col_constraints, append_col_defs, append_names, append_placeholders,
  append_updates,
}
use c2sql.QueryBuilder.Where.{schema_has_column, append_where}

pub data Op : Type 0 where
  create insert upsert select count delete alter_add update_field select_field : Op

-- `SqlRDBQuerySpec`; the pointers that may be NULL are options.
pub record QuerySpec : Type 0 where
  pub op : Op
  pub schema : Option Schema
  pub cond : Option Condition
  pub new_col : Option ColumnDef
  pub target_col : Option CStr
  pub dialect : SqlDialect

unfoldable pub build_create : SqlDialect → Schema → Step
build_create d s = do
  append (lit "CREATE TABLE IF NOT EXISTS \"")
  append s.name
  append (lit "\" (")
  append_col_defs d true s.cols
  append (elim d [ sqlite ↦ lit ") STRICT" | postgres ↦ lit ")" ])

unfoldable pub build_alter_add : SqlDialect → Schema → ColumnDef → Step
build_alter_add d s col = do
  append (lit "ALTER TABLE \"")
  append s.name
  append (lit "\" ADD COLUMN \"")
  append col.name
  append (lit "\" ")
  append (type_to_sql_str col.type d)
  append_col_constraints col

unfoldable pub build_insert : SqlDialect → Schema → Step
build_insert d s = do
  append (lit "INSERT INTO \"")
  append s.name
  append (lit "\" (")
  append_names true s.cols
  append (lit ") VALUES (")
  append_placeholders d true s.cols
  append (lit ")")

-- `s->cols[s->pk_index]` with no primary key, or one out of range, is read out of bounds.
append_conflict : Schema → Option ℕ → Step
append_conflict s none st = none
append_conflict s (some pk) st = elim (get_elem? s.cols pk) [
  | none ↦ none
  | some col ↦
      (do
        append (lit " ON CONFLICT(\"")
        append col.name
        append (lit "\") DO UPDATE SET ")
        append_updates pk 0 true s.cols)
        st
]

unfoldable pub build_upsert : SqlDialect → Schema → Step
unfolding append_conflict
build_upsert d s = do build_insert d s; append_conflict s s.pk_index

unfoldable pub build_select : SqlDialect → Schema → Option Condition → Step
build_select d s cond = do
  append (lit "SELECT ")
  append_names true s.cols
  append (lit " FROM \"")
  append s.name
  append (lit "\"")
  append_where d s cond

unfoldable pub build_count : SqlDialect → Schema → Option Condition → Step
build_count d s cond = do
  append (lit "SELECT COUNT(*) FROM \"")
  append s.name
  append (lit "\"")
  append_where d s cond

unfoldable pub build_delete : SqlDialect → Schema → Option Condition → Step
build_delete d s cond = do
  append (lit "DELETE FROM \"")
  append s.name
  append (lit "\"")
  append_where d s cond

set_field : SqlDialect → Schema → CStr → Option Condition → Step
set_field d s col cond = do
  append (lit "UPDATE \"")
  append s.name
  append (lit "\" SET \"")
  append col
  append (lit "\"=")
  append_placeholder d
  append_where d s cond

unfoldable pub build_update_field : SqlDialect → Schema → CStr → Option Condition → Step
unfolding set_field
build_update_field d s col cond =
    if schema_has_column s.cols col then set_field d s col cond else return err_unknown_column

get_field : SqlDialect → Schema → CStr → Option Condition → Step
get_field d s col cond = do
  append (lit "SELECT \"")
  append col
  append (lit "\" FROM \"")
  append s.name
  append (lit "\"")
  append_where d s cond

unfoldable pub build_select_field : SqlDialect → Schema → CStr → Option Condition → Step
unfolding get_field
build_select_field d s col cond =
    if schema_has_column s.cols col then get_field d s col cond else return err_unknown_column

-- The switch of the entry point, with its checks of `new_col` and `target_col`: the source makes
-- them before the buffer is allocated, with the same result code. Its default branch, for a value that
-- is no operation, has no counterpart.
unfoldable pub build_op :
    SqlDialect → Schema → Option Condition → Op → Option ColumnDef → Option CStr → Step
build_op d s cond create _ _ = build_create d s
build_op d s cond alter_add (some col) _ = build_alter_add d s col
build_op d s cond alter_add none _ = return err_invalid_arg
build_op d s cond insert _ _ = build_insert d s
build_op d s cond upsert _ _ = build_upsert d s
build_op d s cond select _ _ = build_select d s cond
build_op d s cond count _ _ = build_count d s cond
build_op d s cond delete _ _ = build_delete d s cond
build_op d s cond update_field _ (some col) = build_update_field d s col cond
build_op d s cond update_field _ none = return err_invalid_arg
build_op d s cond select_field _ (some col) = build_select_field d s col cond
build_op d s cond select_field _ none = return err_invalid_arg

-- The argument checks that come before `buf_init`.
unfoldable pub is_complete : Op → Option ColumnDef → Option CStr → Bool
is_complete alter_add new_col _ = elim new_col [ none ↦ false | some _ ↦ true ]
is_complete update_field _ target = elim target [ none ↦ false | some _ ↦ true ]
is_complete select_field _ target = elim target [ none ↦ false | some _ ↦ true ]
is_complete _ _ _ = true

-- The result code, `*out_sql`, `*out_bind_count` and the allocator after the call.
pub record Built : Type 0 where
  pub code : SqlRdbResult
  pub sql : Option CStr
  pub bind_count : ℕ
  pub memory : Memory

abbrev pub refused : SqlRdbResult → Memory → Built
refused r m = record { code = r; sql = none; bind_count = 0; memory = m }

-- On failure the buffer is freed and `*out_sql` stays NULL.
abbrev pub outcome : Option (SqlRdbResult × BuildState) → Option Built
outcome none = none
outcome (some (r, st)) = some (
    if is_ok r
    then record {
      code = ok;
      sql = some st.buf.data_bytes;
      bind_count = st.binds;
      memory = st.memory;
    }
    else refused r st.memory)

start_build : QuerySpec → Schema → Option Buf × Memory → Option Built
start_build spec s (none, m) = some (refused err_no_memory m)
start_build spec s (some b, m) = outcome (
    build_op spec.dialect s spec.cond spec.op spec.new_col spec.target_col
      (record { buf = b; binds = 0; memory = m }))

build_checked : QuerySpec → Memory → Option Schema → Option Built
unfolding start_build is_complete
build_checked spec m none = some (refused err_invalid_arg m)
build_checked spec m (some s) =
    if is_complete spec.op spec.new_col spec.target_col
    then start_build spec s (buf_init m)
    else some (refused err_invalid_arg m)

-- `c2sql_internal_qb_build` for a non-NULL `out_sql`; `none` is a NULL `spec`.
unfoldable pub qb_build : Option QuerySpec → Memory → Option Built
unfolding build_checked
qb_build none m = some (refused err_invalid_arg m)
qb_build (some spec) m = build_checked spec m spec.schema
