-- ===== src/QueryBuilder/Where.antt =====
-- The WHERE clause of src/query_builder.c: column check and the walk over the condition tree.
pub mod Texts
pub mod ValueFree
use c2sql.Prelude.{
  ℕ, CStr, Bool, true, false, Option, none, some, List, [], ◌∷◌, ◌==◌, if◌then◌else◌, lit, str_eq,
}
use c2sql.Types.{SqlDialect, SqlRdbResult, ok, err_unknown_column, is_ok, ColumnDef, Schema}
use c2sql.Condition.{Condition, leaf, and_node, or_node, match_all}
use c2sql.QueryBuilder.Emit.{Step, return, append, append_placeholder, ◌>>◌}

-- An operator outside the enum falls through to "=".
unfoldable pub op_to_sql_str : ℕ → CStr
op_to_sql_str op =
    if op == 1
    then lit "="
    else if op == 2
    then lit "!="
    else if op == 3
    then lit "<"
    else if op == 4
    then lit "<="
    else if op == 5
    then lit ">"
    else if op == 6
    then lit ">="
    else lit "="

unfoldable pub schema_has_column : List ColumnDef → CStr → Bool
schema_has_column [] col = false
schema_has_column (c ∷ cols) col = if str_eq c.name col then true else schema_has_column cols col

unfoldable pub validate_cond_columns : Condition → List ColumnDef → SqlRdbResult
validate_cond_columns (leaf col op v) cols =
    if schema_has_column cols col then ok else err_unknown_column
validate_cond_columns (and_node l r) cols =
    let left = validate_cond_columns l cols in
    let right = validate_cond_columns r cols in if is_ok left then right else left
validate_cond_columns (or_node l r) cols =
    let left = validate_cond_columns l cols in
    let right = validate_cond_columns r cols in if is_ok left then right else left
validate_cond_columns match_all cols = ok

unfoldable pub append_cond : SqlDialect → Condition → Step
append_cond d match_all = return ok
append_cond d (leaf col op v) = do
  append (lit "\"")
  append col
  append (lit "\" ")
  append (op_to_sql_str op)
  append (lit " ")
  append_placeholder d
append_cond d (and_node l r) = do
  append (lit "(")
  append_cond d l
  append (lit " AND ")
  append_cond d r
  append (lit ")")
append_cond d (or_node l r) = do
  append (lit "(")
  append_cond d l
  append (lit " OR ")
  append_cond d r
  append (lit ")")

unfoldable pub cond_needs_where : Option Condition → Bool
cond_needs_where none = false
cond_needs_where (some match_all) = false
cond_needs_where (some _) = true

where_clause : SqlDialect → Schema → Condition → Step
where_clause d s cond = do
  return (validate_cond_columns cond s.cols)
  append (lit " WHERE ")
  append_cond d cond

-- The part that `build_select`, `build_count`, `build_delete` and the field builders share.
unfoldable pub append_where : SqlDialect → Schema → Option Condition → Step
unfolding where_clause
append_where d s none = return ok
append_where d s (some cond) =
    if cond_needs_where (some cond) then where_clause d s cond else return ok
