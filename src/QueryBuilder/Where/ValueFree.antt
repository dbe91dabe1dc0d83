-- ===== src/QueryBuilder/Where/ValueFree.antt =====
-- The WHERE clause of src/query_builder.c when the values of its condition are replaced.
use mathlib.Core.Option
use c2sql.Prelude.{◌≡◌, refl, Option, none, some, List}
use c2sql.Types.{SqlDialect, ColumnDef, Schema}
use c2sql.Condition.{Value, Condition, leaf, and_node, or_node, match_all, with_values}
use c2sql.QueryBuilder.Where.{
  append_cond, append_where, where_clause, validate_cond_columns, cond_needs_where,
}

module _ (f : Value → Value) where
  append_cond-with_values :
      (d : SqlDialect) (c : Condition) → append_cond d (with_values f c) ≡ append_cond d c
  unfolding append_cond with_values
  append_cond-with_values d match_all = refl
  append_cond-with_values d (leaf col op v) = refl
  append_cond-with_values d (and_node l r) =
      rw (append_cond-with_values d l, append_cond-with_values d r)
  append_cond-with_values d (or_node l r) =
      rw (append_cond-with_values d l, append_cond-with_values d r)

  validate-with_values :
      (c : Condition) (cols : List ColumnDef)
      → validate_cond_columns (with_values f c) cols ≡ validate_cond_columns c cols
  unfolding validate_cond_columns with_values
  validate-with_values match_all cols = refl
  validate-with_values (leaf col op v) cols = refl
  validate-with_values (and_node l r) cols =
      rw (validate-with_values l cols, validate-with_values r cols)
  validate-with_values (or_node l r) cols =
      rw (validate-with_values l cols, validate-with_values r cols)

  clause-with_values :
      (d : SqlDialect) (s : Schema) (c : Condition)
      → where_clause d s (with_values f c) ≡ where_clause d s c
  unfolding where_clause
  clause-with_values d s c = rw (validate-with_values c s.cols, append_cond-with_values d c)

  pub append_where-with_values :
      (d : SqlDialect) (s : Schema) (c : Option Condition)
      → append_where d s (Option.map (with_values f) c) ≡ append_where d s c
  unfolding append_where cond_needs_where with_values
  append_where-with_values d s none = refl
  append_where-with_values d s (some match_all) = refl
  append_where-with_values d s (some (leaf col op v)) = clause-with_values d s (leaf col op v)
  append_where-with_values d s (some (and_node l r)) = clause-with_values d s (and_node l r)
  append_where-with_values d s (some (or_node l r)) = clause-with_values d s (or_node l r)
