-- ===== src/Crud/Tests.antt =====
-- Runs of the condition functions of src/c2sql.c, and the theorems at these inputs.
use c2sql.Prelude.{◌+◌, ◌≡◌, refl, arith, some, none, [], ◌∷◌, lit, decimal, str_eq, CStr}
use c2sql.Types.{sqlite, int64, ok, Schema}
use c2sql.Condition.{int_value, Condition, leaf, or_node}
use c2sql.QueryBuilder.Buf.{buf_init}
use c2sql.QueryBuilder.Emit.{
  append, append_when, append_placeholder, count_bind, return, ◌>>◌, placeholder,
}
use c2sql.QueryBuilder.Where.{
  op_to_sql_str, schema_has_column, validate_cond_columns, append_where, append_cond,
  cond_needs_where,
}
use c2sql.QueryBuilder.Render.{cond_leaves, cond_text, where_text, where_leaves, where_check}
use c2sql.QueryBuilder.Statement.{statement}
use c2sql.QueryBuilder.Build.{build_op, build_delete, delete, QuerySpec, Built, qb_build}
use c2sql.TypeMapping.Mirror.{mirror, mirror_laws}
use c2sql.Crud.{bind_cond_values, bind_cond, bind_value}
use c2sql.Crud.Conditions.{AreBound, leaf_values, bind_cond_values-AreBound}
use c2sql.Crud.Counts.{bind_cond_values-bind_count}

abbrev keys : Schema
keys = record {
  name = lit "k";
  cols = record { name = lit "id"; type = int64; offset = 0; size = 8; flags = 1 } ∷ [];
  pk_index = some 0;
}

abbrev three_or_five : Condition
three_or_five = or_node (leaf (lit "id") 1 (int_value 3)) (leaf (lit "id") 1 (int_value 5))

abbrev remove_keys : QuerySpec
remove_keys = record {
  op = delete;
  schema = some keys;
  cond = some three_or_five;
  new_col = none;
  target_col = none;
  dialect = sqlite;
}

abbrev remove_text : CStr
remove_text = lit "DELETE FROM \"k\" WHERE (\"id\" = ? OR \"id\" = ?)"

abbrev remove_built : Built
remove_built = record { code = ok; sql = some remove_text; bind_count = 2; memory = [] }

remove_run : qb_build (some remove_keys) [] ≡ some remove_built
unfolding lit qb_build build_op build_delete append_where append_cond cond_needs_where
    validate_cond_columns schema_has_column op_to_sql_str append_when append_placeholder append
    return count_bind ◌>>◌ placeholder buf_init str_eq
remove_run = refl

remove_reference :
    statement sqlite keys (some three_or_five) delete none none
    ≡ some (record { text = remove_text; binds = 2; check = ok })
unfolding lit where_text where_leaves where_check cond_text cond_leaves validate_cond_columns
    schema_has_column op_to_sql_str placeholder decimal str_eq
remove_reference = refl

bind_cond_values-AreBound_example :
    AreBound mirror mirror_laws 0
      (int_value 3 ∷ int_value 5 ∷ [])
      1
      (λ _. none)
      (bind_cond_values mirror 0 (some three_or_five) 1 (λ _. none))
unfolding leaf_values bind_cond_values bind_cond bind_value
bind_cond_values-AreBound_example =
    bind_cond_values-AreBound mirror mirror_laws 0 (some three_or_five) 1 (λ _. none) refl

bind_cond_values-bind_count_example :
    (bind_cond_values mirror 0 (some three_or_five) 1 (λ _. none)).1 ≡ 2 + 1
unfolding lit bind_cond_values bind_cond bind_value
bind_cond_values-bind_count_example =
    bind_cond_values-bind_count mirror mirror_laws 0 (λ _. none) remove_keys keys []
      (record { text = remove_text; binds = 2; check = ok }) remove_built refl refl remove_reference
      (omega arith) remove_run refl refl
