-- ===== src/QueryBuilder/Tests.antt =====
-- Runs of src/query_builder.c's model on small tables, and the theorems at these inputs.
use c2sql.QueryBuilder.Buf.{Buf, IsBuf, Appended, buf_append, buf_append-Appended, buf_init}
use c2sql.Prelude.{
  refl, arith, true, decimal, str_eq, ◌≡◌, refl, CStr, none, some, [], ◌∷◌, ◌++◌, lit, arith, false,
  true,
}
use c2sql.Types.{SqlDialect, sqlite, postgres, int64, text, ok, ColumnDef, Schema}
use c2sql.Condition.{int_value, text_value, Condition, leaf, and_node, with_values}
use c2sql.QueryBuilder.Emit.{
  append, append_when, append_placeholder, count_bind, return, ◌>>◌, placeholder,
}
use c2sql.QueryBuilder.Columns.{append_names, append_placeholders, append_updates}
use c2sql.QueryBuilder.Where.{op_to_sql_str, schema_has_column, validate_cond_columns}
use c2sql.QueryBuilder.Render.{
  joined, placeholders_text, without_pk, cond_leaves, cond_text, where_text, where_leaves,
  where_check,
}
use c2sql.QueryBuilder.Statement.{statement}
use c2sql.QueryBuilder.Build.{
  build_op, build_upsert, build_insert, select, upsert, QuerySpec, Built, qb_build,
}
use c2sql.QueryBuilder.Build.Correct.{Answers, qb_build-Answers}
use c2sql.QueryBuilder.Build.ValueFree.{qb_build-with_values}
use c2sql.QueryBuilder.Build.KeyOnly.{upsert_key_only}

abbrev id_col : ColumnDef
id_col = record { name = lit "id"; type = int64; offset = 0; size = 8; flags = 1 }

abbrev name_col : ColumnDef
name_col = record { name = lit "name"; type = text; offset = 8; size = 32; flags = 2 }

abbrev persons : Schema
persons = record { name = lit "persons"; cols = id_col ∷ name_col ∷ []; pk_index = some 0 }

abbrev by_id_and_name : Condition
by_id_and_name =
    and_node (leaf (lit "id") 5 (int_value 7)) (leaf (lit "name") 1 (text_value (lit "x")))

abbrev find_person : SqlDialect → QuerySpec
find_person d = record {
  op = select;
  schema = some persons;
  cond = some by_id_and_name;
  new_col = none;
  target_col = none;
  dialect = d;
}

abbrev find_text : CStr
find_text = lit "SELECT \"id\",\"name\" FROM \"persons\" WHERE (\"id\" > $1 AND \"name\" = $2)"

find_reference :
    statement postgres persons (some by_id_and_name) select none none
    ≡ some (record { text = find_text; binds = 2; check = ok })
unfolding lit joined where_text where_leaves where_check cond_text cond_leaves validate_cond_columns
    schema_has_column op_to_sql_str placeholder decimal str_eq
find_reference = refl

qb_build-Answers_example :
    Answers
      (record { text = find_text; binds = 2; check = ok })
      (true ∷ false ∷ [])
      (qb_build (some (find_person postgres)) (true ∷ false ∷ []))
unfolding lit
qb_build-Answers_example =
    qb_build-Answers (find_person postgres) persons (true ∷ false ∷ []) _ refl find_reference
      (omega arith)

qb_build-with_values_example :
    qb_build
      (some (record (find_person sqlite) {
        cond = some (with_values (λ _. text_value (lit "\" OR 1=1 --")) by_id_and_name);
      }))
      []
    ≡ qb_build (some (find_person sqlite)) []
qb_build-with_values_example =
    qb_build-with_values (λ _. text_value (lit "\" OR 1=1 --")) (find_person sqlite) []

abbrev keys : Schema
keys = record { name = lit "keys"; cols = id_col ∷ []; pk_index = some 0 }

abbrev put_key : QuerySpec
put_key = record {
  op = upsert;
  schema = some keys;
  cond = none;
  new_col = none;
  target_col = none;
  dialect = sqlite;
}

abbrev put_key_built : Built
put_key_built = record {
  code = ok;
  sql = some (lit "INSERT INTO \"keys\" (\"id\") VALUES (?) ON CONFLICT(\"id\") DO UPDATE SET ");
  bind_count = 1;
  memory = [];
}

put_key_run : qb_build (some put_key) [] ≡ some put_key_built
unfolding lit qb_build build_op build_upsert build_insert append_names append_placeholders
    append_updates append_when append_placeholder append return count_bind ◌>>◌ placeholder buf_init
put_key_run = refl

upsert_key_only_example : (p : CStr) × (put_key_built.sql ≡ some (p ++ lit "\") DO UPDATE SET "))
unfolding lit joined without_pk placeholders_text placeholder
upsert_key_only_example =
    upsert_key_only put_key keys id_col [] put_key_built refl refl refl refl (omega arith)
      put_key_run refl

abbrev full_buf : Buf
full_buf = record { data_bytes = 65 ∷ []; len = 1; cap = 3 }

full_buf-IsBuf : IsBuf full_buf
full_buf-IsBuf = record { measured = refl; fits = omega arith }

buf_append-Appended_example :
    Appended full_buf (66 ∷ 67 ∷ []) (true ∷ []) (buf_append full_buf (66 ∷ 67 ∷ []) (true ∷ []))
buf_append-Appended_example =
    buf_append-Appended full_buf (66 ∷ 67 ∷ []) (true ∷ []) full_buf-IsBuf (omega arith)
