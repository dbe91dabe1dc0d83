-- ===== src/QueryBuilder/Build/ValueFree.antt =====
-- The values of a condition and the SQL text of src/query_builder.c.
use c2sql.QueryBuilder.Buf.{Buf, buf_init}
use mathlib.Core.Option
use c2sql.Prelude.{◌≡◌, refl, CStr, Option, none, some, Memory}
use c2sql.Types.{SqlDialect, ColumnDef, Schema}
use c2sql.Condition.{Value, Condition, with_values}
use c2sql.QueryBuilder.Where.ValueFree.{append_where-with_values}
use c2sql.QueryBuilder.Build.{
  Op, QuerySpec, qb_build, build_checked, start_build, build_op, build_select, build_count,
  build_delete, build_update_field, build_select_field, create, insert, upsert, select, count,
  delete, alter_add, update_field, select_field,
}

build_op-with_values :
    (f : Value → Value) (d : SqlDialect) (s : Schema) (cond : Option Condition) (op : Op)
    (new_col : Option ColumnDef) (target : Option CStr)
    → build_op d s (Option.map (with_values f) cond) op new_col target
      ≡ build_op d s cond op new_col target
unfolding build_op build_select build_count build_delete build_update_field build_select_field
build_op-with_values f d s cond select new_col target = rw (append_where-with_values f d s cond)
build_op-with_values f d s cond count new_col target = rw (append_where-with_values f d s cond)
build_op-with_values f d s cond delete new_col target = rw (append_where-with_values f d s cond)
build_op-with_values f d s cond update_field new_col (some col) =
    rw (append_where-with_values f d s cond)
build_op-with_values f d s cond update_field new_col none = refl
build_op-with_values f d s cond select_field new_col (some col) =
    rw (append_where-with_values f d s cond)
build_op-with_values f d s cond select_field new_col none = refl
build_op-with_values f d s cond alter_add (some col) target = refl
build_op-with_values f d s cond alter_add none target = refl
build_op-with_values f d s cond create new_col target = refl
build_op-with_values f d s cond insert new_col target = refl
build_op-with_values f d s cond upsert new_col target = refl

start-with_values :
    (f : Value → Value) (spec : QuerySpec) (s : Schema) (r : Option Buf × Memory)
    → start_build (record spec { cond = Option.map (with_values f) spec.cond }) s r
      ≡ start_build spec s r
unfolding start_build
start-with_values f spec s (none, m) = refl
start-with_values f spec s (some b, m) =
    rw (build_op-with_values f spec.dialect s spec.cond spec.op spec.new_col spec.target_col)

-- Replacing the values in a condition by others, in any way, changes nothing of what a call
-- returns: not the SQL text, the number of placeholders, the result code, nor what is allocated.
pub qb_build-with_values :
    (f : Value → Value) (spec : QuerySpec) (m : Memory)
    → qb_build (some (record spec { cond = Option.map (with_values f) spec.cond })) m
      ≡ qb_build (some spec) m
unfolding qb_build build_checked
qb_build-with_values f spec m = checked spec.schema
  where
    checked :
        (s : Option Schema)
        → build_checked (record spec { cond = Option.map (with_values f) spec.cond }) m s
          ≡ build_checked spec m s
    checked none = refl
    checked (some s) = rw (start-with_values f spec s (buf_init m), build_checked)
