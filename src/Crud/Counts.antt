-- ===== src/Crud/Counts.antt =====
-- The parameters that src/c2sql.c binds for a statement, and the placeholders of its text.
use mathlib.Core.Option.{some-injective}
use c2sql.Prelude.{
  CStr, ◌+◌, ◌≤◌, ◌≡◌, sym, ap, Bool, true, false, Option, none, some, arith, length, Memory,
}
use c2sql.Types.{ok, is_ok, ColumnDef, Schema, SqlDialect}
use c2sql.Condition.{Condition}
use c2sql.Driver.{Driver}
use c2sql.QueryBuilder.Buf.{text_limit}
use c2sql.QueryBuilder.Render.{where_leaves}
use c2sql.QueryBuilder.Statement.{Statement, statement}
use c2sql.QueryBuilder.Build.{
  Op, create, insert, upsert, select, count, delete, alter_add, update_field, select_field,
  QuerySpec, Built, qb_build,
}
use c2sql.QueryBuilder.Build.Correct.{Answers, answered, rejected, exhausted, qb_build-Answers}
use c2sql.TypeMapping.Binding.{BindLaws}
use c2sql.Crud.{bind_cond_values}
use c2sql.Crud.Conditions.{values-leaves, bind_cond_values-AreBound}

-- The operations whose only parameters are those of the condition.
abbrev pub filters : Op → Bool
filters select = true
filters count = true
filters delete = true
filters select_field = true
filters _ = false

filter_binds :
    (d : SqlDialect) (s : Schema) (cond : Option Condition) (op : Op) (new_col : Option ColumnDef)
    (target : Option CStr) (t : Statement)
    → filters op ≡ true
    → statement d s cond op new_col target ≡ some t
    → t.binds ≡ where_leaves cond
filter_binds d s cond create new_col target t f h = cc
filter_binds d s cond insert new_col target t f h = cc
filter_binds d s cond upsert new_col target t f h = cc
filter_binds d s cond alter_add new_col target t f h = cc
filter_binds d s cond update_field new_col target t f h = cc
filter_binds d s cond select new_col target t f h =
    omega (arith, ap Statement.binds (some-injective _ t h))
filter_binds d s cond count new_col target t f h =
    omega (arith, ap Statement.binds (some-injective _ t h))
filter_binds d s cond delete new_col target t f h =
    omega (arith, ap Statement.binds (some-injective _ t h))
filter_binds d s cond select_field new_col none t f h = cc
filter_binds d s cond select_field new_col (some col) t f h =
    omega (arith, ap Statement.binds (some-injective _ t h))

Answers-binds :
    (t : Statement) (m : Memory) (b : Built) {o : Option Built}
    → Answers t m o
    → o ≡ some b
    → b.code ≡ ok
    → b.bind_count ≡ t.binds
Answers-binds t m b (answered m' h) e k = sym (ap Built.bind_count (some-injective _ _ e))
Answers-binds t m b (rejected m' h) e k = ground arith
Answers-binds t m b (exhausted m' h) e k = ground arith

-- On a driver that meets BindLaws, for a statement that filters by a condition (SELECT, COUNT,
-- DELETE, or SELECT of a field), built with success from a text shorter than 2^63 bytes: binding
-- the condition's values from index 1 on, with success, uses exactly as many indices as the
-- statement was reported to have placeholders.
pub bind_cond_values-bind_count :
    (drv : Driver) (laws : BindLaws drv) (stmt : drv.Stmt) (c : drv.Ctx) (spec : QuerySpec)
    (s : Schema) (m : Memory) (t : Statement) (b : Built)
    → filters spec.op ≡ true
    → spec.schema ≡ some s
    → statement spec.dialect s spec.cond spec.op spec.new_col spec.target_col ≡ some t
    → length t.text + 1 ≤ text_limit
    → qb_build (some spec) m ≡ some b
    → b.code ≡ ok
    → is_ok (bind_cond_values drv stmt spec.cond 1 c).0 ≡ true
    → (bind_cond_values drv stmt spec.cond 1 c).1 ≡ b.bind_count + 1
bind_cond_values-bind_count drv laws stmt c spec s m t b f es h low run fine good = omega (
  arith,
  (bind_cond_values-AreBound drv laws stmt spec.cond 1 c good).next,
  values-leaves spec.cond,
  filter_binds spec.dialect s spec.cond spec.op spec.new_col spec.target_col t f h,
  Answers-binds t m b (qb_build-Answers spec s m t es h low) run fine,
)
