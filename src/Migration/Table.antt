-- ===== src/Migration/Table.antt =====
-- `c2sql_internal_migrate_table` of src/migration.c and SqlRDBRegisterStruct of src/c2sql.c. The text of
-- the log messages and of the errors is not modelled.
use c2sql.Prelude.{
  ℕ, CStr, Bool, true, false, not, ◌||◌, Option, none, some, List, [], ◌∷◌, ◌==◌, ltb,
  if◌then◌else◌, length, drop,
}
use c2sql.Types.{
  SqlRdbResult, err_internal, err_schema_mismatch, is_ok, sqlite, postgres, ColumnDef, Schema,
}
use c2sql.Driver.{Driver}
use c2sql.QueryBuilder.Build.{Op, create, alter_add, QuerySpec, qb_build}
use c2sql.Life.{Config}
use c2sql.Migration.{DbCol, compare_columns}
use c2sql.Migration.Steps.{
  Outcome, done, failed, State, Step, at, ◌>>=◌, ◌>>◌, give, fail, fail_noted,
}
use c2sql.Migration.Reads.{check_strict, read_existing}

-- The loop over the columns that both have.
unfoldable pub prefix_matches : List ColumnDef → List DbCol → Bool
prefix_matches [] dcs = true
prefix_matches scs [] = true
prefix_matches (sc ∷ scs) (dc ∷ dcs) =
    let rest = prefix_matches scs dcs in if compare_columns sc dc == 0 then rest else false

module _ (drv : Driver) where
  abbrev pub ddl_spec : Op → Schema → Option ColumnDef → QuerySpec
  ddl_spec op schema col = record {
    op = op;
    schema = some schema;
    cond = none;
    new_col = col;
    target_col = none;
    dialect = drv.dialect;
  }

  unfoldable pub build : Op → Schema → Option ColumnDef → Step drv CStr
  build op schema col s = elim (qb_build (some (ddl_spec op schema col)) s.memory) [
    | none ↦ none
    | some b ↦
        let t = record s { memory = b.memory } in
        if is_ok b.code
        then elim b.sql [ none ↦ none | some sql ↦ some (done sql, t) ]
        else some (failed b.code, t)
  ]

  unfoldable pub exec : CStr → Step drv Unit
  exec sql s =
      let (r, c) = drv.exec sql s.ctx in if is_ok r then give tt (at s c) else fail_noted r (at s c)

  -- A check that fails with a code, which is noted.
  unfoldable pub require : Bool → SqlRdbResult → Step drv Unit
  require test r = if test then give tt else fail_noted r

  -- What `check_strict` returns is ignored; the flag is false then.
  abbrev pub or_not : Option (Outcome Bool × State drv) → Option (Outcome Bool × State drv)
  or_not none = none
  or_not (some (failed r, t)) = some (done false, t)
  or_not (some (done b, t)) = some (done b, t)

  unfoldable pub is_strict : CStr → Step drv Bool
  is_strict table s = elim drv.dialect [
    | postgres ↦ some (done true, s)
    | sqlite ↦ or_not (check_strict drv table s)
  ]

  unfoldable pub alter_all : Schema → List ColumnDef → Step drv Unit
  alter_all schema [] = give tt
  alter_all schema (col ∷ cols) = do
    sql ← build alter_add schema (some col)
    exec sql
    alter_all schema cols

  -- The columns that are missing, and the check of all of them.
  unfoldable pub add_missing : ℕ → Schema → ℕ → Step drv Unit
  add_missing fuel schema n = do
    alter_all schema (drop n schema.cols)
    cols ← read_existing drv fuel schema.name
    require (length cols == length schema.cols) err_schema_mismatch
    require (prefix_matches schema.cols cols) err_schema_mismatch

  -- The comparison with the columns that were read.
  unfoldable pub compare_layout : ℕ → Config → Schema → List DbCol → Step drv Unit
  compare_layout fuel cfg schema cols = do
    if length cols == 0 then fail err_internal else give tt
    strict ← is_strict schema.name
    require (strict || not cfg.require_strict) err_schema_mismatch
    require (prefix_matches schema.cols cols) err_schema_mismatch
    require (not (ltb (length schema.cols) (length cols))) err_schema_mismatch
    if ltb (length cols) (length schema.cols)
        then require cfg.auto_migrate err_schema_mismatch >> add_missing fuel schema (length cols)
        else give tt

  unfoldable pub migrate_table : ℕ → Config → Schema → Step drv Unit
  migrate_table fuel cfg schema = do
    sql ← build create schema none
    exec sql
    cols ← read_existing drv fuel schema.name
    compare_layout fuel cfg schema cols
