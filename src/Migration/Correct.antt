-- ===== src/Migration/Correct.antt =====
-- `c2sql_internal_migrate_table` of src/migration.c comes to an end, and succeeds only on a table that the
-- database's answers show to be the schema's.
use c2sql.Prelude.{
  ℕ, ◌+◌, ◌≤◌, ◌≡◌, CStr, Bool, false, not, ◌||◌, some, List, ltb, if◌then◌else◌, length,
}
use c2sql.Types.{
  SqlRdbResult, err_schema_mismatch, is_ok, ColumnDef, Schema, SqlDialect, sqlite, postgres,
}
use c2sql.Driver.{Driver}
use c2sql.QueryBuilder.Buf.{text_limit}
use c2sql.QueryBuilder.Statement.{alter_text}
use c2sql.QueryBuilder.Statement.{Statement}
use c2sql.QueryBuilder.Build.Correct.{Answers}
use c2sql.Life.{Config}
use c2sql.Migration.{DbCol}
use c2sql.Migration.Steps.{State, Step, ◌>>◌, give}
use c2sql.Migration.Table.{prefix_matches, require, add_missing}
use c2sql.Migration.Answers.{QueryLaws}
use c2sql.Migration.Layout.{layout, Answers as Replies}
use c2sql.Migration.Reads.{pg_columns}
use c2sql.Migration.Declared.{Zip}
use c2sql.Migration.Declared.Sqlite
use c2sql.Migration.Declared.Sqlite.{info_answer}
use c2sql.Migration.Declared.Postgres
use c2sql.Migration.Existing.{Fits}
use c2sql.Migration.Keyword.{PlainTable}
use c2sql.Migration.Compare.{AreSame}
use c2sql.Migration.Ends.{Ends}

-- The columns are declared by the answers of a database of that dialect.
abbrev pub AreDeclared : SqlDialect → CStr → Replies → List ColumnDef → Type 0
AreDeclared sqlite table answer cols =
    Zip (c2sql.Migration.Declared.Sqlite.IsDeclared table answer) cols (info_answer table answer)
AreDeclared postgres table answer cols =
    Zip (c2sql.Migration.Declared.Postgres.IsDeclared table answer) cols
      (answer pg_columns (some table))

module _ (drv : Driver) where
  -- A failure has a code that says so.
  abbrev pub Any : SqlRdbResult → State drv → Type 0
  Any r t = is_ok r ≡ false

module _ (drv : Driver) (laws : QueryLaws drv) (schema : Schema) (fuel : ℕ)
    (fits : (c : drv.Ctx) → Fits fuel (laws.answer c))
    (plain : (c : drv.Ctx) → PlainTable schema.name (laws.answer c)) where
  abbrev IsShort : ColumnDef → Type 0
  IsShort col = length (alter_text drv.dialect schema col) + 1 ≤ text_limit

  -- The columns that would be read are the schema's.
  abbrev Fitting : State drv → Type 0
  Fitting t = AreSame schema.cols (layout drv.dialect schema.name (laws.answer t.ctx))

  -- The database's answers after the call declare the columns of the schema, in their order.
  abbrev pub IsTable : State drv → Type 0
  IsTable t = AreDeclared drv.dialect schema.name (laws.answer t.ctx) schema.cols

  abbrev Read : List DbCol → State drv → Type 0
  Read cols t = cols ≡ layout drv.dialect schema.name (laws.answer t.ctx)

  -- The last part: the columns that are missing.
  abbrev completed : Config → List DbCol → Step drv Unit
  completed cfg cols =
      if ltb (length cols) (length schema.cols)
      then require drv cfg.auto_migrate err_schema_mismatch
        >> add_missing drv fuel schema (length cols)
      else give tt

  -- The checks after the keyword is known.
  abbrev checked : Config → List DbCol → Bool → Step drv Unit
  checked cfg cols strict =
      require drv (strict || not cfg.require_strict) err_schema_mismatch
      >> (require drv (prefix_matches schema.cols cols) err_schema_mismatch
          >> (require drv (not (ltb (length schema.cols) (length cols))) err_schema_mismatch
              >> completed cfg cols))
