-- ===== src/Migration/Tests.antt =====
-- Runs of src/migration.c on a database with one table.
use c2sql.Prelude.{
  ℕ, ◌+◌, ◌<◌, ◌≤◌, ◌≡◌, refl, CStr, Bool, true, false, Option, none, some, List, [], ◌∷◌, arith,
  lit, str_eq, if◌then◌else◌, length, All,
}
use c2sql.Types.{SqlRdbResult, ok, sqlite, ColumnDef, Schema, int64}
use c2sql.Driver.{Driver}
use c2sql.Handle.{Handle, handle_magic}
use c2sql.Registry.{empty_registry, new_schema}
use c2sql.Registry.Columns.{ColumnArg}
use c2sql.Registry.Identifier.{in_ident}
use c2sql.QueryBuilder.Buf.{text_limit}
use c2sql.QueryBuilder.Statement.{create_text, alter_text}
use c2sql.Migration.Strict.{strict_from}
use c2sql.Migration.Strict.Scan.{IsPlain, has_strict, strict_from_lem, strict_from-endless}
use c2sql.Migration.Steps.{State}
use c2sql.Migration.Reads.{with_name, strict_query}
use c2sql.Migration.Answers.{TableRow, QueryLaws}
use c2sql.Migration.Ends.{Ends}

-- A tail with a keyword, and one with a comment.
abbrev tail : CStr
tail = lit " WITHOUT ROWID, strict"

tail-IsPlain : IsPlain tail
unfolding lit in_ident
tail-IsPlain = ground arith

strict_from_lem_example : strict_from 23 tail ≡ some (has_strict false tail)
unfolding lit
strict_from_lem_example = strict_from_lem 23 tail tail-IsPlain (omega arith)

strict_from-endless_example : strict_from 1000 (b'-' ∷ lit "- a table") ≡ none
unfolding lit in_ident
strict_from-endless_example = strict_from-endless 1000 b'-' (lit "- a table") refl (omega arith)

-- The rows to come and the row of the one statement that is open.
record Cursor : Type 0 where
  sql : CStr
  rows : List TableRow
  row : TableRow

abbrev blank : TableRow
blank = record { ints = λ i. 0; texts = λ i. none }

abbrev column_row : TableRow
column_row = record {
  ints = λ i. 1;
  texts = λ i. some (if c2sql.Prelude.◌==◌ i 1 then lit "id" else lit "INTEGER");
}

abbrev definition_row : TableRow
definition_row = record {
  ints = λ i. 0;
  texts = λ i. some (lit "CREATE TABLE t (id INTEGER) STRICT");
}

abbrev answers : CStr → Option CStr → List TableRow
answers sql p =
    if str_eq sql (with_name (lit "PRAGMA table_info(\"") (lit "t") (lit "\")"))
    then column_row ∷ []
    else if str_eq sql (strict_query (lit "t"))
    then definition_row ∷ []
    else []

abbrev next_row : Cursor → List TableRow → SqlRdbResult × Bool × Cursor
next_row c [] = (ok, false, c)
next_row c (row ∷ rows) = (ok, true, record c { rows = rows; row = row })

abbrev catalog : Driver
catalog = record {
  Ctx = Cursor;
  Stmt = ℕ;
  dialect = sqlite;
  exec = λ sql c. (ok, c);
  prepare = λ sql c. (ok, 0, record c { sql = sql; rows = answers sql none });
  bind_int64 = λ s i v c. (ok, c);
  bind_int32 = λ s i v c. (ok, c);
  bind_real = λ s i v c. (ok, c);
  bind_text = λ s i v c. (ok, record c { rows = answers c.sql (some v) });
  bind_blob = λ s i v c. (ok, c);
  bind_null = λ s i c. (ok, c);
  step = λ s c. next_row c c.rows;
  column_int64 = λ s i c. (ok, c.row.ints i, c);
  column_int32 = λ s i c. (ok, c.row.ints i, c);
  column_real = λ s i c. (ok, 0, c);
  column_text = λ s i c. (ok, c.row.texts i, c);
  column_blob = λ s i c. (ok, none, c);
  column_isnull = λ s i c. (ok, true, c);
  reset = λ s c. (ok, c);
  finalize = λ s c. (ok, c);
  begin = λ c. (ok, c);
  commit = λ c. (ok, c);
  rollback = λ c. (ok, c);
  savepoint = λ n c. (ok, c);
  release_sp = λ n c. (ok, c);
  rollback_sp = λ n c. (ok, c);
  changes = λ c. 0;
}

abbrev catalog_laws : QueryLaws catalog
catalog_laws = record {
  answer = λ c. answers;
  pending = λ s c. c.rows;
  current = λ s c. c.row;
  preparing = λ sql c e. refl;
  binding = λ sql p c e f. refl;
  step_last = λ s c e none_left. rw (none_left, next_row) refl;
  step_next = λ s c row rows e some_left. rw (some_left, next_row) (refl, refl, refl);
  int_value = λ s i c. refl;
  text_value = λ s i c. refl;
  int_keeps = λ s i c. (refl, refl);
  text_keeps = λ s i c. (refl, refl);
  prepare_same = λ sql c. refl;
  bind_same = λ s i p c. refl;
  step_same = λ s c. refl;
  int_same = λ s i c. refl;
  text_same = λ s i c. refl;
  finalize_same = λ s c. refl;
}

abbrev one_column : Schema
one_column = record {
  name = lit "t";
  cols = record { name = lit "id"; type = int64; offset = 0; size = 8; flags = 1 } ∷ [];
  pk_index = some 0;
}

abbrev at_rest : State catalog
at_rest = record { ctx = record { sql = []; rows = []; row = blank }; memory = []; error = ok }

abbrev id_arg : ColumnArg
id_arg = record { name = some (lit "id"); type = int64; offset = 0; size = 8; flags = 1 }

abbrev AreShort : List ColumnDef → Type 0
AreShort cs =
    (length (create_text sqlite (new_schema (lit "t") cs)) + 1 ≤ text_limit)
    × All (λ col. length (alter_text sqlite (new_schema (lit "t") cs) col) + 1 ≤ text_limit) cs

abbrev open_handle : Handle catalog
open_handle = record {
  magic = handle_magic;
  driver_ctx = record { sql = []; rows = []; row = blank };
  registry = empty_registry;
  txn = record { depth = 0; sp_names = [] };
  error = ok;
  mutex = record { threadsafe = true; held = false };
}
