-- ===== src/Crud/Rows/Read/Tests.antt =====
-- A call of src/c2sql.c's SqlRDBRead that finds more than one row.
use c2sql.Prelude.{
  List, bytes_of, ℕ, ◌≡◌, refl, Bool, true, false, none, some, [], ◌∷◌, lit, str_eq,
}
use c2sql.Types.{err_multiple_rows, ok, sqlite, int64, Schema}
use c2sql.Driver.{Driver}
use c2sql.Handle.{handle_magic, mutex_lock, mutex_unlock}
use c2sql.Registry.{lookup}
use c2sql.QueryBuilder.Buf.{buf_init}
use c2sql.QueryBuilder.Emit.{append, append_when, return, ◌>>◌}
use c2sql.QueryBuilder.Where.{append_where}
use c2sql.QueryBuilder.Build.{build_op, build_select, qb_build}
use c2sql.Crud.Rows.{
  Statements, Session, entry, with_statement, on_built, on_acquired, released, release_cached_stmt,
  bind_filter,
}
use c2sql.TypeMapping.{read_row, store_word}
use c2sql.QueryBuilder.Where.{cond_needs_where}
use c2sql.Crud.Rows.Read.{read_body, read_only, read_temporary, check_second, read, buf_size, zeros}
use c2sql.Crud.Rows.Read.Unchanged.{read-out}
use c2sql.QueryBuilder.Columns.{append_names}

-- A driver that always has another row, whose integers are 5.
abbrev endless : Driver
endless = record {
  Ctx = Bool;
  Stmt = ℕ;
  dialect = sqlite;
  exec = λ sql c. (ok, c);
  prepare = λ sql c. (ok, 0, c);
  bind_int64 = λ s i v c. (ok, c);
  bind_int32 = λ s i v c. (ok, c);
  bind_real = λ s i v c. (ok, c);
  bind_text = λ s i v c. (ok, c);
  bind_blob = λ s i v c. (ok, c);
  bind_null = λ s i c. (ok, c);
  step = λ s c. (ok, true, true);
  column_int64 = λ s i c. (ok, 5, c);
  column_int32 = λ s i c. (ok, 5, c);
  column_real = λ s i c. (ok, 0, c);
  column_text = λ s i c. (ok, none, c);
  column_blob = λ s i c. (ok, none, c);
  column_isnull = λ s i c. (ok, false, c);
  reset = λ s c. (ok, false);
  finalize = λ s c. (ok, false);
  begin = λ c. (ok, c);
  commit = λ c. (ok, c);
  rollback = λ c. (ok, c);
  savepoint = λ n c. (ok, c);
  release_sp = λ n c. (ok, c);
  rollback_sp = λ n c. (ok, c);
  changes = λ c. 4;
}

abbrev keys : Schema
keys = record {
  name = lit "k";
  cols = record { name = lit "id"; type = int64; offset = 0; size = 8; flags = 1 } ∷ [];
  pk_index = some 0;
}

abbrev endless_statements : Statements endless
endless_statements = record {
  Cache = ℕ;
  get_or_prepare = λ sql k c. record { code = ok; stmt = 0; owned = false; cache = k; ctx = c };
}

abbrev reader : List Bool → Session endless endless_statements
reader memory = record {
  handle = record {
    magic = handle_magic;
    driver_ctx = false;
    registry = record { entries = keys ∷ []; capacity = 8 };
    txn = record { depth = 0; sp_names = [] };
    error = ok;
    mutex = record { threadsafe = true; held = false };
  };
  cache = 0;
  memory = memory;
  out = record { number = none; row = 1 ∷ 2 ∷ 3 ∷ 4 ∷ 5 ∷ 6 ∷ 7 ∷ 8 ∷ []; null_map = none };
}

-- The text and the temporary row take two allocations; the second row makes it an error.
read_run :
    read endless endless_statements
      (some (lit "k"))
      none
      false
      0
      true
      (reader (true ∷ true ∷ true ∷ []))
    ≡ some (err_multiple_rows, reader (true ∷ []))
unfolding lit store_word cond_needs_where read read_body read_only read_temporary check_second entry
    with_statement on_built on_acquired released release_cached_stmt bind_filter mutex_lock
    mutex_unlock lookup str_eq qb_build build_op build_select append_names append_where append_when
    append return ◌>>◌ buf_init read_row buf_size zeros bytes_of
read_run = refl

read-out_example : (reader (true ∷ [])).out ≡ (reader (true ∷ true ∷ true ∷ [])).out
read-out_example =
    read-out endless endless_statements (some (lit "k")) none 0 true
      (reader (true ∷ true ∷ true ∷ [])) (reader (true ∷ [])) err_multiple_rows refl read_run refl
