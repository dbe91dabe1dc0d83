-- ===== src/Crud/Rows/Tests.antt =====
-- A call of src/c2sql.c's SqlRDBDelete on a driver that only keeps whether a statement is running.
use c2sql.Prelude.{ℕ, ◌≡◌, refl, Bool, true, false, none, some, [], ◌∷◌, lit, str_eq}
use c2sql.Types.{ok, sqlite, int64, Schema}
use c2sql.Condition.{int_value, Condition, leaf}
use c2sql.Driver.{Driver}
use c2sql.Handle.{handle_magic, mutex_lock, mutex_unlock}
use c2sql.Registry.{lookup}
use c2sql.QueryBuilder.Buf.{buf_init}
use c2sql.QueryBuilder.Emit.{
  append, append_when, append_placeholder, count_bind, return, ◌>>◌, placeholder,
}
use c2sql.QueryBuilder.Where.{
  op_to_sql_str, schema_has_column, validate_cond_columns, append_where, append_cond,
  cond_needs_where,
}
use c2sql.QueryBuilder.Build.{build_op, build_delete, qb_build}
use c2sql.Crud.{bind_cond_values, bind_cond, bind_value}
use c2sql.Crud.Rows.{
  Statements, Session, delete_where, entry, with_statement, on_built, on_acquired, released,
  release_cached_stmt, delete_rows, bind_filter, step_row, report_changes,
}
use c2sql.Crud.Rows.Kept.{RunLaws, Quiet}
use c2sql.Crud.Rows.Release.{deletes, perform, perform-Quiet}

-- A step starts a run; a reset or a finalize ends it.
abbrev runner : Driver
runner = record {
  Ctx = Bool;
  Stmt = ℕ;
  dialect = sqlite;
  exec = λ sql c. (ok, c);
  prepare = λ sql c. (ok, 0, c);
  bind_int64 = λ s i v c. (ok, c);
  bind_int32 = λ s i v c. (ok, c);
  bind_real = λ s i v c. (ok, c);
  bind_text = λ s i v c. (ok, c);
  bind_blob = λ s i v c. (ok, c);
  bind_null = λ s i c. (ok, c);
  step = λ s c. (ok, false, true);
  column_int64 = λ s i c. (ok, 0, c);
  column_int32 = λ s i c. (ok, 0, c);
  column_real = λ s i c. (ok, 0, c);
  column_text = λ s i c. (ok, none, c);
  column_blob = λ s i c. (ok, none, c);
  column_isnull = λ s i c. (ok, true, c);
  reset = λ s c. (ok, false);
  finalize = λ s c. (ok, false);
  begin = λ c. (ok, c);
  commit = λ c. (ok, c);
  rollback = λ c. (ok, c);
  savepoint = λ n c. (ok, c);
  release_sp = λ n c. (ok, c);
  rollback_sp = λ n c. (ok, c);
  changes = λ c. 4;
}

abbrev one_statement : Statements runner
one_statement = record {
  Cache = ℕ;
  get_or_prepare = λ sql k c. record { code = ok; stmt = 0; owned = false; cache = k; ctx = c };
}

runner_laws : RunLaws runner one_statement
runner_laws = record {
  Idle = λ c. c ≡ false;
  Only = λ s c. Unit;
  idle_only = λ s c i. tt;
  acquiring = λ sql k c i. i;
  sending = λ s i v c o. tt;
  nulling = λ s i c o. tt;
  stepping = λ s c o. tt;
  fetching = λ s i c o. tt;
  resetting = λ s c o. refl;
  finalizing = λ s c o. refl;
  beginning = λ s c o. tt;
  committing = λ s c o. tt;
  rolling_back = λ s c o. tt;
}

abbrev keys : Schema
keys = record {
  name = lit "k";
  cols = record { name = lit "id"; type = int64; offset = 0; size = 8; flags = 1 } ∷ [];
  pk_index = some 0;
}

abbrev session : Session runner one_statement
session = record {
  handle = record {
    magic = handle_magic;
    driver_ctx = false;
    registry = record { entries = keys ∷ []; capacity = 8 };
    txn = record { depth = 0; sp_names = [] };
    error = ok;
    mutex = record { threadsafe = true; held = false };
  };
  cache = 0;
  memory = [];
  out = record { number = none; row = []; null_map = none };
}

abbrev seven : Condition
seven = leaf (lit "id") 1 (int_value 7)

delete_run :
    delete_where runner one_statement (some (lit "k")) (some seven) true session
    ≡ some (ok, record session { out = record { number = some 4; row = []; null_map = none } })
unfolding lit delete_where entry with_statement on_built on_acquired released release_cached_stmt
    delete_rows bind_filter step_row report_changes mutex_lock mutex_unlock lookup str_eq qb_build
    build_op build_delete append_where append_cond cond_needs_where validate_cond_columns
    schema_has_column op_to_sql_str append_when append_placeholder append return count_bind ◌>>◌
    placeholder buf_init bind_cond_values bind_cond bind_value
delete_run = refl

perform-Quiet_example :
    Quiet runner one_statement runner_laws (
      perform runner one_statement runner_laws (deletes (some (lit "k")) (some seven) true) session)
unfolding runner_laws
perform-Quiet_example =
    perform-Quiet runner one_statement runner_laws (deletes (some (lit "k")) (some seven) true)
      session (record { valid = refl; free = refl }) refl
