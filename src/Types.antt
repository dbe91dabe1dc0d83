-- ===== src/Types.antt =====
-- include/c2sql.h, src/schema_registry.h and src/db_driver.h: result codes, column types and
-- flags, column definitions, schemas and the SQL dialect.
use c2sql.Prelude.{◌≡◌, arith, ℕ, CStr, Bool, true, false, not, Option, List, bit_and, ◌==◌}

pub data SqlRdbResult : Type 0 where
  ok warn_truncated : SqlRdbResult
  err_invalid_arg err_invalid_handle err_invalid_name err_db_open err_no_memory : SqlRdbResult
  err_duplicate_schema err_duplicate_column err_too_many_columns : SqlRdbResult
  err_unknown_struct err_unknown_column err_schema_mismatch : SqlRdbResult
  err_not_found err_multiple_rows err_not_null_violation err_capacity_exceeded : SqlRdbResult
  err_no_active_tx err_nested_tx err_driver err_internal : SqlRdbResult

-- `r == SQL_RDB_OK`
abbrev pub is_ok : SqlRdbResult → Bool
is_ok ok = true
is_ok _ = false

pub data SqlRdbType : Type 0 where
  int32 int64 real text blob : SqlRdbType

pub data SqlDialect : Type 0 where
  sqlite postgres : SqlDialect

-- The bits of `SqlRDBColFlag`.
abbrev pub flag_primary_key : ℕ
flag_primary_key = 1

abbrev pub flag_nullable : ℕ
flag_nullable = 2

abbrev pub flag_unique : ℕ
flag_unique = 4

pub record ColumnDef : Type 0 where
  pub name : CStr
  pub type : SqlRdbType
  pub offset : ℕ
  pub size : ℕ
  pub flags : ℕ

-- `(col->flags & flag) != 0`
unfoldable pub has_flag : ColumnDef → ℕ → Bool
has_flag col flag = not (bit_and col.flags flag == 0)

-- `cols` and `col_count` are one list; `pk_index` is `none` where the source has -1.
pub record Schema : Type 0 where
  pub name : CStr
  pub cols : List ColumnDef
  pub pk_index : Option ℕ

pub is_ok_lem : {r : SqlRdbResult} → is_ok r ≡ true → r ≡ ok
is_ok_lem {r} h = ground arith
