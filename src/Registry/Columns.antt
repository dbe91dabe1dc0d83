-- ===== src/Registry/Columns.antt =====
-- The validation of a column array in src/schema_registry.c, and the copy that the registry keeps.
pub mod Valid
use c2sql.Prelude.{
  ℕ, zero, suc, CStr, Bool, true, false, not, ◌&&◌, Option, none, some, List, [], ◌∷◌, ◌++◌, ◌==◌,
  if◌then◌else◌, str_eq, map,
}
use c2sql.Types.{
  SqlRdbResult, ok, err_invalid_arg, err_invalid_name, err_duplicate_column, is_ok, ColumnDef,
  has_flag, flag_primary_key, SqlRdbType, int32, int64,
}
use c2sql.Registry.Identifier.{identifier_valid}

-- A caller's `SqlRDBColumnDef`, whose name may be NULL.
pub record ColumnArg : Type 0 where
  pub name : Option CStr
  pub type : SqlRdbType
  pub offset : ℕ
  pub size : ℕ
  pub flags : ℕ

-- The column with its name, which has been found not to be NULL.
abbrev pub copied : ColumnArg → CStr → ColumnDef
copied c name = record {
  name = name;
  type = c.type;
  offset = c.offset;
  size = c.size;
  flags = c.flags;
}

-- The loop over the columns before column `i`.
unfoldable pub has_name : CStr → List ColumnDef → Bool
has_name name [] = false
has_name name (c ∷ cs) = if str_eq c.name name then true else has_name name cs

-- The integer size tests, as one: an INT32 has 4 bytes and an INT64 has 8.
unfoldable pub size_fits : SqlRdbType → ℕ → Bool
size_fits int32 size = size == 4
size_fits int64 size = size == 8
size_fits _ size = true

-- The body of the loop: `seen` are the columns before this one.
unfoldable pub check_column : List ColumnDef → Option CStr → SqlRdbType → ℕ → SqlRdbResult
check_column seen none type size = err_invalid_arg
check_column seen (some name) type size =
    if not (identifier_valid name)
    then err_invalid_name
    else if has_name name seen
    then err_duplicate_column
    else if size_fits type size
    then ok
    else err_invalid_arg

-- The name of a column that has passed `check_column`.
abbrev pub name_or_empty : Option CStr → CStr
name_or_empty none = []
name_or_empty (some name) = name

-- The whole loop: the first error, or the columns as they are to be copied.
unfoldable pub check_columns : List ColumnDef → List ColumnArg → SqlRdbResult × List ColumnDef
unfolding check_column
check_columns seen [] = (ok, seen)
check_columns seen (c ∷ cs) =
    let r = check_column seen c.name c.type c.size in
    let rest = check_columns (seen ++ copied c (name_or_empty c.name) ∷ []) cs in
    if is_ok r then rest else (r, seen)

-- The index of the first column with the primary key flag, `i` columns in.
unfoldable pub find_pk : ℕ → List ColumnDef → Option ℕ
find_pk i [] = none
find_pk i (c ∷ cs) = if has_flag c flag_primary_key then some i else find_pk (suc i) cs
