-- ===== src/Migration.antt =====
-- src/migration.c: the columns of a table in the database, and how they compare with a schema. Steps
-- runs the queries that read them, Table is `c2sql_internal_migrate_table`.
pub mod Strict
pub mod Steps
pub mod Reads
pub mod Table
pub mod Answers
pub mod Rows
pub mod Layout
pub mod Declared
pub mod Fetches
pub mod Existing
pub mod Ends
pub mod Keyword
pub mod Correct
pub mod Register
mod Tests
pub mod Compare
use c2sql.Prelude.{
  ℕ, zero, suc, CStr, Bool, true, false, not, ◌&&◌, ◌||◌, Option, none, some, List, [], ◌∷◌, map,
  ◌==◌, ltb, if◌then◌else◌, length, take, str_eq, lit,
}
use c2sql.Types.{
  SqlRdbType, int32, int64, real, text, blob, ColumnDef, has_flag, flag_nullable, flag_primary_key,
  flag_unique,
}
use c2sql.Registry.Identifier.{to_upper}

-- `DbCol`. A name that does not fit is empty.
pub record DbCol : Type 0 where
  pub cid : ℕ
  pub name : CStr
  pub type_class : SqlRdbType
  pub notnull : Bool
  pub pk : Bool
  pub is_unique : Bool

unfoldable pub schema_type_class : SqlRdbType → SqlRdbType
schema_type_class int32 = int64
schema_type_class t = t

-- `strstr(s, word) != NULL`
unfoldable pub starts_with : CStr → CStr → Bool
starts_with [] s = true
starts_with (k ∷ ks) [] = false
starts_with (k ∷ ks) (b ∷ s) = b == k && starts_with ks s

unfoldable pub contains : CStr → CStr → Bool
contains word [] = starts_with word []
contains word (b ∷ s) = starts_with word (b ∷ s) || contains word s

-- The text is never NULL where this is called.
unfoldable pub type_class_from_str : CStr → SqlRdbType
type_class_from_str s =
    let up = map to_upper (take 31 s) in
    if contains (lit "INT") up
    then int64
    else if contains (lit "REAL") up || contains (lit "FLOA") up || contains (lit "DOUB") up
    then real
    else if contains (lit "BLOB") up
    then blob
    else text

unfoldable pub type_class_from_pg : CStr → SqlRdbType
type_class_from_pg s =
    if contains (lit "int") s
    then int64
    else if contains (lit "double") s
        || contains (lit "real") s
        || contains (lit "numeric") s
        || contains (lit "float") s
    then real
    else if contains (lit "bytea") s
    then blob
    else text

-- `a == b` on column types.
unfoldable pub same_type : SqlRdbType → SqlRdbType → Bool
same_type int32 int32 = true
same_type int64 int64 = true
same_type real real = true
same_type text text = true
same_type blob blob = true
same_type _ _ = false

abbrev pub same_bool : Bool → Bool → Bool
same_bool true b = b
same_bool false b = not b

-- 0, or the aspect in which they differ.
unfoldable pub compare_columns : ColumnDef → DbCol → ℕ
compare_columns sc dc =
    let sc_pk = has_flag sc flag_primary_key in
    let sc_unique = if sc_pk then false else has_flag sc flag_unique in
    if not (str_eq sc.name dc.name)
    then 1
    else if not (same_type (schema_type_class sc.type) dc.type_class)
    then 2
    else if not (same_bool (not (has_flag sc flag_nullable)) dc.notnull)
    then 3
    else if not (same_bool sc_pk dc.pk)
    then 4
    else if sc_unique && not dc.is_unique
    then 5
    else 0
