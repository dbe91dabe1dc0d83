-- ===== src/QueryBuilder/Statement.antt =====
-- What each statement of src/query_builder.c is to be: its text, how many placeholders it has, and
-- the error, if any, that it is to be refused with.
use c2sql.Prelude.{
  ℕ, ◌+◌, CStr, true, Option, none, some, ◌++◌, map, if◌then◌else◌, lit, length, get_elem?,
}
use c2sql.Types.{
  SqlDialect, sqlite, postgres, SqlRdbResult, ok, err_unknown_column, Schema, ColumnDef,
}
use c2sql.Condition.{Condition}
use c2sql.QueryBuilder.Build.{
  Op, create, insert, upsert, select, count, delete, alter_add, update_field, select_field,
}
use c2sql.QueryBuilder.Render.{
  mark, type_text, is_column, col_def_text, constraints_text, quoted, update_text, joined,
  placeholders_text, without_pk, where_text, where_leaves, where_check,
}

pub record Statement : Type 0 where
  pub text : CStr
  pub binds : ℕ
  pub check : SqlRdbResult

abbrev pub column_list : Schema → CStr
column_list s = joined true (map (λ c. quoted c.name) s.cols)

abbrev pub insert_text : SqlDialect → Schema → CStr
insert_text d s =
    lit "INSERT INTO \""
    ++ (s.name
        ++ (lit "\" ("
            ++ (column_list s
                ++ (lit ") VALUES (" ++ (joined true (placeholders_text d 0 s.cols) ++ lit ")")))))

abbrev pub conflict_text : Schema → ℕ → ColumnDef → CStr
conflict_text s pk col =
    lit " ON CONFLICT(\""
    ++ (col.name
        ++ (lit "\") DO UPDATE SET "
            ++ joined true (map (λ c. update_text c.name) (without_pk pk 0 s.cols))))

abbrev pub upsert_text : SqlDialect → Schema → ℕ → ColumnDef → CStr
upsert_text d s pk col = insert_text d s ++ conflict_text s pk col

abbrev pub create_text : SqlDialect → Schema → CStr
create_text d s =
    lit "CREATE TABLE IF NOT EXISTS \""
    ++ (s.name
        ++ (lit "\" ("
            ++ (joined true (map (col_def_text d) s.cols)
                ++ elim d [ sqlite ↦ lit ") STRICT" | postgres ↦ lit ")" ])))

abbrev pub alter_text : SqlDialect → Schema → ColumnDef → CStr
alter_text d s col =
    lit "ALTER TABLE \""
    ++ (s.name
        ++ (lit "\" ADD COLUMN \""
            ++ (col.name ++ (lit "\" " ++ (type_text d col.type ++ constraints_text col)))))

-- The statements that end in a WHERE clause, by what comes before it.
abbrev pub filtered : SqlDialect → Schema → Option Condition → CStr → ℕ → Statement
filtered d s cond head n = record {
  text = head ++ where_text d n cond;
  binds = n + where_leaves cond;
  check = where_check s cond;
}

abbrev pub plain : CStr → ℕ → Statement
plain t n = record { text = t; binds = n; check = ok }

-- A field statement also wants its column to be there.
abbrev pub on_column : Schema → CStr → Statement → Statement
on_column s col st = record st {
  check = if is_column s.cols col then st.check else err_unknown_column;
}

abbrev pub upsert_statement : SqlDialect → Schema → Option ℕ → Option Statement
upsert_statement d s none = none
upsert_statement d s (some pk) = elim (get_elem? s.cols pk) [
  | none ↦ none
  | some col ↦ some (plain (upsert_text d s pk col) (length s.cols))
]

-- `none`: an argument that the operation needs is missing, or an UPSERT has no key column.
abbrev pub statement :
    SqlDialect → Schema → Option Condition → Op → Option ColumnDef → Option CStr → Option Statement
statement d s cond create _ _ = some (plain (create_text d s) 0)
statement d s cond alter_add (some col) _ = some (plain (alter_text d s col) 0)
statement d s cond alter_add none _ = none
statement d s cond insert _ _ = some (plain (insert_text d s) (length s.cols))
statement d s cond upsert _ _ = upsert_statement d s s.pk_index
statement d s cond select _ _ = some (
    filtered d s cond (lit "SELECT " ++ (column_list s ++ (lit " FROM \"" ++ (s.name ++ lit "\""))))
      0)
statement d s cond count _ _ =
    some (filtered d s cond (lit "SELECT COUNT(*) FROM \"" ++ (s.name ++ lit "\"")) 0)
statement d s cond delete _ _ =
    some (filtered d s cond (lit "DELETE FROM \"" ++ (s.name ++ lit "\"")) 0)
statement d s cond update_field _ (some col) = some (
    on_column s col (
      filtered d s cond
        (lit "UPDATE \"" ++ (s.name ++ (lit "\" SET \"" ++ (col ++ (lit "\"=" ++ mark d 1))))) 1))
statement d s cond update_field _ none = none
statement d s cond select_field _ (some col) = some (
    on_column s col (
      filtered d s cond (lit "SELECT \"" ++ (col ++ (lit "\" FROM \"" ++ (s.name ++ lit "\"")))) 0))
statement d s cond select_field _ none = none
