-- ===== src/Migration/Layout.antt =====
-- The layout of a table, from the answers to the queries of src/migration.c.
use c2sql.Prelude.{
  ℕ, ◌*◌, CStr, Bool, false, not, ◌&&◌, Option, none, some, List, [], ◌∷◌, ◌==◌, if◌then◌else◌,
  length, lit, str_eq,
}
use c2sql.Types.{SqlDialect, sqlite, postgres}
use c2sql.Migration.{DbCol}
use c2sql.Migration.Steps.{Columns, added, info_col, info_col_pg, mig_max_name}
use c2sql.Migration.Reads.{
  with_name, keep_text, mark_pk, mark_unique, mark_each, mark_single, no_columns, pg_columns,
  pg_keys, pg_uniques,
}
use c2sql.Migration.Answers.{TableRow}
use c2sql.Migration.Rows.{gathered}

-- What a row adds.
abbrev pub grown : Columns → Columns
grown a =
    if length a.cols == a.cap then record a { cap = if a.cap == 0 then 8 else a.cap * 2 } else a

abbrev pub next_info : TableRow → Columns → Columns
next_info row a =
    added (info_col (row.ints 0) (row.texts 1) (row.texts 2) (row.ints 3) (row.ints 5)) (grown a)

abbrev pub next_info_pg : TableRow → Columns → Columns
next_info_pg row a =
    added (info_col_pg (length a.cols) (row.texts 0) (row.texts 1) (row.texts 2)) (grown a)

abbrev pub is_u : Option CStr → Bool
is_u none = false
is_u (some o) = str_eq o (lit "u")

abbrev pub index_names : ℕ → Option CStr → Option CStr → List CStr → List CStr
index_names uniq origin name names =
    if not (uniq == 0) && is_u origin then keep_text 64 96 name names else names

abbrev pub next_index : TableRow → List CStr → List CStr
next_index row names = index_names (row.ints 2) (row.texts 3) (row.texts 1) names

abbrev pub next_ref : TableRow → List CStr → List CStr
next_ref row names = keep_text 8 mig_max_name (row.texts 2) names

abbrev pub next_name : TableRow → List CStr → List CStr
next_name row names = keep_text 64 mig_max_name (row.texts 0) names

-- The answers of a database to its queries.
abbrev pub Answers : Type 0
Answers = CStr → Option CStr → List TableRow

abbrev pub info_of : CStr → Answers → List DbCol
info_of table answer =
    (gathered next_info no_columns
      (answer (with_name (lit "PRAGMA table_info(\"") table (lit "\")")) none)).cols

abbrev pub indexes_of : CStr → Answers → List CStr
indexes_of table answer =
    gathered next_index [] (answer (with_name (lit "PRAGMA index_list(\"") table (lit "\")")) none)

abbrev pub refs_of : CStr → Answers → List CStr
refs_of index answer =
    gathered next_ref [] (answer (with_name (lit "PRAGMA index_info(\"") index (lit "\")")) none)

abbrev pub marked : List CStr → Answers → List DbCol → List DbCol
marked [] answer cols = cols
marked (index ∷ rest) answer cols = marked rest answer (mark_single (refs_of index answer) cols)

abbrev pub names_of : CStr → CStr → Answers → List CStr
names_of sql table answer = gathered next_name [] (answer sql (some table))

unfoldable pub layout : SqlDialect → CStr → Answers → List DbCol
layout sqlite table answer = marked (indexes_of table answer) answer (info_of table answer)
layout postgres table answer = mark_each mark_unique (names_of pg_uniques table answer) (
    mark_each mark_pk (names_of pg_keys table answer)
      (gathered next_info_pg no_columns (answer pg_columns (some table))).cols)
