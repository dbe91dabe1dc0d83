-- ===== src/QueryBuilder/Render.antt =====
-- The SQL text of a statement as plain concatenation, with no buffer, no allocator and no error:
-- the reference for the builders of src/query_builder.c. A text that holds placeholders takes the
-- number of those before it.
pub mod Pieces
use c2sql.Prelude.{
  true, get_or, decimal, take, str_eq, ◌||◌, ℕ, suc, ◌+◌, CStr, Bool, false, not, ◌&&◌, Option,
  none, some, List, [], ◌∷◌, ◌++◌, ◌==◌, if◌then◌else◌, lit,
}
use c2sql.Types.{
  Schema, SqlRdbResult, ok, err_unknown_column, SqlDialect, sqlite, postgres, SqlRdbType, int32,
  int64, real, text, blob, ColumnDef, has_flag, flag_nullable, flag_primary_key, flag_unique,
}
use c2sql.Condition.{Condition, leaf, and_node, or_node, match_all}

-- The placeholder with the number `n`, of at most 15 bytes.
abbrev pub mark : SqlDialect → ℕ → CStr
mark sqlite n = lit "?"
mark postgres n = take 15 (b'$' ∷ decimal n)

abbrev pub type_text : SqlDialect → SqlRdbType → CStr
type_text sqlite int32 = lit "INTEGER"
type_text sqlite int64 = lit "INTEGER"
type_text sqlite real = lit "REAL"
type_text sqlite text = lit "TEXT"
type_text sqlite blob = lit "BLOB"
type_text postgres int32 = lit "INTEGER"
type_text postgres int64 = lit "BIGINT"
type_text postgres real = lit "DOUBLE PRECISION"
type_text postgres text = lit "TEXT"
type_text postgres blob = lit "BYTEA"

-- The operators by their number; there is none with the number 0.
abbrev pub operator_text : ℕ → CStr
operator_text op =
    get_or (lit "=" ∷ lit "=" ∷ lit "!=" ∷ lit "<" ∷ lit "<=" ∷ lit ">" ∷ lit ">=" ∷ []) op
      (lit "=")

-- The table has a column of that name.
abbrev pub is_column : List ColumnDef → CStr → Bool
is_column [] name = false
is_column (c ∷ cols) name = str_eq c.name name || is_column cols name

-- The columns that a condition names, and whether the table has them all.
abbrev pub cond_columns : Condition → List CStr
cond_columns match_all = []
cond_columns (leaf col _ _) = col ∷ []
cond_columns (and_node l r) = cond_columns l ++ cond_columns r
cond_columns (or_node l r) = cond_columns l ++ cond_columns r

abbrev pub has_columns : List ColumnDef → List CStr → Bool
has_columns cols [] = true
has_columns cols (name ∷ names) = is_column cols name && has_columns cols names

abbrev pub text_when : Bool → CStr → CStr
text_when b t = if b then t else []

abbrev pub comma : Bool → CStr
comma first = text_when (not first) (lit ",")

abbrev pub constraints_text : ColumnDef → CStr
constraints_text col =
    text_when (not (has_flag col flag_nullable)) (lit " NOT NULL")
    ++ (text_when (has_flag col flag_primary_key) (lit " PRIMARY KEY")
        ++ text_when (has_flag col flag_unique && not (has_flag col flag_primary_key))
            (lit " UNIQUE"))

abbrev pub col_def_text : SqlDialect → ColumnDef → CStr
col_def_text d col =
    lit "\"" ++ (col.name ++ (lit "\" " ++ (type_text d col.type ++ constraints_text col)))

abbrev pub quoted : CStr → CStr
quoted name = lit "\"" ++ (name ++ lit "\"")

abbrev pub update_text : CStr → CStr
update_text name = lit "\"" ++ (name ++ (lit "\"=excluded.\"" ++ (name ++ lit "\"")))

-- Texts joined by commas.
unfoldable pub joined : Bool → List CStr → CStr
joined first [] = []
joined first (t ∷ ts) = comma first ++ (t ++ joined false ts)

unfoldable pub placeholders_text : SqlDialect → ℕ → List ColumnDef → List CStr
placeholders_text d n [] = []
placeholders_text d n (col ∷ cols) = mark d (n + 1) ∷ placeholders_text d (n + 1) cols

-- The columns from `i` on, without the one numbered `pk`.
unfoldable pub without_pk : ℕ → ℕ → List ColumnDef → List ColumnDef
without_pk pk i [] = []
without_pk pk i (col ∷ cols) =
    let rest = without_pk pk (suc i) cols in if i == pk then rest else col ∷ rest

-- The placeholders of a condition: one for each leaf.
unfoldable pub cond_leaves : Condition → ℕ
cond_leaves match_all = 0
cond_leaves (leaf _ _ _) = 1
cond_leaves (and_node l r) = cond_leaves l + cond_leaves r
cond_leaves (or_node l r) = cond_leaves l + cond_leaves r

unfoldable pub cond_text : SqlDialect → ℕ → Condition → CStr
cond_text d n match_all = []
cond_text d n (leaf col op _) =
    lit "\"" ++ (col ++ (lit "\" " ++ (operator_text op ++ (lit " " ++ mark d (n + 1)))))
cond_text d n (and_node l r) =
    lit "(" ++ (cond_text d n l ++ (lit " AND " ++ (cond_text d (n + cond_leaves l) r ++ lit ")")))
cond_text d n (or_node l r) =
    lit "(" ++ (cond_text d n l ++ (lit " OR " ++ (cond_text d (n + cond_leaves l) r ++ lit ")")))

unfoldable pub where_text : SqlDialect → ℕ → Option Condition → CStr
where_text d n none = []
where_text d n (some match_all) = []
where_text d n (some cond) = lit " WHERE " ++ cond_text d n cond

unfoldable pub where_leaves : Option Condition → ℕ
where_leaves none = 0
where_leaves (some cond) = cond_leaves cond

-- A column of the condition that the table lacks makes it an error.
unfoldable pub where_check : Schema → Option Condition → SqlRdbResult
where_check s none = ok
where_check s (some match_all) = ok
where_check s (some cond) =
    if has_columns s.cols (cond_columns cond) then ok else err_unknown_column
