-- ===== src/Migration/Reads.antt =====
-- How src/migration.c reads the columns of a table from SQLite or PostgreSQL.
use c2sql.Prelude.{
  ℕ, zero, suc, CStr, Bool, true, false, not, ◌&&◌, ◌||◌, Option, none, some, List, [], ◌∷◌, ◌++◌,
  ◌==◌, ltb, if◌then◌else◌, length, take, str_eq, lit, Memory,
}
use c2sql.Types.{is_ok, sqlite, postgres}
use c2sql.Driver.{Driver}
use c2sql.Migration.{DbCol}
use c2sql.Migration.Strict.{after_last_paren, strict_from}
use c2sql.Migration.Steps.{
  c_string, mig_max_name, done, failed, State, Step, ◌>>=◌, give, at, fetch_int, fetch_text, query,
  Columns, info_row, info_row_pg,
}

-- `snprintf` into a buffer of 256 bytes.
abbrev pub printed : CStr → CStr
printed s = take 255 s

unfoldable pub with_name : CStr → CStr → CStr → CStr
with_name before name after = printed (before ++ (name ++ after))

-- A text of less than `size` bytes, put behind at most `max - 1` others.
unfoldable pub keep_text : ℕ → ℕ → Option CStr → List CStr → List CStr
keep_text max size none names = names
keep_text max size (some bytes) names =
    if ltb (length names) max && ltb (length bytes) size
    then names ++ c_string bytes ∷ []
    else names

-- The first column of that name is marked.
unfoldable pub mark_first : CStr → List DbCol → List DbCol
mark_first name [] = []
mark_first name (c ∷ cs) =
    if str_eq c.name name then record c { is_unique = true } ∷ cs else c ∷ mark_first name cs

-- All columns of that name are marked.
abbrev pub mark_pk : CStr → DbCol → DbCol
mark_pk name c = if str_eq c.name name then record c { pk = true } else c

abbrev pub mark_unique : CStr → DbCol → DbCol
mark_unique name c = if str_eq c.name name then record c { is_unique = true } else c

unfoldable pub mark_each : (CStr → DbCol → DbCol) → List CStr → List DbCol → List DbCol
mark_each mark [] cols = cols
mark_each mark (name ∷ names) cols = mark_each mark names (c2sql.Prelude.map (mark name) cols)

abbrev pub no_columns : Columns
no_columns = record { cols = []; cap = 0 }

abbrev pub pg_columns : CStr
pg_columns =
    lit "SELECT column_name, data_type, is_nullable "
    ++ (lit "FROM information_schema.columns "
        ++ (lit "WHERE table_name = $1 AND table_schema = current_schema() "
            ++ lit "ORDER BY ordinal_position"))

abbrev pub pg_keys : CStr
pg_keys =
    lit "SELECT a.attname FROM pg_index i "
    ++ (lit "JOIN pg_attribute a ON a.attrelid = i.indrelid AND a.attnum = ANY(i.indkey) "
        ++ lit "WHERE i.indrelid = $1::regclass AND i.indisprimary")

abbrev pub pg_uniques : CStr
pg_uniques =
    lit "SELECT a.attname FROM pg_index i "
    ++ (lit "JOIN pg_attribute a ON a.attrelid = i.indrelid AND a.attnum = ANY(i.indkey) "
        ++ (lit "WHERE i.indrelid = $1::regclass AND i.indisunique AND NOT i.indisprimary "
            ++ lit "AND array_length(i.indkey, 1) = 1"))

abbrev pub mark_single : List CStr → List DbCol → List DbCol
mark_single (name ∷ []) cols = mark_first name cols
mark_single _ cols = cols

abbrev pub strict_query : CStr → CStr
strict_query table =
    with_name (lit "SELECT sql FROM sqlite_schema WHERE type='table' AND name='") table (lit "'")

module _ (drv : Driver) where
  -- A row of `PRAGMA index_list`: the name of an index of a UNIQUE constraint.
  unfoldable pub index_row : drv.Stmt → List CStr → State drv → Bool × List CStr × State drv
  index_row stmt names s =
      let (uniq, s1) = fetch_int drv stmt 2 s in
      let (origin, s2) = fetch_text drv stmt 3 s1 in
      let (name, s3) = fetch_text drv stmt 1 s2 in
      if uniq == 0 then (true, names, s1) else elim origin [
        | none ↦ (true, names, s2)
        | some o ↦
            if str_eq o (lit "u") then (true, keep_text 64 96 name names, s3) else (true, names, s2)
      ]

  -- A row of `PRAGMA index_info`: the name of a column.
  unfoldable pub ref_row : drv.Stmt → List CStr → State drv → Bool × List CStr × State drv
  ref_row stmt names s =
      let (name, t) = fetch_text drv stmt 2 s in (true, keep_text 8 mig_max_name name names, t)

  -- The first row's text; what an error of the step means is that there is none.
  unfoldable pub table_sql : CStr → Step drv (Option CStr)
  table_sql table s =
      let (r, stmt, c) = drv.prepare (strict_query table) s.ctx in
      let (r', has_row, c') = drv.step stmt c in
      let (sql, t) = fetch_text drv stmt 0 (at s c') in
      let u = if is_ok r' && has_row then t else at s c' in
      if not (is_ok r)
      then some (failed r, at s c)
      else some (done (if is_ok r' && has_row then sql else none), at u (drv.finalize stmt u.ctx).1)

  -- A row of `pg_collect_names`.
  unfoldable pub name_row : drv.Stmt → List CStr → State drv → Bool × List CStr × State drv
  name_row stmt names s =
      let (name, t) = fetch_text drv stmt 0 s in (true, keep_text 64 mig_max_name name names, t)

module _ (drv : Driver) where
  -- The scan of `check_strict`. A round of its loop that takes no byte is repeated for ever, so that as many
  -- rounds as there are bytes are enough where any number is.
  unfoldable pub search_keyword : Option CStr → Step drv Bool
  search_keyword none s = some (done false, s)
  search_keyword (some sql) s = elim (after_last_paren sql) [
    | none ↦ some (done false, s)
    | some q ↦ elim (strict_from (suc (length q)) q) [
      | none ↦ none
      | some strict ↦ some (done strict, s)
    ]
  ]

  -- The scan stands after the end of the statement here, which it does not use.
  unfoldable pub check_strict : CStr → Step drv Bool
  check_strict table = table_sql drv table >>= search_keyword

module _ (drv : Driver) (fuel : ℕ) where
  unfoldable pub read_table_info : CStr → Step drv (List DbCol)
  read_table_info table = do
    a ←
        query drv (info_row drv) fuel (with_name (lit "PRAGMA table_info(\"") table (lit "\")"))
          none no_columns
    give a.cols

  -- The loop over the indexes.
  unfoldable pub mark_indexes : List CStr → List DbCol → Step drv (List DbCol)
  mark_indexes [] cols = give cols
  mark_indexes (index ∷ rest) cols = do
    refs ←
        query drv (ref_row drv) fuel (with_name (lit "PRAGMA index_info(\"") index (lit "\")")) none
          []
    mark_indexes rest (mark_single refs cols)

  unfoldable pub apply_unique_flags : CStr → List DbCol → Step drv (List DbCol)
  apply_unique_flags table cols = do
    names ←
        query drv (index_row drv) fuel (with_name (lit "PRAGMA index_list(\"") table (lit "\")"))
          none []
    mark_indexes names cols

  unfoldable pub read_table_info_pg : CStr → Step drv (List DbCol)
  read_table_info_pg table = do
    a ← query drv (info_row_pg drv) fuel pg_columns (some table) no_columns
    keys ← query drv (name_row drv) fuel pg_keys (some table) []
    uniques ← query drv (name_row drv) fuel pg_uniques (some table) []
    give (mark_each mark_unique uniques (mark_each mark_pk keys a.cols))

  unfoldable pub read_existing : CStr → Step drv (List DbCol)
  read_existing table = elim drv.dialect [
    | postgres ↦ read_table_info_pg table
    | sqlite ↦ read_table_info table >>= apply_unique_flags table
  ]
