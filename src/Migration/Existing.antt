-- ===== src/Migration/Existing.antt =====
-- `read_existing` of src/migration.c and the functions that it calls read the layout of the table.
use mathlib.Core.Path.{subst}
use c2sql.Prelude.{
  ℕ, ◌<◌, ◌≡◌, refl, sym, ◌∙◌, CStr, Bool, Option, none, some, List, [], ◌∷◌, length, lit,
}
use c2sql.Types.{SqlDialect, sqlite, postgres}
use c2sql.Driver.{Driver}
use c2sql.Migration.{DbCol}
use c2sql.Migration.Steps.{State, Step, ◌>>=◌, give, query, Columns, info_row, info_row_pg}
use c2sql.Migration.Reads.{
  with_name, mark_single, mark_each, mark_unique, mark_pk, pg_columns, pg_keys, pg_uniques,
  no_columns, index_row, ref_row, name_row, read_table_info, mark_indexes, apply_unique_flags,
  read_table_info_pg, read_existing,
}
use c2sql.Migration.Answers.{QueryLaws, TableRow, Same-refl, IsRead, give-IsRead, bind-IsRead}
use c2sql.Migration.Rows.{gathered, IsRow, query-IsRead}
use c2sql.Migration.Layout.{
  Answers, info_of, indexes_of, refs_of, marked, names_of, layout, next_info, next_info_pg,
  next_index, next_ref, next_name,
}
use c2sql.Migration.Fetches.{
  info_row-IsRow, info_row_pg-IsRow, index_row-IsRow, ref_row-IsRow, name_row-IsRow,
}

-- No answer has that many rows.
abbrev pub Fits : ℕ → Answers → Type 0
Fits fuel answer = (sql : CStr) (p : Option CStr) → length (answer sql p) < fuel

module _ (drv : Driver) (laws : QueryLaws drv) (fuel : ℕ) (ans : Answers)
    (fits : Fits fuel ans) where
  abbrev Gives : State drv → Type 0
  Gives s = laws.answer s.ctx ≡ ans

  query_gives :
      {A : Type 0} (row : drv.Stmt → A → State drv → Bool × A × State drv) (next : TableRow → A → A)
      → IsRow drv laws row next
      → (sql : CStr) (p : Option CStr) (a : A) (s : State drv) → Gives s
      → IsRead drv laws s (gathered next a (ans sql p)) (query drv row fuel sql p a s)
  query_gives row next i sql p a s e =
      let at_s : length (laws.answer s.ctx sql p) < fuel =
        subst (λ (f : Answers). length (f sql p) < fuel) (sym e) (fits sql p) in
      subst
        (λ (f : Answers).
          IsRead drv laws s (gathered next a (f sql p)) (query drv row fuel sql p a s))
        e (query-IsRead drv laws row next i fuel sql p a s at_s)

  -- A query and what follows.
  then_gives :
      {A B : Type 0} (row : drv.Stmt → A → State drv → Bool × A × State drv)
      (next : TableRow → A → A)
      → IsRow drv laws row next
      → (sql : CStr) (p : Option CStr) (a : A) (f : A → Step drv B) (b : B) (s : State drv)
      → Gives s
      → ((t : State drv) → Gives t → IsRead drv laws t b (f (gathered next a (ans sql p)) t))
      → IsRead drv laws s b ((query drv row fuel sql p a >>= f) s)
  then_gives row next i sql p a f b s e k =
      bind-IsRead drv laws s (query drv row fuel sql p a) f (gathered next a (ans sql p)) b
        (query_gives row next i sql p a s e) (λ t same. k t (same.answers ∙ e))

  given : {B : Type 0} (b : B) (t : State drv) → Gives t → IsRead drv laws t b (give b t)
  given b t e = give-IsRead drv laws t t b (Same-refl drv laws t)

  read_table_info-IsRead :
      (table : CStr) (s : State drv)
      → Gives s
      → IsRead drv laws s (info_of table ans) (read_table_info drv fuel table s)
  unfolding read_table_info
  read_table_info-IsRead table s e =
      then_gives (info_row drv) next_info (info_row-IsRow drv laws)
        (with_name (lit "PRAGMA table_info(\"") table (lit "\")")) none no_columns
        (λ a. give a.cols) (info_of table ans) s e (given (info_of table ans))

  mark_indexes-IsRead :
      (names : List CStr) (cols : List DbCol) (s : State drv)
      → Gives s
      → IsRead drv laws s (marked names ans cols) (mark_indexes drv fuel names cols s)
  unfolding mark_indexes
  mark_indexes-IsRead [] cols s e = given cols s e
  mark_indexes-IsRead (index ∷ rest) cols s e =
      then_gives (ref_row drv) next_ref (ref_row-IsRow drv laws)
        (with_name (lit "PRAGMA index_info(\"") index (lit "\")")) none []
        (λ refs. mark_indexes drv fuel rest (mark_single refs cols)) _ s e
        (mark_indexes-IsRead rest (mark_single (refs_of index ans) cols))

  apply_unique_flags-IsRead :
      (table : CStr) (cols : List DbCol) (s : State drv)
      → Gives s
      → IsRead drv laws s
          (marked (indexes_of table ans) ans cols)
          (apply_unique_flags drv fuel table cols s)
  unfolding apply_unique_flags
  apply_unique_flags-IsRead table cols s e =
      then_gives (index_row drv) next_index (index_row-IsRow drv laws)
        (with_name (lit "PRAGMA index_list(\"") table (lit "\")")) none []
        (λ names. mark_indexes drv fuel names cols) _ s e
        (mark_indexes-IsRead (indexes_of table ans) cols)

  read_table_info_pg-IsRead :
      (table : CStr) (s : State drv)
      → Gives s
      → IsRead drv laws s (layout postgres table ans) (read_table_info_pg drv fuel table s)
  unfolding read_table_info_pg layout
  read_table_info_pg-IsRead table s e =
      let names = name_row-IsRow drv laws in
      let marks = λ (a : Columns) (keys uniques : List CStr).
        give {drv = drv} (mark_each mark_unique uniques (mark_each mark_pk keys a.cols)) in
      let a = gathered next_info_pg no_columns (ans pg_columns (some table)) in
      then_gives (info_row_pg drv) next_info_pg (info_row_pg-IsRow drv laws) pg_columns (some table)
        no_columns
        (λ a. query drv (name_row drv) fuel pg_keys (some table) [] >>= λ keys.
          query drv (name_row drv) fuel pg_uniques (some table) [] >>= marks a keys)
        _ s e
        (λ t et.
          then_gives (name_row drv) next_name names pg_keys (some table) []
            (λ keys. query drv (name_row drv) fuel pg_uniques (some table) [] >>= marks a keys) _ t
            et
            (λ u eu.
              then_gives (name_row drv) next_name names pg_uniques (some table) []
                (marks a (names_of pg_keys table ans)) _ u eu (given _)))

  existing-IsRead :
      (d : SqlDialect) (table : CStr) (s : State drv)
      → drv.dialect ≡ d
      → Gives s
      → IsRead drv laws s (layout d table ans) (read_existing drv fuel table s)
  unfolding read_existing layout
  existing-IsRead postgres table s e g = rw (e, read_existing) (read_table_info_pg-IsRead table s g)
  existing-IsRead sqlite table s e g =
      rw (e, read_existing)
        (bind-IsRead drv laws s (read_table_info drv fuel table) (apply_unique_flags drv fuel table)
          (info_of table ans) _ (read_table_info-IsRead table s g)
          (λ t same. apply_unique_flags-IsRead table (info_of table ans) t (same.answers ∙ g)))

  -- The columns that are read are those of the layout.
  pub read_existing-IsRead :
      (table : CStr) (s : State drv)
      → Gives s
      → IsRead drv laws s (layout drv.dialect table ans) (read_existing drv fuel table s)
  read_existing-IsRead table s g = existing-IsRead drv.dialect table s refl g
