-- ===== src/Migration/Declared/Postgres.antt =====
-- The answers of PostgreSQL to the queries of src/migration.c, and a schema's columns.
use mathlib.Core.Path.{subst}
use c2sql.Prelude.{
  ℕ, ◌+◌, ◌≤◌, ◌≡◌, ◌↔◌, ◌⊎◌, ◌∙◌, refl, sym, ap, CStr, true, false, not, Option, none, some, List,
  [], ◌∷◌, ◌++◌, arith, inl, inr, Bool-cases, length, length-append, ◌==◌,
}
use c2sql.Types.{ColumnDef, has_flag, flag_nullable, flag_primary_key, flag_unique}
use c2sql.Migration.{DbCol, schema_type_class, type_class_from_pg}
use c2sql.Migration.Steps.{Columns, info_col_pg, buffered, starts_with_n}
use c2sql.Migration.Reads.{
  mark_pk, mark_unique, mark_each, no_columns, pg_columns, pg_keys, pg_uniques,
}
use c2sql.Migration.Answers.{TableRow}
use c2sql.Migration.Rows.{gathered}
use c2sql.Migration.Layout.{Answers, next_info_pg, next_name, names_of}
use c2sql.Migration.Compare.{IsSame, AreSame}
use c2sql.Migration.Declared.{
  In, Zip, Kept, Reads, buffered-Reads, keep_text-either, keep_text-Kept,
}
use c2sql.Migration.Declared.Classes.{
  IsPostgresClass, type_class_from_pg-IsPostgresClass, postgres_class_by,
}
use c2sql.Migration.Declared.Sqlite.{gathered_rows, In-append}
use c2sql.Migration.Declared.Keys.{IsKeyed, AreKeyed, mark_each-mark_pk, mark_each-mark_unique}

-- A row of the answer has the name, of less than 128 bytes.
abbrev pub IsNamed : CStr → List TableRow → Type 0
IsNamed name rows = (row : TableRow) × In row rows × Kept 128 (row.texts 0) name

-- `NO`, in either case: two bytes or more, the first an N.
abbrev pub SaysNo : Option CStr → Type 0
SaysNo t = (b : ℕ) × (c : ℕ) × (rest : CStr) × (t ≡ some (b ∷ c ∷ rest)) × ((b ≡ 78) ⊎ (b ≡ 110))

-- The row of information_schema.columns is that of the column: its name, the class of its type, and
-- NOT NULL unless it is nullable. The key is named in the answer for the primary key, and what is named
-- there is the key, if that has no more than 64 rows; a UNIQUE column that is not the key is named in the
-- answer for unique columns.
pub record IsDeclared (table : CStr) (answer : Answers) (sc : ColumnDef) (row : TableRow)
    : Type 0 where
  pub name : Reads 128 (row.texts 0) sc.name
  pub declared : CStr
  pub type : Reads 40 (row.texts 1) declared
  pub class : IsPostgresClass declared sc.type
  pub notnull : (has_flag sc flag_nullable ≡ false) ↔ SaysNo (row.texts 2)
  pub pk : has_flag sc flag_primary_key ≡ true → IsNamed sc.name (answer pg_keys (some table))
  pub pk_only :
      length (answer pg_keys (some table)) ≤ 64
      → IsNamed sc.name (answer pg_keys (some table))
      → has_flag sc flag_primary_key ≡ true
  pub unique :
      has_flag sc flag_unique ≡ true
      → has_flag sc flag_primary_key ≡ false
      → IsNamed sc.name (answer pg_uniques (some table))

says_no :
    (b c : ℕ) (rest : CStr) → (b ≡ 78) ⊎ (b ≡ 110) → starts_with_n (some (b ∷ c ∷ rest)) ≡ true
says_no b c rest n = ground arith

starts_with_n_sound : (t : Option CStr) → starts_with_n t ≡ true → SaysNo t
starts_with_n_sound none h = cc
starts_with_n_sound (some []) h = cc
starts_with_n_sound (some (b ∷ [])) h = cc
starts_with_n_sound (some (b ∷ c ∷ s)) h = (b, c, s, refl, ground arith)

starts_with_n_complete : (t : Option CStr) → SaysNo t → starts_with_n t ≡ true
starts_with_n_complete t (b, c, rest, e, n) = rw e (says_no b c rest n)

names_of-IsNamed :
    (name : CStr) (rows : List TableRow) (names : List CStr)
    → In name (gathered next_name names rows)
    → In name names ⊎ IsNamed name rows
names_of-IsNamed name [] names h = inl h
names_of-IsNamed name (row ∷ rows) names h =
    elim (names_of-IsNamed name rows (next_name row names) h) [
      | inr (r, here, kept) ↦ inr (r, inr here, kept)
      | inl before ↦ elim (keep_text-either 64 128 (row.texts 0) names) [
        | inl e ↦ inl (rw e at before)
        | inr (s, own, e) ↦ elim (In-append name names s (rw e at before)) [
          | inl old ↦ inl old
          | inr same ↦ inr (row, inl refl, subst (Kept 128 (row.texts 0)) (sym same) own)
        ]
      ]
    ]

In-append_left : {A : Type 0} (x : A) (ys zs : List A) → In x ys → In x (ys ++ zs)
In-append_left x (y ∷ ys) zs (inl e) = inl e
In-append_left x (y ∷ ys) zs (inr h) = inr (In-append_left x ys zs h)
In-append_left x [] zs h = absurd h

In-append_last : {A : Type 0} (x : A) (ys : List A) → In x (ys ++ x ∷ [])
In-append_last x [] = inl refl
In-append_last x (y ∷ ys) = inr (In-append_last x ys)

gathered-keeps :
    (name : CStr) (rows : List TableRow) (names : List CStr)
    → In name names
    → In name (gathered next_name names rows)
gathered-keeps name [] names h = h
gathered-keeps name (row ∷ rows) names h =
    gathered-keeps name rows (next_name row names)
      (elim (keep_text-either 64 128 (row.texts 0) names) [
        | inl e ↦ rw e h
        | inr (s, own, e) ↦ rw e (In-append_left name names (s ∷ []) h)
      ])

IsNamed-names_of :
    (name : CStr) (rows : List TableRow) (names : List CStr)
    → length names + length rows ≤ 64
    → IsNamed name rows
    → In name (gathered next_name names rows)
IsNamed-names_of name [] names low (r, here, kept) = absurd here
IsNamed-names_of name (row ∷ rows) names low (r, inl same, kept) =
    gathered-keeps name rows (next_name row names) (
      rw
        (keep_text-Kept 64 128 (row.texts 0) names name (omega (arith, low))
          (subst (λ (x : TableRow). Kept 128 (x.texts 0) name) same kept))
        (In-append_last name names))
IsNamed-names_of name (row ∷ rows) names low (r, inr there, kept) =
    IsNamed-names_of name rows (next_name row names)
      (elim (keep_text-either 64 128 (row.texts 0) names) [
        | inl e ↦ omega (arith, low, ap length e)
        | inr (s, own, e) ↦ omega (arith, low, ap length e, length-append names (s ∷ []))
      ])
      (r, there, kept)

abbrev IsRowOf : TableRow → DbCol → Type 0
IsRowOf row d = (n : ℕ) × (d ≡ info_col_pg n (row.texts 0) (row.texts 1) (row.texts 2))

next_info_pg-added :
    (row : TableRow) (a : Columns)
    → (d : DbCol) × ((next_info_pg row a).cols ≡ a.cols ++ d ∷ []) × IsRowOf row d
next_info_pg-added row a =
    let d = info_col_pg (length a.cols) (row.texts 0) (row.texts 1) (row.texts 2) in
    elim (Bool-cases (length a.cols == a.cap)) [
      | inl full ↦ (d, rw (full, next_info_pg) refl, (length a.cols, refl))
      | inr free ↦ (d, rw (free, next_info_pg) refl, (length a.cols, refl))
    ]

module _ (table : CStr) (answer : Answers) where
  abbrev keys : List CStr
  keys = names_of pg_keys table answer

  abbrev uniques : List CStr
  uniques = names_of pg_uniques table answer

  abbrev key_rows : List TableRow
  key_rows = answer pg_keys (some table)

  abbrev unique_rows : List TableRow
  unique_rows = answer pg_uniques (some table)

  listed :
      (name : CStr) (rows : List TableRow)
      → In name (gathered next_name [] rows)
      → IsNamed name rows
  listed name rows h = elim (names_of-IsNamed name rows [] h) [
    | inl n ↦ absurd n
    | inr named ↦ named
  ]

  column-IsDeclared :
      (sc : ColumnDef) (row : TableRow) (d e c : DbCol)
      → IsSame sc c
      → IsKeyed [] uniques e c
      → IsKeyed keys [] d e
      → IsRowOf row d
      → IsDeclared table answer sc row
  column-IsDeclared sc row d e c s u k (n, r) =
      let type = buffered 40 (row.texts 1) in
      let class : schema_type_class sc.type ≡ type_class_from_pg type =
        s.type_class ∙ u.type_class ∙ k.type_class ∙ ap (λ (x : DbCol). x.type_class) r in
      let own : sc.name ≡ d.name = s.name ∙ u.name ∙ k.name in
      let name : sc.name ≡ buffered 128 (row.texts 0) = own ∙ ap (λ (x : DbCol). x.name) r in
      let notnull : not (has_flag sc flag_nullable) ≡ starts_with_n (row.texts 2) =
        s.notnull ∙ u.notnull ∙ k.notnull ∙ ap (λ (x : DbCol). x.notnull) r in
      let no_key : d.pk ≡ false = ap (λ (x : DbCol). x.pk) r in
      let unmarked : d.is_unique ≡ false = ap (λ (x : DbCol). x.is_unique) r in
      record {
        name = subst (Reads 128 (row.texts 0)) (sym name) (buffered-Reads 128 (row.texts 0));
        declared = type;
        type = buffered-Reads 40 (row.texts 1);
        class =
            postgres_class_by type sc.type (type_class_from_pg type) class
              (type_class_from_pg-IsPostgresClass type);
        notnull = (
          λ h. starts_with_n_sound (row.texts 2) (ground (arith, notnull, h)),
          λ p. ground (arith, notnull, starts_with_n_complete (row.texts 2) p),
        );
        pk = λ h. elim (u.pk.0 (sym s.pk ∙ h)) [
          | inr n ↦ absurd n
          | inl keyed ↦ elim (k.pk.0 keyed) [
            | inl was ↦ cc (was, no_key)
            | inr named ↦ subst (λ x. IsNamed x key_rows) (sym own) (listed d.name key_rows named)
          ]
        ];
        pk_only = λ low p.
            let named = IsNamed-names_of sc.name key_rows [] (omega (arith, low)) p in
            s.pk ∙ u.pk.1 (inl (k.pk.1 (inr (subst (λ x. In x keys) own named))));
        unique = λ un no. elim (u.unique (s.unique un no)) [
          | inl before ↦ elim (k.unique before) [ inl was ↦ cc (was, unmarked) | inr n ↦ absurd n ]
          | inr named ↦
              subst (λ x. IsNamed x unique_rows) (sym (s.name ∙ u.name))
                (listed e.name unique_rows named)
        ];
      }

  -- How a column came about from a row.
  abbrev Read : DbCol → TableRow → Type 0
  Read c row =
      (e : DbCol) × (d : DbCol) × IsKeyed [] uniques e c × IsKeyed keys [] d e × IsRowOf row d

  all-AreDeclared :
      (scs : List ColumnDef) (cs : List DbCol) (rows : List TableRow)
      → AreSame scs cs
      → Zip Read cs rows
      → Zip (IsDeclared table answer) scs rows
  all-AreDeclared [] [] [] s z = tt
  all-AreDeclared [] [] (row ∷ rows) s z = absurd z
  all-AreDeclared [] (c ∷ cs) rows s z = absurd s
  all-AreDeclared (sc ∷ scs) [] rows s z = absurd s
  all-AreDeclared (sc ∷ scs) (c ∷ cs) [] s z = absurd z
  all-AreDeclared (sc ∷ scs) (c ∷ cs) (row ∷ rows) s ((e, d, u, k, r), z) =
      (column-IsDeclared sc row d e c s.0 u k r, all-AreDeclared scs cs rows s.1 z)

  Zip-Read :
      (rows : List TableRow) (ds es cs : List DbCol)
      → Zip IsRowOf rows ds
      → AreKeyed keys [] ds es
      → AreKeyed [] uniques es cs
      → Zip Read cs rows
  Zip-Read [] [] [] [] r k u = tt
  Zip-Read (row ∷ rows) (d ∷ ds) (e ∷ es) (c ∷ cs) r k u =
      ((e, d, u.0, k.0, r.0), Zip-Read rows ds es cs r.1 k.1 u.1)
  Zip-Read [] [] [] (c ∷ cs) r k u = absurd u
  Zip-Read [] [] (e ∷ es) cs r k u = absurd k
  Zip-Read [] (d ∷ ds) es cs r k u = absurd r
  Zip-Read (row ∷ rows) [] es cs r k u = absurd r
  Zip-Read (row ∷ rows) (d ∷ ds) [] cs r k u = absurd k
  Zip-Read (row ∷ rows) (d ∷ ds) (e ∷ es) [] r k u = absurd u

  -- Columns that were found to be the same are those that the answers declare.
  pub layout-AreDeclared :
      (scs : List ColumnDef)
      → AreSame scs (
          mark_each mark_unique uniques (
            mark_each mark_pk keys
              (gathered next_info_pg no_columns (answer pg_columns (some table))).cols))
      → Zip (IsDeclared table answer) scs (answer pg_columns (some table))
  layout-AreDeclared scs same =
      let rows = answer pg_columns (some table) in
      let (ds, e, z) = gathered_rows next_info_pg IsRowOf next_info_pg-added rows no_columns in
      let read = (gathered next_info_pg no_columns rows).cols in
      let es = mark_each mark_pk keys read in
      let cs = mark_each mark_unique uniques es in
      let found : Zip IsRowOf rows read = subst (λ l. Zip IsRowOf rows l) (sym e) z in
      all-AreDeclared scs cs rows same (
        Zip-Read rows read es cs found (mark_each-mark_pk keys read)
          (mark_each-mark_unique uniques es))
