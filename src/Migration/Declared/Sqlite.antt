-- ===== src/Migration/Declared/Sqlite.antt =====
-- The answers of SQLite to the PRAGMA queries of src/migration.c, and a schema's columns.
use mathlib.Core.Path.{subst}
use c2sql.Prelude.{
  ◌≤◌, ◌≡◌, ◌≢◌, ◌↔◌, ◌⊎◌, ◌∙◌, refl, sym, ap, CStr, true, false, not, ◌&&◌, Option, none, some,
  List, [], ◌∷◌, ◌++◌, arith, inl, inr, Bool-cases, length, length-append, lit, All, ◌==◌,
  str_eq_iff,
}
use c2sql.Types.{ColumnDef, has_flag, flag_nullable, flag_primary_key, flag_unique}
use c2sql.Migration.{DbCol, schema_type_class, type_class_from_str}
use c2sql.Migration.Steps.{Columns, info_col, buffered}
use c2sql.Migration.Reads.{with_name, keep_text, no_columns}
use c2sql.Migration.Answers.{TableRow}
use c2sql.Migration.Rows.{gathered}
use c2sql.Migration.Layout.{
  Answers, next_info, next_index, next_ref, info_of, indexes_of, refs_of, marked, is_u,
}
use c2sql.Migration.Compare.{IsSame, AreSame}
use c2sql.Migration.Declared.{
  In, Zip, Kept, Dropped, Reads, buffered-Reads, keep_text-cases, keep_text-either,
}
use c2sql.Migration.Declared.Classes.{
  IsSqliteClass, type_class_from_str-IsSqliteClass, sqlite_class_by,
}
use c2sql.Migration.Declared.Marks.{IsMarked, marked-IsMarked}

abbrev pub info_answer : CStr → Answers → List TableRow
info_answer table answer = answer (with_name (lit "PRAGMA table_info(\"") table (lit "\")")) none

abbrev pub list_answer : CStr → Answers → List TableRow
list_answer table answer = answer (with_name (lit "PRAGMA index_list(\"") table (lit "\")")) none

abbrev pub index_answer : CStr → Answers → List TableRow
index_answer index answer = answer (with_name (lit "PRAGMA index_info(\"") index (lit "\")")) none

-- The column is the only one of the index, of those with a name of less than 128 bytes.
abbrev pub OnlyName : List TableRow → CStr → Type 0
OnlyName [] name = ⊥
OnlyName (row ∷ rows) name =
    (Kept 128 (row.texts 2) name × All (λ r. Dropped 128 (r.texts 2)) rows)
    ⊎ (Dropped 128 (row.texts 2) × OnlyName rows name)

-- An index of a UNIQUE constraint has the column alone.
abbrev pub IsUnique : CStr → Answers → CStr → Type 0
IsUnique table answer name =
    (row : TableRow) × In row (list_answer table answer)
    × (row.ints 2 ≢ 0)
    × (row.texts 3 ≡ some (lit "u"))
    × (index : CStr) × Kept 96 (row.texts 1) index
    × OnlyName (index_answer index answer) name

-- The row of PRAGMA table_info is that of the column: its name, the class of its type, NOT NULL unless
-- it is nullable, and the primary key; a UNIQUE column that is not the key has an index of its own.
pub record IsDeclared (table : CStr) (answer : Answers) (sc : ColumnDef) (row : TableRow)
    : Type 0 where
  pub name : Reads 128 (row.texts 1) sc.name
  pub declared : CStr
  pub type : Reads 32 (row.texts 2) declared
  pub class : IsSqliteClass declared sc.type
  pub notnull : (has_flag sc flag_nullable ≡ false) ↔ (row.ints 3 ≢ 0)
  pub pk : (has_flag sc flag_primary_key ≡ true) ↔ (row.ints 5 ≢ 0)
  pub unique :
      has_flag sc flag_unique ≡ true
      → has_flag sc flag_primary_key ≡ false
      → IsUnique table answer sc.name

abbrev IsRowOf : TableRow → DbCol → Type 0
IsRowOf row d = d ≡ info_col (row.ints 0) (row.texts 1) (row.texts 2) (row.ints 3) (row.ints 5)

append_assoc : {A : Type 0} (xs ys zs : List A) → (xs ++ ys) ++ zs ≡ xs ++ (ys ++ zs)
append_assoc [] ys zs = refl
append_assoc (x ∷ xs) ys zs = ap (λ l. x ∷ l) (append_assoc xs ys zs)

append_nil : {A : Type 0} (xs : List A) → xs ≡ xs ++ []
append_nil [] = refl
append_nil (x ∷ xs) = ap (λ l. x ∷ l) (append_nil xs)

next_info-added :
    (row : TableRow) (a : Columns)
    → (d : DbCol) × ((next_info row a).cols ≡ a.cols ++ d ∷ []) × IsRowOf row d
next_info-added row a =
    let d = info_col (row.ints 0) (row.texts 1) (row.texts 2) (row.ints 3) (row.ints 5) in
    elim (Bool-cases (length a.cols == a.cap)) [
      | inl full ↦ (d, rw (full, next_info) refl, refl)
      | inr free ↦ (d, rw (free, next_info) refl, refl)
    ]

-- A column for every row.
pub gathered_rows :
    (next : TableRow → Columns → Columns) (Q : TableRow → DbCol → Type 0)
    → ((row : TableRow) (a : Columns)
        → (d : DbCol) × ((next row a).cols ≡ a.cols ++ d ∷ []) × Q row d)
    → (rows : List TableRow) (a : Columns)
    → (ds : List DbCol) × ((gathered next a rows).cols ≡ a.cols ++ ds) × Zip Q rows ds
gathered_rows next Q adds [] a = ([], append_nil a.cols, tt)
gathered_rows next Q adds (row ∷ rows) a =
    let (d, e, q) = adds row a in
    let (ds, f, z) = gathered_rows next Q adds rows (next row a) in
    (d ∷ ds, f ∙ ap (λ l. l ++ ds) e ∙ append_assoc a.cols (d ∷ []) ds, (q, z))

pub In-append : {A : Type 0} (x : A) (ys : List A) (y : A) → In x (ys ++ y ∷ []) → In x ys ⊎ (x ≡ y)
In-append x [] y (inl e) = inr e
In-append x [] y (inr n) = absurd n
In-append x (z ∷ ys) y (inl e) = inl (inl e)
In-append x (z ∷ ys) y (inr h) = elim (In-append x ys y h) [
  | inl old ↦ inl (inr old)
  | inr new ↦ inr new
]

is_u-lit : (t : Option CStr) → is_u t ≡ true → t ≡ some (lit "u")
is_u-lit none h = cc
is_u-lit (some o) h = ap some ((str_eq_iff o (lit "u")).0 h)

next_index-In :
    (index : CStr) (row : TableRow) (names : List CStr)
    → In index (next_index row names)
    → In index names
      ⊎ ((row.ints 2 ≢ 0) × (row.texts 3 ≡ some (lit "u")) × Kept 96 (row.texts 1) index)
next_index-In index row names h = elim (Bool-cases (not (row.ints 2 == 0) && is_u (row.texts 3))) [
  | inr other ↦ inl (rw (other, next_index) at h)
  | inl both ↦
      let kept : In index (keep_text 64 96 (row.texts 1) names) = rw (both, next_index) at h in
      elim (keep_text-either 64 96 (row.texts 1) names) [
        | inl e ↦ inl (rw e at kept)
        | inr (s, own, e) ↦ elim (In-append index names s (rw e at kept)) [
          | inl old ↦ inl old
          | inr same ↦ inr (
            ground (arith, both),
            is_u-lit (row.texts 3) (ground (arith, both)),
            subst (Kept 96 (row.texts 1)) (sym same) own,
          )
        ]
      ]
]

-- The names of the indexes are those of rows for UNIQUE constraints.
gathered-next_index :
    (index : CStr) (rows : List TableRow) (names : List CStr)
    → In index (gathered next_index names rows)
    → In index names
      ⊎ ((row : TableRow) × In row rows
          × (row.ints 2 ≢ 0)
          × (row.texts 3 ≡ some (lit "u"))
          × Kept 96 (row.texts 1) index)
gathered-next_index index [] names h = inl h
gathered-next_index index (row ∷ rows) names h =
    elim (gathered-next_index index rows (next_index row names) h) [
      | inr (r, here, uniq, origin, kept) ↦ inr (r, inr here, uniq, origin, kept)
      | inl before ↦ elim (next_index-In index row names before) [
        | inl old ↦ inl old
        | inr (uniq, origin, kept) ↦ inr (row, inl refl, uniq, origin, kept)
      ]
    ]

abbrev head_or : List CStr → CStr
head_or [] = []
head_or (x ∷ xs) = x

-- The one name that was gathered is that of the one row with a short name.
gathered-next_ref-length :
    (rows : List TableRow) (names : List CStr)
    → length names ≤ length (gathered next_ref names rows)
gathered-next_ref-length [] names = omega arith
gathered-next_ref-length (row ∷ rows) names =
    let rest = gathered-next_ref-length rows (next_ref row names) in
    elim (keep_text-either 8 128 (row.texts 2) names) [
      | inl e ↦ omega (arith, rest, ap length e)
      | inr (s, kept, e) ↦ omega (arith, rest, ap length e, length-append names (s ∷ []))
    ]

no_other :
    (rows : List TableRow) (x name : CStr)
    → gathered next_ref (x ∷ []) rows ≡ name ∷ []
    → (x ≡ name) × All (λ r. Dropped 128 (r.texts 2)) rows
no_other [] x name h = (ap (λ l. head_or l) h, tt)
no_other (row ∷ rows) x name h = elim (keep_text-cases 8 128 (row.texts 2) (x ∷ []) (omega arith)) [
  | inl (gone, e) ↦ let (same, rest) = no_other rows x name (rw e at h) in (same, (gone, rest))
  | inr (s, kept, e) ↦
      let long = gathered-next_ref-length rows (x ∷ s ∷ []) in
      let two : gathered next_ref (x ∷ s ∷ []) rows ≡ name ∷ [] = rw e at h in
      absurd (omega (arith, long, ap length two))
]

refs-OnlyName :
    (rows : List TableRow) (name : CStr)
    → gathered next_ref [] rows ≡ name ∷ []
    → OnlyName rows name
refs-OnlyName [] name h = cc
refs-OnlyName (row ∷ rows) name h = elim (keep_text-cases 8 128 (row.texts 2) [] (omega arith)) [
  | inl (gone, e) ↦ inr (gone, refs-OnlyName rows name (rw e at h))
  | inr (s, kept, e) ↦
      let (same, rest) = no_other rows s name (rw e at h) in
      inl (subst (λ n. Kept 128 (row.texts 2) n) same kept, rest)
]

indexes-IsUnique :
    (table : CStr) (answer : Answers) (index name : CStr)
    → In index (indexes_of table answer)
    → refs_of index answer ≡ name ∷ []
    → IsUnique table answer name
indexes-IsUnique table answer index name here refs =
    elim (gathered-next_index index (list_answer table answer) [] here) [
      | inl none_yet ↦ absurd none_yet
      | inr (row, there, uniq, origin, kept) ↦ (
        row,
        there,
        uniq,
        origin,
        index,
        kept,
        refs-OnlyName (index_answer index answer) name refs,
      )
    ]

-- One column: what was compared, what was marked, and the row.
column-IsDeclared :
    (table : CStr) (answer : Answers) (sc : ColumnDef) (row : TableRow) (d c : DbCol)
    → IsSame sc c
    → IsMarked (IsUnique table answer) d c
    → IsRowOf row d
    → IsDeclared table answer sc row
column-IsDeclared table answer sc row d c s m r =
    let type = buffered 32 (row.texts 2) in
    let class : schema_type_class sc.type ≡ type_class_from_str type =
      s.type_class ∙ m.type_class ∙ ap (λ (x : DbCol). x.type_class) r in
    let name : sc.name ≡ buffered 128 (row.texts 1) =
      s.name ∙ m.name ∙ ap (λ (x : DbCol). x.name) r in
    let own : sc.name ≡ d.name = s.name ∙ m.name in
    let notnull : not (has_flag sc flag_nullable) ≡ not (row.ints 3 == 0) =
      s.notnull ∙ m.notnull ∙ ap (λ (x : DbCol). x.notnull) r in
    let pk : has_flag sc flag_primary_key ≡ not (row.ints 5 == 0) =
      s.pk ∙ m.pk ∙ ap (λ (x : DbCol). x.pk) r in
    let unmarked : d.is_unique ≡ false = ap (λ (x : DbCol). x.is_unique) r in
    record {
      name = subst (Reads 128 (row.texts 1)) (sym name) (buffered-Reads 128 (row.texts 1));
      declared = type;
      type = buffered-Reads 32 (row.texts 2);
      class =
          sqlite_class_by type sc.type (type_class_from_str type) class
            (type_class_from_str-IsSqliteClass (row.texts 2));
      notnull = (λ h. ground (arith, notnull, h), λ h. ground (arith, notnull, h));
      pk = (λ h. ground (arith, pk, h), λ h. ground (arith, pk, h));
      unique = λ u k. elim (m.unique (s.unique u k)) [
        | inl before ↦ cc (before, unmarked)
        | inr p ↦ subst (IsUnique table answer) (sym own) p
      ];
    }

columns-AreDeclared :
    (table : CStr) (answer : Answers) (scs : List ColumnDef) (rows : List TableRow)
    (ds cs : List DbCol)
    → AreSame scs cs
    → Zip (IsMarked (IsUnique table answer)) ds cs
    → Zip IsRowOf rows ds
    → Zip (IsDeclared table answer) scs rows
columns-AreDeclared table answer [] [] [] [] s m r = tt
columns-AreDeclared table answer (sc ∷ scs) (row ∷ rows) (d ∷ ds) (c ∷ cs) s m r = (
  column-IsDeclared table answer sc row d c s.0 m.0 r.0,
  columns-AreDeclared table answer scs rows ds cs s.1 m.1 r.1,
)
columns-AreDeclared table answer [] [] [] (c ∷ cs) s m r = absurd s
columns-AreDeclared table answer [] [] (d ∷ ds) cs s m r = absurd r
columns-AreDeclared table answer [] (row ∷ rows) [] cs s m r = absurd r
columns-AreDeclared table answer [] (row ∷ rows) (d ∷ ds) [] s m r = absurd m
columns-AreDeclared table answer [] (row ∷ rows) (d ∷ ds) (c ∷ cs) s m r = absurd s
columns-AreDeclared table answer (sc ∷ scs) [] [] [] s m r = absurd s
columns-AreDeclared table answer (sc ∷ scs) [] [] (c ∷ cs) s m r = absurd m
columns-AreDeclared table answer (sc ∷ scs) [] (d ∷ ds) cs s m r = absurd r
columns-AreDeclared table answer (sc ∷ scs) (row ∷ rows) [] cs s m r = absurd r
columns-AreDeclared table answer (sc ∷ scs) (row ∷ rows) (d ∷ ds) [] s m r = absurd s

-- Columns that were found to be the same are those that the answers declare.
pub layout-AreDeclared :
    (table : CStr) (answer : Answers) (scs : List ColumnDef)
    → AreSame scs (marked (indexes_of table answer) answer (info_of table answer))
    → Zip (IsDeclared table answer) scs (info_answer table answer)
layout-AreDeclared table answer scs same =
    let (ds, e, z) =
      gathered_rows next_info IsRowOf next_info-added (info_answer table answer) no_columns in
    let cs = marked (indexes_of table answer) answer (info_of table answer) in
    let m =
      marked-IsMarked (IsUnique table answer) answer (indexes_of table answer)
        (info_of table answer) (indexes-IsUnique table answer) in
    columns-AreDeclared table answer scs (info_answer table answer) ds cs same
      (subst (λ l. Zip (IsMarked (IsUnique table answer)) l cs) e m) z
