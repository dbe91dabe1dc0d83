-- ===== src/Registry/Columns/Valid.antt =====
-- The column loop of src/schema_registry.c and the columns that meet its checks.
use mathlib.Core.Path.{ap₂}
use mathlib.Core.List.{append_assoc}
use c2sql.Prelude.{
  ap, ℕ, ◌≡◌, refl, ◌∙◌, ◌≢◌, sym, CStr, true, false, Option, none, some, List, [], ◌∷◌, ◌++◌, All,
  arith, inl, inr, Bool-cases, str_eq, str_eq_iff,
}
use mathlib.Core.List.{append-nil}
use c2sql.Types.{ok, is_ok, SqlRdbType, ColumnDef}
use c2sql.Registry.Identifier.{identifier_valid}
use c2sql.Registry.Identifier.Exact.{IsIdentifier, identifier_valid_iff}
use c2sql.Registry.Columns.{
  ColumnArg, copied, has_name, size_fits, check_column, name_or_empty, check_columns,
}

-- No column before has the name.
abbrev pub IsFresh : CStr → List ColumnDef → Type 0
IsFresh name seen = All (λ c. c.name ≢ name) seen

abbrev pub IsColumn : List ColumnDef → ColumnDef → Type 0
IsColumn seen c = IsIdentifier c.name × IsFresh c.name seen × (size_fits c.type c.size ≡ true)

-- Columns that may follow `seen`: identifiers, all different, and integers of their size.
abbrev pub AreColumns : List ColumnDef → List ColumnDef → Type 0
AreColumns seen [] = Unit
AreColumns seen (c ∷ cs) = IsColumn seen c × AreColumns (seen ++ c ∷ []) cs

-- The caller's columns, each with a name, and the copies that are kept.
abbrev pub AreCopies : List ColumnArg → List ColumnDef → Type 0
AreCopies [] [] = Unit
AreCopies (a ∷ args) (c ∷ cs) = (a.name ≡ some c.name) × (copied a c.name ≡ c) × AreCopies args cs
AreCopies _ _ = ⊥

fresh_lem : (name : CStr) (seen : List ColumnDef) → has_name name seen ≡ false → IsFresh name seen
unfolding has_name
fresh_lem name [] h = tt
fresh_lem name (c ∷ cs) h = elim (Bool-cases (str_eq c.name name)) [
  | inl same ↦ cc (rw (same, has_name) at h)
  | inr other ↦
      (λ e. cc (other, (str_eq_iff c.name name).1 e), fresh_lem name cs (rw (other, has_name) at h))
]

fresh_conv : (name : CStr) (seen : List ColumnDef) → IsFresh name seen → has_name name seen ≡ false
unfolding has_name
fresh_conv name [] a = refl
fresh_conv name (c ∷ cs) a = elim (Bool-cases (str_eq c.name name)) [
  | inl same ↦ absurd (a.0 ((str_eq_iff c.name name).0 same))
  | inr other ↦ rw (other, has_name) (fresh_conv name cs a.1)
]

check_column_sound :
    (seen : List ColumnDef) (n : Option CStr) (t : SqlRdbType) (size : ℕ)
    → is_ok (check_column seen n t size) ≡ true
    → (n ≡ some (name_or_empty n))
      × (identifier_valid (name_or_empty n) ≡ true)
      × (has_name (name_or_empty n) seen ≡ false)
      × (size_fits t size ≡ true)
unfolding check_column
check_column_sound seen none t size h = cc
check_column_sound seen (some n) t size h = ground arith

check_column_complete :
    (seen : List ColumnDef) (name : CStr) (t : SqlRdbType) (size : ℕ)
    → identifier_valid name ≡ true
    → has_name name seen ≡ false
    → size_fits t size ≡ true
    → check_column seen (some name) t size ≡ ok
unfolding check_column
check_column_complete seen name t size h f z = ground arith

pub check_columns_sound :
    (seen : List ColumnDef) (args : List ColumnArg)
    → is_ok (check_columns seen args).0 ≡ true
    → (cs : List ColumnDef) × ((check_columns seen args).1 ≡ seen ++ cs)
      × AreColumns seen cs
      × AreCopies args cs
unfolding check_columns
check_columns_sound seen [] h = ([], sym (append-nil seen), tt, tt)
check_columns_sound seen (a ∷ args) h =
    elim (Bool-cases (is_ok (check_column seen a.name a.type a.size))) [
      | inl fine ↦
          let name : CStr = name_or_empty a.name in
          let c : ColumnDef = copied a name in
          let (named, valid, unused, fits) = check_column_sound seen a.name a.type a.size fine in
          let (cs, e, v, copies) =
            check_columns_sound (seen ++ c ∷ []) args (rw (fine, check_columns) at h) in
          (
            c ∷ cs,
            rw fine (e ∙ append_assoc seen (c ∷ []) cs),
            (((identifier_valid_iff name).0 valid, fresh_lem name seen unused, fits), v),
            (named, refl, copies),
          )
      | inr bad ↦ cc (bad, rw (bad, check_columns) at h)
    ]

pub check_columns_complete :
    (seen : List ColumnDef) (args : List ColumnArg) (cs : List ColumnDef)
    → AreColumns seen cs
    → AreCopies args cs
    → check_columns seen args ≡ (ok, seen ++ cs)
unfolding check_columns
check_columns_complete seen [] [] v k = rw (append-nil seen)
check_columns_complete seen [] (c ∷ cs) v k = absurd k
check_columns_complete seen (a ∷ args) [] v k = absurd k
check_columns_complete seen (a ∷ args) (c ∷ cs) v k =
    rw (k.0, accepted, k.1)
      (check_columns_complete (seen ++ c ∷ []) args cs v.1 k.2
        ∙ ap (λ l. (ok, l)) (append_assoc seen (c ∷ []) cs))
  where
    accepted : check_column seen (some c.name) a.type a.size ≡ ok
    accepted =
        check_column_complete seen c.name a.type a.size ((identifier_valid_iff c.name).1 v.0.0)
          (fresh_conv c.name seen v.0.1)
          (ap₂ size_fits (ap ColumnDef.type k.1) (ap ColumnDef.size k.1) ∙ v.0.2)
