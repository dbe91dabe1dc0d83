-- ===== src/QueryBuilder/Columns/Texts.antt =====
-- The column fragments of src/query_builder.c against the reference texts.
use mathlib.Core.List.{append_assoc}
use native.Mathlib.Nat.{add-zero}
use c2sql.Prelude.{
  ℕ, suc, ◌+◌, ◌≡◌, Bool, false, List, [], ◌∷◌, ◌++◌, map, ◌==◌, lit, length, inl, inr, Bool-cases,
  arith,
}
use c2sql.Types.{SqlDialect, ColumnDef}
use c2sql.QueryBuilder.Emit.Rules.{
  Emits, Emits-text, Emits-return, Emits-placeholder, ◌▹◌, put, put_when,
}
use c2sql.QueryBuilder.Render.{
  comma, constraints_text, col_def_text, quoted, update_text, joined, placeholders_text, without_pk,
}
use c2sql.QueryBuilder.Render.{type_text}
use c2sql.QueryBuilder.Render.Pieces.{type_to_sql_str-type_text}
use c2sql.QueryBuilder.Columns.{
  append_col_constraints, append_col_defs, append_names, append_placeholders, append_updates,
}

pub Emits-constraints :
    (col : ColumnDef) (n : ℕ) → Emits (append_col_constraints col) n (constraints_text col) n
unfolding append_col_constraints
Emits-constraints col n = put_when _ _ ▹ put_when _ _ ▹ put_when _ _

pub Emits-names :
    (first : Bool) (cols : List ColumnDef) (n : ℕ)
    → Emits (append_names first cols) n (joined first (map (λ c. quoted c.name) cols)) n
unfolding append_names joined
Emits-names first [] n = Emits-return n
Emits-names first (col ∷ cols) n =
    Emits-text
      {t = comma first
        ++ (lit "\"" ++ (col.name ++ (lit "\"" ++ joined false (map (λ c. quoted c.name) cols))))}
      (simp append_assoc) (put_when _ _ ▹ put ▹ put ▹ put ▹ Emits-names false cols n)

pub Emits-col_defs :
    (d : SqlDialect) (first : Bool) (cols : List ColumnDef) (n : ℕ)
    → Emits (append_col_defs d first cols) n (joined first (map (col_def_text d) cols)) n
unfolding append_col_defs joined
Emits-col_defs d first [] n = Emits-return n
Emits-col_defs d first (col ∷ cols) n =
    Emits-text
      {t = comma first
        ++ (lit "\""
            ++ (col.name
                ++ (lit "\" "
                    ++ (type_text d col.type
                        ++ (constraints_text col ++ joined false (map (col_def_text d) cols))))))}
      (simp append_assoc)
      (rw (← type_to_sql_str-type_text col.type d) (
        put_when _ _
        ▹ put
        ▹ put
        ▹ put
        ▹ put
        ▹ Emits-constraints col n
        ▹ Emits-col_defs d false cols n))

pub Emits-placeholders :
    (d : SqlDialect) (first : Bool) (cols : List ColumnDef) (n : ℕ)
    → Emits
        (append_placeholders d first cols)
        n
        (joined first (placeholders_text d n cols))
        (n + length cols)
unfolding append_placeholders joined placeholders_text
Emits-placeholders d first [] n = rw (add-zero n) (Emits-return n)
Emits-placeholders d first (col ∷ cols) n =
    rw (add_shift n (length cols))
      (put_when _ _ ▹ Emits-placeholder d n ▹ Emits-placeholders d false cols (n + 1))
  where
    add_shift : (a b : ℕ) → a + suc b ≡ a + 1 + b
    add_shift a b = omega arith

pub Emits-updates :
    (pk i : ℕ) (first : Bool) (cols : List ColumnDef) (n : ℕ)
    → Emits
        (append_updates pk i first cols)
        n
        (joined first (map (λ c. update_text c.name) (without_pk pk i cols)))
        n
unfolding append_updates joined without_pk
Emits-updates pk i first [] n = Emits-return n
Emits-updates pk i first (col ∷ cols) n = elim (Bool-cases (i == pk)) [
  | inl skip ↦ rw skip (Emits-updates pk (suc i) first cols n)
  | inr keep ↦ rw keep (
      Emits-text
        {t = comma first
          ++ (lit "\""
              ++ (col.name
                  ++ (lit "\"=excluded.\""
                      ++ (col.name
                          ++ (lit "\""
                              ++ joined false
                                  (map (λ c. update_text c.name) (without_pk pk (suc i) cols)))))))}
        (simp append_assoc)
        (put_when _ _ ▹ put ▹ put ▹ put ▹ put ▹ put ▹ Emits-updates pk (suc i) false cols n))
]
