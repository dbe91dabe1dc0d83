-- ===== src/QueryBuilder/Build/Texts.antt =====
-- The builders of src/query_builder.c, one by one, against their reference statements.
use mathlib.Core.Path.{subst}
use mathlib.Core.Option.{some-injective}
use mathlib.Core.List.{append_assoc}
use native.Mathlib.Nat.{zero-add}
use c2sql.Prelude.{
  if◌then◌else◌, refl, ℕ, ◌≡◌, CStr, true, false, Option, none, some, ◌++◌, lit, length, inl, inr,
  Bool-cases, sym, get_elem?, Option-cases,
}
use c2sql.Types.{SqlDialect, ok, err_unknown_column, is_ok, Schema, ColumnDef}
use c2sql.Condition.{Condition}
use c2sql.QueryBuilder.Render.{mark, is_column}
use c2sql.QueryBuilder.Render.Pieces.{schema_has_column-is_column, type_to_sql_str-type_text}
use c2sql.QueryBuilder.Emit.{return, Step}
use c2sql.QueryBuilder.Emit.Rules.{
  Refuses-last, Refuses-text, Emits, Emits-text, Emits-count, Emits-placeholder, Refuses, ◌▹◌, ◌▹✗◌,
  put,
}
use c2sql.QueryBuilder.Columns.Texts.{
  Emits-constraints, Emits-names, Emits-col_defs, Emits-placeholders, Emits-updates,
}
use c2sql.QueryBuilder.Where.Texts.{Emits-where, Refuses-where}
use c2sql.QueryBuilder.Where.{schema_has_column}
use c2sql.QueryBuilder.Statement.{
  filtered, column_list, on_column, upsert_statement, Statement, statement, plain, insert_text,
  conflict_text, create_text, alter_text,
}
use c2sql.QueryBuilder.Build.{
  Op, create, insert, upsert, select, count, delete, alter_add, update_field, select_field,
  build_create, build_alter_add, build_insert, append_conflict, build_upsert, build_select,
  build_count, build_delete, set_field, build_update_field, get_field, build_select_field, build_op,
}

Emits-insert :
    (d : SqlDialect) (s : Schema) → Emits (build_insert d s) 0 (insert_text d s) (length s.cols)
unfolding build_insert
Emits-insert d s =
    Emits-count (zero-add (length s.cols))
      (put ▹ put ▹ put ▹ Emits-names true s.cols 0 ▹ put ▹ Emits-placeholders d true s.cols 0 ▹ put)

Emits-create : (d : SqlDialect) (s : Schema) → Emits (build_create d s) 0 (create_text d s) 0
unfolding build_create
Emits-create d s = put ▹ put ▹ put ▹ Emits-col_defs d true s.cols 0 ▹ put

Emits-alter :
    (d : SqlDialect) (s : Schema) (col : ColumnDef)
    → Emits (build_alter_add d s col) 0 (alter_text d s col) 0
unfolding build_alter_add
Emits-alter d s col =
    rw (← type_to_sql_str-type_text col.type d)
      (put ▹ put ▹ put ▹ put ▹ put ▹ put ▹ Emits-constraints col 0)

-- What a step does is to be the statement `t`: it emits the text, or refuses.
pub record Does (q : Step) (t : Statement) : Type 0 where
  pub emits : t.check ≡ ok → Emits q 0 t.text t.binds
  pub refuses : is_ok t.check ≡ false → Refuses q 0 t.text t.check

Does-plain : (q : Step) (t : CStr) (n : ℕ) → Emits q 0 t n → Does q (plain t n)
Does-plain q t n h = record { emits = λ _. h; refuses = λ e. cc }

Emits-conflict :
    (s : Schema) (pk : ℕ) (col : ColumnDef) (n : ℕ)
    → get_elem? s.cols pk ≡ some col
    → Emits (append_conflict s (some pk)) n (conflict_text s pk col) n
unfolding append_conflict
Emits-conflict s pk col n h =
    rw (h, append_conflict) (put ▹ put ▹ put ▹ Emits-updates pk 0 true s.cols n)

module _ (d : SqlDialect) (s : Schema) (cond : Option Condition) where
  Does-select : Does (build_select d s cond) (
      filtered d s cond
        (lit "SELECT " ++ (column_list s ++ (lit " FROM \"" ++ (s.name ++ lit "\""))))
        0)
  unfolding build_select
  Does-select = record {
    emits = λ h.
        Emits-text (simp append_assoc)
          (put ▹ Emits-names true s.cols 0 ▹ put ▹ put ▹ put ▹ Emits-where d s cond 0 h);
    refuses = λ h.
        Refuses-text (simp append_assoc)
          (put ▹✗ Emits-names true s.cols 0 ▹✗ put ▹✗ put ▹✗ put ▹✗ Refuses-where d s cond 0 h);
  }

  Does-count :
      Does
        (build_count d s cond)
        (filtered d s cond (lit "SELECT COUNT(*) FROM \"" ++ (s.name ++ lit "\"")) 0)
  unfolding build_count
  Does-count = record {
    emits = λ h. Emits-text (simp append_assoc) (put ▹ put ▹ put ▹ Emits-where d s cond 0 h);
    refuses =
        λ h. Refuses-text (simp append_assoc) (put ▹✗ put ▹✗ put ▹✗ Refuses-where d s cond 0 h);
  }

  Does-delete :
      Does
        (build_delete d s cond)
        (filtered d s cond (lit "DELETE FROM \"" ++ (s.name ++ lit "\"")) 0)
  unfolding build_delete
  Does-delete = record {
    emits = λ h. Emits-text (simp append_assoc) (put ▹ put ▹ put ▹ Emits-where d s cond 0 h);
    refuses =
        λ h. Refuses-text (simp append_assoc) (put ▹✗ put ▹✗ put ▹✗ Refuses-where d s cond 0 h);
  }

  module _ (col : CStr) where
    Does-set_field : Does (set_field d s col cond) (
        filtered d s cond
          (lit "UPDATE \"" ++ (s.name ++ (lit "\" SET \"" ++ (col ++ (lit "\"=" ++ mark d 1)))))
          1)
    unfolding set_field
    Does-set_field = record {
      emits = λ h.
          Emits-text (simp append_assoc)
            (put ▹ put ▹ put ▹ put ▹ put ▹ Emits-placeholder d 0 ▹ Emits-where d s cond 1 h);
      refuses = λ h.
          Refuses-text (simp append_assoc) (
            put ▹✗ put ▹✗ put ▹✗ put ▹✗ put ▹✗ Emits-placeholder d 0 ▹✗ Refuses-where d s cond 1 h);
    }

    Does-get_field : Does (get_field d s col cond) (
        filtered d s cond
          (lit "SELECT \"" ++ (col ++ (lit "\" FROM \"" ++ (s.name ++ lit "\""))))
          0)
    unfolding get_field
    Does-get_field = record {
      emits = λ h.
          Emits-text (simp append_assoc) (put ▹ put ▹ put ▹ put ▹ put ▹ Emits-where d s cond 0 h);
      refuses = λ h.
          Refuses-text (simp append_assoc)
            (put ▹✗ put ▹✗ put ▹✗ put ▹✗ put ▹✗ Refuses-where d s cond 0 h);
    }

-- The check of the target column in front of a field statement.
Does-on_column :
    (s : Schema) (col : CStr) (q : Step) (t : Statement)
    → Does q t
    → Does
        (if schema_has_column s.cols col then q else return err_unknown_column)
        (on_column s col t)
Does-on_column s col q t h =
    rw (schema_has_column-is_column s.cols col) (elim (Bool-cases (is_column s.cols col)) [
      | inl found ↦ rw found h
      | inr missing ↦
          rw missing (record { emits = λ e. cc; refuses = λ e. Refuses-last 0 t.text _ refl })
    ])

Does-some : {q : Step} {t u : Statement} → some t ≡ some u → Does q t → Does q u
Does-some {q} e h = subst (λ t. Does q t) (some-injective _ _ e) h

Does-upsert :
    (d : SqlDialect) (s : Schema) (pk : Option ℕ) (t : Statement)
    → s.pk_index ≡ pk
    → upsert_statement d s pk ≡ some t
    → Does (build_upsert d s) t
unfolding build_upsert
Does-upsert d s none t e h = cc
Does-upsert d s (some pk) t e h = elim (Option-cases (get_elem? s.cols pk)) [
  | inl missing ↦ cc (rw (missing, upsert_statement) at h)
  | inr (col, found) ↦ Does-some (rw (found, upsert_statement) at h) (
      Does-plain _ _ _ (
        Emits-insert d s
        ▹ subst
            (λ k.
              Emits (append_conflict s k) (length s.cols) (conflict_text s pk col) (length s.cols))
            (sym e) (Emits-conflict s pk col (length s.cols) found)))
]

-- Each operation of the entry point does its statement.
pub Does-build_op :
    (d : SqlDialect) (s : Schema) (cond : Option Condition) (op : Op) (new_col : Option ColumnDef)
    (target : Option CStr) (t : Statement)
    → statement d s cond op new_col target ≡ some t
    → Does (build_op d s cond op new_col target) t
unfolding build_op build_update_field build_select_field
Does-build_op d s cond create new_col target t h = Does-some h (Does-plain _ _ _ (Emits-create d s))
Does-build_op d s cond alter_add (some col) target t h =
    Does-some h (Does-plain _ _ _ (Emits-alter d s col))
Does-build_op d s cond alter_add none target t h = cc
Does-build_op d s cond insert new_col target t h = Does-some h (Does-plain _ _ _ (Emits-insert d s))
Does-build_op d s cond upsert new_col target t h = Does-upsert d s s.pk_index t refl h
Does-build_op d s cond select new_col target t h = Does-some h (Does-select d s cond)
Does-build_op d s cond count new_col target t h = Does-some h (Does-count d s cond)
Does-build_op d s cond delete new_col target t h = Does-some h (Does-delete d s cond)
Does-build_op d s cond update_field new_col (some col) t h =
    Does-some h (Does-on_column s col _ _ (Does-set_field d s cond col))
Does-build_op d s cond update_field new_col none t h = cc
Does-build_op d s cond select_field new_col (some col) t h =
    Does-some h (Does-on_column s col _ _ (Does-get_field d s cond col))
Does-build_op d s cond select_field new_col none t h = cc
