-- ===== src/QueryBuilder/Where/Texts.antt =====
-- The WHERE clause of src/query_builder.c against the reference text and the reference check.
use native.Mathlib.Nat.{add-zero, add_assoc}
use c2sql.Prelude.{ℕ, ◌+◌, ◌≡◌, CStr, false, Option, none, some, if◌then◌else◌, ◌++◌, lit}
use c2sql.Types.{SqlDialect, ok, err_unknown_column, is_ok, Schema}
use c2sql.Condition.{Condition, leaf, and_node, or_node, match_all}
use c2sql.QueryBuilder.Emit.Rules.{
  Emits, Emits-return, Emits-placeholder, Refuses, Refuses-return, ◌▹◌, put,
}
use c2sql.QueryBuilder.Render.{cond_leaves, cond_text, where_text, where_leaves, where_check}
use c2sql.QueryBuilder.Render.{cond_columns, has_columns}
use c2sql.QueryBuilder.Render.Pieces.{
  op_to_sql_str-operator_text, validate_cond_columns-has_columns,
}
use c2sql.QueryBuilder.Where.{append_cond, append_where, where_clause, cond_needs_where}

pub Emits-cond :
    (d : SqlDialect) (cond : Condition) (n : ℕ)
    → Emits (append_cond d cond) n (cond_text d n cond) (n + cond_leaves cond)
unfolding append_cond cond_text cond_leaves
Emits-cond d match_all n = rw (add-zero n) (Emits-return n)
Emits-cond d (leaf col op v) n =
    rw (← op_to_sql_str-operator_text op) (put ▹ put ▹ put ▹ put ▹ put ▹ Emits-placeholder d n)
Emits-cond d (and_node l r) n =
    rw (← add_assoc) (put ▹ Emits-cond d l n ▹ put ▹ Emits-cond d r (n + cond_leaves l) ▹ put)
Emits-cond d (or_node l r) n =
    rw (← add_assoc) (put ▹ Emits-cond d l n ▹ put ▹ Emits-cond d r (n + cond_leaves l) ▹ put)

clause :
    (d : SqlDialect) (s : Schema) (cond : Condition) (n : ℕ)
    → (if has_columns s.cols (cond_columns cond) then ok else err_unknown_column) ≡ ok
    → Emits (where_clause d s cond) n (lit " WHERE " ++ cond_text d n cond) (n + cond_leaves cond)
unfolding where_clause
clause d s cond n h =
    rw (validate_cond_columns-has_columns cond s.cols, h)
      (Emits-return n ▹ put ▹ Emits-cond d cond n)

pub Emits-where :
    (d : SqlDialect) (s : Schema) (cond : Option Condition) (n : ℕ)
    → where_check s cond ≡ ok
    → Emits (append_where d s cond) n (where_text d n cond) (n + where_leaves cond)
unfolding append_where cond_needs_where where_text where_leaves where_check cond_leaves
Emits-where d s none n h = rw (add-zero n) (Emits-return n)
Emits-where d s (some match_all) n h = rw (add-zero n) (Emits-return n)
Emits-where d s (some (leaf col op v)) n h = clause d s (leaf col op v) n h
Emits-where d s (some (and_node l r)) n h = clause d s (and_node l r) n h
Emits-where d s (some (or_node l r)) n h = clause d s (or_node l r) n h

refusal :
    (d : SqlDialect) (s : Schema) (cond : Condition) (n : ℕ) (t : CStr)
    → is_ok (if has_columns s.cols (cond_columns cond) then ok else err_unknown_column) ≡ false
    → Refuses
        (where_clause d s cond)
        n
        t
        (if has_columns s.cols (cond_columns cond) then ok else err_unknown_column)
unfolding where_clause
refusal d s cond n t h =
    rw (validate_cond_columns-has_columns cond s.cols) (Refuses-return _ n t _ h)

pub Refuses-where :
    (d : SqlDialect) (s : Schema) (cond : Option Condition) (n : ℕ)
    → is_ok (where_check s cond) ≡ false
    → Refuses (append_where d s cond) n (where_text d n cond) (where_check s cond)
unfolding append_where cond_needs_where where_check
Refuses-where d s none n h = cc
Refuses-where d s (some match_all) n h = cc
Refuses-where d s (some (leaf col op v)) n h = refusal d s (leaf col op v) n _ h
Refuses-where d s (some (and_node l r)) n h = refusal d s (and_node l r) n _ h
Refuses-where d s (some (or_node l r)) n h = refusal d s (or_node l r) n _ h
