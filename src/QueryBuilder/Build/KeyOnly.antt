-- ===== src/QueryBuilder/Build/KeyOnly.antt =====
-- UPSERT of src/query_builder.c on a table whose only column is its primary key.
use mathlib.Core.Option.{some-injective}
use mathlib.Core.List.{append_assoc, append-nil}
use c2sql.Prelude.{
  true, sym, ◌+◌, ◌≤◌, ◌≡◌, refl, ap, ◌∙◌, CStr, Option, some, [], ◌∷◌, ◌++◌, Memory, length, lit,
  get_elem?, map, arith,
}
use c2sql.Types.{ok, Schema, ColumnDef}
use c2sql.QueryBuilder.Buf.{text_limit}
use c2sql.QueryBuilder.Render.{joined, without_pk, update_text}
use c2sql.QueryBuilder.Statement.{
  Statement, plain, statement, upsert_statement, upsert_text, insert_text,
}
use c2sql.QueryBuilder.Build.{upsert, QuerySpec, Built, qb_build}
use c2sql.QueryBuilder.Build.Correct.{Answers, answered, rejected, exhausted, qb_build-Answers}

-- An answer without error is the reference text.
pub Answers-ok :
    (t : Statement) (m : Memory) (b : Built) {o : Option Built}
    → Answers t m o
    → o ≡ some b
    → b.code ≡ ok
    → b.sql ≡ some t.text
Answers-ok t m b (answered m' h) e k = sym (ap Built.sql (some-injective _ _ e))
Answers-ok t m b (rejected m' h) e k = ground arith
Answers-ok t m b (exhausted m' h) e k = ground arith

only_key :
    (s : Schema) (col : ColumnDef)
    → s.cols ≡ col ∷ []
    → joined true (map (λ c. update_text c.name) (without_pk 0 0 s.cols)) ≡ []
unfolding joined without_pk
only_key s col e = rw (e, without_pk, joined) refl

-- On a table with the one column `col`, the key, a successful UPSERT of less than 2^63 bytes has
-- an empty assignment list: its text ends in "DO UPDATE SET ".
pub upsert_key_only :
    (spec : QuerySpec) (s : Schema) (col : ColumnDef) (m : Memory) (b : Built)
    → spec.op ≡ upsert
    → spec.schema ≡ some s
    → s.cols ≡ col ∷ []
    → s.pk_index ≡ some 0
    → length (upsert_text spec.dialect s 0 col) + 1 ≤ text_limit
    → qb_build (some spec) m ≡ some b
    → b.code ≡ ok
    → (p : CStr) × (b.sql ≡ some (p ++ lit "\") DO UPDATE SET "))
upsert_key_only spec s col m b eo es ec ek low run fine = (
  insert_text spec.dialect s ++ (lit " ON CONFLICT(\"" ++ col.name),
  Answers-ok t m b (qb_build-Answers spec s m t es is_statement low) run fine ∙ ap some ending,
)
  where
    t : Statement
    t = plain (upsert_text spec.dialect s 0 col) (length s.cols)

    is_statement : statement spec.dialect s spec.cond spec.op spec.new_col spec.target_col ≡ some t
    is_statement =
        rw (eo, ek, statement, upsert_statement)
          (rw (ap (λ cs. get_elem? cs 0) ec, upsert_statement) refl)

    ending :
        upsert_text spec.dialect s 0 col
        ≡ (insert_text spec.dialect s ++ (lit " ON CONFLICT(\"" ++ col.name))
          ++ lit "\") DO UPDATE SET "
    ending = rw (only_key s col ec, append-nil) (simp append_assoc)
