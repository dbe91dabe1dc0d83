-- ===== src/QueryBuilder/Build/Correct.antt =====
-- `c2sql_internal_qb_build` of src/query_builder.c against the reference statements.
use mathlib.Core.Path.{subst}
use c2sql.Prelude.{
  if◌then◌else◌, Bool, ◌∙◌, ap, ◌++◌, CStr, [], ◌+◌, ◌≤◌, ◌≡◌, refl, Option, none, some, Memory,
  Plenty, length, inl, inr, arith, Bool-cases, true, false, malloc, malloc-Plenty,
}
use c2sql.Types.{is_ok_lem, ColumnDef, SqlRdbResult, ok, err_no_memory, is_ok, Schema}
use c2sql.QueryBuilder.Buf.{IsBuf, text_limit, buf_init}
use c2sql.QueryBuilder.Emit.{BuildState}
use c2sql.QueryBuilder.Emit.Rules.{Post, emitted, starved, RefusePost, refusing, starving}
use c2sql.QueryBuilder.Statement.{Statement, statement}
use c2sql.QueryBuilder.Build.{
  create, alter_add, update_field, select_field, Op, QuerySpec, Built, refused, outcome, qb_build,
  build_checked, start_build, build_op, is_complete,
}
use c2sql.QueryBuilder.Build.Texts.{Does, Does-build_op}

-- The answers that a call may give for the statement `t`: its text and its number of placeholders,
-- its error, or `err_no_memory` if an allocation failed.
pub data Answers (t : Statement) (m : Memory) : Option Built → Type 0 where
  answered :
      (m' : Memory)
      → t.check ≡ ok
      → Answers t m
          (some (record { code = ok; sql = some t.text; bind_count = t.binds; memory = m' }))
  rejected : (m' : Memory) → is_ok t.check ≡ false → Answers t m (some (refused t.check m'))
  exhausted : (m' : Memory) → ¬ Plenty m → Answers t m (some (refused err_no_memory m'))

complete_lem :
    (spec : QuerySpec) (s : Schema) (op : Op) (new_col : Option ColumnDef) (target : Option CStr)
    (t : Statement)
    → statement spec.dialect s spec.cond op new_col target ≡ some t
    → is_complete op new_col target ≡ true
unfolding is_complete
complete_lem spec s create new_col target t h = refl
complete_lem spec s alter_add none target t h = cc
complete_lem spec s alter_add (some col) target t h = refl
complete_lem spec s update_field new_col none t h = cc
complete_lem spec s update_field new_col (some col) t h = refl
complete_lem spec s select_field new_col none t h = cc
complete_lem spec s select_field new_col (some col) t h = refl
complete_lem spec s _ new_col target t h = refl

answer_emitted :
    (t : Statement) (m : Memory) (st : BuildState) {o : Option (SqlRdbResult × BuildState)}
    → (Plenty m → Plenty st.memory)
    → st.buf.data_bytes ≡ []
    → t.check ≡ ok
    → Post st t.text t.binds o
    → Answers t m (outcome o)
answer_emitted t m st p e h (emitted st' v d b q) =
    rw (d ∙ ap (λ x. x ++ t.text) e, b) (answered st'.memory h)
answer_emitted t m st p e h (starved st' g) = exhausted st'.memory (λ x. g (p x))

answer_refused :
    (t : Statement) (m : Memory) (st : BuildState) {o : Option (SqlRdbResult × BuildState)}
    → (Plenty m → Plenty st.memory)
    → is_ok t.check ≡ false
    → RefusePost st t.check o
    → Answers t m (outcome o)
answer_refused t m st p h (refusing st') = rw (h, outcome) (rejected st'.memory h)
answer_refused t m st p h (starving st' g) = exhausted st'.memory (λ x. g (p x))

module _ (spec : QuerySpec) (s : Schema) (m : Memory) (t : Statement)
    (h : statement spec.dialect s spec.cond spec.op spec.new_col spec.target_col ≡ some t)
    (low : length t.text + 1 ≤ text_limit) where
  run_built :
      (st : BuildState)
      → (Plenty m → Plenty st.memory)
      → IsBuf st.buf
      → st.buf.data_bytes ≡ []
      → st.binds ≡ 0
      → Answers t m
          (outcome (build_op spec.dialect s spec.cond spec.op spec.new_col spec.target_col st))
  run_built st p v e b = elim (Bool-cases (is_ok t.check)) [
    | inl fine ↦
        answer_emitted t m st p e (is_ok_lem fine)
          ((does.emits (is_ok_lem fine)).at st v b (rw e (omega arith)))
    | inr bad ↦ answer_refused t m st p bad ((does.refuses bad).at st v b (rw e (omega arith)))
  ]
    where
      does : Does (build_op spec.dialect s spec.cond spec.op spec.new_col spec.target_col) t
      does = Does-build_op spec.dialect s spec.cond spec.op spec.new_col spec.target_col t h

  started :
      (r : Bool × Memory)
      → malloc m ≡ r
      → Answers t m (
          start_build spec s
            (if r.0 then some (record { data_bytes = []; len = 0; cap = 256 }) else none, r.1))
  unfolding start_build
  started (true, m') e =
      run_built _ (λ p. subst (λ r. Plenty r.1) e (malloc-Plenty m p).1)
        (record { measured = refl; fits = omega arith }) refl refl
  started (false, m') e = exhausted m' (λ p. cc (subst (λ r. r.0 ≡ true) e (malloc-Plenty m p).0))

-- For a spec with a schema and the arguments that its operation needs (for an UPSERT, a key
-- column), whose reference text is shorter than 2^63 bytes, a call returns whatever the allocator
-- does: the reference text and its number of placeholders where the reference refuses nothing, the
-- reference's error where it does, and `err_no_memory` only if an allocation failed.
pub qb_build-Answers :
    (spec : QuerySpec) (s : Schema) (m : Memory) (t : Statement)
    → spec.schema ≡ some s
    → statement spec.dialect s spec.cond spec.op spec.new_col spec.target_col ≡ some t
    → length t.text + 1 ≤ text_limit
    → Answers t m (qb_build (some spec) m)
unfolding qb_build buf_init
qb_build-Answers spec s m t e h low =
    rw (e, qb_build, build_checked, complete_lem spec s spec.op spec.new_col spec.target_col t h)
      (started spec s m t h low (malloc m) refl)
