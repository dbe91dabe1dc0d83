-- ===== src/Migration/Rows.antt =====
-- The loop over the rows of a query in src/migration.c.
use mathlib.Core.Path.{subst}
use c2sql.Prelude.{
  ℕ, zero, suc, ◌<◌, ◌≡◌, refl, ap, ◌∙◌, CStr, Bool, true, not, ◌||◌, Option, Option-cases, some,
  List, [], ◌∷◌, arith, inl, inr, Bool-cases, length,
}
use c2sql.Types.{SqlRdbResult, is_ok, err_no_memory}
use c2sql.Driver.{Driver}
use c2sql.Migration.Steps.{done, State, at, for_rows, collected, query}
use c2sql.Migration.Answers.{
  TableRow, QueryLaws, Same, Same-trans, IsRead, give-IsRead, failed-IsRead,
}

-- The rows put together by `next`.
abbrev pub gathered : {A : Type 0} → (TableRow → A → A) → A → List TableRow → A
gathered next a [] = a
gathered next a (row ∷ rows) = gathered next (next row a) rows

module _ (drv : Driver) (laws : QueryLaws drv) where
  at_step : (stmt : drv.Stmt) (s : State drv) → Same drv laws s (at s (drv.step stmt s.ctx).2)
  at_step stmt s = record { answers = laws.step_same stmt s.ctx; error = refl }

module _ (drv : Driver) (laws : QueryLaws drv) {A : Type 0} where
  -- What is done for a row reads it alone.
  pub record IsRow (row : drv.Stmt → A → State drv → Bool × A × State drv) (next : TableRow → A → A)
      : Type 0 where
    pub value :
        (stmt : drv.Stmt) (a : A) (s : State drv)
        → (row stmt a s).0 ≡ true
        → (row stmt a s).1 ≡ next (laws.current stmt s.ctx) a
    pub rest :
        (stmt : drv.Stmt) (a : A) (s : State drv)
        → laws.pending stmt (row stmt a s).2.ctx ≡ laws.pending stmt s.ctx
    pub same : (stmt : drv.Stmt) (a : A) (s : State drv) → Same drv laws s (row stmt a s).2

  -- The loop over the rows `rows`.
  record IsLoop (s : State drv) (expected : A) (out : Option (SqlRdbResult × A × State drv))
      : Type 0 where
    code : SqlRdbResult
    found : A
    after : State drv
    returns : out ≡ some (code, found, after)
    value : is_ok code ≡ true → found ≡ expected
    same : Same drv laws s after

  module _ (row : drv.Stmt → A → State drv → Bool × A × State drv) (next : TableRow → A → A)
      (i : IsRow row next) where
    -- A step that fails or finds no row.
    stopped-IsLoop :
        (fuel : ℕ) (stmt : drv.Stmt) (a : A) (s : State drv) (expected : A)
        → (not (is_ok (drv.step stmt s.ctx).0) || not (drv.step stmt s.ctx).1) ≡ true
        → (is_ok (drv.step stmt s.ctx).0 ≡ true → a ≡ expected)
        → IsLoop s expected (for_rows drv row (suc fuel) stmt a s)
    unfolding for_rows
    stopped-IsLoop fuel stmt a s expected stops value =
        rw (stops, for_rows)
          record {
            code = (drv.step stmt s.ctx).0;
            found = a;
            after = at s (drv.step stmt s.ctx).2;
            returns = refl;
            value = value;
            same = at_step drv laws stmt s;
          }

    for_rows-IsLoop :
        (fuel : ℕ) (stmt : drv.Stmt) (a : A) (s : State drv) (rows : List TableRow)
        → laws.pending stmt s.ctx ≡ rows
        → length rows < fuel
        → IsLoop s (gathered next a rows) (for_rows drv row fuel stmt a s)
    unfolding for_rows
    for_rows-IsLoop zero stmt a s rows e h = absurd (omega (arith, h))
    for_rows-IsLoop (suc fuel) stmt a s [] e h =
        stopped-IsLoop fuel stmt a s a (ground (arith, laws.step_last stmt s.ctx)) (λ fine. refl)
    for_rows-IsLoop (suc fuel) stmt a s (x ∷ rows) e h =
        elim (Bool-cases (is_ok (drv.step stmt s.ctx).0)) [
          | inr bad ↦ stopped-IsLoop fuel stmt a s _ (ground (arith, bad)) (λ fine. cc)
          | inl fine ↦
              let u = at s (drv.step stmt s.ctx).2 in
              let (more, left, here) = laws.step_next stmt s.ctx x rows fine e in
              let t = (row stmt a u).2 in
              let known = Same-trans drv laws s u t (at_step drv laws stmt s) (i.same stmt a u) in
              elim (Bool-cases (row stmt a u).0) [
                | inl went ↦
                    let l =
                      for_rows-IsLoop fuel stmt (row stmt a u).1 t rows (i.rest stmt a u ∙ left)
                        (omega (arith, h)) in
                    let b : (row stmt a u).1 ≡ next x a =
                      i.value stmt a u went ∙ ap (λ y. next y a) here in
                    rw (fine, more, went, for_rows)
                      record {
                        code = l.code;
                        found = l.found;
                        after = l.after;
                        returns = l.returns;
                        value = λ g. l.value g ∙ ap (λ y. gathered next y rows) b;
                        same = Same-trans drv laws s t l.after known l.same;
                      }
                | inr not_gone ↦
                    rw (fine, more, not_gone, for_rows)
                      record {
                        code = err_no_memory;
                        found = (row stmt a u).1;
                        after = t;
                        returns = refl;
                        value = λ g. cc;
                        same = known;
                      }
              ]
        ]

    collected-IsRead :
        (fuel : ℕ) (stmt : drv.Stmt) (a : A) (s t : State drv) (rows : List TableRow)
        → Same drv laws s t
        → laws.pending stmt t.ctx ≡ rows
        → length rows < fuel
        → IsRead drv laws s (gathered next a rows) (collected drv row fuel stmt a t)
    unfolding collected
    collected-IsRead fuel stmt a s t rows before e h =
        let l = for_rows-IsLoop fuel stmt a t rows e h in
        let u = at l.after (drv.finalize stmt l.after.ctx).1 in
        let closed : Same drv laws l.after u = record {
          answers = laws.finalize_same stmt l.after.ctx;
          error = refl;
        } in
        let same =
          Same-trans drv laws s t u before (Same-trans drv laws t l.after u l.same closed) in
        elim (Bool-cases (is_ok l.code)) [
          | inl fine ↦
              rw (l.returns, fine, collected)
                (subst (λ b. IsRead drv laws s b (some (done l.found, u))) (l.value fine)
                  (give-IsRead drv laws s u l.found same))
          | inr bad ↦ rw (l.returns, bad, collected) (failed-IsRead drv laws s u _ l.code bad same)
        ]

    -- A query gathers the rows of its answer, or fails.
    pub query-IsRead :
        (fuel : ℕ) (sql : CStr) (parameter : Option CStr) (a : A) (s : State drv)
        → length (laws.answer s.ctx sql parameter) < fuel
        → IsRead drv laws s
            (gathered next a (laws.answer s.ctx sql parameter))
            (query drv row fuel sql parameter a s)
    unfolding query
    query-IsRead fuel sql parameter a s h =
        let (r, stmt, c) = drv.prepare sql s.ctx in
        let prepared : Same drv laws s (at s c) = record {
          answers = laws.prepare_same sql s.ctx;
          error = refl;
        } in
        elim (Bool-cases (is_ok r)) [
          | inr bad ↦ rw (bad, query) (failed-IsRead drv laws s (at s c) _ r bad prepared)
          | inl fine ↦ elim (Option-cases parameter) [
            | inl without ↦
                rw (fine, without, query)
                  (collected-IsRead fuel stmt a s (at s c) _ prepared
                    (laws.preparing sql s.ctx fine) (rw without at h))
            | inr (p, with_p) ↦
                let (r', c') = drv.bind_text stmt 1 p c in
                let bound : Same drv laws s (at s c') = record {
                  answers = laws.bind_same stmt 1 p c ∙ laws.prepare_same sql s.ctx;
                  error = refl;
                } in
                elim (Bool-cases (is_ok r')) [
                  | inl good ↦
                      rw (fine, with_p, good, query)
                        (collected-IsRead fuel stmt a s (at s c') _ bound
                          (laws.binding sql p s.ctx fine good) (rw with_p at h))
                  | inr bad ↦
                      rw (fine, with_p, bad, query)
                        (failed-IsRead drv laws s (at s (drv.finalize stmt c').1) _ r' bad record {
                          answers = laws.finalize_same stmt c' ∙ bound.answers;
                          error = refl;
                        })
                ]
          ]
        ]
