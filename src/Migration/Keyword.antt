-- ===== src/Migration/Keyword.antt =====
-- `check_strict` of src/migration.c comes to an end.
use c2sql.Prelude.{
  ℕ, suc, ◌≡◌, refl, sym, ap, ◌∙◌, CStr, Bool, true, false, ◌&&◌, Option, Option-cases, none, some,
  List, [], ◌∷◌, arith, inl, inr, Bool-cases, length,
}
use c2sql.Types.{is_ok, SqlDialect, sqlite, postgres}
use c2sql.Driver.{Driver}
use c2sql.Migration.Strict.{after_last_paren}
use c2sql.Migration.Strict.Scan.{IsPlain, strict_from_lem}
use c2sql.Migration.Steps.{Outcome, done, failed, State, at, fetch_text}
use c2sql.Migration.Reads.{strict_query, table_sql, search_keyword, check_strict}
use c2sql.Migration.Table.{or_not, is_strict}
use c2sql.Migration.Answers.{TableRow, QueryLaws}
use c2sql.Migration.Layout.{Answers}
use c2sql.Migration.Ends.{Ends, Ends-done, Ends-failed, bind-Ends}

-- After the last `)` of the table's definition there are only words, spaces, tabs, line feeds and commas.
abbrev pub IsPlainSql : CStr → Type 0
IsPlainSql sql = (q : List ℕ) → after_last_paren sql ≡ some q → IsPlain q

abbrev pub PlainTable : CStr → Answers → Type 0
PlainTable table ans =
    (row : TableRow) (rows : List TableRow) (sql : CStr)
    → ans (strict_query table) none ≡ row ∷ rows
    → row.texts 0 ≡ some sql
    → IsPlainSql sql

module _ (drv : Driver) (laws : QueryLaws drv) (ans : Answers) (table : CStr)
    (plain : PlainTable table ans) where
  abbrev Kept : State drv → Type 0
  Kept t = laws.answer t.ctx ≡ ans

  -- The text that is found, if any, ends plainly.
  abbrev Found : Option CStr → State drv → Type 0
  Found o t = ((sql : CStr) → o ≡ some sql → IsPlainSql sql) × (laws.answer t.ctx ≡ ans)

  first_text :
      (stmt : drv.Stmt) (c : drv.Ctx) (rows : List TableRow) (sql : CStr)
      → laws.pending stmt c ≡ rows
      → ans (strict_query table) none ≡ rows
      → let (r, has_row, c') = drv.step stmt c in
        (is_ok r && has_row) ≡ true → (drv.column_text stmt 0 c').1 ≡ some sql → IsPlainSql sql
  first_text stmt c [] sql p a found t = absurd (ground (arith, laws.step_last stmt c, found, p))
  first_text stmt c (row ∷ rows) sql p a found t =
      let (more, left, here) = laws.step_next stmt c row rows (ground (arith, found)) p in
      let c' = (drv.step stmt c).2 in
      let text : row.texts 0 ≡ some sql =
        sym (laws.text_value stmt 0 c' ∙ ap (λ (x : TableRow). x.texts 0) here) ∙ t in
      plain row rows sql a text

  table_sql-Ends :
      (s : State drv) → laws.answer s.ctx ≡ ans → Ends (λ r t. Kept t) Found (table_sql drv table s)
  unfolding table_sql
  table_sql-Ends s e =
      let (r, stmt, c) = drv.prepare (strict_query table) s.ctx in
      let (r', has_row, c') = drv.step stmt c in
      let prepared = laws.prepare_same (strict_query table) s.ctx ∙ e in
      let stepped = laws.step_same stmt c ∙ prepared in
      let fetched = laws.text_same stmt 0 c' ∙ stepped in
      let u = (fetch_text drv stmt 0 (at s c')).1 in
      elim (Bool-cases (is_ok r)) [
        | inr bad ↦ rw (bad, table_sql) (Ends-failed r (at s c) prepared)
        | inl fine ↦ elim (Bool-cases (is_ok r' && has_row)) [
          | inr absent ↦
              rw (fine, absent, table_sql)
                (Ends-done none (at s (drv.finalize stmt c').1)
                  (λ sql f. cc, laws.finalize_same stmt c' ∙ stepped))
          | inl present ↦
              rw (fine, present, table_sql)
                (Ends-done _ (at s (drv.finalize stmt u.ctx).1) (
                  λ sql f.
                      first_text stmt c _ sql
                        (laws.preparing _ s.ctx fine
                          ∙ ap (λ (x : Answers). x (strict_query table) none) e)
                        refl present f,
                  laws.finalize_same stmt u.ctx ∙ fetched,
                ))
        ]
      ]

  search_keyword-Ends :
      (o : Option CStr) (s : State drv)
      → Found o s
      → Ends (λ r t. Kept t) (λ b t. Kept t) (search_keyword drv o s)
  unfolding search_keyword
  search_keyword-Ends none s f = Ends-done false s f.1
  search_keyword-Ends (some sql) s f = elim (Option-cases (after_last_paren sql)) [
    | inl absent ↦ rw (absent, search_keyword) (Ends-done false s f.1)
    | inr (q, tail) ↦
        let run = strict_from_lem (suc (length q)) q (f.0 sql refl q tail) (omega arith) in
        rw (tail, run, search_keyword) (Ends-done _ s f.1)
  ]

  check_strict-Ends :
      (s : State drv)
      → laws.answer s.ctx ≡ ans
      → Ends (λ r t. Kept t) (λ b t. Kept t) (check_strict drv table s)
  unfolding check_strict
  check_strict-Ends s e =
      bind-Ends Found (table_sql drv table) (search_keyword drv) s (table_sql-Ends s e)
        search_keyword-Ends

  -- An error leaves the answers as they are too.
  or_not-Ends :
      (o : Outcome Bool) (t : State drv)
      → Kept t
      → Ends (λ r t. is_ok r ≡ false) (λ b t. Kept t) (or_not drv (some (o, t)))
  or_not-Ends (done b) t e = Ends-done b t e
  or_not-Ends (failed r) t e = Ends-done false t e

  answers_after :
      {out : Option (Outcome Bool × State drv)}
      → (k : Ends (λ r t. Kept t) (λ b t. Kept t) out) → (o : Outcome Bool) → k.outcome ≡ o
      → Kept k.after
  answers_after k (done b) e = k.post b e
  answers_after k (failed r) e = k.on_failure r e

  dialect_strict-Ends :
      (d : SqlDialect) (s : State drv)
      → drv.dialect ≡ d
      → laws.answer s.ctx ≡ ans
      → Ends (λ r t. is_ok r ≡ false) (λ b t. laws.answer t.ctx ≡ ans) (is_strict drv table s)
  unfolding is_strict
  dialect_strict-Ends postgres s d e = rw (d, is_strict) (Ends-done true s e)
  dialect_strict-Ends sqlite s d e =
      let k = check_strict-Ends s e in
      rw (d, k.returns, is_strict) (or_not-Ends k.outcome k.after (answers_after k k.outcome refl))

  -- The search for the keyword ends, and changes no answer.
  pub is_strict-Ends :
      (s : State drv)
      → laws.answer s.ctx ≡ ans
      → Ends (λ r t. is_ok r ≡ false) (λ b t. laws.answer t.ctx ≡ ans) (is_strict drv table s)
  is_strict-Ends s e = dialect_strict-Ends drv.dialect s refl e
