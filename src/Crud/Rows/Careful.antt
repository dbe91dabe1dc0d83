-- ===== src/Crud/Rows/Careful.antt =====
-- The bodies of the row functions of src/c2sql.c and the one statement that each of them uses.
use mathlib.Core.Path.{subst}
use c2sql.Prelude.{
  ℕ, zero, suc, ◌*◌, ◌≡◌, refl, sym, not, ◌&&◌, Option, none, some, List, if-intro, ◌==◌,
  if◌then◌else◌, drop,
}
use c2sql.Types.{SqlRdbResult, ok, is_ok, Schema}
use c2sql.Condition.{Value, Condition, leaf, and_node, or_node, match_all}
use c2sql.Driver.{Driver}
use c2sql.QueryBuilder.Where.{cond_needs_where}
use c2sql.TypeMapping.{Row, bind_row}
use c2sql.TypeMapping.Closed.{bind_row-closed}
use c2sql.Crud.{bind_value, bind_cond, bind_cond_values}
use c2sql.Crud.Conditions.{value_cell, value-send}
use c2sql.Crud.Rows.{
  Statements, Session, Result, at, step_row, noted_step, write_row, step_and_reset, write_rows,
  end_implicit, write_all, bind_filter, delete_rows, fetch_count, count_rows, map_at,
}
use c2sql.Crud.Rows.Kept.{RunLaws, Kept, Keeps, undefined, keeps, Kept-at, Kept-trans, Keeps-trans}

module _ (drv : Driver) (stmts : Statements drv) (laws : RunLaws drv stmts) where
  module _ (stmt : drv.Stmt) where
    abbrev pub Mine : Session drv stmts → Option (Result drv stmts) → Type 0
    Mine s o = Keeps drv stmts laws (laws.Only stmt) s o

    done_at :
        (s : Session drv stmts) (r : SqlRdbResult) (c : drv.Ctx)
        → laws.Only stmt c
        → Mine s (some (r, at drv stmts s c))
    done_at s r c p = keeps r _ (Kept-at drv stmts laws s c p)

    noted-Mine :
        (s : Session drv stmts)
        → laws.Only stmt s.handle.driver_ctx
        → Mine s (some (noted_step drv stmts stmt s))
    unfolding noted_step step_row
    noted-Mine s p =
        if-intro (λ (q : Result drv stmts). Mine s (some q))
          (is_ok (drv.step stmt s.handle.driver_ctx).0)
          (λ _. done_at s _ _ (laws.stepping stmt s.handle.driver_ctx p))
          (λ _. keeps _ _ (record {
            holds = laws.stepping stmt s.handle.driver_ctx p;
            mutex = refl;
            magic = refl;
          }))

    -- A row that is bound, and what follows.
    bound_row :
        (schema : Schema) (row : Row) (m : Option (List ℕ)) (s : Session drv stmts)
        (next : SqlRdbResult × drv.Ctx → Option (Result drv stmts))
        → laws.Only stmt s.handle.driver_ctx
        → ((r : SqlRdbResult) (c : drv.Ctx) → laws.Only stmt c → Mine s (next (r, c)))
        → (o : Option (SqlRdbResult × drv.Ctx))
        → bind_row drv (some stmt) (some schema) (some row) m s.handle.driver_ctx ≡ o
        → Mine s (elim o [ none ↦ none | some p ↦ next p ])
    bound_row schema row m s next p k none e = undefined
    bound_row schema row m s next p k (some (r, c)) e = k r c (
        bind_row-closed drv stmt (laws.Only stmt) (laws.sending stmt) (laws.nulling stmt) schema row
          m s.handle.driver_ctx c r p e)

    pub write_row-Mine :
        (row : Row) (m : Option (List ℕ)) (schema : Schema) (s : Session drv stmts)
        → laws.Only stmt s.handle.driver_ctx
        → Mine s (write_row drv stmts row m schema stmt s)
    unfolding write_row
    write_row-Mine row m schema s p =
        bound_row schema row m s
          (λ (r, c). some (
            if is_ok r
            then noted_step drv stmts stmt (at drv stmts s c)
            else (r, at drv stmts s c)))
          p
          (λ r c q.
            if-intro (λ (x : Result drv stmts). Mine s (some x)) (is_ok r)
              (λ _.
                Keeps-trans drv stmts laws (Kept-at drv stmts laws {P = laws.Only stmt} s c q)
                  (noted-Mine (at drv stmts s c) q))
              (λ _. done_at s r c q))
          _ refl

    reset-Only : (c : drv.Ctx) → laws.Only stmt c → laws.Only stmt (drv.reset stmt c).1
    reset-Only c p = laws.idle_only stmt _ (laws.resetting stmt c p)

    stepped-Only :
        (s : Session drv stmts)
        → laws.Only stmt s.handle.driver_ctx
        → Kept drv stmts laws (laws.Only stmt) s (step_and_reset drv stmts stmt s).1
    unfolding step_and_reset step_row
    stepped-Only s p =
        Kept-at drv stmts laws s _ (reset-Only _ (laws.stepping stmt s.handle.driver_ctx p))

    write_rows-Mine :
        (left i : ℕ) (rows : Row) (stride bytes : ℕ) (maps : Option (List ℕ)) (schema : Schema)
        (s : Session drv stmts)
        → laws.Only stmt s.handle.driver_ctx
        → Mine s (write_rows drv stmts left i rows stride bytes maps schema stmt s)
    unfolding write_rows
    write_rows-Mine zero i rows stride bytes maps schema s p =
        keeps ok s (record { holds = p; mutex = refl; magic = refl })
    write_rows-Mine (suc left) i rows stride bytes maps schema s p =
        bound_row schema (drop (i * stride) rows) (map_at drv stmts i bytes maps) s
          (λ (r, c).
            let (q, t) = step_and_reset drv stmts stmt (at drv stmts s c) in
            let rest = write_rows drv stmts left (suc i) rows stride bytes maps schema stmt t in
            if not (is_ok r)
            then some (r, at drv stmts s c)
            else if is_ok q
            then rest
            else some (q, t))
          p
          (λ r c q.
            let k = stepped-Only (at drv stmts s c) q in
            if-intro (Mine s) (not (is_ok r)) (λ _. done_at s r c q)
              (λ _. Keeps-trans drv stmts laws (Kept-at drv stmts laws {P = laws.Only stmt} s c q) (
                if-intro (Mine (at drv stmts s c))
                  (is_ok (step_and_reset drv stmts stmt (at drv stmts s c)).0)
                  (λ _.
                    Keeps-trans drv stmts laws k
                      (write_rows-Mine left (suc i) rows stride bytes maps schema _ k.holds))
                  (λ _. keeps _ _ k))))
          _ refl

    end-Mine :
        (s : Session drv stmts) {o : Option (Result drv stmts)}
        → Mine s o
        → Mine s (end_implicit drv stmts o)
    unfolding end_implicit
    end-Mine s undefined = undefined
    end-Mine s (keeps r t k) = keeps r _ (
        Kept-trans drv stmts laws k (
          Kept-at drv stmts laws t _ (
            if-intro (laws.Only stmt) (is_ok r)
              (λ _. laws.committing stmt t.handle.driver_ctx k.holds)
              (λ _. laws.rolling_back stmt t.handle.driver_ctx k.holds))))

    pub write_all-Mine :
        (n : ℕ) (rows : Row) (stride : ℕ) (maps : Option (List ℕ)) (schema : Schema)
        (s : Session drv stmts)
        → laws.Only stmt s.handle.driver_ctx
        → Mine s (write_all drv stmts n rows stride maps schema stmt s)
    unfolding write_all
    write_all-Mine n rows stride maps schema s p =
        let begun = laws.beginning stmt s.handle.driver_ctx p in
        if-intro (Mine s) (s.handle.txn.depth == 0)
          (λ _.
            if-intro (Mine s) (is_ok (drv.begin s.handle.driver_ctx).0)
              (λ _. end-Mine s (
                Keeps-trans drv stmts laws (Kept-at drv stmts laws {P = laws.Only stmt} s _ begun)
                  (write_rows-Mine n 0 rows stride _ maps schema (at drv stmts s _) begun)))
              (λ _. done_at s _ _ begun))
          (λ _. write_rows-Mine n 0 rows stride _ maps schema s p)

    value-Only :
        (i : ℕ) (v : Value) (c : drv.Ctx)
        → laws.Only stmt c
        → laws.Only stmt (bind_value drv stmt i v c).1
    value-Only i v c p =
        subst (λ q. laws.Only stmt q.1) (sym (value-send drv stmt i v c))
          (laws.sending stmt i (value_cell v) c p)

    cond-Only :
        (cond : Condition) (i : ℕ) (c : drv.Ctx)
        → laws.Only stmt c
        → laws.Only stmt (bind_cond drv stmt cond i c).2
    unfolding bind_cond
    cond-Only match_all i c p = p
    cond-Only (leaf col op v) i c p = value-Only i v c p
    cond-Only (and_node l r) i c p =
        let left = bind_cond drv stmt l i c in
        if-intro (λ (q : SqlRdbResult × ℕ × drv.Ctx). laws.Only stmt q.2) (is_ok left.0)
          (λ _. cond-Only r left.1 left.2 (cond-Only l i c p)) (λ _. cond-Only l i c p)
    cond-Only (or_node l r) i c p =
        let left = bind_cond drv stmt l i c in
        if-intro (λ (q : SqlRdbResult × ℕ × drv.Ctx). laws.Only stmt q.2) (is_ok left.0)
          (λ _. cond-Only r left.1 left.2 (cond-Only l i c p)) (λ _. cond-Only l i c p)

    values-Only :
        (cond : Option Condition) (i : ℕ) (c : drv.Ctx)
        → laws.Only stmt c
        → laws.Only stmt (bind_cond_values drv stmt cond i c).2
    unfolding bind_cond_values
    values-Only none i c p = p
    values-Only (some cond) i c p = cond-Only cond i c p

    filter-Kept :
        (cond : Option Condition) (s : Session drv stmts)
        → laws.Only stmt s.handle.driver_ctx
        → Kept drv stmts laws (laws.Only stmt) s (bind_filter drv stmts cond stmt s).1
    unfolding bind_filter
    filter-Kept cond s p =
        if-intro (λ (q : Result drv stmts). Kept drv stmts laws (laws.Only stmt) s q.1)
          (cond_needs_where cond)
          (λ _. Kept-at drv stmts laws s _ (values-Only cond 1 s.handle.driver_ctx p))
          (λ _. record { holds = p; mutex = refl; magic = refl })

    pub delete_rows-Mine :
        (cond : Option Condition) (schema : Schema) (s : Session drv stmts)
        → laws.Only stmt s.handle.driver_ctx
        → Mine s (delete_rows drv stmts cond schema stmt s)
    unfolding delete_rows step_row
    delete_rows-Mine cond schema s p =
        let k = filter-Kept cond s p in
        if-intro (λ (q : Result drv stmts). Mine s (some q))
          (is_ok (bind_filter drv stmts cond stmt s).0)
          (λ _. keeps _ _ (
            Kept-trans drv stmts laws k
              (Kept-at drv stmts laws _ _ (laws.stepping stmt _ k.holds))))
          (λ _. keeps _ _ k)

    fetch-Kept :
        (s : Session drv stmts)
        → laws.Only stmt s.handle.driver_ctx
        → Kept drv stmts laws (laws.Only stmt) s (fetch_count drv stmts stmt s).1
    unfolding fetch_count
    fetch-Kept s p =
        let q = laws.fetching stmt 0 s.handle.driver_ctx p in
        if-intro (Kept drv stmts laws (laws.Only stmt) s)
          (is_ok (drv.column_int64 stmt 0 s.handle.driver_ctx).0)
          (λ _. record { holds = q; mutex = refl; magic = refl })
          (λ _. record { holds = q; mutex = refl; magic = refl })

    pub count_rows-Mine :
        (cond : Option Condition) (schema : Schema) (s : Session drv stmts)
        → laws.Only stmt s.handle.driver_ctx
        → Mine s (count_rows drv stmts cond schema stmt s)
    unfolding count_rows
    count_rows-Mine cond schema s p =
        let k = filter-Kept cond s p in
        let t = (bind_filter drv stmts cond stmt s).1 in
        let stepped =
          Kept-trans drv stmts laws k (Kept-at drv stmts laws t _ (laws.stepping stmt _ k.holds)) in
        if-intro (λ (q : Result drv stmts). Mine s (some q))
          (not (is_ok (bind_filter drv stmts cond stmt s).0)) (λ _. keeps _ _ k)
          (λ _.
            if-intro (λ (q : Result drv stmts). Mine s (some q))
              (is_ok (drv.step stmt t.handle.driver_ctx).0 && (drv.step stmt t.handle.driver_ctx).1)
              (λ _. keeps _ _ (Kept-trans drv stmts laws stepped (fetch-Kept _ stepped.holds)))
              (λ _. keeps _ _ stepped))
