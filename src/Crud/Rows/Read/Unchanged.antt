-- ===== src/Crud/Rows/Read/Unchanged.antt =====
-- SqlRDBRead of src/c2sql.c and the buffers of its caller.
use mathlib.Core.Path.{subst}
use mathlib.Core.Option.{some-injective}
use c2sql.Prelude.{
  ℕ, ◌≡◌, refl, sym, ◌∙◌, ap, CStr, Bool, true, false, not, ◌||◌, Option, none, some, List,
  if-intro, ◌==◌, if◌then◌else◌, malloc, patch,
}
use c2sql.Types.{
  SqlRdbResult, err_unknown_struct, err_invalid_arg, err_invalid_handle, err_no_memory,
  err_not_found, is_ok, Schema,
}
use c2sql.Condition.{Condition}
use c2sql.Driver.{Driver}
use c2sql.Handle.{Mutex, handle_valid, mutex_lock, mutex_unlock}
use c2sql.Registry.{lookup}
use c2sql.QueryBuilder.Where.{cond_needs_where}
use c2sql.QueryBuilder.Build.{select, QuerySpec, Built, qb_build}
use c2sql.TypeMapping.{Row, Reading, read_row}
use c2sql.Crud.Rows.{
  Statements, Acquired, Session, Result, Body, at, fails_with, entry, with_statement, on_built,
  on_acquired, released, release_cached_stmt, filter_spec, bind_filter,
}
use c2sql.Crud.Rows.Read.{
  buf_size, zeros, has_read, copied_map, copy_out, check_second, read_temporary, map_memory,
  read_only, read_body, read,
}

module _ (drv : Driver) (stmts : Statements drv) where
  -- A result without a row leaves the outputs of `s` as they were.
  data Untouched (s : Session drv stmts) : Option (Result drv stmts) → Type 0 where
    nothing : Untouched s none
    untouched :
        (r : SqlRdbResult) (t : Session drv stmts)
        → (has_read r ≡ false → t.out ≡ s.out)
        → Untouched s (some (r, t))

  same : (s t : Session drv stmts) (r : SqlRdbResult) → t.out ≡ s.out → Untouched s (some (r, t))
  same s t r e = untouched r t (λ _. e)

  Untouched-from :
      {s t : Session drv stmts} {o : Option (Result drv stmts)}
      → t.out ≡ s.out
      → Untouched t o
      → Untouched s o
  Untouched-from e nothing = nothing
  Untouched-from e (untouched r u k) = untouched r u (λ h. k h ∙ e)

  map-Untouched :
      (s : Session drv stmts) (r : SqlRdbResult) (bytes : Row) (o : Option (Option (List ℕ)))
      → has_read r ≡ true
      → Untouched s (elim o [
        | none ↦ none
        | some m ↦ some (r, record s { out = record s.out { row = bytes; null_map = m } })
      ])
  map-Untouched s r bytes none h = nothing
  map-Untouched s r bytes (some m) h = untouched r _ (λ e. cc (h, e))

  copy-Untouched :
      (r : SqlRdbResult) (row : Row) (tmp : Option (List ℕ)) (s : Session drv stmts)
      → has_read r ≡ true
      → Untouched s (copy_out drv stmts r row tmp s)
  unfolding copy_out
  copy-Untouched r row tmp s h = bytes (patch 0 row s.out.row)
    where
      bytes :
          (o : Option Row)
          → Untouched s (elim o [
            | none ↦ none
            | some bytes ↦ elim (copied_map drv stmts s.out.null_map tmp) [
              | none ↦ none
              | some m ↦ some (r, record s { out = record s.out { row = bytes; null_map = m } })
            ]
          ])
      bytes none = nothing
      bytes (some b) = map-Untouched s r b (copied_map drv stmts s.out.null_map tmp) h

  second-Untouched :
      (r : SqlRdbResult) (row : Row) (tmp : Option (List ℕ)) (stmt : drv.Stmt)
      (s : Session drv stmts)
      → has_read r ≡ true
      → Untouched s (check_second drv stmts r row tmp stmt s)
  unfolding check_second
  second-Untouched r row tmp stmt s h =
      let p = drv.step stmt s.handle.driver_ctx in
      if-intro (Untouched s) (not (is_ok p.0) || p.1) (λ _. same s _ _ refl)
        (λ _. Untouched-from {t = at drv stmts s p.2} refl (copy-Untouched r row tmp _ h))

  temporary-Untouched :
      (tmp : Option (List ℕ)) (schema : Schema) (stmt : drv.Stmt) (s : Session drv stmts)
      → Untouched s (read_temporary drv stmts tmp schema stmt s)
  unfolding read_temporary
  temporary-Untouched tmp schema stmt s = reading (
      read_row drv (some stmt) (some schema) (zeros (buf_size 0 schema.cols)) tmp
        s.handle.driver_ctx)
    where
      reading :
          (o : Option (SqlRdbResult × Reading drv))
          → Untouched s (elim o [
            | none ↦ none
            | some (r, rd) ↦
                (let t = at drv stmts s rd.ctx in
                  if has_read r
                  then check_second drv stmts r rd.row rd.null_map stmt t
                  else some (r, t))
          ])
      reading none = nothing
      reading (some (r, rd)) =
          if-intro (Untouched s) (has_read r)
            (λ h.
              Untouched-from {t = at drv stmts s rd.ctx} refl
                (second-Untouched r rd.row rd.null_map stmt _ h))
            (λ _. same s _ r refl)

  only-Untouched :
      (schema : Schema) (stmt : drv.Stmt) (s : Session drv stmts)
      → Untouched s (read_only drv stmts schema stmt s)
  unfolding read_only
  only-Untouched schema stmt s =
      let p = malloc s.memory in
      let q = map_memory drv stmts s.out.null_map p.1 in
      if-intro (Untouched s) p.0
        (λ _.
          Untouched-from {t = record s { memory = q.1 }} refl (temporary-Untouched _ schema stmt _))
        (λ _. same s _ err_no_memory refl)

  filter-out :
      (cond : Option Condition) (stmt : drv.Stmt) (s : Session drv stmts)
      → (bind_filter drv stmts cond stmt s).1.out ≡ s.out
  unfolding bind_filter
  filter-out cond stmt s =
      if-intro (λ (q : Result drv stmts). q.1.out ≡ s.out) (cond_needs_where cond) (λ _. refl)
        (λ _. refl)

  body-Untouched :
      (cond : Option Condition) (schema : Schema) (stmt : drv.Stmt) (s : Session drv stmts)
      → Untouched s (read_body drv stmts cond false schema stmt s)
  unfolding read_body
  body-Untouched cond schema stmt s =
      let t = (bind_filter drv stmts cond stmt s).1 in
      let p = drv.step stmt t.handle.driver_ctx in
      let e = filter-out cond stmt s in
      if-intro (Untouched s) (not (is_ok (bind_filter drv stmts cond stmt s).0)) (λ _. same s t _ e)
        (λ _.
          if-intro (Untouched s) (not (is_ok p.0)) (λ _. same s _ p.0 e)
            (λ _.
              if-intro (Untouched s) (not p.1) (λ _. same s _ err_not_found e)
                (λ _. Untouched-from {t = at drv stmts t p.2} e (only-Untouched schema stmt _))))

  release-out :
      (stmt : drv.Stmt) (owned : Bool) (s : Session drv stmts)
      → (release_cached_stmt drv stmts stmt owned s).out ≡ s.out
  unfolding release_cached_stmt
  release-out stmt true s = refl
  release-out stmt false s = refl

  released-Untouched :
      (stmt : drv.Stmt) (owned : Bool) (s : Session drv stmts) {o : Option (Result drv stmts)}
      → Untouched s o
      → Untouched s (released drv stmts stmt owned o)
  unfolding released
  released-Untouched stmt owned s nothing = nothing
  released-Untouched stmt owned s (untouched r t k) =
      untouched r _ (λ h. release-out stmt owned t ∙ k h)

  module _ (body : Body drv stmts)
      (tidy : (stmt : drv.Stmt) (s : Session drv stmts) → Untouched s (body stmt s)) where
    acquired-Untouched :
        (s : Session drv stmts) (a : Acquired drv.Stmt stmts.Cache drv.Ctx)
        → Untouched s (on_acquired drv stmts s body a)
    unfolding on_acquired
    acquired-Untouched s a =
        let t = at drv stmts (record s { cache = a.cache }) a.ctx in
        if-intro (Untouched s) (is_ok a.code)
          (λ _. Untouched-from {t = t} refl (released-Untouched a.stmt a.owned t (tidy a.stmt t)))
          (λ _. same s t a.code refl)

    text-Untouched :
        (s : Session drv stmts) (b : Built) (sql : Option CStr)
        → Untouched s (elim sql [
          | none ↦ none
          | some t ↦
              on_acquired drv stmts
                (record s { memory = b.memory })
                body
                (stmts.get_or_prepare t s.cache s.handle.driver_ctx)
        ])
    text-Untouched s b none = nothing
    text-Untouched s b (some t) =
        Untouched-from {t = record s { memory = b.memory }} refl
          (acquired-Untouched (record s { memory = b.memory }) _)

    built-Untouched :
        (s : Session drv stmts) (o : Option Built) → Untouched s (on_built drv stmts s body o)
    unfolding on_built
    built-Untouched s none = nothing
    built-Untouched s (some b) =
        if-intro (Untouched s) (is_ok b.code) (λ _. text-Untouched s b b.sql)
          (λ _. same s _ b.code refl)

  schema-Untouched :
      (spec : Schema → QuerySpec) (body : Schema → Body drv stmts) (s : Session drv stmts)
      (o : Option Schema)
      → ((schema : Schema) (stmt : drv.Stmt) (t : Session drv stmts)
          → Untouched t (body schema stmt t))
      → Untouched s (elim o [
        | none ↦ some (fails_with drv stmts s err_unknown_struct)
        | some schema ↦ on_built drv stmts s (body schema) (qb_build (some (spec schema)) s.memory)
      ])
  schema-Untouched spec body s none tidy = same s _ err_unknown_struct refl
  schema-Untouched spec body s (some schema) tidy = built-Untouched (body schema) (tidy schema) s _

  with_statement-Untouched :
      (name : CStr) (spec : Schema → QuerySpec) (body : Schema → Body drv stmts)
      (s : Session drv stmts)
      → ((schema : Schema) (stmt : drv.Stmt) (t : Session drv stmts)
          → Untouched t (body schema stmt t))
      → Untouched s (with_statement drv stmts name spec body s)
  unfolding with_statement
  with_statement-Untouched name spec body s tidy =
      schema-Untouched spec body s (lookup name s.handle.registry.entries) tidy

  unlocked-Untouched :
      (s : Session drv stmts) {o : Option (Result drv stmts)}
      → Untouched s o
      → Untouched s (elim o [
        | none ↦ none
        | some (r, t) ↦
            some (r, record t { handle = record t.handle { mutex = mutex_unlock t.handle.mutex } })
      ])
  unlocked-Untouched s nothing = nothing
  unlocked-Untouched s (untouched r t k) = untouched r _ k

  entry-Untouched :
      (f : Session drv stmts → Option (Result drv stmts)) (s : Session drv stmts)
      → ((t : Session drv stmts) → Untouched t (f t))
      → Untouched s (entry drv stmts (some f) s)
  unfolding entry
  entry-Untouched f s tidy =
      if-intro (Untouched s) (handle_valid s.handle) (λ _. locking (mutex_lock s.handle.mutex))
        (λ _. same s s err_invalid_handle refl)
    where
      locking :
          (o : Option Mutex)
          → Untouched s (elim o [
            | none ↦ none
            | some m ↦ elim (f (record s { handle = record s.handle { mutex = m } })) [
              | none ↦ none
              | some (r, t) ↦
                  some (
                    r,
                    record t { handle = record t.handle { mutex = mutex_unlock t.handle.mutex } },
                  )
            ]
          ])
      locking none = nothing
      locking (some m) = unlocked-Untouched s (
          Untouched-from {t = record s { handle = record s.handle { mutex = m } }} refl
            (tidy (record s { handle = record s.handle { mutex = m } })))

  refused-Untouched : (s : Session drv stmts) → Untouched s (entry drv stmts none s)
  unfolding entry
  refused-Untouched s =
      if-intro (Untouched s) (handle_valid s.handle) (λ _. same s s err_invalid_arg refl)
        (λ _. same s s err_invalid_handle refl)

  read-Untouched :
      (name : Option CStr) (cond : Option Condition) (multirow_default : ℕ) (out_row : Bool)
      (s : Session drv stmts)
      → (multirow_default == 1) ≡ false
      → Untouched s (read drv stmts name cond false multirow_default out_row s)
  unfolding read
  read-Untouched none cond d out_row s e = refused-Untouched s
  read-Untouched (some name) cond d false s e = refused-Untouched s
  read-Untouched (some name) cond d true s e =
      entry-Untouched
        (with_statement drv stmts name (filter_spec drv stmts select cond)
          (read_body drv stmts cond (d == 1)))
        s
        (λ t.
          with_statement-Untouched name _ (read_body drv stmts cond (d == 1)) t (λ schema stmt u.
            subst (λ b. Untouched u (read_body drv stmts cond b schema stmt u)) (sym e)
              (body-Untouched cond schema stmt u)))

  from_Untouched :
      (s t : Session drv stmts) (r : SqlRdbResult) {o : Option (Result drv stmts)}
      → Untouched s o
      → o ≡ some (r, t)
      → has_read r ≡ false
      → t.out ≡ s.out
  from_Untouched s t r nothing e h = cc
  from_Untouched s t r (untouched q u k) e h =
      sym (ap (λ p. p.1.out) (some-injective (q, u) (r, t) e))
      ∙ k (ap (λ p. has_read p.0) (some-injective (q, u) (r, t) e) ∙ h)

-- SqlRDBRead without `allow_multi`, by option or configuration: if it returns anything but OK or the
-- truncation warning (no row, several rows, any error), the caller's row and NULL bitmap are as they
-- were, whatever the driver, the cache and the allocator do.
pub read-out :
    (drv : Driver) (stmts : Statements drv) (name : Option CStr) (cond : Option Condition)
    (multirow_default : ℕ) (out_row : Bool) (s t : Session drv stmts) (r : SqlRdbResult)
    → (multirow_default == 1) ≡ false
    → read drv stmts name cond false multirow_default out_row s ≡ some (r, t)
    → has_read r ≡ false
    → t.out ≡ s.out
read-out drv stmts name cond d out_row s t r e run h =
    from_Untouched drv stmts s t r (read-Untouched drv stmts name cond d out_row s e) run h
