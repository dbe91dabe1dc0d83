-- ===== src/Crud/Rows/Kept.antt =====
-- Open statements and the lock across the frame that the row functions of src/c2sql.c share.
use c2sql.Prelude.{ℕ, ◌≡◌, refl, ◌∙◌, CStr, Bool, true, false, Option, none, some, if-intro}
use c2sql.Types.{SqlRdbResult, err_unknown_struct, err_invalid_arg, is_ok, Schema}
use c2sql.Driver.{Driver}
use c2sql.Handle.Frame.{Ready, lock, unlock, unlock-Ready, mutex_lock-locked}
use c2sql.Registry.{lookup}
use c2sql.QueryBuilder.Build.{QuerySpec, Built, qb_build}
use c2sql.TypeMapping.{Cell, send}
use c2sql.Crud.Rows.{
  Statements, Acquired, Session, Result, Body, at, fails_with, release_cached_stmt, released,
  on_acquired, on_built, with_statement, entry,
}

-- What the database and the cache document of open statements. `Idle c`: no statement is in the
-- middle of a run; `Only s c`: none but perhaps `s`. A reset or a finalize ends a run, and whatever
-- is done with `s` touches no other statement.
pub record RunLaws (drv : Driver) (stmts : Statements drv) : Type 1 where
  pub Idle : drv.Ctx → Type 0
  pub Only : drv.Stmt → drv.Ctx → Type 0
  pub idle_only : (s : drv.Stmt) (c : drv.Ctx) → Idle c → Only s c
  pub acquiring :
      (sql : CStr) (k : stmts.Cache) (c : drv.Ctx)
      → Idle c
      → Idle (stmts.get_or_prepare sql k c).ctx
  pub sending :
      (s : drv.Stmt) (i : ℕ) (v : Cell) (c : drv.Ctx) → Only s c → Only s (send drv s i v c).1
  pub nulling : (s : drv.Stmt) (i : ℕ) (c : drv.Ctx) → Only s c → Only s (drv.bind_null s i c).1
  pub stepping : (s : drv.Stmt) (c : drv.Ctx) → Only s c → Only s (drv.step s c).2
  pub fetching : (s : drv.Stmt) (i : ℕ) (c : drv.Ctx) → Only s c → Only s (drv.column_int64 s i c).2
  pub resetting : (s : drv.Stmt) (c : drv.Ctx) → Only s c → Idle (drv.reset s c).1
  pub finalizing : (s : drv.Stmt) (c : drv.Ctx) → Only s c → Idle (drv.finalize s c).1
  pub beginning : (s : drv.Stmt) (c : drv.Ctx) → Only s c → Only s (drv.begin c).1
  pub committing : (s : drv.Stmt) (c : drv.Ctx) → Only s c → Only s (drv.commit c).1
  pub rolling_back : (s : drv.Stmt) (c : drv.Ctx) → Only s c → Only s (drv.rollback c).1

module _ (drv : Driver) (stmts : Statements drv) (laws : RunLaws drv stmts) where
  -- A result of a body: the connection satisfies `P`, and mark and mutex are those of `s`.
  pub record Kept (P : drv.Ctx → Type 0) (s t : Session drv stmts) : Type 0 where
    pub holds : P t.handle.driver_ctx
    pub mutex : t.handle.mutex ≡ s.handle.mutex
    pub magic : t.handle.magic ≡ s.handle.magic

  pub data Keeps (P : drv.Ctx → Type 0) (s : Session drv stmts)
      : Option (Result drv stmts) → Type 0 where
    undefined : Keeps P s none
    keeps : (r : SqlRdbResult) (t : Session drv stmts) → Kept P s t → Keeps P s (some (r, t))

  pub Kept-at :
      {P : drv.Ctx → Type 0} (s : Session drv stmts) (c : drv.Ctx)
      → P c
      → Kept P s (at drv stmts s c)
  Kept-at s c p = record { holds = p; mutex = refl; magic = refl }

  pub Kept-trans :
      {P Q : drv.Ctx → Type 0} {s t u : Session drv stmts} → Kept P s t → Kept Q t u → Kept Q s u
  Kept-trans a b = record { holds = b.holds; mutex = b.mutex ∙ a.mutex; magic = b.magic ∙ a.magic }

  pub Keeps-trans :
      {P Q : drv.Ctx → Type 0} {s t : Session drv stmts} {o : Option (Result drv stmts)}
      → Kept P s t
      → Keeps Q t o
      → Keeps Q s o
  Keeps-trans a undefined = undefined
  Keeps-trans a (keeps r t b) = keeps r t (Kept-trans a b)

  release-Kept :
      (stmt : drv.Stmt) (owned : Bool) (s t : Session drv stmts)
      → Kept (laws.Only stmt) s t
      → Kept laws.Idle s (release_cached_stmt drv stmts stmt owned t)
  unfolding release_cached_stmt
  release-Kept stmt true s t k =
      Kept-trans k (Kept-at t _ (laws.finalizing stmt t.handle.driver_ctx k.holds))
  release-Kept stmt false s t k =
      Kept-trans k (Kept-at t _ (laws.resetting stmt t.handle.driver_ctx k.holds))

  released-Keeps :
      (stmt : drv.Stmt) (owned : Bool) (s : Session drv stmts) {o : Option (Result drv stmts)}
      → Keeps (laws.Only stmt) s o
      → Keeps laws.Idle s (released drv stmts stmt owned o)
  unfolding released
  released-Keeps stmt owned s undefined = undefined
  released-Keeps stmt owned s (keeps r t k) = keeps r _ (release-Kept stmt owned s t k)

  -- A body that only touches its own statement.
  abbrev pub Careful : Body drv stmts → Type 0
  Careful body =
      (stmt : drv.Stmt) (s : Session drv stmts)
      → laws.Only stmt s.handle.driver_ctx
      → Keeps (laws.Only stmt) s (body stmt s)

  acquired-Keeps :
      (s : Session drv stmts) (body : Body drv stmts) (a : Acquired drv.Stmt stmts.Cache drv.Ctx)
      → Careful body
      → laws.Idle a.ctx
      → Keeps laws.Idle s (on_acquired drv stmts s body a)
  unfolding on_acquired
  acquired-Keeps s body a careful i =
      if-intro (Keeps laws.Idle s) (is_ok a.code)
        (λ _.
          Keeps-trans {P = laws.Idle} (record { holds = i; mutex = refl; magic = refl })
            (released-Keeps a.stmt a.owned _ (careful a.stmt _ (laws.idle_only a.stmt a.ctx i))))
        (λ _. keeps a.code _ (record { holds = i; mutex = refl; magic = refl }))

  text-Keeps :
      (s : Session drv stmts) (b : Built) (body : Body drv stmts) (sql : Option CStr)
      → Careful body
      → laws.Idle s.handle.driver_ctx
      → Keeps laws.Idle s (elim sql [
        | none ↦ none
        | some t ↦
            on_acquired drv stmts
              (record s { memory = b.memory })
              body
              (stmts.get_or_prepare t s.cache s.handle.driver_ctx)
      ])
  text-Keeps s b body none careful i = undefined
  text-Keeps s b body (some t) careful i =
      Keeps-trans {P = laws.Idle} (record { holds = i; mutex = refl; magic = refl })
        (acquired-Keeps (record s { memory = b.memory }) body _ careful
          (laws.acquiring t s.cache _ i))

  built-Keeps :
      (s : Session drv stmts) (body : Body drv stmts) (o : Option Built)
      → Careful body
      → laws.Idle s.handle.driver_ctx
      → Keeps laws.Idle s (on_built drv stmts s body o)
  unfolding on_built
  built-Keeps s body none careful i = undefined
  built-Keeps s body (some b) careful i =
      if-intro (Keeps laws.Idle s) (is_ok b.code) (λ _. text-Keeps s b body b.sql careful i)
        (λ _. keeps b.code _ (record { holds = i; mutex = refl; magic = refl }))

  schema-Keeps :
      (s : Session drv stmts) (spec : Schema → QuerySpec) (body : Schema → Body drv stmts)
      (o : Option Schema)
      → ((schema : Schema) → Careful (body schema))
      → laws.Idle s.handle.driver_ctx
      → Keeps laws.Idle s (elim o [
        | none ↦ some (fails_with drv stmts s err_unknown_struct)
        | some schema ↦ on_built drv stmts s (body schema) (qb_build (some (spec schema)) s.memory)
      ])
  schema-Keeps s spec body none careful i =
      keeps _ _ (record { holds = i; mutex = refl; magic = refl })
  schema-Keeps s spec body (some schema) careful i =
      built-Keeps s (body schema) _ (careful schema) i

  pub with_statement-Keeps :
      (name : CStr) (spec : Schema → QuerySpec) (body : Schema → Body drv stmts)
      (s : Session drv stmts)
      → ((schema : Schema) → Careful (body schema))
      → laws.Idle s.handle.driver_ctx
      → Keeps laws.Idle s (with_statement drv stmts name spec body s)
  unfolding with_statement
  with_statement-Keeps name spec body s careful i =
      schema-Keeps s spec body (lookup name s.handle.registry.entries) careful i

  -- What a call leaves: an open handle whose lock is free, and no statement in the middle of a run.
  pub data Quiet : Option (Result drv stmts) → Type 0 where
    no_outcome : Quiet none
    quiet :
        (r : SqlRdbResult) (t : Session drv stmts)
        → Ready t.handle
        → laws.Idle t.handle.driver_ctx
        → Quiet (some (r, t))

  abbrev unlocked : Option (Result drv stmts) → Option (Result drv stmts)
  unlocked none = none
  unlocked (some (r, t)) = some (r, record t { handle = unlock t.handle })

  unlocked-Quiet :
      (s : Session drv stmts) {o : Option (Result drv stmts)}
      → Ready s.handle
      → Keeps laws.Idle (record s { handle = lock s.handle }) o
      → Quiet (unlocked o)
  unlocked-Quiet s rdy undefined = no_outcome
  unlocked-Quiet s rdy (keeps r t k) =
      quiet r _ (unlock-Ready s.handle t.handle rdy k.magic k.mutex) k.holds

  pub refused-Quiet :
      (s : Session drv stmts)
      → Ready s.handle
      → laws.Idle s.handle.driver_ctx
      → Quiet (entry drv stmts none s)
  unfolding entry
  refused-Quiet s rdy i = rw (rdy.valid, entry) (quiet err_invalid_arg s rdy i)

  pub entry-Quiet :
      (f : Session drv stmts → Option (Result drv stmts)) (s : Session drv stmts)
      → Ready s.handle
      → laws.Idle s.handle.driver_ctx
      → ((t : Session drv stmts) → laws.Idle t.handle.driver_ctx → Keeps laws.Idle t (f t))
      → Quiet (entry drv stmts (some f) s)
  unfolding entry
  entry-Quiet f s rdy i body =
      rw (rdy.valid, mutex_lock-locked s.handle.mutex rdy.free, entry)
        (unlocked-Quiet s rdy (body (record s { handle = lock s.handle }) i))
