-- ===== src/Migration/Register.antt =====
-- SqlRDBRegisterStruct of src/c2sql.c: a registration and the migration of its table.
use c2sql.Prelude.{
  ℕ, ◌+◌, ◌≤◌, ◌≡◌, CStr, false, Option, none, some, List, [], ◌∷◌, ◌⊎◌, if◌then◌else◌, length,
  Memory, All,
}
use c2sql.Types.{
  SqlRdbResult, ok, err_invalid_arg, err_invalid_handle, err_internal, is_ok, ColumnDef, Schema,
}
use c2sql.Driver.{Driver}
use c2sql.Handle.{Handle, handle_valid, err_set, mutex_lock, mutex_unlock}
use c2sql.Registry.Columns.{ColumnArg}
use c2sql.Registry.{lookup, register, unregister, new_schema}
use c2sql.Registry.Columns.Valid.{AreCopies}
use c2sql.QueryBuilder.Buf.{text_limit}
use c2sql.QueryBuilder.Statement.{create_text, alter_text}
use c2sql.Life.{Config}
use c2sql.Migration.Steps.{Outcome, done, failed, State}
use c2sql.Migration.Table.{migrate_table}
use c2sql.Migration.Answers.{QueryLaws}
use c2sql.Migration.Existing.{Fits}
use c2sql.Migration.Keyword.{PlainTable}
use c2sql.Migration.Correct.{IsTable}

module _ (drv : Driver) (fuel : ℕ) (cfg : Config) where
  abbrev pub Answer : Type 0
  Answer = SqlRdbResult × Handle drv × Memory

  -- The handle after the migration: a failure takes the schema out of the registry again.
  unfoldable pub settled : CStr → Handle drv → Outcome Unit → State drv → Answer
  settled name h (done u) t = (ok, record h { driver_ctx = t.ctx; error = t.error }, t.memory)
  settled name h (failed r) t = (
    r,
    record h {
      driver_ctx = t.ctx;
      error = t.error;
      registry = (unregister h.registry (some name)).1;
    },
    t.memory,
  )

  unfoldable pub migrated : CStr → Schema → Handle drv → Memory → Option Answer
  migrated name schema h m =
      elim (migrate_table drv fuel cfg schema
        record { ctx = h.driver_ctx; memory = m; error = h.error }) [
          | none ↦ none
          | some (o, t) ↦ some (settled name h o t)
        ]

  -- Under the lock; a failed registration notes its code.
  unfoldable pub register_locked : CStr → List ColumnArg → Handle drv → Memory → Option Answer
  register_locked name args h m =
      let g = register h.registry (some name) (some args) m in
      let t = record h { registry = g.registry } in
      if is_ok g.code
      then elim (lookup name g.registry.entries) [
        | none ↦ some (err_internal, t, g.memory)
        | some schema ↦ migrated name schema t g.memory
      ]
      else some (g.code, err_set t g.code, g.memory)

  abbrev pub unlocked : Option Answer → Option Answer
  unlocked none = none
  unlocked (some (r, h, m)) = some (r, record h { mutex = mutex_unlock h.mutex }, m)

  abbrev pub under_lock : (Handle drv → Option Answer) → Handle drv → Option Answer
  under_lock body h = elim (mutex_lock h.mutex) [
    | none ↦ none
    | some x ↦ unlocked (body (record h { mutex = x }))
  ]

  -- `SqlRDBRegisterStruct`; the columns are NULL, or a list with their number.
  unfoldable pub register_struct :
      Option CStr → Option (List ColumnArg) → Handle drv → Memory → Option Answer
  register_struct (some name) (some (a ∷ args)) h m =
      if handle_valid h
      then under_lock (λ t. register_locked name (a ∷ args) t m) h
      else some (err_invalid_handle, h, m)
  register_struct _ _ h m =
      if handle_valid h
      then some (err_invalid_arg, err_set h err_invalid_arg, m)
      else some (err_invalid_handle, h, m)

module _ (drv : Driver) (laws : QueryLaws drv) (fuel : ℕ) (cfg : Config) (name : CStr)
    (fits : (c : drv.Ctx) → Fits fuel (laws.answer c))
    (plain : (c : drv.Ctx) → PlainTable name (laws.answer c)) where
  abbrev IsNew : List ColumnDef → Handle drv → Type 0
  IsNew cs h =
      (lookup name h.registry.entries ≡ some (new_schema name cs))
      × IsTable drv laws (new_schema name cs) fuel fits plain
          record { ctx = h.driver_ctx; memory = []; error = h.error }

  -- What SqlRDBRegisterStruct comes to: success, with the struct registered and its columns in the
  -- database's answers, or a failure that leaves the registered structs as they were.
  pub record IsRegistration (args : List ColumnArg) (h : Handle drv)
      (out : Option (Answer drv fuel cfg)) : Type 0 where
    pub code : SqlRdbResult
    pub after : Handle drv
    pub memory : Memory
    pub returns : out ≡ some (code, after, memory)
    pub result :
        ((code ≡ ok) × (cs : List ColumnDef) × AreCopies args cs × IsNew cs after)
        ⊎ ((is_ok code ≡ false) × (after.registry.entries ≡ h.registry.entries))

  module _ (args : List ColumnArg)
      (low : (cs : List ColumnDef)
        → AreCopies args cs
        → (length (create_text drv.dialect (new_schema name cs)) + 1 ≤ text_limit)
          × All
              (λ col. length (alter_text drv.dialect (new_schema name cs) col) + 1 ≤ text_limit)
              cs) where
    abbrev entered : Handle drv → Memory → Handle drv
    entered h m = record h { registry = (register h.registry (some name) (some args) m).registry }
