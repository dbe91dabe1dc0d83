-- ===== src/Driver.antt =====
-- src/db_driver.h: the vtable `SqlRDBDriver`. Its functions act on the connection and on the
-- statements prepared on it, which are one state `Ctx` here; `Stmt` are the statement pointers. An
-- `int64_t`, an `int32_t` and a `double` are their bit patterns, a text or blob pointer with its
-- length is the bytes, or `none` for NULL.
use c2sql.Prelude.{ℕ, CStr, Bool, Option, List}
use c2sql.Types.{SqlRdbResult, SqlDialect}

pub record Driver : Type 1 where
  pub Ctx : Type 0
  pub Stmt : Type 0
  pub dialect : SqlDialect
  pub exec : CStr → Ctx → SqlRdbResult × Ctx
  pub prepare : CStr → Ctx → SqlRdbResult × Stmt × Ctx
  pub bind_int64 : Stmt → ℕ → ℕ → Ctx → SqlRdbResult × Ctx
  pub bind_int32 : Stmt → ℕ → ℕ → Ctx → SqlRdbResult × Ctx
  pub bind_real : Stmt → ℕ → ℕ → Ctx → SqlRdbResult × Ctx
  pub bind_text : Stmt → ℕ → CStr → Ctx → SqlRdbResult × Ctx
  pub bind_blob : Stmt → ℕ → List ℕ → Ctx → SqlRdbResult × Ctx
  pub bind_null : Stmt → ℕ → Ctx → SqlRdbResult × Ctx
  pub step : Stmt → Ctx → SqlRdbResult × Bool × Ctx
  pub column_int64 : Stmt → ℕ → Ctx → SqlRdbResult × ℕ × Ctx
  pub column_int32 : Stmt → ℕ → Ctx → SqlRdbResult × ℕ × Ctx
  pub column_real : Stmt → ℕ → Ctx → SqlRdbResult × ℕ × Ctx
  pub column_text : Stmt → ℕ → Ctx → SqlRdbResult × Option CStr × Ctx
  pub column_blob : Stmt → ℕ → Ctx → SqlRdbResult × Option (List ℕ) × Ctx
  pub column_isnull : Stmt → ℕ → Ctx → SqlRdbResult × Bool × Ctx
  pub reset : Stmt → Ctx → SqlRdbResult × Ctx
  pub finalize : Stmt → Ctx → SqlRdbResult × Ctx
  pub begin : Ctx → SqlRdbResult × Ctx
  pub commit : Ctx → SqlRdbResult × Ctx
  pub rollback : Ctx → SqlRdbResult × Ctx
  pub savepoint : CStr → Ctx → SqlRdbResult × Ctx
  pub release_sp : CStr → Ctx → SqlRdbResult × Ctx
  pub rollback_sp : CStr → Ctx → SqlRdbResult × Ctx
  pub changes : Ctx → ℕ
