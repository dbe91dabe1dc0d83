-- ===== src/Crud.antt =====
-- src/c2sql.c, reading and writing rows: the values of a condition.
pub mod Conditions
pub mod Counts
pub mod Rows
mod Tests
use c2sql.Prelude.{ℕ, ◌+◌, CStr, Option, none, some, List, if◌then◌else◌}
use c2sql.Types.{SqlRdbResult, ok, is_ok}
use c2sql.Condition.{
  Value, int_value, real_value, text_value, blob_value, Condition, leaf, and_node, or_node,
  match_all,
}
use c2sql.Driver.{Driver}

module _ (drv : Driver) (stmt : drv.Stmt) where
  -- What a binding leaves behind: its result code, `*idx` and the connection.
  abbrev pub Bound : Type 0
  Bound = SqlRdbResult × ℕ × drv.Ctx

  -- The switch over the type of a leaf's value.
  pub bind_value : ℕ → Value → drv.Ctx → SqlRdbResult × drv.Ctx
  bind_value i (int_value v) c = drv.bind_int64 stmt i v c
  bind_value i (real_value v) c = drv.bind_real stmt i v c
  bind_value i (text_value v) c = drv.bind_text stmt i v c
  bind_value i (blob_value v) c = drv.bind_blob stmt i v c

  pub bind_cond : Condition → ℕ → drv.Ctx → Bound
  unfolding bind_value
  bind_cond match_all idx c = (ok, idx, c)
  bind_cond (leaf col op v) idx c = let (r, c') = bind_value idx v c in (r, idx + 1, c')
  bind_cond (and_node l r) idx c =
      let left = bind_cond l idx c in
      let right = bind_cond r left.1 left.2 in if is_ok left.0 then right else left
  bind_cond (or_node l r) idx c =
      let left = bind_cond l idx c in
      let right = bind_cond r left.1 left.2 in if is_ok left.0 then right else left

  -- `none` is a NULL condition.
  pub bind_cond_values : Option Condition → ℕ → drv.Ctx → Bound
  unfolding bind_cond
  bind_cond_values none idx c = (ok, idx, c)
  bind_cond_values (some cond) idx c = bind_cond cond idx c
