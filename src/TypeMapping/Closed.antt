-- ===== src/TypeMapping/Closed.antt =====
-- Properties of the connection across `c2sql_internal_tm_bind_row` of src/type_mapping.c.
use mathlib.Core.Path.{subst}
use mathlib.Core.Option.{some-injective}
use c2sql.Prelude.{
  ℕ, suc, ◌+◌, ◌≡◌, Bool, true, false, not, Option, none, some, List, [], ◌∷◌, if-intro,
  if◌then◌else◌,
}
use c2sql.Types.{
  SqlRdbResult, ok, err_not_null_violation, is_ok, ColumnDef, Schema, has_flag, flag_nullable,
}
use c2sql.Driver.{Driver}
use c2sql.TypeMapping.{
  Row, Cell, null_bit_get, cell_of, send, bind_one, bind_column, bind_columns, bind_row,
}

module _ (drv : Driver) (stmt : drv.Stmt) (P : drv.Ctx → Type 0)
    (sends : (i : ℕ) (v : Cell) (c : drv.Ctx) → P c → P (send drv stmt i v c).1)
    (nulls : (i : ℕ) (c : drv.Ctx) → P c → P (drv.bind_null stmt i c).1) where
  data Holds : Option (SqlRdbResult × drv.Ctx) → Type 0 where
    undefined : Holds none
    holds : (r : SqlRdbResult) (c : drv.Ctx) → P c → Holds (some (r, c))

  one-Holds :
      (i : ℕ) (o : Option Cell) (c : drv.Ctx)
      → P c
      → Holds (elim o [ none ↦ none | some v ↦ some (send drv stmt i v c) ])
  one-Holds i none c p = undefined
  one-Holds i (some v) c p = holds _ _ (sends i v c p)

  column-Holds :
      (i : ℕ) (col : ColumnDef) (row : Row) (bit : Option Bool) (c : drv.Ctx)
      → P c
      → Holds (bind_column drv stmt i col row bit c)
  unfolding bind_column bind_one
  column-Holds i col row none c p = undefined
  column-Holds i col row (some true) c p =
      if-intro Holds (not (has_flag col flag_nullable)) (λ _. holds err_not_null_violation c p)
        (λ _. holds _ _ (nulls (i + 1) c p))
  column-Holds i col row (some false) c p = one-Holds (i + 1) (cell_of col row) c p

  columns-Holds :
      (i : ℕ) (cols : List ColumnDef) (row : Row) (m : Option (List ℕ)) (c : drv.Ctx)
      → P c
      → Holds (bind_columns drv stmt i cols row m c)
  unfolding bind_columns
  columns-Holds i [] row m c p = holds ok c p
  columns-Holds i (col ∷ cols) row m c p =
      go _ (λ d q. columns-Holds (suc i) cols row m d q)
        (column-Holds i col row (null_bit_get m i) c p)
    where
      go :
          (o : Option (SqlRdbResult × drv.Ctx))
          → ((d : drv.Ctx) → P d → Holds (bind_columns drv stmt (suc i) cols row m d))
          → Holds o
          → Holds (elim o [
            | none ↦ none
            | some q ↦
                (let rest = bind_columns drv stmt (suc i) cols row m q.1 in
                  if is_ok q.0 then rest else some q)
          ])
      go _ next undefined = undefined
      go _ next (holds r d q) = if-intro Holds (is_ok r) (λ _. next d q) (λ _. holds r d q)

  row-Holds :
      (schema : Schema) (row : Row) (m : Option (List ℕ)) (c : drv.Ctx)
      → P c
      → Holds (bind_row drv (some stmt) (some schema) (some row) m c)
  unfolding bind_row
  row-Holds schema row m c p = columns-Holds 0 schema.cols row m c p

  from_Holds :
      {r : SqlRdbResult} {c : drv.Ctx} {o : Option (SqlRdbResult × drv.Ctx)}
      → Holds o
      → o ≡ some (r, c)
      → P c
  from_Holds undefined e = cc
  from_Holds (holds r c p) e = subst (λ q. P q.1) (some-injective _ _ e) p

  -- A property of the connection that the bind functions preserve outlives the call.
  pub bind_row-closed :
      (schema : Schema) (row : Row) (m : Option (List ℕ)) (c d : drv.Ctx) (r : SqlRdbResult)
      → P c
      → bind_row drv (some stmt) (some schema) (some row) m c ≡ some (r, d)
      → P d
  bind_row-closed schema row m c d r p e = from_Holds (row-Holds schema row m c p) e
