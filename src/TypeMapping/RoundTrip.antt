-- ===== src/TypeMapping/RoundTrip.antt =====
-- A whole row in src/type_mapping.c, bound and read back.
use mathlib.Core.Path.{subst}
use c2sql.Prelude.{
  ℕ, suc, ◌+◌, ◌≡◌, refl, ◌∙◌, ap, true, false, Option, none, some, List, [], ◌∷◌, arith, get_elem?,
}
use c2sql.Types.{SqlRdbResult, ok, ColumnDef, Schema}
use c2sql.Driver.{Driver}
use c2sql.TypeMapping.{
  Row, Cell, null_bit_get, null_bit_set, cell_of, read_one, Reading, noted, read_column,
  read_columns, read_row,
}
use c2sql.TypeMapping.Bitmap.{null_bit_set_again}
use c2sql.TypeMapping.Member.{AreBytes, IsMember, Delivers, read_typed}

abbrev pub AreMapBytes : Option (List ℕ) → Type 0
AreMapBytes none = Unit
AreMapBytes (some bytes) = AreBytes bytes

map_again :
    (m : Option (List ℕ)) (i : ℕ)
    → AreMapBytes m
    → null_bit_get m i ≡ some true
    → null_bit_set m i ≡ some m
unfolding null_bit_get null_bit_set
map_again none i a h = refl
map_again (some bytes) i a h = null_bit_set_again bytes a i h

module _ (drv : Driver) (stmt : drv.Stmt) (c : drv.Ctx) (row : Row) (m : Option (List ℕ)) where
  -- The current result row of the statement has in column `i` what `bind_row` binds for it: NULL
  -- where the bitmap says so, the member's value elsewhere.
  pub data Shows (i : ℕ) (col : ColumnDef) : Type 0 where
    shows_null :
        null_bit_get m i ≡ some true → drv.column_isnull stmt i c ≡ (ok, true, c) → Shows i col
    shows_value :
        (v : Cell)
        → null_bit_get m i ≡ some false
        → drv.column_isnull stmt i c ≡ (ok, false, c)
        → IsMember col row
        → cell_of col row ≡ some v
        → Delivers drv stmt c i v
        → Shows i col

  abbrev pub unchanged : Reading drv
  unchanged = record { row = row; null_map = m; ctx = c; any_truncated = false }

  read_value :
      (i : ℕ) (col : ColumnDef)
      → read_one drv stmt i col row c ≡ some (ok, row, c)
      → read_column drv stmt i col (ok, false, c) unchanged ≡ some (ok, unchanged)
  unfolding read_column
  read_value i col e =
      ap
        (λ o. elim o as (λ _. Option (SqlRdbResult × Reading drv)) [
          | none ↦ none
          | some d ↦ some (noted drv unchanged d)
        ])
        e

  read_column-Shows :
      (i : ℕ) (col : ColumnDef)
      → AreBytes row
      → AreMapBytes m
      → Shows i col
      → read_column drv stmt i col (drv.column_isnull stmt i c) unchanged ≡ some (ok, unchanged)
  unfolding read_column
  read_column-Shows i col a b (shows_null bit e) = rw (e, map_again m i b bit, e, read_column) refl
  read_column-Shows i col a b (shows_value v bit e inside h d) =
      ap (λ t. read_column drv stmt i col t unchanged) e
      ∙ read_value i col (read_typed drv stmt c i col row v col.type refl a inside h d)

  read_columns-Shows :
      (i : ℕ) (cols : List ColumnDef)
      → AreBytes row
      → AreMapBytes m
      → ((k : ℕ) (col : ColumnDef) → get_elem? cols k ≡ some col → Shows (i + k) col)
      → read_columns drv stmt i cols unchanged ≡ some (ok, unchanged)
  unfolding read_columns
  read_columns-Shows i [] a b s = refl
  read_columns-Shows i (col ∷ cols) a b s =
      rw
        (
          read_column-Shows i col a b
              (subst (λ j. Shows j col) (let p : i + 0 ≡ i = omega arith in p) (s 0 col refl)),
          read_columns-Shows (suc i) cols a b (λ k x e.
              subst (λ j. Shows j x) (let p : i + suc k ≡ suc i + k = omega arith in p)
                (s (suc k) x e)),
          read_columns,
        )
        refl

-- If the statement's current row shows, in every column, what `bind_row` binds for a struct and
-- its NULL bitmap, both made of bytes, where every member that is not NULL lies in the struct and
-- a text ends inside its member, then reading it into that struct and that bitmap succeeds without
-- truncation and leaves every byte of both as it was.
pub read_row-Shows :
    (drv : Driver) (stmt : drv.Stmt) (c : drv.Ctx) (schema : Schema) (row : Row)
    (m : Option (List ℕ))
    → AreBytes row
    → AreMapBytes m
    → ((i : ℕ) (col : ColumnDef)
        → get_elem? schema.cols i ≡ some col
        → Shows drv stmt c row m i col)
    → read_row drv (some stmt) (some schema) row m c ≡ some (ok, unchanged drv stmt c row m)
unfolding read_row
read_row-Shows drv stmt c schema row m a b s =
    read_columns-Shows drv stmt c row m 0 schema.cols a b (λ k col e.
      subst (λ j. Shows drv stmt c row m j col) (let p : k ≡ 0 + k = omega arith in p) (s k col e))
