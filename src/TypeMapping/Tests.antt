-- ===== src/TypeMapping/Tests.antt =====
-- Runs of src/type_mapping.c on one row, and its theorems at these inputs.
use mathlib.Core.Path.{subst}
use mathlib.Core.Option.{some-injective}
use c2sql.Prelude.{
  word_of, ℕ, ◌≡◌, refl, true, Option, none, some, List, [], ◌∷◌, arith, lit, ◌==◌, if◌then◌else◌,
  get_elem?, zero, suc,
}
use c2sql.Types.{ok, int32, text, blob, ColumnDef, Schema, has_flag}
use c2sql.TypeMapping.{
  Row, int32_cell, text_cell, null_bit_get, null_bit_set, cell_of, text_of, bounded_strlen, send,
  bind_row, bind_one, bind_column, bind_columns, read_row,
}
use c2sql.TypeMapping.Bitmap.{null_bit_get-null_bit_set}
use c2sql.TypeMapping.Member.{AreBytes}
use c2sql.TypeMapping.Binding.{null_param, value_param, IsBound, bind_row-IsBound}
use c2sql.TypeMapping.Mirror.{Params, mirror, mirror_laws}
use c2sql.TypeMapping.RoundTrip.{Shows, shows_null, shows_value, unchanged, read_row-Shows}

abbrev members : Schema
members = record {
  name = lit "members";
  cols =
      record { name = lit "id"; type = int32; offset = 0; size = 4; flags = 1 }
      ∷ record { name = lit "name"; type = text; offset = 4; size = 4; flags = 0 }
      ∷ record { name = lit "photo"; type = blob; offset = 8; size = 2; flags = 2 }
      ∷ [];
  pk_index = some 0;
}

-- The id -2, the name "Al" and no photo.
abbrev member_row : Row
member_row = 254 ∷ 255 ∷ 255 ∷ 255 ∷ 65 ∷ 108 ∷ 0 ∷ 7 ∷ 9 ∷ 9 ∷ []

abbrev no_photo : Option (List ℕ)
no_photo = some (4 ∷ [])

abbrev bound_params : Params
bound_params j =
    if 3 == j
    then some null_param
    else if 2 == j
    then some (value_param (text_cell (65 ∷ 108 ∷ [])))
    else if 1 == j
    then some (value_param (int32_cell 0xFFFFFFFE))
    else none

bound_run :
    bind_row mirror (some 0) (some members) (some member_row) no_photo (λ _. none)
    ≡ some (ok, bound_params)
unfolding bind_row bind_columns bind_column bind_one send cell_of text_of bounded_strlen
    null_bit_get has_flag word_of
bound_run = refl

bind_row-IsBound_example :
    IsBound member_row no_photo 1
      (record { name = lit "name"; type = text; offset = 4; size = 4; flags = 0 })
      (some (value_param (text_cell (65 ∷ 108 ∷ []))))
unfolding mirror_laws
bind_row-IsBound_example =
    bind_row-IsBound mirror mirror_laws 0 members member_row no_photo (λ _. none) bound_params 1
      (record { name = lit "name"; type = text; offset = 4; size = 4; flags = 0 }) bound_run refl

shown :
    (i : ℕ) (col : ColumnDef)
    → get_elem? members.cols i ≡ some col
    → Shows mirror 0 bound_params member_row no_photo i col
unfolding null_bit_get cell_of text_of bounded_strlen word_of
shown zero col e =
    subst (Shows mirror 0 bound_params member_row no_photo 0) (some-injective _ col e) (
      shows_value (int32_cell 0xFFFFFFFE) refl refl
        (record { inside = omega arith; ends = λ t. cc }) refl refl)
shown (suc zero) col e =
    subst (Shows mirror 0 bound_params member_row no_photo 1) (some-injective _ col e) (
      shows_value (text_cell (65 ∷ 108 ∷ [])) refl refl
        (record { inside = omega arith; ends = λ t. (2, refl, omega arith, omega arith) }) refl
        refl)
shown (suc (suc zero)) col e =
    subst (Shows mirror 0 bound_params member_row no_photo 2) (some-injective _ col e)
      (shows_null refl refl)
shown (suc (suc (suc i))) col e = cc

member_row-AreBytes : AreBytes member_row
member_row-AreBytes = (
  omega arith,
  (
    omega arith,
    (
      omega arith,
      (
        omega arith,
        (
          omega arith,
          (omega arith, (omega arith, (omega arith, (omega arith, (omega arith, tt))))),
        ),
      ),
    ),
  ),
)

read_row-Shows_example :
    read_row mirror (some 0) (some members) member_row no_photo bound_params
    ≡ some (ok, unchanged mirror 0 bound_params member_row no_photo)
read_row-Shows_example =
    read_row-Shows mirror 0 bound_params members member_row no_photo member_row-AreBytes
      (omega arith, tt) shown

set_nine : null_bit_set (some (4 ∷ 0 ∷ [])) 9 ≡ some (some (4 ∷ 2 ∷ []))
unfolding null_bit_set
set_nine = refl

null_bit_get-null_bit_set_example :
    null_bit_get (some (4 ∷ 2 ∷ [])) 2
    ≡ (if 9 == 2 then some true else null_bit_get (some (4 ∷ 0 ∷ [])) 2)
null_bit_get-null_bit_set_example =
    null_bit_get-null_bit_set (4 ∷ 0 ∷ []) (omega arith, (omega arith, tt)) 9 2 (some (4 ∷ 2 ∷ []))
      set_nine
