-- ===== src/TypeMapping.antt =====
-- src/type_mapping.c and src/type_mapping.h: between the members of a C struct and the parameters and
-- columns of a statement. A row is the struct's memory; `none` as a result is an access outside of it
-- or of the NULL bitmap. Machine words are stored with the least significant byte first.
pub mod Bitmap
pub mod Member
pub mod Binding
pub mod Closed
pub mod RoundTrip
pub mod Mirror
mod Tests
use c2sql.Prelude.{
  ◌&&◌, ℕ, zero, suc, ◌+◌, ◌-◌, ◌/◌, ◌%◌, ◌^◌, bit_or, CStr, Bool, true, false, not, ◌||◌, Option,
  none, some, List, [], ◌∷◌, ltb, leb, ◌==◌, if◌then◌else◌, length, get_elem?, take, set, drop,
  slice, patch, word_of, bytes_of,
}
use c2sql.Types.{
  SqlRdbResult, ok, warn_truncated, err_invalid_arg, err_not_null_violation, is_ok, int32, int64,
  real, text, blob, ColumnDef, has_flag, flag_nullable, Schema,
}
use c2sql.Driver.{Driver}

abbrev pub Row : Type 0
Row = List ℕ

-- `c2sql_internal_null_bit_get`
unfoldable pub null_bit_get : Option (List ℕ) → ℕ → Option Bool
null_bit_get none i = some false
null_bit_get (some bytes) i = elim (get_elem? bytes (i / 8)) [
  | none ↦ none
  | some b ↦ some (b / 2 ^ (i % 8) % 2 == 1)
]

-- `c2sql_internal_null_bit_set`
unfoldable pub null_bit_set : Option (List ℕ) → ℕ → Option (Option (List ℕ))
null_bit_set none i = some none
null_bit_set (some bytes) i = elim (get_elem? bytes (i / 8)) [
  | none ↦ none
  | some b ↦ some (some (set bytes (i / 8) (bit_or b (2 ^ (i % 8)))))
]

-- The loop of `bounded_strlen` over the memory from `s` on.
unfoldable pub bounded_strlen : ℕ → List ℕ → Option ℕ
bounded_strlen zero s = some 0
bounded_strlen (suc maxlen) [] = none
bounded_strlen (suc maxlen) (c ∷ s) =
    let rest = bounded_strlen maxlen s in
    if c == 0 then some 0 else elim rest [ none ↦ none | some n ↦ some (suc n) ]

abbrev pub int_max : ℕ
int_max = 2 ^ 31 - 1

-- The argument of a driver's bind function.
pub data Cell : Type 0 where
  int32_cell : ℕ → Cell
  int64_cell : ℕ → Cell
  real_cell : ℕ → Cell
  text_cell : CStr → Cell
  blob_cell : List ℕ → Cell

-- `memcpy` of a member into a variable.
abbrev load : (ℕ → Cell) → ℕ → ℕ → Row → Option Cell
load cell off n row = elim (slice off n row) [ none ↦ none | some bs ↦ some (cell (word_of bs)) ]

pub text_of : Option ℕ → List ℕ → Option Cell
text_of none s = none
text_of (some n) s = some (text_cell (take (if ltb int_max n then int_max else n) s))

-- The part of `bind_one` that reads the member.
unfoldable pub cell_of : ColumnDef → Row → Option Cell
unfolding text_of
cell_of col row = elim col.type [
  | int32 ↦ load int32_cell col.offset 4 row
  | int64 ↦ load int64_cell col.offset 8 row
  | real ↦ load real_cell col.offset 8 row
  | text ↦ text_of (bounded_strlen col.size (drop col.offset row)) (drop col.offset row)
  | blob ↦ elim (slice col.offset col.size row) [ none ↦ none | some bs ↦ some (blob_cell bs) ]
]

-- What `read_one` has to put into the member, given what the driver delivered.
unfoldable pub store_word : ℕ → ℕ → ℕ → SqlRdbResult → Row → Option (SqlRdbResult × Row)
store_word off n v r row = elim (patch off (bytes_of n v) row) [
  | none ↦ none
  | some row' ↦ some (r, row')
]

-- `v < INT32_MIN || v > INT32_MAX`, for the bit pattern of an `int64_t`.
unfoldable pub outside_int32 : ℕ → Bool
outside_int32 v = ltb int_max v && ltb v (2 ^ 64 - 2 ^ 31)

abbrev smaller : ℕ → ℕ → ℕ
smaller a b = if ltb a b then a else b

-- The `memcpy`, if there is something to copy.
pub copy_prefix : ℕ → List ℕ → ℕ → Row → Option Row
copy_prefix off bs n row = if ltb 0 n then patch off (take n bs) row else some row

pub store_text : ℕ → ℕ → CStr → Row → Option (SqlRdbResult × Row)
unfolding copy_prefix
store_text off size s row =
    if size == 0
    then some (warn_truncated, row)
    else (let n = smaller (length s) (size - 1) in
        elim (copy_prefix off s n row) [
          | none ↦ none
          | some copied ↦ elim (patch (off + n) (0 ∷ []) copied) [
            | none ↦ none
            | some ended ↦ some (if ltb (size - 1) (length s) then warn_truncated else ok, ended)
          ]
        ])

pub store_blob : ℕ → ℕ → List ℕ → Row → Option (SqlRdbResult × Row)
unfolding copy_prefix
store_blob off size bs row = elim (copy_prefix off bs (smaller (length bs) size) row) [
  | none ↦ none
  | some copied ↦ some (if ltb size (length bs) then warn_truncated else ok, copied)
]

abbrev or_empty : Option (List ℕ) → List ℕ
or_empty none = []
or_empty (some bs) = bs

module _ (drv : Driver) where
  -- The driver call of `bind_one`.
  unfoldable pub send : drv.Stmt → ℕ → Cell → drv.Ctx → SqlRdbResult × drv.Ctx
  send stmt i (int32_cell v) c = drv.bind_int32 stmt i v c
  send stmt i (int64_cell v) c = drv.bind_int64 stmt i v c
  send stmt i (real_cell v) c = drv.bind_real stmt i v c
  send stmt i (text_cell s) c = drv.bind_text stmt i s c
  send stmt i (blob_cell bs) c = drv.bind_blob stmt i bs c

  bind_one : drv.Stmt → ℕ → ColumnDef → Row → drv.Ctx → Option (SqlRdbResult × drv.Ctx)
  unfolding send
  bind_one stmt i col row c = elim (cell_of col row) [
    | none ↦ none
    | some v ↦ some (send stmt i v c)
  ]

  -- One round of the loop of `c2sql_internal_tm_bind_row`, at column `i`.
  bind_column :
      drv.Stmt → ℕ → ColumnDef → Row → Option Bool → drv.Ctx → Option (SqlRdbResult × drv.Ctx)
  unfolding bind_one
  bind_column stmt i col row none c = none
  bind_column stmt i col row (some true) c =
      if not (has_flag col flag_nullable)
      then some (err_not_null_violation, c)
      else some (drv.bind_null stmt (i + 1) c)
  bind_column stmt i col row (some false) c = bind_one stmt (i + 1) col row c

  bind_columns :
      drv.Stmt
      → ℕ
      → List ColumnDef
      → Row
      → Option (List ℕ)
      → drv.Ctx
      → Option (SqlRdbResult × drv.Ctx)
  bind_columns stmt i [] row null_map c = some (ok, c)
  bind_columns stmt i (col ∷ cols) row null_map c =
      elim (bind_column stmt i col row (null_bit_get null_map i) c) [
        | none ↦ none
        | some p ↦
            let rest = bind_columns stmt (suc i) cols row null_map p.1 in
            if is_ok p.0 then rest else some p
      ]

  -- `c2sql_internal_tm_bind_row`; a pointer that is `none` is NULL.
  pub bind_row :
      Option drv.Stmt
      → Option Schema
      → Option Row
      → Option (List ℕ)
      → drv.Ctx
      → Option (SqlRdbResult × drv.Ctx)
  unfolding bind_columns bind_column
  bind_row (some stmt) (some schema) (some row) null_map c =
      bind_columns stmt 0 schema.cols row null_map c
  bind_row _ _ _ null_map c = some (err_invalid_arg, c)

  -- What a call leaves behind: its result code, the row and the connection.
  abbrev pub Delivered : Type 0
  Delivered = SqlRdbResult × Row × drv.Ctx

  abbrev delivered : drv.Ctx → Option (SqlRdbResult × Row) → Option Delivered
  delivered c none = none
  delivered c (some (r, row)) = some (r, row, c)

  -- A column that could not be fetched leaves the row alone.
  abbrev fetched {ℓ} :
      {V : Type ℓ}
      → SqlRdbResult × V × drv.Ctx
      → Row
      → (V → Option (SqlRdbResult × Row))
      → Option Delivered
  fetched (r, v, c) row store = if is_ok r then delivered c (store v) else some (r, row, c)

  pub read_one : drv.Stmt → ℕ → ColumnDef → Row → drv.Ctx → Option Delivered
  read_one stmt i col row c = elim col.type [
    | int32 ↦ fetched (drv.column_int64 stmt i c) row (λ v.
        store_word col.offset 4 (v % 2 ^ 32) (if outside_int32 v then warn_truncated else ok) row)
    | int64 ↦ fetched (drv.column_int64 stmt i c) row (λ v. store_word col.offset 8 v ok row)
    | real ↦ fetched (drv.column_real stmt i c) row (λ v. store_word col.offset 8 v ok row)
    | text ↦
        fetched (drv.column_text stmt i c) row
          (λ s. store_text col.offset col.size (or_empty s) row)
    | blob ↦
        fetched (drv.column_blob stmt i c) row
          (λ bs. store_blob col.offset col.size (or_empty bs) row)
  ]

  -- The row, the NULL bitmap and the connection while the columns are read, and `any_truncated`.
  pub record Reading : Type 0 where
    pub row : Row
    pub null_map : Option (List ℕ)
    pub ctx : drv.Ctx
    pub any_truncated : Bool

  abbrev noted : Reading → Delivered → SqlRdbResult × Reading
  noted st (warn_truncated, row, c) = (ok, record st { row = row; ctx = c; any_truncated = true })
  noted st (r, row, c) = (r, record st { row = row; ctx = c })

  -- One round of the loop of `c2sql_internal_tm_read_row`.
  read_column :
      drv.Stmt
      → ℕ
      → ColumnDef
      → SqlRdbResult × Bool × drv.Ctx
      → Reading
      → Option (SqlRdbResult × Reading)
  unfolding read_one
  read_column stmt i col (r, is_null, c) st =
      if not (is_ok r)
      then some (r, record st { ctx = c })
      else if is_null
      then elim (null_bit_set st.null_map i) [
        | none ↦ none
        | some m ↦ some (ok, record st { null_map = m; ctx = c })
      ]
      else elim (read_one stmt i col st.row c) [ none ↦ none | some d ↦ some (noted st d) ]

  read_columns : drv.Stmt → ℕ → List ColumnDef → Reading → Option (SqlRdbResult × Reading)
  read_columns stmt i [] st = some (if st.any_truncated then warn_truncated else ok, st)
  read_columns stmt i (col ∷ cols) st =
      elim (read_column stmt i col (drv.column_isnull stmt i st.ctx) st) [
        | none ↦ none
        | some p ↦
            let rest = read_columns stmt (suc i) cols p.1 in if is_ok p.0 then rest else some p
      ]

  -- `c2sql_internal_tm_read_row`; a pointer that is `none` is NULL.
  unfoldable pub read_row :
      Option drv.Stmt
      → Option Schema
      → Row
      → Option (List ℕ)
      → drv.Ctx
      → Option (SqlRdbResult × Reading)
  unfolding read_columns read_column
  read_row (some stmt) (some schema) row null_map c =
      read_columns stmt 0 schema.cols
        (record { row = row; null_map = null_map; ctx = c; any_truncated = false })
  read_row _ _ row null_map c =
      some
        (err_invalid_arg, record { row = row; null_map = null_map; ctx = c; any_truncated = false })
