-- ===== src/TypeMapping/Binding.antt =====
-- What `c2sql_internal_tm_bind_row` of src/type_mapping.c binds.
use mathlib.Core.Path.{subst}
use mathlib.Core.Option.{some-injective}
use c2sql.Prelude.{
  ℕ, zero, suc, ◌+◌, ◌<◌, ◌≡◌, ◌≢◌, refl, sym, ◌∙◌, ap, Bool, true, false, Option, none, some, List,
  [], ◌∷◌, arith, get_elem?, inl, inr, Bool-cases, Option-cases,
}
use c2sql.Types.{
  SqlRdbResult, ok, err_not_null_violation, is_ok, ColumnDef, Schema, has_flag, flag_nullable,
}
use c2sql.Driver.{Driver}
use c2sql.TypeMapping.{
  Row, Cell, null_bit_get, cell_of, send, bind_one, bind_column, bind_columns, bind_row,
}

pub data Param : Type 0 where
  null_param : Param
  value_param : Cell → Param

-- What a database documents of its bind functions: a call that succeeds sets the parameter of that
-- index, and no other.
pub record BindLaws (drv : Driver) : Type 0 where
  pub param : drv.Ctx → drv.Stmt → ℕ → Option Param
  pub sent :
      (s : drv.Stmt) (i : ℕ) (v : Cell) (c : drv.Ctx)
      → is_ok (send drv s i v c).0 ≡ true
      → param (send drv s i v c).1 s i ≡ some (value_param v)
  pub sent_other :
      (s : drv.Stmt) (i j : ℕ) (v : Cell) (c : drv.Ctx)
      → is_ok (send drv s i v c).0 ≡ true
      → i ≢ j
      → param (send drv s i v c).1 s j ≡ param c s j
  pub nulled :
      (s : drv.Stmt) (i : ℕ) (c : drv.Ctx)
      → is_ok (drv.bind_null s i c).0 ≡ true
      → param (drv.bind_null s i c).1 s i ≡ some null_param
  pub nulled_other :
      (s : drv.Stmt) (i j : ℕ) (c : drv.Ctx)
      → is_ok (drv.bind_null s i c).0 ≡ true
      → i ≢ j
      → param (drv.bind_null s i c).1 s j ≡ param c s j

-- The parameter for column `i`: NULL where the bitmap says so, which the column must allow, and the
-- member's value elsewhere.
pub data IsBound (row : Row) (m : Option (List ℕ)) (i : ℕ) (col : ColumnDef)
    : Option Param → Type 0 where
  bound_null :
      null_bit_get m i ≡ some true
      → has_flag col flag_nullable ≡ true
      → IsBound row m i col (some null_param)
  bound_value :
      (v : Cell)
      → null_bit_get m i ≡ some false
      → cell_of col row ≡ some v
      → IsBound row m i col (some (value_param v))

module _ (drv : Driver) (laws : BindLaws drv) (stmt : drv.Stmt) (row : Row)
    (m : Option (List ℕ)) where
  record Bound (i : ℕ) (col : ColumnDef) (c c' : drv.Ctx) : Type 0 where
    here : IsBound row m i col (laws.param c' stmt (i + 1))
    elsewhere : (j : ℕ) → i + 1 ≢ j → laws.param c' stmt j ≡ laws.param c stmt j

  bind_column-Bound :
      (i : ℕ) (col : ColumnDef) (bit : Option Bool) (c : drv.Ctx) (p : SqlRdbResult × drv.Ctx)
      → null_bit_get m i ≡ bit
      → bind_column drv stmt i col row bit c ≡ some p
      → is_ok p.0 ≡ true
      → Bound i col c p.1
  unfolding bind_column bind_one
  bind_column-Bound i col none c p b h fine = cc
  bind_column-Bound i col (some true) c p b h fine =
      elim (Bool-cases (has_flag col flag_nullable)) [
        | inl allowed ↦
            subst (λ p. is_ok p.0 ≡ true → Bound i col c p.1)
              (some-injective (drv.bind_null stmt (i + 1) c) p (rw (allowed, bind_column) at h))
              (λ fine. record {
                here =
                    subst (IsBound row m i col) (sym (laws.nulled stmt (i + 1) c fine))
                      (bound_null b allowed);
                elsewhere = λ j ne. laws.nulled_other stmt (i + 1) j c fine ne;
              })
              fine
        | inr refused ↦
            subst (λ p. is_ok p.0 ≡ true → Bound i col c p.1)
              (some-injective (err_not_null_violation, c) p (rw (refused, bind_column) at h))
              (λ fine. absurd (ground arith)) fine
      ]
  bind_column-Bound i col (some false) c p b h fine = elim (Option-cases (cell_of col row)) [
    | inl out ↦ cc (rw (out, bind_column, bind_one) at h)
    | inr (v, e) ↦
        subst (λ p. is_ok p.0 ≡ true → Bound i col c p.1)
          (some-injective (send drv stmt (i + 1) v c) p (rw (e, bind_column, bind_one) at h))
          (λ fine. record {
            here =
                subst (IsBound row m i col) (sym (laws.sent stmt (i + 1) v c fine))
                  (bound_value v b e);
            elsewhere = λ j ne. laws.sent_other stmt (i + 1) j v c fine ne;
          })
          fine
  ]

  -- The columns from `i` on: their parameters are set, those before are as they were.
  record AllBound (i : ℕ) (cols : List ColumnDef) (c c' : drv.Ctx) : Type 0 where
    set_here :
        (k : ℕ) (col : ColumnDef)
        → get_elem? cols k ≡ some col
        → IsBound row m (i + k) col (laws.param c' stmt (i + k + 1))
    before : (j : ℕ) → j < i + 1 → laws.param c' stmt j ≡ laws.param c stmt j

  add_column :
      (i : ℕ) (col : ColumnDef) (cols : List ColumnDef) (c d c' : drv.Ctx)
      → Bound i col c d
      → AllBound (suc i) cols d c'
      → AllBound i (col ∷ cols) c c'
  add_column i col cols c d c' b r = record {
    set_here = first_or_later;
    before = λ j lt. r.before j (omega arith) ∙ b.elsewhere j (omega arith);
  }
    where
      first_or_later :
          (k : ℕ) (x : ColumnDef)
          → get_elem? (col ∷ cols) k ≡ some x
          → IsBound row m (i + k) x (laws.param c' stmt (i + k + 1))
      first_or_later zero x e =
          subst (λ j. IsBound row m j x (laws.param c' stmt (j + 1)))
            (let p : i ≡ i + 0 = omega arith in p)
            (subst (λ y. IsBound row m i y (laws.param c' stmt (i + 1))) (some-injective col x e)
              (subst (IsBound row m i col) (sym (r.before (i + 1) (omega arith))) b.here))
      first_or_later (suc k) x e =
          subst (λ j. IsBound row m j x (laws.param c' stmt (j + 1)))
            (let p : suc i + k ≡ i + suc k = omega arith in p) (r.set_here k x e)

  bind_columns-AllBound :
      (i : ℕ) (cols : List ColumnDef) (c c' : drv.Ctx)
      → bind_columns drv stmt i cols row m c ≡ some (ok, c')
      → AllBound i cols c c'
  unfolding bind_columns
  bind_columns-AllBound i [] c c' h = record {
    set_here = λ k col e. cc;
    before = λ j lt.
        ap (λ x. laws.param x stmt j) (ap (λ p. p.1) (some-injective (ok, c') (ok, c) (sym h)));
  }
  bind_columns-AllBound i (col ∷ cols) c c' h =
      elim (Option-cases (bind_column drv stmt i col row (null_bit_get m i) c)) [
        | inl out ↦ cc (rw (out, bind_columns) at h)
        | inr (p, e) ↦ elim (Bool-cases (is_ok p.0)) [
          | inl fine ↦
              add_column i col cols c p.1 c'
                (bind_column-Bound i col (null_bit_get m i) c p refl e fine)
                (bind_columns-AllBound (suc i) cols p.1 c' (rw (e, fine, bind_columns) at h))
          | inr bad ↦ absurd (
              ground (
                arith,
                bad,
                ap (λ q. is_ok q.0) (some-injective p (ok, c') (rw (e, bad, bind_columns) at h)),
              ))
        ]
      ]

-- On a driver that meets BindLaws: after `bind_row` has succeeded, the parameter of every column
-- of the schema, counted from 1, is the member's value, or NULL where the bitmap says so, and then
-- the column is nullable.
pub bind_row-IsBound :
    (drv : Driver) (laws : BindLaws drv) (stmt : drv.Stmt) (schema : Schema) (row : Row)
    (m : Option (List ℕ)) (c c' : drv.Ctx) (i : ℕ) (col : ColumnDef)
    → bind_row drv (some stmt) (some schema) (some row) m c ≡ some (ok, c')
    → get_elem? schema.cols i ≡ some col
    → IsBound row m i col (laws.param c' stmt (i + 1))
unfolding bind_row
bind_row-IsBound drv laws stmt schema row m c c' i col h e =
    subst (λ j. IsBound row m j col (laws.param c' stmt (j + 1)))
      (let p : 0 + i ≡ i = omega arith in p)
      ((bind_columns-AllBound drv laws stmt row m 0 schema.cols c c' h).set_here i col e)
