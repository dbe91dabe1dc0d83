-- ===== src/Migration/Steps.antt =====
-- The queries of src/migration.c. A step has the handle and the allocator; it fails with a result code,
-- and `none` is a run without a defined outcome. The text of a column that is read into a buffer of
-- fixed size is dropped where it does not fit. What the calls that fetch a column return is ignored, as
-- in the source: a fetch gives what its variable holds after it.
use c2sql.Prelude.{
  ℕ, zero, suc, ◌*◌, CStr, Bool, true, false, not, ◌||◌, Option, none, some, List, [], ◌∷◌, ◌++◌,
  ◌==◌, ltb, if◌then◌else◌, length, Memory, malloc,
}
use c2sql.Types.{SqlRdbResult, err_no_memory, is_ok}
use c2sql.Driver.{Driver}
use c2sql.Migration.{DbCol, type_class_from_str, type_class_from_pg}

-- The bytes up to the first NUL.
unfoldable pub c_string : List ℕ → CStr
c_string [] = []
c_string (b ∷ bs) = if b == 0 then [] else b ∷ c_string bs

-- A column's text in a buffer of `size` bytes that was zero.
abbrev pub buffered : ℕ → Option CStr → CStr
buffered size none = []
buffered size (some bytes) = if ltb (length bytes) size then c_string bytes else []

abbrev pub mig_max_name : ℕ
mig_max_name = 128

-- The result of a step: a value, or the code that it fails with.
pub data Outcome (A : Type 0) : Type 0 where
  done : A → Outcome A
  failed : SqlRdbResult → Outcome A

-- The growing array of columns.
pub record Columns : Type 0 where
  pub cols : List DbCol
  pub cap : ℕ

abbrev pub added : DbCol → Columns → Columns
added col a = record a { cols = a.cols ++ col ∷ [] }

abbrev pub info_col : ℕ → Option CStr → Option CStr → ℕ → ℕ → DbCol
info_col cid name type nn pk = record {
  cid = cid;
  name = buffered mig_max_name name;
  type_class = type_class_from_str (buffered 32 type);
  notnull = not (nn == 0);
  pk = not (pk == 0);
  is_unique = false;
}

abbrev pub starts_with_n : Option CStr → Bool
starts_with_n (some (b ∷ c ∷ bs)) = b == b'N' || b == b'n'
starts_with_n _ = false

abbrev pub info_col_pg : ℕ → Option CStr → Option CStr → Option CStr → DbCol
info_col_pg n name type nn = record {
  cid = n;
  name = buffered mig_max_name name;
  type_class = type_class_from_pg (buffered 40 type);
  notnull = starts_with_n nn;
  pk = false;
  is_unique = false;
}

module _ (drv : Driver) where
  -- The connection, the allocator and the handle's last error.
  pub record State : Type 0 where
    pub ctx : drv.Ctx
    pub memory : Memory
    pub error : SqlRdbResult

  abbrev pub Step : Type 0 → Type 0
  Step A = State → Option (Outcome A × State)

module _ {drv : Driver} where
  -- A step, and what follows where it does not fail.
  infixl 5 ◌>>=◌ ◌>>◌
  abbrev pub ◌>>=◌ : {A B : Type 0} → Step drv A → (A → Step drv B) → Step drv B
  ◌>>=◌ m f s = elim (m s) [
    | none ↦ none
    | some (failed r, t) ↦ some (failed r, t)
    | some (done a, t) ↦ f a t
  ]

  abbrev pub ◌>>◌ : {A B : Type 0} → Step drv A → Step drv B → Step drv B
  ◌>>◌ m k = m >>= λ a. k

  abbrev pub give : {A : Type 0} → A → Step drv A
  give a s = some (done a, s)

  abbrev pub fail : {A : Type 0} → SqlRdbResult → Step drv A
  fail r s = some (failed r, s)

  -- The code is also recorded as the handle's last error.
  abbrev pub fail_noted : {A : Type 0} → SqlRdbResult → Step drv A
  fail_noted r s = some (failed r, record s { error = r })

  abbrev pub at : State drv → drv.Ctx → State drv
  at s c = record s { ctx = c }

module _ (drv : Driver) where
  abbrev pub fetch_int : drv.Stmt → ℕ → State drv → ℕ × State drv
  fetch_int stmt i s = let (r, v, c) = drv.column_int32 stmt i s.ctx in (v, at s c)

  abbrev pub fetch_text : drv.Stmt → ℕ → State drv → Option CStr × State drv
  fetch_text stmt i s = let (r, v, c) = drv.column_text stmt i s.ctx in (v, at s c)

  module _ {A : Type 0} (row : drv.Stmt → A → State drv → Bool × A × State drv) where
    -- The loop over the rows of a statement, `row` for each; it stops early where `row` says so, for
    -- lack of memory. `none` when it is not over after so many rounds.
    unfoldable pub for_rows : ℕ → drv.Stmt → A → State drv → Option (SqlRdbResult × A × State drv)
    for_rows zero stmt a s = none
    for_rows (suc fuel) stmt a s =
        let (r, has_row, c) = drv.step stmt s.ctx in
        let (goes_on, a', s') = row stmt a (at s c) in
        let rest = for_rows fuel stmt a' s' in
        if not (is_ok r) || not has_row
        then some (r, a, at s c)
        else if goes_on
        then rest
        else some (err_no_memory, a', s')

    -- The rows, and the end of the statement.
    unfoldable pub collected : ℕ → drv.Stmt → A → Step drv A
    collected fuel stmt a s = elim (for_rows fuel stmt a s) [
      | none ↦ none
      | some (r, b, t) ↦
          let u = at t (drv.finalize stmt t.ctx).1 in
          if is_ok r then some (done b, u) else some (failed r, u)
    ]

    -- A query with its parameter, or without one.
    unfoldable pub query : ℕ → CStr → Option CStr → A → Step drv A
    query fuel sql parameter a s =
        let (r, stmt, c) = drv.prepare sql s.ctx in
        let t = at s c in
        if not (is_ok r) then some (failed r, t) else elim parameter [
          | none ↦ collected fuel stmt a t
          | some p ↦
              let (r', c') = drv.bind_text stmt 1 p c in
              if is_ok r'
              then collected fuel stmt a (at t c')
              else some (failed r', at t (drv.finalize stmt c').1)
        ]

  -- Room for one more column.
  abbrev pub make_room : Columns → State drv → Bool × Columns × State drv
  make_room a s =
      let (got, m) = malloc s.memory in
      if length a.cols == a.cap
      then (got, record a { cap = if a.cap == 0 then 8 else a.cap * 2 }, record s { memory = m })
      else (true, a, s)

  -- A row of `PRAGMA table_info`.
  unfoldable pub info_row : drv.Stmt → Columns → State drv → Bool × Columns × State drv
  info_row stmt a s =
      let (got, b, s0) = make_room a s in
      let (cid, s1) = fetch_int stmt 0 s0 in
      let (name, s2) = fetch_text stmt 1 s1 in
      let (type, s3) = fetch_text stmt 2 s2 in
      let (nn, s4) = fetch_int stmt 3 s3 in
      let (pk, s5) = fetch_int stmt 5 s4 in
      if got then (true, added (info_col cid name type nn pk) b, s5) else (false, a, s0)

  -- A row of information_schema.columns.
  unfoldable pub info_row_pg : drv.Stmt → Columns → State drv → Bool × Columns × State drv
  info_row_pg stmt a s =
      let (got, b, s0) = make_room a s in
      let (name, s1) = fetch_text stmt 0 s0 in
      let (type, s2) = fetch_text stmt 1 s1 in
      let (nn, s3) = fetch_text stmt 2 s2 in
      if got then (true, added (info_col_pg (length a.cols) name type nn) b, s3) else (false, a, s0)
