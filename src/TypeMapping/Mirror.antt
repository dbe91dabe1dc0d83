-- ===== src/TypeMapping/Mirror.antt =====
-- A driver of the interface in src/db_driver.h, to run the functions of src/type_mapping.c on: it keeps
-- the parameters of its statements in one table and answers with them as the columns of a row.
use c2sql.Prelude.{
  ◌≢◌, ℕ, ◌+◌, ◌%◌, ◌^◌, ◌≡◌, refl, Bool, true, false, Option, none, some, List, arith, ◌==◌,
  ==_refl, if◌then◌else◌,
}
use c2sql.Types.{SqlRdbResult, ok, sqlite}
use c2sql.Driver.{Driver}
use c2sql.TypeMapping.{Cell, int32_cell, int64_cell, real_cell, text_cell, blob_cell, send}
use c2sql.TypeMapping.Member.{sign_extend}
use c2sql.TypeMapping.Binding.{Param, null_param, value_param, BindLaws}

abbrev pub Params : Type 0
Params = ℕ → Option Param

abbrev pub bind_param : ℕ → Param → Params → SqlRdbResult × Params
bind_param i p c = (ok, λ j. if i == j then some p else c j)

abbrev pub integer : Option Param → ℕ
integer (some (value_param (int32_cell v))) = sign_extend v
integer (some (value_param (int64_cell v))) = v
integer (some (value_param (real_cell v))) = v
integer _ = 0

abbrev pub bytes : Option Param → Option (List ℕ)
bytes (some (value_param (text_cell s))) = some s
bytes (some (value_param (blob_cell s))) = some s
bytes _ = none

abbrev pub is_null : Option Param → Bool
is_null (some (value_param _)) = false
is_null _ = true

abbrev pub mirror : Driver
mirror = record {
  Ctx = Params;
  Stmt = ℕ;
  dialect = sqlite;
  exec = λ sql c. (ok, c);
  prepare = λ sql c. (ok, 0, c);
  bind_int64 = λ s i v c. bind_param i (value_param (int64_cell v)) c;
  bind_int32 = λ s i v c. bind_param i (value_param (int32_cell v)) c;
  bind_real = λ s i v c. bind_param i (value_param (real_cell v)) c;
  bind_text = λ s i v c. bind_param i (value_param (text_cell v)) c;
  bind_blob = λ s i v c. bind_param i (value_param (blob_cell v)) c;
  bind_null = λ s i c. bind_param i null_param c;
  step = λ s c. (ok, true, c);
  column_int64 = λ s i c. (ok, integer (c (i + 1)), c);
  column_int32 = λ s i c. (ok, integer (c (i + 1)) % 2 ^ 32, c);
  column_real = λ s i c. (ok, integer (c (i + 1)), c);
  column_text = λ s i c. (ok, bytes (c (i + 1)), c);
  column_blob = λ s i c. (ok, bytes (c (i + 1)), c);
  column_isnull = λ s i c. (ok, is_null (c (i + 1)), c);
  reset = λ s c. (ok, c);
  finalize = λ s c. (ok, c);
  begin = λ c. (ok, c);
  commit = λ c. (ok, c);
  rollback = λ c. (ok, c);
  savepoint = λ n c. (ok, c);
  release_sp = λ n c. (ok, c);
  rollback_sp = λ n c. (ok, c);
  changes = λ c. 0;
}

pub sent_lem :
    (s : ℕ) (i j : ℕ) (v : Cell) (c : Params)
    → (send mirror s i v c).1 j ≡ (if i == j then some (value_param v) else c j)
unfolding send
sent_lem s i j (int32_cell v) c = refl
sent_lem s i j (int64_cell v) c = refl
sent_lem s i j (real_cell v) c = refl
sent_lem s i j (text_cell v) c = refl
sent_lem s i j (blob_cell v) c = refl

pub ==-ne : (i j : ℕ) → i ≢ j → (i == j) ≡ false
==-ne i j ne = ground arith

unfoldable pub mirror_laws : BindLaws mirror
mirror_laws = record {
  param = λ c s i. c i;
  sent = λ s i v c fine. rw (sent_lem s i i v c, ==_refl i) refl;
  sent_other = λ s i j v c fine ne. rw (sent_lem s i j v c, ==-ne i j ne) refl;
  nulled = λ s i c fine. rw (==_refl i) refl;
  nulled_other = λ s i j c fine ne. rw (==-ne i j ne) refl;
}
