-- ===== src/Txn/Tests.antt =====
-- The transaction functions of src/c2sql.c on a small engine that keeps a stack of savepoints.
use c2sql.Prelude.{
  ℕ, ◌≡◌, refl, CStr, true, false, Option, none, some, List, [], ◌∷◌, arith, str_eq, str_eq_refl,
  if◌then◌else◌,
}
use c2sql.Types.{SqlRdbResult, ok, err_driver, is_ok, sqlite}
use c2sql.Driver.{Driver}
use c2sql.Handle.{Handle, handle_magic}
use c2sql.Handle.Frame.{Ready}
use c2sql.Registry.{empty_registry}
use c2sql.Txn.Matches.{TxnLaws}
use c2sql.Txn.Savepoints.{InStep}
use c2sql.Txn.Run.{begin, commit, rollback, run, Finished, run-Finished}

abbrev Stack : Type 0
Stack = Option (List CStr)

abbrev begin_in : Stack → SqlRdbResult × Stack
begin_in none = (ok, some [])
begin_in (some ns) = (err_driver, some ns)

abbrev end_in : Stack → SqlRdbResult × Stack
end_in none = (err_driver, none)
end_in (some ns) = (ok, none)

abbrev push_in : CStr → Stack → SqlRdbResult × Stack
push_in n none = (err_driver, none)
push_in n (some ns) = (ok, some (n ∷ ns))

-- Only the innermost savepoint is released.
abbrev pop_in : CStr → Stack → SqlRdbResult × Stack
pop_in n none = (err_driver, none)
pop_in n (some []) = (err_driver, some [])
pop_in n (some (m ∷ ns)) = if str_eq m n then (ok, some ns) else (err_driver, some (m ∷ ns))

abbrev engine : Driver
engine = record {
  Ctx = Stack;
  Stmt = ℕ;
  dialect = sqlite;
  exec = λ sql c. (ok, c);
  prepare = λ sql c. (ok, 0, c);
  bind_int64 = λ s i v c. (ok, c);
  bind_int32 = λ s i v c. (ok, c);
  bind_real = λ s i v c. (ok, c);
  bind_text = λ s i v c. (ok, c);
  bind_blob = λ s i v c. (ok, c);
  bind_null = λ s i c. (ok, c);
  step = λ s c. (ok, false, c);
  column_int64 = λ s i c. (ok, 0, c);
  column_int32 = λ s i c. (ok, 0, c);
  column_real = λ s i c. (ok, 0, c);
  column_text = λ s i c. (ok, none, c);
  column_blob = λ s i c. (ok, none, c);
  column_isnull = λ s i c. (ok, true, c);
  reset = λ s c. (ok, c);
  finalize = λ s c. (ok, c);
  begin = begin_in;
  commit = end_in;
  rollback = end_in;
  savepoint = push_in;
  release_sp = pop_in;
  rollback_sp = λ n c. (ok, c);
  changes = λ c. 0;
}

begin_ok_lem : (c : Stack) → c ≡ none → is_ok (begin_in c).0 ≡ true → (begin_in c).1 ≡ some []
begin_ok_lem none e r = refl
begin_ok_lem (some ns) e r = absurd (ground arith)

end_ok_lem : (c : Stack) → is_ok (end_in c).0 ≡ true → (end_in c).1 ≡ none
end_ok_lem none r = refl
end_ok_lem (some ns) r = refl

push_ok_lem :
    (c : Stack) (n : CStr) (ns : List CStr)
    → c ≡ some ns
    → is_ok (push_in n c).0 ≡ true
    → (push_in n c).1 ≡ some (n ∷ ns)
push_ok_lem c n ns e r = rw (e, push_in)

pop_ok_lem :
    (c : Stack) (n : CStr) (ns : List CStr)
    → c ≡ some (n ∷ ns)
    → is_ok (pop_in n c).0 ≡ true
    → (pop_in n c).1 ≡ some ns
pop_ok_lem c n ns e r = rw (e, pop_in, str_eq_refl n)

engine_laws : TxnLaws engine
engine_laws = record {
  stack = λ c. c;
  begin_ok = begin_ok_lem;
  commit_ok = end_ok_lem;
  rollback_ok = end_ok_lem;
  savepoint_ok = push_ok_lem;
  release_ok = pop_ok_lem;
  rewind_ok = λ c n ns e r. e;
}

abbrev fresh : Handle engine
fresh = record {
  magic = handle_magic;
  driver_ctx = none;
  registry = empty_registry;
  txn = record {
    depth = 0;
    sp_names = [] ∷ [] ∷ [] ∷ [] ∷ [] ∷ [] ∷ [] ∷ [] ∷ [] ∷ [] ∷ [] ∷ [] ∷ [] ∷ [] ∷ [] ∷ [] ∷ [];
  };
  error = ok;
  mutex = record { threadsafe = true; held = false };
}

fresh-Ready : Ready fresh
fresh-Ready = record { valid = refl; free = refl }

fresh-InStep : InStep engine engine_laws fresh
unfolding engine_laws
fresh-InStep = record {
  stacked = refl;
  bounded = omega arith;
  slots = refl;
  named = λ i lo hi. absurd (omega arith);
}

run-Finished_example :
    Finished engine engine_laws fresh
      (run engine (begin ∷ begin ∷ rollback ∷ commit ∷ commit ∷ []) fresh)
run-Finished_example =
    run-Finished engine engine_laws (begin ∷ begin ∷ rollback ∷ commit ∷ commit ∷ []) fresh
      fresh-Ready fresh-InStep
