-- ===== src/Migration/Answers.antt =====
-- What src/migration.c relies on in a database: the rows that it answers to a query.
use mathlib.Core.Path.{subst}
use c2sql.Prelude.{ℕ, ◌≡◌, refl, ◌∙◌, CStr, true, false, Option, none, some, List, [], ◌∷◌}
use c2sql.Types.{SqlRdbResult, is_ok}
use c2sql.Driver.{Driver}
use c2sql.Migration.Steps.{Outcome, done, failed, State, Step, ◌>>=◌}

-- The values of a row, by the index of the column and the type they are read as.
pub record TableRow : Type 0 where
  pub ints : ℕ → ℕ
  pub texts : ℕ → Option CStr

-- A query has an answer, which is delivered row by row and which reading changes nothing of.
pub record QueryLaws (drv : Driver) : Type 0 where
  pub answer : drv.Ctx → CStr → Option CStr → List TableRow
  pub pending : drv.Stmt → drv.Ctx → List TableRow
  pub current : drv.Stmt → drv.Ctx → TableRow
  pub preparing :
      (sql : CStr) (c : drv.Ctx)
      → is_ok (drv.prepare sql c).0 ≡ true
      → pending (drv.prepare sql c).1 (drv.prepare sql c).2 ≡ answer c sql none
  pub binding :
      (sql p : CStr) (c : drv.Ctx)
      → let (r, stmt, c') = drv.prepare sql c in
        is_ok r ≡ true
        → is_ok (drv.bind_text stmt 1 p c').0 ≡ true
        → pending stmt (drv.bind_text stmt 1 p c').1 ≡ answer c sql (some p)
  pub step_last :
      (stmt : drv.Stmt) (c : drv.Ctx)
      → is_ok (drv.step stmt c).0 ≡ true
      → pending stmt c ≡ []
      → (drv.step stmt c).1 ≡ false
  pub step_next :
      (stmt : drv.Stmt) (c : drv.Ctx) (row : TableRow) (rows : List TableRow)
      → is_ok (drv.step stmt c).0 ≡ true
      → pending stmt c ≡ row ∷ rows
      → ((drv.step stmt c).1 ≡ true)
        × (pending stmt (drv.step stmt c).2 ≡ rows)
        × (current stmt (drv.step stmt c).2 ≡ row)
  pub int_value :
      (stmt : drv.Stmt) (i : ℕ) (c : drv.Ctx)
      → (drv.column_int32 stmt i c).1 ≡ (current stmt c).ints i
  pub text_value :
      (stmt : drv.Stmt) (i : ℕ) (c : drv.Ctx)
      → (drv.column_text stmt i c).1 ≡ (current stmt c).texts i
  pub int_keeps :
      (stmt : drv.Stmt) (i : ℕ) (c : drv.Ctx)
      → (pending stmt (drv.column_int32 stmt i c).2 ≡ pending stmt c)
        × (current stmt (drv.column_int32 stmt i c).2 ≡ current stmt c)
  pub text_keeps :
      (stmt : drv.Stmt) (i : ℕ) (c : drv.Ctx)
      → (pending stmt (drv.column_text stmt i c).2 ≡ pending stmt c)
        × (current stmt (drv.column_text stmt i c).2 ≡ current stmt c)
  pub prepare_same : (sql : CStr) (c : drv.Ctx) → answer (drv.prepare sql c).2 ≡ answer c
  pub bind_same :
      (stmt : drv.Stmt) (i : ℕ) (p : CStr) (c : drv.Ctx)
      → answer (drv.bind_text stmt i p c).1 ≡ answer c
  pub step_same : (stmt : drv.Stmt) (c : drv.Ctx) → answer (drv.step stmt c).2 ≡ answer c
  pub int_same :
      (stmt : drv.Stmt) (i : ℕ) (c : drv.Ctx) → answer (drv.column_int32 stmt i c).2 ≡ answer c
  pub text_same :
      (stmt : drv.Stmt) (i : ℕ) (c : drv.Ctx) → answer (drv.column_text stmt i c).2 ≡ answer c
  pub finalize_same : (stmt : drv.Stmt) (c : drv.Ctx) → answer (drv.finalize stmt c).1 ≡ answer c

module _ {drv : Driver} where
  unfoldable pub bound : {A B : Type 0} → (A → Step drv B) → Outcome A → Step drv B
  bound f (done a) t = f a t
  bound f (failed r) t = some (failed r, t)

  pub >>=_lem :
      {A B : Type 0} (m : Step drv A) (f : A → Step drv B) (s t : State drv) (o : Outcome A)
      → m s ≡ some (o, t)
      → (m >>= f) s ≡ bound f o t
  unfolding bound
  >>=_lem m f s t (done a) e = rw (e, ◌>>=◌) refl
  >>=_lem m f s t (failed r) e = rw (e, ◌>>=◌) refl

module _ (drv : Driver) (laws : QueryLaws drv) where
  -- The answers and the last error are those of before.
  pub record Same (s t : State drv) : Type 0 where
    pub answers : laws.answer t.ctx ≡ laws.answer s.ctx
    pub error : t.error ≡ s.error

  pub Same-refl : (s : State drv) → Same s s
  Same-refl s = record { answers = refl; error = refl }

  pub Same-trans : (s t u : State drv) → Same s t → Same t u → Same s u
  Same-trans s t u a b = record { answers = b.answers ∙ a.answers; error = b.error ∙ a.error }

  -- A step that only reads returns; unless it fails, its value is the expected one.
  pub record IsRead {A : Type 0} (s : State drv) (expected : A)
      (out : Option (Outcome A × State drv)) : Type 0 where
    pub outcome : Outcome A
    pub after : State drv
    pub returns : out ≡ some (outcome, after)
    pub value : (a : A) → outcome ≡ done a → a ≡ expected
    pub fails : (r : SqlRdbResult) → outcome ≡ failed r → is_ok r ≡ false
    pub same : Same s after

  pub give-IsRead :
      {A : Type 0} (s t : State drv) (a : A) → Same s t → IsRead s a (some (done a, t))
  give-IsRead s t a same = record {
    outcome = done a;
    after = t;
    returns = refl;
    value = λ b e. cc;
    fails = λ r e. cc;
    same = same;
  }

  pub failed-IsRead :
      {A : Type 0} (s t : State drv) (a : A) (r : SqlRdbResult)
      → is_ok r ≡ false
      → Same s t
      → IsRead s a (some (failed r, t))
  failed-IsRead s t a r bad same = record {
    outcome = failed r;
    after = t;
    returns = refl;
    value = λ b e. cc;
    fails = λ q e. let eq : r ≡ q = cc in subst (λ x. is_ok x ≡ false) eq bad;
    same = same;
  }

  -- What is read from a later state.
  later-IsRead :
      {B : Type 0} (s t : State drv) (b : B) (out : Option (Outcome B × State drv))
      → Same s t
      → IsRead t b out
      → IsRead s b out
  later-IsRead s t b out same i = record {
    outcome = i.outcome;
    after = i.after;
    returns = i.returns;
    value = i.value;
    fails = i.fails;
    same = Same-trans s t i.after same i.same;
  }

  bound-IsRead :
      {A B : Type 0} (s t : State drv) (f : A → Step drv B) (a : A) (b : B) (o : Outcome A)
      → Same s t
      → ((a' : A) → o ≡ done a' → a' ≡ a)
      → ((r : SqlRdbResult) → o ≡ failed r → is_ok r ≡ false)
      → IsRead t b (f a t)
      → IsRead s b (bound f o t)
  unfolding bound
  bound-IsRead s t f a b (done a') same value bad i =
      later-IsRead s t b (f a' t) same (rw (value a' refl) i)
  bound-IsRead s t f a b (failed r) same value bad i = failed-IsRead s t b r (bad r refl) same

  pub bind-IsRead :
      {A B : Type 0} (s : State drv) (m : Step drv A) (f : A → Step drv B) (a : A) (b : B)
      → IsRead s a (m s)
      → ((t : State drv) → Same s t → IsRead t b (f a t))
      → IsRead s b ((m >>= f) s)
  bind-IsRead s m f a b first next = rw (>>=_lem m f s first.after first.outcome first.returns) (
      bound-IsRead s first.after f a b first.outcome first.same first.value first.fails
        (next first.after first.same))
