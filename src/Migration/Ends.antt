-- ===== src/Migration/Ends.antt =====
-- Steps of src/migration.c that come to an end, with what holds of their value and the state after them.
use mathlib.Core.Path.{subst}
use c2sql.Prelude.{false, ◌≡◌, refl, Option, some}
use c2sql.Types.{SqlRdbResult, is_ok}
use c2sql.Driver.{Driver}
use c2sql.Migration.Steps.{Outcome, done, failed, State, Step, ◌>>=◌}
use c2sql.Migration.Answers.{QueryLaws, IsRead, bound, >>=_lem}

module _ {drv : Driver} where
  -- The run comes to an outcome: the value that it gives has the property `P`, or, where it fails, the
  -- state has the property `F`.
  pub record Ends {A : Type 0} (F : SqlRdbResult → State drv → Type 0) (P : A → State drv → Type 0)
      (out : Option (Outcome A × State drv)) : Type 0 where
    pub outcome : Outcome A
    pub after : State drv
    pub returns : out ≡ some (outcome, after)
    pub post : (a : A) → outcome ≡ done a → P a after
    pub on_failure : (r : SqlRdbResult) → outcome ≡ failed r → F r after

  pub Ends-done :
      {A : Type 0} {F : SqlRdbResult → State drv → Type 0} {P : A → State drv → Type 0} (a : A)
      (s : State drv)
      → P a s
      → Ends F P (some (done a, s))
  Ends-done {A} {F} {P} a s p = record {
    outcome = done a;
    after = s;
    returns = refl;
    post = λ b e. let same : a ≡ b = cc in subst (λ x. P x s) same p;
    on_failure = λ r e. cc;
  }

  pub Ends-failed :
      {A : Type 0} {F : SqlRdbResult → State drv → Type 0} {P : A → State drv → Type 0}
      (r : SqlRdbResult) (s : State drv)
      → F r s
      → Ends F P (some (failed r, s))
  Ends-failed {A} {F} r s f = record {
    outcome = failed r;
    after = s;
    returns = refl;
    post = λ b e. cc;
    on_failure = λ q e. let same : r ≡ q = cc in subst (λ x. F x s) same f;
  }

  bound-Ends :
      {A B : Type 0} {F : SqlRdbResult → State drv → Type 0} (P : A → State drv → Type 0)
      {Q : B → State drv → Type 0} (f : A → Step drv B) (o : Outcome A) (t : State drv)
      → ((a : A) → o ≡ done a → P a t)
      → ((r : SqlRdbResult) → o ≡ failed r → F r t)
      → ((a : A) → P a t → Ends F Q (f a t))
      → Ends F Q (bound f o t)
  unfolding bound
  bound-Ends P f (done a) t p b k = k a (p a refl)
  bound-Ends P f (failed r) t p b k = Ends-failed r t (b r refl)

  pub bind-Ends :
      {A B : Type 0} {F : SqlRdbResult → State drv → Type 0} (P : A → State drv → Type 0)
      {Q : B → State drv → Type 0} (m : Step drv A) (f : A → Step drv B) (s : State drv)
      → Ends F P (m s)
      → ((a : A) (t : State drv) → P a t → Ends F Q (f a t))
      → Ends F Q ((m >>= f) s)
  bind-Ends P m f s first next = rw (>>=_lem m f s first.after first.outcome first.returns) (
      bound-Ends P f first.outcome first.after first.post first.on_failure
        (λ a. next a first.after))

  -- What is read is the expected value, and the answers of the database are the same after it.
  pub IsRead-Ends :
      (laws : QueryLaws drv) {A : Type 0} (s : State drv) (a : A)
      {out : Option (Outcome A × State drv)}
      → IsRead drv laws s a out
      → Ends (λ r t. is_ok r ≡ false) (λ b t. (b ≡ a) × (laws.answer t.ctx ≡ laws.answer s.ctx)) out
  IsRead-Ends laws s a i = record {
    outcome = i.outcome;
    after = i.after;
    returns = i.returns;
    post = λ b e. (i.value b e, i.same.answers);
    on_failure = i.fails;
  }
