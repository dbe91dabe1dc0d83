-- ===== src/QueryBuilder/Emit/Rules.antt =====
-- What a step of src/query_builder.c emits, whatever the allocator does: `Emits q n t m` says that
-- `q`, started with `n` placeholders written, appends the text `t` and ends with `m` placeholders,
-- or stops with `err_no_memory` because an allocation failed. Rules for each way to build a step.
use c2sql.Prelude.{
  ℕ, ◌+◌, ◌≤◌, ◌≡◌, refl, sym, ◌∙◌, ap, CStr, Bool, true, false, Option, some, [], ◌++◌, arith,
  if◌then◌else◌, length, length-append, Plenty, Memory,
}
use mathlib.Core.List.{append_assoc, append-nil}
use mathlib.Core.Path.{subst}
use c2sql.Types.{SqlRdbResult, ok, err_no_memory, is_ok, SqlDialect}
use c2sql.QueryBuilder.Buf.{
  Buf, IsBuf, text_limit, Appended, appended, no_room, buf_append-Appended,
}
use c2sql.QueryBuilder.Render.{mark}
use c2sql.QueryBuilder.Render.Pieces.{placeholder-mark}
use c2sql.QueryBuilder.Emit.{
  BuildState, Step, after_step, ◌>>◌, return, append, append_when, appended_state, count_bind,
  placeholder, append_placeholder,
}

pub data Post (st : BuildState) (txt : CStr) (m : ℕ)
    : Option (SqlRdbResult × BuildState) → Type 0 where
  emitted :
      (st' : BuildState)
      → IsBuf st'.buf
      → st'.buf.data_bytes ≡ st.buf.data_bytes ++ txt
      → st'.binds ≡ m
      → (Plenty st.memory → Plenty st'.memory)
      → Post st txt m (some (ok, st'))
  starved : (st' : BuildState) → ¬ Plenty st.memory → Post st txt m (some (err_no_memory, st'))

-- The text that is there and `txt` fit, so that no size wraps.
abbrev pub Fits : BuildState → CStr → Type 0
Fits st txt = length st.buf.data_bytes + length txt + 1 ≤ text_limit

pub record Emits (q : Step) (n : ℕ) (txt : CStr) (m : ℕ) : Type 0 where
  pub at : (st : BuildState) → IsBuf st.buf → st.binds ≡ n → Fits st txt → Post st txt m (q st)

append-Post :
    (st : BuildState) (s : CStr) (n : ℕ) {o : Option (Bool × Buf × Memory)}
    → st.binds ≡ n
    → Appended st.buf s st.memory o
    → Post st s n (appended_state st o)
append-Post st s n e (appended b m v d p) = emitted _ v d e p
append-Post st s n e (no_room m h) = starved _ h

pub Emits-append : (s : CStr) (n : ℕ) → Emits (append s) n s n
unfolding append
Emits-append s n = record {
  at = λ st v e h. append-Post st s n e (buf_append-Appended st.buf s st.memory v h);
}

pub Emits-return : (n : ℕ) → Emits (return ok) n [] n
unfolding return
Emits-return n = record { at = λ st v e h. emitted st v (sym (append-nil _)) e (λ p. p) }

shift-Post :
    (a : CStr) {st st' : BuildState} {b : CStr} {m : ℕ} {o : Option (SqlRdbResult × BuildState)}
    → st'.buf.data_bytes ≡ st.buf.data_bytes ++ a
    → (Plenty st.memory → Plenty st'.memory)
    → Post st' b m o
    → Post st (a ++ b) m o
shift-Post a e p (emitted st'' v d f q) = emitted st'' v (d ∙ rw (e, append_assoc)) f (λ h. q (p h))
shift-Post a e p (starved st'' h) = starved st'' (λ g. h (p g))

count-Post :
    (d : SqlDialect) (st : BuildState)
    → IsBuf st.buf
    → Fits st (placeholder d (st.binds + 1))
    → Post st (placeholder d (st.binds + 1)) (st.binds + 1) (append_placeholder d st)
unfolding append_placeholder count_bind ◌>>◌
count-Post d st v h =
    shift-Post [] (sym (append-nil _)) (λ p. p)
      ((Emits-append (placeholder d (st.binds + 1)) (st.binds + 1)).at
        (record st { binds = st.binds + 1 }) v refl h)

pub Emits-placeholder :
    (d : SqlDialect) (n : ℕ) → Emits (append_placeholder d) n (mark d (n + 1)) (n + 1)
Emits-placeholder d n = rw (← placeholder-mark d (n + 1)) record {
  at = λ st v e h.
      subst
        (λ k.
          Fits st (placeholder d (k + 1))
          → Post st (placeholder d (k + 1)) (k + 1) (append_placeholder d st))
        e (count-Post d st v) h;
}

then-Post :
    (st : BuildState) (a b : CStr) (k m : ℕ) (r : Step) {o : Option (SqlRdbResult × BuildState)}
    → Fits st (a ++ b)
    → Emits r k b m
    → Post st a k o
    → Post st (a ++ b) m (after_step r o)
then-Post st a b k m r h er (emitted st' v d e p) = shift-Post a d p (
    er.at st' v e
      (omega (arith, ap length d, length-append st.buf.data_bytes a, length-append a b)))
then-Post st a b k m r h er (starved st' g) = starved st' g

pub Emits-then :
    {q r : Step} {n k m : ℕ} {a b : CStr}
    → Emits q n a k
    → Emits r k b m
    → Emits (q >> r) n (a ++ b) m
unfolding ◌>>◌
Emits-then {q} {r} {n} {k} {m} {a} {b} eq er = record {
  at = λ st v e h. then-Post st a b k m r h er (eq.at st v e (omega (arith, length-append a b)));
}

Emits-when : (b : Bool) (s : CStr) (n : ℕ) → Emits (append_when b s) n (if b then s else []) n
unfolding append_when
Emits-when true s n = Emits-append s n
Emits-when false s n = Emits-return n

pub Emits-text : {q : Step} {n m : ℕ} {t u : CStr} → t ≡ u → Emits q n t m → Emits q n u m
Emits-text {q} {n} {m} e h = subst (λ t. Emits q n t m) e h

-- The rules as a chain: `put ▹ put_when ▹ … `, in the order of the steps.
infixr 6 ◌▹◌
pub ◌▹◌ :
    {q r : Step} {n k m : ℕ} {a b : CStr}
    → Emits q n a k
    → Emits r k b m
    → Emits (q >> r) n (a ++ b) m
◌▹◌ = Emits-then

pub put : {s : CStr} {n : ℕ} → Emits (append s) n s n
put {s} {n} = Emits-append s n

pub put_when : (b : Bool) (s : CStr) {n : ℕ} → Emits (append_when b s) n (if b then s else []) n
put_when b s {n} = Emits-when b s n

-- A step that ends with the error `c`, unless memory runs out before it; `txt` bounds what it
-- appends on the way.
pub data RefusePost (st : BuildState) (c : SqlRdbResult)
    : Option (SqlRdbResult × BuildState) → Type 0 where
  refusing : (st' : BuildState) → RefusePost st c (some (c, st'))
  starving : (st' : BuildState) → ¬ Plenty st.memory → RefusePost st c (some (err_no_memory, st'))

pub record Refuses (q : Step) (n : ℕ) (txt : CStr) (c : SqlRdbResult) : Type 0 where
  pub at : (st : BuildState) → IsBuf st.buf → st.binds ≡ n → Fits st txt → RefusePost st c (q st)

pub Refuses-return :
    (k : Step) (n : ℕ) (t : CStr) (c : SqlRdbResult)
    → is_ok c ≡ false
    → Refuses (return c >> k) n t c
unfolding return ◌>>◌
Refuses-return k n t c h = record { at = λ st v e g. rw h (refusing st) }

shift_refusal :
    {st st' : BuildState} {c : SqlRdbResult} {o : Option (SqlRdbResult × BuildState)}
    → (Plenty st.memory → Plenty st'.memory)
    → RefusePost st' c o
    → RefusePost st c o
shift_refusal p (refusing st'') = refusing st''
shift_refusal p (starving st'' h) = starving st'' (λ g. h (p g))

then_refusal :
    (st : BuildState) (a b : CStr) (k : ℕ) (c : SqlRdbResult) (r : Step)
    {o : Option (SqlRdbResult × BuildState)}
    → Fits st (a ++ b)
    → Refuses r k b c
    → Post st a k o
    → RefusePost st c (after_step r o)
then_refusal st a b k c r h er (emitted st' v d e p) = shift_refusal p (
    er.at st' v e
      (omega (arith, ap length d, length-append st.buf.data_bytes a, length-append a b)))
then_refusal st a b k c r h er (starved st' g) = starving st' g

-- The last step of a chain refuses.
infixr 6 ◌▹✗◌
pub ◌▹✗◌ :
    {q r : Step} {n k : ℕ} {a b : CStr} {c : SqlRdbResult}
    → Emits q n a k
    → Refuses r k b c
    → Refuses (q >> r) n (a ++ b) c
unfolding ◌>>◌
◌▹✗◌ {q} {r} {n} {k} {a} {b} {c} eq er = record {
  at = λ st v e h. then_refusal st a b k c r h er (eq.at st v e (omega (arith, length-append a b)));
}

pub Emits-count : {q : Step} {n k m : ℕ} {t : CStr} → k ≡ m → Emits q n t k → Emits q n t m
Emits-count {q} {n} {t = t} e h = subst (λ k. Emits q n t k) e h

pub Refuses-text :
    {q : Step} {n : ℕ} {c : SqlRdbResult} {t u : CStr} → t ≡ u → Refuses q n t c → Refuses q n u c
Refuses-text {q} {n} {c} e h = subst (λ t. Refuses q n t c) e h

pub Refuses-last :
    (n : ℕ) (t : CStr) (c : SqlRdbResult) → is_ok c ≡ false → Refuses (return c) n t c
unfolding return
Refuses-last n t c h = record { at = λ st v e g. refusing st }
