-- ===== src/Life/History.antt =====
-- A process that calls SqlRDBInit and SqlRDBClose of src/c2sql.c in any order.
use c2sql.Prelude.{
  ℕ, ◌+◌, ◌≡◌, refl, CStr, Bool, false, Option, none, some, List, [], ◌∷◌, arith, Memory, ap, ◌∙◌,
  inl, inr, Bool-cases, ltb, Bool,
}
use c2sql.Types.{SqlRdbResult, err_invalid_handle}
use c2sql.Driver.{Driver}
use c2sql.StmtCache.Ordered.{statements}
use c2sql.StmtCache.Perform.{finalize_all}
use c2sql.Life.{live_contains, live_remove, OpenHandle, Process, init, close}
use c2sql.Life.World.{IsProcess}
use c2sql.Life.Opening.{opened_by, IsInit, init-IsInit}
use c2sql.Life.Closing.{rolled, IsClose, close-IsClose}
use c2sql.Life.Tally.{
  sum_of, sum_of-same, sum_of-append, sum_of-live_remove, mark, mark_of, mark_at, tally, IsKept,
  finalize_all-test,
}

pub data LifeCall : Type 0 where
  opening : Option CStr → Memory → LifeCall
  closing : ℕ → LifeCall

module _ (drv : Driver) where
  -- Before the first call.
  abbrev pub started : Process drv
  started = record { at = λ p. none; fresh = 1; live = []; live_capacity = 0; closed = [] }

  pub started-IsProcess : IsProcess drv started
  unfolding live_contains
  started-IsProcess = record {
    distinct = tt;
    known = λ p e. cc;
    unknown = λ p e. refl;
    below = λ p e. cc;
    fresh_nonzero = omega arith;
    room = omega arith;
  }

  module _ (null : drv.Stmt) (open_db : CStr → SqlRdbResult × drv.Ctx) (have_postgres : Bool) where
    abbrev pub result_of : {A : Type 0} → Option (A × Process drv) → Option (Process drv)
    result_of none = none
    result_of (some (a, w)) = some w

    abbrev pub live_step : LifeCall → Process drv → Option (Process drv)
    live_step (opening dsn m) w = result_of (init drv null open_db have_postgres dsn w m)
    live_step (closing p) w = result_of (close drv p w)

    abbrev pub history : List LifeCall → Process drv → Option (Process drv)
    history [] w = some w
    history (call ∷ calls) w = elim (live_step call w) [ none ↦ none | some t ↦ history calls t ]

    module _ (test : drv.Ctx → Bool) where
      abbrev pub opened_in : LifeCall → ℕ
      opened_in (opening dsn m) = mark_of drv test (opened_by drv null open_db have_postgres dsn)
      opened_in (closing p) = 0

      abbrev pub all_opened : List LifeCall → ℕ
      all_opened [] = 0
      all_opened (call ∷ calls) = opened_in call + all_opened calls

      abbrev weight : Process drv → ℕ → ℕ
      weight w p = mark_at drv test (w.at p)

      opening_lem :
          (w : Process drv) (m : Memory) (opened : Option drv.Ctx) (out : Option (ℕ × Process drv))
          (r : IsInit drv w m opened out)
          → tally drv test r.after ≡ tally drv test w + mark_of drv test opened
      opening_lem w m none out r =
          let same =
            sum_of-same (weight w) (weight r.after) w.live
              (λ p e. ap (mark_at drv test) (r.others p e)) in
          elim r.result [
            | inl (z, live, closed) ↦ rw (live, closed) (omega (arith, same))
            | inr (n, out, live, closed, o, at, e) ↦ cc e
          ]
      opening_lem w m (some q) out r =
          let same =
            sum_of-same (weight w) (weight r.after) w.live
              (λ p e. ap (mark_at drv test) (r.others p e)) in
          elim r.result [
            | inl (z, live, closed) ↦ rw (live, closed) (omega (arith, same))
            | inr (n, out, live, closed, o, at, e) ↦
                let new : weight r.after r.pointer ≡ mark drv test q = cc (at, e) in
                let appended = sum_of-append (weight r.after) r.pointer w.live in
                rw (live, closed) (omega (arith, same, appended, new))
          ]

      rolled-test :
          (o : OpenHandle drv) → IsKept drv test → test (rolled drv o) ≡ test o.handle.driver_ctx
      rolled-test o k = elim (Bool-cases (ltb 0 o.handle.txn.depth)) [
        | inl active ↦ rw (active, rolled) (k.rollback o.handle.driver_ctx)
        | inr idle ↦ rw (idle, rolled) refl
      ]

      closing_lem :
          (p : ℕ) (w : Process drv) (out : Option (SqlRdbResult × Process drv))
          (r : IsClose drv p w out)
          → IsKept drv test
          → IsProcess drv w
          → tally drv test r.after ≡ tally drv test w
      closing_lem p w out r k i = elim (Bool-cases (live_contains p w.live)) [
        | inr absent ↦ ap (tally drv test) (r.unchanged absent)
        | inl live ↦
            let (o, at, opened) = i.known p live in
            let vs = statements opened.map.pairs in
            let end : test (finalize_all drv vs (rolled drv o)) ≡ test o.handle.driver_ctx =
              finalize_all-test drv test vs (rolled drv o) k ∙ rolled-test o k in
            let closed = r.shut o opened.map live at opened.holds in
            let others =
              sum_of-same (weight w) (weight r.after) r.after.live
                (λ b e. ap (mark_at drv test) (r.others b (ground (arith, e, r.contains b)))) in
            let removed = sum_of-live_remove (weight w) p w.live live in
            let listed : sum_of (weight w) r.after.live
                ≡ sum_of (weight w) (live_remove p w.live).1 =
              ap (sum_of (weight w)) (r.listed live) in
            let own : weight w p ≡ mark drv test o.handle.driver_ctx = ap (mark_at drv test) at in
            rw (closed, end) (omega (arith, others, removed, listed, own))
      ]

      live_step-IsProcess :
          (call : LifeCall) (w : Process drv)
          → IsKept drv test
          → IsProcess drv w
          → (t : Process drv) × (live_step call w ≡ some t)
            × IsProcess drv t
            × (tally drv test t ≡ tally drv test w + opened_in call)
      live_step-IsProcess (opening dsn m) w k i =
          let r = init-IsInit drv null open_db have_postgres dsn w m i in
          (r.after, rw r.returns refl, r.process, opening_lem w m _ _ r)
      live_step-IsProcess (closing p) w k i =
          let r = close-IsClose drv null p w i in
          (r.after, rw r.returns refl, r.process, omega (arith, closing_lem p w _ r k i))

      -- Every list of calls of SqlRDBInit and SqlRDBClose returns, and leaves the handles well formed.
      -- The connections opened on the way have been closed or belong to live handles, each one once:
      -- whatever test on connections is chosen that a rollback and the finalization of statements keep,
      -- the closed ones and those of live handles that pass it are as many more than before as
      -- connections that pass it were opened.
      pub history-IsProcess :
          (calls : List LifeCall) (w : Process drv)
          → IsKept drv test
          → IsProcess drv w
          → (t : Process drv) × (history calls w ≡ some t)
            × IsProcess drv t
            × (tally drv test t ≡ tally drv test w + all_opened calls)
      history-IsProcess [] w k i = (w, refl, i, omega arith)
      history-IsProcess (call ∷ calls) w k i =
          let (u, e, j, n) = live_step-IsProcess call w k i in
          let (t, f, l, m) = history-IsProcess calls u k j in
          (t, rw (e, history) f, l, omega (arith, n, m))

  -- A second close of the same pointer is refused and changes nothing.
  pub close-close :
      (null : drv.Stmt) (p : ℕ) (w w' : Process drv) (r : SqlRdbResult)
      → IsProcess drv w
      → close drv p w ≡ some (r, w')
      → close drv p w' ≡ some (err_invalid_handle, w')
  close-close null p w w' r i e =
      let first = close-IsClose drv null p w i in
      let same : first.after ≡ w' = cc (e, first.returns) in
      let gone : live_contains p first.after.live ≡ false = ground (arith, first.contains p) in
      let second = close-IsClose drv null p first.after first.process in
      rw⁻¹ same (rw (second.unchanged gone, gone) at second.returns)
