-- ===== src/Txn/Run.antt =====
-- src/c2sql.c, sequences of transaction calls on one handle.
use c2sql.Prelude.{
  arith, ℕ, suc, ◌-◌, ◌≡◌, refl, sym, ◌∙◌, ap, false, Option, none, some, List, [], ◌∷◌, if-intro,
  ◌==◌, leb, ltb, Bool, true, if◌then◌else◌,
}
use c2sql.Types.{SqlRdbResult, ok, is_ok}
use c2sql.Driver.{Driver}
use c2sql.Handle.{Handle, TxnState, api}
use c2sql.Handle.Frame.{Ready, lock, unlock, unlock-Ready, api_lem}
use c2sql.Txn.{
  max_tx_depth, settle, deeper, shallower, open_level, begin_body, begin_tx, commit_level,
  commit_body, commit_tx, rewind, innermost, rollback_level, rollback_body, rollback_tx,
}
use c2sql.Txn.Matches.{TxnLaws}
use c2sql.Txn.Savepoints.{InStep, begin_body-InStep, commit_body-InStep, rollback_body-InStep}

pub data Request : Type 0 where
  begin : Request
  commit : Request
  rollback : Request

-- The depth after a call, by its result alone.
abbrev pub depth_after : Request → SqlRdbResult → ℕ → ℕ
depth_after begin r d = if is_ok r then suc d else d
depth_after commit r d = if is_ok r then d - 1 else d
depth_after rollback r d = if is_ok r then d - 1 else d

abbrev pub depth_after_all : List (Request × SqlRdbResult) → ℕ → ℕ
depth_after_all [] d = d
depth_after_all ((q, r) ∷ done) d = depth_after_all done (depth_after q r d)

-- Whether a call at that depth sends a command to the database.
abbrev pub sends : Request → ℕ → Bool
sends begin d = ltb d 16
sends commit d = ltb 0 d
sends rollback d = ltb 0 d

-- No call that has sent a command has failed.
abbrev pub AreUnbroken : List (Request × SqlRdbResult) → ℕ → Type 0
AreUnbroken [] d = Unit
AreUnbroken ((q, r) ∷ done) d =
    (sends q d ≡ true → is_ok r ≡ true) × AreUnbroken done (depth_after q r d)

module _ (drv : Driver) where
  abbrev body : Request → Handle drv → SqlRdbResult × Handle drv
  body begin = begin_body drv
  body commit = commit_body drv
  body rollback = rollback_body drv

  pub request : Request → Handle drv → Option (SqlRdbResult × Handle drv)
  request begin h = begin_tx drv h
  request commit h = commit_tx drv h
  request rollback h = rollback_tx drv h

  -- The calls in their order, with the result of each.
  pub run : List Request → Handle drv → Option (List (Request × SqlRdbResult) × Handle drv)
  run [] h = some ([], h)
  run (q ∷ qs) h = elim (request q h) [
    | none ↦ none
    | some (r, h') ↦ elim (run qs h') [ none ↦ none | some (done, h'') ↦ some ((q, r) ∷ done, h'') ]
  ]

  request-api : (q : Request) (h : Handle drv) → request q h ≡ api (body q) h
  unfolding request begin_tx commit_tx rollback_tx
  request-api begin h = refl
  request-api commit h = refl
  request-api rollback h = refl

  -- What a body leaves alone, and how it moves the depth.
  record Moved (q : Request) (h : Handle drv) (p : SqlRdbResult × Handle drv) : Type 0 where
    magic : p.1.magic ≡ h.magic
    mutex : p.1.mutex ≡ h.mutex
    depth : p.1.txn.depth ≡ depth_after q p.0 h.txn.depth

  -- What the command of a level leaves alone.
  record Sent (h : Handle drv) (p : SqlRdbResult × Handle drv) : Type 0 where
    magic : p.1.magic ≡ h.magic
    mutex : p.1.mutex ≡ h.mutex
    depth : p.1.txn.depth ≡ h.txn.depth

  Sent-same :
      (h : Handle drv) (r : SqlRdbResult) (c : drv.Ctx) → Sent h (r, record h { driver_ctx = c })
  Sent-same h r c = record { magic = refl; mutex = refl; depth = refl }

  settle-Moved :
      (move : TxnState → TxnState) (q : Request) (h : Handle drv) (p : SqlRdbResult × Handle drv)
      → ((t : TxnState) → (move t).depth ≡ depth_after q ok t.depth)
      → ((r : SqlRdbResult) (d : ℕ) → is_ok r ≡ false → depth_after q r d ≡ d)
      → Sent h p
      → Moved q h (settle drv move p.0 p.1)
  unfolding settle
  settle-Moved move q h p good bad s =
      if-intro (Moved q h) (is_ok p.0)
        (λ e. record {
          magic = s.magic;
          mutex = s.mutex;
          depth = good p.1.txn ∙ ap (depth_after q ok) s.depth;
        })
        (λ e. record {
          magic = s.magic;
          mutex = s.mutex;
          depth = s.depth ∙ sym (bad p.0 h.txn.depth e);
        })

  failed-same : (q : Request) (r : SqlRdbResult) (d : ℕ) → is_ok r ≡ false → depth_after q r d ≡ d
  failed-same begin r d e = ground arith
  failed-same commit r d e = ground arith
  failed-same rollback r d e = ground arith

  open_level-Sent : (h : Handle drv) → Sent h (open_level drv h)
  unfolding open_level
  open_level-Sent h =
      if-intro (Sent h) (h.txn.depth == 0) (λ _. Sent-same h _ _)
        (λ _. record { magic = refl; mutex = refl; depth = refl })

  commit_level-Sent : (h : Handle drv) → Sent h (commit_level drv h)
  unfolding commit_level
  commit_level-Sent h =
      if-intro (Sent h) (h.txn.depth == 1) (λ _. Sent-same h _ _) (λ _. Sent-same h _ _)

  rollback_level-Sent : (h : Handle drv) → Sent h (rollback_level drv h)
  unfolding rollback_level rewind
  rollback_level-Sent h =
      if-intro (Sent h) (h.txn.depth == 1) (λ _. Sent-same h _ _)
        (λ _.
          if-intro (Sent h) (is_ok (drv.rollback_sp (innermost drv h) h.driver_ctx).0)
            (λ _. Sent-same h _ _) (λ _. Sent-same h _ _))

  body-Moved : (q : Request) (h : Handle drv) → Moved q h (body q h)
  unfolding begin_body commit_body rollback_body
  body-Moved begin h =
      if-intro (Moved begin h) (leb max_tx_depth h.txn.depth)
        (λ _. record { magic = refl; mutex = refl; depth = refl })
        (λ _.
          settle-Moved deeper begin h (open_level drv h) (λ t. omega arith) (failed-same begin)
            (open_level-Sent h))
  body-Moved commit h =
      if-intro (Moved commit h) (h.txn.depth == 0)
        (λ _. record { magic = refl; mutex = refl; depth = refl })
        (λ _.
          settle-Moved shallower commit h (commit_level drv h) (λ t. refl) (failed-same commit)
            (commit_level-Sent h))
  body-Moved rollback h =
      if-intro (Moved rollback h) (h.txn.depth == 0)
        (λ _. record { magic = refl; mutex = refl; depth = refl })
        (λ _.
          settle-Moved shallower rollback h (rollback_level drv h) (λ t. refl)
            (failed-same rollback) (rollback_level-Sent h))

  module _ (laws : TxnLaws drv) where
    body-InStep :
        (q : Request) (h : Handle drv)
        → InStep drv laws h
        → (sends q h.txn.depth ≡ true → is_ok (body q h).0 ≡ true)
        → InStep drv laws (body q h).1
    body-InStep begin h v = begin_body-InStep drv laws h v
    body-InStep commit h v = commit_body-InStep drv laws h v
    body-InStep rollback h v = rollback_body-InStep drv laws h v

    -- A call that came back.
    record Answered (q : Request) (h : Handle drv) (o : Option (SqlRdbResult × Handle drv))
        : Type 0 where
      result : SqlRdbResult
      pub after : Handle drv
      pub returned : o ≡ some (result, after)
      pub ready : Ready after
      pub depth : after.txn.depth ≡ depth_after q result h.txn.depth
      pub in_step :
          InStep drv laws h
          → (sends q h.txn.depth ≡ true → is_ok result ≡ true)
          → InStep drv laws after

    request-Answered : (q : Request) (h : Handle drv) → Ready h → Answered q h (request q h)
    request-Answered q h rdy =
        let m = body-Moved q (lock h) in
        record {
          result = (body q (lock h)).0;
          after = unlock (body q (lock h)).1;
          returned = request-api q h ∙ api_lem (body q) h rdy;
          ready = unlock-Ready h (body q (lock h)).1 rdy m.magic m.mutex;
          depth = m.depth;
          in_step = λ v good. body-InStep q (lock h) v good;
        }

    pub record Finished (h : Handle drv) (o : Option (List (Request × SqlRdbResult) × Handle drv))
        : Type 0 where
      pub done : List (Request × SqlRdbResult)
      pub after : Handle drv
      pub returned : o ≡ some (done, after)
      pub ready : Ready after
      pub depth : after.txn.depth ≡ depth_after_all done h.txn.depth
      pub in_step : AreUnbroken done h.txn.depth → InStep drv laws after

    unbroken_in_step :
        (q : Request) (h : Handle drv) (o : Option (SqlRdbResult × Handle drv)) (a : Answered q h o)
        (done : List (Request × SqlRdbResult))
        → AreUnbroken ((q, a.result) ∷ done) h.txn.depth
        → AreUnbroken done a.after.txn.depth
    unbroken_in_step q h o a done u = rw a.depth u.1

    -- The end of a sequence, in step where the start was.
    record Ended (h : Handle drv) (o : Option (List (Request × SqlRdbResult) × Handle drv))
        : Type 0 where
      done : List (Request × SqlRdbResult)
      after : Handle drv
      returned : o ≡ some (done, after)
      ready : Ready after
      depth : after.txn.depth ≡ depth_after_all done h.txn.depth
      in_step : InStep drv laws h → AreUnbroken done h.txn.depth → InStep drv laws after

    run-Ended : (qs : List Request) (h : Handle drv) → Ready h → Ended h (run qs h)
    unfolding run
    run-Ended [] h rdy = record {
      done = [];
      after = h;
      returned = refl;
      ready = rdy;
      depth = refl;
      in_step = λ v u. v;
    }
    run-Ended (q ∷ qs) h rdy =
        let a = request-Answered q h rdy in
        let f = run-Ended qs a.after a.ready in
        record {
          done = (q, a.result) ∷ f.done;
          after = f.after;
          returned = rw (run, a.returned, f.returned);
          ready = f.ready;
          depth = f.depth ∙ ap (depth_after_all f.done) a.depth;
          in_step =
              λ v u. f.in_step (a.in_step v u.0) (unbroken_in_step q h (request q h) a f.done u);
        }

    -- Every sequence of transaction calls on an open handle whose lock is free and whose depth and
    -- names agree with the database comes back: the lock is free again, and the depth counts the calls
    -- that succeeded. As long as no call that sends a command has failed, the database, which meets
    -- TxnLaws, has the savepoints sp_2, sp_3, … open, one for each level above the first.
    pub run-Finished :
        (qs : List Request) (h : Handle drv) → Ready h → InStep drv laws h → Finished h (run qs h)
    run-Finished qs h rdy v =
        let f = run-Ended qs h rdy in
        record {
          done = f.done;
          after = f.after;
          returned = f.returned;
          ready = f.ready;
          depth = f.depth;
          in_step = f.in_step v;
        }
