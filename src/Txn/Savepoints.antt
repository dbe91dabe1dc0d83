-- ===== src/Txn/Savepoints.antt =====
-- The transaction functions of src/c2sql.c against a database that keeps a stack of savepoints.
use c2sql.Prelude.{
  ==_iff, ◌≢◌, if-intro, ℕ, suc, ◌+◌, ◌-◌, ◌<◌, ◌≡◌, sym, ◌∙◌, ap, CStr, true, some, [], ◌∷◌, arith,
  inl, inr, get_or, ◌==◌, leb, ltb, Bool,
}
use c2sql.Types.{SqlRdbResult, is_ok}
use c2sql.Driver.{Driver}
use c2sql.Handle.{Handle, TxnState}
use c2sql.Txn.{
  max_tx_depth, settle, open_level, deeper, shallower, begin_body, innermost, commit_level,
  commit_body, rewind, rollback_level, rollback_body,
}
use c2sql.Txn.Matches.{
  TxnLaws, open_names, expected, Matches, match_as, match_begin, prepared, match_savepoint,
  sent_name, match_commit, match_release, match_innermost, ℕ-cases, two-cases,
}

module _ (drv : Driver) (laws : TxnLaws drv) where
  abbrev pub InStep : Handle drv → Type 0
  InStep h = Matches (laws.stack h.driver_ctx) h.txn

  innermost_open :
      (h : Handle drv)
      → InStep h
      → (d : ℕ) → h.txn.depth ≡ suc (suc d)
      → laws.stack h.driver_ctx ≡ some (innermost drv h ∷ open_names d)
  innermost_open h v d e =
      v.stacked
      ∙ ap expected e
      ∙ ap (λ n. some (n ∷ open_names d)) (sym (match_innermost h.txn d v e))

  -- A command that has succeeded leaves the handle in step once the depth has moved.
  abbrev Sent : (TxnState → TxnState) → SqlRdbResult × Handle drv → Type 0
  Sent move p = is_ok p.0 ≡ true → InStep (record p.1 { txn = move p.1.txn })

  abbrev Settled : SqlRdbResult × Handle drv → Type 0
  Settled q = is_ok q.0 ≡ true → InStep q.1

  settle-InStep :
      (move : TxnState → TxnState) (p : SqlRdbResult × Handle drv)
      → Sent move p
      → Settled (settle drv move p.0 p.1)
  unfolding settle
  settle-InStep move p s =
      if-intro Settled (is_ok p.0) (λ fine _. s fine) (λ failed h. absurd (ground arith))

  -- The name that BeginTx sends for a savepoint.
  abbrev next_name : Handle drv → CStr
  next_name h = get_or (prepared h.txn).sp_names (h.txn.depth + 1 - 1) []

  open_level-Sent :
      (h : Handle drv) → h.txn.depth < max_tx_depth → InStep h → Sent deeper (open_level drv h)
  unfolding open_level
  open_level-Sent h low v =
      if-intro (Sent deeper) (h.txn.depth == 0)
        (λ here.
          let z : h.txn.depth ≡ 0 = (==_iff h.txn.depth 0).0 here in
          λ good.
            match_as (laws.begin_ok h.driver_ctx (v.stacked ∙ ap expected z) good)
              (match_begin h.txn v z))
        (λ below. elim (ℕ-cases h.txn.depth) [
          | inl z ↦ absurd (ground arith)
          | inr (d, e) ↦ λ good.
              match_as
                (laws.savepoint_ok h.driver_ctx (next_name h) (open_names d)
                    (v.stacked ∙ ap expected e) good
                  ∙ ap (λ n. some (n ∷ open_names d)) (sent_name h.txn d v e low))
                (match_savepoint h.txn d v e low)
        ])

  commit_level-Sent :
      (h : Handle drv) → h.txn.depth ≢ 0 → InStep h → Sent shallower (commit_level drv h)
  unfolding commit_level
  commit_level-Sent h nz v =
      if-intro (Sent shallower) (h.txn.depth == 1)
        (λ here.
          let z : h.txn.depth ≡ 1 = (==_iff h.txn.depth 1).0 here in
          λ good. match_as (laws.commit_ok h.driver_ctx good) (match_commit h.txn v z))
        (λ below.
          let (d, e) = two-cases h.txn.depth nz below in
          λ good.
            match_as
              (laws.release_ok h.driver_ctx (innermost drv h) (open_names d)
                (innermost_open h v d e) good)
              (match_release h.txn d v e))

  abbrev rewound : Handle drv → drv.Ctx
  rewound h = (drv.rollback_sp (innermost drv h) h.driver_ctx).1

  rewind-Sent :
      (h : Handle drv) (d : ℕ)
      → h.txn.depth ≡ suc (suc d)
      → InStep h
      → Sent shallower (rewind drv (innermost drv h) h)
  unfolding rewind
  rewind-Sent h d e v =
      if-intro (Sent shallower) (is_ok (drv.rollback_sp (innermost drv h) h.driver_ctx).0)
        (λ fine good.
          let still =
            laws.rewind_ok h.driver_ctx (innermost drv h) (open_names d) (innermost_open h v d e)
              fine in
          match_as (laws.release_ok (rewound h) (innermost drv h) (open_names d) still good)
            (match_release h.txn d v e))
        (λ failed good. absurd (ground arith))

  rollback_level-Sent :
      (h : Handle drv) → h.txn.depth ≢ 0 → InStep h → Sent shallower (rollback_level drv h)
  unfolding rollback_level
  rollback_level-Sent h nz v =
      if-intro (Sent shallower) (h.txn.depth == 1)
        (λ here good.
          match_as (laws.rollback_ok h.driver_ctx good)
            (match_commit h.txn v ((==_iff h.txn.depth 1).0 here)))
        (λ below. let (d, e) = two-cases h.txn.depth nz below in rewind-Sent h d e v)

  -- A call in which every command has succeeded, or that has sent none.
  abbrev Unbroken : Bool → SqlRdbResult × Handle drv → Type 0
  Unbroken sent q = (sent ≡ true → is_ok q.0 ≡ true) → InStep q.1

  pub begin_body-InStep :
      (h : Handle drv) → InStep h → Unbroken (ltb h.txn.depth 16) (begin_body drv h)
  unfolding begin_body
  begin_body-InStep h v =
      if-intro (Unbroken (ltb h.txn.depth 16)) (leb max_tx_depth h.txn.depth) (λ _ _. v)
        (λ low good.
          settle-InStep deeper (open_level drv h) (open_level-Sent h (ground arith) v)
            (good (ground arith)))

  pub commit_body-InStep :
      (h : Handle drv) → InStep h → Unbroken (ltb 0 h.txn.depth) (commit_body drv h)
  unfolding commit_body
  commit_body-InStep h v =
      if-intro (Unbroken (ltb 0 h.txn.depth)) (h.txn.depth == 0) (λ _ _. v)
        (λ nz good.
          settle-InStep shallower (commit_level drv h) (commit_level-Sent h (ground arith) v)
            (good (ground arith)))

  pub rollback_body-InStep :
      (h : Handle drv) → InStep h → Unbroken (ltb 0 h.txn.depth) (rollback_body drv h)
  unfolding rollback_body
  rollback_body-InStep h v =
      if-intro (Unbroken (ltb 0 h.txn.depth)) (h.txn.depth == 0) (λ _ _. v)
        (λ nz good.
          settle-InStep shallower (rollback_level drv h) (rollback_level-Sent h (ground arith) v)
            (good (ground arith)))
