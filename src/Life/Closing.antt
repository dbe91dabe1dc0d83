-- ===== src/Life/Closing.antt =====
-- SqlRDBClose of src/c2sql.c, with the list of live handles.
use c2sql.Prelude.{
  ℕ, ◌≡◌, ◌≢◌, refl, sym, ap, ◌∙◌, true, false, not, ◌&&◌, Option, none, some, ◌∷◌, arith, inl, inr,
  Bool-cases, ◌==◌, ltb, if◌then◌else◌,
}
use c2sql.Types.{SqlRdbResult, ok, err_invalid_handle}
use c2sql.Driver.{Driver}
use c2sql.StmtCache.{StmtCache}
use c2sql.StmtCache.Calls.{cache_destroy}
use c2sql.StmtCache.Ordered.{Ordered, promised, statements}
use c2sql.StmtCache.Represents.{Holds}
use c2sql.StmtCache.Perform.{finalize_all, from_destroy-inverse}
use c2sql.StmtCache.Refine.Destroy.{destroy-Agrees}
use c2sql.Life.{
  live_remove, live_contains, OpenHandle, Process, store, close_connection, tear_down, close,
}
use c2sql.Life.Live.{live_contains-live_remove, live_remove-NoRepeat, length-live_remove}
use c2sql.Life.Configured.{IsOpen}
use c2sql.Life.World.{IsProcess, connections}

module _ (drv : Driver) where
  -- The handle at `p` taken from the list and freed, its connection closed.
  abbrev removed : ℕ → drv.Ctx → Process drv → Process drv
  removed p q w =
      close_connection drv q (store drv p none (record w { live = (live_remove p w.live).1 }))

  removed-IsProcess :
      (p : ℕ) (q : drv.Ctx) (w : Process drv)
      → IsProcess drv w
      → live_contains p w.live ≡ true
      → IsProcess drv (removed p q w)
  removed-IsProcess p q w i e =
      let kept = λ (b : ℕ). live_contains-live_remove b p w.live i.distinct in
      record {
        distinct = live_remove-NoRepeat p w.live i.distinct;
        known = λ b h.
            let (t, at, open_t) = i.known b (ground (arith, kept b, h)) in
            (t, ground (arith, kept b, h, at), open_t);
        unknown = λ b h. ground (arith, kept b, h, i.unknown b);
        below = λ b h. i.below b (ground (arith, kept b, h));
        fresh_nonzero = i.fresh_nonzero;
        room = omega (arith, length-live_remove p w.live e, i.room);
      }

  -- The connection after an active transaction is rolled back.
  abbrev pub rolled : OpenHandle drv → drv.Ctx
  rolled o =
      if ltb 0 o.handle.txn.depth then (drv.rollback o.handle.driver_ctx).1 else o.handle.driver_ctx

  -- What SqlRDBClose comes to: success where the pointer is that of a live handle, which alone leaves
  -- the list, its transaction rolled back and the statements of its cache finalized before its
  -- connection is closed; else the error, with nothing changed.
  pub record IsClose (p : ℕ) (w : Process drv) (out : Option (SqlRdbResult × Process drv))
      : Type 0 where
    pub after : Process drv
    pub returns : out ≡ some (if live_contains p w.live then ok else err_invalid_handle, after)
    pub process : IsProcess drv after
    pub listed : live_contains p w.live ≡ true → after.live ≡ (live_remove p w.live).1
    pub others : (b : ℕ) → b ≢ p → after.at b ≡ w.at b
    pub counted : connections drv after ≡ connections drv w
    pub contains : (b : ℕ) → live_contains b after.live ≡ (live_contains b w.live && not (b == p))
    pub unchanged : live_contains p w.live ≡ false → after ≡ w
    pub shut :
        (o : OpenHandle drv) (map : Ordered drv.Stmt)
        → live_contains p w.live ≡ true
        → w.at p ≡ some o
        → Holds o.cache map
        → after.closed ≡ finalize_all drv (statements map.pairs) (rolled o) ∷ w.closed

  -- The destruction of a cache that holds the map finalizes its statements in order.
  pub destroyed :
      (null : drv.Stmt) (c : StmtCache drv.Stmt) (map : Ordered drv.Stmt) (q : drv.Ctx)
      → Holds c map
      → (d : StmtCache drv.Stmt) × (cache_destroy drv c q
          ≡ some (d, finalize_all drv (statements map.pairs) q))
  unfolding promised
  destroyed null c map q h =
      let d = destroy-Agrees drv null c map q h in
      (d.cache, from_destroy-inverse drv null _ (cache_destroy drv c q) _ _ d.cache d.returns)

  same_end :
      (null : drv.Stmt) (o o' : OpenHandle drv) (map map' : Ordered drv.Stmt)
      → some o ≡ some o'
      → Holds o.cache map
      → Holds o'.cache map'
      → finalize_all drv (statements map.pairs) (rolled o)
        ≡ finalize_all drv (statements map'.pairs) (rolled o')
  same_end null o o' map map' same h h' =
      let (d, e) = destroyed null o.cache map (rolled o) h in
      let (d', e') = destroyed null o'.cache map' (rolled o') h' in cc

  open-IsClose :
      (null : drv.Stmt) (p : ℕ) (w : Process drv) (o : OpenHandle drv)
      → IsProcess drv w
      → live_contains p w.live ≡ true
      → w.at p ≡ some o
      → IsOpen drv o
      → IsClose p w (tear_down drv p o (record w { live = (live_remove p w.live).1 }))
  unfolding tear_down
  open-IsClose null p w o i e at opened =
      let (d, run) = destroyed null o.cache opened.map (rolled o) opened.holds in
      let q = finalize_all drv (statements opened.map.pairs) (rolled o) in
      record {
        after = removed p q w;
        returns = rw (run, e, tear_down) refl;
        process = removed-IsProcess p q w i e;
        listed = λ h. refl;
        others = λ b n. ground (arith, n);
        counted = omega (arith, length-live_remove p w.live e);
        contains = λ b. live_contains-live_remove b p w.live i.distinct;
        unchanged = λ f. cc;
        shut = λ o' map h at' held.
            ap (λ (t : drv.Ctx). t ∷ w.closed)
              (same_end null o o' opened.map map (sym at ∙ at') opened.holds held);
      }

  -- For every pointer SqlRDBClose returns what IsClose says.
  pub close-IsClose :
      (null : drv.Stmt) (p : ℕ) (w : Process drv) → IsProcess drv w → IsClose p w (close drv p w)
  unfolding close
  close-IsClose null p w i = elim (Bool-cases (live_contains p w.live)) [
    | inl e ↦
        let (o, at, opened) = i.known p e in
        let z : (p == 0) ≡ false = ground (arith, i.below p e) in
        rw (e, z, at, opened.ready.valid, close) (open-IsClose null p w o i e at opened)
    | inr e ↦
        let refused : close drv p w ≡ some (err_invalid_handle, w) = elim (Bool-cases (p == 0)) [
          | inl z ↦ rw (z, close) refl
          | inr n ↦ rw (n, e, close) refl
        ] in
        record {
          after = w;
          returns = rw (refused, e) refl;
          process = i;
          listed = λ h. cc;
          others = λ b n. refl;
          counted = refl;
          contains = λ b. ground (arith, e);
          unchanged = λ h. refl;
          shut = λ o map h at held. cc;
        }
  ]
