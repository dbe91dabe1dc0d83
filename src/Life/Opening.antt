-- ===== src/Life/Opening.antt =====
-- SqlRDBInit of src/c2sql.c, with the list of live handles.
use c2sql.Prelude.{
  ℕ, suc, ◌*◌, ◌≡◌, refl, sym, ◌≢◌, ◌⊎◌, CStr, Bool, true, false, ◌&&◌, Option, Option-cases, none,
  some, [], ◌∷◌, ◌++◌, arith, inl, inr, Bool-cases, ◌==◌, if◌then◌else◌, length, Memory, malloc,
  Plenty, malloc-Plenty, List,
}
use c2sql.Types.{SqlRdbResult, is_ok}
use c2sql.Driver.{Driver}
use c2sql.StmtCache.Refine.Destroy.{cache_init-Holds}
use c2sql.Life.{
  live_contains, OpenHandle, Process, store, live_register, new_handle, abandon, enter_handle,
  select_driver, init,
}
use c2sql.Life.Configured.{IsOpen}
use c2sql.Life.Closing.{destroyed}
use c2sql.Life.World.{IsProcess, unlisted, closed-IsProcess, forgotten-IsProcess, entered-IsProcess}

module _ (drv : Driver) where
  -- 1 where there is a connection.
  abbrev pub count : Option drv.Ctx → ℕ
  count none = 0
  count (some q) = 1

  abbrev pub with_closed : Option drv.Ctx → List drv.Ctx → List drv.Ctx
  with_closed none closed = closed
  with_closed (some q) closed = q ∷ closed

  -- What SqlRDBInit comes to, where the driver has opened that connection or none: a new live handle,
  -- which has the connection, or NULL and the same live handles, the connection closed last of all. With
  -- memory enough it is the handle. The other handles stay as they were.
  pub record IsInit (w : Process drv) (m : Memory) (opened : Option drv.Ctx)
      (out : Option (ℕ × Process drv)) : Type 0 where
    pub pointer : ℕ
    pub after : Process drv
    pub returns : out ≡ some (pointer, after)
    pub process : IsProcess drv after
    pub result :
        ((pointer ≡ 0) × (after.live ≡ w.live) × (after.closed ≡ with_closed opened w.closed))
        ⊎ ((pointer ≢ 0)
            × (live_contains pointer w.live ≡ false)
            × (after.live ≡ w.live ++ pointer ∷ [])
            × (after.closed ≡ w.closed)
            × (o : OpenHandle drv) × (after.at pointer ≡ some o)
            × (opened ≡ some o.handle.driver_ctx))
    pub succeeds : Plenty m → (q : drv.Ctx) → opened ≡ some q → pointer ≢ 0
    pub others : (p : ℕ) → live_contains p w.live ≡ true → after.at p ≡ w.at p

  -- What `live_register` comes to for a new handle.
  record IsRegistered (w : Process drv) (o : OpenHandle drv) (m : Memory)
      (out : Bool × Process drv × Memory) : Type 0 where
    process : out.0 ≡ true → IsProcess drv out.1
    entered : out.0 ≡ true → out.1.live ≡ w.live ++ w.fresh ∷ []
    closed : out.0 ≡ true → out.1.closed ≡ w.closed
    at : out.0 ≡ true → (p : ℕ) → out.1.at p ≡ (if p == w.fresh then some o else w.at p)
    succeeds : Plenty m → out.0 ≡ true

  abbrev made : Process drv → OpenHandle drv → Process drv
  made w o = store drv w.fresh (some o) (record w { fresh = suc w.fresh })

  live_register-IsRegistered :
      (w : Process drv) (o : OpenHandle drv) (m : Memory)
      → IsProcess drv w
      → IsOpen drv o
      → IsRegistered w o m (live_register drv w.fresh (made w o) m)
  unfolding live_register
  live_register-IsRegistered w o m i opened =
      let room = i.room in
      elim (Bool-cases (length w.live == w.live_capacity)) [
        | inr space ↦
            rw (space, live_register)
              record {
                process = λ e. entered-IsProcess drv w o w.live_capacity i opened (ground arith);
                entered = λ e. refl;
                closed = λ e. refl;
                at = λ e p. refl;
                succeeds = λ h. refl;
              }
        | inl full ↦ elim (Bool-cases (malloc m).0) [
          | inl got ↦
              rw (full, got, live_register)
                record {
                  process = λ e.
                      entered-IsProcess drv w o
                        (if w.live_capacity == 0 then 8 else w.live_capacity * 2) i opened
                        (ground arith);
                  entered = λ e. refl;
                  closed = λ e. refl;
                  at = λ e p. refl;
                  succeeds = λ h. refl;
                }
          | inr out ↦
              rw (full, out, live_register)
                record {
                  process = λ e. cc;
                  entered = λ e. cc;
                  closed = λ e. cc;
                  at = λ e p. cc;
                  succeeds = λ h. cc ((malloc-Plenty m h).0, out);
                }
        ]
      ]

  -- In these lemmas `m` is the memory of the whole call, and `later` what is left of it.
  module _ (w : Process drv) (m later : Memory) (i : IsProcess drv w)
      (left : Plenty m → Plenty later) where
    -- An end without a handle: nothing was opened, or an allocation has failed.
    failed-IsInit :
        (opened : Option drv.Ctx) (after : Process drv)
        → IsProcess drv after
        → after.live ≡ w.live
        → after.closed ≡ with_closed opened w.closed
        → ((p : ℕ) → live_contains p w.live ≡ true → after.at p ≡ w.at p)
        → (Plenty m → opened ≡ none)
        → IsInit w m opened (some (0, after))
    failed-IsInit opened after j same closed others short = record {
      pointer = 0;
      after = after;
      returns = refl;
      process = j;
      result = inl (refl, same, closed);
      succeeds = λ h q e. cc (short h, e);
      others = others;
    }

    abandon-IsInit :
        (null : drv.Stmt) (o : OpenHandle drv) (opened : IsOpen drv o)
        → opened.map.pairs ≡ []
        → (Plenty m → ⊥)
        → IsInit w m (some o.handle.driver_ctx) (abandon drv w.fresh o (made w o))
    unfolding abandon
    abandon-IsInit null o opened vacant short =
        let (d, run) = destroyed drv null o.cache opened.map o.handle.driver_ctx opened.holds in
        rw (run, vacant, abandon)
          (failed-IsInit (some o.handle.driver_ctx) _
            (forgotten-IsProcess drv w o o.handle.driver_ctx i) refl refl
            (λ p e. ground (arith, i.below p e)) (λ h. absurd (short h)))

    -- A handle with its cache, entered or torn down.
    settled-IsInit :
        (null : drv.Stmt) (o : OpenHandle drv) (opened : IsOpen drv o)
        → opened.map.pairs ≡ []
        → let (got, w', m') = live_register drv w.fresh (made w o) later in
          IsInit w m
            (some o.handle.driver_ctx)
            (if got then some (w.fresh, w') else abandon drv w.fresh o (made w o))
    settled-IsInit null o opened vacant =
        let r = live_register-IsRegistered w o later i opened in
        elim (Bool-cases (live_register drv w.fresh (made w o) later).0) [
          | inl got ↦ rw got record {
            pointer = w.fresh;
            after = (live_register drv w.fresh (made w o) later).1;
            returns = refl;
            process = r.process got;
            result = inr (
              λ z. omega (arith, i.fresh_nonzero, z),
              unlisted drv w w.fresh i (omega arith),
              r.entered got,
              r.closed got,
              o,
              ground (arith, r.at got w.fresh),
              refl,
            );
            succeeds = λ h q e z. omega (arith, i.fresh_nonzero, z);
            others = λ p e. ground (arith, r.at got p, i.below p e);
          }
          | inr out ↦
              rw out (abandon-IsInit null o opened vacant (λ h. cc (r.succeeds (left h), out)))
        ]

  enter_handle-IsInit :
      (w : Process drv) (m later : Memory)
      → IsProcess drv w
      → (Plenty m → Plenty later)
      → (null : drv.Stmt) (q : drv.Ctx)
      → IsInit w m (some q) (enter_handle drv (new_handle drv null q) w later)
  unfolding enter_handle new_handle
  enter_handle-IsInit w m later i left null q =
      let (c, e, h) =
        cache_init-Holds (new_handle drv null q).cache (omega arith) later 64 (omega arith) in
      elim (Bool-cases (malloc later).0) [
        | inl got ↦
            rw (e, got, enter_handle)
              (settled-IsInit w m (malloc later).1 i (λ k. (malloc-Plenty later (left k)).1) null
                (record (new_handle drv null q) { cache = c })
                record {
                  ready = record { valid = refl; free = refl };
                  map = record { capacity = 64; pairs = [] };
                  holds = rw got at h;
                  sized = sym (rw got at h).capacity;
                  mode = refl;
                }
                refl)
        | inr out ↦
            rw (e, out, enter_handle)
              (failed-IsInit w m later i left (some q) _ (closed-IsProcess drv w q i) refl refl
                (λ p k. refl) (λ k. cc ((malloc-Plenty later (left k)).0, out)))
      ]

  module _ (null : drv.Stmt) (open_db : CStr → SqlRdbResult × drv.Ctx) (have_postgres : Bool) where
    -- The connection that the call opens: there is a driver for the name, and it opens it.
    abbrev pub opened_by : Option CStr → Option drv.Ctx
    opened_by none = none
    opened_by (some dsn) = elim (select_driver have_postgres dsn) [
      | none ↦ none
      | some d ↦ if is_ok (open_db dsn).0 then some (open_db dsn).1 else none
    ]

    -- SqlRDBInit returns. Either there is a new live handle, which is no earlier one and has the
    -- connection that the driver has opened, and no connection has been closed; or NULL is returned, the
    -- live handles are the same ones, and the connection, where one has been opened, has been closed. It
    -- is the handle where a connection is opened and no allocation fails. The handles are well formed
    -- again, and those that were live stay as they were.
    pub init-IsInit :
        (dsn : Option CStr) (w : Process drv) (m : Memory)
        → IsProcess drv w
        → IsInit w m (opened_by dsn) (init drv null open_db have_postgres dsn w m)
    unfolding init
    init-IsInit none w m i =
        failed-IsInit w m m i (λ h. h) none w i refl refl (λ p k. refl) (λ k. refl)
    init-IsInit (some dsn) w m i =
        let nothing = failed-IsInit w m m i (λ h. h) none w i refl refl (λ p k. refl) (λ k. refl) in
        let left = λ (h : Plenty m). malloc-Plenty (malloc m).1 (malloc-Plenty m h).1 in
        elim (Option-cases (select_driver have_postgres dsn)) [
          | inl missing ↦ rw (missing, init, opened_by) nothing
          | inr (d, chosen) ↦ elim (Bool-cases (is_ok (open_db dsn).0)) [
            | inr refused ↦ rw (chosen, refused, init, opened_by) nothing
            | inl fine ↦ elim (Bool-cases ((malloc m).0 && (malloc (malloc m).1).0)) [
              | inl got ↦
                  rw (chosen, fine, got, init, opened_by)
                    (enter_handle-IsInit w m (malloc (malloc m).1).1 i (λ h. (left h).1) null
                      (open_db dsn).1)
              | inr out ↦
                  rw (chosen, fine, out, init, opened_by)
                    (failed-IsInit w m m i (λ h. h) (some (open_db dsn).1) _
                      (closed-IsProcess drv w _ i) refl refl (λ p k. refl)
                      (λ k. cc ((malloc-Plenty m k).0, (left k).0, out)))
            ]
          ]
        ]
