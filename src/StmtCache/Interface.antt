-- ===== src/StmtCache/Interface.antt =====
-- The cache of src/stmt_cache.c behind the interface through which the row functions of src/c2sql.c
-- use it.
use c2sql.Prelude.{
  ℕ, ◌≡◌, CStr, not, Option-cases, some, List, [], ◌∷◌, inl, inr, if-intro, ◌==◌, Memory,
}
use c2sql.Types.{is_ok}
use c2sql.Driver.{Driver}
use c2sql.TypeMapping.{Cell, send}
use c2sql.Crud.Rows.{Statements, Acquired}
use c2sql.Crud.Rows.Kept.{RunLaws}
use c2sql.StmtCache.{StmtCache}
use c2sql.StmtCache.Ordered.{Ordered, put, promised, find, two_allocations}
use c2sql.StmtCache.Represents.{Holds}
use c2sql.StmtCache.Perform.{finalize_all}
use c2sql.StmtCache.Prepare.{
  get_or_prepare, provide, provided_fresh, Provided, get_or_prepare-Provides,
}

-- A well-formed cache with the map that it holds, and the outcomes of the allocations of the calls to
-- come, a list for each call.
pub record Held (drv : Driver) : Type 0 where
  pub cache : StmtCache drv.Stmt
  pub map : Ordered drv.Stmt
  pub holds : Holds cache map
  pub allocations : List Memory

abbrev pub now : List Memory → Memory
now [] = []
now (m ∷ ms) = m

abbrev pub later : List Memory → List Memory
later [] = []
later (m ∷ ms) = ms

module _ (drv : Driver) (null : drv.Stmt) where
  -- The outcome of `get_or_prepare` with the cache that it leaves.
  pub acquire : CStr → Held drv → drv.Ctx → Acquired drv.Stmt (Held drv) drv.Ctx
  acquire sql k q =
      let p = provide drv null sql k.map (now k.allocations) q in
      let c = get_or_prepare-Provides drv null sql k.cache k.map (now k.allocations) q k.holds in
      record {
        code = p.code;
        stmt = p.stmt;
        owned = p.owned;
        cache = record {
          cache = c.cache;
          map = p.after;
          holds = c.holds;
          allocations = later k.allocations;
        };
        ctx = p.ctx;
      }

  abbrev pub cached : Statements drv
  cached = record { Cache = Held drv; get_or_prepare = acquire }

  -- What the interface gives is what the code gives.
  pub cached-get_or_prepare :
      (sql : CStr) (k : Held drv) (q : drv.Ctx)
      → let a = cached.get_or_prepare sql k q in
        get_or_prepare drv null sql k.cache (now k.allocations) q
        ≡ some record {
          code = a.code;
          stmt = a.stmt;
          owned = a.owned;
          cache = a.cache.cache;
          ctx = a.ctx;
        }
  unfolding acquire
  cached-get_or_prepare sql k q =
      (get_or_prepare-Provides drv null sql k.cache k.map (now k.allocations) q k.holds).returns

-- What the database documents of open statements, as in RunLaws, without a cache.
pub record ConnectionLaws (drv : Driver) : Type 1 where
  pub Idle : drv.Ctx → Type 0
  pub Only : drv.Stmt → drv.Ctx → Type 0
  pub idle_only : (s : drv.Stmt) (c : drv.Ctx) → Idle c → Only s c
  pub preparing : (sql : CStr) (c : drv.Ctx) → Idle c → Idle (drv.prepare sql c).2
  pub sending :
      (s : drv.Stmt) (i : ℕ) (v : Cell) (c : drv.Ctx) → Only s c → Only s (send drv s i v c).1
  pub nulling : (s : drv.Stmt) (i : ℕ) (c : drv.Ctx) → Only s c → Only s (drv.bind_null s i c).1
  pub stepping : (s : drv.Stmt) (c : drv.Ctx) → Only s c → Only s (drv.step s c).2
  pub fetching : (s : drv.Stmt) (i : ℕ) (c : drv.Ctx) → Only s c → Only s (drv.column_int64 s i c).2
  pub resetting : (s : drv.Stmt) (c : drv.Ctx) → Only s c → Idle (drv.reset s c).1
  pub finalizing : (s : drv.Stmt) (c : drv.Ctx) → Only s c → Idle (drv.finalize s c).1
  pub beginning : (s : drv.Stmt) (c : drv.Ctx) → Only s c → Only s (drv.begin c).1
  pub committing : (s : drv.Stmt) (c : drv.Ctx) → Only s c → Only s (drv.commit c).1
  pub rolling_back : (s : drv.Stmt) (c : drv.Ctx) → Only s c → Only s (drv.rollback c).1

module _ (drv : Driver) (null : drv.Stmt) (laws : ConnectionLaws drv) where
  finalize_all-Idle :
      (vs : List drv.Stmt) (q : drv.Ctx) → laws.Idle q → laws.Idle (finalize_all drv vs q)
  finalize_all-Idle [] q i = i
  finalize_all-Idle (v ∷ vs) q i =
      finalize_all-Idle vs _ (laws.finalizing v q (laws.idle_only v q i))

  fresh-Idle :
      (sql : CStr) (s : Ordered drv.Stmt) (m : Memory) (q : drv.Ctx)
      → laws.Idle q
      → laws.Idle (provided_fresh drv null sql s m q).ctx
  unfolding provided_fresh
  fresh-Idle sql s m q i =
      let (r, v, q') = drv.prepare sql q in
      let prepared = laws.preparing sql q i in
      let drops = (promised (put sql v m) s).dropped in
      let P = λ (p : Provided drv null). laws.Idle p.ctx in
      if-intro P (not (is_ok r)) (λ _. prepared)
        (λ _.
          if-intro P (s.capacity == 0) (λ _. prepared)
            (λ _.
              if-intro P (two_allocations m) (λ _. finalize_all-Idle drops q' prepared)
                (λ _. finalize_all-Idle drops q' prepared)))

  -- A statement that is acquired, and those that make room for it, leave no statement running.
  provide-Idle :
      (sql : CStr) (s : Ordered drv.Stmt) (m : Memory) (q : drv.Ctx)
      → laws.Idle q
      → laws.Idle (provide drv null sql s m q).ctx
  unfolding provide
  provide-Idle sql s m q i = elim (Option-cases (find sql s.pairs)) [
    | inr (v, found) ↦ rw (found, provide) i
    | inl absent ↦ rw (absent, provide) (fresh-Idle sql s m q i)
  ]

  -- The cache of the code meets what the row functions ask of a cache.
  pub cached_laws : RunLaws drv (cached drv null)
  unfolding acquire
  cached_laws = record {
    Idle = laws.Idle;
    Only = laws.Only;
    idle_only = laws.idle_only;
    acquiring = λ sql k q i. provide-Idle sql k.map (now k.allocations) q i;
    sending = laws.sending;
    nulling = laws.nulling;
    stepping = laws.stepping;
    fetching = laws.fetching;
    resetting = laws.resetting;
    finalizing = laws.finalizing;
    beginning = laws.beginning;
    committing = laws.committing;
    rolling_back = laws.rolling_back;
  }
