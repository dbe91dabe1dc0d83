-- ===== src/Life/Configured.antt =====
-- SqlRDBSetConfig of src/c2sql.c on an open handle.
use c2sql.Prelude.{
  ℕ, ◌^◌, ◌≤◌, ◌≡◌, refl, sym, ap, ◌∙◌, Bool, true, false, ◌&&◌, ◌||◌, Option, some, arith, inl,
  inr, Bool-cases, ◌==◌, if◌then◌else◌, Memory, malloc,
}
use c2sql.Types.{SqlRdbResult, ok, is_ok}
use c2sql.Driver.{Driver}
use c2sql.Handle.{Mutex, mutex_unlock}
use c2sql.Handle.Frame.{Ready, locked, mutex_lock-locked}
use c2sql.StmtCache.{StmtCache}
use c2sql.StmtCache.Calls.{cache_rebuild}
use c2sql.StmtCache.Ordered.{Ordered, rebuild, promised, same_buckets}
use c2sql.StmtCache.Represents.{Holds}
use c2sql.StmtCache.Perform.{finalize_all, from_change-inverse}
use c2sql.StmtCache.Refine.Rebuild.{rebuild-Agrees}
use c2sql.Life.{Config, OpenHandle, rebuilt, set_config_locked, set_config}

module _ (drv : Driver) where
  -- An open handle: its lock is free or not in use, its cache stands for an ordered map, and the
  -- configuration has the capacity of the cache and the mode of the lock.
  pub record IsOpen (o : OpenHandle drv) : Type 0 where
    pub ready : Ready o.handle
    pub map : Ordered drv.Stmt
    pub holds : Holds o.cache map
    pub sized : o.config.stmt_cache_size ≡ o.cache.capacity
    pub mode : o.config.threadsafe ≡ o.handle.mutex.threadsafe

-- A rebuild of the ordered map has the new capacity, or finds no memory and keeps the old one.
rebuild_answer :
    {Stmt : Type 0} (n : ℕ) (m : Memory) (s : Ordered Stmt)
    → (promised (rebuild n m) s).after.capacity
      ≡ (if is_ok (promised (rebuild n m) s).code then n else s.capacity)
unfolding promised
rebuild_answer n m s = elim (Bool-cases ((n == 0) || same_buckets n s.capacity || (malloc m).0)) [
  | inl fits ↦ rw (fits, promised) refl
  | inr out ↦ rw (out, promised) refl
]

module _ (drv : Driver) (null : drv.Stmt) (cfg : Config) (o : OpenHandle drv) (m : Memory)
    (i : IsOpen drv o) (small : cfg.stmt_cache_size ≤ 2 ^ 62) where
  -- The cache after the call, with the result.
  record IsRebuilt : Type 0 where
    code : SqlRdbResult
    cache : StmtCache drv.Stmt
    ctx : drv.Ctx
    map : Ordered drv.Stmt
    returns : rebuilt drv cfg o m ≡ some (code, cache, ctx)
    holds : Holds cache map
    sized : (if is_ok code then cfg.stmt_cache_size else o.config.stmt_cache_size) ≡ cache.capacity

  rebuilt-IsRebuilt : IsRebuilt
  rebuilt-IsRebuilt = elim (Bool-cases (cfg.stmt_cache_size == o.config.stmt_cache_size)) [
    | inl same ↦ record {
      code = ok;
      cache = o.cache;
      ctx = o.handle.driver_ctx;
      map = i.map;
      returns = rw (same, rebuilt);
      holds = i.holds;
      sized = ground (arith, i.sized);
    }
    | inr other ↦
        let n = cfg.stmt_cache_size in
        let a = promised (rebuild n m) i.map in
        let r = rebuild-Agrees drv null o.cache i.map n m o.handle.driver_ctx small i.holds in
        record {
          code = a.code;
          cache = r.cache;
          ctx = finalize_all drv a.dropped o.handle.driver_ctx;
          map = a.after;
          returns =
              rw (other, rebuilt)
                (from_change-inverse drv null _ (cache_rebuild drv n o.cache m o.handle.driver_ctx)
                  _ _ r.cache r.returns);
          holds = r.holds;
          sized = sym (
              r.holds.capacity
              ∙ rebuild_answer n m i.map
              ∙ ap (λ (t : ℕ). if is_ok a.code then n else t) (sym (i.sized ∙ i.holds.capacity)));
        }
  ]

  -- What SqlRDBSetConfig comes to: on success the configuration is the new one, else it is the old one,
  -- and the handle is open.
  pub record IsConfigured (out : Option (SqlRdbResult × OpenHandle drv)) : Type 0 where
    pub code : SqlRdbResult
    pub after : OpenHandle drv
    pub returns : out ≡ some (code, after)
    pub config : after.config ≡ (if is_ok code then cfg else o.config)
    pub open_after : IsOpen drv after
    pub mutex_after :
        after.handle.mutex
        ≡ mutex_unlock record (locked o.handle.mutex) {
          threadsafe = if is_ok code then cfg.threadsafe else o.handle.mutex.threadsafe;
        }

  mutex_mode :
      (t : Bool)
      → let x = mutex_unlock record (locked o.handle.mutex) { threadsafe = t } in
        (x.threadsafe ≡ t) × ((x.threadsafe && x.held) ≡ false)
  unfolding mutex_unlock
  mutex_mode t = ground arith

  relocked :
      record (locked o.handle.mutex) { threadsafe = o.handle.mutex.threadsafe }
      ≡ locked o.handle.mutex
  relocked = elim (Bool-cases o.handle.mutex.threadsafe) [ inl e ↦ rw e refl | inr e ↦ rw e refl ]

  abbrev left_open : Config → Mutex → IsRebuilt → OpenHandle drv
  left_open new x b = record {
    config = new;
    cache = b.cache;
    handle = record o.handle { driver_ctx = b.ctx; mutex = x };
  }

  set_locked-IsConfigured : IsConfigured (
      set_config_locked drv cfg
        (record o { handle = record o.handle { mutex = locked o.handle.mutex } })
        m)
  unfolding set_config_locked
  set_locked-IsConfigured =
      let b = rebuilt-IsRebuilt in
      elim (Bool-cases (is_ok b.code)) [
        | inl fine ↦
            let x = mutex_mode cfg.threadsafe in
            record {
              code = b.code;
              after =
                  left_open cfg
                    (mutex_unlock record (locked o.handle.mutex) { threadsafe = cfg.threadsafe }) b;
              returns = rw (b.returns, fine, set_config_locked) refl;
              config = rw fine refl;
              open_after = record {
                ready = record { valid = i.ready.valid; free = x.1 };
                map = b.map;
                holds = b.holds;
                sized = rw fine at b.sized;
                mode = sym x.0;
              };
              mutex_after = rw fine refl;
            }
        | inr failed ↦
            let x = mutex_mode o.handle.mutex.threadsafe in
            record {
              code = b.code;
              after = left_open o.config (mutex_unlock (locked o.handle.mutex)) b;
              returns = rw (b.returns, failed, set_config_locked) refl;
              config = rw failed refl;
              open_after = record {
                ready = record { valid = i.ready.valid; free = rw relocked at x.1 };
                map = b.map;
                holds = b.holds;
                sized = rw failed at b.sized;
                mode = i.mode ∙ sym (rw relocked at x.0);
              };
              mutex_after = rw failed (sym (ap mutex_unlock relocked));
            }
      ]

  -- SqlRDBSetConfig on an open handle, for a cache size of at most 2 ^ 62, returns. On success the
  -- configuration is the new one, else it is the old one; either way the handle is open, with a cache
  -- of the configured capacity, and what the lock is then follows from the old and the new mode.
  pub set_config-IsConfigured : IsConfigured (set_config drv (some cfg) o m)
  unfolding set_config
  set_config-IsConfigured =
      rw (i.ready.valid, mutex_lock-locked o.handle.mutex i.ready.free, set_config)
        set_locked-IsConfigured

  -- Turning the thread safety of an open handle off, with a cache size of at most 2 ^ 62, leaves its
  -- system mutex locked whenever the call succeeds.
  pub set_config-held :
      o.config.threadsafe ≡ true
      → cfg.threadsafe ≡ false
      → (r : SqlRdbResult) × (t : OpenHandle drv) × (set_config drv (some cfg) o m ≡ some (r, t))
        × (is_ok r ≡ true → t.handle.mutex ≡ record { threadsafe = false; held = true })
  unfolding mutex_unlock
  set_config-held was off =
      let c = set_config-IsConfigured in
      let on : o.handle.mutex.threadsafe ≡ true = sym i.mode ∙ was in
      (c.code, c.after, c.returns, λ fine. c.mutex_after ∙ rw (fine, on, off) refl)
