-- ===== src/Handle/Frame.antt =====
-- src/c2sql.c, the frame that its API functions share: check the handle, lock, act, unlock.
use c2sql.Prelude.{◌≡◌, ◌∙◌, ap, true, false, some, ◌&&◌, ◌==◌, if◌then◌else◌, arith}
use c2sql.Types.{SqlRdbResult}
use c2sql.Driver.{Driver}
use c2sql.Handle.{Mutex, mutex_lock, mutex_unlock, Handle, handle_valid, api}

-- A free mutex once it is taken.
abbrev pub locked : Mutex → Mutex
locked m = if m.threadsafe then record m { held = true } else m

pub mutex_lock-locked :
    (m : Mutex) → (m.threadsafe && m.held) ≡ false → mutex_lock m ≡ some (locked m)
unfolding mutex_lock
mutex_lock-locked m e = ground arith

mutex_unlock-locked :
    (m : Mutex)
    → (m.threadsafe && m.held) ≡ false
    → ((mutex_unlock (locked m)).threadsafe && (mutex_unlock (locked m)).held) ≡ false
unfolding mutex_unlock
mutex_unlock-locked m e = ground arith

module _ {drv : Driver} where
  abbrev pub lock : Handle drv → Handle drv
  lock h = record h { mutex = locked h.mutex }

  abbrev pub unlock : Handle drv → Handle drv
  unlock h = record h { mutex = mutex_unlock h.mutex }

  -- An open handle whose lock is free, or not in use.
  pub record Ready (h : Handle drv) : Type 0 where
    pub valid : handle_valid h ≡ true
    pub free : (h.mutex.threadsafe && h.mutex.held) ≡ false

  -- Then the body runs under the lock.
  pub api_lem :
      (body : Handle drv → SqlRdbResult × Handle drv) (h : Handle drv)
      → Ready h
      → api body h ≡ some ((body (lock h)).0, unlock (body (lock h)).1)
  unfolding api
  api_lem body h rdy = rw (rdy.valid, mutex_lock-locked h.mutex rdy.free)

  -- A body that leaves the handle's mark and mutex alone hands it back as it was.
  pub unlock-Ready :
      (h h' : Handle drv)
      → Ready h
      → h'.magic ≡ h.magic
      → h'.mutex ≡ (lock h).mutex
      → Ready (unlock h')
  unlock-Ready h h' rdy e m = record {
    valid = ap (λ n. n == 0xC2DB1234) e ∙ rdy.valid;
    free =
        ap (λ x. (mutex_unlock x).threadsafe && (mutex_unlock x).held) m
        ∙ mutex_unlock-locked h.mutex rdy.free;
  }
