-- ===== src/Life/Tests.antt =====
-- The life of handles in src/c2sql.c, on a driver that logs the statements that it finalizes.
use c2sql.Prelude.{
  ℕ, ◌≡◌, ◌+◌, refl, CStr, true, false, none, some, List, [], ◌∷◌, arith, lit, ◌==◌, if◌then◌else◌,
  str_eq, length, Bool,
}
use c2sql.Types.{SqlRdbResult, ok, err_driver, err_invalid_handle, is_ok}
use c2sql.StmtCache.{cache_init}
use c2sql.StmtCache.Hash.{bucket_count_for, next_pow2_at_least, pow2_from}
use c2sql.StmtCache.Tests.{logger, for_two, nothing_yet, for_two-Holds}
use c2sql.Life.{
  Config, default_config, OpenHandle, Process, dsn_is_postgres, select_driver, live_contains,
  live_register, new_handle, enter_handle, init, close, set_config,
}
use c2sql.Life.Configured.{IsOpen, IsConfigured, set_config-IsConfigured, set_config-held}
use c2sql.Life.World.{IsProcess}
use c2sql.Life.Tally.{IsKept, tally}
use c2sql.Driver.{Driver}
use c2sql.Life.Opening.{IsInit, opened_by, init-IsInit}
use c2sql.Life.Closing.{IsClose, close-IsClose}
use c2sql.Life.History.{
  LifeCall, opening, closing, started, started-IsProcess, history, all_opened, history-IsProcess,
  close-close,
}

-- Handles whose cache has room for two statements.
abbrev opened : OpenHandle logger
opened = record (new_handle logger 0 []) {
  config = record default_config { stmt_cache_size = 2 };
  cache = for_two;
}

opened-IsOpen : IsOpen logger opened
unfolding new_handle
opened-IsOpen = record {
  ready = record { valid = refl; free = refl };
  map = nothing_yet;
  holds = for_two-Holds;
  sized = refl;
  mode = refl;
}

abbrev single_threaded : Config
single_threaded = record default_config { threadsafe = false; stmt_cache_size = 3 }

set_config-IsConfigured_example :
    IsConfigured logger 0 single_threaded opened
      (false ∷ [])
      opened-IsOpen
      (omega arith)
      (set_config logger (some single_threaded) opened (false ∷ []))
set_config-IsConfigured_example =
    set_config-IsConfigured logger 0 single_threaded opened (false ∷ []) opened-IsOpen (omega arith)

set_config-held_example :
    (r : SqlRdbResult) × (t : OpenHandle logger) × (set_config logger
        (some single_threaded)
        opened
        []
      ≡ some (r, t))
    × (is_ok r ≡ true → t.handle.mutex ≡ record { threadsafe = false; held = true })
unfolding new_handle
set_config-held_example =
    set_config-held logger 0 single_threaded opened [] opened-IsOpen (omega arith) refl refl

-- A database that opens all but the empty name.
abbrev open_db : CStr → SqlRdbResult × List ℕ
open_db dsn = (if length dsn == 0 then err_driver else ok, [])

abbrev empty : Process logger
empty = started logger

init-IsInit_example :
    IsInit logger empty []
      (opened_by logger 0 open_db false (some (lit "a.db")))
      (init logger 0 open_db false (some (lit "a.db")) empty [])
init-IsInit_example =
    init-IsInit logger 0 open_db false (some (lit "a.db")) empty [] (started-IsProcess logger)

-- One handle, at the first address.
abbrev one : Process logger
one = elim (init logger 0 open_db false (some (lit "a.db")) empty []) [
  | none ↦ empty
  | some (p, w) ↦ w
]

one-IsProcess : IsProcess logger one
one-IsProcess =
    let r =
      init-IsInit logger 0 open_db false (some (lit "a.db")) empty [] (started-IsProcess logger) in
    rw (one, r.returns) r.process

close-IsClose_example : IsClose logger 1 one (close logger 1 one)
close-IsClose_example = close-IsClose logger 0 1 one one-IsProcess

-- Two handles, one of them closed twice, a name that does not open, and no name.
abbrev calls : List LifeCall
calls =
    opening (some (lit "a.db")) []
    ∷ opening (some (lit "file:b")) []
    ∷ closing 1
    ∷ opening (some []) []
    ∷ closing 1
    ∷ opening none []
    ∷ []

-- A driver whose connection is the length of the name that was opened.
abbrev lengths : Driver
lengths = record logger { finalize = λ s c. (ok, c) }

abbrev open_length : CStr → SqlRdbResult × List ℕ
open_length dsn = (if length dsn == 0 then err_driver else ok, length dsn ∷ [])

abbrev four : List ℕ → Bool
four c = str_eq c (4 ∷ [])

four-IsKept : IsKept lengths four
four-IsKept = record { rollback = λ q. refl; finalize = λ v q. refl }

history-IsProcess_example :
    (t : Process lengths) × (history lengths 0 open_length false calls (started lengths) ≡ some t)
    × IsProcess lengths t
    × (tally lengths four t
        ≡ tally lengths four (started lengths) + all_opened lengths 0 open_length false four calls)
history-IsProcess_example =
    history-IsProcess lengths 0 open_length false four calls (started lengths) four-IsKept
      (started-IsProcess lengths)

one_is_live : live_contains 1 one.live ≡ true
unfolding init select_driver dsn_is_postgres str_eq lit enter_handle cache_init bucket_count_for
    next_pow2_at_least pow2_from live_register new_handle live_contains
one_is_live = refl

abbrev after_close : Process logger
after_close = elim (close logger 1 one) [ none ↦ empty | some (r, w) ↦ w ]

closed_one : close logger 1 one ≡ some (ok, after_close)
closed_one =
    let r = close-IsClose logger 0 1 one one-IsProcess in
    rw (after_close, r.returns, one_is_live) refl

close-close_example : close logger 1 after_close ≡ some (err_invalid_handle, after_close)
close-close_example = close-close logger 0 1 one after_close ok one-IsProcess closed_one
