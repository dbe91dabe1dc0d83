-- ===== src/Crud/Rows/Release.antt =====
-- Open statements and the lock across the row functions of src/c2sql.c.
use c2sql.Prelude.{ℕ, CStr, Bool, ◌&&◌, ◌||◌, Option, none, some, List, if-intro, ◌==◌}
use c2sql.Types.{is_ok, Schema}
use c2sql.Condition.{Condition}
use c2sql.Driver.{Driver}
use c2sql.Handle.Frame.{Ready}
use c2sql.QueryBuilder.Build.{delete, count, QuerySpec}
use c2sql.TypeMapping.{Row}
use c2sql.Crud.Rows.{
  Statements, Session, Result, Body, with_statement, entry, write_row, write, write_spec, write_all,
  write_many, delete_rows, report_changes, delete_where, filter_spec, count_rows, count_where,
}
use c2sql.Crud.Rows.Kept.{
  RunLaws, Kept, Keeps, undefined, keeps, Careful, with_statement-Keeps, Quiet, refused-Quiet,
  entry-Quiet,
}
use c2sql.Crud.Rows.Careful.{write_row-Mine, write_all-Mine, delete_rows-Mine, count_rows-Mine}

module _ (drv : Driver) (stmts : Statements drv) (laws : RunLaws drv stmts) where
  report-Keeps :
      (wanted : Bool) (s : Session drv stmts) {o : Option (Result drv stmts)}
      → Keeps drv stmts laws laws.Idle s o
      → Keeps drv stmts laws laws.Idle s (report_changes drv stmts wanted o)
  unfolding report_changes
  report-Keeps wanted s undefined = undefined
  report-Keeps wanted s (keeps r t k) = keeps r _ (
      if-intro (Kept drv stmts laws laws.Idle s) (is_ok r && wanted)
        (λ _. record { holds = k.holds; mutex = k.mutex; magic = k.magic }) (λ _. k))

  served-Quiet :
      (name : CStr) (spec : Schema → QuerySpec) (body : Schema → Body drv stmts)
      (s : Session drv stmts)
      → Ready s.handle
      → laws.Idle s.handle.driver_ctx
      → ((schema : Schema) → Careful drv stmts laws (body schema))
      → Quiet drv stmts laws (entry drv stmts (some (with_statement drv stmts name spec body)) s)
  served-Quiet name spec body s rdy i careful =
      entry-Quiet drv stmts laws (with_statement drv stmts name spec body) s rdy i
        (λ t j. with_statement-Keeps drv stmts laws name spec body t careful j)

  -- The calls that change or count rows.
  pub data Call : Type 0 where
    writes : Option CStr → Option Row → Option (List ℕ) → Call
    writes_many : Option CStr → Option Row → ℕ → ℕ → Option (List ℕ) → Call
    deletes : Option CStr → Option Condition → Bool → Call
    counts : Option CStr → Option Condition → Call

  pub perform : Call → Session drv stmts → Option (Result drv stmts)
  perform (writes name row m) s = write drv stmts name row m s
  perform (writes_many name rows n stride m) s = write_many drv stmts name rows n stride m s
  perform (deletes name cond wanted) s = delete_where drv stmts name cond wanted s
  perform (counts name cond) s = count_where drv stmts name cond s

  -- On a driver and a cache that meet RunLaws: a call of SqlRDBWrite, SqlRDBWriteMany,
  -- SqlRDBDelete or SqlRDBCount, with whatever arguments, on an open handle whose lock is free,
  -- while no statement is in the middle of a run: on every branch on which it comes to a result,
  -- the lock is free again and the statement that it used has been reset or finalized.
  pub perform-Quiet :
      (call : Call) (s : Session drv stmts)
      → Ready s.handle
      → laws.Idle s.handle.driver_ctx
      → Quiet drv stmts laws (perform call s)
  unfolding perform write write_many delete_where count_where
  perform-Quiet (writes (some name) (some row) m) s rdy i =
      served-Quiet name (write_spec drv stmts) (write_row drv stmts row m) s rdy i
        (λ schema stmt u p. write_row-Mine drv stmts laws stmt row m schema u p)
  perform-Quiet (writes (some name) none m) s rdy i = refused-Quiet drv stmts laws s rdy i
  perform-Quiet (writes none row m) s rdy i = refused-Quiet drv stmts laws s rdy i
  perform-Quiet (writes_many (some name) (some rows) n stride m) s rdy i =
      if-intro (Quiet drv stmts laws) (n == 0 || stride == 0)
        (λ _. refused-Quiet drv stmts laws s rdy i)
        (λ _.
          served-Quiet name (write_spec drv stmts) (write_all drv stmts n rows stride m) s rdy i
            (λ schema stmt u p. write_all-Mine drv stmts laws stmt n rows stride m schema u p))
  perform-Quiet (writes_many (some name) none n stride m) s rdy i =
      refused-Quiet drv stmts laws s rdy i
  perform-Quiet (writes_many none rows n stride m) s rdy i = refused-Quiet drv stmts laws s rdy i
  perform-Quiet (deletes (some name) (some cond) wanted) s rdy i =
      entry-Quiet drv stmts laws
        (λ t. report_changes drv stmts wanted (
          with_statement drv stmts name (filter_spec drv stmts delete (some cond))
            (delete_rows drv stmts (some cond)) t))
        s rdy i
        (λ t j. report-Keeps wanted t (
          with_statement-Keeps drv stmts laws name (filter_spec drv stmts delete (some cond))
            (delete_rows drv stmts (some cond)) t
            (λ schema stmt u p. delete_rows-Mine drv stmts laws stmt (some cond) schema u p) j))
  perform-Quiet (deletes (some name) none wanted) s rdy i = refused-Quiet drv stmts laws s rdy i
  perform-Quiet (deletes none cond wanted) s rdy i = refused-Quiet drv stmts laws s rdy i
  perform-Quiet (counts (some name) cond) s rdy i =
      served-Quiet name (filter_spec drv stmts count cond) (count_rows drv stmts cond) s rdy i
        (λ schema stmt u p. count_rows-Mine drv stmts laws stmt cond schema u p)
  perform-Quiet (counts none cond) s rdy i = refused-Quiet drv stmts laws s rdy i
