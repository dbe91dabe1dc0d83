-- ===== src/StmtCache/Perform.antt =====
-- A call of the functions of src/stmt_cache.c, and how its outcome meets what is promised.
use c2sql.Prelude.{◌^◌, ◌≤◌, ◌≡◌, Option, none, some, List, [], ◌∷◌}
use c2sql.Types.{SqlRdbResult, ok}
use c2sql.Driver.{Driver}
use c2sql.StmtCache.{StmtCache, cache_get}
use c2sql.StmtCache.Calls.{finalize, cache_put, cache_rebuild, cache_destroy}
use c2sql.StmtCache.Ordered.{Call, get, put, rebuild, destroy, Answer}
use c2sql.StmtCache.Represents.{Holds}

module _ (drv : Driver) where
  abbrev pub finalize_all : List drv.Stmt → drv.Ctx → drv.Ctx
  finalize_all [] q = q
  finalize_all (v ∷ vs) q = finalize_all vs (finalize drv v q)

module _ (drv : Driver) (null : drv.Stmt) where
  -- The result code, the statement for the caller, the cache and the connection.
  abbrev pub Outcome : Type 0
  Outcome = SqlRdbResult × drv.Stmt × StmtCache drv.Stmt × drv.Ctx

  abbrev pub from_get :
      drv.Ctx → Option (SqlRdbResult × drv.Stmt × StmtCache drv.Stmt) → Option Outcome
  from_get q none = none
  from_get q (some (r, v, c)) = some (r, v, c, q)

  abbrev pub from_change : Option (SqlRdbResult × StmtCache drv.Stmt × drv.Ctx) → Option Outcome
  from_change none = none
  from_change (some (r, c, q)) = some (r, null, c, q)

  abbrev pub from_destroy : Option (StmtCache drv.Stmt × drv.Ctx) → Option Outcome
  from_destroy none = none
  from_destroy (some (c, q)) = some (ok, null, c, q)

  abbrev pub perform : Call drv.Stmt → StmtCache drv.Stmt → drv.Ctx → Option Outcome
  perform (get k) c q = from_get q (cache_get null c (some k))
  perform (put k v m) c q = from_change (cache_put drv c (some k) v m q)
  perform (rebuild n m) c q = from_change (cache_rebuild drv n c m q)
  perform destroy c q = from_destroy (cache_destroy drv c q)

  abbrev pub out_or_null : Option drv.Stmt → drv.Stmt
  out_or_null none = null
  out_or_null (some v) = v

  pub from_get-inverse :
      (q q' : drv.Ctx) (o : Option (SqlRdbResult × drv.Stmt × StmtCache drv.Stmt))
      (r : SqlRdbResult) (v : drv.Stmt) (d : StmtCache drv.Stmt)
      → from_get q o ≡ some (r, v, d, q')
      → o ≡ some (r, v, d)
  from_get-inverse q q' none r v d e = cc
  from_get-inverse q q' (some (r', v', d')) r v d e = cc

  pub from_change-inverse :
      (q' : drv.Ctx) (o : Option (SqlRdbResult × StmtCache drv.Stmt × drv.Ctx)) (r : SqlRdbResult)
      (v : drv.Stmt) (d : StmtCache drv.Stmt)
      → from_change o ≡ some (r, v, d, q')
      → o ≡ some (r, d, q')
  from_change-inverse q' none r v d e = cc
  from_change-inverse q' (some (r', d', q'')) r v d e = cc

  pub from_destroy-inverse :
      (q' : drv.Ctx) (o : Option (StmtCache drv.Stmt × drv.Ctx)) (r : SqlRdbResult) (v : drv.Stmt)
      (d : StmtCache drv.Stmt)
      → from_destroy o ≡ some (r, v, d, q')
      → o ≡ some (d, q')
  from_destroy-inverse q' none r v d e = cc
  from_destroy-inverse q' (some (d', q'')) r v d e = cc

  -- The outcome is that of the answer: its code and statement, the statements it names finalized in
  -- order, and a cache that holds the map it leaves.
  pub record Agrees (a : Answer drv.Stmt) (q : drv.Ctx) (o : Option Outcome) : Type 0 where
    pub cache : StmtCache drv.Stmt
    pub returns : o ≡ some (a.code, out_or_null a.out, cache, finalize_all drv a.dropped q)
    pub holds : Holds cache a.after

-- A new capacity for which the number of buckets can be computed.
abbrev pub Allowed : {Stmt : Type 0} → Call Stmt → Type 0
Allowed (rebuild n m) = n ≤ 2 ^ 62
Allowed (get k) = Unit
Allowed (put k v m) = Unit
Allowed destroy = Unit
