-- ===== src/StmtCache/Refine/Run.antt =====
-- Sequences of calls of the functions of src/stmt_cache.c.
use c2sql.Prelude.{◌≡◌, refl, Option, none, some, List, [], ◌∷◌, ◌++◌, All}
use c2sql.Types.{SqlRdbResult}
use c2sql.Driver.{Driver}
use c2sql.StmtCache.{StmtCache}
use c2sql.StmtCache.Ordered.{Call, get, put, rebuild, destroy, Ordered, promised}
use c2sql.StmtCache.Represents.{Holds}
use c2sql.StmtCache.Perform.{Agrees, perform, finalize_all, out_or_null, Allowed}
use c2sql.StmtCache.Refine.Get.{get-Agrees}
use c2sql.StmtCache.Refine.Put.{put-Agrees}
use c2sql.StmtCache.Refine.Destroy.{destroy-Agrees}
use c2sql.StmtCache.Refine.Cut.{finalize_all-append}
use c2sql.StmtCache.Refine.Rebuild.{rebuild-Agrees}

module _ (drv : Driver) (null : drv.Stmt) where
  -- On every cache whose linked list and hash table agree, where a new capacity is at most 2 ^ 62: get,
  -- put, rebuild and destroy return, and the result code, the statement for the caller, the statements
  -- that are finalized, in their order, and the cache that is left are those of the same call on the
  -- ordered map that the cache stands for.
  pub perform-Agrees :
      (call : Call drv.Stmt) (c : StmtCache drv.Stmt) (s : Ordered drv.Stmt) (q : drv.Ctx)
      → Allowed call
      → Holds c s
      → Agrees drv null (promised call s) q (perform drv null call c q)
  perform-Agrees (get k) c s q ok h = get-Agrees drv null c s h k q
  perform-Agrees (put k v m) c s q ok h = put-Agrees drv null c s h k v m q
  perform-Agrees (rebuild n m) c s q ok h = rebuild-Agrees drv null c s n m q ok h
  perform-Agrees destroy c s q ok h = destroy-Agrees drv null c s q h

  abbrev pub Results : Type 0
  Results = List (SqlRdbResult × drv.Stmt)

  -- The calls one after the other, with what each returns.
  unfoldable pub run :
      List (Call drv.Stmt)
      → StmtCache drv.Stmt
      → drv.Ctx
      → Option (Results × StmtCache drv.Stmt × drv.Ctx)
  run [] c q = some ([], c, q)
  run (call ∷ calls) c q = elim (perform drv null call c q) [
    | none ↦ none
    | some (r, v, c', q') ↦ elim (run calls c' q') [
      | none ↦ none
      | some (rs, c'', q'') ↦ some ((r, v) ∷ rs, c'', q'')
    ]
  ]

  unfoldable pub promised_results : List (Call drv.Stmt) → Ordered drv.Stmt → Results
  promised_results [] s = []
  promised_results (call ∷ calls) s =
      let a = promised call s in
      (a.code, out_or_null drv null a.out) ∷ promised_results calls a.after

  unfoldable pub promised_drops : List (Call drv.Stmt) → Ordered drv.Stmt → List drv.Stmt
  promised_drops [] s = []
  promised_drops (call ∷ calls) s =
      let a = promised call s in a.dropped ++ promised_drops calls a.after

  unfoldable pub promised_end : List (Call drv.Stmt) → Ordered drv.Stmt → Ordered drv.Stmt
  promised_end [] s = s
  promised_end (call ∷ calls) s = promised_end calls (promised call s).after

  -- Where every new capacity is at most 2 ^ 62, any sequence of calls on a cache whose linked list and
  -- hash table agree returns. Each call returns what it returns on the ordered map that the calls before
  -- it leave, the statements finalized are those of the map's calls, in their order, and list and table
  -- agree at the end, on the map that is left.
  pub run-Agrees :
      (calls : List (Call drv.Stmt)) (c : StmtCache drv.Stmt) (s : Ordered drv.Stmt) (q : drv.Ctx)
      → All Allowed calls
      → Holds c s
      → (d : StmtCache drv.Stmt) × Holds d (promised_end calls s)
        × (run calls c q
            ≡ some (promised_results calls s, d, finalize_all drv (promised_drops calls s) q))
  unfolding run promised_results promised_drops promised_end
  run-Agrees [] c s q ok h = (c, h, refl)
  run-Agrees (call ∷ calls) c s q ok h =
      let a = promised call s in
      let one = perform-Agrees call c s q ok.0 h in
      let (d, e, rest) =
        run-Agrees calls one.cache a.after (finalize_all drv a.dropped q) ok.1 one.holds in
      (
        d,
        e,
        rw
            (
              one.returns,
              rest,
              finalize_all-append drv a.dropped (promised_drops calls a.after) q,
              run,
            )
            refl,
      )
