-- ===== src/StmtCache/Calls.antt =====
-- src/stmt_cache.c: the functions that hand statements back to the driver.
use c2sql.Prelude.{
  ℕ, zero, suc, CStr, Option, none, some, [], ◌==◌, ◌&&◌, leb, ltb, if◌then◌else◌, Memory, malloc,
}
use c2sql.Types.{SqlRdbResult, ok, err_invalid_arg, err_no_memory}
use c2sql.Driver.{Driver}
use c2sql.StmtCache.Hash.{bucket_count_for}
use c2sql.StmtCache.{
  StmtCache, write, minus_one, bucket_index, bucket_find, bucket_unlink, bucket_insert, lru_unlink,
  lru_push_front, lru_promote, zeroed, zeros,
}

module _ (drv : Driver) where
  abbrev pub Store : Type 0
  Store = StmtCache drv.Stmt

  -- `entry_finalize_and_free`: the result of the driver is dropped.
  abbrev pub finalize : drv.Stmt → drv.Ctx → drv.Ctx
  finalize stmt k = (drv.finalize stmt k).1

  unfoldable pub evict_lru_tail : Store → drv.Ctx → Option (Store × drv.Ctx)
  evict_lru_tail c k =
      let victim = c.lru_tail in
      if victim == 0 then some (c, k) else elim (bucket_unlink (lru_unlink c victim) victim) [
        | none ↦ none
        | some c' ↦ some (record c' { size = minus_one c'.size }, finalize (c'.stmt victim) k)
      ]

  -- A new entry at the address `fresh`. The copy of the key is the second allocation.
  unfoldable pub add_entry :
      Store → CStr → drv.Stmt → Memory → drv.Ctx → SqlRdbResult × Store × drv.Ctx
  add_entry c sql stmt m k =
      let e = c.fresh in
      let (got, m') = malloc m in
      if got && (malloc m').0
      then (
        ok,
        let c' = record c { sql = write c.sql e sql; stmt = write c.stmt e stmt; fresh = suc e } in
            let c'' = lru_push_front (bucket_insert c' e) e in record c'' { size = suc c''.size },
        k,
      )
      else (err_no_memory, c, finalize stmt k)

  unfoldable pub replace_entry : Store → ℕ → drv.Stmt → drv.Ctx → SqlRdbResult × Store × drv.Ctx
  replace_entry c e stmt k =
      let k' = finalize (c.stmt e) k in
      (ok, lru_promote (record c { stmt = write c.stmt e stmt }) e, k')

  -- The part of `c2sql_internal_cache_put` for a key that has no entry.
  unfoldable pub put_new :
      Store → CStr → drv.Stmt → Memory → drv.Ctx → Option (SqlRdbResult × Store × drv.Ctx)
  put_new c sql stmt m k =
      if leb c.capacity c.size
      then elim (evict_lru_tail c k) [
        | none ↦ none
        | some (c', k') ↦ some (add_entry c' sql stmt m k')
      ]
      else some (add_entry c sql stmt m k)

  -- `c2sql_internal_cache_put`
  unfoldable pub cache_put :
      Store → Option CStr → drv.Stmt → Memory → drv.Ctx → Option (SqlRdbResult × Store × drv.Ctx)
  cache_put c none stmt m k = some (err_invalid_arg, c, k)
  cache_put c (some sql) stmt m k =
      if c.capacity == 0
      then some (ok, c, finalize stmt k)
      else elim (bucket_find c (bucket_index c sql) sql) [
        | none ↦ none
        | some e ↦ if e == 0 then put_new c sql stmt m k else some (replace_entry c e stmt k)
      ]

  -- The first loop of `c2sql_internal_cache_rebuild`.
  unfoldable pub evict_down : ℕ → ℕ → Store → drv.Ctx → Option (Store × drv.Ctx)
  evict_down zero target c k = if ltb target c.size then none else some (c, k)
  evict_down (suc fuel) target c k =
      if ltb target c.size
      then elim (evict_lru_tail c k) [ none ↦ none | some (c', k') ↦ evict_down fuel target c' k' ]
      else some (c, k)

  -- The loop that clears the chains.
  unfoldable pub clear_from : ℕ → Store → ℕ → Option Store
  clear_from zero c e = none
  clear_from (suc fuel) c e =
      let rest =
        clear_from fuel (record c { bucket_next = write c.bucket_next e 0 }) (c.lru_next e) in
      if e == 0 then some c else rest

  -- The loop that puts every entry into the new table.
  unfoldable pub rehash_from : ℕ → Store → ℕ → Option Store
  rehash_from zero c e = none
  rehash_from (suc fuel) c e =
      let rest = rehash_from fuel (bucket_insert c e) (c.lru_next e) in
      if e == 0 then some c else rest

  unfoldable pub retable : ℕ → Store → Option Store
  retable count c = elim (clear_from (suc c.size) c c.lru_head) [
    | none ↦ none
    | some c' ↦
        let c'' = record c' { buckets = zeros count; bucket_count = count } in
        rehash_from (suc c''.size) c'' c''.lru_head
  ]

  -- `c2sql_internal_cache_rebuild`, from its second `if` on.
  unfoldable pub resize_table : ℕ → Store → Memory → Option (SqlRdbResult × Store)
  resize_table capacity c m =
      if capacity == 0
      then some (ok, record c { buckets = []; bucket_count = 0; capacity = 0 })
      else elim (bucket_count_for capacity) [
        | none ↦ none
        | some want ↦
            if want == c.bucket_count
            then some (ok, record c { capacity = capacity })
            else if (malloc m).0
            then elim (retable want c) [
              | none ↦ none
              | some c' ↦ some (ok, record c' { capacity = capacity })
            ]
            else some (err_no_memory, c)
      ]

  -- `c2sql_internal_cache_rebuild`
  unfoldable pub cache_rebuild :
      ℕ → Store → Memory → drv.Ctx → Option (SqlRdbResult × Store × drv.Ctx)
  cache_rebuild capacity c m k = elim (evict_down c.size capacity c k) [
    | none ↦ none
    | some (c', k') ↦ elim (resize_table capacity c' m) [
      | none ↦ none
      | some (r, c'') ↦ some (r, c'', k')
    ]
  ]

  unfoldable pub destroy_from : ℕ → Store → ℕ → drv.Ctx → Option drv.Ctx
  destroy_from zero c e k = none
  destroy_from (suc fuel) c e k =
      let rest = destroy_from fuel c (c.lru_next e) (finalize (c.stmt e) k) in
      if e == 0 then some k else rest

  -- `c2sql_internal_cache_destroy`
  unfoldable pub cache_destroy : Store → drv.Ctx → Option (Store × drv.Ctx)
  cache_destroy c k = elim (destroy_from (suc c.size) c c.lru_head k) [
    | none ↦ none
    | some k' ↦ some (zeroed c, k')
  ]
