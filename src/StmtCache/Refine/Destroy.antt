-- ===== src/StmtCache/Refine/Destroy.antt =====
-- `c2sql_internal_cache_init` and `c2sql_internal_cache_destroy` of src/stmt_cache.c.
use c2sql.Prelude.{
  ℕ, zero, suc, ◌^◌, ◌≤◌, ◌<◌, ◌≡◌, refl, Bool, false, ◌||◌, some, [], ◌∷◌, arith, inl, inr,
  Bool-cases, ◌==◌, if◌then◌else◌, length, Memory, malloc,
}
use c2sql.Types.{ok, err_no_memory}
use c2sql.Driver.{Driver}
use c2sql.StmtCache.{StmtCache, cache_init, zeroed}
use c2sql.StmtCache.Calls.{finalize, destroy_from, cache_destroy}
use c2sql.StmtCache.Links.{Addresses, Chain}
use c2sql.StmtCache.Doubling.{bucket_count_for-IsNextPow2}
use c2sql.StmtCache.Ordered.{destroy, Ordered, promised, statements}
use c2sql.StmtCache.Represents.{Holds, view}
use c2sql.StmtCache.Emptied.{emptied, emptied-Represents, zeroed-Holds}
use c2sql.StmtCache.Perform.{Agrees, perform, finalize_all}

module _ (drv : Driver) where
  destroy_from_lem :
      (fuel : ℕ) (c : StmtCache drv.Stmt) (p : ℕ) (xs : Addresses) (q : drv.Ctx)
      → Chain c.lru_next p xs
      → length xs < fuel
      → destroy_from drv fuel c p q ≡ some (finalize_all drv (statements (view c xs)) q)
  unfolding destroy_from
  destroy_from_lem zero c p xs q l h = elim h [ ]
  destroy_from_lem (suc fuel) c p [] q l h = ground arith
  destroy_from_lem (suc fuel) c p (x ∷ xs) q l h =
      let rest =
        destroy_from_lem fuel c (c.lru_next x) xs (finalize drv (c.stmt x) q) l.2 (omega arith) in
      let z : (x == 0) ≡ false = ground arith in rw (l.0, z, destroy_from) rest

  pub destroy-Agrees :
      (null : drv.Stmt) (c : StmtCache drv.Stmt) (s : Ordered drv.Stmt) (q : drv.Ctx)
      → Holds c s
      → Agrees drv null (promised destroy s) q (perform drv null destroy c q)
  unfolding promised cache_destroy
  destroy-Agrees null c s q h =
      let r = h.represents in
      let run =
        destroy_from_lem (suc c.size) c c.lru_head h.addresses q r.lru.forward
          (omega (arith, r.size)) in
      record {
        cache = zeroed c;
        returns = rw (run, perform, cache_destroy, h.shows);
        holds = zeroed-Holds c r.fresh_nonzero;
      }

module _ {Stmt : Type 0} (c : StmtCache Stmt) (f : 0 < c.fresh) (m : Memory) where
  abbrev pub enough : ℕ → Bool
  enough capacity = (capacity == 0) || (malloc m).0

  -- For a capacity of at most 2 ^ 62 a cache is made that holds nothing: with the capacity, or, if the
  -- allocation of its table fails, with the error and disabled.
  pub cache_init-Holds :
      (capacity : ℕ)
      → capacity ≤ 2 ^ 62
      → (d : StmtCache Stmt) × (cache_init c capacity m
          ≡ some (if enough capacity then ok else err_no_memory, d))
        × Holds d record { capacity = if enough capacity then capacity else 0; pairs = [] }
  unfolding cache_init
  cache_init-Holds capacity h = elim (Bool-cases (capacity == 0)) [
    | inl off ↦ let z : capacity ≡ 0 = ground arith in rw z (zeroed c, refl, zeroed-Holds c f)
    | inr on ↦
        let (n, e, p) = bucket_count_for-IsNextPow2 capacity (ground arith) h in
        elim (Bool-cases (malloc m).0) [
          | inl got ↦
              rw (on, e, got, cache_init)
                (
                  emptied c capacity n,
                  refl,
                  record {
                    addresses = [];
                    represents = emptied-Represents c capacity n e f;
                    shows = refl;
                    capacity = refl;
                  },
                )
          | inr out ↦ rw (on, e, out, cache_init) (zeroed c, refl, zeroed-Holds c f)
        ]
  ]
