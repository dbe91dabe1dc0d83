-- ===== src/StmtCache/Rehash.antt =====
-- The two loops of `c2sql_internal_cache_rebuild` in src/stmt_cache.c that fill a new table.
use c2sql.Prelude.{
  ℕ, zero, suc, ◌<◌, ◌≡◌, refl, true, false, ◌||◌, some, List, [], ◌∷◌, arith, ◌==◌, length,
}
use c2sql.Driver.{Driver}
use c2sql.StmtCache.{StmtCache, bucket_index, bucket_insert, zeros}
use c2sql.StmtCache.Calls.{clear_from, rehash_from, retable}
use c2sql.StmtCache.Links.{Addresses, has, Distinct, Chain}
use c2sql.StmtCache.Buckets.{IsTable, inserted, bucket_insert-IsTable}
use c2sql.StmtCache.Masks.{masked_hash-lt}
use c2sql.StmtCache.Emptied.{length-zeros, get_or-zeros}

module _ (drv : Driver) where
  abbrev pub tabled : StmtCache drv.Stmt → List ℕ → (ℕ → ℕ) → StmtCache drv.Stmt
  tabled c buckets next = record c { buckets = buckets; bucket_next = next }

  clear_from_lem :
      (fuel : ℕ) (c : StmtCache drv.Stmt) (p : ℕ) (xs : Addresses)
      → Chain c.lru_next p xs
      → length xs < fuel
      → (next : ℕ → ℕ) × (clear_from drv fuel c p ≡ some (record c { bucket_next = next }))
  unfolding clear_from
  clear_from_lem zero c p xs l h = elim h [ ]
  clear_from_lem (suc fuel) c p [] l h = (c.bucket_next, ground arith)
  clear_from_lem (suc fuel) c p (x ∷ xs) l h =
      let z : (x == 0) ≡ false = ground arith in
      rw (l.0, z, clear_from) (clear_from_lem fuel _ (c.lru_next x) xs l.2 (omega arith))

  -- The addresses once `todo` has been put before `done`, one by one.
  abbrev pushed : Addresses → Addresses → Addresses
  pushed [] done = done
  pushed (x ∷ todo) done = pushed todo (x ∷ done)

  has-pushed :
      (a : ℕ) (todo done : Addresses) → has a (pushed todo done) ≡ (has a todo || has a done)
  has-pushed a [] done = refl
  has-pushed a (x ∷ todo) done = rw (has-pushed a todo (x ∷ done)) (ground arith)

  rehash_from_lem :
      (fuel : ℕ) (c : StmtCache drv.Stmt) (p : ℕ) (todo done : Addresses) (chains : ℕ → Addresses)
      → Chain c.lru_next p todo
      → length todo < fuel
      → 0 < c.bucket_count
      → Distinct todo
      → ((a : ℕ) → has a todo ≡ true → has a done ≡ false)
      → IsTable c done chains
      → (buckets : List ℕ) × (next : ℕ → ℕ) × (chains' : ℕ → Addresses) × (rehash_from drv fuel c p
          ≡ some (tabled c buckets next))
        × IsTable (tabled c buckets next) (pushed todo done) chains'
  unfolding rehash_from bucket_insert
  rehash_from_lem zero c p todo done chains l h pos d away t = elim h [ ]
  rehash_from_lem (suc fuel) c p [] done chains l h pos d away t =
      (c.buckets, c.bucket_next, chains, ground arith, t)
  rehash_from_lem (suc fuel) c p (x ∷ todo) done chains l h pos d away t =
      let z : (x == 0) ≡ false = ground arith in
      let room : bucket_index c (c.sql x) < length c.buckets =
        rw t.width (masked_hash-lt c.bucket_count (c.sql x) pos) in
      let out = away x (ground arith) in
      rw (l.0, z, rehash_from)
        (rehash_from_lem fuel (bucket_insert c x) (c.lru_next x) todo (x ∷ done)
          (inserted c done chains t x out l.1 room) l.2 (omega arith) pos d.1
          (λ a g. ground (arith, away a, d.0))
          (bucket_insert-IsTable c done chains t x out l.1 room))

  empty-IsTable :
      (c : StmtCache drv.Stmt) (count : ℕ) (next : ℕ → ℕ)
      → IsTable
          (record c { buckets = zeros count; bucket_count = count; bucket_next = next })
          []
          (λ i. [])
  empty-IsTable c count next = record {
    width = length-zeros count;
    linked = λ i. get_or-zeros count i;
    distinct = λ i. tt;
    members = λ i a. refl;
  }

  -- A new table links the entries of the list, and nothing else of the cache changes.
  pub retable_lem :
      (c : StmtCache drv.Stmt) (count : ℕ) (xs : Addresses)
      → Chain c.lru_next c.lru_head xs
      → Distinct xs
      → c.size ≡ length xs
      → 0 < count
      → (buckets : List ℕ) × (next : ℕ → ℕ) × (chains : ℕ → Addresses) × (retable drv count c
          ≡ some (tabled (record c { bucket_count = count }) buckets next))
        × IsTable (tabled (record c { bucket_count = count }) buckets next) xs chains
  unfolding retable
  retable_lem c count xs l d e pos =
      let (cleared, run) = clear_from_lem (suc c.size) c c.lru_head xs l (omega (arith, e)) in
      let start = record c { buckets = zeros count; bucket_count = count; bucket_next = cleared } in
      let (buckets, next, chains, again, t) =
        rehash_from_lem (suc c.size) start c.lru_head xs [] (λ i. []) l (omega (arith, e)) pos d
          (λ a g. refl) (empty-IsTable c count cleared) in
      (
        buckets,
        next,
        chains,
        rw (run, retable) again,
        record {
          width = t.width;
          linked = t.linked;
          distinct = t.distinct;
          members = λ i a. ground (arith, t.members i a, has-pushed a xs []);
        },
      )
