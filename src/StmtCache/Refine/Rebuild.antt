-- ===== src/StmtCache/Refine/Rebuild.antt =====
-- `c2sql_internal_cache_rebuild` of src/stmt_cache.c.
use c2sql.Prelude.{
  ℕ, ◌^◌, ◌≤◌, ◌≡◌, refl, sym, ap, ◌∙◌, Bool, true, false, ◌||◌, Option, some, List, [], ◌∷◌, arith,
  inl, inr, Bool-cases, ◌==◌, ==_iff, if◌then◌else◌, length, take, length-take_le, Memory, malloc,
}
use c2sql.Types.{SqlRdbResult, ok, err_no_memory}
use c2sql.Driver.{Driver}
use c2sql.StmtCache.{StmtCache}
use c2sql.StmtCache.Hash.{bucket_count_for}
use c2sql.StmtCache.Calls.{resize_table, cache_rebuild}
use c2sql.StmtCache.Links.{Addresses}
use c2sql.StmtCache.Doubling.{bucket_count_for-IsNextPow2, bucket_count_for-pos}
use c2sql.StmtCache.Ordered.{rebuild, Ordered, promised, same_buckets}
use c2sql.StmtCache.Represents.{Represents, Holds, view, view_congr}
use c2sql.StmtCache.Buckets.{IsTable}
use c2sql.StmtCache.Rehash.{tabled, retable_lem}
use c2sql.StmtCache.Emptied.{no_buckets}
use c2sql.StmtCache.Perform.{Agrees, perform}
use c2sql.StmtCache.Refine.Cut.{evict_down-IsCutTo}

module _ {Stmt : Type 0} where
  abbrev tabless : StmtCache Stmt → StmtCache Stmt
  tabless c = record c { buckets = []; bucket_count = 0; capacity = 0 }

  tabless-Represents :
      (c : StmtCache Stmt) (xs : Addresses)
      → Represents c xs
      → length xs ≤ 0
      → Represents (tabless c) xs
  tabless-Represents c [] r h = record {
    lru = record {
      distinct = r.lru.distinct;
      forward = r.lru.forward;
      backward = r.lru.backward;
      last = r.lru.last;
    };
    chains = λ i. [];
    table = record { width = refl; linked = λ i. refl; distinct = λ i. tt; members = λ i a. refl };
    size = r.size;
    bounded = omega arith;
    counted = no_buckets;
    unique = r.unique;
    allocated = r.allocated;
    fresh_nonzero = r.fresh_nonzero;
  }
  tabless-Represents c (x ∷ xs) r h = absurd (omega (arith, h))

module _ (drv : Driver) where
  -- What resizing the table comes to, for a list that fits.
  record IsResized (n : ℕ) (c : StmtCache drv.Stmt) (xs : Addresses) (m : Memory)
      (o : Option (SqlRdbResult × StmtCache drv.Stmt)) : Type 0 where
    resized : StmtCache drv.Stmt
    fits : Bool
    decided : fits ≡ ((n == 0) || same_buckets n c.capacity || (malloc m).0)
    returns : o ≡ some (if fits then ok else err_no_memory, resized)
    represents : Represents resized xs
    shows : view resized xs ≡ view c xs
    capacity : resized.capacity ≡ (if fits then n else c.capacity)

  module _ (c : StmtCache drv.Stmt) (xs : Addresses) (r : Represents c xs) (n : ℕ)
      (m : Memory) where
    recapped :
        length xs ≤ n
        → bucket_count_for n ≡ some c.bucket_count
        → Represents (record c { capacity = n }) xs
    recapped fit e = record {
      lru = record {
        distinct = r.lru.distinct;
        forward = r.lru.forward;
        backward = r.lru.backward;
        last = r.lru.last;
      };
      chains = r.chains;
      table = record {
        width = r.table.width;
        linked = r.table.linked;
        distinct = r.table.distinct;
        members = r.table.members;
      };
      size = r.size;
      bounded = fit;
      counted = e;
      unique = r.unique;
      allocated = r.allocated;
      fresh_nonzero = r.fresh_nonzero;
    }

    retabled :
        (want : ℕ) (buckets : List ℕ) (links : ℕ → ℕ) (chains : ℕ → Addresses)
        → length xs ≤ n
        → bucket_count_for n ≡ some want
        → IsTable (tabled drv (record c { bucket_count = want }) buckets links) xs chains
        → Represents
            (record (tabled drv (record c { bucket_count = want }) buckets links) { capacity = n })
            xs
    retabled want buckets links chains fit e t = record {
      lru = record {
        distinct = r.lru.distinct;
        forward = r.lru.forward;
        backward = r.lru.backward;
        last = r.lru.last;
      };
      chains = chains;
      table = record {
        width = t.width;
        linked = t.linked;
        distinct = t.distinct;
        members = t.members;
      };
      size = r.size;
      bounded = fit;
      counted = e;
      unique = r.unique;
      allocated = r.allocated;
      fresh_nonzero = r.fresh_nonzero;
    }

    resize_table-IsResized :
        length xs ≤ n → n ≤ 2 ^ 62 → IsResized n c xs m (resize_table drv n c m)
    unfolding resize_table same_buckets
    resize_table-IsResized fit small = elim (Bool-cases (n == 0)) [
      | inl off ↦
          let z : n ≡ 0 = ground arith in
          let d = tabless c in
          rw (off, resize_table)
            record {
              resized = d;
              fits = true;
              decided = rw off refl;
              returns = refl;
              represents = tabless-Represents c xs r (ground arith);
              shows = view_congr c d xs (λ a h. (refl, refl));
              capacity = sym z;
            }
      | inr more ↦
          let (want, e, p) = bucket_count_for-IsNextPow2 n (ground arith) small in
          let pos = bucket_count_for-pos n want e (ground arith) in
          let match : same_buckets n c.capacity ≡ (want == c.bucket_count) =
            rw (e, r.counted, same_buckets) refl in
          elim (Bool-cases (want == c.bucket_count)) [
            | inl same ↦
                let e' : bucket_count_for n ≡ some c.bucket_count =
                  e ∙ ap some ((==_iff want c.bucket_count).0 same) in
                rw (more, e, same, resize_table)
                  record {
                    resized = record c { capacity = n };
                    fits = true;
                    decided = rw (more, match, same) refl;
                    returns = refl;
                    represents = recapped fit e';
                    shows = view_congr c (record c { capacity = n }) xs (λ a h. (refl, refl));
                    capacity = refl;
                  }
            | inr other ↦ elim (Bool-cases (malloc m).0) [
              | inl got ↦
                  let (buckets, links, chains, run, t) =
                    retable_lem drv c want xs r.lru.forward r.lru.distinct r.size pos in
                  let d = record (tabled drv (record c { bucket_count = want }) buckets links) {
                    capacity = n;
                  } in
                  rw (more, e, other, got, run, resize_table)
                    record {
                      resized = d;
                      fits = true;
                      decided = rw (more, match, other, got) refl;
                      returns = refl;
                      represents = retabled want buckets links chains fit e t;
                      shows = view_congr c d xs (λ a h. (refl, refl));
                      capacity = refl;
                    }
              | inr out ↦
                  rw (more, e, other, out, resize_table)
                    record {
                      resized = c;
                      fits = false;
                      decided = rw (more, match, other, out) refl;
                      returns = refl;
                      represents = r;
                      shows = refl;
                      capacity = refl;
                    }
            ]
          ]
    ]

  pub rebuild-Agrees :
      (null : drv.Stmt) (c : StmtCache drv.Stmt) (s : Ordered drv.Stmt) (n : ℕ) (m : Memory)
      (q : drv.Ctx)
      → n ≤ 2 ^ 62
      → Holds c s
      → Agrees drv null (promised (rebuild n m) s) q (perform drv null (rebuild n m) c q)
  unfolding promised cache_rebuild
  rebuild-Agrees null c s n m q small h =
      let xs = h.addresses in
      let cut = evict_down-IsCutTo drv c.size n c xs q h.represents (omega arith) in
      let d =
        resize_table-IsResized cut.smaller (take n xs) cut.represents n m (length-take_le n xs)
          small in
      let shown : view d.resized (take n xs) ≡ take n s.pairs =
        d.shows ∙ cut.shows ∙ ap (take n) h.shows in
      let same : d.fits ≡ ((n == 0) || same_buckets n s.capacity || (malloc m).0) =
        rw (← h.capacity, ← cut.capacity) d.decided in
      elim (Bool-cases d.fits) [
        | inl fit ↦
            rw (sym same ∙ fit, promised)
              record {
                cache = d.resized;
                returns = rw (cut.returns, d.returns, fit, h.shows, perform, cache_rebuild) refl;
                holds = record {
                  addresses = take n xs;
                  represents = d.represents;
                  shows = shown;
                  capacity = rw d.capacity (rw fit refl);
                };
              }
        | inr out ↦
            rw (sym same ∙ out, promised)
              record {
                cache = d.resized;
                returns = rw (cut.returns, d.returns, out, h.shows, perform, cache_rebuild) refl;
                holds = record {
                  addresses = take n xs;
                  represents = d.represents;
                  shows = shown;
                  capacity = d.capacity ∙ rw out (cut.capacity ∙ h.capacity);
                };
              }
      ]
