-- ===== src/StmtCache/Additions.antt =====
-- The invariant of the cache of src/stmt_cache.c across a new entry and a replaced statement.
use c2sql.Prelude.{
  ℕ, suc, ◌<◌, ◌≡◌, refl, sym, ap, ◌∙◌, ◌≢◌, CStr, true, false, ◌∷◌, arith, inl, inr, Bool-cases,
  ◌==◌, ==_refl, length, str_eq, str_eq_iff, Memory,
}
use c2sql.Types.{ok, err_no_memory}
use c2sql.Driver.{Driver}
use c2sql.StmtCache.{StmtCache, write, bucket_index, lru_push_front, lru_promote, bucket_insert}
use c2sql.StmtCache.Calls.{finalize, add_entry}
use c2sql.StmtCache.Links.{Addresses, has, remove, has-remove}
use c2sql.StmtCache.Lru.{IsLru, lru_push_front-IsLru}
use c2sql.StmtCache.Buckets.{IsTable, inserted, bucket_insert-IsTable}
use c2sql.StmtCache.Masks.{masked_hash-lt}
use c2sql.StmtCache.Ordered.{two_allocations, erase}
use c2sql.StmtCache.Represents.{Represents, view, view_congr, erase-view, bucket_pos}
use c2sql.StmtCache.Moves.{view-promote}

module _ {Stmt : Type 0} (c : StmtCache Stmt) (xs : Addresses) (r : Represents c xs) (k : CStr)
    (v : Stmt) (short : length xs < c.capacity)
    (new : (a : ℕ) → has a xs ≡ true → str_eq (c.sql a) k ≡ false) where
  abbrev fresh_entry : ℕ
  fresh_entry = c.fresh

  -- The entry is filled in, but linked to nothing yet.
  abbrev filled : StmtCache Stmt
  filled = record c {
    sql = write c.sql fresh_entry k;
    stmt = write c.stmt fresh_entry v;
    fresh = suc fresh_entry;
  }

  unused : has fresh_entry xs ≡ false
  unused = elim (Bool-cases (has fresh_entry xs)) [
    | inl h ↦ absurd (omega (arith, r.allocated fresh_entry h))
    | inr h ↦ h
  ]

  filled-IsTable : IsTable filled xs r.chains
  filled-IsTable = record {
    width = r.table.width;
    linked = r.table.linked;
    distinct = r.table.distinct;
    members = λ i a. ground (arith, r.table.members i a, unused);
  }

  filled_room : bucket_index filled (filled.sql fresh_entry) < length filled.buckets
  filled_room =
      rw r.table.width (masked_hash-lt c.bucket_count _ (bucket_pos c xs r (omega (arith, short))))

  apart : (a : ℕ) → has a xs ≡ true → c.sql a ≢ k
  apart a h e = cc (new a h, (str_eq_iff (c.sql a) k).1 e)

  filled_unique :
      (a b : ℕ)
      → has a (fresh_entry ∷ xs) ≡ true
      → has b (fresh_entry ∷ xs) ≡ true
      → filled.sql a ≡ filled.sql b
      → a ≡ b
  filled_unique a b h g e = elim (Bool-cases (a == fresh_entry)) [
    | inl first ↦ elim (Bool-cases (b == fresh_entry)) [
      | inl second ↦ ground arith
      | inr old ↦ absurd (apart b (ground arith) (sym (rw (first, old) at e)))
    ]
    | inr old ↦ elim (Bool-cases (b == fresh_entry)) [
      | inl second ↦ absurd (apart a (ground arith) (rw (second, old) at e))
      | inr older ↦ r.unique a b (ground arith) (ground arith) (rw (old, older) at e)
    ]
  ]

  abbrev pub grown : StmtCache Stmt
  grown =
      let d = lru_push_front (bucket_insert filled fresh_entry) fresh_entry in
      record d { size = suc d.size }

  pub grown-Represents : Represents grown (fresh_entry ∷ xs)
  unfolding bucket_insert lru_push_front
  grown-Represents =
      let positive : fresh_entry ≢ 0 = omega (arith, r.fresh_nonzero) in
      let t =
        bucket_insert-IsTable filled xs r.chains filled-IsTable fresh_entry unused positive
          filled_room in
      let old : IsLru (bucket_insert filled fresh_entry) xs = record {
        distinct = r.lru.distinct;
        forward = r.lru.forward;
        backward = r.lru.backward;
        last = r.lru.last;
      } in
      let l =
        lru_push_front-IsLru (bucket_insert filled fresh_entry) xs old fresh_entry unused
          positive in
      record {
        lru = record {
          distinct = l.distinct;
          forward = l.forward;
          backward = l.backward;
          last = l.last;
        };
        chains = inserted filled xs r.chains filled-IsTable fresh_entry unused positive filled_room;
        table = record {
          width = t.width;
          linked = t.linked;
          distinct = t.distinct;
          members = t.members;
        };
        size = ap suc r.size;
        bounded = omega (arith, short);
        counted = r.counted;
        unique = filled_unique;
        allocated = λ a h. ground (arith, r.allocated a);
        fresh_nonzero = omega arith;
      }

  pub view-grown : view grown (fresh_entry ∷ xs) ≡ (k, v) ∷ view c xs
  unfolding bucket_insert lru_push_front
  view-grown =
      let here : fresh_entry == fresh_entry ≡ true = ==_refl fresh_entry in
      let rest =
        view_congr c grown xs
          (λ a h. let n : (a == fresh_entry) ≡ false = ground (arith, unused) in (rw n, rw n)) in
      rw here (ap (λ l. (k, v) ∷ l) rest)

module _ (drv : Driver) (c : StmtCache drv.Stmt) (k : CStr) (v : drv.Stmt) (m : Memory)
    (q : drv.Ctx) where
  pub add_entry-grown :
      (xs : Addresses) (r : Represents c xs) (short : length xs < c.capacity)
      (new : (a : ℕ) → has a xs ≡ true → str_eq (c.sql a) k ≡ false)
      → two_allocations m ≡ true
      → add_entry drv c k v m q ≡ (ok, grown c xs r k v short new, q)
  unfolding add_entry
  add_entry-grown xs r short new h = rw (h, add_entry)

  pub add_entry-finalize :
      two_allocations m ≡ false → add_entry drv c k v m q ≡ (err_no_memory, c, finalize drv v q)
  unfolding add_entry
  add_entry-finalize h = rw (h, add_entry)

module _ {Stmt : Type 0} (c : StmtCache Stmt) (xs : Addresses) (r : Represents c xs) (a : ℕ)
    (h : has a xs ≡ true) where
  -- A promotion shows as the pair in front.
  pub view-lru_promote :
      view (lru_promote c a) (a ∷ remove a xs) ≡ (c.sql a, c.stmt a) ∷ erase (c.sql a) (view c xs)
  view-lru_promote =
      view-promote c a (a ∷ remove a xs)
      ∙ ap (λ l. (c.sql a, c.stmt a) ∷ l) (erase-view c a xs r.unique h)

  abbrev pub restocked : Stmt → StmtCache Stmt
  restocked v = record c { stmt = write c.stmt a v }

  pub restocked-Represents : (v : Stmt) → Represents (restocked v) xs
  restocked-Represents v = record {
    lru = record {
      distinct = r.lru.distinct;
      forward = r.lru.forward;
      backward = r.lru.backward;
      last = r.lru.last;
    };
    chains = r.chains;
    table = record {
      width = r.table.width;
      linked = r.table.linked;
      distinct = r.table.distinct;
      members = r.table.members;
    };
    size = r.size;
    bounded = r.bounded;
    counted = r.counted;
    unique = r.unique;
    allocated = r.allocated;
    fresh_nonzero = r.fresh_nonzero;
  }

  pub view-restocked :
      (v : Stmt)
      → view (lru_promote (restocked v) a) (a ∷ remove a xs)
        ≡ (c.sql a, v) ∷ erase (c.sql a) (view c xs)
  view-restocked v =
      let gone = has-remove a a xs r.lru.distinct in
      let rest = view_congr c (restocked v) (remove a xs) (λ b g. (
        refl,
        let n : (b == a) ≡ false = ground (arith, has-remove a b xs r.lru.distinct) in rw n,
      )) in
      let here : write c.stmt a v a ≡ v = ground arith in
      view-promote (restocked v) a (a ∷ remove a xs)
      ∙ rw here (ap (λ l. (c.sql a, v) ∷ l) (rest ∙ erase-view c a xs r.unique h))
