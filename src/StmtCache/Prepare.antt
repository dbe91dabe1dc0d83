-- ===== src/StmtCache/Prepare.antt =====
-- src/c2sql.c: `get_or_prepare`, over the cache of src/stmt_cache.c.
use mathlib.Core.Path.{subst}
use c2sql.Prelude.{
  ℕ, ◌-◌, ◌≡◌, refl, ap, ◌∙◌, ◌≢◌, CStr, Bool, true, false, not, Option, none, some, List, [], ◌∷◌,
  arith, inl, inr, Bool-cases, Option-cases, ◌==◌, leb, if◌then◌else◌, length, take, drop,
  str_eq_refl, Memory,
}
use c2sql.Types.{SqlRdbResult, ok, err_no_memory, err_internal, err_not_found, is_ok}
use c2sql.Driver.{Driver}
use c2sql.Crud.Rows.{Acquired}
use c2sql.StmtCache.{StmtCache, cache_get}
use c2sql.StmtCache.Calls.{cache_put}
use c2sql.StmtCache.Ordered.{
  get, put, Answer, Ordered, promised, find, erase, added, answer, backwards, two_allocations,
}
use c2sql.StmtCache.Represents.{Holds}
use c2sql.StmtCache.Perform.{finalize_all, from_get-inverse, from_change-inverse, out_or_null}
use c2sql.StmtCache.Refine.Get.{get-Agrees}
use c2sql.StmtCache.Refine.Put.{put-Agrees}

get_hit :
    {Stmt : Type 0} (k : CStr) (s : Ordered Stmt) (v : Stmt)
    → find k s.pairs ≡ some v
    → promised (get k) s
      ≡ record (answer ok [] s.capacity ((k, v) ∷ erase k s.pairs)) { out = some v }
unfolding promised
get_hit k s v e = rw (e, promised)

get_miss :
    {Stmt : Type 0} (k : CStr) (s : Ordered Stmt)
    → find k s.pairs ≡ none
    → promised (get k) s ≡ answer err_not_found [] s.capacity s.pairs
unfolding promised
get_miss k s e = rw (e, promised)

-- A put of a new key on a cache that is not disabled.
put-added :
    {Stmt : Type 0} (k : CStr) (v : Stmt) (m : Memory) (s : Ordered Stmt)
    → s.capacity ≢ 0
    → find k s.pairs ≡ none
    → (kept : List (CStr × Stmt)) × (vs : List Stmt) × (promised (put k v m) s
        ≡ added s.capacity k v m kept vs)
unfolding promised
put-added k v m s on e =
    let on' : (s.capacity == 0) ≡ false = ground arith in
    elim (Bool-cases (leb s.capacity (length s.pairs))) [
      | inl full ↦
          let n = s.capacity - 1 in
          (take n s.pairs, backwards (drop n s.pairs), rw (on', e, full, promised))
      | inr spare ↦ (s.pairs, [], rw (on', e, spare, promised))
    ]

module _ {Stmt : Type 0} (capacity : ℕ) (k : CStr) (v : Stmt) (m : Memory)
    (kept : List (CStr × Stmt)) (vs : List Stmt) where
  added-answer :
      two_allocations m ≡ true
      → added capacity k v m kept vs ≡ answer ok vs capacity ((k, v) ∷ kept)
  unfolding added
  added-answer got = rw (got, added)

  added-code : two_allocations m ≡ false → (added capacity k v m kept vs).code ≡ err_no_memory
  unfolding added
  added-code out = rw (out, added)

module _ (drv : Driver) (null : drv.Stmt) where
  abbrev pub Acquisition : Type 0
  Acquisition = Acquired drv.Stmt (StmtCache drv.Stmt) drv.Ctx

  abbrev acquired : SqlRdbResult → drv.Stmt → Bool → StmtCache drv.Stmt → drv.Ctx → Acquisition
  acquired r v owned c q = record { code = r; stmt = v; owned = owned; cache = c; ctx = q }

  -- The lookup of the statement that has just been put.
  unfoldable pub reacquire : CStr → StmtCache drv.Stmt → drv.Ctx → Option Acquisition
  reacquire sql c q = elim (cache_get null c (some sql)) [
    | none ↦ none
    | some (r, v, c') ↦
        some (if is_ok r then acquired ok v false c' q else acquired err_internal null false c' q)
  ]

  unfoldable pub put_prepared :
      CStr → drv.Stmt → StmtCache drv.Stmt → Memory → drv.Ctx → Option Acquisition
  put_prepared sql v c m q = elim (cache_put drv c (some sql) v m q) [
    | none ↦ none
    | some (r, c', q') ↦ if is_ok r then reacquire sql c' q' else some (acquired r null false c' q')
  ]

  unfoldable pub prepare_fresh : CStr → StmtCache drv.Stmt → Memory → drv.Ctx → Option Acquisition
  prepare_fresh sql c m q =
      let (r, v, q') = drv.prepare sql q in
      if not (is_ok r)
      then some (acquired r v false c q')
      else if c.capacity == 0
      then some (acquired ok v true c q')
      else put_prepared sql v c m q'

  -- `get_or_prepare`
  unfoldable pub get_or_prepare : CStr → StmtCache drv.Stmt → Memory → drv.Ctx → Option Acquisition
  get_or_prepare sql c m q = elim (cache_get null c (some sql)) [
    | none ↦ none
    | some (r, v, c') ↦
        if is_ok r then some (acquired ok v false c' q) else prepare_fresh sql c' m q
  ]

  -- What comes of it, with the cache as an ordered map.
  pub record Provided : Type 0 where
    pub code : SqlRdbResult
    pub stmt : drv.Stmt
    pub owned : Bool
    pub after : Ordered drv.Stmt
    pub ctx : drv.Ctx

  abbrev provided : SqlRdbResult → drv.Stmt → Bool → Ordered drv.Stmt → drv.Ctx → Provided
  provided r v owned s q = record { code = r; stmt = v; owned = owned; after = s; ctx = q }

  unfoldable pub provided_fresh : CStr → Ordered drv.Stmt → Memory → drv.Ctx → Provided
  provided_fresh sql s m q =
      let (r, v, q') = drv.prepare sql q in
      let a = promised (put sql v m) s in
      if not (is_ok r)
      then provided r v false s q'
      else if s.capacity == 0
      then provided ok v true s q'
      else if two_allocations m
      then provided ok v false a.after (finalize_all drv a.dropped q')
      else provided err_no_memory null false a.after (finalize_all drv a.dropped q')

  unfoldable pub provide : CStr → Ordered drv.Stmt → Memory → drv.Ctx → Provided
  provide sql s m q = elim (find sql s.pairs) [
    | some v ↦ provided ok v false (promised (get sql) s).after q
    | none ↦ provided_fresh sql s m q
  ]

  -- An outcome of `get_or_prepare` that is the one provided, with a cache that holds the map.
  pub record Provides (p : Provided) (o : Option Acquisition) : Type 0 where
    pub cache : StmtCache drv.Stmt
    pub returns :
        o
        ≡ some record { code = p.code; stmt = p.stmt; owned = p.owned; cache = cache; ctx = p.ctx }
    pub holds : Holds cache p.after

  module _ (sql : CStr) (c : StmtCache drv.Stmt) (s : Ordered drv.Stmt) (q : drv.Ctx)
      (h : Holds c s) where
    -- The lookup in the cache, as the code makes it.
    looked_up :
        let a = promised (get sql) s in
        (d : StmtCache drv.Stmt) × Holds d a.after
        × (cache_get null c (some sql) ≡ some (a.code, out_or_null drv null a.out, d))
    looked_up =
        let a = get-Agrees drv null c s h sql q in
        (
          a.cache,
          a.holds,
          from_get-inverse drv null q _ (cache_get null c (some sql)) _ _ a.cache a.returns,
        )

    found_Provides :
        (m : Memory) (v : drv.Stmt)
        → find sql s.pairs ≡ some v
        → Provides (provide sql s m q) (get_or_prepare sql c m q)
    unfolding get_or_prepare provide
    found_Provides m v e =
        let (d, holds, ran) = looked_up in
        let hit = get_hit sql s v e in
        rw (e, ran, ap Answer.code hit, ap Answer.out hit, provide, get_or_prepare)
          record { cache = d; returns = refl; holds = holds }

    -- Once the statement has been put, it is found, and the map stays as it is.
    reacquired :
        (v : drv.Stmt) (kept : List (CStr × drv.Stmt))
        → s.pairs ≡ (sql, v) ∷ kept
        → (d : StmtCache drv.Stmt) × Holds d s
          × (reacquire sql c q ≡ some (acquired ok v false d q))
    unfolding reacquire
    reacquired v kept e =
        let (d, holds, ran) = looked_up in
        let found : find sql s.pairs ≡ some v = rw (e, str_eq_refl sql) refl in
        let hit = get_hit sql s v found in
        let same : (promised (get sql) s).after.pairs ≡ s.pairs =
          ap (λ (a : Answer drv.Stmt). a.after.pairs) hit ∙ rw (e, str_eq_refl sql) refl in
        (
          d,
          record {
            addresses = holds.addresses;
            represents = holds.represents;
            shows = holds.shows ∙ same;
            capacity = holds.capacity ∙ ap (λ (a : Answer drv.Stmt). a.after.capacity) hit;
          },
          rw (ran, ap Answer.code hit, ap Answer.out hit, reacquire) refl,
        )

  module _ (sql : CStr) (v : drv.Stmt) (m : Memory) (s : Ordered drv.Stmt) (q : drv.Ctx)
      (on : s.capacity ≢ 0) (absent : find sql s.pairs ≡ none) where
    abbrev put_answer : Answer drv.Stmt
    put_answer = promised (put sql v m) s

    stored_Provides :
        (d : StmtCache drv.Stmt)
        → Holds d s
        → two_allocations m ≡ true
        → Provides
            (provided ok v false put_answer.after (finalize_all drv put_answer.dropped q))
            (put_prepared sql v d m q)
    unfolding put_prepared
    stored_Provides d h got =
        let one = put-Agrees drv null d s h sql v m q in
        let ran =
          from_change-inverse drv null _ (cache_put drv d (some sql) v m q) _ _ one.cache
            one.returns in
        let (kept, vs, e) = put-added sql v m s on absent in
        let stored = e ∙ added-answer s.capacity sql v m kept vs got in
        let (d', holds, again) =
          reacquired sql one.cache put_answer.after (finalize_all drv put_answer.dropped q)
            one.holds v kept (ap (λ (a : Answer drv.Stmt). a.after.pairs) stored) in
        rw (ran, ap Answer.code stored, put_prepared)
          record { cache = d'; returns = again; holds = holds }

    refused_Provides :
        (d : StmtCache drv.Stmt)
        → Holds d s
        → two_allocations m ≡ false
        → Provides
            (provided err_no_memory null false put_answer.after
              (finalize_all drv put_answer.dropped q))
            (put_prepared sql v d m q)
    unfolding put_prepared
    refused_Provides d h out =
        let one = put-Agrees drv null d s h sql v m q in
        let ran =
          from_change-inverse drv null _ (cache_put drv d (some sql) v m q) _ _ one.cache
            one.returns in
        let (kept, vs, e) = put-added sql v m s on absent in
        let refused = ap Answer.code e ∙ added-code s.capacity sql v m kept vs out in
        rw (ran, refused, put_prepared)
          record { cache = one.cache; returns = refl; holds = one.holds }

  fresh_Provides :
      (sql : CStr) (d : StmtCache drv.Stmt) (s : Ordered drv.Stmt) (m : Memory) (q : drv.Ctx)
      → Holds d s
      → find sql s.pairs ≡ none
      → Provides (provided_fresh sql s m q) (prepare_fresh sql d m q)
  unfolding provided_fresh prepare_fresh
  fresh_Provides sql d s m q h absent =
      let (r, v, q') = drv.prepare sql q in
      elim (Bool-cases (is_ok r)) [
        | inr bad ↦
            rw (bad, provided_fresh, prepare_fresh) record { cache = d; returns = refl; holds = h }
        | inl fine ↦ elim (Bool-cases (s.capacity == 0)) [
          | inl off ↦
              let off' : (d.capacity == 0) ≡ true = ground (arith, h.capacity) in
              rw (fine, off, off', provided_fresh, prepare_fresh)
                record { cache = d; returns = refl; holds = h }
          | inr on ↦
              let on' : (d.capacity == 0) ≡ false = ground (arith, h.capacity) in
              elim (Bool-cases (two_allocations m)) [
                | inl got ↦
                    rw (fine, on, on', got, provided_fresh, prepare_fresh)
                      (stored_Provides sql v m s q' (ground arith) absent d h got)
                | inr out ↦
                    rw (fine, on, on', out, provided_fresh, prepare_fresh)
                      (refused_Provides sql v m s q' (ground arith) absent d h out)
              ]
        ]
      ]

  missed_Provides :
      (sql : CStr) (c : StmtCache drv.Stmt) (s : Ordered drv.Stmt) (m : Memory) (q : drv.Ctx)
      → Holds c s
      → find sql s.pairs ≡ none
      → Provides (provide sql s m q) (get_or_prepare sql c m q)
  unfolding get_or_prepare provide
  missed_Provides sql c s m q h absent =
      let (d, holds, ran) = looked_up sql c s q h in
      let miss = get_miss sql s absent in
      let kept = subst (λ (a : Answer drv.Stmt). Holds d a.after) miss holds in
      rw (absent, ran, ap Answer.code miss, provide, get_or_prepare)
        (fresh_Provides sql d s m q kept absent)

  -- On a cache whose linked list and hash table agree, `get_or_prepare` returns, and its result and the
  -- map that the cache then stands for are these. A statement cached under the text is returned and
  -- moved to the front. Otherwise one is prepared, and an error of that is returned. With the cache
  -- disabled, the caller owns it; else it is cached and the caller does not own it, or, where there is
  -- no memory for that, it is finalized and NULL is returned with the error.
  pub get_or_prepare-Provides :
      (sql : CStr) (c : StmtCache drv.Stmt) (s : Ordered drv.Stmt) (m : Memory) (q : drv.Ctx)
      → Holds c s
      → Provides (provide sql s m q) (get_or_prepare sql c m q)
  get_or_prepare-Provides sql c s m q h = elim (Option-cases (find sql s.pairs)) [
    | inr (v, found) ↦ found_Provides sql c s q h m v found
    | inl absent ↦ missed_Provides sql c s m q h absent
  ]
