-- ===== src/StmtCache/Refine/Put.antt =====
-- `c2sql_internal_cache_put` of src/stmt_cache.c.
use c2sql.Prelude.{
  ℕ, zero, suc, ◌-◌, ◌<◌, ◌≡◌, refl, sym, ap, ◌∙◌, ◌≢◌, CStr, true, false, none, some, List, [],
  ◌∷◌, ◌++◌, arith, inl, inr, Bool-cases, ◌==◌, leb, length, take, drop, str_eq, str_eq_iff, Memory,
}
use c2sql.Driver.{Driver}
use c2sql.StmtCache.{StmtCache, lru_promote, lru_push_front, bucket_insert}
use c2sql.StmtCache.Calls.{finalize, cache_put, put_new, add_entry, replace_entry}
use c2sql.StmtCache.Links.{Addresses, has, remove, last_or, has-remove, length-remove}
use c2sql.StmtCache.Buckets.{first_with-found, first_with-missing}
use c2sql.StmtCache.Ordered.{put, Ordered, promised, find, added, backwards, two_allocations}
use c2sql.StmtCache.Represents.{
  Represents, Holds, view, length-view, nonzero, bucket_find-first_with,
}
use c2sql.StmtCache.Moves.{
  lru_promote-Represents, capacity-lru_promote, lru_tail-nonzero, victim_here, victim_last,
  view-evicted, evicted_fields, evicted, evict_lru_tail_lem, evicted-Represents,
}
use c2sql.StmtCache.Additions.{
  grown, grown-Represents, view-grown, add_entry-grown, add_entry-finalize, restocked,
  restocked-Represents, view-restocked,
}
use c2sql.StmtCache.Perform.{Agrees, perform, from_change, finalize_all}
use c2sql.StmtCache.Refine.Get.{key_entry, found_pairs}

finalize_all-append :
    (drv : Driver) (vs : List drv.Stmt) (v : drv.Stmt) (q : drv.Ctx)
    → finalize_all drv (vs ++ v ∷ []) q ≡ finalize drv v (finalize_all drv vs q)
finalize_all-append drv [] v q = refl
finalize_all-append drv (w ∷ vs) v q = finalize_all-append drv vs v (finalize drv w q)

module _ (drv : Driver) (null : drv.Stmt) (k : CStr) (v : drv.Stmt) (m : Memory) (q : drv.Ctx) where
  -- The end of a call for a new key, where `vs` were handed back to make room.
  add_Agrees :
      (d : StmtCache drv.Stmt) (ys : Addresses) (kept : List (CStr × drv.Stmt)) (vs : List drv.Stmt)
      (capacity : ℕ)
      → Represents d ys
      → length ys < d.capacity
      → ((a : ℕ) → has a ys ≡ true → str_eq (d.sql a) k ≡ false)
      → view d ys ≡ kept
      → d.capacity ≡ capacity
      → Agrees drv null
          (added capacity k v m kept vs)
          q
          (from_change drv null (some (add_entry drv d k v m (finalize_all drv vs q))))
  unfolding added bucket_insert lru_push_front
  add_Agrees d ys kept vs capacity r short new shown same = elim (Bool-cases (two_allocations m)) [
    | inl got ↦
        rw (got, add_entry-grown drv d k v m (finalize_all drv vs q) ys r short new got)
          record {
            cache = grown d ys r k v short new;
            returns = refl;
            holds = record {
              addresses = d.fresh ∷ ys;
              represents = grown-Represents d ys r k v short new;
              shows = view-grown d ys r k v short new ∙ ap (λ l. (k, v) ∷ l) shown;
              capacity = same;
            };
          }
    | inr out ↦
        rw (out, add_entry-finalize drv d k v m (finalize_all drv vs q) out)
          record {
            cache = d;
            returns = rw finalize_all-append;
            holds = record { addresses = ys; represents = r; shows = shown; capacity = same };
          }
  ]

-- The statements that are dropped from a full list: that of the last address.
pub dropped_last :
    {Stmt : Type 0} (c : StmtCache Stmt) (b : ℕ) (xs : Addresses) (n : ℕ)
    → length xs ≡ suc n
    → backwards (drop n (view c xs)) ≡ c.stmt (last_or b xs) ∷ []
dropped_last c b [] n e = absurd (omega (arith, e))
dropped_last c b (x ∷ []) zero e = refl
dropped_last c b (x ∷ []) (suc n) e = absurd (omega (arith, e))
dropped_last c b (x ∷ y ∷ xs) zero e = absurd (omega (arith, e))
dropped_last c b (x ∷ y ∷ xs) (suc n) e = dropped_last c x (y ∷ xs) n (omega (arith, e))

pub view-take :
    {Stmt : Type 0} (c : StmtCache Stmt) (n : ℕ) (xs : Addresses)
    → view c (take n xs) ≡ take n (view c xs)
view-take c zero xs = refl
view-take c (suc n) [] = refl
view-take c (suc n) (x ∷ xs) = ap (λ l. (c.sql x, c.stmt x) ∷ l) (view-take c n xs)

module _ (drv : Driver) (null : drv.Stmt) (c : StmtCache drv.Stmt) (s : Ordered drv.Stmt)
    (h : Holds c s) (k : CStr) (v : drv.Stmt) (m : Memory) (q : drv.Ctx) where
  abbrev xs : Addresses
  xs = h.addresses

  abbrev r : Represents c h.addresses
  r = h.represents

  abbrev here : ℕ
  here = key_entry drv null c s h k q

  disabled_Agrees :
      c.capacity ≡ 0 → Agrees drv null (promised (put k v m) s) q (perform drv null (put k v m) c q)
  unfolding promised cache_put
  disabled_Agrees e =
      let e' : s.capacity ≡ 0 = sym h.capacity ∙ e in
      rw (e', promised)
        record {
          cache = c;
          returns = rw (e, cache_put);
          holds = record { addresses = xs; represents = r; shows = h.shows; capacity = e };
        }

  replaced_Agrees :
      c.capacity ≢ 0
      → here ≢ 0
      → Agrees drv null (promised (put k v m) s) q (perform drv null (put k v m) c q)
  unfolding promised cache_put replace_entry
  replaced_Agrees on n =
      let z : (here == 0) ≡ false = ground arith in
      let on_c : (c.capacity == 0) ≡ false = ground arith in
      let on_s : (s.capacity == 0) ≡ false = ground (arith, h.capacity) in
      let (at_here, same) = first_with-found c.sql k xs here refl n in
      let found : find k s.pairs ≡ some (c.stmt here) =
        rw (found_pairs drv null c s h k q) (rw z) in
      let key = (str_eq_iff (c.sql here) k).0 same in
      let fresh = restocked c xs r here at_here v in
      rw (on_s, found, promised)
        record {
          cache = lru_promote fresh here;
          returns = rw (on_c, bucket_find-first_with c xs r k, z, cache_put, perform);
          holds = record {
            addresses = here ∷ remove here xs;
            represents =
                lru_promote-Represents fresh xs here (restocked-Represents c xs r here at_here v)
                  at_here;
            shows = view-restocked c xs r here at_here v ∙ rw (key, h.shows) refl;
            capacity = capacity-lru_promote fresh here ∙ h.capacity;
          };
        }

  new_key : here ≡ 0 → (a : ℕ) → has a xs ≡ true → str_eq (c.sql a) k ≡ false
  new_key e a g = first_with-missing c.sql k xs a (nonzero c xs r) e g

  -- What a new key comes to: both sides test whether the cache is full.
  new_pairs : here ≡ 0 → find k s.pairs ≡ none
  new_pairs e = rw (found_pairs drv null c s h k q) (rw e)

  same_length : length s.pairs ≡ c.size
  same_length = rw (← h.shows) (length-view c xs ∙ sym r.size)

  spare_Agrees :
      c.capacity ≢ 0
      → here ≡ 0
      → leb c.capacity c.size ≡ false
      → Agrees drv null (promised (put k v m) s) q (perform drv null (put k v m) c q)
  unfolding promised cache_put put_new
  spare_Agrees on e spare =
      let on_c : (c.capacity == 0) ≡ false = ground arith in
      let on_s : (s.capacity == 0) ≡ false = ground (arith, h.capacity) in
      let spare_s : leb s.capacity (length s.pairs) ≡ false =
        rw (← h.capacity, same_length) spare in
      rw
        (
          on_s,
          new_pairs e,
          spare_s,
          on_c,
          bucket_find-first_with c xs r k,
          e,
          spare,
          promised,
          perform,
          cache_put,
        )
        (add_Agrees drv null k v m q c xs s.pairs [] s.capacity r (ground (arith, r.size))
          (new_key e) h.shows h.capacity)

  module _ (on : c.capacity ≢ 0) (e : here ≡ 0) (full : leb c.capacity c.size ≡ true) where
    lengths : length xs ≡ c.capacity
    lengths = ground (arith, r.size, r.bounded)

    tail : c.lru_tail ≢ 0
    tail = lru_tail-nonzero c xs r (ground (arith, lengths))

    abbrev smaller : StmtCache drv.Stmt
    smaller = evicted drv c xs r tail on

    rest_view : view smaller (remove c.lru_tail xs) ≡ take (s.capacity - 1) s.pairs
    rest_view =
        view-evicted drv c xs r tail on (remove c.lru_tail xs)
        ∙ rw (victim_last drv c xs r tail on, lengths, h.capacity, ← h.shows)
            (view-take c (s.capacity - 1) xs)

    dropped_pair : backwards (drop (s.capacity - 1) s.pairs) ≡ c.stmt c.lru_tail ∷ []
    dropped_pair =
        rw (← h.shows, r.lru.last)
          (dropped_last c 0 xs (s.capacity - 1) (ground (arith, lengths, h.capacity)))

    rest_short : length (remove c.lru_tail xs) < smaller.capacity
    rest_short =
        let fields = evicted_fields drv c xs r tail on in
        ground
          (arith, length-remove c.lru_tail xs (victim_here drv c xs r tail on), lengths, fields.1)

    rest_new : (a : ℕ) → has a (remove c.lru_tail xs) ≡ true → str_eq (smaller.sql a) k ≡ false
    rest_new a g =
        rw (evicted_fields drv c xs r tail on).0
          (new_key e a (ground (arith, has-remove c.lru_tail a xs r.lru.distinct)))

    full_Agrees : Agrees drv null (promised (put k v m) s) q (perform drv null (put k v m) c q)
    unfolding promised cache_put put_new
    full_Agrees =
        let on_c : (c.capacity == 0) ≡ false = ground arith in
        let on_s : (s.capacity == 0) ≡ false = ground (arith, h.capacity) in
        let full_s : leb s.capacity (length s.pairs) ≡ true = rw (← h.capacity, same_length) full in
        rw
          (
            on_s,
            new_pairs e,
            full_s,
            dropped_pair,
            on_c,
            bucket_find-first_with c xs r k,
            e,
            full,
            evict_lru_tail_lem drv c xs r tail on q,
            promised,
            perform,
            cache_put,
            put_new,
          )
          (add_Agrees drv null k v m q smaller (remove c.lru_tail xs)
            (take (s.capacity - 1) s.pairs) (c.stmt c.lru_tail ∷ []) s.capacity
            (evicted-Represents drv c xs r tail on) rest_short rest_new rest_view
            ((evicted_fields drv c xs r tail on).1 ∙ h.capacity))

  pub put-Agrees : Agrees drv null (promised (put k v m) s) q (perform drv null (put k v m) c q)
  put-Agrees = elim (Bool-cases (c.capacity == 0)) [
    | inl off ↦ disabled_Agrees (ground arith)
    | inr on ↦ elim (Bool-cases (here == 0)) [
      | inr present ↦ replaced_Agrees (ground arith) (ground arith)
      | inl absent ↦ elim (Bool-cases (leb c.capacity c.size)) [
        | inl full ↦ full_Agrees (ground arith) (ground arith) full
        | inr spare ↦ spare_Agrees (ground arith) (ground arith) spare
      ]
    ]
  ]
