-- ===== src/StmtCache/Refine/Get.antt =====
-- `c2sql_internal_cache_get` of src/stmt_cache.c.
use c2sql.Prelude.{
  ℕ, ◌≡◌, refl, ap, ◌∙◌, ◌≢◌, CStr, false, ◌||◌, none, some, [], ◌∷◌, arith, inl, inr, Bool-cases,
  ◌==◌, if◌then◌else◌, length, str_eq_iff,
}
use c2sql.Driver.{Driver}
use c2sql.StmtCache.{StmtCache, cache_get, get_found, lru_promote}
use c2sql.StmtCache.Links.{Addresses, remove}
use c2sql.StmtCache.Buckets.{first_with, first_with-found}
use c2sql.StmtCache.Ordered.{get, Ordered, promised, find}
use c2sql.StmtCache.Represents.{Holds, find-view, nonzero, bucket_find-first_with}
use c2sql.StmtCache.Moves.{lru_promote-Represents, capacity-lru_promote}
use c2sql.StmtCache.Additions.{view-lru_promote}
use c2sql.StmtCache.Perform.{Agrees, perform}

no_addresses : (xs : Addresses) → length xs ≡ 0 → xs ≡ []
no_addresses [] e = refl
no_addresses (x ∷ xs) e = absurd (omega (arith, e))

module _ (drv : Driver) (null : drv.Stmt) (c : StmtCache drv.Stmt) (s : Ordered drv.Stmt)
    (h : Holds c s) (k : CStr) (q : drv.Ctx) where
  abbrev pub key_entry : ℕ
  key_entry = first_with c.sql k h.addresses

  pub found_pairs : find k s.pairs ≡ (if key_entry == 0 then none else some (c.stmt key_entry))
  found_pairs = rw (← h.shows) (find-view c k h.addresses (nonzero c h.addresses h.represents))

  empty_entry : length h.addresses ≡ 0 → key_entry ≡ 0
  empty_entry e = ap (first_with c.sql k) (no_addresses h.addresses e)

  cache_get_lem : cache_get null c (some k) ≡ some (get_found null c key_entry)
  unfolding cache_get get_found
  cache_get_lem = elim (Bool-cases ((c.capacity == 0) || (c.size == 0))) [
    | inl off ↦
        let none_here = empty_entry (ground (arith, h.represents.bounded, h.represents.size)) in
        rw (off, none_here, cache_get)
    | inr on ↦ rw (on, bucket_find-first_with c h.addresses h.represents k, cache_get)
  ]

  missing_Agrees :
      key_entry ≡ 0 → Agrees drv null (promised (get k) s) q (perform drv null (get k) c q)
  unfolding promised get_found
  missing_Agrees e =
      let none_found : find k s.pairs ≡ none = rw found_pairs (rw e) in
      rw (none_found, promised)
        record { cache = c; returns = rw (cache_get_lem, e, perform); holds = h }

  found_Agrees :
      key_entry ≢ 0 → Agrees drv null (promised (get k) s) q (perform drv null (get k) c q)
  unfolding promised get_found
  found_Agrees n =
      let z : (key_entry == 0) ≡ false = ground arith in
      let (here, same) = first_with-found c.sql k h.addresses key_entry refl n in
      let found : find k s.pairs ≡ some (c.stmt key_entry) = rw found_pairs (rw z) in
      let key = (str_eq_iff (c.sql key_entry) k).0 same in
      rw (found, promised)
        record {
          cache = lru_promote c key_entry;
          returns = rw (cache_get_lem, z, perform);
          holds = record {
            addresses = key_entry ∷ remove key_entry h.addresses;
            represents = lru_promote-Represents c h.addresses key_entry h.represents here;
            shows =
                view-lru_promote c h.addresses h.represents key_entry here ∙ rw (key, h.shows) refl;
            capacity = capacity-lru_promote c key_entry ∙ h.capacity;
          };
        }

  pub get-Agrees : Agrees drv null (promised (get k) s) q (perform drv null (get k) c q)
  get-Agrees = elim (Bool-cases (key_entry == 0)) [
    | inl missing ↦ missing_Agrees (ground arith)
    | inr there ↦ found_Agrees (ground arith)
  ]
