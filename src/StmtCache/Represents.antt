-- ===== src/StmtCache/Represents.antt =====
-- The invariant of the cache of src/stmt_cache.c, and the ordered map that a cache stands for.
use c2sql.Prelude.{
  ℕ, suc, ◌≤◌, ◌<◌, ◌≡◌, refl, sym, ap, ◌∙◌, ◌≢◌, CStr, true, false, none, some, List, [], ◌∷◌,
  arith, inl, inr, Bool-cases, ◌==◌, if◌then◌else◌, length, str_eq, str_eq_iff, str_eq_refl,
}
use c2sql.StmtCache.Hash.{bucket_count_for}
use c2sql.StmtCache.{StmtCache, bucket_index, bucket_find, masked_hash}
use c2sql.StmtCache.Links.{Addresses, has, remove, Chain-nonzero}
use c2sql.StmtCache.Lru.{IsLru}
use c2sql.StmtCache.Buckets.{
  IsTable, first_with, first_with-found, first_with-missing, length-chain, bucket_find_lem,
}
use c2sql.StmtCache.Masks.{masked_hash-lt}
use c2sql.StmtCache.Doubling.{bucket_count_for-pos}
use c2sql.StmtCache.Ordered.{Ordered, find, erase}

module _ {Stmt : Type 0} where
  -- The entries of `c` are those at the addresses `xs`, the most recently used first: the list and
  -- the table link exactly them, and no two have the same key.
  pub record Represents (c : StmtCache Stmt) (xs : Addresses) : Type 0 where
    pub lru : IsLru c xs
    pub chains : ℕ → Addresses
    pub table : IsTable c xs chains
    pub size : c.size ≡ length xs
    pub bounded : length xs ≤ c.capacity
    pub counted : bucket_count_for c.capacity ≡ some c.bucket_count
    pub unique : (a b : ℕ) → has a xs ≡ true → has b xs ≡ true → c.sql a ≡ c.sql b → a ≡ b
    pub allocated : (a : ℕ) → has a xs ≡ true → a < c.fresh
    pub fresh_nonzero : 0 < c.fresh

  -- The keys and statements at the addresses.
  abbrev pub view : StmtCache Stmt → Addresses → List (CStr × Stmt)
  view c [] = []
  view c (x ∷ xs) = (c.sql x, c.stmt x) ∷ view c xs

  -- `c` is well formed and stands for the ordered map `s`.
  pub record Holds (c : StmtCache Stmt) (s : Ordered Stmt) : Type 0 where
    pub addresses : Addresses
    pub represents : Represents c addresses
    pub shows : view c addresses ≡ s.pairs
    pub capacity : c.capacity ≡ s.capacity

  pub length-view : (c : StmtCache Stmt) (xs : Addresses) → length (view c xs) ≡ length xs
  length-view c [] = refl
  length-view c (x ∷ xs) = ap suc (length-view c xs)

  -- Only what stands at the addresses is seen.
  pub view_congr :
      (c d : StmtCache Stmt) (xs : Addresses)
      → ((a : ℕ) → has a xs ≡ true → (d.sql a ≡ c.sql a) × (d.stmt a ≡ c.stmt a))
      → view d xs ≡ view c xs
  view_congr c d [] same = refl
  view_congr c d (x ∷ xs) same =
      let (k, v) = same x (ground arith) in
      let rest = view_congr c d xs (λ a h. same a (ground arith)) in λ i. (k i, v i) ∷ rest i

  pub find-view :
      (c : StmtCache Stmt) (k : CStr) (xs : Addresses)
      → has 0 xs ≡ false
      → find k (view c xs)
        ≡ (if first_with c.sql k xs == 0 then none else some (c.stmt (first_with c.sql k xs)))
  find-view c k [] o = refl
  find-view c k (x ∷ xs) o = elim (Bool-cases (str_eq (c.sql x) k)) [
    | inl here ↦ let n : (x == 0) ≡ false = ground arith in rw (here, n) refl
    | inr there ↦ rw there (find-view c k xs (ground arith))
  ]

  pub erase-view :
      (c : StmtCache Stmt) (a : ℕ) (xs : Addresses)
      → ((x y : ℕ) → has x xs ≡ true → has y xs ≡ true → c.sql x ≡ c.sql y → x ≡ y)
      → has a xs ≡ true
      → view c (remove a xs) ≡ erase (c.sql a) (view c xs)
  erase-view c a [] u h = ground arith
  erase-view c a (x ∷ xs) u h = elim (Bool-cases (x == a)) [
    | inl here ↦
        let e : a ≡ x = ground arith in
        let k : str_eq (c.sql x) (c.sql a) ≡ true = rw e (str_eq_refl (c.sql x)) in
        rw (here, k) refl
    | inr there ↦ elim (Bool-cases (str_eq (c.sql x) (c.sql a))) [
      | inl same ↦
          let e = u x a (ground arith) h ((str_eq_iff (c.sql x) (c.sql a)).0 same) in ground arith
      | inr other ↦
          rw (there, other)
            (ap (λ l. (c.sql x, c.stmt x) ∷ l)
              (erase-view c a xs (λ y z p q. u y z (ground arith) (ground arith)) (ground arith)))
    ]
  ]

  module _ (c : StmtCache Stmt) (xs : Addresses) (r : Represents c xs) where
    pub nonzero : has 0 xs ≡ false
    nonzero = Chain-nonzero c.lru_next c.lru_head xs r.lru.forward

    pub bucket_pos : c.capacity ≢ 0 → 0 < c.bucket_count
    bucket_pos h = bucket_count_for-pos c.capacity c.bucket_count r.counted h

    pub index_lt : (k : CStr) → c.capacity ≢ 0 → bucket_index c k < length c.buckets
    index_lt k h = rw r.table.width (masked_hash-lt c.bucket_count k (bucket_pos h))

    pub short_chain : (i : ℕ) → length (r.chains i) ≤ c.size
    short_chain i = rw r.size (length-chain c xs r.chains r.table i r.lru.distinct)

    -- An entry with the key stands in the bucket of the key.
    at_home :
        (k : CStr) (a : ℕ)
        → has a xs ≡ true
        → str_eq (c.sql a) k ≡ true
        → has a (r.chains (bucket_index c k)) ≡ true
    at_home k a h e =
        let same = (str_eq_iff (c.sql a) k).0 e in
        ground (arith, r.table.members (bucket_index c k) a, ap (masked_hash c.bucket_count) same)

    in_cache : (i a : ℕ) → has a (r.chains i) ≡ true → has a xs ≡ true
    in_cache i a h = ground (arith, r.table.members i a)

    first_with-chain :
        (k : CStr) → first_with c.sql k (r.chains (bucket_index c k)) ≡ first_with c.sql k xs
    first_with-chain k =
        let i = bucket_index c k in
        let chain = r.chains i in
        let p = first_with c.sql k chain in
        let q = first_with c.sql k xs in
        let o = Chain-nonzero c.bucket_next _ chain (r.table.linked i) in
        elim (Bool-cases (q == 0)) [
          | inl none_here ↦ elim (Bool-cases (p == 0)) [
            | inl none_there ↦ ground arith
            | inr there ↦
                let (h, e) = first_with-found c.sql k chain p refl (ground arith) in
                cc (e, first_with-missing c.sql k xs p nonzero (ground arith) (in_cache i p h))
          ]
          | inr here ↦
              let (h, e) = first_with-found c.sql k xs q refl (ground arith) in
              elim (Bool-cases (p == 0)) [
                | inl none_there ↦
                    cc (e, first_with-missing c.sql k chain q o (ground arith) (at_home k q h e))
                | inr there ↦
                    let (h', e') = first_with-found c.sql k chain p refl (ground arith) in
                    r.unique p q (in_cache i p h') h
                      ((str_eq_iff (c.sql p) k).0 e' ∙ sym ((str_eq_iff (c.sql q) k).0 e))
              ]
        ]

    pub bucket_find-first_with :
        (k : CStr) → bucket_find c (bucket_index c k) k ≡ some (first_with c.sql k xs)
    bucket_find-first_with k =
        bucket_find_lem c xs r.chains r.table _ k (short_chain _) ∙ ap some (first_with-chain k)
