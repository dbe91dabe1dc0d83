-- ===== src/StmtCache/Buckets.antt =====
-- The chained hash table of src/stmt_cache.c, against the list of addresses of each bucket.
use c2sql.Prelude.{
  ℕ, zero, suc, ◌≤◌, ◌<◌, ◌≡◌, refl, sym, ◌≢◌, CStr, true, false, ◌&&◌, ◌||◌, not, some, List, [],
  ◌∷◌, arith, inl, inr, Bool-cases, ◌==◌, if◌then◌else◌, if-intro, length, str_eq, get_or, set,
  length-set, get_or-set_self, get_or-set_ne,
}
use c2sql.StmtCache.{
  StmtCache, write, bucket_index, find_from, bucket_find, slot_from, write_slot, bucket_unlink,
  bucket_insert,
}
use c2sql.StmtCache.Links.{
  Addresses, has, remove, Distinct, before, Chain, has-remove, Distinct-remove, remove-none,
  length-le, Chain-write, Chain-nonzero, before-has,
}
use c2sql.StmtCache.Lru.{unlink-Chain}

-- The first of the addresses that has the key, or 0.
abbrev pub first_with : (ℕ → CStr) → CStr → Addresses → ℕ
first_with keys k [] = 0
first_with keys k (x ∷ xs) = if str_eq (keys x) k then x else first_with keys k xs

pub first_with-found :
    (keys : ℕ → CStr) (k : CStr) (xs : Addresses) (r : ℕ)
    → first_with keys k xs ≡ r
    → r ≢ 0
    → (has r xs ≡ true) × (str_eq (keys r) k ≡ true)
first_with-found keys k [] r e n = absurd (n (sym e))
first_with-found keys k (x ∷ xs) r e n = elim (Bool-cases (str_eq (keys x) k)) [
  | inl here ↦ let same : x ≡ r = rw here at e in rw (← same) (ground arith, here)
  | inr there ↦
      let (h, f) = first_with-found keys k xs r (rw there at e) n in (rw h (ground arith), f)
]

pub first_with-missing :
    (keys : ℕ → CStr) (k : CStr) (xs : Addresses) (a : ℕ)
    → has 0 xs ≡ false
    → first_with keys k xs ≡ 0
    → has a xs ≡ true
    → str_eq (keys a) k ≡ false
first_with-missing keys k [] a o e h = ground arith
first_with-missing keys k (x ∷ xs) a o e h = elim (Bool-cases (a == x)) [
  | inl here ↦ let same : a ≡ x = ground arith in rw same (ground arith)
  | inr there ↦ first_with-missing keys k xs a (ground arith) (ground arith) (ground arith)
]

get_or-set :
    (bs : List ℕ) (i j v : ℕ)
    → i < length bs
    → get_or (set bs i v) j 0 ≡ (if i == j then v else get_or bs j 0)
get_or-set bs i j v h = elim (Bool-cases (i == j)) [
  | inl same ↦ let e : j ≡ i = ground arith in rw (same, e) (get_or-set_self bs i v 0 h)
  | inr other ↦ rw other (get_or-set_ne bs i j v 0 (ground arith))
]

module _ {Stmt : Type 0} where
  -- Which entries each bucket chains, where `xs` are the entries of the cache.
  pub record IsTable (c : StmtCache Stmt) (xs : Addresses) (chains : ℕ → Addresses) : Type 0 where
    pub width : length c.buckets ≡ c.bucket_count
    pub linked : (i : ℕ) → Chain c.bucket_next (get_or c.buckets i 0) (chains i)
    pub distinct : (i : ℕ) → Distinct (chains i)
    pub members : (i a : ℕ) → has a (chains i) ≡ (has a xs && (bucket_index c (c.sql a) == i))

  find_from_lem :
      (fuel : ℕ) (c : StmtCache Stmt) (k : CStr) (p : ℕ) (xs : Addresses)
      → Chain c.bucket_next p xs
      → length xs < fuel
      → find_from fuel c k p ≡ some (first_with c.sql k xs)
  unfolding find_from
  find_from_lem zero c k p xs l h = elim h [ ]
  find_from_lem (suc fuel) c k p [] l h = ground arith
  find_from_lem (suc fuel) c k p (x ∷ xs) l h =
      let rest = find_from_lem fuel c k (c.bucket_next x) xs l.2 (omega arith) in ground arith

  slot_from_lem :
      (fuel : ℕ) (c : StmtCache Stmt) (e q p : ℕ) (xs : Addresses)
      → Chain c.bucket_next p xs
      → has e xs ≡ true
      → length xs < fuel
      → slot_from fuel c e q p ≡ some (before q xs e, e)
  unfolding slot_from
  slot_from_lem zero c e q p xs l k h = elim h [ ]
  slot_from_lem (suc fuel) c e q p [] l k h = ground arith
  slot_from_lem (suc fuel) c e q p (x ∷ xs) l k h = elim (Bool-cases (x == e)) [
    | inl here ↦ ground arith
    | inr there ↦
        let rest = slot_from_lem fuel c e x (c.bucket_next x) xs l.2 (ground arith) (omega arith) in
        ground arith
  ]

  module _ (c : StmtCache Stmt) (xs : Addresses) (chains : ℕ → Addresses)
      (t : IsTable c xs chains) where
    nonzero : (i : ℕ) → has 0 (chains i) ≡ false
    nonzero i = Chain-nonzero c.bucket_next _ (chains i) (t.linked i)

    -- The entry `a` stands in no bucket but its own.
    elsewhere : (a i : ℕ) → bucket_index c (c.sql a) ≢ i → has a (chains i) ≡ false
    elsewhere a i n = rw t.members (ground arith)

    pub length-chain : (i : ℕ) → Distinct xs → length (chains i) ≤ length xs
    length-chain i d =
        length-le (chains i) xs (t.distinct i) (λ a h. ground (arith, t.members i a)) d

    pub bucket_find_lem :
        (i : ℕ) (k : CStr)
        → length (chains i) ≤ c.size
        → bucket_find c i k ≡ some (first_with c.sql k (chains i))
    unfolding bucket_find
    bucket_find_lem i k h = find_from_lem (suc c.size) c k _ (chains i) (t.linked i) (omega arith)

    module _ (a : ℕ) (out : has a xs ≡ false) (nonnull : a ≢ 0)
        (room : bucket_index c (c.sql a) < length c.buckets) where
      abbrev pub inserted : ℕ → Addresses
      inserted i = if bucket_index c (c.sql a) == i then a ∷ chains i else chains i

      insert_linked :
          (i : ℕ)
          → Chain
              (bucket_insert c a).bucket_next
              (get_or (bucket_insert c a).buckets i 0)
              (inserted i)
      unfolding bucket_insert
      insert_linked i =
          let f = c.bucket_next in
          let home = bucket_index c (c.sql a) in
          let old = get_or c.buckets home 0 in
          let away : has a (chains i) ≡ false = rw t.members (ground arith) in
          rw (get_or-set c.buckets home i a room) (elim (Bool-cases (home == i)) [
            | inl same ↦
                let e : i ≡ home = ground arith in
                let step : write f a old a ≡ get_or c.buckets i 0 = ground arith in
                rw same
                  (refl, nonnull, rw step (Chain-write f a old _ (chains i) away (t.linked i)))
            | inr other ↦ rw other (Chain-write f a old _ (chains i) away (t.linked i))
          ])

      insert_members :
          (i b : ℕ) → has b (inserted i) ≡ (has b (a ∷ xs) && (bucket_index c (c.sql b) == i))
      insert_members i b = ground (arith, t.members i b)

      pub bucket_insert-IsTable : IsTable (bucket_insert c a) (a ∷ xs) inserted
      unfolding bucket_insert
      bucket_insert-IsTable = record {
        width = rw length-set t.width;
        linked = insert_linked;
        distinct = λ i.
            let away : has a (chains i) ≡ false = rw t.members (ground arith) in
            if-intro Distinct (bucket_index c (c.sql a) == i) (λ e. (away, t.distinct i))
              (λ e. t.distinct i);
        members = λ i b. insert_members i b;
      }

    module _ (a : ℕ) (h : has a xs ≡ true) (d : Distinct xs)
        (small : length (chains (bucket_index c (c.sql a))) ≤ c.size)
        (room : bucket_index c (c.sql a) < length c.buckets) where
      abbrev home : ℕ
      home = bucket_index c (c.sql a)

      abbrev owner : ℕ
      owner = before 0 (chains home) a

      abbrev pub unlinked : StmtCache Stmt
      unlinked = write_slot c a home (owner, a)

      at_home : has a (chains home) ≡ true
      at_home = rw t.members (ground arith)

      nonnull : (a == 0) ≡ false
      nonnull = ground (arith, nonzero home, at_home)

      pub bucket_unlink_lem : bucket_unlink c a ≡ some unlinked
      unfolding bucket_unlink
      bucket_unlink_lem = rw (
        slot_from_lem (suc c.size) c a 0 _ (chains home) (t.linked home) at_home (omega arith),
        bucket_unlink,
      )

      owner_away : (i : ℕ) → home ≢ i → has owner (chains i) ≡ false
      owner_away i n = ground (
        arith,
        before-has 0 (chains home) a at_home,
        nonzero i,
        t.members home owner,
        t.members i owner,
      )

      unlink_linked :
          (i : ℕ) → Chain unlinked.bucket_next (get_or unlinked.buckets i 0) (remove a (chains i))
      unfolding write_slot
      unlink_linked i =
          let f = c.bucket_next in
          elim (Bool-cases (home == i)) [
            | inl same ↦
                let e : i ≡ home = ground arith in
                let chain =
                  unlink-Chain f _ (chains home) a (t.distinct home) (t.linked home) at_home in
                let bs : get_or unlinked.buckets i 0
                    ≡ (if owner == 0 then f a else get_or c.buckets i 0) =
                  ground (arith, nonnull, get_or-set c.buckets home i (f a) room) in
                rw (bs, nonnull, e) chain
            | inr other ↦
                let away : has a (chains i) ≡ false = rw t.members (ground arith) in
                let bs : get_or unlinked.buckets i 0 ≡ get_or c.buckets i 0 =
                  ground (arith, get_or-set c.buckets home i (f a) room) in
                rw (remove-none a (chains i) away, bs)
                  (Chain-write _ a 0 _ (chains i) away (
                    if-intro (λ (g : ℕ → ℕ). Chain g (get_or c.buckets i 0) (chains i))
                      ((a == 0) || (owner == 0)) (λ e. t.linked i)
                      (λ e.
                        Chain-write f owner (f a) _ (chains i) (owner_away i (ground arith))
                          (t.linked i))))
          ]

      unlink_members :
          (i b : ℕ)
          → has b (remove a (chains i)) ≡ (has b (remove a xs) && (bucket_index c (c.sql b) == i))
      unlink_members i b =
          ground
            (arith, t.members i b, has-remove a b (chains i) (t.distinct i), has-remove a b xs d)

      -- Afterwards the buckets chain the entries but `a`.
      pub bucket_unlink-IsTable : IsTable unlinked (remove a xs) (λ i. remove a (chains i))
      unfolding write_slot
      bucket_unlink-IsTable = record {
        width =
            if-intro (λ (bs : List ℕ). length bs ≡ c.bucket_count) (not (a == 0) && (owner == 0))
              (λ _. rw length-set t.width) (λ _. t.width);
        linked = λ i. unlink_linked i;
        distinct = λ i. Distinct-remove a (chains i) (t.distinct i);
        members = λ i b. unlink_members i b;
      }
