-- ===== src/StmtCache/Lru.antt =====
-- The doubly linked list of src/stmt_cache.c, against the list of its addresses from head to tail.
use c2sql.Prelude.{
  ℕ, ◌≡◌, refl, ◌≢◌, true, false, ◌||◌, [], ◌∷◌, arith, inl, inr, Bool-cases, ◌==◌, ==_refl,
  if◌then◌else◌,
}
use c2sql.StmtCache.{StmtCache, write, lru_unlink, lru_push_front, lru_promote}
use c2sql.StmtCache.Links.{
  Addresses, has, remove, Distinct, before, last_or, Chain, has-remove, Distinct-remove,
  Chain-write, Chain-nonzero, Chain-unlink, before-has,
}

before-remove :
    (b : ℕ) (xs : Addresses) (a c : ℕ)
    → has b xs ≡ false
    → Distinct xs
    → has a xs ≡ true
    → has c xs ≡ true
    → c ≢ a
    → before b (remove a xs) c ≡ (if before b xs c == a then before b xs a else before b xs c)
before-remove b [] a c o d h k n = ground arith
before-remove b (x ∷ []) a c o d h k n = ground arith
before-remove b (x ∷ y ∷ xs) a c o d h k n =
    ground (arith, before-remove x (y ∷ xs) a c, before-has y xs c)

module _ (next : ℕ → ℕ) where
  next-has :
      (p x : ℕ) (xs : Addresses) (a : ℕ)
      → Chain next p (x ∷ xs)
      → has a (x ∷ xs) ≡ true
      → ((next a == 0) || has (next a) xs) ≡ true
  next-has p x [] a l h = ground arith
  next-has p x (y ∷ xs) a l h = ground (arith, next-has (next x) y xs a)

  -- What stands before `c` is `a` just when `a` is linked to `c`.
  before_next :
      (b p : ℕ) (xs : Addresses) (a c : ℕ)
      → has b xs ≡ false
      → Distinct xs
      → Chain next p xs
      → has a xs ≡ true
      → has c xs ≡ true
      → (before b xs c == a) ≡ (next a == c)
  before_next b p [] a c o d l h k = ground arith
  before_next b p (x ∷ []) a c o d l h k = ground arith
  before_next b p (x ∷ y ∷ xs) a c o d l h k =
      ground
        (arith, before_next x (next x) (y ∷ xs) a c, before-has y xs c, next-has p x (y ∷ xs) a)

  last_or-remove :
      (b p : ℕ) (xs : Addresses) (a : ℕ)
      → Distinct xs
      → Chain next p xs
      → has a xs ≡ true
      → last_or b (remove a xs) ≡ (if next a == 0 then before b xs a else last_or b xs)
  last_or-remove b p [] a d l h = ground arith
  last_or-remove b p (x ∷ []) a d l h = ground arith
  last_or-remove b p (x ∷ y ∷ xs) a d l h = ground (arith, last_or-remove x (next x) (y ∷ xs) a)

  before_zero :
      (b p : ℕ) (xs : Addresses) (a : ℕ)
      → Chain next p xs
      → b ≡ 0
      → has a xs ≡ true
      → (before b xs a == 0) ≡ (p == a)
  before_zero b p [] a l z h = ground arith
  before_zero b p (x ∷ []) a l z h = ground arith
  before_zero b p (x ∷ y ∷ xs) a l z h =
      ground (arith, Chain-nonzero next (next x) (y ∷ xs) l.2, before-has x (y ∷ xs) a)

  pub unlink-Chain :
      (p : ℕ) (xs : Addresses) (a : ℕ)
      → Distinct xs
      → Chain next p xs
      → has a xs ≡ true
      → Chain
          (write (if before 0 xs a == 0 then next else write next (before 0 xs a) (next a)) a 0)
          (if before 0 xs a == 0 then next a else p)
          (remove a xs)
  unlink-Chain p [] a d l h = ground arith
  unlink-Chain p (x ∷ xs) a d l h = elim (Bool-cases (x == a)) [
    | inl here ↦
        let z : (before 0 (x ∷ xs) a == 0) ≡ true = ground arith in
        let step : next x ≡ next a = ground arith in
        rw (z, here) (Chain-write next a 0 (next a) xs (ground arith) (rw step at l.2))
    | inr there ↦
        let z : (before 0 (x ∷ xs) a == 0) ≡ false =
          ground (arith, before-has x xs a, Chain-nonzero next p (x ∷ xs) l) in
        let rest = Chain-unlink next a p x xs (before x xs a) refl (ground arith) d l in
        rw (z, there)
          (Chain-write _ a 0 p (x ∷ remove a xs) (ground (arith, has-remove a a xs d.1)) rest)
  ]

last_or-again :
    (xs : Addresses) (a : ℕ)
    → has 0 xs ≡ false
    → (if last_or 0 xs == 0 then a else last_or 0 xs) ≡ last_or a xs
last_or-again [] a h = refl
last_or-again (x ∷ []) a h = ground arith
last_or-again (x ∷ y ∷ xs) a h = last_or-again (y ∷ xs) a (ground arith)

start-has :
    (next : ℕ → ℕ) (p : ℕ) (xs : Addresses) → Chain next p xs → ((p == 0) || has p xs) ≡ true
start-has next p [] l = ground arith
start-has next p (x ∷ xs) l = ground arith

empty_lem : (next : ℕ → ℕ) (p : ℕ) (xs : Addresses) → Chain next p xs → (p == 0) ≡ true → xs ≡ []
empty_lem next p [] l e = refl
empty_lem next p (x ∷ xs) l e = ground arith

before-again :
    (next : ℕ → ℕ) (p : ℕ) (xs : Addresses) (a b : ℕ)
    → Chain next p xs
    → has b xs ≡ true
    → before a xs b ≡ (if p == b then a else before 0 xs b)
before-again next p [] a b l h = ground arith
before-again next p (x ∷ xs) a b l h = ground arith

module _ {Stmt : Type 0} where
  -- The list of the cache, from head to tail, is `xs`.
  pub record IsLru (c : StmtCache Stmt) (xs : Addresses) : Type 0 where
    pub distinct : Distinct xs
    pub forward : Chain c.lru_next c.lru_head xs
    pub backward : (a : ℕ) → has a xs ≡ true → c.lru_prev a ≡ before 0 xs a
    pub last : c.lru_tail ≡ last_or 0 xs

  module _ (c : StmtCache Stmt) (xs : Addresses) (l : IsLru c xs) where
    nonzero : has 0 xs ≡ false
    nonzero = Chain-nonzero c.lru_next c.lru_head xs l.forward

    unlink_backward :
        (a b : ℕ)
        → has a xs ≡ true
        → has b (remove a xs) ≡ true
        → (lru_unlink c a).lru_prev b ≡ before 0 (remove a xs) b
    unfolding lru_unlink
    unlink_backward a b h k = ground (
      arith,
      has-remove a b xs l.distinct,
      before-remove 0 xs a b nonzero l.distinct h,
      before_next c.lru_next 0 c.lru_head xs a b nonzero l.distinct l.forward h,
      l.backward a h,
      l.backward b,
      nonzero,
    )

    pub lru_unlink-IsLru : (a : ℕ) → has a xs ≡ true → IsLru (lru_unlink c a) (remove a xs)
    unfolding lru_unlink
    lru_unlink-IsLru a h = record {
      distinct = Distinct-remove a xs l.distinct;
      forward =
          rw (l.backward a h) (unlink-Chain c.lru_next c.lru_head xs a l.distinct l.forward h);
      backward = λ b k. unlink_backward a b h k;
      last =
          rw
            (
              last_or-remove c.lru_next 0 c.lru_head xs a l.distinct l.forward h,
              l.backward a h,
              l.last,
            )
            refl;
    }

    last_or-push : (a : ℕ) → (if c.lru_tail == 0 then a else c.lru_tail) ≡ last_or a xs
    last_or-push a = rw l.last (last_or-again xs a nonzero)

    push_backward :
        (a b : ℕ)
        → has a xs ≡ false
        → has b (a ∷ xs) ≡ true
        → (lru_push_front c a).lru_prev b ≡ before 0 (a ∷ xs) b
    unfolding lru_push_front
    push_backward a b h k = elim (Bool-cases (c.lru_head == 0)) [
      | inl empty ↦
          rw (empty, lru_push_front)
            (ground (
              arith,
              start-has c.lru_next c.lru_head xs l.forward,
              empty_lem c.lru_next c.lru_head xs l.forward,
            ))
      | inr full ↦
          rw (full, lru_push_front)
            (ground (
              arith,
              start-has c.lru_next c.lru_head xs l.forward,
              before-again c.lru_next c.lru_head xs a b l.forward,
              l.backward b,
            ))
    ]

    pub lru_push_front-IsLru :
        (a : ℕ) → has a xs ≡ false → a ≢ 0 → IsLru (lru_push_front c a) (a ∷ xs)
    unfolding lru_push_front
    lru_push_front-IsLru a h n = record {
      distinct = (h, l.distinct);
      forward = (
        refl,
        n,
        let step : write c.lru_next a c.lru_head a ≡ c.lru_head = ground arith in
            rw step (Chain-write c.lru_next a c.lru_head c.lru_head xs h l.forward),
      );
      backward = λ b k. push_backward a b h k;
      last = last_or-push a;
    }

  -- A promotion brings the entry to the front.
  pub lru_promote-IsLru :
      (c : StmtCache Stmt) (xs : Addresses) (a : ℕ)
      → IsLru c xs
      → has a xs ≡ true
      → IsLru (lru_promote c a) (a ∷ remove a xs)
  unfolding lru_promote
  lru_promote-IsLru c [] a l h = ground arith
  lru_promote-IsLru c (x ∷ xs) a l h = elim (Bool-cases (c.lru_head == a)) [
    | inl first ↦ let e : a ≡ x = ground (arith, l.forward.0) in rw (first, e, ==_refl x) l
    | inr later ↦ rw later (
        lru_push_front-IsLru (lru_unlink c a) (remove a (x ∷ xs))
          (lru_unlink-IsLru c (x ∷ xs) l a h) a (ground (arith, has-remove a a (x ∷ xs) l.distinct))
          (ground (arith, nonzero c (x ∷ xs) l)))
  ]
