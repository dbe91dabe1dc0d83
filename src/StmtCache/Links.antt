-- ===== src/StmtCache/Links.antt =====
-- Lists of addresses, and the lists that the fields of the cache's entries link together.
use c2sql.Prelude.{
  ℕ, suc, ◌≤◌, ◌≡◌, refl, ◌≢◌, Bool, true, false, ◌&&◌, ◌||◌, not, List, [], ◌∷◌, arith, inl, inr,
  Bool-cases, ◌==◌, if◌then◌else◌, length,
}
use c2sql.StmtCache.{write}

abbrev pub Addresses : Type 0
Addresses = List ℕ

abbrev pub has : ℕ → Addresses → Bool
has a [] = false
has a (x ∷ xs) = (a == x) || has a xs

abbrev pub remove : ℕ → Addresses → Addresses
remove a [] = []
remove a (x ∷ xs) = if x == a then xs else x ∷ remove a xs

abbrev pub Distinct : Addresses → Type 0
Distinct [] = Unit
Distinct (x ∷ xs) = (has x xs ≡ false) × Distinct xs

-- The address before `a`, or `b` where `a` stands first.
abbrev pub before : ℕ → Addresses → ℕ → ℕ
before b [] a = 0
before b (x ∷ xs) a = if x == a then b else before x xs a

abbrev pub last_or : ℕ → Addresses → ℕ
last_or b [] = b
last_or b (x ∷ xs) = last_or x xs

-- From `p` on, `next` leads through the addresses `xs` to NULL.
abbrev pub Chain : (ℕ → ℕ) → ℕ → Addresses → Type 0
Chain next p [] = p ≡ 0
Chain next p (x ∷ xs) = (p ≡ x) × (x ≢ 0) × Chain next (next x) xs

pub has-remove :
    (a c : ℕ) (xs : Addresses) → Distinct xs → has c (remove a xs) ≡ (has c xs && not (c == a))
has-remove a c [] d = refl
has-remove a c (x ∷ xs) d = ground (arith, has-remove a c xs d.1)

pub Distinct-remove : (a : ℕ) (xs : Addresses) → Distinct xs → Distinct (remove a xs)
Distinct-remove a [] d = tt
Distinct-remove a (x ∷ xs) d = ground (arith, Distinct-remove a xs d.1, has-remove a x xs d.1)

pub length-remove :
    (a : ℕ) (xs : Addresses) → has a xs ≡ true → suc (length (remove a xs)) ≡ length xs
length-remove a [] h = ground arith
length-remove a (x ∷ xs) h = ground (arith, length-remove a xs)

pub remove-none : (a : ℕ) (xs : Addresses) → has a xs ≡ false → remove a xs ≡ xs
remove-none a [] h = refl
remove-none a (x ∷ xs) h = ground (arith, remove-none a xs)

-- Distinct addresses that all stand in a list are no more than the list has.
pub length-le :
    (xs ys : Addresses)
    → Distinct xs
    → ((a : ℕ) → has a xs ≡ true → has a ys ≡ true)
    → Distinct ys
    → length xs ≤ length ys
length-le [] ys d sub e = omega arith
length-le (x ∷ xs) ys d sub e =
    let shorter =
      length-le xs (remove x ys) d.1 (λ a h. ground (arith, sub a, has-remove x a ys e))
        (Distinct-remove x ys e) in
    omega (arith, shorter, length-remove x ys (sub x (ground arith)))

-- A change of `next` outside a chain leaves it.
pub Chain-write :
    (next : ℕ → ℕ) (a v p : ℕ) (xs : Addresses)
    → has a xs ≡ false
    → Chain next p xs
    → Chain (write next a v) p xs
Chain-write next a v p [] h c = c
Chain-write next a v p (x ∷ xs) h c =
    (c.0, c.1, ground (arith, Chain-write next a v (next x) xs (ground arith) c.2))

pub Chain-nonzero : (next : ℕ → ℕ) (p : ℕ) (xs : Addresses) → Chain next p xs → has 0 xs ≡ false
Chain-nonzero next p [] c = refl
Chain-nonzero next p (x ∷ xs) c = ground (arith, Chain-nonzero next (next x) xs c.2)

pub before-has :
    (b : ℕ) (xs : Addresses) (a : ℕ)
    → has a xs ≡ true
    → ((before b xs a == b) || has (before b xs a) xs) ≡ true
before-has b [] a h = ground arith
before-has b (x ∷ xs) a h = ground (arith, before-has x xs a)

-- Taking `a` out of the list behind `x`: the entry before it is linked to the one after it.
pub Chain-unlink :
    (next : ℕ → ℕ) (a p x : ℕ) (xs : Addresses) (q : ℕ)
    → q ≡ before x xs a
    → has a xs ≡ true
    → Distinct (x ∷ xs)
    → Chain next p (x ∷ xs)
    → Chain (write next q (next a)) p (x ∷ remove a xs)
Chain-unlink next a p x [] q e h d c = ground arith
Chain-unlink next a p x (y ∷ ys) q e h d c = elim (Bool-cases (y == a)) [
  | inl here ↦
      let at_x : q ≡ x = rw here at e in
      let step : write next q (next a) x ≡ next y = ground arith in
      rw here (c.0, c.1, rw step (Chain-write next q (next a) (next y) ys (ground arith) c.2.2))
  | inr there ↦
      let earlier : q ≡ before y ys a = rw there at e in
      let rest = Chain-unlink next a (next x) y ys q earlier (ground arith) d.1 c.2 in
      let step : write next q (next a) x ≡ next x = ground (arith, before-has y ys a) in
      rw there (c.0, c.1, rw step rest)
]
