-- ===== src/TypeMapping/Bitmap.antt =====
-- The NULL bitmap of src/type_mapping.h.
use native.Mathlib.Decide.{ℕ_discrete}
use mathlib.Core.Path.{subst}
use mathlib.Core.Option.{some-injective}
use c2sql.Prelude.{
  ℕ, zero, suc, ◌/◌, ◌%◌, ◌^◌, ◌<◌, ◌≡◌, refl, sym, ap, bit_or, Bool, true, false, not, Option,
  some, List, [], ◌∷◌, arith, inl, inr, Option-cases, ◌==◌, ==_iff, if◌then◌else◌, get_elem?, set,
  All,
}
use c2sql.TypeMapping.{null_bit_get, null_bit_set}

-- A test of every number below a bound, run by evaluation.
every : (ℕ → Bool) → ℕ → Bool
every test zero = true
every test (suc bound) = let before = every test bound in if test bound then before else false

every-use :
    {bound : ℕ} (test : ℕ → Bool) → every test bound ≡ true → {k : ℕ} → k < bound → test k ≡ true
unfolding every
every-use {bound = zero} test run below = absurd (omega arith)
every-use {bound = suc bound} test run {k = k} below = elim (ℕ_discrete k bound) [
  | yes last ↦ rw last (ground arith)
  | no earlier ↦ every-use {bound = bound} test (ground arith) (omega (arith, below, earlier))
]

infix 4 ◌===◌
abbrev ◌===◌ : Bool → Bool → Bool
true === b = b
false === b = not b

-- Setting bit `k` of a byte sets that bit and no other, and leaves a byte that has it alone.
abbrev set_bit_right : ℕ → ℕ → ℕ → Bool
set_bit_right k j b =
    ((bit_or b (2 ^ k) / 2 ^ j % 2 == 1) === (if k == j then true else b / 2 ^ j % 2 == 1))

abbrev keeps_set_bit : ℕ → ℕ → Bool
keeps_set_bit k b = if b / 2 ^ k % 2 == 1 then bit_or b (2 ^ k) == b else true

keeps_table : every (λ k. every (keeps_set_bit k) 256) 8 ≡ true
unfolding every
keeps_table = refl

set_bit_table : every (λ k. every (λ j. every (set_bit_right k j) 256) 8) 8 ≡ true
unfolding every
set_bit_table = refl

===_sound : (a b : Bool) → (a === b) ≡ true → a ≡ b
===_sound true b h = sym h
===_sound false b h = ground arith

set_bit_lem :
    (b k j : ℕ)
    → b < 256
    → k < 8
    → j < 8
    → (bit_or b (2 ^ k) / 2 ^ j % 2 == 1) ≡ (if k == j then true else b / 2 ^ j % 2 == 1)
set_bit_lem b k j hb hk hj = ===_sound _ _ (
    every-use (set_bit_right k j)
      (every-use (λ j. every (set_bit_right k j) 256)
        (every-use (λ k. every (λ j. every (set_bit_right k j) 256) 8) set_bit_table hk) hj)
      hb)

keeps_lem : (b k : ℕ) → b < 256 → k < 8 → (b / 2 ^ k % 2 == 1) ≡ true → bit_or b (2 ^ k) ≡ b
keeps_lem b k hb hk h = (==_iff (bit_or b (2 ^ k)) b).0 (rw h at table)
  where
    table : keeps_set_bit k b ≡ true
    table =
        every-use (keeps_set_bit k) (every-use (λ k. every (keeps_set_bit k) 256) keeps_table hk) hb

get_elem?-set {ℓ} :
    {A : Type ℓ} (xs : List A) (p q : ℕ) (b v : A)
    → get_elem? xs p ≡ some b
    → get_elem? (set xs p v) q ≡ (if p == q then some v else get_elem? xs q)
get_elem?-set [] p q b v h = cc
get_elem?-set (x ∷ xs) zero zero b v h = refl
get_elem?-set (x ∷ xs) zero (suc q) b v h =
    rw (let e : (0 == suc q) ≡ false = ground arith in e) refl
get_elem?-set (x ∷ xs) (suc p) zero b v h =
    rw (let e : (suc p == 0) ≡ false = ground arith in e) refl
get_elem?-set (x ∷ xs) (suc p) (suc q) b v h =
    rw (let e : (suc p == suc q) ≡ (p == q) = ground arith in e) (get_elem?-set xs p q b v h)

set-same {ℓ} :
    {A : Type ℓ} (xs : List A) (p : ℕ) (b : A) → get_elem? xs p ≡ some b → set xs p b ≡ xs
set-same [] p b h = refl
set-same (x ∷ xs) zero b h = cc
set-same (x ∷ xs) (suc p) b h = ap (λ l. x ∷ l) (set-same xs p b h)

get_elem?-All {ℓ κ} :
    {A : Type ℓ} (P : A → Type κ) (xs : List A) (p : ℕ) (b : A)
    → All P xs
    → get_elem? xs p ≡ some b
    → P b
get_elem?-All P [] p b a h = cc
get_elem?-All P (x ∷ xs) zero b a h = subst P (some-injective x b h) a.0
get_elem?-All P (x ∷ xs) (suc p) b a h = get_elem?-All P xs p b a.1 h

some-if : (c x : Bool) → some (if c then true else x) ≡ (if c then some true else some x)
some-if true x = refl
some-if false x = refl

module _ (bytes : List ℕ) (a : All (λ b. b < 256) bytes) where
  read_after :
      (i j b : ℕ)
      → get_elem? bytes (i / 8) ≡ some b
      → null_bit_get (some (set bytes (i / 8) (bit_or b (2 ^ (i % 8))))) j
        ≡ (if i == j then some true else null_bit_get (some bytes) j)
  unfolding null_bit_get
  read_after i j b h = elim (ℕ_discrete (i / 8) (j / 8)) [
    | yes same ↦
        rw
          (
            get_elem?-set bytes (i / 8) (j / 8) b (bit_or b (2 ^ (i % 8))) h,
            (let e : (i / 8 == j / 8) ≡ true = (==_iff _ _).1 same in e),
            (let e : get_elem? bytes (j / 8) ≡ some b =
                  subst (λ p. get_elem? bytes p ≡ some b) same h in
                e),
            set_bit_lem b (i % 8) (j % 8) (get_elem?-All (λ b. b < 256) bytes (i / 8) b a h)
                (omega arith) (omega arith),
            (let e : (i % 8 == j % 8) ≡ (i == j) = ground (arith, same) in e),
            null_bit_get,
          )
          (some-if (i == j) _)
    | no other ↦
        rw
          (
            get_elem?-set bytes (i / 8) (j / 8) b (bit_or b (2 ^ (i % 8))) h,
            (let e : (i / 8 == j / 8) ≡ false = ground (arith, other) in e),
            (let e : (i == j) ≡ false = ground (arith, other) in e),
            null_bit_get,
          )
          refl
  ]

  -- Setting bit `i` of a bitmap of bytes sets that bit, and every other reads as before.
  pub null_bit_get-null_bit_set :
      (i j : ℕ) (m : Option (List ℕ))
      → null_bit_set (some bytes) i ≡ some m
      → null_bit_get m j ≡ (if i == j then some true else null_bit_get (some bytes) j)
  unfolding null_bit_set
  null_bit_get-null_bit_set i j m h = elim (Option-cases (get_elem? bytes (i / 8))) [
    | inl out ↦ cc (rw (out, null_bit_set) at h)
    | inr (b, e) ↦
        subst (λ m. null_bit_get m j ≡ (if i == j then some true else null_bit_get (some bytes) j))
          (some-injective _ _ (rw (e, null_bit_set) at h)) (read_after i j b e)
  ]

  -- A bit that is set already: the bitmap stays as it is.
  pub null_bit_set_again :
      (i : ℕ)
      → null_bit_get (some bytes) i ≡ some true
      → null_bit_set (some bytes) i ≡ some (some bytes)
  unfolding null_bit_get null_bit_set
  null_bit_set_again i h = elim (Option-cases (get_elem? bytes (i / 8))) [
    | inl out ↦ cc (rw (out, null_bit_get) at h)
    | inr (b, e) ↦
        rw
          (
            e,
            keeps_lem b (i % 8) (get_elem?-All (λ b. b < 256) bytes (i / 8) b a e) (omega arith)
                (some-injective _ _ (rw (e, null_bit_get) at h)),
            set-same bytes (i / 8) b e,
            null_bit_set,
          )
          refl
  ]
