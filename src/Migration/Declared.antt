-- ===== src/Migration/Declared.antt =====
-- What an answer of the database says of a column, apart from how src/migration.c decodes it.
pub mod Classes
pub mod Marks
pub mod Keys
pub mod Sqlite
pub mod Postgres
use mathlib.Core.Path.{subst}
use c2sql.Prelude.{
  ℕ, zero, suc, ◌+◌, ◌≤◌, ◌<◌, ◌≡◌, ◌≢◌, ◌↔◌, ◌⊎◌, ◌∙◌, refl, sym, ap, CStr, Bool, true, false,
  ◌||◌, Option, none, some, List, [], ◌∷◌, ◌++◌, arith, inl, inr, Bool-cases, ltb, if◌then◌else◌,
  length, length-append, take, map, lit, All, ◌==◌,
}
use c2sql.Types.{SqlRdbType, int32, int64, real, text, blob}
use c2sql.Registry.Identifier.{to_upper}
use c2sql.Registry.Identifier.Exact.{capital, map-to_upper-capital}
use c2sql.Migration.{
  starts_with, contains, schema_type_class, type_class_from_str, type_class_from_pg,
}
use c2sql.Migration.Steps.{c_string, buffered}
use c2sql.Migration.Reads.{keep_text}

abbrev pub In : {A : Type 0} → A → List A → Type 0
In x [] = ⊥
In x (y ∷ ys) = (x ≡ y) ⊎ In x ys

abbrev pub Zip : {A B : Type 0} → (A → B → Type 0) → List A → List B → Type 0
Zip P [] [] = Unit
Zip P (x ∷ xs) (y ∷ ys) = P x y × Zip P xs ys
Zip P _ _ = ⊥

-- The bytes up to a NUL or to the end.
abbrev pub IsCString : List ℕ → CStr → Type 0
IsCString bytes s = All (λ c. c ≢ 0) s × ((bytes ≡ s) ⊎ ((rest : List ℕ) × (bytes ≡ s ++ 0 ∷ rest)))

c_string_lem : (bytes : List ℕ) → IsCString bytes (c_string bytes)
unfolding c_string
c_string_lem [] = (tt, inl refl)
c_string_lem (b ∷ bs) = elim (Bool-cases (b == 0)) [
  | inl end ↦ let z : b ≡ 0 = ground arith in rw z (tt, inr (bs, refl))
  | inr more ↦
      let (clean, whole) = c_string_lem bs in
      rw more (
        (ground arith, clean),
        elim whole [
          | inl e ↦ inl (ap (λ t. b ∷ t) e)
          | inr (rest, e) ↦ inr (rest, ap (λ t. b ∷ t) e)
        ],
      )
]

-- The answer's text, where it is shorter than `size` bytes.
abbrev pub Kept : ℕ → Option CStr → CStr → Type 0
Kept size t s = (bytes : CStr) × (t ≡ some bytes) × (length bytes < size) × IsCString bytes s

-- NULL, or a text of `size` bytes or more.
abbrev pub Dropped : ℕ → Option CStr → Type 0
Dropped size none = Unit
Dropped size (some bytes) = size ≤ length bytes

abbrev pub Reads : ℕ → Option CStr → CStr → Type 0
Reads size t s = Kept size t s ⊎ (Dropped size t × (s ≡ []))

pub buffered-Reads : (size : ℕ) (t : Option CStr) → Reads size t (buffered size t)
buffered-Reads size none = inr (tt, refl)
buffered-Reads size (some bytes) = elim (Bool-cases (ltb (length bytes) size)) [
  | inl fits ↦ rw (fits, buffered) (inl (bytes, refl, ground arith, c_string_lem bytes))
  | inr long ↦ rw (long, buffered) (inr (ground arith, refl))
]

-- A text that is kept is put behind the others, where there is room.
pub keep_text-cases :
    (max size : ℕ) (t : Option CStr) (names : List CStr)
    → length names < max
    → (Dropped size t × (keep_text max size t names ≡ names))
      ⊎ ((s : CStr) × Kept size t s × (keep_text max size t names ≡ names ++ s ∷ []))
unfolding keep_text
keep_text-cases max size none names room = inl (tt, refl)
keep_text-cases max size (some bytes) names room =
    let free : ltb (length names) max ≡ true = ground arith in
    elim (Bool-cases (ltb (length bytes) size)) [
      | inl fits ↦
          inr
            (c_string bytes, (bytes, refl, ground arith, c_string_lem bytes), rw (free, fits) refl)
      | inr long ↦ inl (ground arith, rw (free, long) refl)
    ]

c_string-whole : (s : CStr) → All (λ c. c ≢ 0) s → c_string s ≡ s
unfolding c_string
c_string-whole [] clean = refl
c_string-whole (c ∷ s) clean =
    let nonzero : (c == 0) ≡ false = ground (arith, clean.0) in
    rw nonzero (ap (λ t. c ∷ t) (c_string-whole s clean.1))

c_string-cut : (s rest : CStr) → All (λ c. c ≢ 0) s → c_string (s ++ 0 ∷ rest) ≡ s
unfolding c_string
c_string-cut [] rest clean = refl
c_string-cut (c ∷ s) rest clean =
    let nonzero : (c == 0) ≡ false = ground (arith, clean.0) in
    rw nonzero (ap (λ t. c ∷ t) (c_string-cut s rest clean.1))

c_string_unique : (bytes : List ℕ) (s : CStr) → IsCString bytes s → c_string bytes ≡ s
c_string_unique bytes s (clean, inl e) = rw e (c_string-whole s clean)
c_string_unique bytes s (clean, inr (rest, e)) = rw e (c_string-cut s rest clean)

-- A short text is put behind the others.
pub keep_text-Kept :
    (max size : ℕ) (t : Option CStr) (names : List CStr) (s : CStr)
    → length names < max
    → Kept size t s
    → keep_text max size t names ≡ names ++ s ∷ []
unfolding keep_text
keep_text-Kept max size t names s room (bytes, e, low, c) =
    let free : ltb (length names) max ≡ true = ground arith in
    let fits : ltb (length bytes) size ≡ true = ground arith in
    rw (e, keep_text, free, fits, c_string_unique bytes s c) refl

-- Without the room it is dropped like a long one.
pub keep_text-either :
    (max size : ℕ) (t : Option CStr) (names : List CStr)
    → (keep_text max size t names ≡ names)
      ⊎ ((s : CStr) × Kept size t s × (keep_text max size t names ≡ names ++ s ∷ []))
unfolding keep_text
keep_text-either max size none names = inl refl
keep_text-either max size (some bytes) names = elim (Bool-cases (ltb (length names) max)) [
  | inl free ↦ elim (keep_text-cases max size (some bytes) names (ground arith)) [
    | inl (long, e) ↦ inl e
    | inr kept ↦ inr kept
  ]
  | inr full ↦ inl (rw full refl)
]
