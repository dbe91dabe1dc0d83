-- ===== src/Prelude/Slices.antt =====
-- Memory as a list of bytes: reading and writing a range of it, and the bytes of a machine word, the
-- least significant first. `none` is an access out of bounds.
use Prim.Native.Nat.{ℕ, zero, suc, ◌+◌, ◌*◌, ◌/◌, ◌%◌, ◌^◌, ◌≤◌, ◌<◌}
use native.Mathlib.Nat.{pow-suc}
use mathlib.Core.Path.{◌≡◌, refl, ap, ◌∙◌, sym}
use mathlib.Core.List.{List, [], ◌∷◌, ◌++◌}
use mathlib.Core.Option.{Option, none, some}
use native.Mathlib.Omega.{arith}
use c2sql.Prelude.Lists.{length, take, All}
use c2sql.Prelude.Tests.{leb, if◌then◌else◌, le→leb}

module _ {ℓ} {A : Type ℓ} where
  abbrev pub drop : ℕ → List A → List A
  drop zero xs = xs
  drop (suc n) [] = []
  drop (suc n) (x ∷ xs) = drop n xs

  pub length-take : (n : ℕ) (xs : List A) → n ≤ length xs → length (take n xs) ≡ n
  length-take zero xs h = refl
  length-take (suc n) [] h = absurd (omega arith)
  length-take (suc n) (x ∷ xs) h = ap suc (length-take n xs (omega arith))

  pub length-drop : (n : ℕ) (xs : List A) → n ≤ length xs → length (drop n xs) + n ≡ length xs
  length-drop zero xs h = omega arith
  length-drop (suc n) [] h = absurd (omega arith)
  length-drop (suc n) (x ∷ xs) h = omega (arith, length-drop n xs (omega arith))

  pub take-drop : (n : ℕ) (xs : List A) → take n xs ++ drop n xs ≡ xs
  take-drop zero xs = refl
  take-drop (suc n) [] = refl
  take-drop (suc n) (x ∷ xs) = ap (λ l. x ∷ l) (take-drop n xs)

  pub drop_in_two : (n m : ℕ) (ps : List A) → n ≤ m → drop n ps ≡ drop n (take m ps) ++ drop m ps
  drop_in_two zero zero ps h = refl
  drop_in_two zero (suc m) [] h = refl
  drop_in_two zero (suc m) (a ∷ ps) h = ap (λ l. a ∷ l) (drop_in_two zero m ps (omega arith))
  drop_in_two (suc n) zero ps h = absurd (omega (arith, h))
  drop_in_two (suc n) (suc m) [] h = refl
  drop_in_two (suc n) (suc m) (a ∷ ps) h = drop_in_two n m ps (omega arith)

  pub take-take : (n m : ℕ) (ps : List A) → n ≤ m → take n (take m ps) ≡ take n ps
  take-take zero m ps h = refl
  take-take (suc n) zero ps h = absurd (omega (arith, h))
  take-take (suc n) (suc m) [] h = refl
  take-take (suc n) (suc m) (a ∷ ps) h = ap (λ l. a ∷ l) (take-take n m ps (omega arith))

  pub length-take_le : (n : ℕ) (ps : List A) → length (take n ps) ≤ n
  length-take_le zero ps = omega arith
  length-take_le (suc n) [] = omega arith
  length-take_le (suc n) (a ∷ ps) = omega (arith, length-take_le n ps)

  pub take_all : (n : ℕ) (ps : List A) → length ps ≤ n → take n ps ≡ ps
  take_all zero [] h = refl
  take_all zero (a ∷ ps) h = absurd (omega (arith, h))
  take_all (suc n) [] h = refl
  take_all (suc n) (a ∷ ps) h = ap (λ l. a ∷ l) (take_all n ps (omega arith))

  pub drop_all : (n : ℕ) (ps : List A) → length ps ≤ n → drop n ps ≡ []
  drop_all zero [] h = refl
  drop_all zero (a ∷ ps) h = absurd (omega (arith, h))
  drop_all (suc n) [] h = refl
  drop_all (suc n) (a ∷ ps) h = drop_all n ps (omega arith)

  drop-nil : (n : ℕ) → drop n [] ≡ []
  drop-nil zero = refl
  drop-nil (suc n) = refl

  pub drop-drop : (n k : ℕ) (xs : List A) → drop k (drop n xs) ≡ drop (n + k) xs
  drop-drop zero k xs = ap (λ m. drop m xs) (let p : k ≡ 0 + k = omega arith in p)
  drop-drop (suc n) k [] = drop-nil k ∙ sym (drop-nil (suc n + k))
  drop-drop (suc n) k (x ∷ xs) =
      drop-drop n k xs
      ∙ ap (λ m. drop m (x ∷ xs)) (let p : suc (n + k) ≡ suc n + k = omega arith in p)

  pub take-append : (xs ys : List A) → take (length xs) (xs ++ ys) ≡ xs
  take-append [] ys = refl
  take-append (x ∷ xs) ys = ap (λ l. x ∷ l) (take-append xs ys)

  -- The `n` elements from `off` on.
  abbrev pub slice : ℕ → ℕ → List A → Option (List A)
  slice off n xs = if leb (off + n) (length xs) then some (take n (drop off xs)) else none

  -- The list with `ys` written from `off` on.
  abbrev pub patch : ℕ → List A → List A → Option (List A)
  patch off ys xs =
      if leb (off + length ys) (length xs)
      then some (take off xs ++ (ys ++ drop (off + length ys) xs))
      else none

  -- What was read, written back where it was.
  pub patch-slice :
      (off n : ℕ) (xs : List A)
      → off + n ≤ length xs
      → patch off (take n (drop off xs)) xs ≡ some xs
  patch-slice off n xs h =
      rw (length-take n (drop off xs) (omega (arith, length-drop off xs)), le→leb _ _ h)
        (ap some (
          ap (λ l. take off xs ++ l)
            (ap (λ l. take n (drop off xs) ++ l) (sym (drop-drop off n xs))
              ∙ take-drop n (drop off xs))
          ∙ take-drop off xs))

unfoldable pub word_of : List ℕ → ℕ
word_of [] = 0
word_of (b ∷ bs) = b + 256 * word_of bs

unfoldable pub bytes_of : ℕ → ℕ → List ℕ
bytes_of zero v = []
bytes_of (suc n) v = v % 256 ∷ bytes_of n (v / 256)

pub length-bytes_of : (n v : ℕ) → length (bytes_of n v) ≡ n
unfolding bytes_of
length-bytes_of zero v = refl
length-bytes_of (suc n) v = ap suc (length-bytes_of n (v / 256))

pub bytes_of-word_of :
    (bs : List ℕ) → All (λ b. b < 256) bs → bytes_of (length bs) (word_of bs) ≡ bs
unfolding bytes_of word_of
bytes_of-word_of [] a = refl
bytes_of-word_of (b ∷ bs) a =
    rw
      (
        (let p : (b + 256 * word_of bs) % 256 ≡ b = omega (arith, a.0) in p),
        (let p : (b + 256 * word_of bs) / 256 ≡ word_of bs = omega (arith, a.0) in p),
        bytes_of-word_of bs a.1,
      )
      refl

pub word_of-bounded : (bs : List ℕ) → All (λ b. b < 256) bs → word_of bs < 256 ^ length bs
unfolding word_of
word_of-bounded [] a = omega arith
word_of-bounded (b ∷ bs) a = rw (pow-suc) (omega (arith, a.0, word_of-bounded bs a.1))
