-- ===== src/Life/Live.antt =====
-- The list of live handles in src/c2sql.c.
use c2sql.Prelude.{
  ℕ, suc, ◌≡◌, refl, ap, true, false, not, ◌&&◌, ◌||◌, List, [], ◌∷◌, ◌++◌, arith, inl, inr,
  Bool-cases, ◌==◌, length,
}
use c2sql.Life.{last_or, but_last, refill, live_remove, live_contains}

abbrev pub NoRepeat : List ℕ → Type 0
NoRepeat [] = Unit
NoRepeat (x ∷ xs) = (live_contains x xs ≡ false) × NoRepeat xs

moved_last :
    (p b : ℕ) (bs : List ℕ)
    → live_contains p (last_or b bs ∷ but_last b bs) ≡ live_contains p (b ∷ bs)
unfolding live_contains
moved_last p b [] = refl
moved_last p b (c ∷ cs) = ground (arith, moved_last p c cs)

live_contains-refill : (p : ℕ) (xs : List ℕ) → live_contains p (refill xs) ≡ live_contains p xs
live_contains-refill p [] = refl
live_contains-refill p (b ∷ bs) = moved_last p b bs

refill-NoRepeat :
    (b : ℕ) (bs : List ℕ) → NoRepeat (b ∷ bs) → NoRepeat (last_or b bs ∷ but_last b bs)
unfolding live_contains
refill-NoRepeat b [] n = n
refill-NoRepeat b (c ∷ cs) n =
    let rest = refill-NoRepeat c cs n.1 in
    (
      ground (arith, moved_last (last_or c cs) c cs, rest.0),
      (ground (arith, moved_last b c cs), rest.1),
    )

length-refill : (b : ℕ) (bs : List ℕ) → length (but_last b bs) ≡ length bs
length-refill b [] = refl
length-refill b (c ∷ cs) = ap suc (length-refill c cs)

-- What the list contains after a removal.
pub live_contains-live_remove :
    (q p : ℕ) (xs : List ℕ)
    → NoRepeat xs
    → live_contains q (live_remove p xs).1 ≡ (live_contains q xs && not (q == p))
unfolding live_contains live_remove
live_contains-live_remove q p [] n = refl
live_contains-live_remove q p (x ∷ xs) n = elim (Bool-cases (x == p)) [
  | inl here ↦ rw here (ground (arith, live_contains-refill q xs, n.0))
  | inr there ↦ rw there (ground (arith, live_contains-live_remove q p xs n.1))
]

pub live_remove-NoRepeat : (p : ℕ) (xs : List ℕ) → NoRepeat xs → NoRepeat (live_remove p xs).1
unfolding live_remove
live_remove-NoRepeat p [] n = tt
live_remove-NoRepeat p (x ∷ []) n = ground arith
live_remove-NoRepeat p (x ∷ y ∷ xs) n = elim (Bool-cases (x == p)) [
  | inl here ↦ rw here (refill-NoRepeat y xs n.1)
  | inr there ↦ rw there (
    ground (arith, live_contains-live_remove x p (y ∷ xs) n.1, n.0),
    live_remove-NoRepeat p (y ∷ xs) n.1,
  )
]

pub length-live_remove :
    (p : ℕ) (xs : List ℕ)
    → live_contains p xs ≡ true
    → suc (length (live_remove p xs).1) ≡ length xs
unfolding live_remove live_contains
length-live_remove p [] h = cc
length-live_remove p (x ∷ []) h = ground arith
length-live_remove p (x ∷ y ∷ xs) h =
    ground (arith, length-live_remove p (y ∷ xs), length-refill y xs)

pub live_contains-append :
    (q p : ℕ) (xs : List ℕ) → live_contains q (xs ++ p ∷ []) ≡ (live_contains q xs || (p == q))
unfolding live_contains
live_contains-append q p [] = ground arith
live_contains-append q p (x ∷ xs) = ground (arith, live_contains-append q p xs)

pub append-NoRepeat :
    (p : ℕ) (xs : List ℕ) → NoRepeat xs → live_contains p xs ≡ false → NoRepeat (xs ++ p ∷ [])
unfolding live_contains
append-NoRepeat p [] n o = (refl, tt)
append-NoRepeat p (x ∷ xs) n o =
    (ground (arith, live_contains-append x p xs, n.0), append-NoRepeat p xs n.1 (ground arith))
