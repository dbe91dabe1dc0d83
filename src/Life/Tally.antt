-- ===== src/Life/Tally.antt =====
-- The connections of src/c2sql.c that are closed or in use, counted by a test on them.
use c2sql.Prelude.{
  ℕ, ◌+◌, ◌≡◌, refl, Bool, true, Option, none, some, List, [], ◌∷◌, ◌++◌, arith, inl, inr,
  Bool-cases, ◌==◌, if◌then◌else◌,
}
use c2sql.Driver.{Driver}
use c2sql.StmtCache.Perform.{finalize_all}
use c2sql.Life.{last_or, but_last, refill, live_remove, live_contains, OpenHandle, Process}

abbrev pub sum_of : (ℕ → ℕ) → List ℕ → ℕ
sum_of g [] = 0
sum_of g (x ∷ xs) = g x + sum_of g xs

sum_of-moved :
    (g : ℕ → ℕ) (b : ℕ) (bs : List ℕ) → sum_of g (last_or b bs ∷ but_last b bs) ≡ sum_of g (b ∷ bs)
sum_of-moved g b [] = refl
sum_of-moved g b (c ∷ cs) = omega (arith, sum_of-moved g c cs)

sum_of-refill : (g : ℕ → ℕ) (xs : List ℕ) → sum_of g (refill xs) ≡ sum_of g xs
sum_of-refill g [] = refl
sum_of-refill g (b ∷ bs) = sum_of-moved g b bs

pub sum_of-live_remove :
    (g : ℕ → ℕ) (p : ℕ) (xs : List ℕ)
    → live_contains p xs ≡ true
    → sum_of g (live_remove p xs).1 + g p ≡ sum_of g xs
unfolding live_remove live_contains
sum_of-live_remove g p [] h = cc
sum_of-live_remove g p (x ∷ xs) h = elim (Bool-cases (x == p)) [
  | inl here ↦
      let same : x ≡ p = ground arith in rw (here, same) (omega (arith, sum_of-refill g xs))
  | inr there ↦ rw there (omega (arith, sum_of-live_remove g p xs (rw there at h)))
]

pub sum_of-append : (g : ℕ → ℕ) (p : ℕ) (xs : List ℕ) → sum_of g (xs ++ p ∷ []) ≡ sum_of g xs + g p
sum_of-append g p [] = omega arith
sum_of-append g p (x ∷ xs) = omega (arith, sum_of-append g p xs)

pub sum_of-same :
    (g g' : ℕ → ℕ) (xs : List ℕ)
    → ((p : ℕ) → live_contains p xs ≡ true → g' p ≡ g p)
    → sum_of g' xs ≡ sum_of g xs
unfolding live_contains
sum_of-same g g' [] h = refl
sum_of-same g g' (x ∷ xs) h =
    omega (arith, h x (ground arith), sum_of-same g g' xs (λ p e. h p (ground (arith, e))))

module _ (drv : Driver) (test : drv.Ctx → Bool) where
  abbrev pub mark : drv.Ctx → ℕ
  mark q = if test q then 1 else 0

  abbrev pub mark_of : Option drv.Ctx → ℕ
  mark_of none = 0
  mark_of (some q) = mark q

  abbrev pub mark_at : Option (OpenHandle drv) → ℕ
  mark_at none = 0
  mark_at (some o) = mark o.handle.driver_ctx

  abbrev pub marks : List drv.Ctx → ℕ
  marks [] = 0
  marks (q ∷ qs) = mark q + marks qs

  -- The connections with a positive test: those of the live handles, and the closed ones.
  abbrev pub tally : Process drv → ℕ
  tally w = sum_of (λ p. mark_at (w.at p)) w.live + marks w.closed

  -- The test tells connections apart by what a rollback and the finalization of statements keep, such as
  -- the file that is open.
  pub record IsKept : Type 0 where
    pub rollback : (q : drv.Ctx) → test (drv.rollback q).1 ≡ test q
    pub finalize : (v : drv.Stmt) (q : drv.Ctx) → test (drv.finalize v q).1 ≡ test q

  pub finalize_all-test :
      (vs : List drv.Stmt) (q : drv.Ctx) → IsKept → test (finalize_all drv vs q) ≡ test q
  finalize_all-test [] q k = refl
  finalize_all-test (v ∷ vs) q k = cc (finalize_all-test vs (drv.finalize v q).1 k, k.finalize v q)
