-- ===== src/StmtCache/Refine/Cut.antt =====
-- The evictions of `c2sql_internal_cache_rebuild` in src/stmt_cache.c.
use mathlib.Core.List.{append_assoc, append-nil}
use c2sql.Prelude.{
  ℕ, zero, suc, ◌-◌, ◌≤◌, ◌≡◌, refl, sym, ap, ◌∙◌, ◌≢◌, CStr, false, Option, some, List, [], ◌∷◌,
  ◌++◌, arith, inl, inr, Bool-cases, ltb, length, take, drop, drop_in_two, take-take, take_all,
  drop_all,
}
use c2sql.Driver.{Driver}
use c2sql.StmtCache.{StmtCache}
use c2sql.StmtCache.Calls.{finalize, evict_down}
use c2sql.StmtCache.Links.{Addresses, remove, length-remove}
use c2sql.StmtCache.Ordered.{backwards}
use c2sql.StmtCache.Represents.{Represents, view, length-view}
use c2sql.StmtCache.Moves.{
  lru_tail-nonzero, victim_here, victim_last, view-evicted, evicted_fields, evicted,
  evict_lru_tail_lem, evicted-Represents,
}
use c2sql.StmtCache.Perform.{finalize_all}
use c2sql.StmtCache.Refine.Put.{dropped_last, view-take}

backwards-append :
    {Stmt : Type 0} (ps bs : List (CStr × Stmt))
    → backwards (ps ++ bs) ≡ backwards bs ++ backwards ps
backwards-append [] bs = sym (append-nil (backwards bs))
backwards-append ((k, v) ∷ ps) bs =
    rw (backwards-append ps bs) (append_assoc (backwards bs) (backwards ps) (v ∷ []))

pub finalize_all-append :
    (drv : Driver) (vs ws : List drv.Stmt) (q : drv.Ctx)
    → finalize_all drv (vs ++ ws) q ≡ finalize_all drv ws (finalize_all drv vs q)
finalize_all-append drv [] ws q = refl
finalize_all-append drv (v ∷ vs) ws q = finalize_all-append drv vs ws (finalize drv v q)

module _ (drv : Driver) where
  -- The entries of `c` at `xs` down to `target`, the others handed back from the last on.
  pub record IsCutTo (target : ℕ) (c : StmtCache drv.Stmt) (xs : Addresses) (q : drv.Ctx)
      (o : Option (StmtCache drv.Stmt × drv.Ctx)) : Type 0 where
    pub smaller : StmtCache drv.Stmt
    pub returns : o ≡ some (smaller, finalize_all drv (backwards (drop target (view c xs))) q)
    pub represents : Represents smaller (take target xs)
    pub shows : view smaller (take target xs) ≡ take target (view c xs)
    pub capacity : smaller.capacity ≡ c.capacity

  uncut :
      (target : ℕ) (c : StmtCache drv.Stmt) (xs : Addresses) (q : drv.Ctx)
      → Represents c xs
      → length xs ≤ target
      → IsCutTo target c xs q (some (c, q))
  uncut target c xs q r h =
      let short : length (view c xs) ≤ target = rw length-view h in
      record {
        smaller = c;
        returns = rw (drop_all target (view c xs) short) refl;
        represents = rw (take_all target xs h) r;
        shows = rw (take_all target xs h, take_all target (view c xs) short) refl;
        capacity = refl;
      }

  module _ (c : StmtCache drv.Stmt) (xs : Addresses) (q : drv.Ctx) (r : Represents c xs)
      (target last : ℕ) (long : length xs ≡ suc last) (below : target ≤ last) where
    pub full : c.lru_tail ≢ 0
    full = lru_tail-nonzero c xs r (omega (arith, long))

    pub on : c.capacity ≢ 0
    on = omega (arith, r.bounded, long)

    abbrev pub next : StmtCache drv.Stmt
    next = evicted drv c xs r full on

    abbrev pub left : Addresses
    left = remove c.lru_tail xs

    left-take : left ≡ take last xs
    left-take =
        let m : length xs - 1 ≡ last = omega (arith, long) in
        victim_last drv c xs r full on ∙ ap (λ (n : ℕ). take n xs) m

    next_view : view next left ≡ take last (view c xs)
    next_view = view-evicted drv c xs r full on left ∙ ap (view c) left-take ∙ view-take c last xs

    handed_back :
        backwards (drop target (view c xs))
        ≡ c.stmt c.lru_tail ∷ backwards (drop target (view next left))
    handed_back =
        rw (next_view, drop_in_two target last (view c xs) below, backwards-append, r.lru.last)
          (rw (dropped_last c 0 xs last long) refl)

    -- One eviction, and the cut of what it leaves.
    cut_more :
        {o : Option (StmtCache drv.Stmt × drv.Ctx)}
        → IsCutTo target next left (finalize drv (c.stmt c.lru_tail) q) o
        → IsCutTo target c xs q o
    cut_more i =
        let same : take target left ≡ take target xs =
          ap (take target) left-take ∙ take-take target last xs below in
        record {
          smaller = i.smaller;
          returns = rw handed_back i.returns;
          represents = rw (← same) i.represents;
          shows =
              rw (← same) i.shows
              ∙ ap (take target) next_view
              ∙ take-take target last (view c xs) below;
          capacity = i.capacity ∙ (evicted_fields drv c xs r full on).1;
        }

  pub evict_down-IsCutTo :
      (fuel target : ℕ) (c : StmtCache drv.Stmt) (xs : Addresses) (q : drv.Ctx)
      → Represents c xs
      → c.size ≤ fuel
      → IsCutTo target c xs q (evict_down drv fuel target c q)
  unfolding evict_down
  evict_down-IsCutTo zero target c xs q r h =
      let done : ltb target c.size ≡ false = ground arith in
      rw (done, evict_down) (uncut target c xs q r (ground (arith, r.size)))
  evict_down-IsCutTo (suc fuel) target c xs q r h = elim (Bool-cases (ltb target c.size)) [
    | inr enough ↦ rw (enough, evict_down) (uncut target c xs q r (ground (arith, r.size)))
    | inl more ↦
        let last = length xs - 1 in
        let long : length xs ≡ suc last = ground (arith, r.size) in
        let below : target ≤ last = ground (arith, r.size) in
        let tail = full c xs q r target last long below in
        let rest = evicted-Represents drv c xs r tail (on c xs q r target last long below) in
        let fewer =
          length-remove c.lru_tail xs
            (victim_here drv c xs r tail (on c xs q r target last long below)) in
        let enabled = on c xs q r target last long below in
        rw (more, evict_lru_tail_lem drv c xs r tail enabled q, evict_down)
          (cut_more c xs q r target last long below (
            evict_down-IsCutTo fuel target (next c xs q r target last long below)
              (left c xs q r target last long below) (finalize drv (c.stmt c.lru_tail) q) rest
              (omega (arith, rest.size, fewer, r.size, h))))
  ]
