-- ===== src/StmtCache/Refine/Ownership.antt =====
-- Who owns the statements that the cache of src/stmt_cache.c is given.
use c2sql.Prelude.{
  ℕ, zero, suc, ◌+◌, ◌-◌, ◌≡◌, refl, ap, ◌∙◌, CStr, Bool, ◌||◌, some, List, [], ◌∷◌, ◌++◌, arith,
  inl, inr, Bool-cases, Option-cases, ◌==◌, leb, if◌then◌else◌, length, take, drop, str_eq, All,
  Memory, malloc,
}
use c2sql.Types.{SqlRdbResult}
use c2sql.Driver.{Driver}
use c2sql.StmtCache.{StmtCache}
use c2sql.StmtCache.Ordered.{
  Call, get, put, rebuild, destroy, Ordered, promised, statements, backwards, find, erase, added,
  same_buckets, two_allocations,
}
use c2sql.StmtCache.Represents.{Holds}
use c2sql.StmtCache.Perform.{finalize_all, Allowed}
use c2sql.StmtCache.Refine.Run.{run, run-Agrees, promised_drops, promised_end}

module _ {Stmt : Type 0} where
  -- The statements that a call hands to the cache.
  abbrev pub given : Call Stmt → List Stmt
  given (put k v m) = v ∷ []
  given (get k) = []
  given (rebuild n m) = []
  given destroy = []

  abbrev pub all_given : List (Call Stmt) → List Stmt
  all_given [] = []
  all_given (call ∷ calls) = given call ++ all_given calls

module _ {Stmt : Type 0} (test : Stmt → Bool) where
  -- How many of the statements pass the test.
  abbrev pub tally : List Stmt → ℕ
  tally [] = 0
  tally (v ∷ vs) = (if test v then 1 else 0) + tally vs

  tally-append : (vs ws : List Stmt) → tally (vs ++ ws) ≡ tally vs + tally ws
  tally-append [] ws = omega arith
  tally-append (v ∷ vs) ws = omega (arith, tally-append vs ws)

  tally-backwards : (kvs : List (CStr × Stmt)) → tally (backwards kvs) ≡ tally (statements kvs)
  tally-backwards [] = refl
  tally-backwards ((k, v) ∷ kvs) =
      omega (arith, tally-append (backwards kvs) (v ∷ []), tally-backwards kvs)

  tally-cut :
      (n : ℕ) (kvs : List (CStr × Stmt))
      → tally (statements (take n kvs)) + tally (backwards (drop n kvs)) ≡ tally (statements kvs)
  tally-cut zero kvs = omega (arith, tally-backwards kvs)
  tally-cut (suc n) [] = refl
  tally-cut (suc n) ((k, v) ∷ kvs) = omega (arith, tally-cut n kvs)

  tally-erase :
      (k : CStr) (kvs : List (CStr × Stmt)) (v : Stmt)
      → find k kvs ≡ some v
      → tally (statements (erase k kvs)) + tally (v ∷ []) ≡ tally (statements kvs)
  tally-erase k [] v e = cc
  tally-erase k ((p, w) ∷ kvs) v e = elim (Bool-cases (str_eq p k)) [
    | inl here ↦ let same : w ≡ v = cc (rw here at e) in rw (here, same) (omega arith)
    | inr there ↦ rw there (omega (arith, tally-erase k kvs v (rw there at e)))
  ]

  added-tally :
      (capacity : ℕ) (k : CStr) (v : Stmt) (m : Memory) (kept : List (CStr × Stmt)) (vs : List Stmt)
      → tally (added capacity k v m kept vs).dropped
          + tally (statements (added capacity k v m kept vs).after.pairs)
        ≡ tally (v ∷ []) + (tally (statements kept) + tally vs)
  unfolding added
  added-tally capacity k v m kept vs = elim (Bool-cases (two_allocations m)) [
    | inl got ↦ rw (got, added) (omega arith)
    | inr out ↦ rw (out, added) (omega (arith, tally-append vs (v ∷ [])))
  ]

  put-tally :
      (k : CStr) (v : Stmt) (m : Memory) (s : Ordered Stmt)
      → tally (promised (put k v m) s).dropped
          + tally (statements (promised (put k v m) s).after.pairs)
        ≡ tally (v ∷ []) + tally (statements s.pairs)
  unfolding promised
  put-tally k v m s = elim (Bool-cases (s.capacity == 0)) [
    | inl off ↦ rw (off, promised) refl
    | inr on ↦ elim (Option-cases (find k s.pairs)) [
      | inr (old, found) ↦ rw (on, found, promised) (omega (arith, tally-erase k s.pairs old found))
      | inl absent ↦ elim (Bool-cases (leb s.capacity (length s.pairs))) [
        | inl full ↦
            let n = s.capacity - 1 in
            rw (on, absent, full, promised)
              (added-tally s.capacity k v m (take n s.pairs) (backwards (drop n s.pairs))
                ∙ ap (λ (t : ℕ). tally (v ∷ []) + t) (tally-cut n s.pairs))
        | inr spare ↦
            rw (on, absent, spare, promised)
              (omega (arith, added-tally s.capacity k v m s.pairs []))
      ]
    ]
  ]

  get-tally :
      (k : CStr) (s : Ordered Stmt)
      → tally (promised (get k) s).dropped + tally (statements (promised (get k) s).after.pairs)
        ≡ tally (statements s.pairs)
  unfolding promised
  get-tally k s = elim (Option-cases (find k s.pairs)) [
    | inl absent ↦ rw (absent, promised) (omega arith)
    | inr (v, found) ↦ rw (found, promised) (omega (arith, tally-erase k s.pairs v found))
  ]

  rebuild-tally :
      (n : ℕ) (m : Memory) (s : Ordered Stmt)
      → tally (promised (rebuild n m) s).dropped
          + tally (statements (promised (rebuild n m) s).after.pairs)
        ≡ tally (statements s.pairs)
  unfolding promised
  rebuild-tally n m s = elim (Bool-cases ((n == 0) || same_buckets n s.capacity || (malloc m).0)) [
    | inl fits ↦ rw (fits, promised) (omega (arith, tally-cut n s.pairs))
    | inr out ↦ rw (out, promised) (omega (arith, tally-cut n s.pairs))
  ]

  destroy-tally :
      (s : Ordered Stmt)
      → tally (promised destroy s).dropped + tally (statements (promised destroy s).after.pairs)
        ≡ 0 + tally (statements s.pairs)
  unfolding promised
  destroy-tally s = omega arith

  -- Statements are neither lost nor doubled by a call.
  promised-tally :
      (call : Call Stmt) (s : Ordered Stmt)
      → tally (promised call s).dropped + tally (statements (promised call s).after.pairs)
        ≡ tally (given call) + tally (statements s.pairs)
  promised-tally (get k) s = omega (arith, get-tally k s)
  promised-tally (put k v m) s = put-tally k v m s
  promised-tally (rebuild n m) s = omega (arith, rebuild-tally n m s)
  promised-tally destroy s = destroy-tally s

module _ (drv : Driver) (null : drv.Stmt) (test : drv.Stmt → Bool) where
  run-tally :
      (calls : List (Call drv.Stmt)) (s : Ordered drv.Stmt)
      → tally test (promised_drops drv null calls s)
          + tally test (statements (promised_end drv null calls s).pairs)
        ≡ tally test (all_given calls) + tally test (statements s.pairs)
  unfolding promised_drops promised_end
  run-tally [] s = refl
  run-tally (call ∷ calls) s =
      let a = promised call s in
      omega (
        arith,
        promised-tally test call s,
        run-tally calls a.after,
        tally-append test a.dropped (promised_drops drv null calls a.after),
        tally-append test (given call) (all_given calls),
      )

module _ (drv : Driver) (null : drv.Stmt) where
  abbrev pub then_destroy : List (Call drv.Stmt) → List (Call drv.Stmt)
  then_destroy [] = destroy ∷ []
  then_destroy (call ∷ calls) = call ∷ then_destroy calls

  then_destroy-Allowed :
      (calls : List (Call drv.Stmt)) → All Allowed calls → All Allowed (then_destroy calls)
  then_destroy-Allowed [] h = (tt, tt)
  then_destroy-Allowed (call ∷ calls) h = (h.0, then_destroy-Allowed calls h.1)

  nothing_left :
      (calls : List (Call drv.Stmt)) (s : Ordered drv.Stmt)
      → (promised_end drv null (then_destroy calls) s).pairs ≡ []
  unfolding promised_end promised
  nothing_left [] s = refl
  nothing_left (call ∷ calls) s = nothing_left calls (promised call s).after

  same_given : (calls : List (Call drv.Stmt)) → all_given (then_destroy calls) ≡ all_given calls
  same_given [] = refl
  same_given (call ∷ calls) = ap (λ l. given call ++ l) (same_given calls)

  -- On a cache whose linked list and hash table agree, any sequence of calls with new capacities of at
  -- most 2 ^ 62, then a destruction, returns and finalizes exactly the statements that the cache held at
  -- first and those that were put into it: for every test, as many that pass it as were handed over.
  pub run-then_destroy :
      (calls : List (Call drv.Stmt)) (c : StmtCache drv.Stmt) (s : Ordered drv.Stmt) (q : drv.Ctx)
      → All Allowed calls
      → Holds c s
      → (rs : List (SqlRdbResult × drv.Stmt)) × (d : StmtCache drv.Stmt) × (vs : List drv.Stmt)
        × (run drv null (then_destroy calls) c q ≡ some (rs, d, finalize_all drv vs q))
        × ((test : drv.Stmt → Bool)
            → tally test vs ≡ tally test (all_given calls) + tally test (statements s.pairs))
  run-then_destroy calls c s q fit h =
      let (d, e, ran) =
        run-Agrees drv null (then_destroy calls) c s q (then_destroy-Allowed calls fit) h in
      (
        _,
        d,
        promised_drops drv null (then_destroy calls) s,
        ran,
        λ test.
            let sum = run-tally drv null test (then_destroy calls) s in
            omega (
              arith,
              sum,
              ap (λ (l : List (CStr × drv.Stmt)). tally test (statements l)) (nothing_left calls s),
              ap (tally test) (same_given calls),
            ),
      )
