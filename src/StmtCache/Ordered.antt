-- ===== src/StmtCache/Ordered.antt =====
-- The ordered map that the cache of src/stmt_cache.h stands for, in the order of use, the most recent key
-- first, and the statements that each call hands back to the driver, in order. A rebuild that finds
-- no memory has dropped its excess entries by then.
use c2sql.Prelude.{
  ℕ, ◌-◌, CStr, Bool, false, ◌&&◌, ◌||◌, Option, none, some, List, [], ◌∷◌, ◌++◌, ◌==◌, leb,
  if◌then◌else◌, str_eq, length, take, drop, Memory, malloc,
}
use c2sql.Types.{SqlRdbResult, ok, err_not_found, err_no_memory}
use c2sql.StmtCache.Hash.{bucket_count_for}

module _ {Stmt : Type 0} where
  abbrev pub find : CStr → List (CStr × Stmt) → Option Stmt
  find k [] = none
  find k ((q, v) ∷ kvs) = if str_eq q k then some v else find k kvs

  abbrev pub erase : CStr → List (CStr × Stmt) → List (CStr × Stmt)
  erase k [] = []
  erase k ((q, v) ∷ kvs) = if str_eq q k then kvs else (q, v) ∷ erase k kvs

  abbrev pub statements : List (CStr × Stmt) → List Stmt
  statements [] = []
  statements ((q, v) ∷ kvs) = v ∷ statements kvs

  -- The statements from the last to the first.
  abbrev pub backwards : List (CStr × Stmt) → List Stmt
  backwards [] = []
  backwards ((q, v) ∷ kvs) = backwards kvs ++ v ∷ []

pub record Ordered (Stmt : Type 0) : Type 0 where
  pub capacity : ℕ
  pub pairs : List (CStr × Stmt)

-- The result of a call: its code, the statement for the caller, what the driver finalizes.
pub record Answer (Stmt : Type 0) : Type 0 where
  pub code : SqlRdbResult
  pub out : Option Stmt
  pub dropped : List Stmt
  pub after : Ordered Stmt

pub data Call (Stmt : Type 0) : Type 0 where
  get : CStr → Call Stmt
  put : CStr → Stmt → Memory → Call Stmt
  rebuild : ℕ → Memory → Call Stmt
  destroy : Call Stmt

abbrev pub two_allocations : Memory → Bool
two_allocations m = (malloc m).0 && (malloc (malloc m).1).0

-- The same number of buckets for both capacities.
unfoldable pub same_buckets : ℕ → ℕ → Bool
same_buckets a b = elim (bucket_count_for a) [
  | none ↦ false
  | some n ↦ elim (bucket_count_for b) [ none ↦ false | some m ↦ n == m ]
]

module _ {Stmt : Type 0} where
  abbrev pub answer : SqlRdbResult → List Stmt → ℕ → List (CStr × Stmt) → Answer Stmt
  answer code dropped capacity pairs = record {
    code = code;
    out = none;
    dropped = dropped;
    after = record { capacity = capacity; pairs = pairs };
  }

  -- A key that is new, where `kept` stay and `dropped` made room.
  unfoldable pub added : ℕ → CStr → Stmt → Memory → List (CStr × Stmt) → List Stmt → Answer Stmt
  added capacity k v m kept dropped =
      if two_allocations m
      then answer ok dropped capacity ((k, v) ∷ kept)
      else answer err_no_memory (dropped ++ v ∷ []) capacity kept

  unfoldable pub promised : Call Stmt → Ordered Stmt → Answer Stmt
  promised (get k) s = elim (find k s.pairs) [
    | none ↦ answer err_not_found [] s.capacity s.pairs
    | some v ↦ record (answer ok [] s.capacity ((k, v) ∷ erase k s.pairs)) { out = some v }
  ]
  promised (put k v m) s =
      if s.capacity == 0 then answer ok (v ∷ []) 0 s.pairs else elim (find k s.pairs) [
        | some old ↦ answer ok (old ∷ []) s.capacity ((k, v) ∷ erase k s.pairs)
        | none ↦
            if leb s.capacity (length s.pairs)
            then added s.capacity k v m (take (s.capacity - 1) s.pairs)
                (backwards (drop (s.capacity - 1) s.pairs))
            else added s.capacity k v m s.pairs []
      ]
  promised (rebuild n m) s =
      let kept = take n s.pairs in
      let dropped = backwards (drop n s.pairs) in
      if n == 0 || same_buckets n s.capacity || (malloc m).0
      then answer ok dropped n kept
      else answer err_no_memory dropped s.capacity kept
  promised destroy s = answer ok (statements s.pairs) 0 []
