-- ===== src/Txn/Matches.antt =====
-- The transaction state of src/txn_manager.h and the savepoints that the database has open.
use native.Mathlib.Decide.{ℕ_discrete}
use c2sql.Prelude.{
  ◌≢◌, ◌⊎◌, ℕ, zero, suc, ◌+◌, ◌-◌, ◌≤◌, ◌<◌, ◌≡◌, refl, ◌∙◌, ap, CStr, Bool, true, false, ◌&&◌,
  ◌||◌, ltb, lit, decimal, str_eq, str_eq_iff, Option, none, some, List, [], ◌∷◌, arith, inl, inr,
  length, set, get_or, length-set, get_or-set_self, get_or-set_ne, ◌==◌,
}
use c2sql.Types.{is_ok}
use c2sql.Driver.{Driver}
use c2sql.Handle.{TxnState}
use c2sql.Txn.{max_tx_depth, sp_name, deeper, shallower}

-- What the database documents of BEGIN, COMMIT, ROLLBACK and the savepoint commands that succeed:
-- `stack` are the open savepoints, the innermost first, or `none` outside a transaction. Of a command
-- that fails nothing is known.
pub record TxnLaws (drv : Driver) : Type 0 where
  pub stack : drv.Ctx → Option (List CStr)
  pub begin_ok :
      (c : drv.Ctx)
      → stack c ≡ none
      → is_ok (drv.begin c).0 ≡ true
      → stack (drv.begin c).1 ≡ some []
  pub commit_ok : (c : drv.Ctx) → is_ok (drv.commit c).0 ≡ true → stack (drv.commit c).1 ≡ none
  pub rollback_ok :
      (c : drv.Ctx) → is_ok (drv.rollback c).0 ≡ true → stack (drv.rollback c).1 ≡ none
  pub savepoint_ok :
      (c : drv.Ctx) (n : CStr) (ns : List CStr)
      → stack c ≡ some ns
      → is_ok (drv.savepoint n c).0 ≡ true
      → stack (drv.savepoint n c).1 ≡ some (n ∷ ns)
  pub release_ok :
      (c : drv.Ctx) (n : CStr) (ns : List CStr)
      → stack c ≡ some (n ∷ ns)
      → is_ok (drv.release_sp n c).0 ≡ true
      → stack (drv.release_sp n c).1 ≡ some ns
  pub rewind_ok :
      (c : drv.Ctx) (n : CStr) (ns : List CStr)
      → stack c ≡ some (n ∷ ns)
      → is_ok (drv.rollback_sp n c).0 ≡ true
      → stack (drv.rollback_sp n c).1 ≡ some (n ∷ ns)

-- The savepoint of each level from the second to the last.
unfoldable level_names : List CStr
level_names =
    lit "sp_2"
    ∷ lit "sp_3"
    ∷ lit "sp_4"
    ∷ lit "sp_5"
    ∷ lit "sp_6"
    ∷ lit "sp_7"
    ∷ lit "sp_8"
    ∷ lit "sp_9"
    ∷ lit "sp_10"
    ∷ lit "sp_11"
    ∷ lit "sp_12"
    ∷ lit "sp_13"
    ∷ lit "sp_14"
    ∷ lit "sp_15"
    ∷ lit "sp_16"
    ∷ []

unfoldable pub level_name : ℕ → CStr
unfolding level_names
level_name n = get_or level_names (n - 2) []

-- The test holds of every number below the bound.
abbrev all_below : ℕ → (ℕ → Bool) → Bool
all_below zero test = true
all_below (suc n) test = test n && all_below n test

all_below_lem : (n : ℕ) (test : ℕ → Bool) (i : ℕ) → all_below n test ≡ true → i < n → test i ≡ true
all_below_lem zero test i h low = absurd (omega arith)
all_below_lem (suc n) test i h low = ground (arith, all_below_lem n test i)

level_table : all_below 17 (λ n. ltb n 2 || str_eq (sp_name n) (level_name n)) ≡ true
unfolding sp_name level_name lit decimal str_eq
level_table = refl

pub sp_name-level_name : (n : ℕ) → 2 ≤ n → n ≤ max_tx_depth → sp_name n ≡ level_name n
sp_name-level_name n lo hi =
    let entry =
      all_below_lem 17 (λ n. ltb n 2 || str_eq (sp_name n) (level_name n)) n level_table
        (omega arith) in
    (str_eq_iff (sp_name n) (level_name n)).0 (ground (arith, entry))

-- The savepoints below `d + 1` transaction levels, the innermost first: sp_(d+1), …, sp_2.
abbrev pub open_names : ℕ → List CStr
open_names zero = []
open_names (suc d) = level_name (suc (suc d)) ∷ open_names d

abbrev pub expected : ℕ → Option (List CStr)
expected zero = none
expected (suc d) = some (open_names d)

-- The handle's depth and names, and the database's stack, say the same.
pub record Matches (st : Option (List CStr)) (t : TxnState) : Type 0 where
  pub stacked : st ≡ expected t.depth
  pub bounded : t.depth ≤ max_tx_depth
  pub slots : length t.sp_names ≡ max_tx_depth
  pub named : (i : ℕ) → 0 < i → i < t.depth → get_or t.sp_names i [] ≡ level_name (suc i)

pub match_as :
    {st st' : Option (List CStr)} {t : TxnState} → st' ≡ st → Matches st t → Matches st' t
match_as e v = record {
  stacked = e ∙ v.stacked;
  bounded = v.bounded;
  slots = v.slots;
  named = v.named;
}

pub match_begin :
    {st : Option (List CStr)} (t : TxnState)
    → Matches st t
    → t.depth ≡ 0
    → Matches (some []) (deeper t)
match_begin t v e = record {
  stacked = ap expected (let p : 1 ≡ t.depth + 1 = omega arith in p);
  bounded = omega (arith, e);
  slots = v.slots;
  named = λ i lo hi. absurd (omega arith);
}

-- The state with the name of the next savepoint in its slot.
abbrev pub prepared : TxnState → TxnState
prepared t = record t { sp_names = set t.sp_names (t.depth + 1 - 1) (sp_name (t.depth + 1)) }

pub match_prepared :
    {st : Option (List CStr)} (t : TxnState) → Matches st t → Matches st (prepared t)
match_prepared t v = record {
  stacked = v.stacked;
  bounded = v.bounded;
  slots = length-set t.sp_names (t.depth + 1 - 1) (sp_name (t.depth + 1)) ∙ v.slots;
  named = λ i lo hi.
      get_or-set_ne t.sp_names (t.depth + 1 - 1) i (sp_name (t.depth + 1)) [] (omega arith)
      ∙ v.named i lo hi;
}

pub match_savepoint :
    {st : Option (List CStr)} (t : TxnState) (d : ℕ)
    → Matches st t
    → t.depth ≡ suc d
    → t.depth < max_tx_depth
    → Matches (some (open_names (suc d))) (deeper (prepared t))
match_savepoint t d v e low = record {
  stacked = ap expected (let p : suc (suc d) ≡ t.depth + 1 = omega arith in p);
  bounded = omega arith;
  slots = (match_prepared t v).slots;
  named = λ i lo hi. elim (ℕ_discrete i t.depth) [
    | yes here ↦
        ap (λ j. get_or (prepared t).sp_names j [])
          (let p : i ≡ t.depth + 1 - 1 = omega (arith, here) in p)
        ∙ get_or-set_self t.sp_names (t.depth + 1 - 1) (sp_name (t.depth + 1)) []
            (omega (arith, low, v.slots))
        ∙ sp_name-level_name (t.depth + 1) (omega arith) (omega arith)
        ∙ ap level_name (let p : t.depth + 1 ≡ suc i = omega (arith, here) in p)
    | no below ↦ (match_prepared t v).named i lo (omega (arith, hi, below))
  ];
}

-- The name that BeginTx sends.
pub sent_name :
    {st : Option (List CStr)} (t : TxnState) (d : ℕ)
    → Matches st t
    → t.depth ≡ suc d
    → t.depth < max_tx_depth
    → get_or (prepared t).sp_names (t.depth + 1 - 1) [] ≡ level_name (suc (suc d))
sent_name t d v e low =
    get_or-set_self t.sp_names (t.depth + 1 - 1) (sp_name (t.depth + 1)) []
      (omega (arith, low, v.slots))
    ∙ sp_name-level_name (t.depth + 1) (omega arith) (omega arith)
    ∙ ap level_name (let p : t.depth + 1 ≡ suc (suc d) = omega arith in p)

pub match_commit :
    {st : Option (List CStr)} (t : TxnState)
    → Matches st t
    → t.depth ≡ 1
    → Matches none (shallower t)
match_commit t v e = record {
  stacked = ap expected (let p : 0 ≡ t.depth - 1 = omega arith in p);
  bounded = omega (arith, e);
  slots = v.slots;
  named = λ i lo hi. absurd (omega arith);
}

pub match_release :
    {st : Option (List CStr)} (t : TxnState) (d : ℕ)
    → Matches st t
    → t.depth ≡ suc (suc d)
    → Matches (some (open_names d)) (shallower t)
match_release t d v e = record {
  stacked = ap expected (let p : suc d ≡ t.depth - 1 = omega arith in p);
  bounded = omega (arith, v.bounded);
  slots = v.slots;
  named = λ i lo hi. v.named i lo (omega arith);
}

pub match_innermost :
    {st : Option (List CStr)} (t : TxnState) (d : ℕ)
    → Matches st t
    → t.depth ≡ suc (suc d)
    → get_or t.sp_names (t.depth - 1) [] ≡ level_name (suc (suc d))
match_innermost t d v e =
    v.named (t.depth - 1) (omega arith) (omega arith)
    ∙ ap level_name (let p : suc (t.depth - 1) ≡ suc (suc d) = omega arith in p)

pub ℕ-cases : (n : ℕ) → (n ≡ 0) ⊎ ((d : ℕ) × (n ≡ suc d))
ℕ-cases zero = inl refl
ℕ-cases (suc d) = inr (d, refl)

pub two-cases : (n : ℕ) → n ≢ 0 → (n == 1) ≡ false → (d : ℕ) × (n ≡ suc (suc d))
two-cases zero nz below = absurd (nz refl)
two-cases (suc zero) nz below = absurd (ground arith)
two-cases (suc (suc d)) nz below = (d, refl)
