-- ===== src/Crud/Conditions.antt =====
-- `bind_cond_values` of src/c2sql.c against the placeholders that src/query_builder.c writes.
use mathlib.Core.Option.{some-injective}
use c2sql.Prelude.{
  ℕ, zero, suc, ◌+◌, ◌<◌, ◌≡◌, refl, sym, ◌∙◌, ap, Bool, true, false, Option, none, some, List, [],
  ◌∷◌, ◌++◌, arith, get_elem?, length, length-append, inl, inr, ◌⊎◌, if◌then◌else◌,
}
use c2sql.Types.{SqlRdbResult, is_ok}
use c2sql.Condition.{
  Value, int_value, real_value, text_value, blob_value, Condition, leaf, and_node, or_node,
  match_all,
}
use c2sql.Driver.{Driver}
use c2sql.TypeMapping.{Cell, int64_cell, real_cell, text_cell, blob_cell, send}
use c2sql.TypeMapping.Binding.{value_param, BindLaws}
use c2sql.QueryBuilder.Render.{cond_leaves, where_leaves}
use c2sql.Crud.{bind_value, bind_cond, bind_cond_values}

-- The values of the leaves, from left to right, as the placeholders of the text stand.
unfoldable pub leaf_values : Condition → List Value
leaf_values match_all = []
leaf_values (leaf col op v) = v ∷ []
leaf_values (and_node l r) = leaf_values l ++ leaf_values r
leaf_values (or_node l r) = leaf_values l ++ leaf_values r

abbrev pub value_cell : Value → Cell
value_cell (int_value v) = int64_cell v
value_cell (real_value v) = real_cell v
value_cell (text_value v) = text_cell v
value_cell (blob_value v) = blob_cell v

length-leaf_values : (cond : Condition) → length (leaf_values cond) ≡ cond_leaves cond
unfolding leaf_values cond_leaves
length-leaf_values match_all = refl
length-leaf_values (leaf col op v) = refl
length-leaf_values (and_node l r) = omega (
  arith,
  length-append (leaf_values l) (leaf_values r),
  length-leaf_values l,
  length-leaf_values r,
)
length-leaf_values (or_node l r) = omega (
  arith,
  length-append (leaf_values l) (leaf_values r),
  length-leaf_values l,
  length-leaf_values r,
)

pub value-send :
    (drv : Driver) (stmt : drv.Stmt) (i : ℕ) (v : Value) (c : drv.Ctx)
    → bind_value drv stmt i v c ≡ send drv stmt i (value_cell v) c
unfolding bind_value send
value-send drv stmt i (int_value v) c = refl
value-send drv stmt i (real_value v) c = refl
value-send drv stmt i (text_value v) c = refl
value-send drv stmt i (blob_value v) c = refl

append-cases {ℓ} :
    {A : Type ℓ} (vs ws : List A) (k : ℕ) (v : A)
    → get_elem? (vs ++ ws) k ≡ some v
    → (get_elem? vs k ≡ some v) × (k < length vs)
      ⊎ ((j : ℕ) × (length vs + j ≡ k) × (get_elem? ws j ≡ some v))
append-cases [] ws k v e = inr (k, omega arith, e)
append-cases (x ∷ vs) ws zero v e = inl (e, omega arith)
append-cases (x ∷ vs) ws (suc k) v e = elim (append-cases vs ws k v e) [
  | inl (here, lt) ↦ inl (here, omega (arith, lt))
  | inr (j, at, there) ↦ inr (j, omega (arith, at), there)
]

module _ (drv : Driver) (laws : BindLaws drv) (stmt : drv.Stmt) where
  -- Parameters `idx`, `idx + 1`, … are the values, and the others are as they were.
  pub record AreBound (vs : List Value) (idx : ℕ) (c : drv.Ctx) (p : SqlRdbResult × ℕ × drv.Ctx)
      : Type 0 where
    pub next : p.1 ≡ idx + length vs
    pub each :
        (k : ℕ) (v : Value)
        → get_elem? vs k ≡ some v
        → laws.param p.2 stmt (idx + k) ≡ some (value_param (value_cell v))
    pub below : (j : ℕ) → j < idx → laws.param p.2 stmt j ≡ laws.param c stmt j

  -- Two bindings in a row.
  both :
      (vs ws : List Value) (idx : ℕ) (c : drv.Ctx) (p q : SqlRdbResult × ℕ × drv.Ctx)
      → AreBound vs idx c p
      → AreBound ws p.1 p.2 q
      → AreBound (vs ++ ws) idx c q
  both vs ws idx c p q a b = record {
    next = omega (arith, length-append vs ws, a.next, b.next);
    each = λ k v e. elim (append-cases vs ws k v e) [
      | inl (here, lt) ↦ b.below (idx + k) (omega (arith, a.next, lt)) ∙ a.each k v here
      | inr (j, at, there) ↦
          ap (laws.param q.2 stmt) (let e : idx + k ≡ p.1 + j = omega (arith, a.next, at) in e)
          ∙ b.each j v there
    ];
    below = λ j lt. b.below j (omega (arith, a.next, lt)) ∙ a.below j lt;
  }

  in_turn :
      (vs ws : List Value) (idx : ℕ) (c : drv.Ctx) (p q : SqlRdbResult × ℕ × drv.Ctx) (b : Bool)
      → is_ok p.0 ≡ b
      → (is_ok p.0 ≡ true → AreBound vs idx c p)
      → (is_ok q.0 ≡ true → AreBound ws p.1 p.2 q)
      → is_ok (if b then q else p).0 ≡ true
      → AreBound (vs ++ ws) idx c (if b then q else p)
  in_turn vs ws idx c p q true e first second fine = both vs ws idx c p q (first e) (second fine)
  in_turn vs ws idx c p q false e first second fine = absurd (ground (arith, e, fine))

  value-AreBound :
      (v : Value) (idx : ℕ) (c : drv.Ctx)
      → is_ok (bind_value drv stmt idx v c).0 ≡ true
      → AreBound
          (v ∷ [])
          idx
          c
          ((bind_value drv stmt idx v c).0, idx + 1, (bind_value drv stmt idx v c).1)
  value-AreBound v idx c fine = record {
    next = omega arith;
    each = at_idx;
    below = λ j lt.
        ap (λ p. laws.param p.1 stmt j) (value-send drv stmt idx v c)
        ∙ laws.sent_other stmt idx j (value_cell v) c sent_fine (omega (arith, lt));
  }
    where
      sent_fine : is_ok (send drv stmt idx (value_cell v) c).0 ≡ true
      sent_fine = ap (λ p. is_ok p.0) (sym (value-send drv stmt idx v c)) ∙ fine

      at_idx :
          (k : ℕ) (w : Value)
          → get_elem? (v ∷ []) k ≡ some w
          → laws.param (bind_value drv stmt idx v c).1 stmt (idx + k)
            ≡ some (value_param (value_cell w))
      at_idx zero w e =
          ap (laws.param (bind_value drv stmt idx v c).1 stmt)
            (let z : idx + 0 ≡ idx = omega arith in z)
          ∙ ap (λ p. laws.param p.1 stmt idx) (value-send drv stmt idx v c)
          ∙ laws.sent stmt idx (value_cell v) c sent_fine
          ∙ ap (λ x. some (value_param (value_cell x))) (some-injective v w e)
      at_idx (suc k) w e = cc

  bind_cond-AreBound :
      (cond : Condition) (idx : ℕ) (c : drv.Ctx)
      → is_ok (bind_cond drv stmt cond idx c).0 ≡ true
      → AreBound (leaf_values cond) idx c (bind_cond drv stmt cond idx c)
  unfolding bind_cond leaf_values
  bind_cond-AreBound match_all idx c fine = record {
    next = omega arith;
    each = λ k v e. cc;
    below = λ j lt. refl;
  }
  bind_cond-AreBound (leaf col op v) idx c fine = value-AreBound v idx c fine
  bind_cond-AreBound (and_node l r) idx c fine =
      let left = bind_cond drv stmt l idx c in
      in_turn (leaf_values l) (leaf_values r) idx c left (bind_cond drv stmt r left.1 left.2)
        (is_ok left.0) refl (bind_cond-AreBound l idx c) (bind_cond-AreBound r left.1 left.2) fine
  bind_cond-AreBound (or_node l r) idx c fine =
      let left = bind_cond drv stmt l idx c in
      in_turn (leaf_values l) (leaf_values r) idx c left (bind_cond drv stmt r left.1 left.2)
        (is_ok left.0) refl (bind_cond-AreBound l idx c) (bind_cond-AreBound r left.1 left.2) fine

abbrev pub condition_values : Option Condition → List Value
condition_values none = []
condition_values (some cond) = leaf_values cond

-- On a driver that meets BindLaws: a successful `bind_cond_values` from index `idx` on sets one
-- parameter for each leaf of the condition, from left to right, to the leaf's value, leaves the
-- parameters below `idx` alone, and moves the index past them.
pub bind_cond_values-AreBound :
    (drv : Driver) (laws : BindLaws drv) (stmt : drv.Stmt) (cond : Option Condition) (idx : ℕ)
    (c : drv.Ctx)
    → is_ok (bind_cond_values drv stmt cond idx c).0 ≡ true
    → AreBound drv laws stmt (condition_values cond) idx c (bind_cond_values drv stmt cond idx c)
unfolding bind_cond_values
bind_cond_values-AreBound drv laws stmt none idx c fine = record {
  next = omega arith;
  each = λ k v e. cc;
  below = λ j lt. refl;
}
bind_cond_values-AreBound drv laws stmt (some cond) idx c fine =
    bind_cond-AreBound drv laws stmt cond idx c fine

pub values-leaves : (cond : Option Condition) → length (condition_values cond) ≡ where_leaves cond
unfolding where_leaves
values-leaves none = refl
values-leaves (some cond) = length-leaf_values cond
