-- ===== src/Condition/Trees.antt =====
-- Conditions that the constructors of src/condition_ast.c build in memory.
use c2sql.Prelude.{
  ℕ, zero, suc, ◌+◌, ◌≤◌, ◌≡◌, refl, ap, ◌∙◌, ◌≢◌, Bool, true, false, ◌||◌, Option, none, some,
  arith, ◌==◌, ==_refl, if◌then◌else◌,
}
use c2sql.Condition.{Condition, leaf, and_node, or_node, match_all}
use c2sql.Condition.Nodes.{
  Node, leaf_at, and_at, or_at, all_at, Nodes, put_node, free_children, free_node, free_at, both,
  then_free, cond_free,
}

-- Where the nodes of a condition stand.
pub data Places : Type 0 where
  one : ℕ → Places
  two : ℕ → Places → Places → Places

abbrev pub root : Places → ℕ
root (one a) = a
root (two a s t) = a

abbrev pub holds : ℕ → Places → Bool
holds b (one a) = b == a
holds b (two a s t) = (b == a) || holds b s || holds b t

abbrev pub depth : Places → ℕ
depth (one a) = 1
depth (two a s t) = suc (depth s + depth t)

abbrev pub Apart : ℕ → Places → Places → Type 0
Apart a s t =
    (holds a s ≡ false) × (holds a t ≡ false) × ((b : ℕ) → holds b s ≡ true → holds b t ≡ false)

-- Two conditions below a node that stands apart from both, and they from each other.
abbrev pub IsPair : (ℕ → Option Node) → Node → ℕ → Places → Places → Type 0 → Type 0 → Type 0
IsPair at n a s t P Q = (a ≢ 0) × (at a ≡ some n) × Apart a s t × P × Q

-- The condition stands at the places, no two of them the same.
abbrev pub IsTree : (ℕ → Option Node) → Condition → Places → Type 0
IsTree at (leaf col op v) (one a) = (a ≢ 0) × (at a ≡ some (leaf_at col op v))
IsTree at match_all (one a) = (a ≢ 0) × (at a ≡ some all_at)
IsTree at (and_node x y) (two a s t) =
    IsPair at (and_at (root s) (root t)) a s t (IsTree at x s) (IsTree at y t)
IsTree at (or_node x y) (two a s t) =
    IsPair at (or_at (root s) (root t)) a s t (IsTree at x s) (IsTree at y t)
IsTree at (leaf col op v) (two a s t) = ⊥
IsTree at match_all (two a s t) = ⊥
IsTree at (and_node x y) (one a) = ⊥
IsTree at (or_node x y) (one a) = ⊥

-- A tree survives any change outside its places.
pub IsTree-frame :
    (at at' : ℕ → Option Node) (c : Condition) (t : Places)
    → IsTree at c t
    → ((b : ℕ) → holds b t ≡ true → at' b ≡ at b)
    → IsTree at' c t
IsTree-frame at at' (leaf col op v) (one a) i same = (i.0, same a (==_refl a) ∙ i.1)
IsTree-frame at at' match_all (one a) i same = (i.0, same a (==_refl a) ∙ i.1)
IsTree-frame at at' (and_node x y) (two a s t) (n, e, apart, i, j) same = (
  n,
  same a (ground arith) ∙ e,
  apart,
  IsTree-frame at at' x s i (λ b h. same b (ground arith)),
  IsTree-frame at at' y t j (λ b h. same b (ground arith)),
)
IsTree-frame at at' (or_node x y) (two a s t) (n, e, apart, i, j) same = (
  n,
  same a (ground arith) ∙ e,
  apart,
  IsTree-frame at at' x s i (λ b h. same b (ground arith)),
  IsTree-frame at at' y t j (λ b h. same b (ground arith)),
)
IsTree-frame at at' (leaf col op v) (two a s t) i same = absurd i
IsTree-frame at at' match_all (two a s t) i same = absurd i
IsTree-frame at at' (and_node x y) (one a) i same = absurd i
IsTree-frame at at' (or_node x y) (one a) i same = absurd i

pub root-holds : (t : Places) → holds (root t) t ≡ true
root-holds (one a) = ==_refl a
root-holds (two a s t) = ground arith

pub root-nonzero : (at : ℕ → Option Node) (c : Condition) (t : Places) → IsTree at c t → root t ≢ 0
root-nonzero at (leaf col op v) (one a) i = i.0
root-nonzero at match_all (one a) i = i.0
root-nonzero at (and_node x y) (two a s t) i = i.0
root-nonzero at (or_node x y) (two a s t) i = i.0
root-nonzero at (leaf col op v) (two a s t) i = absurd i
root-nonzero at match_all (two a s t) i = absurd i
root-nonzero at (and_node x y) (one a) i = absurd i
root-nonzero at (or_node x y) (one a) i = absurd i

-- Everything at the places is free, and nothing else changed.
pub record IsFreed (t : Places) (h : Nodes) (o : Option Nodes) : Type 0 where
  pub after : Nodes
  pub returns : o ≡ some after
  pub gone : (b : ℕ) → after.at b ≡ (if holds b t then none else h.at b)

free_at_lem :
    (rec : ℕ → Nodes → Option Nodes) (a : ℕ) (n : Node) (h : Nodes)
    → h.at a ≡ some n
    → free_at rec a h ≡ then_free a (free_children rec n h)
free_at_lem rec a n h e = rw (e, free_at)

free_node_lem :
    (a : ℕ) (n : Node) (h : Nodes) → h.at a ≡ some n → free_node a h ≡ some (put_node a none h)
free_node_lem a n h e = rw (e, free_node)

-- The run on a node, once its children are freed.
cond_free_lem :
    (fuel a : ℕ) (n : Node) (h g : Nodes)
    → a ≢ 0
    → h.at a ≡ some n
    → free_children (cond_free fuel) n h ≡ some g
    → g.at a ≡ some n
    → cond_free (suc fuel) a h ≡ some (put_node a none g)
unfolding cond_free
cond_free_lem fuel a n h g nz e below again =
    let z : (a == 0) ≡ false = ground arith in
    rw (z, cond_free)
      (free_at_lem (cond_free fuel) a n h e ∙ ap (then_free a) below ∙ free_node_lem a n g again)

both_lem :
    (rec : ℕ → Nodes → Option Nodes) (l r : ℕ) (h g k : Nodes)
    → rec l h ≡ some g
    → rec r g ≡ some k
    → both rec l r h ≡ some k
both_lem rec l r h g k e f = rw (e, both) f

one-IsFreed :
    (fuel a : ℕ) (n : Node) (h : Nodes)
    → a ≢ 0
    → h.at a ≡ some n
    → free_children (cond_free fuel) n h ≡ some h
    → IsFreed (one a) h (cond_free (suc fuel) a h)
one-IsFreed fuel a n h nz e below = record {
  after = put_node a none h;
  returns = cond_free_lem fuel a n h h nz e below e;
  gone = λ b. refl;
}

module _ (fuel : ℕ) (n : Node) (a : ℕ) (s t : Places) (h : Nodes) (nz : a ≢ 0) (e : h.at a ≡ some n)
    (apart : Apart a s t) where
  two_IsFreed :
      (x : IsFreed s h (cond_free fuel (root s) h))
      → (y : IsFreed t x.after (cond_free fuel (root t) x.after))
      → free_children (cond_free fuel) n h ≡ both (cond_free fuel) (root s) (root t) h
      → IsFreed (two a s t) h (cond_free (suc fuel) a h)
  two_IsFreed x y below =
      let again : y.after.at a ≡ some n = ground (arith, y.gone a, x.gone a) in
      record {
        after = put_node a none y.after;
        returns =
            cond_free_lem fuel a n h y.after nz e
              (below
                ∙ both_lem (cond_free fuel) (root s) (root t) h x.after y.after x.returns y.returns)
              again;
        gone = λ b. ground (arith, y.gone b, x.gone b);
      }

-- Freeing a tree frees each of its nodes once.
pub cond_free-IsFreed :
    (fuel : ℕ) (c : Condition) (t : Places) (h : Nodes)
    → IsTree h.at c t
    → depth t ≤ fuel
    → IsFreed t h (cond_free fuel (root t) h)
cond_free-IsFreed zero c (one a) h i d = absurd (omega (arith, d))
cond_free-IsFreed zero c (two a s t) h i d = absurd (omega (arith, d))
cond_free-IsFreed (suc fuel) (leaf col op v) (one a) h i d = one-IsFreed fuel a _ h i.0 i.1 refl
cond_free-IsFreed (suc fuel) match_all (one a) h i d = one-IsFreed fuel a _ h i.0 i.1 refl
cond_free-IsFreed (suc fuel) (and_node x y) (two a s t) h (n, e, apart, i, j) d =
    let l = cond_free-IsFreed fuel x s h i (omega (arith, d)) in
    let kept = IsTree-frame h.at l.after.at y t j (λ b k. ground (arith, l.gone b, apart.2 b)) in
    two_IsFreed fuel _ a s t h n e apart l
      (cond_free-IsFreed fuel y t l.after kept (omega (arith, d))) refl
cond_free-IsFreed (suc fuel) (or_node x y) (two a s t) h (n, e, apart, i, j) d =
    let l = cond_free-IsFreed fuel x s h i (omega (arith, d)) in
    let kept = IsTree-frame h.at l.after.at y t j (λ b k. ground (arith, l.gone b, apart.2 b)) in
    two_IsFreed fuel _ a s t h n e apart l
      (cond_free-IsFreed fuel y t l.after kept (omega (arith, d))) refl
cond_free-IsFreed (suc fuel) (leaf col op v) (two a s t) h i d = absurd i
cond_free-IsFreed (suc fuel) match_all (two a s t) h i d = absurd i
cond_free-IsFreed (suc fuel) (and_node x y) (one a) h i d = absurd i
cond_free-IsFreed (suc fuel) (or_node x y) (one a) h i d = absurd i
