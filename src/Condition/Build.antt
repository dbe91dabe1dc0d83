-- ===== src/Condition/Build.antt =====
-- A client that builds a condition by the constructors of src/condition_ast.c, children first.
use c2sql.Prelude.{
  ℕ, suc, ◌+◌, ◌≤◌, ◌<◌, ◌≡◌, refl, sym, ◌∙◌, ◌≢◌, true, false, ◌||◌, Option, none, some, arith,
  inl, inr, Bool-cases, ◌==◌, ==_refl, if◌then◌else◌, Memory, Plenty, malloc, malloc-Plenty,
}
use c2sql.Condition.{
  Condition, leaf, and_node, or_node, match_all, int_value, real_value, text_value, blob_value,
}
use c2sql.Condition.Nodes.{
  Node, and_at, or_at, Nodes, put_node, Made, alloc_node, cond_int, cond_text, cond_real, cond_blob,
  cond_and, cond_or, cond_all, cond_free,
}
use c2sql.Condition.Trees.{
  Places, one, two, root, holds, depth, Apart, IsPair, IsTree, IsTree-frame, root-nonzero,
  cond_free-IsFreed,
}

unfoldable pub build : Condition → Nodes → Memory → Made
build (leaf col op (int_value v)) h m = cond_int (some col) op v h m
build (leaf col op (real_value v)) h m = cond_real (some col) op v h m
build (leaf col op (text_value v)) h m = cond_text (some col) op (some v) h m
build (leaf col op (blob_value v)) h m = cond_blob (some col) op (some v) h m
build match_all h m = cond_all h m
build (and_node x y) h m =
    let (p, h', m') = build x h m in let (q, h'', m'') = build y h' m' in cond_and p q h'' m''
build (or_node x y) h m =
    let (p, h', m') = build x h m in let (q, h'', m'') = build y h' m' in cond_or p q h'' m''

abbrev pub size : Condition → ℕ
size (leaf col op v) = 1
size match_all = 1
size (and_node x y) = suc (size x + size y)
size (or_node x y) = suc (size x + size y)

-- `made` is the condition `c` in new memory, and nothing else changed.
record IsBuilt (c : Condition) (h : Nodes) (made : Made) : Type 0 where
  places : Places
  at_root : made.0 ≡ root places
  tree : IsTree made.1.at c places
  deep : depth places ≡ size c
  grown : h.fresh ≤ made.1.fresh
  new : (b : ℕ) → holds b places ≡ true → (h.fresh ≤ b) × (b < made.1.fresh)
  kept : (b : ℕ) → holds b places ≡ false → made.1.at b ≡ h.at b
  plenty : Plenty made.2

alloc_node_lem :
    (n : Node) (h : Nodes) (m : Memory)
    → Plenty m
    → alloc_node n h m
      ≡ (h.fresh, put_node h.fresh (some n) (record h { fresh = suc h.fresh }), (malloc m).1)
unfolding alloc_node
alloc_node_lem n h m p = rw ((malloc-Plenty m p).0, alloc_node)

one-IsBuilt :
    (c : Condition) (n : Node) (h : Nodes) (m : Memory)
    → size c ≡ 1
    → (0 < h.fresh)
    → Plenty m
    → ((at : ℕ → Option Node) (a : ℕ) → a ≢ 0 → at a ≡ some n → IsTree at c (one a))
    → IsBuilt c h (alloc_node n h m)
one-IsBuilt c n h m e f p tree = rw (alloc_node_lem n h m p) record {
  places = one h.fresh;
  at_root = refl;
  tree = tree _ h.fresh (omega (arith, f)) (rw ==_refl refl);
  deep = sym e;
  grown = omega arith;
  new = λ b k. ground arith;
  kept = λ b k. rw k refl;
  plenty = (malloc-Plenty m p).1;
}

not_held : (b : ℕ) (t : Places) → (holds b t ≡ true → ⊥) → holds b t ≡ false
not_held b t n = elim (Bool-cases (holds b t)) [ inl e ↦ absurd (n e) | inr e ↦ e ]

module _ (c cx cy : Condition) (n : Node) (h : Nodes) (first second : Made) (x : IsBuilt cx h first)
    (y : IsBuilt cy first.1 second) (f : 0 < h.fresh) where
  abbrev s : Places
  s = x.places

  abbrev t : Places
  t = y.places

  abbrev new_root : ℕ
  new_root = second.1.fresh

  abbrev at : ℕ → Option Node
  at b = if b == new_root then some n else second.1.at b

  apart : Apart new_root s t
  apart = (
    not_held new_root s (λ e. omega (arith, x.new new_root e, y.grown)),
    not_held new_root t (λ e. omega (arith, y.new new_root e)),
    λ b e. not_held b t (λ e'. omega (arith, x.new b e, y.new b e')),
  )

  left-IsTree : IsTree at cx s
  left-IsTree =
      IsTree-frame first.1.at at cx s x.tree (λ b e. ground (arith, apart.0, y.kept b, apart.2 b e))

  right-IsTree : IsTree at cy t
  right-IsTree = IsTree-frame second.1.at at cy t y.tree (λ b e. ground (arith, apart.1))

  two_IsBuilt :
      size c ≡ suc (size cx + size cy)
      → (IsPair at n new_root s t (IsTree at cx s) (IsTree at cy t)
          → IsTree at c (two new_root s t))
      → IsBuilt c h (alloc_node n second.1 second.2)
  two_IsBuilt e tree = rw (alloc_node_lem n second.1 second.2 y.plenty) record {
    places = two new_root s t;
    at_root = refl;
    tree =
        tree
          (omega (arith, f, x.grown, y.grown), rw ==_refl refl, apart, left-IsTree, right-IsTree);
    deep = omega (arith, e, x.deep, y.deep);
    grown = omega (arith, x.grown, y.grown);
    new = λ b k. ground (arith, x.new b, y.new b, x.grown, y.grown);
    kept = λ b k. ground (arith, x.kept b, y.kept b);
    plenty = (malloc-Plenty second.2 y.plenty).1;
  }

  roots_nonzero : ((first.0 == 0) || (second.0 == 0)) ≡ false
  roots_nonzero =
      let p = root-nonzero first.1.at cx s x.tree in
      let q = root-nonzero second.1.at cy t y.tree in ground (arith, x.at_root, y.at_root)

build-IsBuilt :
    (c : Condition) (h : Nodes) (m : Memory) → 0 < h.fresh → Plenty m → IsBuilt c h (build c h m)
unfolding build cond_int cond_real cond_text cond_blob cond_all cond_and cond_or
build-IsBuilt (leaf col op (int_value v)) h m f p =
    one-IsBuilt _ _ h m refl f p (λ at a nz e. (nz, e))
build-IsBuilt (leaf col op (real_value v)) h m f p =
    one-IsBuilt _ _ h m refl f p (λ at a nz e. (nz, e))
build-IsBuilt (leaf col op (text_value v)) h m f p =
    one-IsBuilt _ _ h m refl f p (λ at a nz e. (nz, e))
build-IsBuilt (leaf col op (blob_value v)) h m f p =
    one-IsBuilt _ _ h m refl f p (λ at a nz e. (nz, e))
build-IsBuilt match_all h m f p = one-IsBuilt _ _ h m refl f p (λ at a nz e. (nz, e))
build-IsBuilt (and_node x y) h m f p =
    let l = build-IsBuilt x h m f p in
    let one = build x h m in
    let r = build-IsBuilt y one.1 one.2 (omega (arith, f, l.grown)) l.plenty in
    let second = build y one.1 one.2 in
    let c = and_node x y in
    let n = and_at (root l.places) (root r.places) in
    rw (roots_nonzero c x y n h one second l r f, l.at_root, r.at_root)
      (two_IsBuilt c x y n h one second l r f refl (λ i. i))
build-IsBuilt (or_node x y) h m f p =
    let l = build-IsBuilt x h m f p in
    let one = build x h m in
    let r = build-IsBuilt y one.1 one.2 (omega (arith, f, l.grown)) l.plenty in
    let second = build y one.1 one.2 in
    let c = or_node x y in
    let n = or_at (root l.places) (root r.places) in
    rw (roots_nonzero c x y n h one second l r f, l.at_root, r.at_root)
      (two_IsBuilt c x y n h one second l r f refl (λ i. i))

-- On memory with nothing at the addresses to come, and while no allocation fails: the constructors
-- build the condition and do not return NULL, and freeing it, with a depth of at most its number of
-- nodes, uses and frees every node once and leaves the memory as it was.
pub cond_free-build :
    (c : Condition) (h : Nodes) (m : Memory)
    → 0 < h.fresh
    → ((b : ℕ) → h.fresh ≤ b → h.at b ≡ none)
    → Plenty m
    → let (p, h', m') = build c h m in
      (p ≢ 0)
      × (t : Places) × (root t ≡ p)
      × IsTree h'.at c t
      × (k : Nodes) × (cond_free (size c) p h' ≡ some k)
      × ((b : ℕ) → k.at b ≡ h.at b)
cond_free-build c h m f unused p =
    let b = build-IsBuilt c h m f p in
    let made = build c h m in
    let freed = cond_free-IsFreed (size c) c b.places made.1 b.tree (omega (arith, b.deep)) in
    (
      λ z. root-nonzero made.1.at c b.places b.tree (sym b.at_root ∙ z),
      b.places,
      sym b.at_root,
      b.tree,
      freed.after,
      rw b.at_root freed.returns,
      λ a. ground (arith, freed.gone a, b.kept a, b.new a, unused a),
    )
