-- ===== src/Condition/Tests.antt =====
-- Conditions built and freed by src/condition_ast.c.
use c2sql.Prelude.{ℕ, ◌≡◌, refl, ◌≢◌, false, none, some, [], ◌∷◌, arith, lit}
use c2sql.Condition.{Condition, leaf, and_node, or_node, match_all, int_value, text_value}
use c2sql.Condition.Nodes.{Nodes, Made, alloc_node, cond_int, cond_and, cond_all, cond_free}
use c2sql.Condition.Trees.{Places, root, IsTree}
use c2sql.Condition.Build.{build, size, cond_free-build}

abbrev blank : Nodes
blank = record { at = λ b. none; fresh = 1 }

abbrev adults : Condition
adults =
    and_node (leaf (lit "age") 4 (int_value 17))
      (or_node match_all (leaf (lit "name") 0 (text_value (lit "a"))))

abbrev built : Made
built = build adults blank []

cond_free-build_example :
    (built.0 ≢ 0)
    × (t : Places) × (root t ≡ built.0)
    × IsTree built.1.at adults t
    × (k : Nodes) × (cond_free (size adults) built.0 built.1 ≡ some k)
    × ((b : ℕ) → k.at b ≡ blank.at b)
cond_free-build_example = cond_free-build adults blank [] (omega arith) (λ b h. refl) tt

-- A node that stands twice in a condition is freed twice.
shared_node : cond_free 3 2 (cond_and 1 1 (cond_int (some (lit "a")) 0 5 blank []).1 []).1 ≡ none
unfolding cond_free cond_and cond_int alloc_node lit
shared_node = refl

-- Where the second node finds no memory, the first is neither freed nor part of a condition.
abbrev one_leaf : Nodes
one_leaf = (cond_all blank []).1

lost_child : (cond_and 1 1 one_leaf (false ∷ [])).1.at 1 ≢ none
unfolding cond_and cond_all alloc_node
lost_child = λ e. cc e
