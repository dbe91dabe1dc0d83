-- ===== src/Condition/Nodes.antt =====
-- src/condition_ast.c: the nodes of conditions in memory. A node is an address, 0 is NULL; `none` at an
-- address is memory that is not allocated. The strings and bytes of a leaf belong to the caller.
use c2sql.Prelude.{
  ℕ, zero, suc, CStr, ◌||◌, Option, none, some, List, ◌==◌, if◌then◌else◌, Memory, malloc,
}
use c2sql.Condition.{Value, int_value, real_value, text_value, blob_value}

pub data Node : Type 0 where
  leaf_at : CStr → ℕ → Value → Node
  and_at or_at : ℕ → ℕ → Node
  all_at : Node

-- `fresh` is the address of the next node.
pub record Nodes : Type 0 where
  pub at : ℕ → Option Node
  pub fresh : ℕ

abbrev pub put_node : ℕ → Option Node → Nodes → Nodes
put_node p n h = record h { at = λ b. if b == p then n else h.at b }

abbrev pub Made : Type 0
Made = ℕ × Nodes × Memory

-- `alloc_node`, with the node filled in.
unfoldable pub alloc_node : Node → Nodes → Memory → Made
alloc_node n h m =
    let (got, m') = malloc m in
    if got
    then (h.fresh, put_node h.fresh (some n) (record h { fresh = suc h.fresh }), m')
    else (0, h, m')

-- `SqlRDBCondInt`
unfoldable pub cond_int : Option CStr → ℕ → ℕ → Nodes → Memory → Made
cond_int none op v h m = (0, h, m)
cond_int (some col) op v h m = alloc_node (leaf_at col op (int_value v)) h m

-- `SqlRDBCondText`
unfoldable pub cond_text : Option CStr → ℕ → Option CStr → Nodes → Memory → Made
cond_text (some col) op (some v) h m = alloc_node (leaf_at col op (text_value v)) h m
cond_text _ op _ h m = (0, h, m)

-- `SqlRDBCondReal`
unfoldable pub cond_real : Option CStr → ℕ → ℕ → Nodes → Memory → Made
cond_real none op v h m = (0, h, m)
cond_real (some col) op v h m = alloc_node (leaf_at col op (real_value v)) h m

-- `SqlRDBCondBlob`
unfoldable pub cond_blob : Option CStr → ℕ → Option (List ℕ) → Nodes → Memory → Made
cond_blob (some col) op (some v) h m = alloc_node (leaf_at col op (blob_value v)) h m
cond_blob _ op _ h m = (0, h, m)

-- `SqlRDBCondAnd`
unfoldable pub cond_and : ℕ → ℕ → Nodes → Memory → Made
cond_and a b h m = if (a == 0) || (b == 0) then (0, h, m) else alloc_node (and_at a b) h m

-- `SqlRDBCondOr`
unfoldable pub cond_or : ℕ → ℕ → Nodes → Memory → Made
cond_or a b h m = if (a == 0) || (b == 0) then (0, h, m) else alloc_node (or_at a b) h m

-- `SqlRDBCondAll`
unfoldable pub cond_all : Nodes → Memory → Made
cond_all h m = alloc_node all_at h m

-- `free(cond)`: none where there is nothing to free.
abbrev pub free_node : ℕ → Nodes → Option Nodes
free_node p h = elim (h.at p) [ none ↦ none | some n ↦ some (put_node p none h) ]

abbrev pub then_free : ℕ → Option Nodes → Option Nodes
then_free p none = none
then_free p (some h) = free_node p h

abbrev pub both : (ℕ → Nodes → Option Nodes) → ℕ → ℕ → Nodes → Option Nodes
both rec l r h = elim (rec l h) [ none ↦ none | some h' ↦ rec r h' ]

-- The children of a node, and nothing for the others.
abbrev pub free_children : (ℕ → Nodes → Option Nodes) → Node → Nodes → Option Nodes
free_children rec (and_at l r) h = both rec l r h
free_children rec (or_at l r) h = both rec l r h
free_children rec (leaf_at col op v) h = some h
free_children rec all_at h = some h

abbrev pub free_at : (ℕ → Nodes → Option Nodes) → ℕ → Nodes → Option Nodes
free_at rec p h = elim (h.at p) [ none ↦ none | some n ↦ then_free p (free_children rec n h) ]

-- `SqlRDBCondFree`; the fuel bounds the depth. `none` is a node that is used or freed after it has been
-- freed, or a depth that the fuel does not reach.
unfoldable pub cond_free : ℕ → ℕ → Nodes → Option Nodes
cond_free zero p h = none
cond_free (suc fuel) p h = if p == 0 then some h else free_at (cond_free fuel) p h
