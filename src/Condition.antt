-- ===== src/Condition.antt =====
-- src/condition_ast.h: the condition tree. An operator is its number, so that one outside of the
-- enumeration can be passed; an `int64_t` and a `double` are bit patterns.
pub mod Nodes
pub mod Trees
pub mod Build
mod Tests
use c2sql.Prelude.{ℕ, CStr, List}

pub data Value : Type 0 where
  int_value : ℕ → Value
  real_value : ℕ → Value
  text_value : CStr → Value
  blob_value : List ℕ → Value

pub data Condition : Type 0 where
  leaf : CStr → ℕ → Value → Condition
  and_node or_node : Condition → Condition → Condition
  match_all : Condition

-- The tree with its leaf values replaced; columns, operators and shape stay.
unfoldable pub with_values : (Value → Value) → Condition → Condition
with_values f match_all = match_all
with_values f (leaf col op v) = leaf col op (f v)
with_values f (and_node l r) = and_node (with_values f l) (with_values f r)
with_values f (or_node l r) = or_node (with_values f l) (with_values f r)
