-- ===== src/Registry.antt =====
-- src/schema_registry.c: the registry of schemas. `entries` and `count` are one list; `capacity`
-- is the size of the array behind it.
pub mod Identifier
pub mod Columns
pub mod Lookup
pub mod Invariant
mod Tests
use c2sql.Prelude.{
  ℕ, zero, suc, ◌+◌, ◌*◌, CStr, Bool, true, false, not, Option, none, some, List, [], ◌∷◌, ◌++◌,
  ◌==◌, if◌then◌else◌, length, Memory, malloc, str_eq, ltb,
}
use c2sql.Types.{
  SqlRdbResult, ok, err_invalid_arg, err_invalid_name, err_duplicate_schema, err_too_many_columns,
  err_no_memory, err_unknown_struct, is_ok, ColumnDef, Schema,
}
use c2sql.Registry.Identifier.{identifier_valid}
use c2sql.Registry.Columns.{ColumnArg, check_columns, find_pk}

abbrev pub max_columns : ℕ
max_columns = 64

pub record SchemaRegistry : Type 0 where
  pub entries : List Schema
  pub capacity : ℕ

abbrev pub empty_registry : SchemaRegistry
empty_registry = record { entries = []; capacity = 0 }

-- The loops that look for an entry by name.
unfoldable pub lookup : CStr → List Schema → Option Schema
lookup name [] = none
lookup name (s ∷ ss) = if str_eq s.name name then some s else lookup name ss

-- What a call leaves: its result code, the registry and the allocator.
pub record Registered : Type 0 where
  pub code : SqlRdbResult
  pub registry : SchemaRegistry
  pub memory : Memory

abbrev pub failed : SqlRdbResult → SchemaRegistry → Memory → Registered
failed r reg m = record { code = r; registry = reg; memory = m }

-- `n` allocations in a row; the first that fails ends them.
pub alloc_all : ℕ → Memory → Bool × Memory
alloc_all zero m = (true, m)
alloc_all (suc n) m =
    let (got, m') = malloc m in let rest = alloc_all n m' in if got then rest else (false, m')

abbrev pub grown_capacity : ℕ → ℕ
grown_capacity cap = if cap == 0 then 8 else cap * 2

-- `registry_grow` when the array is full. (A wrap of the doubled capacity would take more entries
-- than memory holds.)
registry_grow : SchemaRegistry → Memory → Bool × SchemaRegistry × Memory
registry_grow reg m =
    if length reg.entries == reg.capacity
    then (let (got, m') = malloc m in
        (got, if got then record reg { capacity = grown_capacity reg.capacity } else reg, m'))
    else (true, reg, m)

abbrev pub new_schema : CStr → List ColumnDef → Schema
new_schema name cols = record { name = name; cols = cols; pk_index = find_pk 0 cols }

-- After the growth: `strdup(name)`, then the array and one `strdup` for each column.
add_entry : CStr → List ColumnDef → Bool × SchemaRegistry × Memory → Registered
add_entry name cols (false, reg, m) = failed err_no_memory reg m
add_entry name cols (true, reg, m) =
    let (got, m') = alloc_all (length cols + 2) m in
    if got
    then record {
      code = ok;
      registry = record reg { entries = reg.entries ++ new_schema name cols ∷ [] };
      memory = m';
    }
    else failed err_no_memory reg m'

after_check : SchemaRegistry → CStr → Memory → SqlRdbResult × List ColumnDef → Registered
unfolding registry_grow add_entry
after_check reg name m (r, cols) =
    if is_ok r then add_entry name cols (registry_grow reg m) else failed r reg m

abbrev pub is_some {ℓ} : {A : Type ℓ} → Option A → Bool
is_some none = false
is_some (some _) = true

-- `c2sql_internal_schema_register` behind the handle check, with `name` and `cols` not NULL.
register_named : SchemaRegistry → CStr → List ColumnArg → Memory → Registered
unfolding after_check
register_named reg name cols m =
    if length cols == 0
    then failed err_invalid_arg reg m
    else if ltb max_columns (length cols)
    then failed err_too_many_columns reg m
    else if not (identifier_valid name)
    then failed err_invalid_name reg m
    else if is_some (lookup name reg.entries)
    then failed err_duplicate_schema reg m
    else after_check reg name m (check_columns [] cols)

pub register : SchemaRegistry → Option CStr → Option (List ColumnArg) → Memory → Registered
unfolding register_named
register reg (some name) (some cols) m = register_named reg name cols m
register reg _ _ m = failed err_invalid_arg reg m

-- The list without the first entry of that name.
unfoldable pub remove : CStr → List Schema → List Schema
remove name [] = []
remove name (s ∷ ss) = if str_eq s.name name then ss else s ∷ remove name ss

-- `c2sql_internal_schema_unregister` behind the handle check; `none` is a NULL name.
pub unregister : SchemaRegistry → Option CStr → SqlRdbResult × SchemaRegistry
unregister reg none = (err_invalid_arg, reg)
unregister reg (some name) =
    if is_some (lookup name reg.entries)
    then (ok, record reg { entries = remove name reg.entries })
    else (err_unknown_struct, reg)
