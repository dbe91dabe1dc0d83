-- ===== src/Registry/Tests.antt =====
-- Runs of the registry of src/schema_registry.c, and its theorems at these inputs.
use c2sql.Prelude.{
  ◌≢◌, ◌≡◌, refl, some, List, [], ◌∷◌, lit, str_eq, All, arith, true, false, if◌then◌else◌,
}
use c2sql.Types.{err_no_memory, int64, text, ok, ColumnDef}
use c2sql.Registry.Identifier.{
  valid_chars, scan, is_reserved, reserved_words, starts_ident, in_ident, to_upper,
  identifier_valid,
}
use c2sql.Registry.Identifier.Exact.{identifier_valid_iff}
use c2sql.Registry.Columns.{check_columns, check_column, has_name, ColumnArg, size_fits}
use c2sql.Registry.Columns.Valid.{AreCopies}
use c2sql.Registry.Lookup.{
  Acceptable, register_sound, register_accepts, lookup-register, unregister-register,
}
use c2sql.Registry.Invariant.{
  Request, registers, unregisters, run, IsRegistry, IsPlain, run-IsRegistry, run-IsPlain,
}
use c2sql.Registry.{
  register_named, registry_grow, add_entry, after_check, SchemaRegistry, empty_registry, lookup,
  register, unregister, new_schema,
}

abbrev id_arg : ColumnArg
id_arg = record { name = some (lit "id"); type = int64; offset = 0; size = 8; flags = 1 }

abbrev name_arg : ColumnArg
name_arg = record { name = some (lit "name"); type = text; offset = 8; size = 32; flags = 2 }

abbrev id_col : ColumnDef
id_col = record { name = lit "id"; type = int64; offset = 0; size = 8; flags = 1 }

abbrev name_col : ColumnDef
name_col = record { name = lit "name"; type = text; offset = 8; size = 32; flags = 2 }

abbrev person_args : List ColumnArg
person_args = id_arg ∷ name_arg ∷ []

valid_id : identifier_valid (lit "id") ≡ true
unfolding lit identifier_valid valid_chars scan is_reserved reserved_words starts_ident in_ident
    to_upper str_eq
valid_id = refl

valid_name : identifier_valid (lit "name") ≡ true
unfolding lit identifier_valid valid_chars scan is_reserved reserved_words starts_ident in_ident
    to_upper str_eq
valid_name = refl

valid_persons : identifier_valid (lit "persons") ≡ true
unfolding lit identifier_valid valid_chars scan is_reserved reserved_words starts_ident in_ident
    to_upper str_eq
valid_persons = refl

id-ne-name : lit "id" ≢ lit "name"
unfolding lit
id-ne-name e = ground arith

persons-Acceptable : Acceptable empty_registry (lit "persons") person_args (id_col ∷ name_col ∷ [])
unfolding lookup size_fits
persons-Acceptable = record {
  nonempty = omega arith;
  bounded = omega arith;
  identifier = (identifier_valid_iff (lit "persons")).0 valid_persons;
  unused = refl;
  columns = (
    ((identifier_valid_iff (lit "id")).0 valid_id, tt, refl),
    (((identifier_valid_iff (lit "name")).0 valid_name, (id-ne-name, tt), refl), tt),
  );
  copies = (refl, refl, (refl, refl, tt));
}

register_accepts_example :
    (register empty_registry (some (lit "persons")) (some person_args) []).code ≡ ok
register_accepts_example =
    register_accepts empty_registry (lit "persons") person_args (id_col ∷ name_col ∷ []) []
      persons-Acceptable tt

abbrev with_persons : SchemaRegistry
with_persons = (register empty_registry (some (lit "persons")) (some person_args) []).registry

register_sound_example :
    (cs : List ColumnDef) × Acceptable empty_registry (lit "persons") person_args cs
    × (with_persons.entries ≡ new_schema (lit "persons") cs ∷ [])
register_sound_example =
    register_sound empty_registry (lit "persons") person_args [] register_accepts_example

exhausted_code :
    (register empty_registry (some (lit "persons")) (some person_args) (false ∷ [])).code
    ≡ err_no_memory
unfolding register register_named registry_grow check_columns add_entry check_column after_check
    lookup lit identifier_valid valid_chars scan is_reserved reserved_words starts_ident in_ident
    to_upper str_eq has_name size_fits
exhausted_code = refl

lookup-register_example :
    (cs : List ColumnDef) × AreCopies person_args cs
    × (lookup (lit "persons") with_persons.entries ≡ (
        if str_eq (lit "persons") (lit "persons")
        then some (new_schema (lit "persons") cs)
        else lookup (lit "persons") []))
lookup-register_example =
    lookup-register empty_registry (lit "persons") (lit "persons") person_args []
      register_accepts_example

unregister-register_example :
    ((unregister with_persons (some (lit "persons"))).0 ≡ ok)
    × ((unregister with_persons (some (lit "persons"))).1.entries ≡ [])
unregister-register_example =
    unregister-register empty_registry (lit "persons") person_args [] register_accepts_example

abbrev requests : List Request
requests =
    registers (some (lit "persons")) (some person_args) []
    ∷ registers (some (lit "persons")) (some person_args) []
    ∷ unregisters (some (lit "persons"))
    ∷ registers (some (lit "select")) (some person_args) (false ∷ [])
    ∷ []

run-IsRegistry_example : IsRegistry (run empty_registry requests)
run-IsRegistry_example = run-IsRegistry requests

run-IsPlain_example :
    All
      (λ s. IsPlain s.name × All (λ c. IsPlain c.name) s.cols)
      (run empty_registry requests).entries
run-IsPlain_example = run-IsPlain requests
