-- ===== src/Registry/Lookup.antt =====
-- Lookup, registration and removal in src/schema_registry.c, as a client sees them.
use c2sql.Prelude.{
  ◌==◌, ℕ, zero, suc, ◌+◌, ◌≤◌, ◌≡◌, refl, sym, ◌∙◌, ap, ◌≢◌, CStr, Bool, true, false, Option, none,
  some, List, [], ◌∷◌, ◌++◌, arith, inl, inr, Bool-cases, str_eq, str_eq_iff, str_eq_refl, length,
  if◌then◌else◌, Memory, Plenty, malloc, malloc-Plenty,
}
use c2sql.Types.{SqlRdbResult, ok, is_ok, ColumnDef, Schema}
use c2sql.Registry.Identifier.{identifier_valid}
use c2sql.Registry.Identifier.Exact.{IsIdentifier, identifier_valid_iff}
use c2sql.Registry.Columns.{ColumnArg, check_columns}
use c2sql.Registry.Columns.Valid.{
  AreColumns, AreCopies, check_columns_sound, check_columns_complete,
}
use c2sql.Registry.{
  SchemaRegistry, Registered, max_columns, lookup, alloc_all, registry_grow, add_entry, after_check,
  register_named, register, unregister, remove, new_schema, is_some,
}

-- What a registration must meet: `cs` are the caller's columns as they will be kept.
pub record Acceptable (reg : SchemaRegistry) (name : CStr) (args : List ColumnArg)
    (cs : List ColumnDef) : Type 0 where
  pub nonempty : length args ≢ 0
  pub bounded : length args ≤ max_columns
  pub identifier : IsIdentifier name
  pub unused : lookup name reg.entries ≡ none
  pub columns : AreColumns [] cs
  pub copies : AreCopies args cs

alloc_all-Plenty :
    (n : ℕ) (m : Memory) → Plenty m → ((alloc_all n m).0 ≡ true) × Plenty (alloc_all n m).1
unfolding alloc_all
alloc_all-Plenty zero m p = (refl, p)
alloc_all-Plenty (suc n) m p =
    rw ((malloc-Plenty m p).0, alloc_all) (alloc_all-Plenty n (malloc m).1 (malloc-Plenty m p).1)

-- The entries after an addition: one more, or the same and an error.
add_entry_cases :
    (name : CStr) (cols : List ColumnDef) (reg : SchemaRegistry)
    (r : Bool × SchemaRegistry × Memory)
    → r.1.entries ≡ reg.entries
    → ((add_entry name cols r).code ≡ ok
        → (add_entry name cols r).registry.entries ≡ reg.entries ++ new_schema name cols ∷ [])
      × ((add_entry name cols r).code ≢ ok → (add_entry name cols r).registry.entries ≡ reg.entries)
unfolding add_entry
add_entry_cases name cols reg (false, reg', m) e = (λ h. cc, λ h. e)
add_entry_cases name cols reg (true, reg', m) e =
    elim (Bool-cases (alloc_all (length cols + 2) m).0) [
      | inl got ↦ rw got (λ h. ap (λ l. l ++ new_schema name cols ∷ []) e, λ h. absurd (h refl))
      | inr short ↦ rw short (λ h. cc, λ h. e)
    ]

grow_entries : (reg : SchemaRegistry) (m : Memory) → (registry_grow reg m).1.entries ≡ reg.entries
unfolding registry_grow
grow_entries reg m = ground arith

-- The columns that a registration keeps, if it is accepted.
abbrev kept : List ColumnArg → List ColumnDef
kept args = (check_columns [] args).1

is_some-none {ℓ} : {A : Type ℓ} (o : Option A) → is_some o ≡ false → o ≡ none
is_some-none none h = refl
is_some-none (some a) h = cc

module _ (reg : SchemaRegistry) (name : CStr) (args : List ColumnArg) (m : Memory) where
  after_cases :
      (r : SqlRdbResult) (cols : List ColumnDef)
      → ((after_check reg name m (r, cols)).code ≡ ok
          → (is_ok r ≡ true)
            × ((after_check reg name m (r, cols)).registry.entries
                ≡ reg.entries ++ new_schema name cols ∷ []))
        × ((after_check reg name m (r, cols)).code ≢ ok
            → (after_check reg name m (r, cols)).registry.entries ≡ reg.entries)
  unfolding after_check
  after_cases r cols = elim (Bool-cases (is_ok r)) [
    | inl fine ↦ rw fine (
        let (y, n) = add_entry_cases name cols reg (registry_grow reg m) (grow_entries reg m) in
        (λ h. (refl, y h), n))
    | inr bad ↦ rw bad (λ h. cc (bad, h), λ h. refl)
  ]

  passed :
      (register_named reg name args m).code ≡ ok
      → (length args ≢ 0)
        × (length args ≤ max_columns)
        × (identifier_valid name ≡ true)
        × (is_some (lookup name reg.entries) ≡ false)
        × (register_named reg name args m ≡ after_check reg name m (check_columns [] args))
  unfolding register_named
  passed h = ground arith

  stopped :
      (register_named reg name args m).code ≢ ok
      → (register_named reg name args m).registry.entries ≡ reg.entries
  unfolding register_named
  stopped h = ground (arith, (after_cases (check_columns [] args).0 (kept args)).1)

  acceptance :
      (register_named reg name args m).code ≡ ok
      → Acceptable reg name args (kept args)
        × ((register_named reg name args m).registry.entries
            ≡ reg.entries ++ new_schema name (kept args) ∷ [])
  acceptance h =
      let (nonempty, bounded, valid, unused, e) = passed h in
      let (fine, entries) =
        (after_cases (check_columns [] args).0 (kept args)).0 (ap Registered.code (sym e) ∙ h) in
      let (cs, same, columns, copies) = check_columns_sound [] args fine in
      (
        record {
          nonempty = nonempty;
          bounded = bounded;
          identifier = (identifier_valid_iff name).0 valid;
          unused = is_some-none _ unused;
          columns = rw same columns;
          copies = rw same copies;
        },
        ap (λ r. r.registry.entries) e ∙ entries,
      )

-- A registration that succeeds was acceptable, and the schema of the copied columns is all that it
-- adds, behind the entries.
pub register_sound :
    (reg : SchemaRegistry) (name : CStr) (args : List ColumnArg) (m : Memory)
    → (register reg (some name) (some args) m).code ≡ ok
    → (cs : List ColumnDef) × Acceptable reg name args cs
      × ((register reg (some name) (some args) m).registry.entries
          ≡ reg.entries ++ new_schema name cs ∷ [])
unfolding register
register_sound reg name args m h = let (a, e) = acceptance reg name args m h in (kept args, a, e)

-- A registration that fails, whatever its arguments, leaves the entries as they were.
pub register_failure :
    (reg : SchemaRegistry) (name : Option CStr) (args : Option (List ColumnArg)) (m : Memory)
    → (register reg name args m).code ≢ ok
    → (register reg name args m).registry.entries ≡ reg.entries
unfolding register
register_failure reg (some name) (some args) m h = stopped reg name args m h
register_failure reg (some name) none m h = refl
register_failure reg none args m h = refl

added :
    (reg : SchemaRegistry) (name : CStr) (cs : List ColumnDef) (m : Memory)
    → Plenty m
    → (add_entry name cs (registry_grow reg m)).code ≡ ok
unfolding add_entry registry_grow
added reg name cs m p = elim (Bool-cases (length reg.entries == reg.capacity)) [
  | inl full ↦
      let (got, p') = malloc-Plenty m p in
      rw (full, got, (alloc_all-Plenty (length cs + 2) (malloc m).1 p').0, add_entry) refl
  | inr spare ↦ rw (spare, (alloc_all-Plenty (length cs + 2) m p).0, add_entry) refl
]

-- With memory to spare, an acceptable registration succeeds.
pub register_accepts :
    (reg : SchemaRegistry) (name : CStr) (args : List ColumnArg) (cs : List ColumnDef) (m : Memory)
    → Acceptable reg name args cs
    → Plenty m
    → (register reg (some name) (some args) m).code ≡ ok
unfolding register register_named
register_accepts reg name args cs m a p =
    rw
      (
        check_columns_complete [] args cs a.columns a.copies,
        (identifier_valid_iff name).1 a.identifier,
        a.unused,
        register_named,
      )
      (ground (arith, added reg name cs m p, a.bounded))

lookup-append :
    (j : CStr) (ss : List Schema) (s : Schema)
    → lookup j (ss ++ s ∷ [])
      ≡ elim (lookup j ss) [ none ↦ if str_eq s.name j then some s else none | some t ↦ some t ]
unfolding lookup
lookup-append j [] s = refl
lookup-append j (t ∷ ss) s = elim (Bool-cases (str_eq t.name j)) [
  | inl hit ↦ rw (hit, lookup) refl
  | inr miss ↦ rw (miss, lookup) (lookup-append j ss s)
]

remove-append :
    (name : CStr) (ss : List Schema) (s : Schema)
    → s.name ≡ name
    → lookup name ss ≡ none
    → remove name (ss ++ s ∷ []) ≡ ss
unfolding lookup remove
remove-append name [] s e h = rw (e, str_eq_refl name)
remove-append name (t ∷ ss) s e h = elim (Bool-cases (str_eq t.name name)) [
  | inl hit ↦ cc (rw (hit, lookup) at h)
  | inr miss ↦
      rw (miss, remove) (ap (λ l. t ∷ l) (remove-append name ss s e (rw (miss, lookup) at h)))
]

first_or_new :
    (b : Bool) (o : Option Schema) (s : Schema)
    → (b ≡ true → o ≡ none)
    → elim o [ none ↦ if b then some s else none | some t ↦ some t ] ≡ (if b then some s else o)
first_or_new b none s h = refl
first_or_new true (some t) s h = cc (h refl)
first_or_new false (some t) s h = refl

-- After a registration that succeeds, its name finds the new schema, whose columns are the copies
-- of the caller's, and every other name finds what it found before.
pub lookup-register :
    (reg : SchemaRegistry) (name j : CStr) (args : List ColumnArg) (m : Memory)
    → (register reg (some name) (some args) m).code ≡ ok
    → (cs : List ColumnDef) × AreCopies args cs
      × (lookup j (register reg (some name) (some args) m).registry.entries
          ≡ (if str_eq name j then some (new_schema name cs) else lookup j reg.entries))
lookup-register reg name j args m h =
    let (cs, a, e) = register_sound reg name args m h in
    (
      cs,
      a.copies,
      rw (e, lookup-append)
          (first_or_new (str_eq name j) (lookup j reg.entries) (new_schema name cs)
            (λ t. rw (← (str_eq_iff name j).0 t) a.unused)),
    )

-- Removing a schema right after its registration undoes it: `unregister` succeeds and the entries
-- are those from before.
pub unregister-register :
    (reg : SchemaRegistry) (name : CStr) (args : List ColumnArg) (m : Memory)
    → (register reg (some name) (some args) m).code ≡ ok
    → ((unregister (register reg (some name) (some args) m).registry (some name)).0 ≡ ok)
      × ((unregister (register reg (some name) (some args) m).registry (some name)).1.entries
          ≡ reg.entries)
unfolding unregister
unregister-register reg name args m h =
    let (cs, a, e) = register_sound reg name args m h in
    rw (found cs a e)
      (refl, rw e (remove-append name reg.entries (new_schema name cs) refl a.unused))
  where
    found :
        (cs : List ColumnDef)
        → Acceptable reg name args cs
        → (register reg (some name) (some args) m).registry.entries
          ≡ reg.entries ++ new_schema name cs ∷ []
        → is_some (lookup name (register reg (some name) (some args) m).registry.entries) ≡ true
    found cs a e = rw (e, lookup-append, a.unused, str_eq_refl name)
