-- ===== src/Registry/Invariant.antt =====
-- The well-formedness of a registry of src/schema_registry.c across its operations.
use c2sql.Prelude.{
  ℕ, suc, ◌+◌, ◌≤◌, ◌≡◌, refl, sym, ap, ◌≢◌, CStr, Bool, true, false, Option, none, some, List, [],
  ◌∷◌, ◌++◌, arith, inl, inr, Bool-cases, str_eq, str_eq_iff, length, length-append, Memory, All,
  get_elem?, take, ◌⊎◌, ◌∙◌,
}
use c2sql.Types.{SqlRdbResult, is_ok, is_ok_lem, ColumnDef, Schema, has_flag, flag_primary_key}
use c2sql.Registry.Identifier.Exact.{IsIdentifier, IsPart}
use c2sql.Registry.Columns.{check_columns, ColumnArg, find_pk}
use c2sql.Registry.Columns.Valid.{AreColumns, AreCopies}
use c2sql.Registry.Lookup.{Acceptable, register_sound, register_failure}
use c2sql.Registry.{
  SchemaRegistry, empty_registry, max_columns, lookup, register, register_named, unregister, remove,
  new_schema, is_some, after_check, add_entry, registry_grow, alloc_all,
}

-- Where the key stands: at the first column with the primary key flag, or nowhere.
abbrev pub IsKey : List ColumnDef → Option ℕ → Type 0
IsKey cols none = All (λ c. has_flag c flag_primary_key ≡ false) cols
IsKey cols (some i) =
    (c : ColumnDef) × (get_elem? cols i ≡ some c)
    × (has_flag c flag_primary_key ≡ true)
    × All (λ d. has_flag d flag_primary_key ≡ false) (take i cols)

-- A schema that the builders can be given: identifiers throughout, 1 to 64 columns with different
-- names, integers of their size, and the key index at the first column flagged as the key.
pub record IsSchema (s : Schema) : Type 0 where
  pub identifier : IsIdentifier s.name
  pub columns : AreColumns [] s.cols
  pub nonempty : length s.cols ≢ 0
  pub bounded : length s.cols ≤ max_columns
  pub key : IsKey s.cols s.pk_index

-- Each entry's name differs from those before it.
abbrev pub AreDistinct : List Schema → Type 0
AreDistinct [] = Unit
AreDistinct (s ∷ ss) = All (λ t. t.name ≢ s.name) ss × AreDistinct ss

pub record IsRegistry (reg : SchemaRegistry) : Type 0 where
  pub schemas : All IsSchema reg.entries
  pub distinct : AreDistinct reg.entries
  pub room : length reg.entries ≤ reg.capacity

pub data Request : Type 0 where
  registers : Option CStr → Option (List ColumnArg) → Memory → Request
  unregisters : Option CStr → Request

pub serve : SchemaRegistry → Request → SchemaRegistry
serve reg (registers name cols m) = (register reg name cols m).registry
serve reg (unregisters name) = (unregister reg name).1

pub run : SchemaRegistry → List Request → SchemaRegistry
run reg [] = reg
run reg (q ∷ qs) = run (serve reg q) qs

All-append {ℓ κ} :
    {A : Type ℓ} (P : A → Type κ) (xs ys : List A) → All P xs → All P ys → All P (xs ++ ys)
All-append P [] ys a b = b
All-append P (x ∷ xs) ys a b = (a.0, All-append P xs ys a.1 b)

length-copies :
    (args : List ColumnArg) (cs : List ColumnDef) → AreCopies args cs → length args ≡ length cs
length-copies [] [] k = refl
length-copies [] (c ∷ cs) k = absurd k
length-copies (a ∷ args) [] k = absurd k
length-copies (a ∷ args) (c ∷ cs) k = ap suc (length-copies args cs k.2)

-- `find_pk`, that many columns in.
find_pk_lem :
    (k : ℕ) (cs : List ColumnDef)
    → ((find_pk k cs ≡ none) × IsKey cs none)
      ⊎ ((i : ℕ) × (find_pk k cs ≡ some (k + i)) × IsKey cs (some i))
unfolding find_pk
find_pk_lem k [] = inl (refl, tt)
find_pk_lem k (c ∷ cs) = elim (Bool-cases (has_flag c flag_primary_key)) [
  | inl flagged ↦ inr (0, rw flagged (ap some (omega arith)), (c, refl, flagged, tt))
  | inr plain ↦ elim (find_pk_lem (suc k) cs) [
    | inl (e, a) ↦ inl (rw plain e, (plain, a))
    | inr (i, e, (d, here, flagged, before)) ↦
        inr (suc i, rw plain (e ∙ ap some (omega arith)), (d, here, flagged, (plain, before)))
  ]
]

find_pk-IsKey : (cs : List ColumnDef) → IsKey cs (find_pk 0 cs)
find_pk-IsKey cs = elim (find_pk_lem 0 cs) [
  | inl (e, k) ↦ rw e k
  | inr (i, e, k) ↦ (let there : find_pk 0 cs ≡ some i = e ∙ ap some (omega arith) in rw there k)
]

new_schema-IsSchema :
    (reg : SchemaRegistry) (name : CStr) (args : List ColumnArg) (cs : List ColumnDef)
    → Acceptable reg name args cs
    → IsSchema (new_schema name cs)
new_schema-IsSchema reg name args cs a =
    let e = length-copies args cs a.copies in
    record {
      identifier = a.identifier;
      columns = a.columns;
      nonempty = omega (arith, e, a.nonempty);
      bounded = omega (arith, e, a.bounded);
      key = find_pk-IsKey cs;
    }

distinct-append :
    (ss : List Schema) (s : Schema)
    → AreDistinct ss
    → lookup s.name ss ≡ none
    → AreDistinct (ss ++ s ∷ [])
unfolding lookup
distinct-append [] s d h = (tt, tt)
distinct-append (t ∷ ss) s d h = elim (Bool-cases (str_eq t.name s.name)) [
  | inl same ↦ cc (rw (same, lookup) at h)
  | inr other ↦ (
    All-append (λ u. u.name ≢ t.name) ss (s ∷ []) d.0
        (λ e. cc (other, (str_eq_iff t.name s.name).1 (sym e)), tt),
    distinct-append ss s d.1 (rw (other, lookup) at h),
  )
]

grow_room :
    (reg : SchemaRegistry) (m : Memory)
    → length reg.entries ≤ reg.capacity
    → (length (registry_grow reg m).1.entries ≤ (registry_grow reg m).1.capacity)
      × ((registry_grow reg m).0 ≡ true
          → length (registry_grow reg m).1.entries + 1 ≤ (registry_grow reg m).1.capacity)
unfolding registry_grow
grow_room reg m h = ground arith

add_room :
    (name : CStr) (cols : List ColumnDef) (r : Bool × SchemaRegistry × Memory)
    → length r.1.entries ≤ r.1.capacity
    → (r.0 ≡ true → length r.1.entries + 1 ≤ r.1.capacity)
    → length (add_entry name cols r).registry.entries ≤ (add_entry name cols r).registry.capacity
unfolding add_entry
add_room name cols (false, reg, m) h k = h
add_room name cols (true, reg, m) h k = elim (Bool-cases (alloc_all (length cols + 2) m).0) [
  | inl got ↦ rw got (omega (arith, k refl, length-append reg.entries (new_schema name cols ∷ [])))
  | inr short ↦ rw short h
]

check_room :
    (reg : SchemaRegistry) (name : CStr) (m : Memory) (r : SqlRdbResult) (cols : List ColumnDef)
    → length reg.entries ≤ reg.capacity
    → length (after_check reg name m (r, cols)).registry.entries
      ≤ (after_check reg name m (r, cols)).registry.capacity
unfolding after_check
check_room reg name m r cols h = elim (Bool-cases (is_ok r)) [
  | inl fine ↦
      rw fine (add_room name cols (registry_grow reg m) (grow_room reg m h).0 (grow_room reg m h).1)
  | inr bad ↦ rw bad h
]

register_room :
    (reg : SchemaRegistry) (name : Option CStr) (args : Option (List ColumnArg)) (m : Memory)
    → length reg.entries ≤ reg.capacity
    → length (register reg name args m).registry.entries
      ≤ (register reg name args m).registry.capacity
unfolding register register_named
register_room reg none args m h = h
register_room reg (some name) none m h = h
register_room reg (some name) (some args) m h =
    ground (arith, check_room reg name m (check_columns [] args).0 (check_columns [] args).1 h)

register-IsRegistry :
    (reg : SchemaRegistry) (name : Option CStr) (args : Option (List ColumnArg)) (m : Memory)
    → IsRegistry reg
    → IsRegistry (register reg name args m).registry
register-IsRegistry reg (some name) (some args) m v =
    elim (Bool-cases (is_ok (register reg (some name) (some args) m).code)) [
      | inl fine ↦
          let (cs, a, e) = register_sound reg name args m (is_ok_lem fine) in
          record {
            schemas = rw e (
                All-append IsSchema reg.entries (new_schema name cs ∷ []) v.schemas
                  (new_schema-IsSchema reg name args cs a, tt));
            distinct = rw e (distinct-append reg.entries (new_schema name cs) v.distinct a.unused);
            room = register_room reg (some name) (some args) m v.room;
          }
      | inr bad ↦
          let e = register_failure reg (some name) (some args) m (λ h. cc (h, bad)) in
          record {
            schemas = rw e v.schemas;
            distinct = rw e v.distinct;
            room = register_room reg (some name) (some args) m v.room;
          }
    ]
register-IsRegistry reg (some name) none m v = unfold register in v
register-IsRegistry reg none args m v = unfold register in v

remove-All :
    (P : Schema → Type 0) (name : CStr) (ss : List Schema) → All P ss → All P (remove name ss)
unfolding remove
remove-All P name [] a = tt
remove-All P name (s ∷ ss) a = elim (Bool-cases (str_eq s.name name)) [
  | inl hit ↦ rw (hit, remove) a.1
  | inr miss ↦ rw (miss, remove) (a.0, remove-All P name ss a.1)
]

remove-AreDistinct :
    (name : CStr) (ss : List Schema) → AreDistinct ss → AreDistinct (remove name ss)
unfolding remove
remove-AreDistinct name [] d = tt
remove-AreDistinct name (s ∷ ss) d = elim (Bool-cases (str_eq s.name name)) [
  | inl hit ↦ rw (hit, remove) d.1
  | inr miss ↦
      rw (miss, remove)
        (remove-All (λ t. t.name ≢ s.name) name ss d.0, remove-AreDistinct name ss d.1)
]

length-remove-le : (name : CStr) (ss : List Schema) → length (remove name ss) ≤ length ss
unfolding remove
length-remove-le name [] = omega arith
length-remove-le name (s ∷ ss) = ground (arith, length-remove-le name ss)

unregister-IsRegistry :
    (reg : SchemaRegistry) (name : Option CStr)
    → IsRegistry reg
    → IsRegistry (unregister reg name).1
unfolding unregister
unregister-IsRegistry reg none v = v
unregister-IsRegistry reg (some name) v = elim (Bool-cases (is_some (lookup name reg.entries))) [
  | inl found ↦ rw found (record {
    schemas = remove-All IsSchema name reg.entries v.schemas;
    distinct = remove-AreDistinct name reg.entries v.distinct;
    room = omega (arith, length-remove-le name reg.entries, v.room);
  })
  | inr missing ↦ rw missing v
]

serve-IsRegistry : (reg : SchemaRegistry) (q : Request) → IsRegistry reg → IsRegistry (serve reg q)
unfolding serve
serve-IsRegistry reg (registers name cols m) v = register-IsRegistry reg name cols m v
serve-IsRegistry reg (unregisters name) v = unregister-IsRegistry reg name v

run_keeps : (reg : SchemaRegistry) (qs : List Request) → IsRegistry reg → IsRegistry (run reg qs)
unfolding run
run_keeps reg [] v = v
run_keeps reg (q ∷ qs) v = run_keeps (serve reg q) qs (serve-IsRegistry reg q v)

-- Whatever is registered and unregistered, with whatever arguments and allocator, the registry
-- holds well-formed schemas under different names, within its capacity.
pub run-IsRegistry : (qs : List Request) → IsRegistry (run empty_registry qs)
run-IsRegistry qs =
    run_keeps empty_registry qs (record { schemas = tt; distinct = tt; room = omega arith })

-- The byte is not the quotation mark around an identifier in SQL.
abbrev pub IsPlain : CStr → Type 0
IsPlain = All (λ c. c ≢ b'"')

part-ne : (c : ℕ) → IsPart c → c ≢ b'"'
part-ne c h e = ground arith

parts-IsPlain : (s : CStr) → All IsPart s → IsPlain s
parts-IsPlain [] a = tt
parts-IsPlain (c ∷ s) a = (part-ne c a.0, parts-IsPlain s a.1)

ident-IsPlain : (name : CStr) → IsIdentifier name → IsPlain name
ident-IsPlain [] i = absurd i
ident-IsPlain (c ∷ s) i = (part-ne c (inl i.0), parts-IsPlain s i.1)

columns-IsPlain : (seen cs : List ColumnDef) → AreColumns seen cs → All (λ c. IsPlain c.name) cs
columns-IsPlain seen [] v = tt
columns-IsPlain seen (c ∷ cs) v =
    (ident-IsPlain c.name v.0.0, columns-IsPlain (seen ++ c ∷ []) cs v.1)

schemas-IsPlain :
    (ss : List Schema)
    → All IsSchema ss
    → All (λ s. IsPlain s.name × All (λ c. IsPlain c.name) s.cols) ss
schemas-IsPlain [] a = tt
schemas-IsPlain (s ∷ ss) a = (
  (ident-IsPlain s.name a.0.identifier, columns-IsPlain [] s.cols a.0.columns),
  schemas-IsPlain ss a.1,
)

-- No name that a registry can come to hold, of a table or of a column, has a quotation mark in it,
-- so a quoted name in the generated SQL ends where it is meant to.
pub run-IsPlain :
    (qs : List Request)
    → All (λ s. IsPlain s.name × All (λ c. IsPlain c.name) s.cols) (run empty_registry qs).entries
run-IsPlain qs = schemas-IsPlain (run empty_registry qs).entries (run-IsRegistry qs).schemas
