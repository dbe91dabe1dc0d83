-- ===== src/Migration/Declared/Classes.antt =====
-- The class of a declared type, by the words that stand in it: apart from how src/migration.c finds them.
use mathlib.Core.Path.{subst}
use c2sql.Prelude.{
  ℕ, zero, suc, ◌≤◌, ◌≡◌, ◌↔◌, ◌⊎◌, ◌∙◌, refl, sym, ap, CStr, Bool, true, false, ◌||◌, Option, List,
  [], ◌∷◌, ◌++◌, arith, inl, inr, Bool-cases, if◌then◌else◌, length, length-append, take, map, lit,
}
use c2sql.Types.{SqlRdbType, int32, int64, real, text, blob}
use c2sql.Registry.Identifier.{to_upper}
use c2sql.Registry.Identifier.Exact.{capital, map-to_upper-capital}
use c2sql.Migration.{
  starts_with, contains, schema_type_class, type_class_from_str, type_class_from_pg,
}
use c2sql.Migration.Steps.{buffered}
use c2sql.Migration.Declared.{Reads, buffered-Reads}

-- The word stands somewhere in the text.
abbrev pub HasPart : CStr → CStr → Type 0
HasPart word s = (before : CStr) × (after : CStr) × (s ≡ before ++ (word ++ after))

abbrev pub HasAny : List CStr → CStr → Type 0
HasAny [] s = ⊥
HasAny (w ∷ ws) s = HasPart w s ⊎ HasAny ws s

starts_with_sound :
    (word s : CStr) → starts_with word s ≡ true → (after : CStr) × (s ≡ word ++ after)
unfolding starts_with
starts_with_sound [] s h = (s, refl)
starts_with_sound (k ∷ ks) [] h = cc
starts_with_sound (k ∷ ks) (b ∷ s) h =
    let (after, e) = starts_with_sound ks s (ground (arith, h)) in
    let same : b ≡ k = ground (arith, h) in (after, rw (same, e) refl)

starts_with_complete : (word after : CStr) → starts_with word (word ++ after) ≡ true
unfolding starts_with
starts_with_complete [] after = refl
starts_with_complete (k ∷ ks) after = ground (arith, starts_with_complete ks after)

contains_sound : (word s : CStr) → contains word s ≡ true → HasPart word s
unfolding contains
contains_sound word [] h = let (after, e) = starts_with_sound word [] h in ([], after, e)
contains_sound word (b ∷ s) h = elim (Bool-cases (starts_with word (b ∷ s))) [
  | inl here ↦ let (after, e) = starts_with_sound word (b ∷ s) here in ([], after, e)
  | inr later ↦
      let (before, after, e) = contains_sound word s (ground (arith, h, later)) in
      (b ∷ before, after, ap (λ t. b ∷ t) e)
]

contains_complete : (word before after : CStr) → contains word (before ++ (word ++ after)) ≡ true
unfolding contains starts_with
contains_complete word (b ∷ before) after = ground (arith, contains_complete word before after)
contains_complete [] [] [] = refl
contains_complete [] [] (b ∷ after) = refl
contains_complete (k ∷ ks) [] after = ground (arith, starts_with_complete (k ∷ ks) after)

pub contains_iff : (word s : CStr) → (contains word s ≡ true) ↔ HasPart word s
contains_iff word s = (
  contains_sound word s,
  λ p. let (before, after, e) = p in rw e (contains_complete word before after),
)

-- The class of a declared type, by words that stand in it: those of the integers come first.
abbrev pub IsClass : List CStr → List CStr → List CStr → CStr → SqlRdbType → Type 0
IsClass ints reals blobs s int32 = HasAny ints s
IsClass ints reals blobs s int64 = HasAny ints s
IsClass ints reals blobs s real = ¬ HasAny ints s × HasAny reals s
IsClass ints reals blobs s blob = ¬ HasAny ints s × ¬ HasAny reals s × HasAny blobs s
IsClass ints reals blobs s text = ¬ HasAny ints s × ¬ HasAny reals s × ¬ HasAny blobs s

abbrev pub class_by : Bool → Bool → Bool → SqlRdbType
class_by i r b = if i then int64 else if r then real else if b then blob else text

class_by-IsClass :
    (ints reals blobs : List CStr) (s : CStr) (i r b : Bool)
    → ((i ≡ true) ↔ HasAny ints s)
    → ((r ≡ true) ↔ HasAny reals s)
    → ((b ≡ true) ↔ HasAny blobs s)
    → IsClass ints reals blobs s (class_by i r b)
class_by-IsClass ints reals blobs s true r b hi hr hb = hi.0 refl
class_by-IsClass ints reals blobs s false true b hi hr hb = (λ p. cc (hi.1 p), hr.0 refl)
class_by-IsClass ints reals blobs s false false true hi hr hb =
    (λ p. cc (hi.1 p), λ p. cc (hr.1 p), hb.0 refl)
class_by-IsClass ints reals blobs s false false false hi hr hb =
    (λ p. cc (hi.1 p), λ p. cc (hr.1 p), λ p. cc (hb.1 p))

-- The integers have one class.
schema_type_class-IsClass :
    (ints reals blobs : List CStr) (s : CStr) (t : SqlRdbType)
    → IsClass ints reals blobs s (schema_type_class t)
    → IsClass ints reals blobs s t
unfolding schema_type_class
schema_type_class-IsClass ints reals blobs s int32 c = c
schema_type_class-IsClass ints reals blobs s int64 c = c
schema_type_class-IsClass ints reals blobs s real c = c
schema_type_class-IsClass ints reals blobs s text c = c
schema_type_class-IsClass ints reals blobs s blob c = c

abbrev any : List CStr → CStr → Bool
any [] s = false
any (w ∷ ws) s = contains w s || any ws s

any_iff : (ws : List CStr) (s : CStr) → (any ws s ≡ true) ↔ HasAny ws s
any_iff [] s = (λ h. cc, λ p. absurd p)
any_iff (w ∷ ws) s = (
  λ h. elim (Bool-cases (contains w s)) [
    | inl found ↦ inl ((contains_iff w s).0 found)
    | inr missing ↦ inr ((any_iff ws s).0 (ground (arith, h, missing)))
  ],
  λ p. elim p [
    | inl here ↦ ground (arith, (contains_iff w s).1 here)
    | inr later ↦ ground (arith, (any_iff ws s).1 later)
  ],
)

any_by : (ws : List CStr) (s : CStr) (b : Bool) → b ≡ any ws s → (b ≡ true) ↔ HasAny ws s
any_by ws s b e = rw e (any_iff ws s)

one_iff : (v s : CStr) → (contains v s ≡ true) ↔ HasAny (v ∷ []) s
one_iff v s = any_by (v ∷ []) s (contains v s) (ground arith)

three_iff :
    (u v w s : CStr)
    → ((contains u s || contains v s || contains w s) ≡ true) ↔ HasAny (u ∷ v ∷ w ∷ []) s
three_iff u v w s =
    any_by (u ∷ v ∷ w ∷ []) s (contains u s || contains v s || contains w s) (ground arith)

four_iff :
    (t u v w s : CStr)
    → ((contains t s || contains u s || contains v s || contains w s) ≡ true)
      ↔ HasAny (t ∷ u ∷ v ∷ w ∷ []) s
four_iff t u v w s =
    any_by (t ∷ u ∷ v ∷ w ∷ []) s (contains t s || contains u s || contains v s || contains w s)
      (ground arith)

take-all : {A : Type 0} (n : ℕ) (xs : List A) → length xs ≤ n → take n xs ≡ xs
take-all zero [] h = refl
take-all zero (x ∷ xs) h = absurd (omega (arith, h))
take-all (suc n) [] h = refl
take-all (suc n) (x ∷ xs) h = ap (λ t. x ∷ t) (take-all n xs (omega (arith, h)))

Reads-length : (size : ℕ) (t : Option CStr) (s : CStr) → Reads (suc size) t s → length s ≤ size
Reads-length size t s (inr (d, e)) = rw e (omega arith)
Reads-length size t s (inl (bytes, e, low, (clean, inl whole))) = rw⁻¹ whole (omega (arith, low))
Reads-length size t s (inl (bytes, e, low, (clean, inr (rest, cut)))) =
    omega (arith, length-append s (0 ∷ rest), low, ap length cut)

-- What SQLite calls the types of a table.
abbrev pub IsSqliteClass : CStr → SqlRdbType → Type 0
IsSqliteClass s =
    IsClass (lit "INT" ∷ []) (lit "REAL" ∷ lit "FLOA" ∷ lit "DOUB" ∷ []) (lit "BLOB" ∷ [])
      (map capital s)

pub type_class_from_str-IsSqliteClass :
    (t : Option CStr) → IsSqliteClass (buffered 32 t) (type_class_from_str (buffered 32 t))
unfolding type_class_from_str
type_class_from_str-IsSqliteClass t =
    let s = buffered 32 t in
    let whole : take 31 s ≡ s = take-all 31 s (Reads-length 31 t s (buffered-Reads 32 t)) in
    let up = map capital s in
    let same : map to_upper (take 31 s) ≡ up = ap (map to_upper) whole ∙ map-to_upper-capital s in
    rw same (
      class_by-IsClass (lit "INT" ∷ []) (lit "REAL" ∷ lit "FLOA" ∷ lit "DOUB" ∷ [])
        (lit "BLOB" ∷ []) up _ _ _ (one_iff (lit "INT") up)
        (three_iff (lit "REAL") (lit "FLOA") (lit "DOUB") up) (one_iff (lit "BLOB") up))

-- What PostgreSQL calls them.
abbrev pub IsPostgresClass : CStr → SqlRdbType → Type 0
IsPostgresClass =
    IsClass (lit "int" ∷ []) (lit "double" ∷ lit "real" ∷ lit "numeric" ∷ lit "float" ∷ [])
      (lit "bytea" ∷ [])

pub type_class_from_pg-IsPostgresClass : (s : CStr) → IsPostgresClass s (type_class_from_pg s)
unfolding type_class_from_pg
type_class_from_pg-IsPostgresClass s =
    class_by-IsClass (lit "int" ∷ []) (lit "double" ∷ lit "real" ∷ lit "numeric" ∷ lit "float" ∷ [])
      (lit "bytea" ∷ []) s _ _ _ (one_iff (lit "int") s)
      (four_iff (lit "double") (lit "real") (lit "numeric") (lit "float") s)
      (one_iff (lit "bytea") s)

pub sqlite_class_by :
    (s : CStr) (t class : SqlRdbType)
    → schema_type_class t ≡ class
    → IsSqliteClass s class
    → IsSqliteClass s t
sqlite_class_by s t class e c =
    schema_type_class-IsClass (lit "INT" ∷ []) (lit "REAL" ∷ lit "FLOA" ∷ lit "DOUB" ∷ [])
      (lit "BLOB" ∷ []) (map capital s) t (subst (IsSqliteClass s) (sym e) c)

pub postgres_class_by :
    (s : CStr) (t class : SqlRdbType)
    → schema_type_class t ≡ class
    → IsPostgresClass s class
    → IsPostgresClass s t
postgres_class_by s t class e c =
    schema_type_class-IsClass (lit "int" ∷ [])
      (lit "double" ∷ lit "real" ∷ lit "numeric" ∷ lit "float" ∷ []) (lit "bytea" ∷ []) s t
      (subst (IsPostgresClass s) (sym e) c)
