-- ===== src/Migration/Compare.antt =====
-- What the comparison of columns in src/migration.c decides.
use c2sql.Prelude.{
  ℕ, ◌≡◌, ◌↔◌, Bool, true, false, not, List, [], ◌∷◌, arith, inl, inr, Bool-cases, ◌==◌,
  if◌then◌else◌, length, str_eq_iff,
}
use c2sql.Types.{SqlRdbType, ColumnDef, has_flag, flag_nullable, flag_primary_key, flag_unique}
use c2sql.Migration.{DbCol, schema_type_class, same_type, same_bool, compare_columns}
use c2sql.Migration.Table.{prefix_matches}

-- The column of the table is the one that the schema defines. What is unique may also not be asked for,
-- and a primary key need not be marked as unique.
pub record IsSame (sc : ColumnDef) (dc : DbCol) : Type 0 where
  pub name : sc.name ≡ dc.name
  pub type_class : schema_type_class sc.type ≡ dc.type_class
  pub notnull : not (has_flag sc flag_nullable) ≡ dc.notnull
  pub pk : has_flag sc flag_primary_key ≡ dc.pk
  pub unique :
      has_flag sc flag_unique ≡ true → has_flag sc flag_primary_key ≡ false → dc.is_unique ≡ true

same_type_iff : (a b : SqlRdbType) → (same_type a b ≡ true) ↔ (a ≡ b)
unfolding same_type
same_type_iff a b = ground arith

same_bool_iff : (a b : Bool) → (same_bool a b ≡ true) ↔ (a ≡ b)
same_bool_iff a b = ground arith

five_tests :
    (a b c d e : Bool)
    → let n : ℕ =
        if not a
        then 1
        else if not b
        then 2
        else if not c
        then 3
        else if not d
        then 4
        else if e
        then 5
        else 0 in
      n ≡ 0 → (a ≡ true) × (b ≡ true) × (c ≡ true) × (d ≡ true) × (e ≡ false)
five_tests a b c d e h = ground arith

pub compare_columns_sound : (sc : ColumnDef) (dc : DbCol) → compare_columns sc dc ≡ 0 → IsSame sc dc
unfolding compare_columns
compare_columns_sound sc dc h =
    let pk = has_flag sc flag_primary_key in
    let (n, t, u, k, e) = five_tests _ _ _ _ _ h in
    record {
      name = (str_eq_iff sc.name dc.name).0 n;
      type_class = (same_type_iff (schema_type_class sc.type) dc.type_class).0 t;
      notnull = (same_bool_iff (not (has_flag sc flag_nullable)) dc.notnull).0 u;
      pk = (same_bool_iff pk dc.pk).0 k;
      unique = λ un no_key. ground (arith, e, un, no_key);
    }

-- The columns are the same, one for one.
abbrev pub AreSame : List ColumnDef → List DbCol → Type 0
AreSame [] [] = Unit
AreSame (sc ∷ scs) (dc ∷ dcs) = IsSame sc dc × AreSame scs dcs
AreSame _ _ = ⊥

pub prefix_matches_sound :
    (scs : List ColumnDef) (dcs : List DbCol)
    → prefix_matches scs dcs ≡ true
    → length dcs ≡ length scs
    → AreSame scs dcs
unfolding prefix_matches
prefix_matches_sound [] [] m e = tt
prefix_matches_sound [] (dc ∷ dcs) m e = absurd (omega (arith, e))
prefix_matches_sound (sc ∷ scs) [] m e = absurd (omega (arith, e))
prefix_matches_sound (sc ∷ scs) (dc ∷ dcs) m e = elim (Bool-cases (compare_columns sc dc == 0)) [
  | inl same ↦ (
    compare_columns_sound sc dc (ground (arith, same)),
    prefix_matches_sound scs dcs (rw same at m) (omega (arith, e)),
  )
  | inr other ↦ let no_match : false ≡ true = rw other at m in cc
]
