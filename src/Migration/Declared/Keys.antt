-- ===== src/Migration/Declared/Keys.antt =====
-- The marks that `read_table_info_pg` of src/migration.c puts on the columns.
use c2sql.Prelude.{
  ◌≡◌, ◌↔◌, ◌⊎◌, refl, CStr, true, List, [], ◌∷◌, inl, inr, Bool-cases, map, str_eq, str_eq_iff,
}
use c2sql.Migration.{DbCol}
use c2sql.Migration.Reads.{mark_pk, mark_unique, mark_each}
use c2sql.Migration.Declared.{In, Zip}

-- A column before and after the marks: the key, and what is unique, by name.
pub record IsKeyed (keys uniques : List CStr) (c c' : DbCol) : Type 0 where
  pub name : c'.name ≡ c.name
  pub type_class : c'.type_class ≡ c.type_class
  pub notnull : c'.notnull ≡ c.notnull
  pub pk : (c'.pk ≡ true) ↔ ((c.pk ≡ true) ⊎ In c.name keys)
  pub unique : c'.is_unique ≡ true → (c.is_unique ≡ true) ⊎ In c.name uniques

abbrev pub AreKeyed : List CStr → List CStr → List DbCol → List DbCol → Type 0
AreKeyed keys uniques = Zip (IsKeyed keys uniques)

mark_pk-IsKeyed :
    (keys : List CStr) (name : CStr) (c d : DbCol)
    → IsKeyed keys [] (mark_pk name c) d
    → IsKeyed (name ∷ keys) [] c d
mark_pk-IsKeyed keys name c d k = elim (Bool-cases (str_eq c.name name)) [
  | inl here ↦
      let same : c.name ≡ name = (str_eq_iff c.name name).0 here in
      let m = rw here at k in
      record {
        name = m.name;
        type_class = m.type_class;
        notnull = m.notnull;
        pk = (λ h. inr (inl same), λ h. m.pk.1 (inl refl));
        unique = m.unique;
      }
  | inr there ↦
      let m = rw there at k in
      record {
        name = m.name;
        type_class = m.type_class;
        notnull = m.notnull;
        pk = (
          λ h. elim (m.pk.0 h) [ inl was ↦ inl was | inr later ↦ inr (inr later) ],
          λ h. elim h [
            | inl was ↦ m.pk.1 (inl was)
            | inr (inl same) ↦ cc ((str_eq_iff c.name name).1 same, there)
            | inr (inr later) ↦ m.pk.1 (inr later)
          ],
        );
        unique = m.unique;
      }
]

mark_unique-IsKeyed :
    (uniques : List CStr) (name : CStr) (c d : DbCol)
    → IsKeyed [] uniques (mark_unique name c) d
    → IsKeyed [] (name ∷ uniques) c d
mark_unique-IsKeyed uniques name c d k = elim (Bool-cases (str_eq c.name name)) [
  | inl here ↦
      let same : c.name ≡ name = (str_eq_iff c.name name).0 here in
      let m = rw here at k in
      record {
        name = m.name;
        type_class = m.type_class;
        notnull = m.notnull;
        pk = m.pk;
        unique = λ h. inr (inl same);
      }
  | inr there ↦
      let m = rw there at k in
      record {
        name = m.name;
        type_class = m.type_class;
        notnull = m.notnull;
        pk = m.pk;
        unique = λ h. elim (m.unique h) [ inl was ↦ inl was | inr later ↦ inr (inr later) ];
      }
]

IsKeyed-refl : (c : DbCol) → IsKeyed [] [] c c
IsKeyed-refl c = record {
  name = refl;
  type_class = refl;
  notnull = refl;
  pk = (λ h. inl h, λ h. elim h [ inl was ↦ was | inr n ↦ absurd n ]);
  unique = λ h. inl h;
}

Zip-map :
    (P Q : DbCol → DbCol → Type 0) (f : DbCol → DbCol)
    → ((c d : DbCol) → P (f c) d → Q c d)
    → (cs ds : List DbCol) → Zip P (map f cs) ds
    → Zip Q cs ds
Zip-map P Q f step [] [] z = tt
Zip-map P Q f step [] (d ∷ ds) z = absurd z
Zip-map P Q f step (c ∷ cs) [] z = absurd z
Zip-map P Q f step (c ∷ cs) (d ∷ ds) z = (step c d z.0, Zip-map P Q f step cs ds z.1)

Zip-IsKeyed : (cs : List DbCol) → AreKeyed [] [] cs cs
Zip-IsKeyed [] = tt
Zip-IsKeyed (c ∷ cs) = (IsKeyed-refl c, Zip-IsKeyed cs)

pub mark_each-mark_pk :
    (keys : List CStr) (cs : List DbCol) → AreKeyed keys [] cs (mark_each mark_pk keys cs)
unfolding mark_each
mark_each-mark_pk [] cs = Zip-IsKeyed cs
mark_each-mark_pk (name ∷ keys) cs =
    Zip-map (IsKeyed keys []) (IsKeyed (name ∷ keys) []) (mark_pk name) (mark_pk-IsKeyed keys name)
      cs _ (mark_each-mark_pk keys (map (mark_pk name) cs))

pub mark_each-mark_unique :
    (uniques : List CStr) (cs : List DbCol)
    → AreKeyed [] uniques cs (mark_each mark_unique uniques cs)
unfolding mark_each
mark_each-mark_unique [] cs = Zip-IsKeyed cs
mark_each-mark_unique (name ∷ uniques) cs =
    Zip-map (IsKeyed [] uniques) (IsKeyed [] (name ∷ uniques)) (mark_unique name)
      (mark_unique-IsKeyed uniques name) cs _
      (mark_each-mark_unique uniques (map (mark_unique name) cs))
