-- ===== src/Migration/Declared/Marks.antt =====
-- The marks that `apply_unique_flags` of src/migration.c puts on the columns.
use c2sql.Prelude.{
  ◌≡◌, ◌⊎◌, ◌∙◌, refl, CStr, true, List, [], ◌∷◌, inl, inr, Bool-cases, str_eq, str_eq_iff,
}
use c2sql.Migration.{DbCol}
use c2sql.Migration.Reads.{mark_first, mark_single}
use c2sql.Migration.Layout.{Answers, refs_of, marked}
use c2sql.Migration.Declared.{In, Zip}

-- A column before and after its marks: where it is marked, it was, or the name has the property.
pub record IsMarked (P : CStr → Type 0) (c c' : DbCol) : Type 0 where
  pub name : c'.name ≡ c.name
  pub type_class : c'.type_class ≡ c.type_class
  pub notnull : c'.notnull ≡ c.notnull
  pub pk : c'.pk ≡ c.pk
  pub unique : c'.is_unique ≡ true → (c.is_unique ≡ true) ⊎ P c.name

IsMarked-refl : (P : CStr → Type 0) (c : DbCol) → IsMarked P c c
IsMarked-refl P c = record {
  name = refl;
  type_class = refl;
  notnull = refl;
  pk = refl;
  unique = λ h. inl h;
}

Zip-IsMarked : (P : CStr → Type 0) (cs : List DbCol) → Zip (IsMarked P) cs cs
Zip-IsMarked P [] = tt
Zip-IsMarked P (c ∷ cs) = (IsMarked-refl P c, Zip-IsMarked P cs)

mark_first-IsMarked :
    (P : CStr → Type 0) (name : CStr) (cs : List DbCol)
    → P name
    → Zip (IsMarked P) cs (mark_first name cs)
unfolding mark_first
mark_first-IsMarked P name [] p = tt
mark_first-IsMarked P name (c ∷ cs) p = elim (Bool-cases (str_eq c.name name)) [
  | inl here ↦
      let same : c.name ≡ name = (str_eq_iff c.name name).0 here in
      rw here (
        record {
          name = refl;
          type_class = refl;
          notnull = refl;
          pk = refl;
          unique = λ h. inr (rw same p);
        },
        Zip-IsMarked P cs,
      )
  | inr there ↦ rw there (IsMarked-refl P c, mark_first-IsMarked P name cs p)
]

mark_single-IsMarked :
    (P : CStr → Type 0) (refs : List CStr) (cs : List DbCol)
    → ((name : CStr) → refs ≡ name ∷ [] → P name)
    → Zip (IsMarked P) cs (mark_single refs cs)
mark_single-IsMarked P [] cs p = Zip-IsMarked P cs
mark_single-IsMarked P (name ∷ []) cs p = mark_first-IsMarked P name cs (p name refl)
mark_single-IsMarked P (name ∷ n ∷ names) cs p = Zip-IsMarked P cs

Zip-trans :
    (P : CStr → Type 0) (xs bs cs : List DbCol)
    → Zip (IsMarked P) xs bs
    → Zip (IsMarked P) bs cs
    → Zip (IsMarked P) xs cs
Zip-trans P [] [] [] y z = tt
Zip-trans P (a ∷ xs) (b ∷ bs) (c ∷ cs) y z = (
  record {
    name = z.0.name ∙ y.0.name;
    type_class = z.0.type_class ∙ y.0.type_class;
    notnull = z.0.notnull ∙ y.0.notnull;
    pk = z.0.pk ∙ y.0.pk;
    unique =
        λ h. elim (z.0.unique h) [ inl before ↦ y.0.unique before | inr p ↦ inr (rw⁻¹ y.0.name p) ];
  },
  Zip-trans P xs bs cs y.1 z.1,
)
Zip-trans P [] [] (c ∷ cs) y z = absurd z
Zip-trans P [] (b ∷ bs) cs y z = absurd y
Zip-trans P (a ∷ xs) [] cs y z = absurd y
Zip-trans P (a ∷ xs) (b ∷ bs) [] y z = absurd z

pub marked-IsMarked :
    (P : CStr → Type 0) (answer : Answers) (names : List CStr) (cs : List DbCol)
    → ((index name : CStr) → In index names → refs_of index answer ≡ name ∷ [] → P name)
    → Zip (IsMarked P) cs (marked names answer cs)
marked-IsMarked P answer [] cs p = Zip-IsMarked P cs
marked-IsMarked P answer (index ∷ names) cs p =
    let once = mark_single (refs_of index answer) cs in
    Zip-trans P cs once (marked names answer once)
      (mark_single-IsMarked P (refs_of index answer) cs (λ name e. p index name (inl refl) e))
      (marked-IsMarked P answer names once (λ i name here e. p i name (inr here) e))
