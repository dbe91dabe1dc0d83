-- ===== src/Registry/Identifier/Exact.antt =====
-- `identifier_valid` of src/schema_registry.c against a description of identifiers.
use c2sql.Prelude.{
  and_true, not-true, ℕ, suc, ◌+◌, ◌≤◌, ◌≡◌, refl, ◌≢◌, ◌↔◌, CStr, true, false, not, List, [], ◌∷◌,
  map, lit, str_eq, str_eq_iff, length, String, All, leb, ◌⊎◌, ◌-◌, ◌&&◌, ◌==◌, if◌then◌else◌, ◌++◌,
  arith, inl, inr, Bool-cases,
}
use c2sql.Registry.Identifier.{
  starts_ident, in_ident, to_upper, max_ident_len, reserved_words, is_reserved, scan, valid_chars,
  identifier_valid,
}

-- A letter of ASCII, or the underscore.
abbrev pub IsLetter : ℕ → Type 0
IsLetter c = ((65 ≤ c) × (c ≤ 90)) ⊎ ((97 ≤ c) × (c ≤ 122)) ⊎ (c ≡ 95)

-- A letter, a digit or the underscore.
abbrev pub IsPart : ℕ → Type 0
IsPart c = IsLetter c ⊎ ((48 ≤ c) × (c ≤ 57))

abbrev pub capital : ℕ → ℕ
capital c = if leb 97 c && leb c 122 then c - 32 else c

-- The first word of a text and the words after it, at every space.
abbrev words : CStr → CStr × List CStr
words [] = ([], [])
words (c ∷ s) = let (w, ws) = words s in if c == 32 then ([], w ∷ ws) else (c ∷ w, ws)

abbrev all_words : List String → List CStr
all_words [] = []
all_words (l ∷ ls) = (words (lit l)).0 ∷ (words (lit l)).1 ++ all_words ls

-- Keywords of SQLite.
unfoldable pub keywords : List CStr
keywords = all_words (
    "ABORT ACTION ADD AFTER ALL ALTER ALWAYS ANALYZE AND AS ASC ATTACH AUTOINCREMENT"
    ∷ "BEFORE BEGIN BETWEEN BY CASCADE CASE CAST CHECK COLLATE COLUMN COMMIT CONFLICT"
    ∷ "CONSTRAINT CREATE CROSS CURRENT CURRENT_DATE CURRENT_TIME CURRENT_TIMESTAMP DATABASE"
    ∷ "DEFAULT DEFERRABLE DEFERRED DELETE DETACH DISTINCT DO DROP EACH ELSE END ESCAPE"
    ∷ "EXCEPT EXCLUDE EXCLUSIVE EXISTS EXPLAIN FAIL FILTER FIRST FOLLOWING FOR FOREIGN FROM"
    ∷ "FULL GENERATED GLOB GROUP GROUPS HAVING IF IGNORE IMMEDIATE IN INDEX INDEXED"
    ∷ "INITIALLY INNER INSERT INSTEAD INTERSECT INTO IS ISNULL JOIN KEY LAST LEFT LIKE"
    ∷ "LIMIT MATCH MATERIALIZED NATURAL NO NOT NOTHING NOTNULL NULL NULLS OF OFFSET ON OR"
    ∷ "ORDER OTHERS OUTER OVER PARTITION PLAN PRAGMA PRECEDING PRIMARY QUERY RAISE RANGE"
    ∷ "RECURSIVE REFERENCES REGEXP REINDEX RELEASE RENAME REPLACE RESTRICT RETURNING RIGHT"
    ∷ "ROLLBACK ROW ROWS SAVEPOINT SELECT SET TABLE TEMP TEMPORARY THEN TIES TO TRANSACTION"
    ∷ "TRIGGER UNBOUNDED UNION UNIQUE UPDATE USING VACUUM VALUES VIEW VIRTUAL WHEN WHERE"
    ∷ "WINDOW WITH WITHOUT" ∷ [])

-- A letter or underscore, then letters, digits and underscores, at most 128 in all, and in capitals
-- none of the keywords.
abbrev pub IsIdentifier : CStr → Type 0
IsIdentifier [] = ⊥
IsIdentifier (c ∷ s) =
    IsLetter c × All IsPart s × (length s + 1 ≤ 128) × All (λ w. map capital (c ∷ s) ≢ w) keywords

starts_ident_iff : (c : ℕ) → (starts_ident c ≡ true) ↔ IsLetter c
unfolding starts_ident
starts_ident_iff c = (λ h. ground arith, λ h. ground arith)

in_ident_iff : (c : ℕ) → (in_ident c ≡ true) ↔ IsPart c
unfolding in_ident
in_ident_iff c = (λ h. ground arith, λ h. ground arith)

to_upper-capital : (c : ℕ) → to_upper c ≡ capital c
unfolding to_upper
to_upper-capital c = ground arith

pub map-to_upper-capital : (s : CStr) → map to_upper s ≡ map capital s
map-to_upper-capital [] = refl
map-to_upper-capital (c ∷ s) = cc (to_upper-capital c, map-to_upper-capital s)

-- The reserved words are these keywords.
reserved_words-keywords : map lit reserved_words ≡ keywords
unfolding lit reserved_words keywords
reserved_words-keywords = refl

scan_sound :
    (len : ℕ) (s : CStr)
    → len ≤ max_ident_len
    → scan len s ≡ true
    → All IsPart s × (len + length s ≤ max_ident_len)
unfolding scan
scan_sound len [] low h = (tt, omega arith)
scan_sound len (c ∷ s) low h = ground (arith, (in_ident_iff c).0, scan_sound (suc len) s)

scan_complete :
    (len : ℕ) (s : CStr) → All IsPart s → len + length s ≤ max_ident_len → scan len s ≡ true
unfolding scan
scan_complete len [] a h = refl
scan_complete len (c ∷ s) a h =
    ground (arith, (in_ident_iff c).1 a.0, scan_complete (suc len) s a.1)

not_reserved :
    (u : CStr) (ws : List String) → is_reserved u ws ≡ false → All (λ w. u ≢ w) (map lit ws)
unfolding is_reserved
not_reserved u [] h = tt
not_reserved u (w ∷ ws) h = elim (Bool-cases (str_eq u (lit w))) [
  | inl same ↦ cc (rw (same, is_reserved) at h)
  | inr other ↦ (
    λ e. cc (other, (str_eq_iff u (lit w)).1 e),
    not_reserved u ws (rw (other, is_reserved) at h),
  )
]

reserved_none :
    (u : CStr) (ws : List String) → All (λ w. u ≢ w) (map lit ws) → is_reserved u ws ≡ false
unfolding is_reserved
reserved_none u [] a = refl
reserved_none u (w ∷ ws) a = elim (Bool-cases (str_eq u (lit w))) [
  | inl same ↦ absurd (a.0 ((str_eq_iff u (lit w)).0 same))
  | inr other ↦ rw (other, is_reserved) (reserved_none u ws a.1)
]

-- The words that `identifier_valid` looks up, and the keywords.
unreserved_iff :
    (u : CStr)
    → (is_reserved (map to_upper u) reserved_words ≡ false) ↔ All (λ w. map capital u ≢ w) keywords
unreserved_iff u =
    rw⁻¹ (reserved_words-keywords, map-to_upper-capital u)
      (not_reserved (map to_upper u) reserved_words, reserved_none (map to_upper u) reserved_words)

sound : (name : CStr) → identifier_valid name ≡ true → IsIdentifier name
unfolding identifier_valid valid_chars
sound [] h = cc
sound (c ∷ s) h =
    let (v, r) =
      and_true (valid_chars (c ∷ s)) (not (is_reserved (map to_upper (c ∷ s)) reserved_words)) h in
    let (first, rest) = and_true (starts_ident c) (scan 1 s) v in
    let (a, n) = scan_sound 1 s (omega arith) rest in
    ((starts_ident_iff c).0 first, a, omega arith, (unreserved_iff (c ∷ s)).0 (not-true _ r))

complete : (name : CStr) → IsIdentifier name → identifier_valid name ≡ true
unfolding identifier_valid valid_chars
complete [] h = absurd h
complete (c ∷ s) h = rw (
  (starts_ident_iff c).1 h.0,
  scan_complete 1 s h.1 (omega arith),
  (unreserved_iff (c ∷ s)).1 h.3,
)

pub identifier_valid_iff : (name : CStr) → (identifier_valid name ≡ true) ↔ IsIdentifier name
identifier_valid_iff name = (sound name, complete name)
