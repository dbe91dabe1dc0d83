-- ===== src/Migration/Strict.antt =====
-- The search for the keyword STRICT in `check_strict` of src/migration.c.
pub mod Scan
use c2sql.Prelude.{
  ℕ, zero, suc, CStr, Bool, true, false, not, ◌&&◌, ◌||◌, Option, none, some, List, [], ◌∷◌, ◌==◌,
  ltb, if◌then◌else◌, length, lit,
}
use c2sql.Registry.Identifier.{in_ident, to_upper}

-- `isalnum`
abbrev pub is_alnum : ℕ → Bool
is_alnum c = in_ident c && not (c == b'_')

abbrev pub is_separator : ℕ → Bool
is_separator c = c == b' ' || c == 9 || c == b',' || c == 10

-- What follows the last `)`.
unfoldable pub after_last_paren : List ℕ → Option (List ℕ)
after_last_paren [] = none
after_last_paren (b ∷ bs) = elim (after_last_paren bs) [
  | some q ↦ some q
  | none ↦ if b == b')' then some bs else none
]

abbrev pub starts_alnum : List ℕ → Bool
starts_alnum [] = false
starts_alnum (b ∷ bs) = is_alnum b

-- `strncasecmp(q, word, strlen(word)) == 0`, for a word in capital letters, and no further letter or
-- digit after it.
unfoldable pub at_word : CStr → List ℕ → Bool
at_word [] q = not (starts_alnum q)
at_word (k ∷ ks) [] = false
at_word (k ∷ ks) (b ∷ q) = to_upper b == k && at_word ks q

unfoldable pub skip_separators : List ℕ → List ℕ
skip_separators [] = []
skip_separators (b ∷ q) = if is_separator b then skip_separators q else b ∷ q

unfoldable pub skip_word : List ℕ → List ℕ
skip_word [] = []
skip_word (b ∷ q) = if in_ident b then skip_word q else b ∷ q

-- The loop over the words of the tail; `none` when it is not over after so many rounds.
unfoldable pub strict_from : ℕ → List ℕ → Option Bool
strict_from zero q = none
strict_from (suc fuel) [] = some false
strict_from (suc fuel) (b ∷ bs) =
    let q = skip_separators (b ∷ bs) in
    let rest = strict_from fuel (skip_word q) in
    if ltb (length q) 6 then some false else if at_word (lit "STRICT") q then some true else rest
