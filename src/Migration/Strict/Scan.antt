-- ===== src/Migration/Strict/Scan.antt =====
-- What the search for STRICT of src/migration.c finds, and when it ends.
use c2sql.Prelude.{
  ℕ, zero, suc, ◌≤◌, ◌<◌, ◌≡◌, ◌⊎◌, refl, sym, ap, ◌∙◌, CStr, Bool, true, false, not, ◌&&◌, ◌||◌,
  Option, none, some, List, [], ◌∷◌, arith, inl, inr, Bool-cases, ltb, leb, ◌==◌, ◌+◌,
  if◌then◌else◌, length, lit, All,
}
use c2sql.Registry.Identifier.{in_ident, to_upper}
use c2sql.Migration.Strict.{
  is_separator, starts_alnum, at_word, skip_separators, skip_word, strict_from,
}

-- A letter of ASCII or a digit.
abbrev alphanumeric : ℕ → Bool
alphanumeric c = (leb 48 c && leb c 57) || (leb 65 c && leb c 90) || (leb 97 c && leb c 122)

abbrev word_char : ℕ → Bool
word_char c = alphanumeric c || c == 95

-- A space, a tab, a comma or a new line.
abbrev gap : ℕ → Bool
gap c = c == 32 || c == 9 || c == 44 || c == 10

abbrev starts_word : List ℕ → Bool
starts_word [] = false
starts_word (b ∷ q) = alphanumeric b

-- The letter in either case, by its code in capitals.
abbrev letter : ℕ → ℕ → Bool
letter k b = b == k || b == k + 32

-- S, T, R, I, C and T in any case, and no letter or digit after them.
abbrev is_strict_here : List ℕ → Bool
is_strict_here (a ∷ b ∷ c ∷ d ∷ e ∷ f ∷ q) =
    letter 83 a
    && (letter 84 b
        && (letter 82 c && (letter 73 d && (letter 67 e && (letter 84 f && not (starts_word q))))))
is_strict_here q = false

-- STRICT stands at the start of a word; `inside` says whether a word goes on at the front.
abbrev pub has_strict : Bool → List ℕ → Bool
has_strict inside [] = false
has_strict inside (b ∷ q) = (not inside && is_strict_here (b ∷ q)) || has_strict (word_char b) q

-- Bytes of words and between them.
abbrev pub IsPlain : List ℕ → Type 0
IsPlain q = All (λ b. (word_char b || gap b) ≡ true) q

-- The same in the terms of the code.
abbrev finds : Bool → List ℕ → Bool
finds inside [] = false
finds inside (b ∷ q) = (not inside && at_word (lit "STRICT") (b ∷ q)) || finds (in_ident b) q

abbrev Wordy : List ℕ → Type 0
Wordy q = All (λ b. (in_ident b || is_separator b) ≡ true) q

in_ident-word_char : (b : ℕ) → in_ident b ≡ word_char b
unfolding in_ident
in_ident-word_char b = ground arith

to_upper-letter : (k b : ℕ) → 65 ≤ k → k ≤ 90 → (to_upper b == k) ≡ letter k b
unfolding to_upper
to_upper-letter k b lo hi = ground arith

starts_alnum-starts_word : (q : List ℕ) → starts_alnum q ≡ starts_word q
unfolding in_ident
starts_alnum-starts_word [] = refl
starts_alnum-starts_word (b ∷ q) = ground arith

at_word_here : (q : List ℕ) → at_word (lit "STRICT") q ≡ is_strict_here q
unfolding at_word lit
at_word_here (a ∷ b ∷ c ∷ d ∷ e ∷ f ∷ q) =
    rw
      (
        to_upper-letter 83 a (omega arith) (omega arith),
        to_upper-letter 84 b (omega arith) (omega arith),
        to_upper-letter 82 c (omega arith) (omega arith),
        to_upper-letter 73 d (omega arith) (omega arith),
        to_upper-letter 67 e (omega arith) (omega arith),
        to_upper-letter 84 f (omega arith) (omega arith),
        starts_alnum-starts_word q,
      )
      refl
at_word_here [] = refl
at_word_here (a ∷ []) = ground arith
at_word_here (a ∷ b ∷ []) = ground arith
at_word_here (a ∷ b ∷ c ∷ []) = ground arith
at_word_here (a ∷ b ∷ c ∷ d ∷ []) = ground arith
at_word_here (a ∷ b ∷ c ∷ d ∷ e ∷ []) = ground arith

finds-has_strict : (inside : Bool) (q : List ℕ) → finds inside q ≡ has_strict inside q
finds-has_strict inside [] = refl
finds-has_strict inside (b ∷ q) =
    ground (arith, at_word_here (b ∷ q), in_ident-word_char b, finds-has_strict (word_char b) q)

IsPlain-Wordy : (q : List ℕ) → IsPlain q → Wordy q
IsPlain-Wordy [] p = tt
IsPlain-Wordy (b ∷ q) p = (ground (arith, p, in_ident-word_char b), IsPlain-Wordy q p.1)

at_word_long : (ks : CStr) (q : List ℕ) → at_word ks q ≡ true → length ks ≤ length q
unfolding at_word
at_word_long [] q h = omega arith
at_word_long (k ∷ ks) [] h = cc
at_word_long (k ∷ ks) (b ∷ q) h = ground (arith, at_word_long ks q)

finds_long : (inside : Bool) (q : List ℕ) → finds inside q ≡ true → 6 ≤ length q
unfolding lit
finds_long inside [] h = cc
finds_long inside (b ∷ q) h =
    ground (arith, at_word_long (lit "STRICT") (b ∷ q), finds_long (in_ident b) q)

no_word : (b : ℕ) (q : List ℕ) → in_ident b ≡ false → at_word (lit "STRICT") (b ∷ q) ≡ false
unfolding at_word to_upper in_ident lit
no_word b q h = ground arith

separator_no_word :
    (b : ℕ) (q : List ℕ)
    → is_separator b ≡ true
    → (at_word (lit "STRICT") (b ∷ q) ≡ false) × (in_ident b ≡ false)
unfolding at_word to_upper in_ident lit
separator_no_word b q h = ground arith

-- The separators in front are skipped: up to the end, or to a word.
abbrev Skipped : List ℕ → Type 0
Skipped q =
    ((skip_separators q ≡ []) × (finds false q ≡ false))
    ⊎ ((b : ℕ) × (r : List ℕ) × (skip_separators q ≡ b ∷ r)
        × (in_ident b ≡ true)
        × Wordy (b ∷ r)
        × (finds false q ≡ finds false (b ∷ r))
        × (length r < length q))

skip_separators_lem : (q : List ℕ) → Wordy q → Skipped q
unfolding skip_separators
skip_separators_lem [] p = inl (refl, refl)
skip_separators_lem (b ∷ q) p = elim (Bool-cases (is_separator b)) [
  | inr word ↦ inr (b, q, rw word refl, ground arith, p, refl, omega arith)
  | inl sep ↦
      let (absent, outside) = separator_no_word b q sep in
      elim (skip_separators_lem q p.1) [
        | inl done ↦ inl (rw sep done.0, rw (absent, outside, finds) done.1)
        | inr (c, r, e, word, pr, same, le) ↦
            inr (c, r, rw sep e, word, pr, rw (absent, outside, finds) same, omega (arith, le))
      ]
]

skip_word_lem :
    (q : List ℕ)
    → Wordy q
    → Wordy (skip_word q)
      × (finds true q ≡ finds false (skip_word q))
      × (length (skip_word q) ≤ length q)
unfolding skip_word
skip_word_lem [] p = (tt, refl, omega arith)
skip_word_lem (b ∷ q) p = elim (Bool-cases (in_ident b)) [
  | inl word ↦
      let (pr, same, le) = skip_word_lem q p.1 in rw (word, finds) (pr, same, omega (arith, le))
  | inr other ↦
      let (absent, outside) = separator_no_word b q (ground arith) in
      let kept : skip_word (b ∷ q) ≡ b ∷ q = rw other refl in
      rw kept (p, rw (absent, finds) refl, omega arith)
]

-- A round of the loop, on what follows the separators.
abbrev round : ℕ → List ℕ → Option Bool
round fuel q =
    if ltb (length q) 6
    then some false
    else if at_word (lit "STRICT") q
    then some true
    else strict_from fuel (skip_word q)

round_lem :
    (fuel b : ℕ) (r : List ℕ)
    → in_ident b ≡ true
    → strict_from fuel (skip_word r) ≡ some (finds true r)
    → round fuel (b ∷ r) ≡ some (finds false (b ∷ r))
unfolding skip_word
round_lem fuel b r word rest = elim (Bool-cases (ltb (length (b ∷ r)) 6)) [
  | inl few ↦
      let absent : finds false (b ∷ r) ≡ false = ground (arith, finds_long false (b ∷ r), few) in
      rw (few, round) (ap some (sym absent))
  | inr many ↦ elim (Bool-cases (at_word (lit "STRICT") (b ∷ r))) [
    | inl found ↦ rw (many, found, round, finds) refl
    | inr missing ↦ rw (many, missing, word, round, finds) rest
  ]
]

strict_from-finds :
    (fuel : ℕ) (q : List ℕ) → Wordy q → length q < fuel → strict_from fuel q ≡ some (finds false q)
unfolding strict_from
strict_from-finds zero q p h = absurd (omega (arith, h))
strict_from-finds (suc fuel) [] p h = refl
strict_from-finds (suc fuel) (a ∷ q) p h = elim (skip_separators_lem (a ∷ q) p) [
  | inl (e, gone) ↦ rw (e, gone, strict_from) refl
  | inr (b, r, e, word, pr, same, le) ↦
      let (ps, over, shorter) = skip_word_lem r pr.1 in
      let rest =
        strict_from-finds fuel (skip_word r) ps (omega (arith, le, shorter, h))
        ∙ ap some (sym over) in
      ap (round fuel) e ∙ round_lem fuel b r word rest ∙ ap some (sym same)
]

-- On a tail of letters, digits, underscores and separators the search ends within more rounds than
-- the tail has bytes, and finds whether STRICT, in any case, stands at the start of a word with no
-- letter or digit after it.
pub strict_from_lem :
    (fuel : ℕ) (q : List ℕ)
    → IsPlain q
    → length q < fuel
    → strict_from fuel q ≡ some (has_strict false q)
strict_from_lem fuel q p h =
    strict_from-finds fuel q (IsPlain-Wordy q p) h ∙ ap some (finds-has_strict false q)

-- The search never ends on a tail of six bytes or more that starts with any other byte.
pub strict_from-endless :
    (fuel b : ℕ) (q : List ℕ)
    → (in_ident b || is_separator b) ≡ false
    → 5 ≤ length q
    → strict_from fuel (b ∷ q) ≡ none
unfolding strict_from skip_separators skip_word
strict_from-endless zero b q other long = refl
strict_from-endless (suc fuel) b q other long =
    let sep : is_separator b ≡ false = ground (arith, other) in
    let word : in_ident b ≡ false = ground (arith, other) in
    let many : ltb (suc (length q)) 6 ≡ false = ground (arith, long) in
    rw (sep, many, no_word b q word, word, strict_from) (strict_from-endless fuel b q other long)
