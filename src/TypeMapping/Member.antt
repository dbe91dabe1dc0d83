-- ===== src/TypeMapping/Member.antt =====
-- One member of a row in src/type_mapping.c, bound by `bind_one` and read back by `read_one`.
use mathlib.Core.Path.{subst}
use mathlib.Core.Option.{some-injective}
use c2sql.Prelude.{
  ==_iff, ℕ, zero, suc, ◌+◌, ◌-◌, ◌%◌, ◌^◌, ◌≤◌, ◌<◌, ◌≡◌, refl, sym, ◌∙◌, ap, false, none, some,
  List, [], ◌∷◌, arith, inl, inr, Bool-cases, Option-cases, ltb, leb, leb→le, le→leb, ◌==◌,
  if◌then◌else◌, length, take, take-length, drop, All, slice, patch, patch-slice, length-take,
  length-drop, drop-drop, word_of, word_of-bounded, bytes_of, bytes_of-word_of,
}
use c2sql.Types.{SqlRdbResult, ok, SqlRdbType, int32, int64, real, text, blob, ColumnDef}
use c2sql.Driver.{Driver}
use c2sql.TypeMapping.{
  Row, Cell, int32_cell, int64_cell, real_cell, text_cell, blob_cell, int_max, bounded_strlen,
  cell_of, text_of, store_word, store_text, store_blob, copy_prefix, load, outside_int32, smaller,
  read_one, delivered,
}

abbrev pub AreBytes : List ℕ → Type 0
AreBytes bs = All (λ b. b < 256) bs

-- An `int32_t` as the database keeps it, as 64 bits.
abbrev pub sign_extend : ℕ → ℕ
sign_extend v = if ltb int_max v then v + (2 ^ 64 - 2 ^ 32) else v

slice-some {ℓ} :
    {A : Type ℓ} (off n : ℕ) (xs bs : List A)
    → slice off n xs ≡ some bs
    → (off + n ≤ length xs) × (take n (drop off xs) ≡ bs)
slice-some off n xs bs h = elim (Bool-cases (leb (off + n) (length xs))) [
  | inl inside ↦ (leb→le _ _ inside, some-injective _ _ (rw inside at h))
  | inr out ↦ cc (rw out at h)
]

All-take {ℓ κ} : {A : Type ℓ} (P : A → Type κ) (n : ℕ) (xs : List A) → All P xs → All P (take n xs)
All-take P zero xs a = tt
All-take P (suc n) [] a = tt
All-take P (suc n) (x ∷ xs) a = (a.0, All-take P n xs a.1)

All-drop {ℓ κ} : {A : Type ℓ} (P : A → Type κ) (n : ℕ) (xs : List A) → All P xs → All P (drop n xs)
All-drop P zero xs a = a
All-drop P (suc n) [] a = tt
All-drop P (suc n) (x ∷ xs) a = All-drop P n xs a.1

length-member : (off n : ℕ) (row : Row) → off + n ≤ length row → length (take n (drop off row)) ≡ n
length-member off n row h = length-take n (drop off row) (omega (arith, length-drop off row))

bytes_back :
    (off n : ℕ) (row : Row)
    → AreBytes row
    → off + n ≤ length row
    → bytes_of n (word_of (take n (drop off row))) ≡ take n (drop off row)
bytes_back off n row a h =
    ap (λ k. bytes_of k (word_of (take n (drop off row)))) (sym (length-member off n row h))
    ∙ bytes_of-word_of (take n (drop off row)) (All-take _ n (drop off row) (All-drop _ off row a))

store_word-same :
    (off n : ℕ) (row : Row) (r : SqlRdbResult)
    → AreBytes row
    → off + n ≤ length row
    → store_word off n (word_of (take n (drop off row))) r row ≡ some (r, row)
unfolding store_word
store_word-same off n row r a h =
    rw (bytes_back off n row a h, patch-slice off n row h, store_word) refl

sign_extend-low :
    (v : ℕ) → v < 2 ^ 32 → (sign_extend v % 2 ^ 32 ≡ v) × (outside_int32 (sign_extend v) ≡ false)
unfolding outside_int32
sign_extend-low v h = ground arith

strlen_nul :
    (maxlen : ℕ) (s : List ℕ) (n : ℕ)
    → bounded_strlen maxlen s ≡ some n
    → n < maxlen
    → (n + 1 ≤ length s) × (take 1 (drop n s) ≡ 0 ∷ [])
unfolding bounded_strlen
strlen_nul zero s n h lt = absurd (omega arith)
strlen_nul (suc maxlen) [] n h lt = cc
strlen_nul (suc maxlen) (c ∷ s) n h lt = elim (Bool-cases (c == 0)) [
  | inl nul ↦
      subst (λ n. (n + 1 ≤ length (c ∷ s)) × (take 1 (drop n (c ∷ s)) ≡ 0 ∷ []))
        (some-injective 0 n (rw (nul, bounded_strlen) at h))
        (omega arith, ap (λ x. x ∷ []) ((==_iff c 0).0 nul))
  | inr more ↦ elim (Option-cases (bounded_strlen maxlen s)) [
    | inl out ↦ cc (rw (more, out, bounded_strlen) at h)
    | inr (k, e) ↦
        let at_n : suc k ≡ n = some-injective (suc k) n (rw (more, e, bounded_strlen) at h) in
        let (fits, nul) = strlen_nul maxlen s k e (omega (arith, at_n, lt)) in
        subst (λ n. (n + 1 ≤ length (c ∷ s)) × (take 1 (drop n (c ∷ s)) ≡ 0 ∷ [])) at_n
          (omega (arith, fits), nul)
  ]
]

-- A text member whose NUL is at `n`.
record IsText (col : ColumnDef) (row : Row) (n : ℕ) : Type 0 where
  ends : bounded_strlen col.size (drop col.offset row) ≡ some n
  inside : n < col.size
  short : n ≤ int_max

copy_prefix-same :
    (off n : ℕ) (row : Row)
    → off + n ≤ length row
    → copy_prefix off (take n (drop off row)) n row ≡ some row
unfolding copy_prefix
copy_prefix-same off n row h = elim (Bool-cases (ltb 0 n)) [
  | inl pos ↦ rw (pos, copy_prefix) (ap (λ bs. patch off bs row) taken ∙ patch-slice off n row h)
  | inr none_left ↦ rw (none_left, copy_prefix) refl
]
  where
    taken : take n (take n (drop off row)) ≡ take n (drop off row)
    taken =
        ap (λ k. take k (take n (drop off row))) (sym (length-member off n row h))
        ∙ take-length (take n (drop off row))

nul-same :
    (off n : ℕ) (row : Row)
    → off + n + 1 ≤ length row
    → take 1 (drop n (drop off row)) ≡ 0 ∷ []
    → patch (off + n) (0 ∷ []) row ≡ some row
nul-same off n row h e =
    ap (λ bs. patch (off + n) bs row) (sym (ap (take 1) (sym (drop-drop off n row)) ∙ e))
    ∙ patch-slice (off + n) 1 row h

smaller-left : (n size : ℕ) → n < size → smaller n (size - 1) ≡ n
smaller-left n size h = ground arith

smaller-same : (n : ℕ) → smaller n n ≡ n
smaller-same n = ground arith

store_text-fits :
    (off size n : ℕ) (s row : List ℕ)
    → length s ≡ n
    → n < size
    → copy_prefix off s n row ≡ some row
    → patch (off + n) (0 ∷ []) row ≡ some row
    → store_text off size s row ≡ some (ok, row)
unfolding store_text
store_text-fits off size n s row e lt copied ended =
    rw
      (
        e,
        (let p : (size == 0) ≡ false = ground arith in p),
        smaller-left n size lt,
        copied,
        e,
        smaller-left n size lt,
        ended,
        e,
        (let p : ltb (size - 1) n ≡ false = ground arith in p),
        store_text,
      )
      refl

store_text-same :
    (off size n : ℕ) (row : Row)
    → bounded_strlen size (drop off row) ≡ some n
    → n < size
    → off + size ≤ length row
    → store_text off size (take n (drop off row)) row ≡ some (ok, row)
store_text-same off size n row h lt inside =
    let (fits, nul) = strlen_nul size (drop off row) n h lt in
    store_text-fits off size n (take n (drop off row)) row (length-member off n row (omega arith))
      lt (copy_prefix-same off n row (omega arith)) (nul-same off n row (omega arith) nul)

store_blob-same :
    (off size : ℕ) (row : Row)
    → off + size ≤ length row
    → store_blob off size (take size (drop off row)) row ≡ some (ok, row)
unfolding store_blob
store_blob-same off size row h =
    rw
      (
        length-member off size row h,
        smaller-same size,
        copy_prefix-same off size row h,
        length-member off size row h,
        (let p : ltb size size ≡ false = ground arith in p),
        store_blob,
      )
      refl

-- Whether the member lies inside of the row, and a text ends inside of the member.
pub record IsMember (col : ColumnDef) (row : Row) : Type 0 where
  pub inside : col.offset + col.size ≤ length row
  pub ends :
      col.type ≡ text
      → (n : ℕ) × (bounded_strlen col.size (drop col.offset row) ≡ some n)
        × (n < col.size)
        × (n ≤ int_max)

load-some :
    (cell : ℕ → Cell) (off n : ℕ) (row : Row) (v : Cell)
    → load cell off n row ≡ some v
    → (off + n ≤ length row) × (cell (word_of (take n (drop off row))) ≡ v)
load-some cell off n row v h = elim (Option-cases (slice off n row)) [
  | inl out ↦ cc (rw (out, load) at h)
  | inr (bs, e) ↦
      let (inside, same) = slice-some off n row bs e in
      (inside, ap (λ bs. cell (word_of bs)) same ∙ some-injective _ _ (rw (e, load) at h))
]

text_some :
    (n : ℕ) (s : List ℕ) (v : Cell)
    → n ≤ int_max
    → text_of (some n) s ≡ some v
    → text_cell (take n s) ≡ v
unfolding text_of
text_some n s v short h =
    some-injective _ _ (rw (let e : ltb int_max n ≡ false = ground arith in e, text_of) at h)

blob_some :
    (col : ColumnDef) (row : Row) (v : Cell)
    → col.offset + col.size ≤ length row
    → elim (slice col.offset col.size row) [ none ↦ none | some bs ↦ some (blob_cell bs) ] ≡ some v
    → blob_cell (take col.size (drop col.offset row)) ≡ v
blob_some col row v inside h = some-injective _ _ (rw (le→leb _ _ inside) at h)

abbrev member : ColumnDef → ℕ → Row → ℕ
member col n row = word_of (take n (drop col.offset row))

member-bounded :
    (col : ColumnDef) (n : ℕ) (row : Row)
    → AreBytes row
    → col.offset + n ≤ length row
    → member col n row < 256 ^ n
member-bounded col n row a h =
    subst (λ k. member col n row < 256 ^ k) (length-member col.offset n row h)
      (word_of-bounded (take n (drop col.offset row))
        (All-take _ n (drop col.offset row) (All-drop _ col.offset row a)))

module _ (drv : Driver) (stmt : drv.Stmt) (c : drv.Ctx) where
  -- Column `i` of the result row is the value.
  abbrev pub Delivers : ℕ → Cell → Type 0
  Delivers i (int32_cell v) = drv.column_int64 stmt i c ≡ (ok, sign_extend v, c)
  Delivers i (int64_cell v) = drv.column_int64 stmt i c ≡ (ok, v, c)
  Delivers i (real_cell v) = drv.column_real stmt i c ≡ (ok, v, c)
  Delivers i (text_cell s) = drv.column_text stmt i c ≡ (ok, some s, c)
  Delivers i (blob_cell bs) = drv.column_blob stmt i c ≡ (ok, some bs, c)

  pub read_typed :
      (i : ℕ) (col : ColumnDef) (row : Row) (v : Cell) (t : SqlRdbType)
      → col.type ≡ t
      → AreBytes row
      → IsMember col row
      → cell_of col row ≡ some v
      → Delivers i v
      → read_one drv stmt i col row c ≡ some (ok, row, c)
  unfolding read_one cell_of
  read_typed i col row v int32 e a m h d =
      let (inside, same) = load-some int32_cell col.offset 4 row v (rw (e, cell_of) at h) in
      let got = subst (Delivers i) (sym same) d in
      let (low, near) = sign_extend-low (member col 4 row) (member-bounded col 4 row a inside) in
      rw (e, got, low, near, store_word-same col.offset 4 row ok a inside, read_one) refl
  read_typed i col row v int64 e a m h d =
      let (inside, same) = load-some int64_cell col.offset 8 row v (rw (e, cell_of) at h) in
      let got = subst (Delivers i) (sym same) d in
      rw (e, got, store_word-same col.offset 8 row ok a inside, read_one) refl
  read_typed i col row v real e a m h d =
      let (inside, same) = load-some real_cell col.offset 8 row v (rw (e, cell_of) at h) in
      let got = subst (Delivers i) (sym same) d in
      rw (e, got, store_word-same col.offset 8 row ok a inside, read_one) refl
  read_typed i col row v text e a m h d =
      let (n, ends, lt, short) = m.ends e in
      let got =
        subst (Delivers i)
          (sym (text_some n (drop col.offset row) v short (rw (e, ends, cell_of) at h))) d in
      rw (e, got, read_one)
        (ap (delivered drv c) (store_text-same col.offset col.size n row ends lt m.inside))
  read_typed i col row v blob e a m h d =
      let got = subst (Delivers i) (sym (blob_some col row v m.inside (rw (e, cell_of) at h))) d in
      rw (e, got, store_blob-same col.offset col.size row m.inside, read_one) refl
