-- ===== src/QueryBuilder/Buf.antt =====
-- The growable string buffer of src/query_builder.c (`Buf`, `buf_init`, `buf_grow`, `buf_append`).
-- `none` stands for a run with no defined result: a loop that does not end, or a write past the
-- end of the allocation.
use native.Mathlib.Nat.{pow-suc, mul_assoc, mul_comm}
use mathlib.Core.Path.{subst}
use c2sql.Prelude.{
  ℕ, zero, suc, ◌+◌, ◌*◌, ◌%◌, ◌^◌, ◌≤◌, ◌≡◌, refl, sym, inl, inr, CStr, Bool, true, false, Option,
  none, some, [], ◌++◌, arith, ltb, leb, if◌then◌else◌, Bool-cases, length, length-append, take,
  take-length, Memory, malloc, malloc-Plenty, leb→le, le→leb, Plenty,
}

-- The values of `size_t`.
abbrev pub size_mod : ℕ
size_mod = 2 ^ 64

-- The longest text for which the capacity can double without wrapping.
abbrev pub text_limit : ℕ
text_limit = 2 ^ 63

-- `data` holds the bytes before the NUL.
pub record Buf : Type 0 where
  pub data_bytes : CStr
  pub len : ℕ
  pub cap : ℕ

unfoldable pub buf_init : Memory → Option Buf × Memory
buf_init m =
    let (got, m') = malloc m in
    (if got then some (record { data_bytes = []; len = 0; cap = 256 }) else none, m')

-- `while (new_cap < need) new_cap *= 2;` After 64 rounds a capacity has reached `need` or is 0.
pub doubled : ℕ → ℕ → ℕ → Option ℕ
doubled zero need cap = none
doubled (suc fuel) need cap =
    let rest = doubled fuel need (cap * 2 % size_mod) in if ltb cap need then rest else some cap

-- The `realloc` and what depends on it.
resized : Buf → ℕ → Bool × Memory → Bool × Buf × Memory
resized b new_cap (true, m) = (true, record b { cap = new_cap }, m)
resized b new_cap (false, m) = (false, b, m)

pub buf_grow : Buf → ℕ → Memory → Option (Bool × Buf × Memory)
unfolding resized
buf_grow b extra m =
    let need = (b.len + extra + 1) % size_mod in
    if leb need b.cap then some (true, b, m) else elim (doubled 65 need b.cap) [
      | none ↦ none
      | some new_cap ↦ some (resized b new_cap (malloc m))
    ]

-- `memcpy(b->data + b->len, s, n + 1); b->len += n;`
copy_in : Buf → CStr → Option Buf
copy_in b s =
    if leb (b.len + length s + 1) b.cap
    then some (record b {
      data_bytes = take b.len b.data_bytes ++ s;
      len = (b.len + length s) % size_mod;
    })
    else none

append_if : CStr → Bool × Buf × Memory → Option (Bool × Buf × Memory)
unfolding copy_in
append_if s (false, b, m) = some (false, b, m)
append_if s (true, b, m) = elim (copy_in b s) [ none ↦ none | some b' ↦ some (true, b', m) ]

unfoldable pub buf_append : Buf → CStr → Memory → Option (Bool × Buf × Memory)
unfolding append_if buf_grow doubled
buf_append b s m = elim (buf_grow b (length s) m) [ none ↦ none | some r ↦ append_if s r ]

-- The buffer is consistent: `len` measures the text, and the text and its NUL fit.
pub record IsBuf (b : Buf) : Type 0 where
  pub measured : b.len ≡ length b.data_bytes
  pub fits : b.len + 1 ≤ b.cap

double_no_wrap :
    (need cap : ℕ) → need ≤ text_limit → ltb cap need ≡ true → cap * 2 % size_mod ≡ cap * 2
double_no_wrap need cap low more = ground arith

-- A loop that starts within `2 ^ fuel` of its goal ends, at a capacity that suffices.
doubled_total :
    (fuel need cap : ℕ)
    → need ≤ text_limit
    → need ≤ cap * 2 ^ fuel
    → (c : ℕ) × (doubled (suc fuel) need cap ≡ some c) × (need ≤ c)
unfolding doubled
doubled_total zero need cap low h = elim (Bool-cases (ltb cap need)) [
  | inl more ↦ absurd (ground arith)
  | inr done ↦ rw done (cap, refl, ground arith)
]
doubled_total (suc fuel) need cap low h = elim (Bool-cases (ltb cap need)) [
  | inl more ↦
      rw (more, double_no_wrap need cap low more)
        (doubled_total fuel need (cap * 2) low (rw (mul_assoc, mul_comm 2, ← pow-suc) h))
  | inr done ↦ rw done (cap, refl, ground arith)
]

-- What `buf_append` does to a consistent buffer: it appends, or it fails for want of memory and
-- changes nothing.
pub data Appended (b : Buf) (s : CStr) (m : Memory) : Option (Bool × Buf × Memory) → Type 0 where
  appended :
      (b' : Buf) (m' : Memory)
      → IsBuf b'
      → b'.data_bytes ≡ b.data_bytes ++ s
      → (Plenty m → Plenty m')
      → Appended b s m (some (true, b', m'))
  no_room : (m' : Memory) → ¬ Plenty m → Appended b s m (some (false, b, m'))

copy_in_room :
    (b : Buf) (s : CStr)
    → b.len ≡ length b.data_bytes
    → b.len + length s + 1 ≤ text_limit
    → b.len + length s + 1 ≤ b.cap
    → copy_in b s
      ≡ some (record b { data_bytes = b.data_bytes ++ s; len = length b.data_bytes + length s })
unfolding copy_in
copy_in_room b s e low h = rw (le→leb _ _ h, e, take-length, fits_word) refl
  where
    fits_word : (length b.data_bytes + length s) % size_mod ≡ length b.data_bytes + length s
    fits_word = omega arith

module _ (b : Buf) (s : CStr) (m : Memory) (v : IsBuf b)
    (low : length b.data_bytes + length s + 1 ≤ text_limit) where
  written :
      (c : ℕ) (m' : Memory)
      → b.len + length s + 1 ≤ c
      → (Plenty m → Plenty m')
      → Appended b s m (append_if s (true, record b { cap = c }, m'))
  unfolding append_if
  written c m' h p =
      rw (copy_in_room (record b { cap = c }) s v.measured (omega arith) h, append_if)
        (appended _ m'
          (record {
            measured = sym (length-append b.data_bytes s);
            fits = omega (arith, v.measured);
          })
          refl p)

  grown :
      (c : ℕ) (r : Bool × Memory)
      → b.len + length s + 1 ≤ c
      → malloc m ≡ r
      → Appended b s m (append_if s (resized b c r))
  unfolding resized append_if
  grown c (true, m') h e = written c m' h (λ p. subst (λ r. Plenty r.1) e (malloc-Plenty m p).1)
  grown c (false, m') h e = no_room m' (λ p. cc (subst (λ r. r.0 ≡ true) e (malloc-Plenty m p).0))

  need : ℕ
  need = (b.len + length s + 1) % size_mod

  need_lem : need ≡ b.len + length s + 1
  unfolding need
  need_lem = omega (arith, v.measured)

  append_room : leb need b.cap ≡ true → buf_append b s m ≡ append_if s (true, b, m)
  unfolding need buf_append buf_grow
  append_room h = rw (h, buf_append, buf_grow) refl

  append_tight :
      (c : ℕ)
      → leb need b.cap ≡ false
      → doubled 65 need b.cap ≡ some c
      → buf_append b s m ≡ append_if s (resized b c (malloc m))
  unfolding need buf_append buf_grow
  append_tight c h e = rw (h, e, buf_append, buf_grow) refl

  -- As long as the text stays below 2^63 bytes, `buf_append` on a consistent buffer always
  -- returns, never writes out of bounds, and either appends the text and keeps the buffer
  -- consistent, or reports that memory ran out.
  pub buf_append-Appended : Appended b s m (buf_append b s m)
  buf_append-Appended = elim (Bool-cases (leb need b.cap)) [
    | inl room ↦
        rw (append_room room)
          (written b.cap m (subst (λ n. n ≤ b.cap) need_lem (leb→le _ _ room)) (λ p. p))
    | inr tight ↦
        let (c, e, h) =
          doubled_total 64 need b.cap (omega (arith, need_lem, v.measured))
            (omega (arith, need_lem, v.measured, v.fits)) in
        rw (append_tight c tight e) (grown c (malloc m) (subst (λ n. n ≤ c) need_lem h) refl)
  ]
