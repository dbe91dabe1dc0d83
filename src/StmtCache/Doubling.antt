-- ===== src/StmtCache/Doubling.antt =====
-- The loop of `next_pow2_at_least` in src/stmt_cache.c: when it ends, and what it gives.
use native.Mathlib.Nat.{two-pow-succ, pow-le-pow_right, one-le-pow, mod-eq_of_lt}
use c2sql.Prelude.{
  ℕ, zero, suc, ◌+◌, ◌-◌, ◌*◌, ◌%◌, ◌^◌, ◌≤◌, ◌<◌, ◌≡◌, refl, ◌≢◌, CStr, true, false, none, some,
  arith, inl, inr, Bool-cases, ◌==◌, ltb, if◌then◌else◌,
}
use c2sql.StmtCache.Hash.{pow2_from, next_pow2_at_least, bucket_count_for, min_buckets, hash_sql}
use c2sql.StmtCache.{minus_one, masked_hash}
use c2sql.StmtCache.Masks.{bit_and-mask}

-- `r` is the power of two `2 ^ k` that is the first to reach `n`.
pub record IsNextPow2 (n r : ℕ) : Type 0 where
  pub exponent : ℕ
  pub power : r ≡ 2 ^ exponent
  pub fits : r < 2 ^ 64
  pub reaches : n ≤ r
  pub first : (j : ℕ) → j < exponent → 2 ^ j < n

pow2-le : (i j : ℕ) → i ≤ j → 2 ^ i ≤ 2 ^ j
pow2-le i j h = pow-le-pow_right {n = 2} (omega arith) h

below_top : (j n : ℕ) → 2 ^ j < n → n ≤ 2 ^ 63 → j < 63
below_top j n h b = elim (Bool-cases (ltb j 63)) [
  | inl low ↦ ground arith
  | inr high ↦ absurd (omega (arith, pow2-le 63 j (ground arith)))
]

doubled : (j : ℕ) → j < 63 → 2 ^ j * 2 % 2 ^ 64 ≡ 2 ^ suc j
doubled j h =
    let bound : 2 ^ suc j ≤ 2 ^ 63 = pow2-le (suc j) 63 (omega arith) in
    let twice : 2 ^ j * 2 ≡ 2 ^ suc j = omega (arith, two-pow-succ j) in
    rw twice (mod-eq_of_lt (omega (arith, bound)))

pow2_from_lem :
    (fuel j n : ℕ)
    → n ≤ 2 ^ 63
    → j ≤ 63
    → 63 < fuel + j
    → ((i : ℕ) → i < j → 2 ^ i < n)
    → (r : ℕ) × (pow2_from fuel (2 ^ j) n ≡ some r) × IsNextPow2 n r
unfolding pow2_from
pow2_from_lem zero j n b h f before = absurd (omega arith)
pow2_from_lem (suc fuel) j n b h f before = elim (Bool-cases (ltb (2 ^ j) n)) [
  | inl more ↦
      let step : 2 ^ j < n = ground arith in
      let low = below_top j n step b in
      rw (more, doubled j low)
        (pow2_from_lem fuel (suc j) n b (omega arith) (omega arith)
          λ i k. omega (arith, pow2-le i j (omega arith), step))
  | inr done ↦ rw done (
    2 ^ j,
    refl,
    record {
      exponent = j;
      power = refl;
      fits = omega (arith, pow2-le j 63 h);
      reaches = ground arith;
      first = before;
    },
  )
]

-- Up to the largest power of two in a `size_t`, the loop ends with the first power of two that is
-- not below `n`.
pub next_pow2_at_least-IsNextPow2 :
    (n : ℕ) → n ≤ 2 ^ 63 → (r : ℕ) × (next_pow2_at_least n ≡ some r) × IsNextPow2 n r
unfolding next_pow2_at_least
next_pow2_at_least-IsNextPow2 n b =
    pow2_from_lem 65 0 n b (omega arith) (omega arith) (λ i k. absurd (omega (arith, k)))

stuck : (fuel n : ℕ) → 0 < n → pow2_from fuel 0 n ≡ none
unfolding pow2_from
stuck zero n h = refl
stuck (suc fuel) n h = ground (arith, stuck fuel n h)

-- Above it, no number of rounds is enough.
pub endless_from : (fuel j n : ℕ) → j ≤ 63 → 2 ^ 63 < n → pow2_from fuel (2 ^ j) n ≡ none
unfolding pow2_from
endless_from zero j n h b = refl
endless_from (suc fuel) j n h b =
    let more : ltb (2 ^ j) n ≡ true = ground (arith, pow2-le j 63 h) in
    elim (Bool-cases (j == 63)) [
      | inl top ↦
          let e : j ≡ 63 = ground arith in
          let wrapped : 2 ^ j * 2 % 2 ^ 64 ≡ 0 = rw e (omega arith) in
          rw (more, wrapped, pow2_from) (stuck fuel n (omega (arith, b)))
      | inr low ↦
          rw (more, doubled j (ground arith), pow2_from)
            (endless_from fuel (suc j) n (ground arith) b)
    ]

reached : (fuel r n m : ℕ) → pow2_from fuel r n ≡ some m → n ≤ m
unfolding pow2_from
reached zero r n m e = cc
reached (suc fuel) r n m e = elim (Bool-cases (ltb r n)) [
  | inl more ↦ reached fuel (r * 2 % 2 ^ 64) n m (rw more at e)
  | inr done ↦ ground arith
]

pub bucket_count_for-pos :
    (capacity n : ℕ) → bucket_count_for capacity ≡ some n → capacity ≢ 0 → 0 < n
unfolding bucket_count_for next_pow2_at_least
bucket_count_for-pos capacity n e h =
    let want = capacity * 2 % 2 ^ 64 in
    let target = if ltb want min_buckets then min_buckets else want in
    ground (arith, reached 65 1 target n)

-- The number of buckets asked for.
abbrev pub wanted : ℕ → ℕ
wanted capacity = if ltb (capacity * 2) min_buckets then min_buckets else capacity * 2

-- For a capacity from 1 to 2 ^ 62, the number of buckets is the first power of two that is neither
-- below 16 nor below twice the capacity.
pub bucket_count_for-IsNextPow2 :
    (capacity : ℕ)
    → capacity ≢ 0
    → capacity ≤ 2 ^ 62
    → (n : ℕ) × (bucket_count_for capacity ≡ some n) × IsNextPow2 (wanted capacity) n
unfolding bucket_count_for
bucket_count_for-IsNextPow2 capacity h b =
    let e : capacity * 2 % 2 ^ 64 ≡ capacity * 2 = omega (arith, b) in
    let z : (capacity == 0) ≡ false = ground arith in
    rw (e, z) (next_pow2_at_least-IsNextPow2 (wanted capacity) (ground arith))

-- For a capacity above 2 ^ 62 and below 2 ^ 63 there is no number of buckets: the loop never ends,
-- however many rounds it is given.
pub bucket_count_for-endless :
    (capacity : ℕ)
    → 2 ^ 62 < capacity
    → capacity < 2 ^ 63
    → (bucket_count_for capacity ≡ none) × ((fuel : ℕ) → pow2_from fuel 1 (wanted capacity) ≡ none)
unfolding bucket_count_for next_pow2_at_least
bucket_count_for-endless capacity h b =
    let e : capacity * 2 % 2 ^ 64 ≡ capacity * 2 = omega (arith, b) in
    let z : (capacity == 0) ≡ false = ground arith in
    let loop = λ (fuel : ℕ). endless_from fuel 0 (wanted capacity) (omega arith) (ground arith) in
    (rw (e, z, bucket_count_for, next_pow2_at_least) (loop 65), loop)

-- The bucket of a key is its hash modulo the number of buckets, for which the code masks the hash.
pub masked_hash-mod :
    (capacity n : ℕ) (k : CStr)
    → capacity ≢ 0
    → capacity ≤ 2 ^ 62
    → bucket_count_for capacity ≡ some n
    → masked_hash n k ≡ hash_sql k % n
unfolding masked_hash
masked_hash-mod capacity n k h b e =
    let (r, f, p) = bucket_count_for-IsNextPow2 capacity h b in
    let same : n ≡ 2 ^ p.exponent = cc (p.power, e, f) in
    let pos : 0 < 2 ^ p.exponent = one-le-pow p.exponent 2 (omega arith) in
    let m : minus_one (2 ^ p.exponent) ≡ 2 ^ p.exponent - 1 = ground (arith, pos) in
    rw (same, m) (bit_and-mask (hash_sql k) p.exponent)
