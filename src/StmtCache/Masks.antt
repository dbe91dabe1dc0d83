-- ===== src/StmtCache/Masks.antt =====
-- The bucket counts of src/stmt_cache.c and the bucket that a hash is masked to.
use Prim.Native.Nat.{digits, min, bit_and-bitwise}
use native.Mathlib.Nat.{
  two-pow-succ, mul-add-mod_self_left, mod-eq_of_lt, div-add-mod, mod-lt, mul_assoc, zero-mod,
  one-le-pow,
}
use c2sql.Prelude.{
  ℕ, zero, suc, ◌+◌, ◌-◌, ◌*◌, ◌/◌, ◌%◌, ◌^◌, ◌≤◌, ◌<◌, ◌≡◌, sym, ap, ◌∙◌, CStr, arith, bit_and,
}
use c2sql.StmtCache.{masked_hash}
use c2sql.StmtCache.Hash.{hash_sql}

digits-le : (n a b : ℕ) → digits (λ _. zero) min n a b ≤ b
digits-le zero a b = omega arith
digits-le (suc n) zero b = omega arith
digits-le (suc n) (suc a) b = let rest = digits-le n (suc a / 2) (b / 2) in ground arith

bit_and-le : (a b : ℕ) → bit_and a b ≤ b
bit_and-le a b = rw (bit_and-bitwise a b) (digits-le a a b)

-- The index of a key is one of the table's.
pub masked_hash-lt : (count : ℕ) (k : CStr) → 0 < count → masked_hash count k < count
unfolding masked_hash
masked_hash-lt count k h = ground (arith, bit_and-le (hash_sql k) (count - 1))

halved : (x q : ℕ) → 0 < q → x / 2 % q * 2 + x % 2 ≡ x % (2 * q)
halved x q h =
    let c = x / 2 / q in
    let r = x / 2 % q in
    let e : x ≡ 2 * q * c + (r * 2 + x % 2) =
      omega (arith, div-add-mod (x / 2) q, mul_assoc 2 q c) in
    let small : r * 2 + x % 2 < 2 * q = omega (arith, mod-lt (x / 2) h) in
    sym (
      ap (λ (t : ℕ). t % (2 * q)) e
      ∙ mul-add-mod_self_left (2 * q) c (r * 2 + x % 2)
      ∙ mod-eq_of_lt small)

-- The low bits of a number are its remainder.
digits-low : (k n a : ℕ) → a ≤ n → digits (λ _. zero) min n a (2 ^ k - 1) ≡ a % 2 ^ k
digits-low zero n a h = omega (arith, digits-le n a (2 ^ 0 - 1))
digits-low (suc k) zero a h = let z : a ≡ 0 = omega arith in rw z (sym (zero-mod (2 ^ suc k)))
digits-low (suc k) (suc n) zero h = sym (zero-mod (2 ^ suc k))
digits-low (suc k) (suc n) (suc a) h =
    let q = 2 ^ k in
    let pos : 0 < q = one-le-pow k 2 (omega arith) in
    let double : 2 ^ suc k ≡ 2 * q = omega (arith, two-pow-succ k) in
    let upper : (2 * q - 1) / 2 ≡ q - 1 = omega arith in
    let lowest : (2 * q - 1) % 2 ≡ 1 = omega arith in
    let rest = digits-low k n (suc a / 2) (omega arith) in
    rw (double, upper, lowest, rest) (ground (arith, halved (suc a) q pos))

-- Masking by one less than a power of two is the remainder by it.
pub bit_and-mask : (a k : ℕ) → bit_and a (2 ^ k - 1) ≡ a % 2 ^ k
bit_and-mask a k = rw (bit_and-bitwise a (2 ^ k - 1)) (digits-low k a a (omega arith))
