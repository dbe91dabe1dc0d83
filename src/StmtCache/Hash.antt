-- ===== src/StmtCache/Hash.antt =====
-- The bucket count and the hash of src/stmt_cache.c, in a `size_t` of 64 bits.
use c2sql.Prelude.{
  ℕ, zero, suc, ◌+◌, ◌*◌, ◌%◌, ◌^◌, CStr, Option, none, some, [], ◌∷◌, ◌==◌, ltb, if◌then◌else◌,
}

-- The loop of `next_pow2_at_least`, whose variable wraps around to 0 after 64 rounds and then stays.
unfoldable pub pow2_from : ℕ → ℕ → ℕ → Option ℕ
pow2_from zero r n = none
pow2_from (suc fuel) r n =
    let rest = pow2_from fuel (r * 2 % 2 ^ 64) n in if ltb r n then rest else some r

unfoldable pub next_pow2_at_least : ℕ → Option ℕ
next_pow2_at_least n = pow2_from 65 1 n

abbrev pub min_buckets : ℕ
min_buckets = 16

unfoldable pub bucket_count_for : ℕ → Option ℕ
bucket_count_for capacity =
    let want = capacity * 2 % 2 ^ 64 in
    if capacity == 0
    then some 0
    else next_pow2_at_least (if ltb want min_buckets then min_buckets else want)

-- The loop of `hash_sql`: 33 times the hash so far, and the byte.
unfoldable pub hash_from : ℕ → CStr → ℕ
hash_from h [] = h
hash_from h (c ∷ s) = hash_from ((h * 32 % 2 ^ 64 + h + c) % 2 ^ 64) s

unfoldable pub hash_sql : CStr → ℕ
hash_sql s = hash_from 5381 s
