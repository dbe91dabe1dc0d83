-- ===== src/StmtCache.antt =====
-- src/stmt_cache.c and src/stmt_cache.h: the cache of prepared statements. An entry is an address, 0
-- is NULL, and each field of the entries is a function of the address, which a write changes at one
-- address. A freed entry keeps its fields. `none` is a loop that does not end; the loops over linked
-- entries have fuel for one more than `size` entries.
use c2sql.Prelude.{
  ℕ, zero, suc, ◌+◌, ◌-◌, ◌^◌, CStr, Bool, true, false, ◌&&◌, ◌||◌, not, Option, none, some, List,
  [], ◌∷◌, ◌==◌, if◌then◌else◌, str_eq, get_or, set, bit_and, Memory, malloc,
}
use c2sql.Types.{SqlRdbResult, ok, err_invalid_arg, err_not_found, err_no_memory}
use c2sql.Driver.{Driver}
use c2sql.StmtCache.Hash.{hash_sql, bucket_count_for}
pub mod Hash
pub mod Calls
pub mod Links
pub mod Lru
pub mod Buckets
pub mod Masks
pub mod Doubling
pub mod Ordered
pub mod Represents
pub mod Moves
pub mod Additions
pub mod Perform
pub mod Emptied
pub mod Rehash
pub mod Refine
pub mod Prepare
pub mod Interface
pub mod Tests

-- `SqlRDBStmtCache`, and `SqlRDBStmtCacheEntry` field by field. `fresh` is the address of the next
-- entry that is allocated.
pub record StmtCache (Stmt : Type 0) : Type 0 where
  pub capacity : ℕ
  pub size : ℕ
  pub lru_head : ℕ
  pub lru_tail : ℕ
  pub buckets : List ℕ
  pub bucket_count : ℕ
  pub sql : ℕ → CStr
  pub stmt : ℕ → Stmt
  pub lru_prev : ℕ → ℕ
  pub lru_next : ℕ → ℕ
  pub bucket_next : ℕ → ℕ
  pub fresh : ℕ

abbrev pub write : {A : Type 0} → (ℕ → A) → ℕ → A → ℕ → A
write f a v b = if b == a then v else f b

abbrev pub minus_one : ℕ → ℕ
minus_one n = if n == 0 then 2 ^ 64 - 1 else n - 1

unfoldable pub masked_hash : ℕ → CStr → ℕ
masked_hash count sql = bit_and (hash_sql sql) (minus_one count)

abbrev pub zeros : ℕ → List ℕ
zeros zero = []
zeros (suc n) = 0 ∷ zeros n

module _ {Stmt : Type 0} where
  abbrev pub bucket_index : StmtCache Stmt → CStr → ℕ
  bucket_index c sql = masked_hash c.bucket_count sql

  unfoldable pub lru_unlink : StmtCache Stmt → ℕ → StmtCache Stmt
  lru_unlink c e =
      let prev = c.lru_prev e in
      let next = c.lru_next e in
      record c {
        lru_head = if prev == 0 then next else c.lru_head;
        lru_next = write (if prev == 0 then c.lru_next else write c.lru_next prev next) e 0;
        lru_tail = if next == 0 then prev else c.lru_tail;
        lru_prev = write (if next == 0 then c.lru_prev else write c.lru_prev next prev) e 0;
      }

  unfoldable pub lru_push_front : StmtCache Stmt → ℕ → StmtCache Stmt
  lru_push_front c e =
      let prev = write c.lru_prev e 0 in
      record c {
        lru_prev = if c.lru_head == 0 then prev else write prev c.lru_head e;
        lru_next = write c.lru_next e c.lru_head;
        lru_head = e;
        lru_tail = if c.lru_tail == 0 then e else c.lru_tail;
      }

  unfoldable pub lru_promote : StmtCache Stmt → ℕ → StmtCache Stmt
  lru_promote c e = if c.lru_head == e then c else lru_push_front (lru_unlink c e) e

  -- The loop of `bucket_find`, at the entry `e`.
  unfoldable pub find_from : ℕ → StmtCache Stmt → CStr → ℕ → Option ℕ
  find_from zero c sql e = none
  find_from (suc fuel) c sql e =
      let rest = find_from fuel c sql (c.bucket_next e) in
      if e == 0 then some 0 else if str_eq (c.sql e) sql then some e else rest

  unfoldable pub bucket_find : StmtCache Stmt → ℕ → CStr → Option ℕ
  bucket_find c idx sql = find_from (suc c.size) c sql (get_or c.buckets idx 0)

  -- The loop of `bucket_unlink`. The pointer `pp` is the field `bucket_next` of the entry `owner`, or
  -- the bucket where `owner` is 0; `here` is what it points to. The result is both at the end.
  unfoldable pub slot_from : ℕ → StmtCache Stmt → ℕ → ℕ → ℕ → Option (ℕ × ℕ)
  slot_from zero c e owner here = none
  slot_from (suc fuel) c e owner here =
      let rest = slot_from fuel c e here (c.bucket_next here) in
      if here == 0 || here == e then some (owner, here) else rest

  -- `if (*pp) *pp = e->bucket_next; e->bucket_next = NULL;`
  unfoldable pub write_slot : StmtCache Stmt → ℕ → ℕ → ℕ × ℕ → StmtCache Stmt
  write_slot c e idx (owner, here) =
      let next = c.bucket_next e in
      record c {
        buckets = if not (here == 0) && owner == 0 then set c.buckets idx next else c.buckets;
        bucket_next =
            write
              (if here == 0 || owner == 0 then c.bucket_next else write c.bucket_next owner next) e
              0;
      }

  unfoldable pub bucket_unlink : StmtCache Stmt → ℕ → Option (StmtCache Stmt)
  bucket_unlink c e =
      let idx = bucket_index c (c.sql e) in
      elim (slot_from (suc c.size) c e 0 (get_or c.buckets idx 0)) [
        | none ↦ none
        | some slot ↦ some (write_slot c e idx slot)
      ]

  unfoldable pub bucket_insert : StmtCache Stmt → ℕ → StmtCache Stmt
  bucket_insert c e =
      let idx = bucket_index c (c.sql e) in
      record c {
        bucket_next = write c.bucket_next e (get_or c.buckets idx 0);
        buckets = set c.buckets idx e;
      }

  -- The cache after `memset`; the entries are elsewhere.
  abbrev pub zeroed : StmtCache Stmt → StmtCache Stmt
  zeroed c = record c {
    capacity = 0;
    size = 0;
    lru_head = 0;
    lru_tail = 0;
    buckets = [];
    bucket_count = 0;
  }

  -- `c2sql_internal_cache_init`
  unfoldable pub cache_init : StmtCache Stmt → ℕ → Memory → Option (SqlRdbResult × StmtCache Stmt)
  cache_init c capacity m =
      if capacity == 0 then some (ok, zeroed c) else elim (bucket_count_for capacity) [
        | none ↦ none
        | some count ↦ some (
            if (malloc m).0
            then (
              ok,
              record (zeroed c) {
                capacity = capacity;
                buckets = zeros count;
                bucket_count = count;
              },
            )
            else (err_no_memory, zeroed c))
      ]

  -- The end of `c2sql_internal_cache_get`; `e` is what `bucket_find` gave, `null` the NULL pointer.
  unfoldable pub get_found : Stmt → StmtCache Stmt → ℕ → SqlRdbResult × Stmt × StmtCache Stmt
  get_found null c e = if e == 0 then (err_not_found, null, c) else (ok, c.stmt e, lru_promote c e)

  -- `c2sql_internal_cache_get`, with an `out_stmt` that is not NULL.
  unfoldable pub cache_get :
      Stmt → StmtCache Stmt → Option CStr → Option (SqlRdbResult × Stmt × StmtCache Stmt)
  cache_get null c none = some (err_invalid_arg, null, c)
  cache_get null c (some sql) =
      if c.capacity == 0 || c.size == 0
      then some (err_not_found, null, c)
      else elim (bucket_find c (bucket_index c sql) sql) [
        | none ↦ none
        | some e ↦ some (get_found null c e)
      ]
