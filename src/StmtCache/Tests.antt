-- ===== src/StmtCache/Tests.antt =====
-- Runs of the cache of src/stmt_cache.c on a driver that logs what it finalizes.
use c2sql.Prelude.{
  ℕ, ◌+◌, ◌%◌, ◌≡◌, refl, Bool, true, false, Option, none, some, List, [], ◌∷◌, arith, lit, str_eq,
  if◌then◌else◌, All,
}
use c2sql.Types.{SqlRdbResult, ok, err_not_found, err_no_memory, sqlite}
use c2sql.Driver.{Driver}
use c2sql.StmtCache.{
  StmtCache, masked_hash, cache_init, cache_get, get_found, bucket_find, find_from, lru_promote,
  lru_unlink, lru_push_front, bucket_insert, bucket_unlink, slot_from, write_slot,
}
use c2sql.StmtCache.Hash.{pow2_from, next_pow2_at_least, bucket_count_for, hash_sql, hash_from}
use c2sql.StmtCache.Calls.{
  cache_put, put_new, add_entry, replace_entry, evict_lru_tail, evict_down, cache_rebuild,
  resize_table, retable, clear_from, rehash_from, cache_destroy, destroy_from,
}
use c2sql.StmtCache.Doubling.{
  IsNextPow2, wanted, bucket_count_for-IsNextPow2, bucket_count_for-endless, masked_hash-mod,
}
use c2sql.StmtCache.Ordered.{Call, get, put, rebuild, Ordered, promised, statements}
use c2sql.StmtCache.Represents.{Holds}
use c2sql.StmtCache.Emptied.{emptied, emptied-Represents}
use c2sql.StmtCache.Perform.{Agrees, perform, finalize_all, Allowed}
use c2sql.StmtCache.Refine.Destroy.{cache_init-Holds, enough}
use c2sql.StmtCache.Refine.Run.{
  run, promised_results, promised_drops, promised_end, perform-Agrees, run-Agrees,
}
use c2sql.StmtCache.Refine.Ownership.{then_destroy, all_given, tally, run-then_destroy}
use c2sql.StmtCache.Prepare.{get_or_prepare, provide, Provides, get_or_prepare-Provides}

abbrev pub logger : Driver
logger = record {
  Ctx = List ℕ;
  Stmt = ℕ;
  dialect = sqlite;
  exec = λ sql c. (ok, c);
  prepare = λ sql c. (ok, 77, c);
  bind_int64 = λ s i v c. (ok, c);
  bind_int32 = λ s i v c. (ok, c);
  bind_real = λ s i v c. (ok, c);
  bind_text = λ s i v c. (ok, c);
  bind_blob = λ s i v c. (ok, c);
  bind_null = λ s i c. (ok, c);
  step = λ s c. (ok, false, c);
  column_int64 = λ s i c. (ok, 0, c);
  column_int32 = λ s i c. (ok, 0, c);
  column_real = λ s i c. (ok, 0, c);
  column_text = λ s i c. (ok, none, c);
  column_blob = λ s i c. (ok, none, c);
  column_isnull = λ s i c. (ok, true, c);
  reset = λ s c. (ok, c);
  finalize = λ s c. (ok, s ∷ c);
  begin = λ c. (ok, c);
  commit = λ c. (ok, c);
  rollback = λ c. (ok, c);
  savepoint = λ n c. (ok, c);
  release_sp = λ n c. (ok, c);
  rollback_sp = λ n c. (ok, c);
  changes = λ c. 0;
}

abbrev blank : StmtCache ℕ
blank = record {
  capacity = 0;
  size = 0;
  lru_head = 0;
  lru_tail = 0;
  buckets = [];
  bucket_count = 0;
  sql = λ a. [];
  stmt = λ a. 0;
  lru_prev = λ a. 0;
  lru_next = λ a. 0;
  bucket_next = λ a. 0;
  fresh = 1;
}

abbrev pub for_two : StmtCache ℕ
for_two = emptied blank 2 16

abbrev pub nothing_yet : Ordered ℕ
nothing_yet = record { capacity = 2; pairs = [] }

sixteen : bucket_count_for 2 ≡ some 16
unfolding bucket_count_for next_pow2_at_least pow2_from
sixteen = refl

pub for_two-Holds : Holds for_two nothing_yet
for_two-Holds = record {
  addresses = [];
  represents = emptied-Represents blank 2 16 sixteen (omega arith);
  shows = refl;
  capacity = refl;
}

-- Two keys, the first used again, a third that takes the place of the second, and a smaller capacity.
abbrev history : List (Call ℕ)
history =
    put (lit "a") 11 []
    ∷ put (lit "b") 12 []
    ∷ get (lit "a")
    ∷ put (lit "c") 13 []
    ∷ get (lit "b")
    ∷ put (lit "a") 14 (true ∷ [])
    ∷ rebuild 1 (false ∷ [])
    ∷ []

-- What a run returns, how many entries it leaves, and what it finalized, the last first.
abbrev Seen : Type 0
Seen = List (SqlRdbResult × ℕ) × ℕ × List ℕ

abbrev seen : Option (List (SqlRdbResult × ℕ) × StmtCache ℕ × List ℕ) → Option Seen
seen none = none
seen (some (rs, c, q)) = some (rs, c.size, q)

abbrev expected : Seen
expected = (
  (ok, 0) ∷ (ok, 0) ∷ (ok, 11) ∷ (ok, 0) ∷ (err_not_found, 0) ∷ (ok, 0) ∷ (ok, 0) ∷ [],
  1,
  13 ∷ 11 ∷ 12 ∷ [],
)

run-history : seen (run logger 0 history for_two []) ≡ some expected
unfolding run lit str_eq masked_hash hash_sql hash_from bucket_count_for next_pow2_at_least
    pow2_from cache_put put_new add_entry replace_entry evict_lru_tail evict_down cache_rebuild
    resize_table retable clear_from rehash_from cache_destroy destroy_from cache_get get_found
    bucket_find find_from lru_promote lru_unlink lru_push_front bucket_insert bucket_unlink
    slot_from write_slot
run-history = refl

abbrev one_put :
    Agrees logger 0
      (promised (put (lit "a") 11 []) nothing_yet)
      []
      (perform logger 0 (put (lit "a") 11 []) for_two [])
one_put = perform-Agrees logger 0 (put (lit "a") 11 []) for_two nothing_yet [] tt for_two-Holds

abbrev with_one : Ordered ℕ
with_one = (promised (put (lit "a") 11 []) nothing_yet).after

perform-Agrees_example :
    Agrees logger 0
      (promised (put (lit "a") 12 []) with_one)
      (5 ∷ [])
      (perform logger 0 (put (lit "a") 12 []) one_put.cache (5 ∷ []))
perform-Agrees_example =
    perform-Agrees logger 0 (put (lit "a") 12 []) one_put.cache with_one (5 ∷ []) tt one_put.holds

history-Allowed : All Allowed history
history-Allowed = omega arith

run-Agrees_example :
    (d : StmtCache ℕ) × Holds d (promised_end logger 0 history nothing_yet)
    × (run logger 0 history for_two []
        ≡ some (
          promised_results logger 0 history nothing_yet,
          d,
          finalize_all logger (promised_drops logger 0 history nothing_yet) [],
        ))
run-Agrees_example =
    run-Agrees logger 0 history for_two nothing_yet [] history-Allowed for_two-Holds

run-then_destroy_example :
    (rs : List (SqlRdbResult × ℕ)) × (d : StmtCache ℕ) × (vs : List ℕ) × (run logger 0
        (then_destroy logger 0 history)
        for_two
        []
      ≡ some (rs, d, finalize_all logger vs []))
    × ((test : ℕ → Bool)
        → tally test vs
          ≡ tally test (all_given history) + tally test (statements nothing_yet.pairs))
run-then_destroy_example =
    run-then_destroy logger 0 history for_two nothing_yet [] history-Allowed for_two-Holds

get_or_prepare-Provides_example :
    Provides logger 0
      (provide logger 0 (lit "b") with_one [] [])
      (get_or_prepare logger 0 (lit "b") one_put.cache [] [])
get_or_prepare-Provides_example =
    get_or_prepare-Provides logger 0 (lit "b") one_put.cache with_one [] [] one_put.holds

cache_init-Holds_example :
    (d : StmtCache ℕ) × (cache_init blank 100 []
      ≡ some (if enough blank (omega arith) [] 100 then ok else err_no_memory, d))
    × Holds d record { capacity = if enough blank (omega arith) [] 100 then 100 else 0; pairs = [] }
cache_init-Holds_example = cache_init-Holds blank (omega arith) [] 100 (omega arith)

bucket_count_for-IsNextPow2_example :
    (n : ℕ) × (bucket_count_for 100 ≡ some n) × IsNextPow2 (wanted 100) n
bucket_count_for-IsNextPow2_example = bucket_count_for-IsNextPow2 100 (omega arith) (omega arith)

bucket_count_for-endless_example :
    (bucket_count_for 5000000000000000000 ≡ none)
    × ((fuel : ℕ) → pow2_from fuel 1 (wanted 5000000000000000000) ≡ none)
bucket_count_for-endless_example =
    bucket_count_for-endless 5000000000000000000 (omega arith) (omega arith)

masked_hash-mod_example : masked_hash 16 (lit "SELECT 1") ≡ hash_sql (lit "SELECT 1") % 16
masked_hash-mod_example = masked_hash-mod 2 16 (lit "SELECT 1") (omega arith) (omega arith) sixteen
