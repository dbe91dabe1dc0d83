-- ===== src/StmtCache/Emptied.antt =====
-- The caches of src/stmt_cache.c that hold nothing.
use c2sql.Prelude.{ℕ, zero, suc, ◌<◌, ◌≡◌, refl, ap, some, [], arith, length, get_or}
use c2sql.StmtCache.{StmtCache, zeroed, zeros}
use c2sql.StmtCache.Hash.{bucket_count_for}
use c2sql.StmtCache.Represents.{Represents, Holds}

pub length-zeros : (n : ℕ) → length (zeros n) ≡ n
length-zeros zero = refl
length-zeros (suc n) = ap suc (length-zeros n)

pub get_or-zeros : (n i : ℕ) → get_or (zeros n) i 0 ≡ 0
get_or-zeros zero i = refl
get_or-zeros (suc n) zero = refl
get_or-zeros (suc n) (suc i) = get_or-zeros n i

pub no_buckets : bucket_count_for 0 ≡ some 0
unfolding bucket_count_for
no_buckets = refl

module _ {Stmt : Type 0} where
  abbrev pub emptied : StmtCache Stmt → ℕ → ℕ → StmtCache Stmt
  emptied c capacity count = record (zeroed c) {
    capacity = capacity;
    buckets = zeros count;
    bucket_count = count;
  }

  pub emptied-Represents :
      (c : StmtCache Stmt) (capacity count : ℕ)
      → bucket_count_for capacity ≡ some count
      → 0 < c.fresh
      → Represents (emptied c capacity count) []
  emptied-Represents c capacity count e f = record {
    lru = record {
      distinct = tt;
      forward = refl;
      backward = λ a h. ground (arith, h);
      last = refl;
    };
    chains = λ i. [];
    table = record {
      width = length-zeros count;
      linked = λ i. get_or-zeros count i;
      distinct = λ i. tt;
      members = λ i a. refl;
    };
    size = refl;
    bounded = omega arith;
    counted = e;
    unique = λ a b h g k. ground (arith, h);
    allocated = λ a h. ground (arith, h);
    fresh_nonzero = f;
  }

  pub zeroed-Holds :
      (c : StmtCache Stmt) → 0 < c.fresh → Holds (zeroed c) record { capacity = 0; pairs = [] }
  zeroed-Holds c f = record {
    addresses = [];
    represents = emptied-Represents c 0 0 no_buckets f;
    shows = refl;
    capacity = refl;
  }
