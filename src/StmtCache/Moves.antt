-- ===== src/StmtCache/Moves.antt =====
-- The invariant of the cache of src/stmt_cache.c across the changes that its functions are made of.
use c2sql.Prelude.{
  ℕ, ◌-◌, ◌≤◌, ◌<◌, ◌≡◌, refl, sym, ap, ◌∙◌, ◌≢◌, true, false, ◌||◌, some, [], ◌∷◌, arith, inl, inr,
  Bool-cases, ◌==◌, length, take,
}
use mathlib.Core.Path.{subst}
use c2sql.Driver.{Driver}
use c2sql.StmtCache.{
  StmtCache, bucket_index, lru_unlink, lru_push_front, lru_promote, write_slot, minus_one,
}
use c2sql.StmtCache.Calls.{finalize, evict_lru_tail}
use c2sql.StmtCache.Links.{Addresses, Distinct, has, remove, last_or, has-remove, length-remove}
use c2sql.StmtCache.Lru.{IsLru, lru_unlink-IsLru, lru_promote-IsLru}
use c2sql.StmtCache.Buckets.{IsTable, unlinked, bucket_unlink_lem, bucket_unlink-IsTable}
use c2sql.StmtCache.Represents.{Represents, view, view_congr, nonzero, index_lt, short_chain}

module _ {Stmt : Type 0} where
  abbrev pub relinked : StmtCache Stmt → ℕ → ℕ → (ℕ → ℕ) → (ℕ → ℕ) → StmtCache Stmt
  relinked c head tail prev next = record c {
    lru_head = head;
    lru_tail = tail;
    lru_prev = prev;
    lru_next = next;
  }

  -- A cache whose list was relinked, over the same entries.
  relinked-Represents :
      (c : StmtCache Stmt) (xs ys : Addresses) (head tail : ℕ) (prev next : ℕ → ℕ)
      → Represents c xs
      → IsLru (relinked c head tail prev next) ys
      → ((a : ℕ) → has a ys ≡ has a xs)
      → length ys ≡ length xs
      → Represents (relinked c head tail prev next) ys
  relinked-Represents c xs ys head tail prev next r l same long = record {
    lru = l;
    chains = r.chains;
    table = record {
      width = r.table.width;
      linked = r.table.linked;
      distinct = r.table.distinct;
      members = λ i a. rw (same a) (r.table.members i a);
    };
    size = r.size ∙ sym long;
    bounded = omega (arith, r.bounded, long);
    counted = r.counted;
    unique = λ a b h k. r.unique a b (sym (same a) ∙ h) (sym (same b) ∙ k);
    allocated = λ a h. r.allocated a (sym (same a) ∙ h);
    fresh_nonzero = r.fresh_nonzero;
  }

  promote_relinked :
      (c : StmtCache Stmt) (a : ℕ)
      → lru_promote c a
        ≡ relinked c
            (lru_promote c a).lru_head
            (lru_promote c a).lru_tail
            (lru_promote c a).lru_prev
            (lru_promote c a).lru_next
  unfolding lru_promote lru_push_front lru_unlink
  promote_relinked c a = elim (Bool-cases (c.lru_head == a)) [
    | inl first ↦ rw (first, lru_promote) refl
    | inr later ↦ rw (later, lru_promote) refl
  ]

  pub lru_promote-Represents :
      (c : StmtCache Stmt) (xs : Addresses) (a : ℕ)
      → Represents c xs
      → has a xs ≡ true
      → Represents (lru_promote c a) (a ∷ remove a xs)
  lru_promote-Represents c xs a r h =
      let d = lru_promote c a in
      let l = lru_promote-IsLru c xs a r.lru h in
      let e = promote_relinked c a in
      let m =
        relinked-Represents c xs (a ∷ remove a xs) d.lru_head d.lru_tail d.lru_prev d.lru_next r
          (subst (λ t. IsLru t (a ∷ remove a xs)) e l)
          (λ b. ground (arith, has-remove a b xs r.lru.distinct)) (length-remove a xs h) in
      subst (λ t. Represents t (a ∷ remove a xs)) (sym e) m

  pub view-promote :
      (c : StmtCache Stmt) (a : ℕ) (ys : Addresses) → view (lru_promote c a) ys ≡ view c ys
  view-promote c a ys =
      let d = lru_promote c a in
      let m = relinked c d.lru_head d.lru_tail d.lru_prev d.lru_next in
      ap (λ t. view t ys) (promote_relinked c a) ∙ view_congr c m ys (λ b h. (refl, refl))

  pub capacity-lru_promote : (c : StmtCache Stmt) (a : ℕ) → (lru_promote c a).capacity ≡ c.capacity
  capacity-lru_promote c a = ap StmtCache.capacity (promote_relinked c a)

last_or-has : (b : ℕ) (xs : Addresses) → ((last_or b xs == b) || has (last_or b xs) xs) ≡ true
last_or-has b [] = ground arith
last_or-has b (x ∷ xs) = ground (arith, last_or-has x xs)

pub lru_tail-nonzero :
    {Stmt : Type 0} (c : StmtCache Stmt) (xs : Addresses)
    → Represents c xs
    → length xs ≢ 0
    → c.lru_tail ≢ 0
lru_tail-nonzero c [] r n t = n refl
lru_tail-nonzero c (x ∷ xs) r n t =
    let e : last_or x xs ≡ 0 = sym r.lru.last ∙ t in
    ground (arith, last_or-has x xs, nonzero c (x ∷ xs) r)

-- Removing the last address.
pub remove-last_or :
    (b : ℕ) (xs : Addresses)
    → Distinct xs
    → has b xs ≡ false
    → remove (last_or b xs) xs ≡ take (length xs - 1) xs
remove-last_or b [] d o = refl
remove-last_or b (x ∷ []) d o = ground arith
remove-last_or b (x ∷ y ∷ xs) d o = ground (arith, remove-last_or x (y ∷ xs), last_or-has y xs)

module _ (drv : Driver) (c : StmtCache drv.Stmt) (xs : Addresses) (r : Represents c xs)
    (full : c.lru_tail ≢ 0) (enabled : c.capacity ≢ 0) where
  abbrev pub victim : ℕ
  victim = c.lru_tail

  pub victim_here : has victim xs ≡ true
  victim_here = ground (arith, last_or-has 0 xs, r.lru.last)

  pub unlinked-IsTable : IsTable (lru_unlink c victim) xs r.chains
  unfolding lru_unlink
  unlinked-IsTable = record {
    width = r.table.width;
    linked = r.table.linked;
    distinct = r.table.distinct;
    members = r.table.members;
  }

  pub victim_chain : length (r.chains (bucket_index c (c.sql victim))) ≤ c.size
  victim_chain = short_chain c xs r (bucket_index c (c.sql victim))

  pub victim_room : bucket_index c (c.sql victim) < length c.buckets
  victim_room = index_lt c xs r (c.sql victim) enabled

  abbrev pub evicted : StmtCache drv.Stmt
  unfolding lru_unlink
  evicted =
      let d =
        unlinked (lru_unlink c victim) xs r.chains unlinked-IsTable victim victim_here
          r.lru.distinct victim_chain victim_room in
      record d { size = minus_one d.size }

  evict_step :
      (k : drv.Ctx) → evict_lru_tail drv c k ≡ some (evicted, finalize drv (evicted.stmt victim) k)
  unfolding evict_lru_tail lru_unlink
  evict_step k =
      let z : (victim == 0) ≡ false = ground arith in
      rw (
        z,
        bucket_unlink_lem (lru_unlink c victim) xs r.chains unlinked-IsTable victim victim_here
            r.lru.distinct victim_chain victim_room,
        evict_lru_tail,
      )

  pub evict_lru_tail_lem :
      (k : drv.Ctx) → evict_lru_tail drv c k ≡ some (evicted, finalize drv (c.stmt victim) k)
  unfolding write_slot lru_unlink
  evict_lru_tail_lem k = evict_step k

  pub victim_last : remove victim xs ≡ take (length xs - 1) xs
  victim_last = rw r.lru.last (remove-last_or 0 xs r.lru.distinct (nonzero c xs r))

  pub view-evicted : (ys : Addresses) → view evicted ys ≡ view c ys
  unfolding write_slot lru_unlink
  view-evicted ys = view_congr c evicted ys (λ a h. (refl, refl))

  pub evicted_fields : (evicted.sql ≡ c.sql) × (evicted.capacity ≡ c.capacity)
  unfolding write_slot lru_unlink
  evicted_fields = (refl, refl)

  -- What is left after the eviction of the least recently used entry.
  pub evicted-Represents : Represents evicted (remove victim xs)
  unfolding write_slot lru_unlink
  evicted-Represents =
      let gone = λ (a : ℕ). has-remove victim a xs r.lru.distinct in
      let l = lru_unlink-IsLru c xs r.lru victim victim_here in
      let t =
        bucket_unlink-IsTable (lru_unlink c victim) xs r.chains unlinked-IsTable victim victim_here
          r.lru.distinct victim_chain victim_room in
      let shorter = length-remove victim xs victim_here in
      record {
        lru = record {
          distinct = l.distinct;
          forward = l.forward;
          backward = l.backward;
          last = l.last;
        };
        chains = λ i. remove victim (r.chains i);
        table = record {
          width = t.width;
          linked = t.linked;
          distinct = t.distinct;
          members = t.members;
        };
        size = ground (arith, r.size, shorter);
        bounded = omega (arith, r.bounded, shorter);
        counted = r.counted;
        unique = λ a b h k. r.unique a b (ground (arith, gone a)) (ground (arith, gone b));
        allocated = λ a h. r.allocated a (ground (arith, gone a));
        fresh_nonzero = r.fresh_nonzero;
      }
