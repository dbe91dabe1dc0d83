-- ===== src/Life/World.antt =====
-- The handles of a process that calls SqlRDBInit and SqlRDBClose of src/c2sql.c.
use c2sql.Prelude.{
  ℕ, suc, ◌+◌, ◌≤◌, ◌<◌, ◌≡◌, refl, ◌≢◌, true, false, none, some, [], ◌∷◌, ◌++◌, arith, inl, inr,
  Bool-cases, ◌==◌, length, length-append,
}
use c2sql.Driver.{Driver}
use c2sql.Life.{live_contains, OpenHandle, Process, store, close_connection}
use c2sql.Life.Live.{NoRepeat, live_contains-append, append-NoRepeat}
use c2sql.Life.Configured.{IsOpen}

module _ (drv : Driver) where
  -- The list holds the handles in memory, each once, and all of them are open.
  pub record IsProcess (w : Process drv) : Type 0 where
    pub distinct : NoRepeat w.live
    pub known :
        (p : ℕ)
        → live_contains p w.live ≡ true
        → (o : OpenHandle drv) × (w.at p ≡ some o) × IsOpen drv o
    pub unknown : (p : ℕ) → live_contains p w.live ≡ false → w.at p ≡ none
    pub below : (p : ℕ) → live_contains p w.live ≡ true → (p ≢ 0) × (p < w.fresh)
    pub fresh_nonzero : 0 < w.fresh
    pub room : length w.live ≤ w.live_capacity

  pub unlisted :
      (w : Process drv) (p : ℕ) → IsProcess w → w.fresh ≤ p → live_contains p w.live ≡ false
  unlisted w p i h = elim (Bool-cases (live_contains p w.live)) [
    | inl e ↦ absurd (omega (arith, i.below p e, h))
    | inr e ↦ e
  ]

  -- A connection is either counted among the closed ones or belongs to a live handle.
  abbrev pub connections : Process drv → ℕ
  connections w = length w.closed + length w.live

  -- A new connection that could not be used.
  pub closed-IsProcess :
      (w : Process drv) (q : drv.Ctx) → IsProcess w → IsProcess (close_connection drv q w)
  closed-IsProcess w q i = record {
    distinct = i.distinct;
    known = i.known;
    unknown = i.unknown;
    below = i.below;
    fresh_nonzero = i.fresh_nonzero;
    room = i.room;
  }

  -- A new handle that could not be entered into the list, and is freed.
  pub forgotten-IsProcess :
      (w : Process drv) (o : OpenHandle drv) (q : drv.Ctx)
      → IsProcess w
      → IsProcess (
          close_connection drv q (
            store drv w.fresh none (store drv w.fresh (some o) (record w { fresh = suc w.fresh }))))
  forgotten-IsProcess w o q i = record {
    distinct = i.distinct;
    known =
        λ p e. let (t, at, open_t) = i.known p e in (t, ground (arith, at, i.below p e), open_t);
    unknown = λ p e. ground (arith, i.unknown p e);
    below = λ p e. ground (arith, i.below p e);
    fresh_nonzero = omega arith;
    room = i.room;
  }

  pub entered-IsProcess :
      (w : Process drv) (o : OpenHandle drv) (capacity : ℕ)
      → IsProcess w
      → IsOpen drv o
      → length w.live < capacity
      → let made = store drv w.fresh (some o) (record w { fresh = suc w.fresh }) in
        IsProcess (record made { live = w.live ++ w.fresh ∷ []; live_capacity = capacity })
  entered-IsProcess w o capacity i opened fit =
      let p = w.fresh in
      let out = unlisted w p i (omega arith) in
      record {
        distinct = append-NoRepeat p w.live i.distinct out;
        known = λ b e. elim (Bool-cases (b == p)) [
          | inl here ↦ (o, rw here refl, opened)
          | inr other ↦
              let (t, at, open_t) = i.known b (ground (arith, live_contains-append b p w.live)) in
              (t, rw other at, open_t)
        ];
        unknown = λ b e. ground (arith, i.unknown b, live_contains-append b p w.live);
        below = λ b e. ground (arith, i.below b, live_contains-append b p w.live, i.fresh_nonzero);
        fresh_nonzero = omega arith;
        room = omega (arith, length-append w.live (p ∷ []), fit);
      }
