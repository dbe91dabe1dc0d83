-- ===== src/Migration/Fetches.antt =====
-- What src/migration.c reads from the rows of its queries.
use c2sql.Prelude.{
  ℕ, ◌≡◌, refl, ap, ◌∙◌, CStr, Bool, true, Option-cases, List, inl, inr, Bool-cases, ◌==◌, length,
  lit, str_eq,
}
use c2sql.Driver.{Driver}
use c2sql.Migration.Steps.{
  State, fetch_int, fetch_text, Columns, added, info_col, info_col_pg, make_room, info_row,
  info_row_pg,
}
use c2sql.Migration.Reads.{keep_text, index_row, ref_row, name_row}
use c2sql.Migration.Answers.{TableRow, QueryLaws, Same, Same-refl}
use c2sql.Migration.Rows.{IsRow}
use c2sql.Migration.Layout.{
  grown, next_info, next_info_pg, next_index, index_names, next_ref, next_name,
}

module _ (drv : Driver) (laws : QueryLaws drv) where
  -- The statement stands at the same row, with the same rows to come.
  record Kept (stmt : drv.Stmt) (s t : State drv) : Type 0 where
    pending : laws.pending stmt t.ctx ≡ laws.pending stmt s.ctx
    current : laws.current stmt t.ctx ≡ laws.current stmt s.ctx
    same : Same drv laws s t

  module _ (stmt : drv.Stmt) (s t : State drv) (k : Kept stmt s t) where
    int_read : (i : ℕ) → (fetch_int drv stmt i t).0 ≡ (laws.current stmt s.ctx).ints i
    int_read i = laws.int_value stmt i t.ctx ∙ ap (λ (r : TableRow). r.ints i) k.current

    text_read : (i : ℕ) → (fetch_text drv stmt i t).0 ≡ (laws.current stmt s.ctx).texts i
    text_read i = laws.text_value stmt i t.ctx ∙ ap (λ (r : TableRow). r.texts i) k.current

    int-Kept : (i : ℕ) → Kept stmt s (fetch_int drv stmt i t).1
    int-Kept i =
        let (p, c) = laws.int_keeps stmt i t.ctx in
        record {
          pending = p ∙ k.pending;
          current = c ∙ k.current;
          same = record {
            answers = laws.int_same stmt i t.ctx ∙ k.same.answers;
            error = k.same.error;
          };
        }

    text-Kept : (i : ℕ) → Kept stmt s (fetch_text drv stmt i t).1
    text-Kept i =
        let (p, c) = laws.text_keeps stmt i t.ctx in
        record {
          pending = p ∙ k.pending;
          current = c ∙ k.current;
          same = record {
            answers = laws.text_same stmt i t.ctx ∙ k.same.answers;
            error = k.same.error;
          };
        }

  Kept-refl : (stmt : drv.Stmt) (s : State drv) → Kept stmt s s
  Kept-refl stmt s = record { pending = refl; current = refl; same = Same-refl drv laws s }

  -- A row function that keeps the statement, with its value.
  Kept-IsRow :
      {A : Type 0} (row : drv.Stmt → A → State drv → Bool × A × State drv) (next : TableRow → A → A)
      → ((stmt : drv.Stmt) (a : A) (s : State drv)
          → ((row stmt a s).0 ≡ true → (row stmt a s).1 ≡ next (laws.current stmt s.ctx) a)
            × Kept stmt s (row stmt a s).2)
      → IsRow drv laws row next
  Kept-IsRow row next f = record {
    value = λ stmt a s. (f stmt a s).0;
    rest = λ stmt a s. (f stmt a s).1.pending;
    same = λ stmt a s. (f stmt a s).1.same;
  }

  pub ref_row-IsRow : IsRow drv laws (ref_row drv) next_ref
  unfolding ref_row
  ref_row-IsRow = Kept-IsRow (ref_row drv) next_ref (λ stmt a s.
      let k = Kept-refl stmt s in
      (λ went. ap (λ n. keep_text 8 128 n a) (text_read stmt s s k 2), text-Kept stmt s s k 2))

  pub name_row-IsRow : IsRow drv laws (name_row drv) next_name
  unfolding name_row
  name_row-IsRow = Kept-IsRow (name_row drv) next_name (λ stmt a s.
      let k = Kept-refl stmt s in
      (λ went. ap (λ n. keep_text 64 128 n a) (text_read stmt s s k 0), text-Kept stmt s s k 0))

  index_row-Kept :
      (stmt : drv.Stmt) (a : List CStr) (s : State drv)
      → let (u, s1) = fetch_int drv stmt 2 s in
        let (o, s2) = fetch_text drv stmt 3 s1 in
        let (n, s3) = fetch_text drv stmt 1 s2 in
        ((index_row drv stmt a s).1 ≡ index_names u o n a) × Kept stmt s (index_row drv stmt a s).2
  unfolding index_row
  index_row-Kept stmt a s =
      let k1 = int-Kept stmt s s (Kept-refl stmt s) 2 in
      let (u, s1) = fetch_int drv stmt 2 s in
      let k2 = text-Kept stmt s s1 k1 3 in
      let (o, s2) = fetch_text drv stmt 3 s1 in
      let k3 = text-Kept stmt s s2 k2 1 in
      elim (Bool-cases (u == 0)) [
        | inl zero ↦ rw (zero, index_row) (refl, k1)
        | inr one ↦ elim (Option-cases o) [
          | inl absent ↦ rw (one, absent, index_row) (refl, k2)
          | inr (t, present) ↦ elim (Bool-cases (str_eq t (lit "u"))) [
            | inl unique ↦ rw (one, present, unique, index_row) (refl, k3)
            | inr other ↦ rw (one, present, other, index_row) (refl, k2)
          ]
        ]
      ]

  pub index_row-IsRow : IsRow drv laws (index_row drv) next_index
  index_row-IsRow = Kept-IsRow (index_row drv) next_index (λ stmt a s.
      let (e, k) = index_row-Kept stmt a s in
      let k1 = int-Kept stmt s s (Kept-refl stmt s) 2 in
      let s1 = (fetch_int drv stmt 2 s).1 in
      let k2 = text-Kept stmt s s1 k1 3 in
      let u = int_read stmt s s (Kept-refl stmt s) 2 in
      let o = text_read stmt s s1 k1 3 in
      let n = text_read stmt s (fetch_text drv stmt 3 s1).1 k2 1 in
      (λ went. e ∙ (λ i. index_names (u i) (o i) (n i) a), k))

  make_room-Kept :
      (stmt : drv.Stmt) (a : Columns) (s : State drv)
      → Kept stmt s (make_room drv a s).2
        × ((make_room drv a s).0 ≡ true → (make_room drv a s).1 ≡ grown a)
  make_room-Kept stmt a s = elim (Bool-cases (length a.cols == a.cap)) [
    | inl full ↦ rw full (
      record { pending = refl; current = refl; same = record { answers = refl; error = refl } },
      λ got. refl,
    )
    | inr space ↦ rw space (Kept-refl stmt s, λ got. refl)
  ]

  pub info_row-IsRow : IsRow drv laws (info_row drv) next_info
  unfolding info_row
  info_row-IsRow = Kept-IsRow (info_row drv) next_info (λ stmt a s.
      let (k0, room) = make_room-Kept stmt a s in
      let (got, b, s0) = make_room drv a s in
      let k1 = int-Kept stmt s s0 k0 0 in
      let s1 = (fetch_int drv stmt 0 s0).1 in
      let k2 = text-Kept stmt s s1 k1 1 in
      let s2 = (fetch_text drv stmt 1 s1).1 in
      let k3 = text-Kept stmt s s2 k2 2 in
      let s3 = (fetch_text drv stmt 2 s2).1 in
      let k4 = int-Kept stmt s s3 k3 3 in
      let s4 = (fetch_int drv stmt 3 s3).1 in
      let k5 = int-Kept stmt s s4 k4 5 in
      let e0 = int_read stmt s s0 k0 0 in
      let e1 = text_read stmt s s1 k1 1 in
      let e2 = text_read stmt s s2 k2 2 in
      let e3 = int_read stmt s s3 k3 3 in
      let e4 = int_read stmt s s4 k4 5 in
      elim (Bool-cases got) [
        | inl fine ↦
            rw (fine, info_row)
              (λ went. (λ i. added (info_col (e0 i) (e1 i) (e2 i) (e3 i) (e4 i)) (room fine i)), k5)
        | inr out ↦ rw (out, info_row) (λ went. cc, k0)
      ])

  pub info_row_pg-IsRow : IsRow drv laws (info_row_pg drv) next_info_pg
  unfolding info_row_pg
  info_row_pg-IsRow = Kept-IsRow (info_row_pg drv) next_info_pg (λ stmt a s.
      let (k0, room) = make_room-Kept stmt a s in
      let (got, b, s0) = make_room drv a s in
      let k1 = text-Kept stmt s s0 k0 0 in
      let s1 = (fetch_text drv stmt 0 s0).1 in
      let k2 = text-Kept stmt s s1 k1 1 in
      let s2 = (fetch_text drv stmt 1 s1).1 in
      let k3 = text-Kept stmt s s2 k2 2 in
      let e0 = text_read stmt s s0 k0 0 in
      let e1 = text_read stmt s s1 k1 1 in
      let e2 = text_read stmt s s2 k2 2 in
      elim (Bool-cases got) [
        | inl fine ↦
            rw (fine, info_row_pg)
              (
                λ went.
                    (λ i. added (info_col_pg (length a.cols) (e0 i) (e1 i) (e2 i)) (room fine i)),
                k3,
              )
        | inr out ↦ rw (out, info_row_pg) (λ went. cc, k0)
      ])
