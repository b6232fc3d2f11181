-- ===== src/Db/Idb/Plan/Loops.antt =====
-- What the loops of query return: packages/modeldb/src/idb/api.ts.
use canvas.Base.{
  ℕ, zero, suc, ◌-◌, ◌≤◌, ◌<◌, Bool, true, false, ◌≡◌, refl, ap, sym, ◌∙◌, arith, Option, none,
  some, List, [], ◌∷◌, map, filter, All, Str, ltb, leb, take, drop, ok, >>=-eq-ok, ok_inj, inl, inr,
  Bool-cases,
}
use canvas.Db.Types.{Model, Js, ModelValue, Expression, Direction, QueryParams}
use canvas.Db.Order.{Sign, find_property}
use canvas.Db.Query.{get_filter}
use canvas.Db.Idb.{Stored, KeyRange, Keys, decode_object}
use canvas.Db.Idb.Plan.{
  find_index, or_zero, slice, is_json_property, get_select, decode_rows, query_index, collect,
  query_where, collect_limit, query_order, query_clauses, is_zero, query_rows, sorted, clauses_of,
}

-- The rows that pass, without the first `offset` of them, up to `limit` of them.
abbrev pub page : {A B : Type 0} → (A → Bool) → (A → B) → ℕ → Option ℕ → List A → List B
page passes select offset limit rows = map select (slice limit (drop offset (filter passes rows)))

module _ {A : Type 0} where
  drop-nil : (n : ℕ) → drop {A = A} n [] ≡ []
  drop-nil zero = refl
  drop-nil (suc n) = refl

  take-nil : (n : ℕ) → take {A = A} n [] ≡ []
  take-nil zero = refl
  take-nil (suc n) = refl

  drop-cons : (a : A) (l : List A) {m n : ℕ} → m ≡ suc n → drop m (a ∷ l) ≡ drop n l
  drop-cons a l e = ap (λ m. drop m (a ∷ l)) e

  take-cons : (a : A) (l : List A) {m n : ℕ} → m ≡ suc n → take m (a ∷ l) ≡ a ∷ take n l
  take-cons a l e = ap (λ m. take m (a ∷ l)) e

  filter_yes : (p : A → Bool) (a : A) (l : List A) → p a ≡ true → filter p (a ∷ l) ≡ a ∷ filter p l
  filter_yes p a l e = rw e refl

  filter_no : (p : A → Bool) (a : A) (l : List A) → p a ≡ false → filter p (a ∷ l) ≡ filter p l
  filter_no p a l e = rw e refl

module _ (js : Js) (idb_keys : Keys js.Num)
    (cursor : List Str → Option (KeyRange js.Num) → Direction → List (List (Str × Stored js.Num)))
    (objects : List (List (Str × Stored js.Num)))
    (sort : (ModelValue js.Num → ModelValue js.Num → Sign)
      → List (ModelValue js.Num)
      → List (ModelValue js.Num)) where
  open js use {Num}

  collect_lem :
      (passes : ModelValue Num → Bool) (offset seen : ℕ) (rows : List (ModelValue Num))
      → seen ≤ offset
      → collect js idb_keys cursor objects sort passes offset seen rows
        ≡ drop (offset - seen) (filter passes rows)
  unfolding collect
  collect_lem passes offset seen [] h = sym (drop-nil (offset - seen))
  collect_lem passes offset seen (row ∷ rows) h = elim (Bool-cases (passes row)) [
    | inr e ↦ rw e (collect_lem passes offset seen rows h)
    | inl e ↦ elim (Bool-cases (ltb seen offset)) [
      | inl l ↦
          rw (e, l)
            (collect_lem passes offset (suc seen) rows (ground arith)
              ∙ sym (drop-cons row (filter passes rows) (ground arith)))
      | inr l ↦
          rw (e, l)
            (ap (◌∷◌ row) (collect_lem passes offset seen rows h)
              ∙ ap (λ n. row ∷ drop n (filter passes rows)) (none_left l)
              ∙ sym (ap (λ n. drop n (row ∷ filter passes rows)) (none_left l)))
    ]
  ]
    where
      none_left : ltb seen offset ≡ false → offset - seen ≡ 0
      none_left l = ground arith

  decode_rows-drop :
      (model : Model) (n : ℕ) (os : List (List (Str × Stored Num))) {rows : List (ModelValue Num)}
      → decode_rows js idb_keys cursor objects sort model os ≡ ok rows
      → decode_rows js idb_keys cursor objects sort model (drop n os) ≡ ok (drop n rows)
  unfolding decode_rows
  decode_rows-drop model zero os h = h
  decode_rows-drop model (suc n) [] {rows} h = ap (λ r. ok (drop (suc n) r)) (ok_inj h)
  decode_rows-drop model (suc n) (o ∷ os) {rows} h =
      let (row, e, h1) = >>=-eq-ok (decode_object js model.properties o) _ h in
      let (rest, e2, h2) = >>=-eq-ok (decode_rows js idb_keys cursor objects sort model os) _ h1 in
      decode_rows-drop model n os e2 ∙ ap (λ r. ok (drop (suc n) r)) (ok_inj h2)

  collect_limit_all :
      (model : Model) (passes : ModelValue Num → Bool) (select : ModelValue Num → ModelValue Num)
      (count : ℕ) (os : List (List (Str × Stored Num))) {rows : List (ModelValue Num)}
      → decode_rows js idb_keys cursor objects sort model os ≡ ok rows
      → collect_limit js idb_keys cursor objects sort model passes select none count os
        ≡ ok (map select (filter passes rows))
  unfolding decode_rows collect_limit
  collect_limit_all model passes select count [] h =
      ap (λ r. ok (map select (filter passes r))) (ok_inj h)
  collect_limit_all model passes select count (o ∷ os) h =
      let (row, e, h1) = >>=-eq-ok (decode_object js model.properties o) _ h in
      let (rest, e2, h2) = >>=-eq-ok (decode_rows js idb_keys cursor objects sort model os) _ h1 in
      rw e (elim (Bool-cases (passes row)) [
        | inl p ↦ rw p (
            rw (collect_limit_all model passes select (suc count) os e2) (
              ap (λ f. ok (map select f)) (sym (filter_yes passes row rest p))
              ∙ ap (λ r. ok (map select (filter passes r))) (ok_inj h2)))
        | inr p ↦ rw p (
            collect_limit_all model passes select count os e2
            ∙ ap (λ f. ok (map select f)) (sym (filter_no passes row rest p))
            ∙ ap (λ r. ok (map select (filter passes r))) (ok_inj h2))
      ])

  collect_limit-some :
      (model : Model) (passes : ModelValue Num → Bool) (select : ModelValue Num → ModelValue Num)
      (limit count : ℕ) (os : List (List (Str × Stored Num))) {rows : List (ModelValue Num)}
      → count < limit
      → decode_rows js idb_keys cursor objects sort model os ≡ ok rows
      → collect_limit js idb_keys cursor objects sort model passes select (some limit) count os
        ≡ ok (map select (take (limit - count) (filter passes rows)))
  unfolding decode_rows collect_limit
  collect_limit-some model passes select limit count [] l h =
      ap (λ f. ok (map select f)) (sym (take-nil (limit - count)))
      ∙ ap (λ r. ok (map select (take (limit - count) (filter passes r)))) (ok_inj h)
  collect_limit-some model passes select limit count (o ∷ os) l h =
      let (row, e, h1) = >>=-eq-ok (decode_object js model.properties o) _ h in
      let (rest, e2, h2) = >>=-eq-ok (decode_rows js idb_keys cursor objects sort model os) _ h1 in
      let whole = ap (λ r. ok (map select (take (limit - count) (filter passes r)))) (ok_inj h2) in
      rw e (elim (Bool-cases (passes row)) [
        | inr p ↦ rw p (
            collect_limit-some model passes select limit count os l e2
            ∙ ap (λ f. ok (map select (take (limit - count) f))) (sym (filter_no passes row rest p))
            ∙ whole)
        | inl p ↦
            let found =
              ap (λ f. ok (map select (take (limit - count) f)))
                (sym (filter_yes passes row rest p))
              ∙ whole in
            elim (Bool-cases (leb limit (suc count))) [
              | inl q ↦
                  rw (p, q)
                    (ap (λ f. ok (map select f))
                        (sym (take-cons row (filter passes rest) {n = 0} (ground arith)))
                      ∙ found)
              | inr q ↦
                  rw (p, q)
                    (rw
                      (collect_limit-some model passes select limit (suc count) os (ground arith)
                        e2)
                      (ap (λ f. ok (map select f))
                          (sym (
                            take-cons row (filter passes rest) {n = limit - suc count}
                              (ground arith)))
                        ∙ found))
            ]
      ])

  -- The loop over an index for `orderBy`, with any limit but zero.
  collect_limit_lem :
      (model : Model) (passes : ModelValue Num → Bool) (select : ModelValue Num → ModelValue Num)
      (limit : Option ℕ) (os : List (List (Str × Stored Num))) {rows : List (ModelValue Num)}
      → is_zero js idb_keys cursor objects sort limit ≡ false
      → decode_rows js idb_keys cursor objects sort model os ≡ ok rows
      → collect_limit js idb_keys cursor objects sort model passes select limit 0 os
        ≡ ok (page passes select 0 limit rows)
  collect_limit_lem model passes select none os z h = collect_limit_all model passes select 0 os h
  collect_limit_lem model passes select (some zero) os z h = absurd (cc)
  collect_limit_lem model passes select (some (suc l)) os {rows} z h =
      collect_limit-some model passes select (suc l) 0 os (omega arith) h
      ∙ ap (λ n. ok (map select (take n (filter passes rows)))) {y = suc l} (omega arith)

  -- No clause is on a JSON property or has an index.
  abbrev pub Unindexed : Model → List (Str × Expression Num) → Type 0
  Unindexed model clauses =
      All
        (λ c.
          (is_json_property (find_property js c.0 model.properties) ≡ false)
          × (find_index c.0 model.indexes ≡ none))
        clauses

  query_clauses-order :
      (model : Model) (query : QueryParams Num) (passes : ModelValue Num → Bool)
      (clauses : List (Str × Expression Num))
      → Unindexed model clauses
      → query_clauses js idb_keys cursor objects sort model query passes clauses
        ≡ query_order js idb_keys cursor objects sort model query passes query.order_by
  unfolding query_clauses
  query_clauses-order model query passes [] u = refl
  query_clauses-order model query passes ((name, e) ∷ clauses) ((j, i), u) =
      rw (j, query_clauses) (rw i (query_clauses-order model query passes clauses u))

  -- A query that is sorted by an indexed property, with no clause that has an index and a limit other
  -- than zero. If its filter is made and the objects that the index visits decode, it returns a page
  -- of the rows of the index; the offset counts all rows of the index, also those that do not pass.
  pub query_rows-order :
      (model : Model) (query : QueryParams Num) (name : Str) (direction : Direction)
      (index : List Str) (rows : List (ModelValue Num)) (passes : ModelValue Num → Bool)
      → is_zero js idb_keys cursor objects sort query.limit ≡ false
      → get_filter js model (clauses_of js idb_keys cursor objects sort query.where_) ≡ ok passes
      → Unindexed model (clauses_of js idb_keys cursor objects sort query.where_)
      → query.order_by ≡ some ((name, direction) ∷ [])
      → find_index name model.indexes ≡ some index
      → decode_rows js idb_keys cursor objects sort model (cursor index none direction) ≡ ok rows
      → query_rows js idb_keys cursor objects sort model query
        ≡ ok (
            page passes
              (get_select js idb_keys cursor objects sort query.select)
              0
              query.limit
              (drop (or_zero query.offset) rows))
  unfolding query_rows query_order
  query_rows-order model query name direction index rows passes z f u o i d =
      rw (z, query_rows)
        (rw f (
          query_clauses-order model query passes
            (clauses_of js idb_keys cursor objects sort query.where_) u
          ∙ rw o (
              rw (i, query_order)
                (collect_limit_lem model passes
                  (get_select js idb_keys cursor objects sort query.select) query.limit
                  (drop (or_zero query.offset) (cursor index none direction)) z
                  (decode_rows-drop model (or_zero query.offset) (cursor index none direction)
                    d)))))

  -- A query whose first clause is on an indexed property that is not JSON, with a limit other than
  -- zero. If its filter is made and the index is read, the rows that pass lose the first `offset` of
  -- them in the order of the index, and only then are sorted, if at all, and cut to the limit.
  pub query_rows-where :
      (model : Model) (query : QueryParams Num) (name : Str) (e : Expression Num)
      (clauses : List (Str × Expression Num)) (index : List Str)
      (rows results : List (ModelValue Num)) (passes : ModelValue Num → Bool)
      → is_zero js idb_keys cursor objects sort query.limit ≡ false
      → query.where_ ≡ some ((name, e) ∷ clauses)
      → get_filter js model ((name, e) ∷ clauses) ≡ ok passes
      → is_json_property (find_property js name model.properties) ≡ false
      → find_index name model.indexes ≡ some index
      → query_index js idb_keys cursor objects sort model index name e ≡ ok rows
      → sorted js idb_keys cursor objects sort model query.order_by
          (drop (or_zero query.offset) (filter passes rows))
        ≡ ok results
      → query_rows js idb_keys cursor objects sort model query
        ≡ ok (
            map
              (get_select js idb_keys cursor objects sort query.select)
              (slice query.limit results))
  unfolding query_rows query_clauses query_where
  query_rows-where model query name e clauses index rows results passes z w f j i r s =
      rw (z, query_rows)
        (rw w (
          rw f
            (rw (j, query_clauses) (rw i (rw (r, query_where) (rw (collected rows) (rw s refl)))))))
    where
      collected :
          (rows : List (ModelValue Num))
          → collect js idb_keys cursor objects sort passes (or_zero query.offset) 0 rows
            ≡ drop (or_zero query.offset) (filter passes rows)
      collected rows =
          collect_lem passes (or_zero query.offset) 0 rows (omega arith)
          ∙ ap (λ n. drop n (filter passes rows)) {y = or_zero query.offset} (omega arith)
