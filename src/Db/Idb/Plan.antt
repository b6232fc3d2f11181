-- ===== src/Db/Idb/Plan.antt =====
-- packages/modeldb/src/idb/api.ts: query, which reads an index for `where` or for `orderBy`, or all
-- objects.
pub mod Loops
mod Tests
use canvas.Base.{
  ℕ, zero, suc, ◌+◌, Bool, true, false, not, Option, none, some, List, [], ◌∷◌, ◌++◌, map, filter,
  Str, bytes_eq, ltb, leb, take, drop, Result, ok, throw, assert, ◌>>=◌, ◌>>◌, if◌then◌else◌,
  length, ◌==◌,
}
use canvas.Db.Types.{
  PrimitiveType, json, Property, primary, primitive, reference, relation, Model, Value, null, Js,
  ModelValue, get, Expression, literal, neq, range, Direction, asc, desc, QueryParams,
}
use canvas.Db.Order.{Sign, find_property, get_compare}
use canvas.Db.Query.{get_filter}
use canvas.Db.Idb.{
  Stored, KeyRange, Keys, only_range, lower_range, upper_range, encode_property_value,
  decode_object, get_range,
}

-- `array.find((index) => index[0] === property)`
unfoldable pub find_index : Str → List (List Str) → Option (List Str)
unfolding bytes_eq
find_index property [] = none
find_index property ([] ∷ indexes) = find_index property indexes
find_index property ((name ∷ names) ∷ indexes) =
    if bytes_eq name property then some (name ∷ names) else find_index property indexes

abbrev pub or_zero : Option ℕ → ℕ
or_zero none = 0
or_zero (some n) = n

-- `results.slice(0, limit)`, where no limit is `Infinity`.
abbrev pub slice {ℓ} : {A : Type ℓ} → Option ℕ → List A → List A
slice none rows = rows
slice (some limit) rows = take limit rows

-- `count >= limit`
abbrev pub reached : ℕ → Option ℕ → Bool
reached count none = false
reached count (some limit) = leb limit count

abbrev pub is_json_property : Option Property → Bool
is_json_property (some (primitive name json optional)) = true
is_json_property _ = false

-- IndexedDB: the cursors of an index and of the store, as the objects that they visit; the order of
-- keys; and `Array.sort`.
module _ (js : Js) (idb_keys : Keys js.Num)
    (cursor : List Str → Option (KeyRange js.Num) → Direction → List (List (Str × Stored js.Num)))
    (objects : List (List (Str × Stored js.Num)))
    (sort : (ModelValue js.Num → ModelValue js.Num → Sign)
      → List (ModelValue js.Num)
      → List (ModelValue js.Num)) where
  open js use {Num}

  -- `getSelect`
  unfoldable pub pick : List (Str × Bool) → ModelValue Num → ModelValue Num
  pick [] value = []
  pick ((key, wanted) ∷ keys) value =
      let rest = pick keys value in if wanted then (key, get value key) ∷ rest else rest

  abbrev pub get_select : Option (List (Str × Bool)) → ModelValue Num → ModelValue Num
  get_select none value = value
  get_select (some keys) value = pick keys value

  unfoldable pub decode_rows :
      Model → List (List (Str × Stored Num)) → Result (List (ModelValue Num))
  unfolding decode_object
  decode_rows model [] = ok []
  decode_rows model (object ∷ rest) = do
    row ← decode_object js model.properties object
    rows ← decode_rows model rest
    ok (row ∷ rows)

  -- `queryIndex`
  abbrev pub is_null : Value Num → Bool
  is_null null = true
  is_null _ = false

  -- The first loop of `queryIndex` for `neq`.
  unfoldable pub query_below : Model → List Str → Stored Num → Result (List (ModelValue Num))
  unfolding decode_rows upper_range
  query_below model index key = do
    upper ← upper_range js idb_keys key true
    decode_rows model (cursor index upper asc)

  unfoldable pub query_property :
      Model → List Str → Expression Num → Property → Result (List (ModelValue Num))
  unfolding decode_rows encode_property_value only_range lower_range query_below get_range
  query_property model index (literal v) p = do
    keys ← only_range js idb_keys (encode_property_value js p v)
    decode_rows model (cursor index keys asc)
  query_property model index (neq v) p = do
    below ← (if is_null v then ok [] else query_below model index (encode_property_value js p v))
    lower ← lower_range js idb_keys (encode_property_value js p v) true
    above ← decode_rows model (cursor index lower asc)
    ok (below ++ above)
  query_property model index (range gt gte lt lte) p = do
    keys ← get_range js idb_keys p gt gte lt lte
    decode_rows model (cursor index keys asc)

  unfoldable pub query_index :
      Model → List Str → Str → Expression Num → Result (List (ModelValue Num))
  unfolding find_property query_property
  query_index model index name e = elim (find_property js name model.properties) [
    | none ↦ throw "property not found"
    | some p ↦ query_property model index e p
  ]

  -- The loop over an index for `where`: rows that pass are counted until there are `offset` of them.
  unfoldable pub collect :
      (ModelValue Num → Bool) → (offset seen : ℕ) → List (ModelValue Num) → List (ModelValue Num)
  collect passes offset seen [] = []
  collect passes offset seen (row ∷ rows) =
      let skipped = collect passes offset (suc seen) rows in
      let kept = collect passes offset seen rows in
      if passes row then (if ltb seen offset then skipped else row ∷ kept) else kept

  abbrev pub sorted :
      Model
      → Option (List (Str × Direction))
      → List (ModelValue Num)
      → Result (List (ModelValue Num))
  sorted model none rows = ok rows
  sorted model (some order) rows = get_compare js model order >>= λ compare. ok (sort compare rows)

  unfoldable pub query_where :
      Model
      → QueryParams Num
      → (ModelValue Num → Bool)
      → List Str
      → Str
      → Expression Num
      → Result (List (ModelValue Num))
  unfolding query_index collect get_compare
  query_where model query passes index name e = do
    rows ← query_index model index name e
    results ← sorted model query.order_by (collect passes (or_zero query.offset) 0 rows)
    ok (map (get_select query.select) (slice query.limit results))

  -- The loop over an index for `orderBy`: it stops when there are `limit` results.
  unfoldable pub collect_limit :
      Model
      → (ModelValue Num → Bool)
      → (select : ModelValue Num → ModelValue Num) → Option ℕ
      → (count : ℕ) → List (List (Str × Stored Num))
      → Result (List (ModelValue Num))
  unfolding decode_object
  collect_limit model passes select limit count [] = ok []
  collect_limit model passes select limit count (object ∷ rest) = do
    row ← decode_object js model.properties object
    (let next = collect_limit model passes select limit (suc count) rest in
        let skipped = collect_limit model passes select limit count rest in
        if passes row
        then (if reached (suc count) limit
            then ok (select row ∷ [])
            else (next >>= λ rows. ok (select row ∷ rows)))
        else skipped)

  -- All objects; the offset is taken before the filter.
  unfoldable pub query_all :
      Model → QueryParams Num → (ModelValue Num → Bool) → Result (List (ModelValue Num))
  unfolding decode_rows get_compare
  query_all model query passes = do
    rows ← decode_rows model (drop (or_zero query.offset) objects)
    results ← sorted model query.order_by (filter passes rows)
    ok (map (get_select query.select) (slice query.limit results))

  unfoldable pub query_order :
      Model
      → QueryParams Num
      → (ModelValue Num → Bool)
      → Option (List (Str × Direction))
      → Result (List (ModelValue Num))
  unfolding find_index collect_limit query_all
  query_order model query passes none = query_all model query passes
  query_order model query passes (some ((name, direction) ∷ [])) =
      elim (find_index name model.indexes) [
        | none ↦ query_all model query passes
        | some index ↦
            collect_limit model passes (get_select query.select) query.limit 0
              (drop (or_zero query.offset) (cursor index none direction))
      ]
  query_order model query passes (some _) = throw "expected exactly one entry in query.orderBy"

  -- The loop over the entries of `where`: the first that has an index is read.
  unfoldable pub query_clauses :
      Model
      → QueryParams Num
      → (ModelValue Num → Bool)
      → List (Str × Expression Num)
      → Result (List (ModelValue Num))
  unfolding find_property find_index query_where query_order
  query_clauses model query passes [] = query_order model query passes query.order_by
  query_clauses model query passes ((name, e) ∷ clauses) =
      elim (is_json_property (find_property js name model.properties)) [
        | true ↦ throw "json properties are not supported in where clauses"
        | false ↦ elim (find_index name model.indexes) [
          | none ↦ query_clauses model query passes clauses
          | some index ↦ query_where model query passes index name e
        ]
      ]

  abbrev pub clauses_of : Option (List (Str × Expression Num)) → List (Str × Expression Num)
  clauses_of none = []
  clauses_of (some clauses) = clauses

  abbrev pub is_zero : Option ℕ → Bool
  is_zero (some zero) = true
  is_zero _ = false

  -- `query`
  unfoldable pub query_rows : Model → QueryParams Num → Result (List (ModelValue Num))
  unfolding get_filter query_clauses
  query_rows model query = elim (is_zero query.limit) [
    | true ↦ ok []
    | false ↦ do
      passes ← get_filter js model (clauses_of query.where_)
      query_clauses model query passes (clauses_of query.where_)
  ]
