-- ===== src/Db/Idb/Plan/Tests.antt =====
-- Queries of three rows by an index on their numbers.
use canvas.Base.{
  ℕ, Bool, true, false, ◌≡◌, refl, Option, none, some, List, [], ◌∷◌, Str, Result, ok, throw, map,
  drop,
}
use canvas.Base.Maps.{lookup}
use canvas.Db.Types.{
  integer, primary, primitive, Model, num, str, Expression, range, Direction, asc, desc,
  QueryParams, ModelValue,
}
use canvas.Db.Validate.{validate_property_value}
use canvas.Db.Order.{null_first, js_lt, strict_eq, Sign}
use canvas.Db.Query.{get_filter}
use canvas.Db.Tests.{js}
use canvas.Db.Idb.{Stored, plain, KeyRange, Keys}
use canvas.Db.Idb.Plan.{query_rows, get_select, slice, find_index, decode_rows, query_index}
use canvas.Db.Idb.Plan.Loops.{page, query_rows-order, query_rows-where}

abbrev model : Model
model = record {
  name = 109 ∷ [];
  primary_key = 105 ∷ [];
  indexes = ((97 ∷ []) ∷ []) ∷ [];
  properties = primary (105 ∷ []) ∷ primitive (97 ∷ []) integer false ∷ [];
}

abbrev object : ℕ → List (Str × Stored ℕ)
object n = (105 ∷ [], plain (str (n ∷ []))) ∷ (97 ∷ [], plain (num n)) ∷ []

abbrev row : ℕ → ModelValue ℕ
row n = (105 ∷ [], str (n ∷ [])) ∷ (97 ∷ [], num n) ∷ []

abbrev cursor : List Str → Option (KeyRange ℕ) → Direction → List (List (Str × Stored ℕ))
cursor index keys asc = object 1 ∷ object 2 ∷ object 3 ∷ []
cursor index keys desc = object 3 ∷ object 2 ∷ object 1 ∷ []

abbrev idb_keys : Keys ℕ
idb_keys = record { is_key = λ k. true; key_lt = λ a b. false }

abbrev sort : (ModelValue ℕ → ModelValue ℕ → Sign) → List (ModelValue ℕ) → List (ModelValue ℕ)
sort compare rows = rows

abbrev by_number : QueryParams ℕ
by_number = record {
  select = none;
  where_ = none;
  order_by = some ((97 ∷ [], desc) ∷ []);
  limit = some 2;
  offset = some 1;
}

query_rows-order_example :
    query_rows js idb_keys cursor [] sort model by_number
    ≡ ok (
        page
          (λ r. true)
          (get_select js idb_keys cursor [] sort none)
          0
          (some 2)
          (drop 1 (row 3 ∷ row 2 ∷ row 1 ∷ [])))
unfolding decode_rows find_index get_filter lookup
query_rows-order_example =
    query_rows-order js idb_keys cursor [] sort model by_number (97 ∷ []) desc ((97 ∷ []) ∷ [])
      (row 3 ∷ row 2 ∷ row 1 ∷ []) (λ r. true) refl refl tt refl refl refl

-- The filter of numbers above one.
abbrev above_one : List (Str × Expression ℕ)
above_one = (97 ∷ [], range (some (num 1)) none none none) ∷ []

abbrev by_range : QueryParams ℕ
by_range = record {
  select = none;
  where_ = some above_one;
  order_by = none;
  limit = some 2;
  offset = some 1;
}

abbrev passes_of : Result (ModelValue ℕ → Bool) → ModelValue ℕ → Bool
passes_of (ok f) = f
passes_of (throw e) = λ r. false

query_rows-where_example :
    query_rows js idb_keys cursor [] sort model by_range
    ≡ ok (map (get_select js idb_keys cursor [] sort none) (slice (some 2) (row 3 ∷ [])))
unfolding decode_rows find_index get_filter validate_property_value query_index lookup null_first
    js_lt strict_eq
query_rows-where_example =
    query_rows-where js idb_keys cursor [] sort model by_range (97 ∷ [])
      (range (some (num 1)) none none none) [] ((97 ∷ []) ∷ []) (row 1 ∷ row 2 ∷ row 3 ∷ [])
      (row 3 ∷ []) (passes_of (get_filter js model above_one)) refl refl refl refl refl refl refl
