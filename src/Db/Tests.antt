-- ===== src/Db/Tests.antt =====
-- A model with every kind of property, a row of it, and the ways that it is stored and queried.
use mathlib.Core.Path.{subst}
use canvas.Base.{
  ℕ, Bool, true, false, ◌≡◌, ◌↔◌, refl, arith, Option, none, some, List, [], ◌∷◌, Str, Result, ok,
  throw, ◌==◌, ltb, map, All, bytes_eq,
}
use canvas.Base.Maps.{Distinct, lookup, has}
use canvas.Db.Types.{
  integer, json, Property, primary, primitive, reference, relation, property_name, Model, Value,
  null, num, str, strs, Js, ModelValue, get, Expression, range, asc, desc,
}
use canvas.Db.Validate.{validate_model_value, validate_property_value}
use canvas.Db.Validate.Holds.{
  integers, Stored, held, a_key, a_value, a_document, no_reference, targets,
}
use canvas.Db.Validate.Laws.{FitsAll, validate_model_value_iff}
use canvas.Db.Order.{null_first, js_lt, Sign, find_property, get_compare, primitive_type_orders}
use canvas.Db.Order.Laws.{OrderedNumbers}
use canvas.Db.Order.Compare.{flip, IsComparator, get_compare-IsComparator}
use canvas.Db.Query.{get_filter, range_filter}
use canvas.Db.Query.Filter.{within, get_filter-within}
use canvas.Db.Sqlite.{SqlValue, encode_record_params, decode_record}
use canvas.Db.Sqlite.Roundtrip.{IsDocument, has_column, is_json, decode_record-encode_record_params}
use canvas.Db.Idb.{KeyRange, Keys, get_range, encode_property_value, decode_property_value}
use canvas.Db.Idb
use canvas.Db.Idb.Roundtrip.{IsJsonArray, decode_property_value-encode_property_value}
use canvas.Db.Idb.Range.{SameOrder, in_range, HoldsNumber, get_range_covers}

-- JSON of lists of strings only, as the number of strings.
abbrev test_stringify : Value ℕ → Option Str
test_stringify (strs []) = some []
test_stringify (num n) = some (n ∷ [])
test_stringify _ = none

abbrev test_parse : Str → Option (Value ℕ)
test_parse [] = some (strs [])
test_parse (n ∷ []) = some (num n)
test_parse _ = none

abbrev pub js : Js
js = record {
  Num = ℕ;
  num_eq = λ a b. a == b;
  num_lt = ltb;
  is_safe_integer = λ n. ltb n 9007199254740992;
  num_0 = 0;
  num_1 = 1;
  mixed_lt = λ a b. false;
  stringify = test_stringify;
  parse = test_parse;
}

js-OrderedNumbers : OrderedNumbers js
js-OrderedNumbers = record {
  trichotomy = λ a b p q. ground arith;
  asymm = λ a b h. ground arith;
  trans = λ a b c h k. ground arith;
}

-- "id", "age", "doc", "ref", "rel"
abbrev properties : List Property
properties =
    primary (105 ∷ [])
    ∷ primitive (97 ∷ []) integer false
    ∷ primitive (100 ∷ []) json false
    ∷ reference (114 ∷ []) (109 ∷ []) true
    ∷ relation (108 ∷ []) (109 ∷ [])
    ∷ []

abbrev model : Model
model = record { name = 109 ∷ []; primary_key = 105 ∷ []; properties = properties; indexes = [] }

abbrev row : ModelValue ℕ
row =
    (105 ∷ [], str (1 ∷ []))
    ∷ (97 ∷ [], num 30)
    ∷ (100 ∷ [], num 4)
    ∷ (114 ∷ [], null)
    ∷ (108 ∷ [], strs ((2 ∷ []) ∷ []))
    ∷ []

row-FitsAll : FitsAll js properties row
unfolding lookup bytes_eq
row-FitsAll = (
  ((λ h. cc), a_key),
  (
    ((λ h. cc), a_value (integers 30 refl)),
    (
      ((λ h. cc), a_document (λ h. cc) refl),
      (((λ h. cc), no_reference), (((λ h. cc), targets), tt)),
    ),
  ),
)

row-Distinct : Distinct (map property_name properties)
unfolding has bytes_eq
row-Distinct = (refl, (refl, (refl, (refl, (refl, tt)))))

row-documents :
    All (λ p. is_json p ≡ true → IsDocument js (λ s. []) (get row (property_name p))) properties
unfolding lookup bytes_eq
row-documents = (
  (λ h. absurd (cc)),
  (
    (λ h. absurd (cc)),
    (
      (λ h s e. let q : 4 ∷ [] ≡ s = cc in subst (λ s. test_parse s ≡ some (num 4)) q refl),
      ((λ h. absurd (cc)), ((λ h. absurd (cc)), tt)),
    ),
  ),
)

validate_model_value_iff_example :
    (validate_model_value js model row ≡ ok tt) ↔ FitsAll js properties row
validate_model_value_iff_example = validate_model_value_iff js model row

decode_record-encode_record_params_example :
    (values : List (Str × SqlValue ℕ)) × (out : ModelValue ℕ) × (encode_record_params js
        (λ s. [])
        model
        row
        (λ n. n)
      ≡ ok values)
    × (decode_record js (λ s. []) model values ≡ ok out)
    × All
        (λ p. has_column p ≡ true → get out (property_name p) ≡ get row (property_name p))
        properties
decode_record-encode_record_params_example =
    decode_record-encode_record_params js (λ s. []) model row
      (record { one = ground arith; zero = ground arith }) row-FitsAll row-Distinct row-documents

abbrev adults : (gt gte lt lte : Option (Value ℕ)) → List (Str × Expression ℕ)
adults gt gte lt lte = (97 ∷ [], range gt gte lt lte) ∷ []

abbrev adult_filter : Result (ModelValue ℕ → Bool) → ModelValue ℕ → Bool
adult_filter (ok f) r = f r
adult_filter (throw e) r = false

row-integer : Stored js integer (get row (97 ∷ []))
unfolding lookup bytes_eq
row-integer = held (integers 30 refl) refl

get_filter-within_example :
    adult_filter (get_filter js model (adults none (some (num 18)) (some (num 65)) none)) row
    ≡ within js
        (primitive_type_orders js integer)
        none
        (some (num 18))
        (some (num 65))
        none
        (get row (97 ∷ []))
unfolding get_filter find_property validate_property_value
get_filter-within_example =
    get_filter-within js js-OrderedNumbers model (97 ∷ []) (97 ∷ []) integer false none
      (some (num 18)) (some (num 65)) none row refl (λ h. cc) tt tt refl row-integer

get_compare-IsComparator_example :
    (up down : ModelValue ℕ → ModelValue ℕ → Sign) × (get_compare js model ((97 ∷ [], asc) ∷ [])
      ≡ ok up)
    × (get_compare js model ((97 ∷ [], desc) ∷ []) ≡ ok down)
    × IsComparator js integer (97 ∷ []) up
    × IsComparator js integer (97 ∷ []) down
    × ((a b : ModelValue ℕ) → down a b ≡ flip (up a b))
unfolding find_property
get_compare-IsComparator_example =
    get_compare-IsComparator js js-OrderedNumbers model (97 ∷ [])
      (primitive (97 ∷ []) integer false) integer refl refl

-- IndexedDB's order of keys, as far as the examples need it: numbers.
abbrev is_key : Idb.Stored ℕ → Bool
is_key (Idb.plain (num a)) = true
is_key _ = false

abbrev key_lt : Idb.Stored ℕ → Idb.Stored ℕ → Bool
key_lt (Idb.plain (num a)) (Idb.plain (num b)) = ltb a b
key_lt (Idb.plain v) (Idb.wrapped vs) = true
key_lt _ _ = false

abbrev idb_keys : Keys ℕ
idb_keys = record { is_key = is_key; key_lt = key_lt }

key_lt-less :
    (a b : Value ℕ)
    → HoldsNumber js idb_keys integer a
    → HoldsNumber js idb_keys integer b
    → key_lt (Idb.plain a) (Idb.plain b) ≡ (primitive_type_orders js integer).less a b
unfolding null_first js_lt
key_lt-less a b (integers m h, p) (integers n k, q) = refl

integers-keys : (a : Value ℕ) → HoldsNumber js idb_keys integer a → is_key (Idb.plain a) ≡ true
integers-keys a (integers m h, p) = refl

integers-SameOrder : SameOrder js idb_keys integer
integers-SameOrder = record { keys = integers-keys; order = key_lt-less }

get_range_covers_example :
    (r : Option (KeyRange ℕ)) × (get_range js idb_keys
        (primitive (97 ∷ []) integer false)
        none
        (some (num 18))
        (some (num 65))
        none
      ≡ ok r)
    × (in_range js idb_keys r (Idb.plain (num 30)) ≡ true)
unfolding range_filter null_first js_lt
get_range_covers_example =
    get_range_covers js idb_keys js-OrderedNumbers integer integers-SameOrder (97 ∷ []) none
      (some (num 18)) (some (num 65)) none (num 30) tt (integers 18 refl, refl)
      (integers 65 refl, refl) (integers 30 refl, refl) refl

decode_property_value-encode_property_value_example :
    (¬ IsJsonArray {N = ℕ} (primitive (100 ∷ []) json false) (strs [])
      → decode_property_value js
          (primitive (100 ∷ []) json false)
          (encode_property_value js (primitive (100 ∷ []) json false) (strs []))
        ≡ ok (strs []))
    × (IsJsonArray {N = ℕ} (primitive (100 ∷ []) json false) (strs [])
        → decode_property_value js
            (primitive (100 ∷ []) json false)
            (encode_property_value js (primitive (100 ∷ []) json false) (strs []))
          ≡ throw "assertion failed")
decode_property_value-encode_property_value_example =
    decode_property_value-encode_property_value js (primitive (100 ∷ []) json false) (strs [])
      (a_document (λ h. cc) refl)
