-- ===== src/Db/Idb.antt =====
-- packages/modeldb/src/idb/api.ts: rows as IndexedDB stores them, and the ranges that its indexes
-- are read by.
pub mod Roundtrip
pub mod Range
pub mod Plan
pub mod Store
use canvas.Base.{
  ℕ, Bool, true, false, not, ◌&&◌, Option, none, some, List, [], ◌∷◌, Str, String, Result, ok,
  throw, assert, ◌>>=◌, ◌>>◌, if◌then◌else◌,
}
use canvas.Base.Maps.{put, lookup}
use canvas.Db.Types.{
  PrimitiveType, Property, primary, primitive, reference, relation, property_name, Model, Value,
  undefined, null, str, strs, Js, ModelValue, get,
}

-- `PropertyValue | PropertyValue[]`: a list is what an optional property is wrapped in.
pub data Stored (N : Type 0) : Type 0 where
  plain : Value N → Stored N
  wrapped : List (Value N) → Stored N

-- An `IDBKeyRange`; each bound with whether it is open.
pub data KeyRange (N : Type 0) : Type 0 where
  only : Stored N → KeyRange N
  bound : (lower upper : Stored N) (lower_open upper_open : Bool) → KeyRange N
  lower_bound : (lower : Stored N) (open_ : Bool) → KeyRange N
  upper_bound : (upper : Stored N) (open_ : Bool) → KeyRange N

-- IndexedDB: which values are keys (null, booleans, undefined and NaN are not), and their order.
pub record Keys (N : Type 0) : Type 0 where
  pub is_key : Stored N → Bool
  pub key_lt : Stored N → Stored N → Bool

module _ (js : Js) where
  open js use {Num}

  abbrev pub wrap : Bool → Value Num → Stored Num
  wrap true null = wrapped []
  wrap true v = wrapped (v ∷ [])
  wrap false v = plain v

  unfoldable pub encode_property_value : Property → Value Num → Stored Num
  encode_property_value (primary name) v = plain v
  encode_property_value (primitive name type optional) v = wrap optional v
  encode_property_value (reference name target optional) v = wrap optional v
  encode_property_value (relation name target) v = plain v

  -- `Array.isArray`: an array of strings is one, and so is what an optional value is wrapped in.
  abbrev pub is_array : Stored Num → Bool
  is_array (plain (strs ss)) = true
  is_array (plain v) = false
  is_array (wrapped vs) = true

  -- `objectPropertyValue.length === 0 ? null : objectPropertyValue[0]`, at an array.
  abbrev pub unwrap : Stored Num → Value Num
  unwrap (wrapped []) = null
  unwrap (wrapped (v ∷ vs)) = v
  unwrap (plain (strs [])) = null
  unwrap (plain (strs (s ∷ ss))) = str s
  unwrap (plain v) = v

  -- A value that is used as it is; a list of values is the array of its strings.
  abbrev strings_of : List (Value Num) → List Str
  strings_of [] = []
  strings_of (str s ∷ vs) = s ∷ strings_of vs
  strings_of (v ∷ vs) = strings_of vs

  abbrev pub as_value : Stored Num → Value Num
  as_value (plain v) = v
  as_value (wrapped vs) = strs (strings_of vs)

  abbrev pub is_text : Stored Num → Bool
  is_text (plain (str s)) = true
  is_text _ = false

  abbrev pub unwrap_by : Bool → Stored Num → Result (Value Num)
  unwrap_by true s = do assert (is_array s) "assertion failed"; ok (unwrap s)
  unwrap_by false s = do assert (not (is_array s)) "assertion failed"; ok (as_value s)

  unfoldable pub decode_property_value : Property → Stored Num → Result (Value Num)
  decode_property_value (primary name) s = do
    assert (is_text s) "expected objectPropertyValue === string"
    ok (as_value s)
  decode_property_value (primitive name type optional) s = unwrap_by optional s
  decode_property_value (reference name target optional) s = unwrap_by optional s
  decode_property_value (relation name target) s = ok (as_value s)

  abbrev pub present : Option (Stored Num) → Stored Num
  present none = plain undefined
  present (some s) = s

  -- `encodeObject`
  unfoldable pub encode_object : List Property → ModelValue Num → List (Str × Stored Num)
  unfolding encode_property_value
  encode_object [] value = []
  encode_object (p ∷ ps) value =
      (property_name p, encode_property_value p (get value (property_name p)))
      ∷ encode_object ps value

  -- `decodeObject`
  unfoldable pub decode_object : List Property → List (Str × Stored Num) → Result (ModelValue Num)
  unfolding decode_property_value
  decode_object [] object = ok []
  decode_object (p ∷ ps) object = do
    v ← decode_property_value p (present (lookup (property_name p) object))
    rest ← decode_object ps object
    ok ((property_name p, v) ∷ rest)

  abbrev pub or_else : Option (Value Num) → Option (Value Num) → Option (Value Num)
  or_else none b = b
  or_else (some a) b = some a

  abbrev pub given : Option (Value Num) → Bool
  given none = false
  given (some v) = true

  -- `lt !== undefined ? lt : lte !== undefined ? lt : undefined`
  abbrev pub upper_of : (lt lte : Option (Value Num)) → Option (Value Num)
  upper_of (some v) lte = some v
  upper_of none (some v) = none
  upper_of none none = none

  module _ (idb_keys : Keys Num) where
    open idb_keys use {is_key, key_lt}

    -- `IDBKeyRange.only`
    unfoldable pub only_range : Stored Num → Result (Option (KeyRange Num))
    only_range key = do assert (is_key key) "DataError"; ok (some (only key))

    -- `IDBKeyRange.lowerBound`
    unfoldable pub lower_range : Stored Num → Bool → Result (Option (KeyRange Num))
    lower_range lower open_ = do
      assert (is_key lower) "DataError"
      ok (some (lower_bound lower open_))

    -- `IDBKeyRange.upperBound`
    unfoldable pub upper_range : Stored Num → Bool → Result (Option (KeyRange Num))
    upper_range upper open_ = do
      assert (is_key upper) "DataError"
      ok (some (upper_bound upper open_))

    -- `IDBKeyRange.bound`, which also throws if its bounds are out of order.
    unfoldable pub bound_range :
        (lower upper : Stored Num) (lower_open upper_open : Bool) → Result (Option (KeyRange Num))
    bound_range lower upper lo uo = do
      assert (is_key lower) "DataError"
      assert (is_key upper) "DataError"
      (if key_lt upper lower then throw "DataError" else ok (some (bound lower upper lo uo)))

    -- `null` is the whole index.
    unfoldable pub range_of :
        Property
        → (lower upper : Option (Value Num)) (lower_open upper_open : Bool)
        → Result (Option (KeyRange Num))
    unfolding bound_range lower_range upper_range encode_property_value
    range_of p (some lower) (some upper) lo uo =
        bound_range (encode_property_value p lower) (plain upper) lo uo
    range_of p (some lower) none lo uo = lower_range (encode_property_value p lower) lo
    range_of p none (some upper) lo uo = upper_range (encode_property_value p upper) uo
    range_of p none none lo uo = ok none

    -- `getRange`
    unfoldable pub get_range :
        Property → (gt gte lt lte : Option (Value Num)) → Result (Option (KeyRange Num))
    unfolding range_of
    get_range p gt gte lt lte = range_of p (or_else gt gte) (upper_of lt lte) (given gt) (given lt)
