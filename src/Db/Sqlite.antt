-- ===== src/Db/Sqlite.antt =====
-- packages/modeldb/src/sqlite/encoding.ts: rows as SQLite stores them.
pub mod Roundtrip
pub mod Api
pub mod Store
use canvas.Base.{
  Bool, true, false, Option, none, some, List, [], ◌∷◌, Str, Bytes, String, Result, ok, throw,
  ◌>>=◌, ◌>>◌, if◌then◌else◌,
}
use canvas.Base.Maps.{put, lookup}
use canvas.Db.Types.{
  PrimitiveType, integer, float, string, bytes, boolean, json, Property, primary, primitive,
  reference, relation, property_name, Model, Value, undefined, null, bool, num, str, bin, strs, Js,
  ModelValue, get,
}
use canvas.Db.Validate.{is_undefined}

-- `string | number | Buffer | null`, and `undefined` for a column that a record lacks.
pub data SqlValue (N : Type 0) : Type 0 where
  missing nothing : SqlValue N
  number : N → SqlValue N
  text : Str → SqlValue N
  blob : Bytes → SqlValue N

abbrev pub column : {N : Type 0} → List (Str × SqlValue N) → Str → SqlValue N
column record_ name = elim (lookup name record_) [ none ↦ missing | some v ↦ v ]

-- `coerce` is the text that `JSON.parse` makes of a value that is no string.
module _ (js : Js) (coerce : SqlValue js.Num → Str) where
  open js use {Num, num_eq, num_0, num_1, is_safe_integer, stringify, parse}

  unfoldable pub encode_primary_key_value : Value Num → Result (SqlValue Num)
  encode_primary_key_value (str s) = ok (text s)
  encode_primary_key_value _ = throw "must be a string"

  abbrev pub json_text : Option Str → Result (SqlValue Num)
  json_text none = throw "must be serializable to JSON"
  json_text (some s) = ok (text s)

  -- The ladder over `property.type`, at a value that is not null.
  unfoldable pub encode_type : PrimitiveType → Value Num → Result (SqlValue Num)
  encode_type integer (num n) =
      if is_safe_integer n then ok (number n) else throw "must be an integer"
  encode_type integer _ = throw "must be an integer"
  encode_type float (num n) = ok (number n)
  encode_type float _ = throw "must be a number"
  encode_type string (str s) = ok (text s)
  encode_type string _ = throw "must be a string"
  encode_type bytes (bin b) = ok (blob b)
  encode_type bytes _ = throw "must be a Uint8Array"
  encode_type boolean (bool b) = ok (number (if b then num_1 else num_0))
  encode_type boolean _ = throw "must be a boolean"
  encode_type json v = json_text (stringify v)

  unfoldable pub encode_primitive_value : PrimitiveType → Bool → Value Num → Result (SqlValue Num)
  unfolding encode_type
  encode_primitive_value type optional null =
      if optional then ok nothing else throw "cannot be null"
  encode_primitive_value type optional v = encode_type type v

  unfoldable pub encode_reference_value : Bool → Value Num → Result (SqlValue Num)
  encode_reference_value optional null = if optional then ok nothing else throw "cannot be null"
  encode_reference_value optional (str s) = ok (text s)
  encode_reference_value optional _ = throw "must be a string"

  -- The branch of `encodeRecordParams` for a property; a relation has no column.
  unfoldable pub encode_property : Property → Value Num → Result (Option (SqlValue Num))
  unfolding encode_primary_key_value encode_primitive_value encode_reference_value
  encode_property (primary name) v = do s ← encode_primary_key_value v; ok (some s)
  encode_property (primitive name type optional) v = do
    s ← encode_primitive_value type optional v
    ok (some s)
  encode_property (reference name target optional) v = do
    s ← encode_reference_value optional v
    ok (some s)
  encode_property (relation name target) (strs ss) = ok none
  encode_property (relation name target) _ = throw "assertion failed"

  abbrev pub write_param :
      Str → Option (SqlValue Num) → List (Str × SqlValue Num) → List (Str × SqlValue Num)
  write_param param none values = values
  write_param param (some s) values = put param s values

  unfoldable pub encode_params :
      (params : Str → Str)
      → List Property
      → ModelValue Num
      → List (Str × SqlValue Num)
      → Result (List (Str × SqlValue Num))
  encode_params params [] value values = ok values
  encode_params params (p ∷ ps) value values = do
    (if is_undefined js (get value (property_name p))
        then throw "missing value for property"
        else ok tt)
    s ← encode_property p (get value (property_name p))
    encode_params params ps value (write_param (params (property_name p)) s values)

  -- `encodeRecordParams`; `params` gives the parameter's name for a property's.
  unfoldable pub encode_record_params :
      Model → ModelValue Num → (params : Str → Str) → Result (List (Str × SqlValue Num))
  unfolding encode_params
  encode_record_params model value params = encode_params params model.properties value []

  unfoldable pub decode_primary_key_value : SqlValue Num → Result (Value Num)
  decode_primary_key_value (text s) = ok (str s)
  decode_primary_key_value _ = throw "internal error - invalid value (expected string)"

  abbrev pub parsed : Option (Value Num) → Result (Value Num)
  parsed none = throw "internal error - invalid value (expected JSON)"
  parsed (some v) = ok v

  -- The ladder over `property.type`, at a value that is not null.
  unfoldable pub decode_type : PrimitiveType → SqlValue Num → Result (Value Num)
  decode_type integer (number n) =
      if is_safe_integer n
      then ok (num n)
      else throw "internal error - invalid value (expected integer)"
  decode_type integer _ = throw "internal error - invalid value (expected integer)"
  decode_type float (number n) = ok (num n)
  decode_type float _ = throw "internal error - invalid value (expected float)"
  decode_type string (text s) = ok (str s)
  decode_type string _ = throw "internal error - invalid value (expected string)"
  decode_type bytes (blob b) = ok (bin b)
  decode_type bytes _ = throw "internal error - invalid value (expected Uint8Array)"
  decode_type boolean (number n) = ok (bool (num_eq n num_1))
  decode_type boolean _ = throw "internal error - invalid value (expected boolean)"
  decode_type json (text s) = parsed (parse s)
  decode_type json v = parsed (parse (coerce v))

  unfoldable pub decode_primitive_value : PrimitiveType → Bool → SqlValue Num → Result (Value Num)
  unfolding decode_type
  decode_primitive_value type optional nothing =
      if optional then ok null else throw "internal error - missing value"
  decode_primitive_value type optional v = decode_type type v

  unfoldable pub decode_reference_value : Bool → SqlValue Num → Result (Value Num)
  decode_reference_value optional nothing =
      if optional then ok null else throw "internal error - missing value"
  decode_reference_value optional (text s) = ok (str s)
  decode_reference_value optional _ = throw "internal error - invalid value (expected string)"

  -- The branch of `decodeRecord` for a property.
  unfoldable pub decode_property : Property → SqlValue Num → Result (Option (Value Num))
  unfolding decode_primary_key_value decode_primitive_value decode_reference_value
  decode_property (primary name) s = do v ← decode_primary_key_value s; ok (some v)
  decode_property (primitive name type optional) s = do
    v ← decode_primitive_value type optional s
    ok (some v)
  decode_property (reference name target optional) s = do
    v ← decode_reference_value optional s
    ok (some v)
  decode_property (relation name target) s = ok none

  abbrev pub write_value : Str → Option (Value Num) → ModelValue Num → ModelValue Num
  write_value name none value = value
  write_value name (some v) value = put name v value

  unfoldable pub decode_properties :
      List Property → List (Str × SqlValue Num) → ModelValue Num → Result (ModelValue Num)
  decode_properties [] row value = ok value
  decode_properties (p ∷ ps) row value = do
    v ← decode_property p (column row (property_name p))
    decode_properties ps row (write_value (property_name p) v value)

  unfoldable pub decode_record : Model → List (Str × SqlValue Num) → Result (ModelValue Num)
  unfolding decode_properties
  decode_record model row = decode_properties model.properties row []
