-- ===== src/Db/Validate.antt =====
-- packages/modeldb/src/utils.ts: values are checked against the schema before they are stored. An
-- error message is given without the names that the code puts before it.
pub mod Holds
pub mod Laws
pub mod Keys
use canvas.Base.{
  ℕ, Bool, true, false, ◌&&◌, Option, none, some, String, List, [], ◌∷◌, Result, ok, throw, assert,
  ◌>>=◌, ◌>>◌, if◌then◌else◌,
}
use canvas.Db.Types.{
  PrimitiveType, integer, float, string, bytes, boolean, json, Property, primary, primitive,
  reference, relation, property_name, Model, Value, undefined, null, bool, num, str, bin, strs, Js,
  ModelValue, get,
}

module _ (js : Js) where
  open js use {Num, is_safe_integer, stringify}

  abbrev pub is_string : Value Num → Bool
  is_string (str s) = true
  is_string _ = false

  abbrev pub is_null : Value Num → Bool
  is_null null = true
  is_null _ = false

  abbrev pub is_some : Option (List ℕ) → Bool
  is_some none = false
  is_some (some s) = true

  -- The ladder over `property.type`; a value that is not null or a property that is not optional.
  unfoldable pub validate_type : PrimitiveType → Value Num → Result (Unit {0})
  validate_type integer (num n) = assert (is_safe_integer n) "must be an integer"
  validate_type integer _ = throw "must be an integer"
  validate_type float (num n) = ok tt
  validate_type float _ = throw "must be a number"
  validate_type string (str s) = ok tt
  validate_type string _ = throw "must be a string"
  validate_type bytes (bin b) = ok tt
  validate_type bytes _ = throw "must be a Uint8Array"
  validate_type boolean (bool b) = ok tt
  validate_type boolean _ = throw "must be a boolean"
  validate_type json null = throw "must not be null"
  validate_type json v = assert (is_some (stringify v)) "must be JSON-serializable"

  unfoldable pub validate_property_value : Property → Value Num → Result (Unit {0})
  unfolding validate_type
  validate_property_value (primary name) v = assert (is_string v) "must be a string"
  validate_property_value (primitive name type optional) v =
      if optional && is_null v then ok tt else validate_type type v
  validate_property_value (reference name target optional) v =
      if optional && is_null v then ok tt else assert (is_string v) "must be a string"
  validate_property_value (relation name target) (strs ss) = ok tt
  validate_property_value (relation name target) _ = throw "must be an array of strings"

  abbrev pub is_undefined : Value Num → Bool
  is_undefined undefined = true
  is_undefined _ = false

  unfoldable pub validate_properties : List Property → ModelValue Num → Result (Unit {0})
  validate_properties [] value = ok tt
  validate_properties (p ∷ ps) value = do
    (if is_undefined (get value (property_name p)) then throw "missing property" else ok tt)
    validate_property_value p (get value (property_name p))
    validate_properties ps value

  -- `validateModelValue`
  unfoldable pub validate_model_value : Model → ModelValue Num → Result (Unit {0})
  unfolding validate_properties
  validate_model_value model value = validate_properties model.properties value
