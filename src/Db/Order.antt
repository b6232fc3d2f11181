-- ===== src/Db/Order.antt =====
-- packages/modeldb/src/query.ts: the orders of property values, and `orderBy`.
pub mod Laws
pub mod Compare
use canvas.Base.{
  ℕ, Bool, true, false, not, ◌&&◌, ◌||◌, Option, none, some, List, [], ◌∷◌, Str, Bytes, bytes_eq,
  bytes_lt, Result, ok, throw, assert, ◌>>=◌, ◌>>◌, if◌then◌else◌, all, length, ◌==◌,
}
use canvas.Db.Types.{
  PrimitiveType, integer, float, string, bytes, boolean, json, Property, primary, primitive,
  reference, relation, property_name, Model, Value, undefined, null, bool, num, str, bin, strs, Js,
  ModelValue, get, Expression, literal, neq, range, Direction, asc, desc,
}

-- `lessThan` of query.ts: byte by byte, `null` first.
unfoldable pub less_than : Option Bytes → Option Bytes → Bool
unfolding bytes_lt
less_than none none = false
less_than none (some b) = true
less_than (some a) none = false
less_than (some a) (some b) = bytes_lt a b

pub record Order (N : Type 0) : Type 0 where
  pub less : Value N → Value N → Bool
  pub equals : Value N → Value N → Bool

-- The results of a comparator: -1, 0 and 1.
pub data Sign : Type 0 where
  minus same plus : Sign

abbrev pub bool_eq : Bool → Bool → Bool
bool_eq true b = b
bool_eq false b = not b

module _ (js : Js) where
  open js use {Num, num_eq, num_lt, mixed_lt}

  -- `a === b`. Two arrays are never the same object: those that are compared were read or decoded
  -- apart.
  unfoldable pub strict_eq : Value Num → Value Num → Bool
  unfolding bytes_eq
  strict_eq undefined undefined = true
  strict_eq null null = true
  strict_eq (bool a) (bool b) = bool_eq a b
  strict_eq (num a) (num b) = num_eq a b
  strict_eq (str a) (str b) = bytes_eq a b
  strict_eq _ _ = false

  -- `a < b`: strings by their code units; between different types JavaScript converts.
  unfoldable pub js_lt : Value Num → Value Num → Bool
  unfolding bytes_lt
  js_lt undefined b = false
  js_lt (num a) (num b) = num_lt a b
  js_lt (str a) (str b) = bytes_lt a b
  js_lt a b = mixed_lt a b

  -- The ladder that the four orders share: `null` comes first.
  unfoldable pub null_first : (Value Num → Value Num → Bool) → Value Num → Value Num → Bool
  null_first lt null null = false
  null_first lt null b = true
  null_first lt a null = false
  null_first lt a b = lt a b

  abbrev pub string_order : Order Num
  string_order = record { less = null_first js_lt; equals = strict_eq }

  abbrev pub number_order : Order Num
  number_order = record { less = null_first js_lt; equals = strict_eq }

  unfoldable pub byte_less : Value Num → Value Num → Bool
  unfolding less_than
  byte_less (bin a) (bin b) = less_than (some a) (some b)
  byte_less _ _ = false

  unfoldable pub byte_equals : Value Num → Value Num → Bool
  unfolding bytes_eq
  byte_equals null null = true
  byte_equals (bin a) (bin b) = bytes_eq a b
  byte_equals _ _ = false

  abbrev pub byte_order : Order Num
  byte_order = record { less = null_first byte_less; equals = byte_equals }

  unfoldable pub boolean_less : Value Num → Value Num → Bool
  boolean_less (bool a) (bool b) = not a && b
  boolean_less _ _ = false

  unfoldable pub boolean_equals : Value Num → Value Num → Bool
  boolean_equals null null = true
  boolean_equals (bool a) (bool b) = bool_eq a b
  boolean_equals _ _ = false

  abbrev pub boolean_order : Order Num
  boolean_order = record { less = null_first boolean_less; equals = boolean_equals }

  abbrev pub primitive_type_orders : PrimitiveType → Order Num
  primitive_type_orders integer = number_order
  primitive_type_orders float = number_order
  primitive_type_orders string = string_order
  primitive_type_orders bytes = byte_order
  primitive_type_orders boolean = boolean_order
  primitive_type_orders json = string_order

  -- `model.properties.find((property) => property.name === name)`
  unfoldable pub find_property : Str → List Property → Option Property
  unfolding bytes_eq
  find_property name [] = none
  find_property name (p ∷ ps) =
      if bytes_eq (property_name p) name then some p else find_property name ps

  unfoldable pub compare_by : Order Num → Direction → Value Num → Value Num → Sign
  compare_by order asc a b =
      if order.less a b then minus else if order.equals a b then same else plus
  compare_by order desc a b =
      if order.less a b then plus else if order.equals a b then same else minus

  -- The order that a property is sorted by.
  unfoldable pub property_order : Property → Result (Order Num)
  property_order (primary name) = ok string_order
  property_order (primitive name type optional) = ok (primitive_type_orders type)
  property_order (reference name target optional) = ok string_order
  property_order (relation name target) = throw "cannot orderBy a relation property"

  unfoldable pub compare_property :
      Option Property → Str → Direction → Result (ModelValue Num → ModelValue Num → Sign)
  unfolding property_order compare_by
  compare_property none name direction = throw "property not found"
  compare_property (some property) name direction = do
    order ← property_order property
    ok (λ a b. compare_by order direction (get a name) (get b name))

  unfoldable pub get_compare :
      Model → List (Str × Direction) → Result (ModelValue Num → ModelValue Num → Sign)
  unfolding find_property compare_property
  get_compare model ((name, direction) ∷ []) =
      compare_property (find_property name model.properties) name direction
  get_compare model _ = throw "orderBy must have exactly one entry"
