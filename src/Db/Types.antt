-- ===== src/Db/Types.antt =====
-- packages/modeldb/src/types.ts: schemas and values. What is modelled of JavaScript's values is the
-- declared types, with `undefined` for a property that an object lacks.
use canvas.Base.{ℕ, Bool, Option, none, some, List, Str, Bytes}
use canvas.Base.Maps.{lookup}

pub data PrimitiveType : Type 0 where
  integer float string bytes boolean json : PrimitiveType

pub data Property : Type 0 where
  primary : (name : Str) → Property
  primitive : (name : Str) (type : PrimitiveType) (optional : Bool) → Property
  reference : (name target : Str) (optional : Bool) → Property
  relation : (name target : Str) → Property

abbrev pub property_name : Property → Str
property_name (primary name) = name
property_name (primitive name type optional) = name
property_name (reference name target optional) = name
property_name (relation name target) = name

pub record Model : Type 0 where
  pub name : Str
  pub primary_key : Str
  pub properties : List Property
  pub indexes : List (List Str)

pub record Relation : Type 0 where
  pub source : Str
  pub property : Str
  pub target : Str
  pub indexed : Bool

-- `PropertyValue`, over the numbers of JavaScript.
-- A property that an object lacks reads as `undefined`.
pub data Value (N : Type 0) : Type 0 where
  undefined null : Value N
  bool : Bool → Value N
  num : N → Value N
  str : Str → Value N
  bin : Bytes → Value N
  strs : List Str → Value N

-- What the program uses of JavaScript that is not defined here: its numbers, with `===` and `<`,
-- `<` between values of different types, and JSON.
pub record Js : Type 1 where
  pub Num : Type 0
  pub num_eq : Num → Num → Bool
  pub num_lt : Num → Num → Bool
  pub is_safe_integer : Num → Bool
  pub num_0 : Num
  pub num_1 : Num
  pub mixed_lt : Value Num → Value Num → Bool
  pub stringify : Value Num → Option Str
  pub parse : Str → Option (Value Num)

-- A `ModelValue`: an object with a value for each property.
abbrev pub ModelValue : Type 0 → Type 0
ModelValue N = List (Str × Value N)

abbrev pub defined : {N : Type 0} → Option (Value N) → Value N
defined none = undefined
defined (some v) = v

-- `value[name]`
abbrev pub get : {N : Type 0} → ModelValue N → Str → Value N
get row name = defined (lookup name row)

pub data Expression (N : Type 0) : Type 0 where
  literal : Value N → Expression N
  neq : Value N → Expression N
  range : (gt gte lt lte : Option (Value N)) → Expression N

pub data Direction : Type 0 where
  asc desc : Direction

pub record QueryParams (N : Type 0) : Type 0 where
  pub select : Option (List (Str × Bool))
  pub where_ : Option (List (Str × Expression N))
  pub order_by : Option (List (Str × Direction))
  pub limit : Option ℕ
  pub offset : Option ℕ

pub data Effect (N : Type 0) : Type 0 where
  set : (model : Str) → ModelValue N → Effect N
  delete : (model key : Str) → Effect N
