-- ===== src/Db/Config.antt =====
-- packages/modeldb/src/config.ts: the models of a database, from the texts that declare them.
pub mod Printed
pub mod Models
mod Tests
use canvas.Base.{
  ℕ, Bool, true, false, not, ◌&&◌, ◌||◌, Option, none, some, String, List, [], ◌∷◌, ◌++◌, Str,
  bytes_eq, codes, leb, ◌==◌, all, any, filter, length, if◌then◌else◌, Result, ok, throw, assert,
  ◌>>=◌, ◌>>◌,
}
use canvas.Base.Maps.{has}
use canvas.Db.Types.{
  PrimitiveType, integer, float, string, bytes, boolean, json, Property, primary, primitive,
  reference, relation, property_name, Model, Relation,
}

abbrev pub is_digit : ℕ → Bool
is_digit c = leb b'0' c && leb c b'9'

abbrev pub is_lower : ℕ → Bool
is_lower c = leb b'a' c && leb c b'z'

-- The class of `namePattern`, of packages/modeldb/src/utils.ts.
unfoldable pub is_name_char : ℕ → Bool
is_name_char c =
    is_lower c
    || (leb b'A' c && leb c b'Z')
    || is_digit c
    || c == b'$'
    || c == b':'
    || c == b'_'
    || c == b'-'
    || c == b'.'

-- `namePattern.test(name)`
unfoldable pub is_name : Str → Bool
unfolding is_name_char
is_name [] = false
is_name (c ∷ cs) = all is_name_char (c ∷ cs)

-- The class `[a-z0-9.-]` of the targets.
unfoldable pub is_target_char : ℕ → Bool
is_target_char c = is_lower c || is_digit c || c == b'.' || c == b'-'

-- What is left of a text after a prefix.
unfoldable pub after : (prefix text : Str) → Option Str
after [] text = some text
after (c ∷ cs) [] = none
after (c ∷ cs) (d ∷ ds) = if c == d then after cs ds else none

abbrev pub type_text : PrimitiveType → Str
type_text integer = codes "integer"
type_text float = codes "float"
type_text string = codes "string"
type_text bytes = codes "bytes"
type_text boolean = codes "boolean"
type_text json = codes "json"

abbrev pub primitive_types : List PrimitiveType
primitive_types = integer ∷ float ∷ string ∷ bytes ∷ boolean ∷ json ∷ []

-- `(\??)$`: whether the `?` is there.
unfoldable pub optional_end : Str → Option Bool
unfolding bytes_eq
optional_end rest =
    if bytes_eq rest [] then some false else if bytes_eq rest (codes "?") then some true else none

abbrev pub ends : Option Str → Option Bool
ends none = none
ends (some rest) = optional_end rest

abbrev pub first_match :
    PrimitiveType → Option Bool → Option (PrimitiveType × Bool) → Option (PrimitiveType × Bool)
first_match type none others = others
first_match type (some optional) others = some (type, optional)

-- `primitivePropertyPattern.exec(text)`: the alternatives are tried in turn.
unfoldable pub match_types : List PrimitiveType → Str → Option (PrimitiveType × Bool)
unfolding after optional_end
match_types [] text = none
match_types (type ∷ types) text =
    first_match type (ends (after (type_text type) text)) (match_types types text)

-- The longest start of a text in the class of targets, and the rest.
unfoldable pub span_target : Str → Str × Str
unfolding is_target_char
span_target [] = ([], [])
span_target (c ∷ cs) =
    let (target, rest) = span_target cs in
    if is_target_char c then (c ∷ target, rest) else ([], c ∷ cs)

-- `@([a-z0-9.-]+)`: the target, and the rest.
unfoldable pub match_target : Str → Option (Str × Str)
unfolding span_target
match_target [] = none
match_target (c ∷ cs) =
    let (target, rest) = span_target cs in
    if c == b'@' && not (bytes_eq target []) then some (target, rest) else none

-- The end of `parseProperty`: the patterns of references and relations, after their common start.
unfoldable pub parse_target : (name : Str) → Option (Str × Str) → Result Property
unfolding optional_end bytes_eq
parse_target name none = throw "invalid property"
parse_target name (some (target, rest)) = elim (optional_end rest) [
  | some optional ↦ ok (reference name target optional)
  | none ↦
      if bytes_eq rest (codes "[]") then ok (relation name target) else throw "invalid property"
]

abbrev pub is_json : PrimitiveType → Bool
is_json json = true
is_json _ = false

unfoldable pub parse_type : (name text : Str) → Option (PrimitiveType × Bool) → Result Property
unfolding match_target parse_target
parse_type name text none = parse_target name (match_target text)
parse_type name text (some (type, optional)) =
    if is_json type && optional
    then throw "json fields cannot be optional"
    else ok (primitive name type optional)

-- `parseProperty`
unfoldable pub parse_property : (name text : Str) → Result Property
unfolding is_name match_types parse_type bytes_eq
parse_property name text = do
  assert (is_name name) "expected property name to match /^[a-zA-Z0-9$:_\\-\\.]+$/"
  (if bytes_eq text (codes "primary")
      then ok (primary name)
      else parse_type name text (match_types primitive_types text))

-- `IndexInit`
pub data IndexInit : Type 0 where
  one : Str → IndexInit
  many : List Str → IndexInit

-- The value of a property of a `ModelsInit`; `$indexes` is taken out.
pub data Declared : Type 0 where
  text : Str → Declared
  array : List IndexInit → Declared

pub record ModelInit : Type 0 where
  pub name : Str
  pub indexes : Option (List IndexInit)
  pub rest : List (Str × Declared)

pub record Config : Type 0 where
  pub relations : List Relation
  pub models : List Model

-- `$indexes?.includes(name) ?? false`
abbrev pub names_property : Str → IndexInit → Bool
names_property name (one index) = bytes_eq index name
names_property name (many names) = false

abbrev pub includes_index : Option (List IndexInit) → Str → Bool
includes_index none name = false
includes_index (some indexes) name = any (names_property name) indexes

abbrev pub parse_declared : Str → Declared → Result Property
parse_declared name (array indexes) = throw "invalid property type"
parse_declared name (text type) = parse_property name type

-- `relations.push` for a property.
abbrev pub push_relation :
    (source name : Str) → (indexed : Bool) → Property → List Relation → List Relation
push_relation source name indexed (relation _ target) relations =
    relations
    ++ record { source = source; property = name; target = target; indexed = indexed } ∷ []
push_relation source name indexed _ relations = relations

-- The loop over the properties: the properties, and the relations so far.
unfoldable pub parse_properties :
    (model : ModelInit)
    → List (Str × Declared)
    → List Property × List Relation
    → Result (List Property × List Relation)
unfolding parse_property bytes_eq
parse_properties model [] found = ok found
parse_properties model ((name, declared) ∷ rest) (properties, relations) = do
  property ← parse_declared name declared
  parse_properties model rest (
    properties ++ property ∷ [],
    push_relation model.name name (includes_index model.indexes name) property relations,
  )

abbrev pub is_primary : Property → Bool
is_primary (primary name) = true
is_primary _ = false

-- The one `primary` property.
abbrev pub only_primary : List Property → Result Str
only_primary (p ∷ []) = ok (property_name p)
only_primary _ = throw "models must have exactly one `primary` property"

abbrev pub names_relation : (source : Str) → IndexInit → Relation → Bool
names_relation source index r = bytes_eq r.source source && names_property r.property index

abbrev pub columns_of : IndexInit → List Str
columns_of (one index) = index ∷ []
columns_of (many names) = names

-- The loop over `$indexes`.
unfoldable pub parse_indexes : (source : Str) → List Relation → List IndexInit → List (List Str)
unfolding bytes_eq
parse_indexes source relations [] = []
parse_indexes source relations (index ∷ indexes) =
    let rest = parse_indexes source relations indexes in
    if any (names_relation source index) relations then rest else columns_of index ∷ rest

abbrev pub list_of : Option (List IndexInit) → List IndexInit
list_of none = []
list_of (some indexes) = indexes

-- The loop over the models.
unfoldable pub parse_models : List ModelInit → Config → Result Config
unfolding is_name parse_properties parse_indexes
parse_models [] config = ok config
parse_models (init ∷ inits) config = do
  assert (is_name init.name) "expected model name to match /^[a-zA-Z0-9$:_\\-\\.]+$/"
  (properties, relations) ← parse_properties init init.rest ([], config.relations)
  primary_key ← only_primary (filter is_primary properties)
  parse_models inits (record {
    relations = relations;
    models =
        config.models
        ++ record {
          name = init.name;
          primary_key = primary_key;
          properties = properties;
          indexes = parse_indexes init.name relations (list_of init.indexes);
        }
          ∷ [];
  })

-- `parseConfig`
unfoldable pub parse_config : List ModelInit → Result Config
unfolding parse_models
parse_config inits = parse_models inits (record { relations = []; models = [] })
