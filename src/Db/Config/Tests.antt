-- ===== src/Db/Config/Tests.antt =====
-- The models of packages/modeldb/test/config.test.ts, with an index on a relation.
use canvas.Base.{◌≡◌, refl, true, false, ◌↔◌, none, some, [], ◌∷◌, codes, ok, throw}
use canvas.Db.Types.{string, primary, primitive, reference, relation}
use canvas.Db.Config.{is_name, parse_property, one, text, ModelInit, Config, parse_config}
use canvas.Db.Config.Printed.{Declares, parse_property_iff}
use canvas.Db.Config.Models.{ModelsOf, all_relations, DistinctNames, parse_config-eq-ok}

abbrev user : ModelInit
user = record {
  name = codes "user";
  indexes = none;
  rest = (codes "id", text (codes "primary")) ∷ (codes "name", text (codes "string")) ∷ [];
}

abbrev room : ModelInit
room = record {
  name = codes "room";
  indexes = some (one (codes "members") ∷ one (codes "creator") ∷ []);
  rest =
      (codes "id", text (codes "primary"))
      ∷ (codes "creator", text (codes "@user"))
      ∷ (codes "members", text (codes "@user[]"))
      ∷ [];
}

abbrev config : Config
config = record {
  relations =
      record {
        source = codes "room";
        property = codes "members";
        target = codes "user";
        indexed = true;
      }
      ∷ [];
  models =
      record {
        name = codes "user";
        primary_key = codes "id";
        properties = primary (codes "id") ∷ primitive (codes "name") string false ∷ [];
        indexes = [];
      }
      ∷ record {
        name = codes "room";
        primary_key = codes "id";
        properties =
            primary (codes "id")
            ∷ reference (codes "creator") (codes "user") false
            ∷ relation (codes "members") (codes "user")
            ∷ [];
        indexes = (codes "creator" ∷ []) ∷ [];
      }
      ∷ [];
}

parses : parse_config (user ∷ room ∷ []) ≡ ok config
unfolding parse_config
parses = refl

differ : DistinctNames (user ∷ room ∷ [])
unfolding parse_config
differ = ((refl, tt), (tt, tt))

parse_config-eq-ok_example :
    ModelsOf (user ∷ room ∷ []) config.models
    × (config.relations ≡ all_relations (user ∷ room ∷ []) config.models)
parse_config-eq-ok_example = parse_config-eq-ok (user ∷ room ∷ []) differ parses

parse_property_iff_example :
    (parse_property (codes "room") (codes "@chat.room?")
      ≡ ok (reference (codes "room") (codes "chat.room") true))
    ↔ Declares
        (codes "room")
        (codes "@chat.room?")
        (reference (codes "room") (codes "chat.room") true)
parse_property_iff_example =
    parse_property_iff (codes "room") (codes "@chat.room?")
      (reference (codes "room") (codes "chat.room") true)

optional_json :
    parse_property (codes "data") (codes "json?") ≡ throw "json fields cannot be optional"
unfolding parse_property
optional_json = refl

-- A model may be called `User`, and no property can refer to it.
capital : is_name (codes "User") ≡ true
unfolding is_name
capital = refl

capital_target : parse_property (codes "owner") (codes "@User") ≡ throw "invalid property"
unfolding parse_property
capital_target = refl
