-- ===== src/Db/Sqlite/Api.antt =====
-- packages/modeldb/src/sqlite/api.ts and utils.ts: the tables of a model and of its relations, by
-- statements in SQL. What a statement does is SQLite's; its text is built here.
pub mod Params
use canvas.Base.{
  ℕ, zero, suc, ◌+◌, ◌/◌, ◌%◌, ltb, Bool, true, false, not, Option, none, some, List, [], ◌∷◌, ◌++◌,
  map, Str, String, codes, bytes_eq, if◌then◌else◌, Result, ok, throw, assert, ◌>>=◌, ◌>>◌,
}
use canvas.Base.Maps.{lookup, put}
use canvas.Gossip.Log.Types.{or_throw}
use canvas.Db.Types.{
  PrimitiveType, integer, float, string, bytes, boolean, json, Property, primary, primitive,
  reference, relation, property_name, Model, Relation, Value, undefined, null, bool, num, str, bin,
  strs, Js, ModelValue, get,
}
use canvas.Db.Validate.{validate_model_value}
use canvas.Db.Sqlite.{
  SqlValue, missing, nothing, number, text, blob, column, encode_record_params, decode_record,
}

-- `${i}`
unfoldable pub decimal_fuel : ℕ → ℕ → Str
decimal_fuel zero n = []
decimal_fuel (suc fuel) n =
    let rest = decimal_fuel fuel (n / 10) in
    if ltb n 10 then (b'0' + n) ∷ [] else rest ++ (b'0' + n % 10) ∷ []

abbrev pub decimal : ℕ → Str
decimal n = decimal_fuel (suc n) n

-- `strings.join(separator)`
unfoldable pub join : Str → List Str → Str
join separator [] = []
join separator (s ∷ []) = s
join separator (s ∷ t ∷ ss) = s ++ (separator ++ join separator (t ∷ ss))

abbrev pub comma : Str
comma = codes ", "

-- `"${name}"`
abbrev pub quoted : Str → Str
quoted name = codes "\"" ++ (name ++ codes "\"")

-- `'${name}'`
abbrev pub single_quoted : Str → Str
single_quoted name = codes "'" ++ (name ++ codes "'")

abbrev pub primitive_column_type : PrimitiveType → Str
primitive_column_type integer = codes "INTEGER"
primitive_column_type float = codes "FLOAT"
primitive_column_type string = codes "TEXT"
primitive_column_type bytes = codes "BLOB"
primitive_column_type boolean = codes "INTEGER"
primitive_column_type json = codes "TEXT"

-- `getPropertyColumnType`, where it does not throw.
unfoldable pub column_type : Property → Result Str
column_type (primary name) = ok (codes "TEXT PRIMARY KEY NOT NULL")
column_type (primitive name type true) = ok (primitive_column_type type)
column_type (primitive name type false) = ok (primitive_column_type type ++ codes " NOT NULL")
column_type (reference name target true) = ok (codes "TEXT")
column_type (reference name target false) = ok (codes "TEXT NOT NULL")
column_type (relation name target) =
    throw "internal error - relation properties don't map to columns"

unfoldable pub property_column : Property → Result Str
unfolding column_type
property_column p = do
  type ← column_type p
  ok (single_quoted (property_name p) ++ (codes " " ++ type))

-- The statements of a `RelationAPI`.
pub record RelationApi : Type 0 where
  pub table : Str
  pub select : Str
  pub insert : Str
  pub delete : Str

-- The state that `ModelAPI` keeps: its parameters by property, its relations, and its statements.
pub record ModelApi : Type 0 where
  pub model : Model
  pub params : List (Str × Str)
  pub relations : List (Str × RelationApi)
  pub primary_key_name : Str
  pub primary_key_param : Str
  pub insert : Str
  pub update : Str
  pub delete : Str
  pub select : Str
  pub select_all : Str
  pub count : Str

abbrev pub relation_table : (source property : Str) → Str
relation_table source property = source ++ (codes "/" ++ property)

unfoldable pub relation_api : (source property : Str) → RelationApi
relation_api source property =
    let table = relation_table source property in
    record {
      table = table;
      select = codes "SELECT _target FROM " ++ (quoted table ++ codes " WHERE _source = :_source");
      insert =
          codes "INSERT INTO "
          ++ (quoted table ++ codes " (_source, _target) VALUES (:_source, :_target)");
      delete = codes "DELETE FROM " ++ (quoted table ++ codes " WHERE _source = :_source");
    }

-- The statements that the constructor of a `RelationAPI` executes.
unfoldable pub relation_schema : (source property : Str) → (indexed : Bool) → List Str
relation_schema source property indexed =
    let table = relation_table source property in
    (codes "CREATE TABLE IF NOT EXISTS "
      ++ (quoted table ++ codes " (_source TEXT NOT NULL, _target TEXT NOT NULL)"))
    ∷ (codes "CREATE INDEX IF NOT EXISTS "
        ++ (quoted (table ++ codes "/source")
            ++ (codes " ON " ++ (quoted table ++ codes " (_source)"))))
    ∷ (if indexed
        then (codes "CREATE INDEX IF NOT EXISTS "
            ++ (quoted (table ++ codes "/target")
                ++ (codes " ON " ++ (quoted table ++ codes " (_target)"))))
          ∷ []
        else [])

abbrev pub param_name : ℕ → Str
param_name i = codes "p" ++ decimal i

-- The properties with a column, each with its parameter.
unfoldable pub params_from : ℕ → List Property → List (Str × Str)
unfolding decimal_fuel
params_from i [] = []
params_from i (relation name target ∷ ps) = params_from (suc i) ps
params_from i (p ∷ ps) = (property_name p, param_name i) ∷ params_from (suc i) ps

unfoldable pub relations_from : (source : Str) → List Property → List (Str × RelationApi)
unfolding relation_api
relations_from source [] = []
relations_from source (relation name target ∷ ps) =
    (name, relation_api source name) ∷ relations_from source ps
relations_from source (p ∷ ps) = relations_from source ps

-- The last primary property, with its parameter.
unfoldable pub primary_from : ℕ → List Property → Option (Str × Str)
unfolding decimal_fuel
primary_from i [] = none
primary_from i (primary name ∷ ps) = elim (primary_from (suc i) ps) [
  | none ↦ some (name, param_name i)
  | some later ↦ some later
]
primary_from i (p ∷ ps) = primary_from (suc i) ps

abbrev pub where_key : (name param : Str) → Str
where_key name param = codes "WHERE " ++ (quoted name ++ (codes " = :" ++ param))

abbrev pub select_columns : List (Str × Str) → Str
select_columns params = join comma (map (λ p. quoted p.0) params)

-- What the constructor prepares, for a primary key.
abbrev pub model_statements : Model → (key_name key_param : Str) → ModelApi
model_statements model key_name key_param =
    let params = params_from 0 model.properties in
    let table = quoted model.name in
    let where_ = where_key key_name key_param in
    record {
      model = model;
      params = params;
      relations = relations_from model.name model.properties;
      primary_key_name = key_name;
      primary_key_param = key_param;
      insert =
          codes "INSERT OR IGNORE INTO "
          ++ (table
              ++ (codes " ("
                  ++ (select_columns params
                      ++ (codes ") VALUES ("
                          ++ (join comma (map (λ p. codes ":" ++ p.1) params) ++ codes ")")))));
      update =
          codes "UPDATE "
          ++ (table
              ++ (codes " SET "
                  ++ (join comma (map (λ p. quoted p.0 ++ (codes " = :" ++ p.1)) params)
                      ++ (codes " " ++ where_))));
      delete = codes "DELETE FROM " ++ (table ++ (codes " " ++ where_));
      select =
          codes "SELECT "
          ++ (select_columns params ++ (codes " FROM " ++ (table ++ (codes " " ++ where_))));
      select_all = codes "SELECT " ++ (select_columns params ++ (codes " FROM " ++ table));
      count = codes "SELECT COUNT(*) AS count FROM " ++ table;
    }

-- The constructor, but what it executes.
unfoldable pub model_api : Model → Result ModelApi
unfolding params_from relations_from primary_from join
model_api model = do
  (key_name, key_param) ← or_throw (primary_from 0 model.properties) "expected primaryKey !== null"
  ok (model_statements model key_name key_param)

-- The columns of the table of records, for `CREATE TABLE`.
unfoldable pub columns_from : List Property → Result (List Str)
unfolding property_column
columns_from [] = ok []
columns_from (relation name target ∷ ps) = columns_from ps
columns_from (p ∷ ps) = do c ← property_column p; cs ← columns_from ps; ok (c ∷ cs)

abbrev pub index_schema : (table : Str) → List Str → Str
index_schema table index =
    codes "CREATE INDEX IF NOT EXISTS "
    ++ (quoted (table ++ (codes "/" ++ join (codes "/") index))
        ++ (codes " ON "
            ++ (quoted table
                ++ (codes " (" ++ (join comma (map single_quoted index) ++ codes ")")))))

unfoldable pub relation_schemas : (source : Str) → List Property → List Str
unfolding relation_schema
relation_schemas source [] = []
relation_schemas source (relation name target ∷ ps) =
    relation_schema source name false ++ relation_schemas source ps
relation_schemas source (p ∷ ps) = relation_schemas source ps

-- The statements that the constructor executes, in order.
unfoldable pub model_schema : Model → Result (List Str)
unfolding columns_from relation_schemas join
model_schema model = do
  columns ← columns_from model.properties
  ok (
      relation_schemas model.name model.properties
      ++ (codes "CREATE TABLE IF NOT EXISTS "
          ++ (quoted model.name ++ (codes " (" ++ (join comma columns ++ codes ")"))))
        ∷ map (index_schema model.name) model.indexes)

abbrev pub or_empty : Option Str → Str
or_empty none = []
or_empty (some s) = s

-- `this.#params[name]`
abbrev pub param_of : ModelApi → Str → Str
param_of api name = or_empty (lookup name api.params)
