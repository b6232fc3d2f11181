-- ===== src/Runtime/Schema.antt =====
-- packages/core/src/runtime/AbstractRuntime.ts: the tables of a runtime's database (getModelSchema);
-- packages/modeldb/src/AbstractModelDB.ts: the models of a database, by their names.
pub mod Laws
use canvas.Base.{Bool, none, some, List, [], ◌∷◌, Str, codes, bytes_eq, if◌then◌else◌}
use canvas.Base.Maps.{put}
use canvas.Db.Types.{Model}
use canvas.Db.Config.{IndexInit, one, many, Declared, text, ModelInit}

abbrev pub effects_model : ModelInit
effects_model = record {
  name = codes "$effects";
  indexes = none;
  rest = (codes "key", text (codes "primary")) ∷ (codes "value", text (codes "bytes?")) ∷ [];
}

abbrev pub versions_model : ModelInit
versions_model = record {
  name = codes "$versions";
  indexes = none;
  rest = (codes "key", text (codes "primary")) ∷ (codes "version", text (codes "bytes")) ∷ [];
}

abbrev pub sessions_model : ModelInit
sessions_model = record {
  name = codes "$sessions";
  indexes = some (many (codes "address" ∷ []) ∷ many (codes "public_key" ∷ []) ∷ []);
  rest =
      (codes "message_id", text (codes "primary"))
      ∷ (codes "public_key", text (codes "string"))
      ∷ (codes "address", text (codes "string"))
      ∷ (codes "expiration", text (codes "integer?"))
      ∷ (codes "rawMessage", text (codes "string"))
      ∷ (codes "rawSignature", text (codes "string"))
      ∷ [];
}

-- `{ ...inits, [init.name]: init }`
unfoldable pub put_init : ModelInit → List ModelInit → List ModelInit
unfolding bytes_eq
put_init init [] = init ∷ []
put_init init (i ∷ inits) =
    if bytes_eq i.name init.name then init ∷ inits else i ∷ put_init init inits

-- `getModelSchema`
abbrev pub get_model_schema : List ModelInit → (index_history : Bool) → List ModelInit
get_model_schema inits index_history =
    if index_history
    then put_init effects_model (put_init sessions_model inits)
    else put_init versions_model (put_init sessions_model inits)

-- `this.models[model.name] = model`, for every model.
unfoldable pub db_models : List Model → List (Str × Model) → List (Str × Model)
unfolding put
db_models [] models = models
db_models (m ∷ ms) models = db_models ms (put m.name m models)
