-- ===== src/Db/Idb/Store.antt =====
-- packages/modeldb/src/idb/api.ts and ModelDB.ts: get, set and delete of a row, and the effects of a
-- transaction, over the object stores of IndexedDB.
pub mod Laws
pub mod Tests
use canvas.Base.{Bool, Option, none, some, List, [], ◌∷◌, Str, Result, ok, throw, ◌>>=◌, ◌>>◌}
use canvas.Base.Maps.{lookup}
use canvas.Gossip.Log.Types.{or_throw}
use canvas.Db.Types.{Model, Js, ModelValue, Effect, set, delete}
use canvas.Db.Validate.{validate_model_value}
use canvas.Db.Idb.{Stored, encode_object, decode_object}

-- `ObjectValue`
abbrev pub Object : Type 0 → Type 0
Object N = List (Str × Stored N)

-- `get`, `put` and `delete` of the object store of a model, in a transaction.
pub record ObjectStores (N : Type 0) : Type 1 where
  pub State : Type 0
  pub get_object : (store key : Str) → State → Option (Object N)
  pub put_object : (store : Str) → Object N → State → Result State
  pub delete_object : (store key : Str) → State → State

module _ (js : Js) (stores : ObjectStores js.Num) where
  open js use {Num}
  open stores use {State, get_object, put_object, delete_object}

  abbrev pub decode_found : Model → Option (Object Num) → Result (Option (ModelValue Num))
  decode_found model none = ok none
  decode_found model (some object) = do
    value ← decode_object js model.properties object
    ok (some value)

  -- `ModelAPI.get`
  unfoldable pub get_value : Model → Str → State → Result (Option (ModelValue Num))
  unfolding decode_object
  get_value model key s = decode_found model (get_object model.name key s)

  -- `ModelAPI.set`
  unfoldable pub set_value : Model → ModelValue Num → State → Result State
  unfolding validate_model_value encode_object
  set_value model value s = do
    validate_model_value js model value
    put_object model.name (encode_object js model.properties value) s

  -- `ModelAPI.delete`
  unfoldable pub delete_value : Model → Str → State → State
  delete_value model key s = delete_object model.name key s

  -- The transaction of `apply`; one that throws is aborted.
  unfoldable pub apply_effects : List (Str × Model) → List (Effect Num) → State → Result State
  unfolding set_value delete_value lookup
  apply_effects models [] s = ok s
  apply_effects models (set name value ∷ effects) s = do
    model ← or_throw (lookup name models) "model not found"
    s' ← set_value model value s
    apply_effects models effects s'
  apply_effects models (delete name key ∷ effects) s = do
    model ← or_throw (lookup name models) "model not found"
    apply_effects models effects (delete_value model key s)
