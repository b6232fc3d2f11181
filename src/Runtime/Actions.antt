-- ===== src/Runtime/Actions.antt =====
-- packages/core/src/runtime/ContractRuntime.ts and FunctionRuntime.ts: how the two runtimes execute an
-- action, and the runtime that each makes of packages/core/src/runtime/AbstractRuntime.ts.
pub mod Laws
pub mod Runs
pub mod Reads
pub mod Objects
pub mod Valid
mod Tests
use canvas.Base.{
  ℕ, Bool, true, false, Option, none, some, List, [], ◌∷◌, map, Str, Bytes, String, Result, ok,
  throw, ◌>>=◌, ◌>>◌, if◌then◌else◌,
}
use canvas.Base.Maps.{lookup, put}
use canvas.Gossip.Log.Types.{or_throw}
use canvas.Db.Types.{Model, Value, str, Js, ModelValue, get}
use canvas.Db.Validate.{validate_model_value}
use canvas.Runtime.State.{
  SessionPayload, ActionPayload, Payload, session, action, other, Delivery, Env, Db,
}

-- `modelEntries` of an `ExecutionContext`.
abbrev pub Entries : Type 0 → Type 0
Entries N = List (Str × List (Str × Option (ModelValue N)))

-- What an action does, by its calls of the database: it goes on with what a call returns or throws.
-- So its calls depend on nothing else, and a value that it has set is not changed afterwards.
pub data Action (N : Type 0) : Type 0 where
  returns : Action N
  throws : String → Action N
  gets : (model key : Str) → (Result (Option (ModelValue N)) → Action N) → Action N
  sets : (model : Str) → ModelValue N → (Result (Unit {0}) → Action N) → Action N
  deletes : (model key : Str) → (Result (Unit {0}) → Action N) → Action N

-- The database as an action has it: `ModelAPI` of packages/core/src/types.ts.
pub record ModelApi (N : Type 0) : Type 0 where
  pub get_row : (model key : Str) → Entries N → Result (Option (ModelValue N))
  pub set_row : (model : Str) → ModelValue N → Entries N → Result (Entries N)
  pub delete_row : (model key : Str) → Entries N → Result (Entries N)

-- The context that an action is called with; a contract does not get the public key.
pub record ActionContext : Type 0 where
  pub id : Str
  pub public_key : Option Str
  pub address : Str
  pub blockhash : Option Str
  pub timestamp : ℕ

-- An action, with `toTyped` of its transformer. What it does depends on its arguments and context.
pub record Implementation (Args N : Type 0) : Type 1 where
  pub Typed : Type 0
  pub to_typed : Args → Option Typed
  pub apply : Typed → ActionContext → Action N

-- The two runtimes.
pub data Kind : Type 0 where
  contract function : Kind

-- What a runtime is made of; what it takes from elsewhere is as in `Env`.
pub record Host : Type 2 where
  pub js : Js
  pub Args : Type 0
  pub topic : Str
  pub models : List (Str × Model)
  pub actions : List (Str × Implementation Args js.Num)
  pub index_history : Bool
  pub ignore_missing_actions : Bool
  -- A value as the key of an object, where it is not a string.
  pub property_key : Value js.Num → Str
  pub matches : Str → Bool
  pub verify_session : Str → SessionPayload → Bool
  pub raw_message : Delivery Args → Str
  pub raw_signature : Delivery Args → Str
  pub key_hash : Str → Str
  pub write_own :
      (model key : Str)
      → Option (ModelValue js.Num)
      → Db (ModelValue js.Num)
      → Db (ModelValue js.Num)
  pub encode_row : ModelValue js.Num → Bytes
  pub decode_row : Option Bytes → Result (Option (ModelValue js.Num))
  pub encode_id : Str → Bytes
  pub decode_id : Bytes → Str

-- `getModelValue` of the context.
abbrev pub Read : Type 0 → Type 0
Read N = Option (Option (ModelValue N)) → Str → Str → Result (Option (ModelValue N))

-- `modelEntries[model][key] = value`
unfoldable pub put_entry :
    {N : Type 0} → Str → Str → Option (ModelValue N) → Entries N → Result (Entries N)
unfolding put lookup
put_entry model key value entries = do
  rows ← or_throw (lookup model entries) "modelEntries[model] is undefined"
  ok (put model (put key value rows) entries)

-- `mapValues(runtime.db.models, () => ({}))`
abbrev pub no_entries : {N : Type 0} → List (Str × Model) → Entries N
no_entries models = map (λ m. (m.0, [])) models

abbrev pub after : {N : Type 0} → Result (Entries N) → Entries N → Entries N
after (ok entries') entries = entries'
after (throw message) entries = entries

abbrev pub outcome : {N : Type 0} → Result (Entries N) → Result (Unit {0})
outcome (ok entries) = ok tt
outcome (throw message) = throw message

-- The calls of an action, one after another. A call that throws has written nothing.
unfoldable pub run_action : {N : Type 0} → ModelApi N → Action N → Entries N → Result (Entries N)
run_action api returns entries = ok entries
run_action api (throws message) entries = throw message
run_action api (gets model key next) entries =
    run_action api (next (api.get_row model key entries)) entries
run_action api (sets model value next) entries =
    let called = api.set_row model value entries in
    run_action api (next (outcome called)) (after called entries)
run_action api (deletes model key next) entries =
    let called = api.delete_row model key entries in
    run_action api (next (outcome called)) (after called entries)

module _ (host : Host) where
  open host use {js, Args, models, actions, index_history, ignore_missing_actions, property_key}

  -- `getModelValue`, from the entries of the context.
  abbrev pub get_in : Read js.Num → Str → Str → Entries js.Num → Result (Option (ModelValue js.Num))
  get_in read model key entries =
      if index_history
      then (do
        rows ← or_throw (lookup model entries) "modelEntries[model] is undefined"
        read (lookup key rows) model key)
      else throw "cannot call .get if indexHistory is disabled"

  abbrev pub string_key : Value js.Num → Result Str
  string_key (str key) = ok key
  string_key _ = throw "expected value[primaryKey] to be a string"

  abbrev pub key_text : Value js.Num → Str
  key_text (str key) = key
  key_text v = property_key v

  -- `#databaseAPI` of a `ContractRuntime`
  unfoldable pub contract_api : Read js.Num → ModelApi js.Num
  unfolding put_entry validate_model_value lookup
  contract_api read = record {
    get_row = get_in read;
    set_row = λ name value entries. do
      model ← or_throw (lookup name models) "model not found"
      validate_model_value js model value
      key ← string_key (get value model.primary_key)
      put_entry name key (some value) entries;
    delete_row = λ name key entries. do
      model ← or_throw (lookup name models) "model not found"
      put_entry name key none entries;
  }

  -- `#db` of a `FunctionRuntime`
  unfoldable pub function_api : Read js.Num → ModelApi js.Num
  unfolding put_entry validate_model_value lookup
  function_api read = record {
    get_row = get_in read;
    set_row = λ name value entries. do
      model ← or_throw (lookup name models) "this.db.models[model] is undefined"
      validate_model_value js model value
      put_entry name (key_text (get value model.primary_key)) (some value) entries;
    delete_row = λ name key entries. put_entry name key none entries;
  }

  abbrev pub api_of : Kind → Read js.Num → ModelApi js.Num
  api_of contract = contract_api
  api_of function = function_api

  abbrev pub public_key_of : Kind → Str → Option Str
  public_key_of contract key = none
  public_key_of function key = some key

  abbrev pub context_of : Kind → Delivery Args → ActionPayload Args → ActionContext
  context_of kind d a = record {
    id = d.id;
    public_key = public_key_of kind d.signature_key;
    address = a.address;
    blockhash = a.blockhash;
    timestamp = a.timestamp;
  }

  -- `this.actions[name]`, and what it does.
  unfoldable pub execute_found :
      Kind
      → Read js.Num
      → Delivery Args
      → ActionPayload Args
      → Option (Implementation Args js.Num)
      → Result (Entries js.Num)
  unfolding contract_api function_api run_action
  execute_found kind read d a none =
      if ignore_missing_actions then ok (no_entries models) else throw "invalid action name"
  execute_found kind read d a (some implementation) = do
    typed ←
        or_throw (implementation.to_typed a.args)
          "action args did not validate the provided schema type"
    run_action (api_of kind read) (implementation.apply typed (context_of kind d a))
        (no_entries models)

  -- `execute`; the consumer calls it for actions.
  unfoldable pub execute_payload :
      Kind → Read js.Num → Delivery Args → Payload Args → Result (Entries js.Num)
  unfolding execute_found
  execute_payload kind read d (action a) = execute_found kind read d a (lookup a.name actions)
  execute_payload kind read d (session s) = throw "not an action"
  execute_payload kind read d other = throw "not an action"

  -- The runtime, for the consumer.
  abbrev pub runtime_of : Kind → Env
  runtime_of kind = record {
    Args = Args;
    Row = ModelValue js.Num;
    topic = host.topic;
    index_history = index_history;
    matches = host.matches;
    verify_session = host.verify_session;
    raw_message = host.raw_message;
    raw_signature = host.raw_signature;
    execute = λ read d. execute_payload kind read d d.payload;
    key_hash = host.key_hash;
    write_own = host.write_own;
    encode_row = host.encode_row;
    decode_row = host.decode_row;
    encode_id = host.encode_id;
    decode_id = host.decode_id;
  }
