-- ===== src/Db/Sqlite/Store.antt =====
-- packages/modeldb/src/sqlite/api.ts and ModelDB.ts: get, set, delete, count and the rows of a model,
-- and the effects of a transaction, over a database that runs statements.
pub mod Laws
pub mod Rows
pub mod Relations
pub mod Loops
pub mod Models
pub mod Refine
pub mod Effects
mod Tests
use canvas.Base.{
  ℕ, Bool, true, false, Option, none, some, List, [], ◌∷◌, map, Str, codes, String, bytes_eq,
  if◌then◌else◌, Result, ok, throw, assert, ◌>>=◌, ◌>>◌,
}
use canvas.Base.Maps.{lookup, put}
use canvas.Gossip.Log.Types.{or_throw, is_some}
use canvas.Db.Types.{Model, Value, str, strs, Js, ModelValue, get, Effect, set, delete}
use canvas.Db.Validate.{validate_model_value}
use canvas.Db.Sqlite.{SqlValue, text, column, encode_record_params, decode_record}
use canvas.Db.Sqlite.Api.{RelationApi, ModelApi, param_of}

-- A row, or the parameters of a statement: values by name.
abbrev pub Record : Type 0 → Type 0
Record N = List (Str × SqlValue N)

-- The package better-sqlite3: `run` and `all` of a statement.
pub record Sql (N : Type 0) : Type 1 where
  pub State : Type 0
  pub run : (statement : Str) → Record N → State → Result State
  pub all : (statement : Str) → Record N → State → Result (List (Record N))

abbrev pub head? {ℓ} : {A : Type ℓ} → List A → Option A
head? [] = none
head? (x ∷ xs) = some x

-- `_target` is `TEXT NOT NULL`.
abbrev pub text_of : {N : Type 0} → SqlValue N → Str
text_of (text s) = s
text_of _ = []

module _ (js : Js) (coerce : SqlValue js.Num → Str) (sql : Sql js.Num) where
  open js use {Num}
  open sql use {State, run, all}

  abbrev pub source_param : Str → Record Num
  source_param source = (codes "_source", text source) ∷ []

  abbrev pub relation_row : (source target : Str) → Record Num
  relation_row source target = (codes "_source", text source) ∷ (codes "_target", text target) ∷ []

  -- `RelationAPI.get`
  unfoldable pub relation_get : RelationApi → Str → State → Result (List Str)
  unfolding lookup
  relation_get r source s = do
    rows ← all r.select (source_param source) s
    ok (map (λ row. text_of (column row (codes "_target"))) rows)

  unfoldable pub add_targets : RelationApi → Str → List Str → State → Result State
  add_targets r source [] s = ok s
  add_targets r source (target ∷ targets) s = do
    s' ← run r.insert (relation_row source target) s
    add_targets r source targets s'

  -- `RelationAPI.add`
  abbrev pub relation_add : RelationApi → Str → Value Num → State → Result State
  relation_add r source (strs targets) s = add_targets r source targets s
  relation_add r source _ s = throw "expected string[]"

  -- `RelationAPI.delete`
  abbrev pub relation_delete : RelationApi → Str → State → Result State
  relation_delete r source s = run r.delete (source_param source) s

  abbrev pub key_param : ModelApi → Str → Record Num
  key_param api key = (api.primary_key_param, text key) ∷ []

  -- `this.#select.get`
  abbrev pub select_record : ModelApi → Str → State → Result (Option (Record Num))
  select_record api key s = do rows ← all api.select (key_param api key) s; ok (head? rows)

  -- `{ ...value, ...mapValues(this.#relations, (api) => api.get(key)) }`
  unfoldable pub with_relations :
      List (Str × RelationApi) → Str → State → ModelValue Num → Result (ModelValue Num)
  unfolding relation_get put
  with_relations [] key s value = ok value
  with_relations ((name, r) ∷ relations) key s value = do
    targets ← relation_get r key s
    with_relations relations key s (put name (strs targets) value)

  abbrev pub decode_row : ModelApi → Str → State → Record Num → Result (ModelValue Num)
  decode_row api key s row = do
    value ← decode_record js coerce api.model row
    with_relations api.relations key s value

  abbrev pub decode_found :
      ModelApi → Str → State → Option (Record Num) → Result (Option (ModelValue Num))
  decode_found api key s none = ok none
  decode_found api key s (some row) = do value ← decode_row api key s row; ok (some value)

  -- `ModelAPI.get`
  unfoldable pub get_value : ModelApi → Str → State → Result (Option (ModelValue Num))
  unfolding decode_record with_relations
  get_value api key s = do found ← select_record api key s; decode_found api key s found

  -- The loop over the relations in `set`.
  unfoldable pub set_relations :
      List (Str × RelationApi) → (exists : Bool) → Str → ModelValue Num → State → Result State
  unfolding add_targets
  set_relations [] exists key value s = ok s
  set_relations ((name, r) ∷ relations) exists key value s = do
    s1 ← elim exists [ true ↦ relation_delete r key s | false ↦ ok s ]
    s2 ← relation_add r key (get value name) s1
    set_relations relations exists key value s2

  abbrev pub key_of : Value Num → Result Str
  key_of (str key) = ok key
  key_of _ = throw "expected typeof primaryKey === \"string\""

  -- `ModelAPI.set`
  unfoldable pub set_value : ModelApi → ModelValue Num → State → Result State
  unfolding validate_model_value encode_record_params set_relations
  set_value api value s = do
    validate_model_value js api.model value
    key ← key_of (get value api.primary_key_name)
    params ← encode_record_params js coerce api.model value (param_of api)
    found ← select_record api key s
    s' ← elim (is_some found) [ true ↦ run api.update params s | false ↦ run api.insert params s ]
    set_relations api.relations (is_some found) key value s'

  unfoldable pub delete_relations : List (Str × RelationApi) → Str → State → Result State
  delete_relations [] key s = ok s
  delete_relations ((name, r) ∷ relations) key s = do
    s' ← relation_delete r key s
    delete_relations relations key s'

  -- `ModelAPI.delete`
  unfoldable pub delete_value : ModelApi → Str → State → Result State
  unfolding delete_relations
  delete_value api key s = do
    found ← select_record api key s
    elim (is_some found) [
      | true ↦ do s' ← run api.delete (key_param api key) s; delete_relations api.relations key s'
      | false ↦ ok s
    ]

  abbrev pub row_key : SqlValue Num → Result Str
  row_key (text key) = ok key
  row_key _ = throw "expected typeof key === \"string\""

  -- The loop of `ModelAPI.values`.
  unfoldable pub decode_all : ModelApi → State → List (Record Num) → Result (List (ModelValue Num))
  unfolding decode_record with_relations lookup
  decode_all api s [] = ok []
  decode_all api s (row ∷ rows) = do
    key ← row_key (column row api.primary_key_name)
    value ← decode_row api key s row
    values ← decode_all api s rows
    ok (value ∷ values)

  -- `ModelAPI.values`
  unfoldable pub values : ModelApi → State → Result (List (ModelValue Num))
  unfolding decode_all
  values api s = do rows ← all api.select_all [] s; decode_all api s rows

  -- The transaction of `ModelDB.apply`; one that throws is rolled back.
  unfoldable pub apply_effects : List (Str × ModelApi) → List (Effect Num) → State → Result State
  unfolding set_value delete_value lookup
  apply_effects models [] s = ok s
  apply_effects models (set model value ∷ effects) s = do
    api ← or_throw (lookup model models) "model not found"
    s' ← set_value api value s
    apply_effects models effects s'
  apply_effects models (delete model key ∷ effects) s = do
    api ← or_throw (lookup model models) "model not found"
    s' ← delete_value api key s
    apply_effects models effects s'
