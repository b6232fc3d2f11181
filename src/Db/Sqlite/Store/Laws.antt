-- ===== src/Db/Sqlite/Store/Laws.antt =====
-- What the statements of packages/modeldb/src/sqlite/api.ts do to the tables of SQLite.
use canvas.Base.{
  ◌≡◌, ◌≢◌, Bool, true, false, not, List, [], ◌∷◌, ◌++◌, map, Str, codes, bytes_eq, filter, All, ok,
}
use canvas.Base.Maps.{has}
use canvas.Db.Types.{
  Property, primary, primitive, reference, relation, property_name, Model, Value, str, Js,
  ModelValue, get,
}
use canvas.Db.Sqlite.{SqlValue, text, column, encode_record_params}
use canvas.Db.Sqlite.Api.{ModelApi, relation_api, relation_table, model_statements, param_of}
use canvas.Db.Sqlite.Store.{Record, Sql, source_param, relation_row, key_param}

abbrev pub is_text : {N : Type 0} → Str → SqlValue N → Bool
is_text key (text s) = bytes_eq s key
is_text key _ = false

-- `column = key`, at a row.
abbrev pub has_key : {N : Type 0} → (name key : Str) → Record N → Bool
has_key name key row = is_text key (column row name)

-- The row that an insert or an update writes: for each column the value of its parameter.
abbrev pub bound : {N : Type 0} → List (Str × Str) → Record N → Record N
bound [] values = []
bound ((name, param) ∷ columns) values = (name, column values param) ∷ bound columns values

abbrev pub write_row : {N : Type 0} → Bool → (new old : Record N) → Record N
write_row true new old = new
write_row false new old = old

-- An update writes all columns of the rows with the key.
abbrev pub updated :
    {N : Type 0} → (name key : Str) → (row : Record N) → List (Record N) → List (Record N)
updated name key row [] = []
updated name key row (r ∷ rows) = write_row (has_key name key r) row r ∷ updated name key row rows

abbrev pub only_target : {N : Type 0} → Record N → Record N
only_target row = (codes "_target", column row (codes "_target")) ∷ []

-- The relation properties of a model, by name.
abbrev pub relation_names : List Property → List Str
relation_names [] = []
relation_names (relation name target ∷ ps) = name ∷ relation_names ps
relation_names (primary name ∷ ps) = relation_names ps
relation_names (primitive name type optional ∷ ps) = relation_names ps
relation_names (reference name target optional ∷ ps) = relation_names ps

module _ (js : Js) (coerce : SqlValue js.Num → Str) (sql : Sql js.Num) (model : Model)
    (key_name key_param_name : Str) where
  open js use {Num}
  open sql use {State, run, all}

  abbrev pub api : ModelApi
  api = model_statements model key_name key_param_name

  abbrev pub AreStorable : (Value Num → Bool) → ModelValue Num → Type 0
  AreStorable is_storable value =
      All (λ p. is_storable (get value (property_name p)) ≡ true) model.properties

  -- The rows of a table. A statement on one table changes no other.
  pub record Tables : Type 0 where
    pub rows : State → Str → List (Record Num)
    -- The values that SQLite stores as they are bound. NaN is none: it is bound as NULL, which an
    -- INSERT OR IGNORE into a column that is NOT NULL drops without an error.
    pub is_storable : Value Num → Bool
    pub selects :
        (key : Str) (s : State)
        → all api.select (key_param js coerce sql api key) s
          ≡ ok (filter (has_key key_name key) (rows s model.name))
    -- On values that encodeRecordParams makes of such, which meet the constraints of the columns.
    pub updates :
        (value : ModelValue Num) (key : Str) (values : Record Num) (s : State)
        → encode_record_params js coerce model value (param_of api) ≡ ok values
        → get value key_name ≡ str key
        → AreStorable is_storable value
        → (t : State) × (run api.update values s ≡ ok t)
          × (rows t model.name ≡ updated key_name key (bound api.params values) (rows s model.name))
          × ((other : Str) → other ≢ model.name → rows t other ≡ rows s other)
    pub inserts :
        (value : ModelValue Num) (key : Str) (values : Record Num) (s : State)
        → encode_record_params js coerce model value (param_of api) ≡ ok values
        → get value key_name ≡ str key
        → AreStorable is_storable value
        → filter (has_key key_name key) (rows s model.name) ≡ []
        → (t : State) × (run api.insert values s ≡ ok t)
          × (rows t model.name ≡ rows s model.name ++ bound api.params values ∷ [])
          × ((other : Str) → other ≢ model.name → rows t other ≡ rows s other)
    pub deletes :
        (key : Str) (s : State)
        → (t : State) × (run api.delete (key_param js coerce sql api key) s ≡ ok t)
          × (rows t model.name ≡ filter (λ r. not (has_key key_name key r)) (rows s model.name))
          × ((other : Str) → other ≢ model.name → rows t other ≡ rows s other)
    pub relation_selects :
        (name source : Str) (s : State)
        → has name (relation_names model.properties) ≡ true
        → all (relation_api model.name name).select (source_param js coerce sql source) s
          ≡ ok (
              map only_target (
                filter
                  (has_key (codes "_source") source)
                  (rows s (relation_table model.name name))))
    pub relation_inserts :
        (name source target : Str) (s : State)
        → has name (relation_names model.properties) ≡ true
        → (t : State) × (run
              (relation_api model.name name).insert
              (relation_row js coerce sql source target)
              s
            ≡ ok t)
          × (rows t (relation_table model.name name)
              ≡ rows s (relation_table model.name name)
                ++ relation_row js coerce sql source target ∷ [])
          × ((other : Str) → other ≢ relation_table model.name name → rows t other ≡ rows s other)
    pub relation_deletes :
        (name source : Str) (s : State)
        → has name (relation_names model.properties) ≡ true
        → (t : State) × (run
              (relation_api model.name name).delete
              (source_param js coerce sql source)
              s
            ≡ ok t)
          × (rows t (relation_table model.name name)
              ≡ filter
                  (λ r. not (has_key (codes "_source") source r))
                  (rows s (relation_table model.name name)))
          × ((other : Str) → other ≢ relation_table model.name name → rows t other ≡ rows s other)
