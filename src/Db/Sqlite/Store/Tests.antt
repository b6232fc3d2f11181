-- ===== src/Db/Sqlite/Store/Tests.antt =====
-- A database of one model with a relation, which runs the statements of that model, and the
-- theorems on it: packages/modeldb/src/sqlite.
use mathlib.Core.Path.{subst}
use canvas.Base.{
  ℕ, ◌≡◌, ◌≢◌, refl, ap, ◌∙◌, true, false, not, Option, none, some, List, [], ◌∷◌, ◌++◌, map, Str,
  codes, bytes_eq, bytes_eq_iff, filter, All, if◌then◌else◌, Result, ok, throw, ◌>>=◌, OnOk,
  OnOk-at, OnOk-bind, OnOk-any, Bool-cases, inl, inr, arith,
}
use canvas.Base.Maps.{lookup, put, has, lookup-put, Distinct}
use canvas.Db.Types.{
  Property, primary, primitive, relation, string, property_name, Model, str, strs, ModelValue, get,
  Effect, set, delete,
}
use canvas.Db.Tests.{js}
use canvas.Db.Validate.{is_undefined}
use canvas.Db.Validate.Holds.{strings, a_key, a_value, targets as fitting}
use canvas.Db.Validate.Laws.{FitsAll}
use canvas.Db.Sqlite.{
  SqlValue, text, column, write_param, encode_record_params, encode_params, encode_property,
}
use canvas.Db.Sqlite.Roundtrip.{Bits, Documents}
use canvas.Db.Sqlite.Api
use canvas.Db.Sqlite.Api.{
  ModelApi, model_api, model_schema, model_statements, relation_api, relation_table, param_of,
  primary_from, params_from, relations_from,
}
use canvas.Db.Sqlite.Store.{
  Record, Sql, text_of, source_param, relation_row, apply_effects, get_value, set_value,
}
use canvas.Db.Sqlite.Store.Laws.{has_key, bound, updated, only_target, relation_names, Tables}
use canvas.Db.Sqlite.Store.Refine.{IsClean, AgreesWith, get_value-set_value}
use canvas.Db.Sqlite.Store.Effects.{Shows, decisive_effect, apply_effects_lem}

abbrev room : Model
room = record {
  name = codes "room";
  primary_key = codes "id";
  properties =
      primary (codes "id")
      ∷ primitive (codes "name") string false
      ∷ relation (codes "members") (codes "user")
      ∷ [];
  indexes = [];
}

abbrev coerce : SqlValue ℕ → Str
coerce v = []

abbrev statements : ModelApi
statements = model_statements room (codes "id") (codes "p0")

abbrev members : Str
members = codes "members"

-- The rows of the model, and those of its relation.
abbrev Db : Type 0
Db = List (Record ℕ) × List (Record ℕ)

abbrev param : Record ℕ → Str → Str
param params name = text_of (column params name)

abbrev run_statement : Str → Record ℕ → Db → Result Db
run_statement statement params (records, links) =
    if bytes_eq statement statements.update
    then ok (
      updated (codes "id") (param params (codes "p0")) (bound statements.params params) records,
      links,
    )
    else if bytes_eq statement statements.insert
    then ok (records ++ bound statements.params params ∷ [], links)
    else if bytes_eq statement statements.delete
    then ok (filter (λ r. not (has_key (codes "id") (param params (codes "p0")) r)) records, links)
    else if bytes_eq statement (relation_api (codes "room") members).insert
    then ok (records, links ++ params ∷ [])
    else if bytes_eq statement (relation_api (codes "room") members).delete
    then ok (
      records,
      filter (λ r. not (has_key (codes "_source") (param params (codes "_source")) r)) links,
    )
    else throw "no such statement"

abbrev select_rows : Str → Record ℕ → Db → Result (List (Record ℕ))
select_rows statement params (records, links) =
    if bytes_eq statement statements.select
    then ok (filter (has_key (codes "id") (param params (codes "p0"))) records)
    else if bytes_eq statement (relation_api (codes "room") members).select
    then ok (
        map only_target (filter (has_key (codes "_source") (param params (codes "_source"))) links))
    else throw "no such statement"

abbrev sql : Sql ℕ
sql = record { State = Db; run = run_statement; all = select_rows }

abbrev rows_of : Db → Str → List (Record ℕ)
rows_of (records, links) table =
    if bytes_eq table (codes "room")
    then records
    else if bytes_eq table (relation_table (codes "room") members)
    then links
    else []

built : model_api room ≡ ok statements
unfolding model_api
built = refl

-- The first parameter is the key.
key_kept :
    (ps : List Property) (value : ModelValue ℕ) (key : Str) (acc : Record ℕ)
    → All (λ p. bytes_eq (param_of statements (property_name p)) (codes "p0") ≡ false) ps
    → lookup (codes "p0") acc ≡ some (text key)
    → OnOk
        (λ v. lookup (codes "p0") v ≡ some (text key))
        (encode_params js coerce (param_of statements) ps value acc)
unfolding encode_params
key_kept [] value key acc apart h = h
key_kept (p ∷ ps) value key acc apart h =
    OnOk-bind (λ t. Unit {0}) (λ v. lookup (codes "p0") v ≡ some (text key))
      (if is_undefined js (get value (property_name p))
        then throw "missing value for property"
        else ok tt)
      _ (OnOk-any _)
      (λ t _ _.
        OnOk-bind (λ s. Unit {0}) (λ v. lookup (codes "p0") v ≡ some (text key))
          (encode_property js coerce p (get value (property_name p))) _ (OnOk-any _)
          (λ s _ _.
            key_kept ps value key
              (write_param js coerce (param_of statements (property_name p)) s acc) apart.1
              (kept s)))
  where
    kept :
        (s : Option (SqlValue ℕ))
        → lookup (codes "p0") (write_param js coerce (param_of statements (property_name p)) s acc)
          ≡ some (text key)
    kept none = h
    kept (some s) =
        lookup-put (param_of statements (property_name p)) (codes "p0") s acc ∙ rw apart.0 h

abbrev others : List Property
others = primitive (codes "name") string false ∷ relation (codes "members") (codes "user") ∷ []

key_encoded :
    (value : ModelValue ℕ) (key : Str)
    → get value (codes "id") ≡ str key
    → OnOk
        (λ v. lookup (codes "p0") v ≡ some (text key))
        (encode_record_params js coerce room value (param_of statements))
unfolding encode_record_params params_from bytes_eq lookup encode_property put
key_encoded value key keyed =
    rw keyed (key_kept others value key ((codes "p0", text key) ∷ []) (refl, (refl, tt)) refl)

key_param_lem :
    (value : ModelValue ℕ) (key : Str) (values : Record ℕ)
    → encode_record_params js coerce room value (param_of statements) ≡ ok values
    → get value (codes "id") ≡ str key
    → param values (codes "p0") ≡ key
key_param_lem value key values e keyed =
    read (OnOk-at (λ v. lookup (codes "p0") v ≡ some (text key)) _ (key_encoded value key keyed) e)
  where
    read : lookup (codes "p0") values ≡ some (text key) → param values (codes "p0") ≡ key
    read h = rw (h, column) refl

other_model :
    (a b : Db) (other : Str) → a.1 ≡ b.1 → other ≢ codes "room" → rows_of a other ≡ rows_of b other
other_model a b other e ne = elim (Bool-cases (bytes_eq other (codes "room"))) [
  | inl h ↦ absurd (ne ((bytes_eq_iff other (codes "room")).0 h))
  | inr h ↦ rw (h, e) refl
]

abbrev links_table : Str
links_table = relation_table (codes "room") members

other_links :
    (a b : Db) (other : Str) → a.0 ≡ b.0 → other ≢ links_table → rows_of a other ≡ rows_of b other
other_links a b other e ne = elim (Bool-cases (bytes_eq other links_table)) [
  | inl h ↦ absurd (ne ((bytes_eq_iff other links_table).0 h))
  | inr h ↦ rw (h, e) refl
]

only_members : (name : Str) → has name (relation_names room.properties) ≡ true → members ≡ name
unfolding has
only_members name h = ground (arith, bytes_eq_iff members name)

module _ (P : Str → Type 0) (at_members : P members) where
  by_members : (name : Str) → has name (relation_names room.properties) ≡ true → P name
  by_members name h = subst P (only_members name h) at_members

tables : Tables js coerce sql room (codes "id") (codes "p0")
unfolding bytes_eq lookup params_from relations_from relation_api Api.join Api.decimal_fuel
tables = record {
  rows = rows_of;
  is_storable = λ v. true;
  selects = λ key s. refl;
  updates = λ value key values s e keyed storable. (
    (updated (codes "id") (param values (codes "p0")) (bound statements.params values) s.0, s.1),
    refl,
    ap (λ k. updated (codes "id") k (bound statements.params values) s.0)
        (key_param_lem value key values e keyed),
    λ other ne. other_model _ _ other refl ne,
  );
  inserts = λ value key values s e keyed storable fresh. (
    (s.0 ++ bound statements.params values ∷ [], s.1),
    refl,
    refl,
    λ other ne. other_model _ _ other refl ne,
  );
  deletes = λ key s. (
    (filter (λ r. not (has_key (codes "id") key r)) s.0, s.1),
    refl,
    refl,
    λ other ne. other_model _ _ other refl ne,
  );
  relation_selects = λ name source s declared.
      by_members
        (λ n.
          select_rows (relation_api (codes "room") n).select (source_param js coerce sql source) s
          ≡ ok (
              map only_target (
                filter (has_key (codes "_source") source)
                  (rows_of s (relation_table (codes "room") n)))))
        refl name declared;
  relation_inserts = λ name source target s declared.
      by_members
        (λ n.
          (t : Db) × (run_statement (relation_api (codes "room") n).insert
              (relation_row js coerce sql source target) s
            ≡ ok t)
          × (rows_of t (relation_table (codes "room") n)
              ≡ rows_of s (relation_table (codes "room") n)
                ++ relation_row js coerce sql source target ∷ [])
          × ((other : Str)
              → other ≢ relation_table (codes "room") n
              → rows_of t other ≡ rows_of s other))
        (
          (s.0, s.1 ++ relation_row js coerce sql source target ∷ []),
          refl,
          refl,
          λ other ne. other_links _ _ other refl ne,
        )
        name declared;
  relation_deletes = λ name source s declared.
      by_members
        (λ n.
          (t : Db) × (run_statement (relation_api (codes "room") n).delete
              (source_param js coerce sql source) s
            ≡ ok t)
          × (rows_of t (relation_table (codes "room") n)
              ≡ filter (λ r. not (has_key (codes "_source") source r))
                  (rows_of s (relation_table (codes "room") n)))
          × ((other : Str)
              → other ≢ relation_table (codes "room") n
              → rows_of t other ≡ rows_of s other))
        (
          (s.0, filter (λ r. not (has_key (codes "_source") source r)) s.1),
          refl,
          refl,
          λ other ne. other_links _ _ other refl ne,
        )
        name declared;
}

abbrev lobby : ModelValue ℕ
lobby =
    (codes "id", str (codes "a"))
    ∷ (codes "name", str (codes "Lobby"))
    ∷ (members, strs (codes "u1" ∷ codes "u2" ∷ []))
    ∷ []

lobby-FitsAll : FitsAll js room.properties lobby
unfolding lookup bytes_eq
lobby-FitsAll = (((λ h. cc), a_key), (((λ h. cc), a_value (strings _)), (((λ h. cc), fitting), tt)))

no-Documents : Documents js coerce room.properties lobby
no-Documents = ((λ h. absurd (cc)), ((λ h. absurd (cc)), ((λ h. absurd (cc)), tt)))

bits : Bits js coerce
bits = record { one = refl; zero = refl }

primary_found : primary_from 0 room.properties ≡ some (codes "id", codes "p0")
unfolding primary_from
primary_found = refl

names_differ : Distinct (map property_name room.properties)
unfolding has bytes_eq
names_differ = (refl, (refl, (refl, tt)))

empty-IsClean : IsClean js coerce sql room (codes "id") (codes "p0") tables ([], [])
unfolding tables relations_from bytes_eq
empty-IsClean key h = (refl, tt)

lobby_set :
    (key : Str) × (get lobby (codes "id") ≡ str key)
    × ((t : Db) × (set_value js coerce sql statements lobby ([], []) ≡ ok t)
        × IsClean js coerce sql room (codes "id") (codes "p0") tables t
        × ((out : ModelValue ℕ) × (get_value js coerce sql statements key t ≡ ok (some out))
            × AgreesWith js coerce sql room
                (codes "id")
                (codes "p0")
                tables
                primary_found
                names_differ
                lobby
                out)
        × ((k : Str)
            → bytes_eq key k ≡ false
            → get_value js coerce sql statements k t
              ≡ get_value js coerce sql statements k ([], [])))
unfolding tables
lobby_set =
    get_value-set_value js coerce sql room (codes "id") (codes "p0") tables primary_found
      names_differ lobby ([], []) bits lobby-FitsAll no-Documents (refl, (refl, (refl, tt)))
      empty-IsClean

abbrev effects : List (Effect ℕ)
effects = set (codes "room") lobby ∷ delete (codes "room") (codes "b") ∷ []

apply_effects_lem_example :
    (t : Db) × (apply_effects js coerce sql ((codes "room", statements) ∷ []) effects ([], [])
      ≡ ok t)
    × IsClean js coerce sql room (codes "id") (codes "p0") tables t
    × ((key : Str)
        → Shows js coerce sql room
            (codes "id")
            (codes "p0")
            tables
            primary_found
            names_differ
            ([], [])
            t
            key
            (decisive_effect (codes "id") key effects))
unfolding tables
apply_effects_lem_example =
    apply_effects_lem js coerce sql room (codes "id") (codes "p0") tables primary_found names_differ
      effects ([], []) bits
      (refl, lobby-FitsAll, no-Documents, (refl, (refl, (refl, tt))), (refl, tt)) empty-IsClean

lobby_found :
    apply_effects js coerce sql ((codes "room", statements) ∷ []) effects ([], [])
      >>= (λ t. get_value js coerce sql statements (codes "a") t)
    ≡ ok (some lobby)
unfolding apply_effects get_value bytes_eq lookup params_from relations_from relation_api Api.join
    Api.decimal_fuel put has canvas.Db.Validate.validate_property_value encode_property
    canvas.Db.Sqlite.decode_property
lobby_found = refl
