-- ===== src/Runtime/Actions/Laws.antt =====
-- What the calls of an action write: packages/core/src/runtime/ContractRuntime.ts and
-- FunctionRuntime.ts, by laws that both runtimes fill.
use mathlib.Core.Path.{subst}
use canvas.Base.{
  some_inj, ◌≡◌, refl, sym, ap, ◌∙◌, inl, inr, Option, none, some, List, [], ◌∷◌, Str, String,
  bytes_eq, bytes_eq_iff, Bool-cases, ok, >>=-eq-ok, ok_inj, All,
}
use canvas.Base.Maps.{lookup}
use canvas.Gossip.Log.Types.{or_throw}
use canvas.Db.Types.{Model, Value, str, ModelValue, get}
use canvas.Db.Validate.{validate_model_value}
use canvas.Db.Validate.Laws.{FitsAll, validate_model_value_iff}
use canvas.Db.Validate.Keys.{IsKeyIn, key_value}
use canvas.Runtime.Actions.{
  Entries, ModelApi, Kind, contract, function, Host, Read, put_entry, contract_api, function_api,
  api_of, get_in, string_key, key_text,
}

-- Every model has a primary property for its key.
abbrev pub AreKeyed : List (Str × Model) → Type 0
AreKeyed models = All (λ m. IsKeyIn (m.1).primary_key (m.1).properties) models

pub or_throw-eq-ok :
    {A : Type 0} (o : Option A) (message : String) {a : A} → or_throw o message ≡ ok a → o ≡ some a
or_throw-eq-ok none message h = absurd (cc)
or_throw-eq-ok (some a) message h = ap some (ok_inj h)

pub lookup-All :
    {V : Type 0} (P : (Str × V) → Type 0) (k : Str) (m : List (Str × V)) {v : V}
    → All P m
    → lookup k m ≡ some v
    → P (k, v)
unfolding lookup
lookup-All P k [] all h = absurd (cc)
lookup-All P k ((j, w) ∷ m) all h = elim (Bool-cases (bytes_eq j k)) [
  | inl e ↦
      subst P (ap (λ i. (i, w)) ((bytes_eq_iff j k).0 e) ∙ ap (λ x. (k, x)) (some_inj (rw e at h)))
        all.0
  | inr e ↦ lookup-All P k m all.1 (rw e at h)
]

module _ (host : Host) where
  open host use {js, models, index_history}

  string_key-eq-ok : (v : Value js.Num) {key : Str} → string_key host v ≡ ok key → v ≡ str key
  string_key-eq-ok (str s) h = ap str (ok_inj h)
  string_key-eq-ok v h = absurd (cc)

  -- What a call that sets a row has checked, and what it writes.
  pub record Sets (name : Str) (value : ModelValue js.Num) (entries entries' : Entries js.Num)
      : Type 0 where
    pub model : Model
    pub key : Str
    pub found : lookup name models ≡ some model
    pub fits : FitsAll js model.properties value
    pub keyed : get value model.primary_key ≡ str key
    pub written : put_entry name key (some value) entries ≡ ok entries'

  -- The laws of the database that an action has.
  pub record IsApi (read : Read js.Num) (api : ModelApi js.Num) : Type 0 where
    pub gets :
        (name key : Str) (entries : Entries js.Num)
        → api.get_row name key entries ≡ get_in host read name key entries
    pub sets :
        (name : Str) (value : ModelValue js.Num) (entries : Entries js.Num)
        {entries' : Entries js.Num}
        → api.set_row name value entries ≡ ok entries'
        → Sets name value entries entries'
    pub deletes :
        (name key : Str) (entries : Entries js.Num) {entries' : Entries js.Num}
        → api.delete_row name key entries ≡ ok entries'
        → put_entry name key none entries ≡ ok entries'

  contract-Sets :
      (read : Read js.Num) (name : Str) (value : ModelValue js.Num) (entries : Entries js.Num)
      {entries' : Entries js.Num}
      → (contract_api host read).set_row name value entries ≡ ok entries'
      → Sets name value entries entries'
  unfolding contract_api
  contract-Sets read name value entries h =
      let (model, e, h1) = >>=-eq-ok (or_throw (lookup name models) "model not found") _ h in
      let (done, valid, h2) = >>=-eq-ok (validate_model_value js model value) _ h1 in
      let (key, k, h3) = >>=-eq-ok (string_key host (get value model.primary_key)) _ h2 in
      record {
        model = model;
        key = key;
        found = or_throw-eq-ok (lookup name models) "model not found" e;
        fits = (validate_model_value_iff js model value).0 valid;
        keyed = string_key-eq-ok _ k;
        written = h3;
      }

  function-Sets :
      (read : Read js.Num) (name : Str) (value : ModelValue js.Num) (entries : Entries js.Num)
      {entries' : Entries js.Num}
      → AreKeyed models
      → (function_api host read).set_row name value entries ≡ ok entries'
      → Sets name value entries entries'
  unfolding function_api
  function-Sets read name value entries k h =
      let (model, e, h1) =
        >>=-eq-ok (or_throw (lookup name models) "this.db.models[model] is undefined") _ h in
      let (done, valid, h2) = >>=-eq-ok (validate_model_value js model value) _ h1 in
      let found = or_throw-eq-ok (lookup name models) "this.db.models[model] is undefined" e in
      let fits = (validate_model_value_iff js model value).0 valid in
      let (key, keyed) =
        key_value js model.primary_key model.properties value
          (lookup-All (λ m. IsKeyIn (m.1).primary_key (m.1).properties) name models k found) fits in
      record {
        model = model;
        key = key;
        found = found;
        fits = fits;
        keyed = keyed;
        written = ap (λ v. put_entry name (key_text host v) (some value) entries) (sym keyed) ∙ h2;
      }

  pub contract-IsApi : (read : Read js.Num) → IsApi read (contract_api host read)
  unfolding contract_api
  contract-IsApi read = record {
    gets = λ name key entries. refl;
    sets = λ name value entries h. contract-Sets read name value entries h;
    deletes = λ name key entries h. (>>=-eq-ok (or_throw (lookup name models) _) _ h).2;
  }

  pub function-IsApi : AreKeyed models → (read : Read js.Num) → IsApi read (function_api host read)
  unfolding function_api
  function-IsApi k read = record {
    gets = λ name key entries. refl;
    sets = λ name value entries h. function-Sets read name value entries k h;
    deletes = λ name key entries h. h;
  }

  pub api_of-IsApi :
      AreKeyed models → (kind : Kind) (read : Read js.Num) → IsApi read (api_of host kind read)
  api_of-IsApi k contract read = contract-IsApi read
  api_of-IsApi k function read = function-IsApi k read
