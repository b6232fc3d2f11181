-- ===== src/Runtime/Schema/Laws.antt =====
-- The models of a runtime's database have different names, and primary properties for their keys:
-- getModelSchema of packages/core/src/runtime/AbstractRuntime.ts and parseConfig.
use mathlib.Core.Path.{subst}
use canvas.Base.{
  ◌≡◌, sym, inl, inr, Bool, true, false, List, [], ◌∷◌, Str, bytes_eq, bytes_eq_iff, filter, All,
  ok, Bool-cases,
}
use canvas.Base.Maps.{put, Distinct}
use canvas.Db.Types.{Property, primary, Model}
use canvas.Db.Config.{ModelInit, Config, is_primary, parse_config}
use canvas.Db.Config.Models.{ModelsOf, DistinctNames, parse_config-eq-ok}
use canvas.Runtime.Cells.{keys_of}
use canvas.Runtime.Schema.{
  effects_model, versions_model, sessions_model, put_init, get_model_schema, db_models,
}
use canvas.Db.Validate.Keys.{IsKeyIn}
use canvas.Runtime.Actions.Laws.{AreKeyed}
use canvas.Runtime.Actions.Objects.{Distinct-put, All-put}

All-put_init :
    (name : Str) (init : ModelInit) (inits : List ModelInit)
    → All (λ j. bytes_eq name j.name ≡ false) inits
    → bytes_eq name init.name ≡ false
    → All (λ j. bytes_eq name j.name ≡ false) (put_init init inits)
unfolding put_init
All-put_init name init [] all p = (p, tt)
All-put_init name init (i ∷ inits) all p = elim (Bool-cases (bytes_eq i.name init.name)) [
  | inl e ↦ rw e (p, all.1)
  | inr e ↦ rw e (all.0, All-put_init name init inits all.1 p)
]

DistinctNames-put_init :
    (init : ModelInit) (inits : List ModelInit)
    → DistinctNames inits
    → DistinctNames (put_init init inits)
unfolding put_init
DistinctNames-put_init init [] d = (tt, tt)
DistinctNames-put_init init (i ∷ inits) d = elim (Bool-cases (bytes_eq i.name init.name)) [
  | inl e ↦ rw e (
    subst (λ n. All (λ j. bytes_eq n j.name ≡ false) inits) ((bytes_eq_iff i.name init.name).0 e)
        d.0,
    d.1,
  )
  | inr e ↦ rw e (All-put_init i.name init inits d.0 e, DistinctNames-put_init init inits d.1)
]

DistinctNames-get_model_schema :
    (inits : List ModelInit) (index_history : Bool)
    → DistinctNames inits
    → DistinctNames (get_model_schema inits index_history)
DistinctNames-get_model_schema inits true d =
    DistinctNames-put_init effects_model (put_init sessions_model inits)
      (DistinctNames-put_init sessions_model inits d)
DistinctNames-get_model_schema inits false d =
    DistinctNames-put_init versions_model (put_init sessions_model inits)
      (DistinctNames-put_init sessions_model inits d)

filter-IsKeyIn :
    (name : Str) (ps : List Property) → filter is_primary ps ≡ primary name ∷ [] → IsKeyIn name ps
filter-IsKeyIn name [] h = absurd (cc)
filter-IsKeyIn name (p ∷ ps) h = elim (Bool-cases (is_primary p)) [
  | inl e ↦ inl (first p (filter is_primary ps) (rw e at h))
  | inr e ↦ inr (filter-IsKeyIn name ps (rw e at h))
]
  where
    first : (q : Property) (qs : List Property) → q ∷ qs ≡ primary name ∷ [] → q ≡ primary name
    first q qs e = cc

ModelsOf-IsKeyIn :
    (inits : List ModelInit) (ms : List Model)
    → ModelsOf inits ms
    → All (λ m. IsKeyIn m.primary_key m.properties) ms
ModelsOf-IsKeyIn [] [] of = tt
ModelsOf-IsKeyIn [] (m ∷ ms) of = absurd of
ModelsOf-IsKeyIn (i ∷ inits) [] of = absurd of
ModelsOf-IsKeyIn (i ∷ inits) (m ∷ ms) of =
    (filter-IsKeyIn m.primary_key m.properties ((of.0).one_primary), ModelsOf-IsKeyIn inits ms of.1)

db_models-AreKeyed :
    (ms : List Model) (models : List (Str × Model))
    → All (λ m. IsKeyIn m.primary_key m.properties) ms
    → AreKeyed models
    → AreKeyed (db_models ms models)
unfolding db_models
db_models-AreKeyed [] models all k = k
db_models-AreKeyed (m ∷ ms) models all k =
    db_models-AreKeyed ms (put m.name m models) all.1
      (All-put (λ e. IsKeyIn (e.1).primary_key (e.1).properties) m.name m models k all.0)

Distinct-db_models :
    (ms : List Model) (models : List (Str × Model))
    → Distinct (keys_of models)
    → Distinct (keys_of (db_models ms models))
unfolding db_models
Distinct-db_models [] models d = d
Distinct-db_models (m ∷ ms) models d =
    Distinct-db_models ms (put m.name m models) (Distinct-put m.name m models d)

-- The models of a database are those that a contract's declarations and the runtime's parse to.
pub record IsOpened (inits : List ModelInit) (index_history : Bool) (models : List (Str × Model))
    : Type 0 where
  pub config : Config
  pub distinct : DistinctNames inits
  pub parsed : parse_config (get_model_schema inits index_history) ≡ ok config
  pub opened : models ≡ db_models config.models []

pub IsOpened-AreKeyed :
    (inits : List ModelInit) (index_history : Bool) (models : List (Str × Model))
    → IsOpened inits index_history models
    → AreKeyed models × Distinct (keys_of models)
IsOpened-AreKeyed inits index_history models o =
    let schema = get_model_schema inits index_history in
    let (of, relations) =
      parse_config-eq-ok schema (DistinctNames-get_model_schema inits index_history o.distinct)
        o.parsed in
    subst (λ ms. AreKeyed ms × Distinct (keys_of ms)) (sym o.opened)
      (
        db_models-AreKeyed (o.config).models [] (ModelsOf-IsKeyIn schema (o.config).models of) tt,
        Distinct-db_models (o.config).models [] tt,
      )
