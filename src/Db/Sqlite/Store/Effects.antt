-- ===== src/Db/Sqlite/Store/Effects.antt =====
-- The effects of a transaction: ModelDB.apply of packages/modeldb/src/sqlite/ModelDB.ts.
use mathlib.Core.Path.{subst}
use canvas.Base.{
  ◌≡◌, refl, ap, ◌∙◌, Bool, false, Option, none, some, List, [], ◌∷◌, map, Str, bytes_eq,
  bytes_eq_iff, bytes_eq_self, Result, ok, Bool-cases, inl, inr, arith, if◌then◌else◌,
}
use canvas.Base.Maps.{lookup, Distinct}
use canvas.Db.Types.{property_name, Model, Value, str, Js, ModelValue, get, Effect, set, delete}
use canvas.Db.Validate.Laws.{FitsAll}
use canvas.Db.Sqlite.{SqlValue}
use canvas.Db.Sqlite.Roundtrip.{Bits, Documents}
use canvas.Db.Sqlite.Api.{ModelApi, primary_from}
use canvas.Db.Sqlite.Store.{Sql, get_value, apply_effects}
use canvas.Db.Sqlite.Store.Laws.{api, AreStorable, Tables}
use canvas.Db.Sqlite.Store.Refine.{IsClean, AgreesWith, get_value-set_value, get_value-delete_value}

abbrev pub is_str : {N : Type 0} → Str → Value N → Bool
is_str key (str s) = bytes_eq s key
is_str key _ = false

abbrev pub or_later {ℓ} : {A : Type ℓ} → Option A → Option A → Option A
or_later none b = b
or_later (some a) b = some a

-- The last effect on a key: its value, or none of a delete.
abbrev pub decisive_effect :
    {N : Type 0} → (key_name key : Str) → List (Effect N) → Option (Option (ModelValue N))
decisive_effect key_name key [] = none
decisive_effect key_name key (set model value ∷ effects) =
    or_later (decisive_effect key_name key effects)
      (if is_str key (get value key_name) then some (some value) else none)
decisive_effect key_name key (delete model k ∷ effects) =
    or_later (decisive_effect key_name key effects) (if bytes_eq k key then some none else none)

module _ (js : Js) (coerce : SqlValue js.Num → Str) (sql : Sql js.Num) (model : Model)
    (key_name key_param_name : Str) (tables : Tables js coerce sql model key_name key_param_name)
    (has_primary : primary_from 0 model.properties ≡ some (key_name, key_param_name))
    (distinct : Distinct (map property_name model.properties)) where
  open js use {Num}
  open sql use {State}

  abbrev here : ModelApi
  here = api js coerce sql model key_name key_param_name

  abbrev models : List (Str × ModelApi)
  models = (model.name, here) ∷ []

  abbrev Clean : State → Type 0
  Clean s = IsClean js coerce sql model key_name key_param_name tables s

  abbrev got : Str → State → Result (Option (ModelValue Num))
  got key s = get_value js coerce sql here key s

  -- Effects on the model, whose values fit it.
  abbrev pub AreEffects : List (Effect Num) → Type 0
  AreEffects [] = Unit
  AreEffects (set name value ∷ effects) =
      (name ≡ model.name)
      × FitsAll js model.properties value
      × Documents js coerce model.properties value
      × AreStorable js coerce sql model key_name key_param_name tables.is_storable value
      × AreEffects effects
  AreEffects (delete name key ∷ effects) = (name ≡ model.name) × AreEffects effects

  -- What `get` returns after the last effect on a key, if there was one.
  abbrev pub Shows : State → State → Str → Option (Option (ModelValue Num)) → Type 0
  Shows s t key none = got key t ≡ got key s
  Shows s t key (some none) = got key t ≡ ok none
  Shows s t key (some (some value)) =
      (out : ModelValue Num) × (got key t ≡ ok (some out))
      × AgreesWith js coerce sql model key_name key_param_name tables has_primary distinct value out

  -- One more effect before the others.
  Shows-before :
      (s t u : State) (key : Str) (first others : Option (Option (ModelValue Num)))
      → Shows s t key first
      → Shows t u key others
      → Shows s u key (or_later others first)
  Shows-before s t u key first (some none) a b = b
  Shows-before s t u key first (some (some value)) a b = b
  Shows-before s t u key none none a b = b ∙ a
  Shows-before s t u key (some none) none a b = b ∙ a
  Shows-before s t u key (some (some value)) none (out, e, agrees) b = (out, b ∙ e, agrees)

  of_model : (name : Str) → name ≡ model.name → lookup name models ≡ some here
  unfolding lookup
  of_model name e = rw (ap (bytes_eq model.name) e ∙ bytes_eq_self model.name) refl

  flip : (a b : Str) → bytes_eq a b ≡ false → bytes_eq b a ≡ false
  flip a b h = elim (Bool-cases (bytes_eq b a)) [
    | inr e ↦ e
    | inl e ↦ ground (arith, bytes_eq_iff a b, bytes_eq_iff b a)
  ]

  Shows-set :
      (s t : State) (key : Str) (value : ModelValue Num) (k : Str)
      → get value key_name ≡ str key
      → Shows s t key (some (some value))
      → (bytes_eq key k ≡ false → got k t ≡ got k s)
      → Shows s t k (if is_str k (get value key_name) then some (some value) else none)
  Shows-set s t key value k keyed own other = elim (Bool-cases (bytes_eq key k)) [
    | inl e ↦
        rw (keyed, e) (subst (λ j. Shows s t j (some (some value))) ((bytes_eq_iff key k).0 e) own)
    | inr e ↦ rw (keyed, e) (other e)
  ]

  Shows-delete :
      (s t : State) (key k : Str)
      → got key t ≡ ok none
      → (bytes_eq key k ≡ false → got k t ≡ got k s)
      → Shows s t k (if bytes_eq key k then some none else none)
  Shows-delete s t key k own other = elim (Bool-cases (bytes_eq key k)) [
    | inl e ↦ rw e (subst (λ j. got j t ≡ ok none) ((bytes_eq_iff key k).0 e) own)
    | inr e ↦ rw e (other e)
  ]

  -- A transaction of effects on one model, whose values fit it and are stored by SQLite as they are
  -- bound (as NaN, which is bound as NULL, is not), returns, and what `get` returns of a
  -- key is decided by the last effect on the key: nothing after a delete, a value that agrees with the
  -- one that was set, at every column and relation, and what it was before if no effect has the key.
  -- So the tables are a map from keys to values, and stay so: a key without a row is the source of no
  -- relation, which must hold before. The names of the properties differ, and JSON values are ones
  -- that JSON gives back.
  pub apply_effects_lem :
      (effects : List (Effect Num)) (s : State)
      → Bits js coerce
      → AreEffects effects
      → IsClean js coerce sql model key_name key_param_name tables s
      → (t : State) × (apply_effects js coerce sql models effects s ≡ ok t)
        × IsClean js coerce sql model key_name key_param_name tables t
        × ((key : Str) → Shows s t key (decisive_effect key_name key effects))
  unfolding apply_effects
  apply_effects_lem [] s bits are c = (s, refl, c, λ key. refl)
  apply_effects_lem (set name value ∷ effects) s bits (named, fits, documents, storable, are) c =
      let (key, keyed, (t, e, ct, own, other)) =
        get_value-set_value js coerce sql model key_name key_param_name tables has_primary distinct
          value s bits fits documents storable c in
      let (u, e2, cu, shows) = apply_effects_lem effects t bits are ct in
      (
        u,
        rw (of_model name named) (rw e e2),
        cu,
        λ k.
            Shows-before s t u k _ (decisive_effect key_name k effects)
              (Shows-set s t key value k keyed own (other k)) (shows k),
      )
  apply_effects_lem (delete name key ∷ effects) s bits (named, are) c =
      let (t, e, (ct, own, other)) =
        get_value-delete_value js coerce sql model key_name key_param_name tables has_primary
          distinct key s c in
      let (u, e2, cu, shows) = apply_effects_lem effects t bits are ct in
      (
        u,
        rw (of_model name named) (rw e e2),
        cu,
        λ k.
            Shows-before s t u k _ (decisive_effect key_name k effects)
              (Shows-delete s t key k own (other k)) (shows k),
      )
