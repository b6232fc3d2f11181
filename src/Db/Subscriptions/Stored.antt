-- ===== src/Db/Subscriptions/Stored.antt =====
-- Subscriptions of a database over the object stores of IndexedDB:
-- packages/modeldb/src/AbstractModelDB.ts and packages/modeldb/src/idb/ModelDB.ts.
use canvas.Base.{
  ◌≡◌, refl, sym, ap, ◌∙◌, Option, none, some, List, [], ◌∷◌, map, Str, bytes_eq, bytes_eq_self,
  Result, ok, throw, ok_inj, Bool, true, false, if◌then◌else◌,
}
use canvas.Base.Maps.{Distinct}
use canvas.Db.Types.{property_name, Model, Js, ModelValue, get, QueryParams, Effect, set, delete}
use canvas.Db.Validate.Keys.{IsKeyIn}
use canvas.Db.Idb.Store.{ObjectStores, get_value, apply_effects}
use canvas.Db.Idb.Store.Laws.{
  picked, IsStore, AreEffects, got_after, got_after-or_later, apply_effects-decisive,
}
use canvas.Db.Sqlite.Store.Effects.{is_str, decisive_effect}
use canvas.Db.Subscriptions.{Backend}
use canvas.Db.Subscriptions.Laws.{after_effect, after_effects, Applies}

module _ (js : Js) (stores : ObjectStores js.Num) (model : Model)
    (query : Model → QueryParams js.Num → stores.State → Result (List (ModelValue js.Num))) where
  open js use {Num}
  open stores use {State}

  -- The database of one model.
  abbrev pub backend : Backend Num
  backend = record {
    State = State;
    apply = apply_effects js stores ((model.name, model) ∷ []);
    query = query;
  }

  abbrev returned : Result (Option (ModelValue Num)) → Option (ModelValue Num)
  returned (ok row) = row
  returned (throw message) = none

  -- The rows that `get` returns.
  abbrev pub rows : State → Str → Str → Option (ModelValue Num)
  rows s name key = returned (get_value js stores model key s)

  abbrev keep : ModelValue Num → ModelValue Num
  keep = picked js model.properties

  -- The read of a key after one effect on the model.
  abbrev first_effect : Str → Effect Num → Option (Option (ModelValue Num))
  first_effect key (set name value) =
      if is_str key (get value model.primary_key) then some (some value) else none
  first_effect key (delete name k) = if bytes_eq k key then some none else none

  returned-if_set :
      (value : ModelValue Num) (before : Result (Option (ModelValue Num))) (b : Bool)
      → returned (got_after js stores model (if b then some (some value) else none) before)
        ≡ (if b then some (keep value) else returned before)
  returned-if_set value before true = refl
  returned-if_set value before false = refl

  returned-if_deleted :
      (before : Result (Option (ModelValue Num))) (b : Bool)
      → returned (got_after js stores model (if b then some none else none) before)
        ≡ (if b then none else returned before)
  returned-if_deleted before true = refl
  returned-if_deleted before false = refl

  here : (name : Str) → name ≡ model.name → bytes_eq name model.name ≡ true
  here name e = ap (λ n. bytes_eq n model.name) e ∙ bytes_eq_self model.name

  returned-set :
      (name key : Str) (value : ModelValue Num) (before : Result (Option (ModelValue Num)))
      → name ≡ model.name
      → returned (got_after js stores model (first_effect key (set name value)) before)
        ≡ after_effect keep model key (set name value) (returned before)
  returned-set name key value before e =
      returned-if_set value before (is_str key (get value model.primary_key))
      ∙ rw (here name e) refl

  returned-delete :
      (name k key : Str) (before : Result (Option (ModelValue Num)))
      → name ≡ model.name
      → returned (got_after js stores model (first_effect key (delete name k)) before)
        ≡ after_effect keep model key (delete name k) (returned before)
  returned-delete name k key before e =
      returned-if_deleted before (bytes_eq k key) ∙ rw (here name e) refl

  -- What the last effect leaves is what the effects leave one after another.
  returned-decisive :
      (effects : List (Effect Num)) (key : Str) (before : Result (Option (ModelValue Num)))
      → AreEffects js stores model effects
      → returned (got_after js stores model (decisive_effect model.primary_key key effects) before)
        ≡ after_effects keep model key effects (returned before)
  returned-decisive [] key before are = refl
  returned-decisive (set name value ∷ effects) key before (named, _, _, are) =
      ap returned (
        sym (
          got_after-or_later js stores model (decisive_effect model.primary_key key effects)
            (first_effect key (set name value)) before))
      ∙ returned-decisive effects key _ are
      ∙ ap (after_effects keep model key effects) (returned-set name key value before named)
  returned-decisive (delete name k ∷ effects) key before (named, are) =
      ap returned (
        sym (
          got_after-or_later js stores model (decisive_effect model.primary_key key effects)
            (first_effect key (delete name k)) before))
      ∙ returned-decisive effects key _ are
      ∙ ap (after_effects keep model key effects) (returned-delete name k key before named)

  -- The rows of such a database are those that effects on its model leave, one after another.
  pub backend-Applies :
      IsStore js stores model
      → IsKeyIn model.primary_key model.properties
      → Distinct (map property_name model.properties)
      → Applies js backend rows keep (AreEffects js stores model) model
  backend-Applies is keyed distinct = record {
    applied = λ effects s t key are e. applied effects s t key are e;
  }
    where
      applied :
          (effects : List (Effect Num)) (s t : State) (key : Str)
          → AreEffects js stores model effects
          → apply_effects js stores ((model.name, model) ∷ []) effects s ≡ ok t
          → rows t model.name key ≡ after_effects keep model key effects (rows s model.name key)
      applied effects s t key are e =
          let (u, e2, got) =
            apply_effects-decisive js stores model is keyed distinct effects s are in
          ap (λ v. rows v model.name key) (ok_inj (sym e ∙ e2))
          ∙ ap returned (got key)
          ∙ returned-decisive effects key (get_value js stores model key s) are
