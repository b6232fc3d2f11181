-- ===== src/Db/Subscriptions/Laws.antt =====
-- What a subscriber misses: apply of packages/modeldb/src/sqlite/ModelDB.ts and getEffectFilter of
-- packages/modeldb/src/AbstractModelDB.ts.
use canvas.Base.{
  ℕ, ◌≡◌, ◌⊎◌, ◌&&◌, Bool, false, Option, none, some, List, [], ◌∷◌, Str, String, bytes_eq, any, ok,
  throw, if◌then◌else◌,
}
use canvas.Db.Types.{Model, Js, ModelValue, get, QueryParams, Effect, set, delete}
use canvas.Db.Sqlite.Store.Effects.{is_str}
use canvas.Db.Subscriptions.{Subscription, Backend, Call, effect_filter}

module _ {N : Type 0} (model : Model) (key : Str) where
  -- A set of the model's row under the key.
  abbrev pub sets_row : Effect N → Bool
  sets_row (set name value) = bytes_eq name model.name && is_str key (get value model.primary_key)
  sets_row (delete name k) = false

-- `keep` is what a database keeps of a value that is set.
module _ {N : Type 0} (keep : ModelValue N → ModelValue N) (model : Model) (key : Str) where
  -- The row under the key after one more effect.
  abbrev pub after_effect : Effect N → Option (ModelValue N) → Option (ModelValue N)
  after_effect (set name value) row =
      if bytes_eq name model.name && is_str key (get value model.primary_key)
      then some (keep value)
      else row
  after_effect (delete name k) row =
      if bytes_eq name model.name && bytes_eq k key then none else row

  abbrev pub after_effects : List (Effect N) → Option (ModelValue N) → Option (ModelValue N)
  after_effects [] row = row
  after_effects (e ∷ effects) row = after_effects effects (after_effect e row)

-- What a query shows of a row: nothing, if it does not match.
abbrev pub shown :
    {N : Type 0} → (ModelValue N → Bool) → Option (ModelValue N) → Option (ModelValue N)
shown matches none = none
shown matches (some row) = if matches row then some row else none

abbrev pub In : {A : Type 0} → A → List A → Type 0
In x [] = ⊥
In x (y ∷ ys) = (x ≡ y) ⊎ In x ys

module _ (js : Js) (backend : Backend js.Num)
    (rows : backend.State → Str → Str → Option (ModelValue js.Num)) where
  open js use {Num}
  open backend use {State, apply, query}

  -- The rows of the database after certain effects are those that the effects leave, one after
  -- another, as the database keeps them.
  pub record Applies (keep : ModelValue Num → ModelValue Num) (AreKept : List (Effect Num) → Type 0)
      (model : Model) : Type 0 where
    pub applied :
        (effects : List (Effect Num)) (s t : State) (key : Str)
        → AreKept effects
        → apply effects s ≡ ok t
        → rows t model.name key ≡ after_effects keep model key effects (rows s model.name key)

  module _ (keep : ModelValue Num → ModelValue Num) (AreKept : List (Effect Num) → Type 0)
      (model : Model) (params : QueryParams Num) (matches : ModelValue Num → Bool) where
    -- What `subscribe` keeps.
    abbrev pub subscription : Subscription Num
    subscription = record {
      model = model.name;
      query = params;
      filter = effect_filter js backend model.name matches;
    }

    -- The callback is called with the results of its query, the query throws, or no effect passes.
    abbrev Notified : ℕ → List (Effect Num) → State → List (Call Num) → Type 0
    Notified id effects t calls =
        ((results : List (ModelValue Num)) × (query model params t ≡ ok results)
          × In (id, results) calls)
        ⊎ (((message : String) × (query model params t ≡ throw message))
            ⊎ (any subscription.filter effects ≡ false))

    -- What a subscriber sees of a transaction.
    abbrev pub Outcome : ℕ → List (Effect Num) → (s t : State) → List (Call Num) → Type 0
    Outcome id effects s t calls =
        ((results : List (ModelValue Num)) × (query model params t ≡ ok results)
          × In (id, results) calls)
        ⊎ (((message : String) × (query model params t ≡ throw message))
            ⊎ ((key : Str)
                → shown matches (rows t model.name key) ≡ (
                    if any (sets_row model key) effects
                    then none
                    else shown matches (rows s model.name key))))
