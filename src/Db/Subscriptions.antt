-- ===== src/Db/Subscriptions.antt =====
-- packages/modeldb/src/AbstractModelDB.ts: subscriptions of queries, and which of them `apply` of
-- packages/modeldb/src/sqlite/ModelDB.ts answers again. What a class of databases has of its own,
-- apply and query, is given.
pub mod Laws
pub mod Stored
mod Tests
use canvas.Base.{
  ℕ, suc, ◌==◌, not, Bool, true, false, Option, none, some, List, [], ◌∷◌, ◌++◌, Str, bytes_eq, any,
  filter, Result, ok, throw, ◌>>=◌, if◌then◌else◌,
}
use canvas.Base.Maps.{lookup}
use canvas.Gossip.Log.Types.{or_throw}
use canvas.Db.Types.{Model, Js, ModelValue, Expression, QueryParams, Effect, set, delete}
use canvas.Db.Query.{get_filter}

-- `Subscription`; its callback is known by its id.
pub record Subscription (N : Type 0) : Type 0 where
  pub model : Str
  pub query : QueryParams N
  pub filter : Effect N → Bool

-- A database that runs effects and answers queries.
pub record Backend (N : Type 0) : Type 1 where
  pub State : Type 0
  pub apply : List (Effect N) → State → Result State
  pub query : Model → QueryParams N → State → Result (List (ModelValue N))

-- The results that a callback is called with.
abbrev pub Call : Type 0 → Type 0
Call N = ℕ × List (ModelValue N)

module _ (js : Js) (backend : Backend js.Num) where
  open js use {Num}
  open backend use {State, apply, query}

  pub record ModelDb : Type 0 where
    pub models : List (Str × Model)
    pub store : State
    pub subscriptions : List (ℕ × Subscription Num)
    pub subscription_id : ℕ

  abbrev pub clauses_of : Option (List (Str × Expression Num)) → List (Str × Expression Num)
  clauses_of none = []
  clauses_of (some clauses) = clauses

  -- The function that `getEffectFilter` returns.
  unfoldable pub effect_filter : Str → (ModelValue Num → Bool) → Effect Num → Bool
  unfolding bytes_eq
  effect_filter name matches (set model value) =
      if bytes_eq model name then matches value else false
  effect_filter name matches (delete model key) = bytes_eq model name

  -- `getEffectFilter`
  abbrev pub get_effect_filter : Model → QueryParams Num → Result (Effect Num → Bool)
  get_effect_filter model params = do
    matches ← get_filter js model (clauses_of params.where_)
    ok (effect_filter model.name matches)

  -- `subscribe`, but the first call of the callback; a new id is the last of the map.
  unfoldable pub subscribe : Str → QueryParams Num → ModelDb → Result (ℕ × ModelDb)
  unfolding get_filter effect_filter lookup
  subscribe name params db = do
    model ← or_throw (lookup name db.models) "model not found"
    accepts ← get_effect_filter model params
    ok (
      db.subscription_id,
      record db {
        subscriptions =
            db.subscriptions
            ++ (db.subscription_id, record { model = name; query = params; filter = accepts }) ∷ [];
        subscription_id = suc db.subscription_id;
      },
    )

  -- `unsubscribe`
  unfoldable pub unsubscribe : ℕ → ModelDb → ModelDb
  unsubscribe id db = record db { subscriptions = filter (λ e. not (e.0 == id)) db.subscriptions }

  -- The call of a callback, or a log line.
  abbrev pub called : ℕ → Result (List (ModelValue Num)) → List (Call Num) → List (Call Num)
  called id (ok results) calls = (id, results) ∷ calls
  called id (throw message) calls = calls

  -- The loop over the subscriptions in `apply`.
  unfoldable pub notify :
      List (Str × Model)
      → List (ℕ × Subscription Num)
      → List (Effect Num)
      → State
      → Result (List (Call Num))
  unfolding lookup
  notify models [] effects store = ok []
  notify models ((id, s) ∷ subscriptions) effects store =
      let rest = notify models subscriptions effects store in
      if any s.filter effects
      then (do
        model ← or_throw (lookup s.model models) "model not found"
        calls ← rest
        ok (called id (query model s.query store) calls))
      else rest

  -- `apply`
  unfoldable pub apply_and_notify : List (Effect Num) → ModelDb → Result (ModelDb × List (Call Num))
  unfolding notify
  apply_and_notify effects db = do
    store ← apply effects db.store
    calls ← notify db.models db.subscriptions effects store
    ok (record db { store = store }, calls)
