-- ===== src/Db/Subscriptions/Tests.antt =====
-- A subscriber of a query on people above a certain age, over object stores.
use canvas.Base.{
  ℕ, ◌≡◌, refl, Bool, false, Option, none, some, List, [], ◌∷◌, Str, codes, Result, ok, throw,
  bytes_eq,
}
use canvas.Db.Types.{
  primary, primitive, integer, Model, num, str, ModelValue, range, QueryParams, Effect, set,
}
use canvas.Db.Tests.{js}
use canvas.Db.Query.{get_filter}
use canvas.Db.Subscriptions.{Backend, Call, ModelDb, subscribe, unsubscribe, apply_and_notify}
use canvas.Base.Maps.{lookup, put}
use canvas.Db.Idb.Store.{Object, ObjectStores, get_value, apply_effects}
use canvas.Db.Idb.Store.Tests.{stores_at}
use canvas.Db.Subscriptions.Stored.{backend}

abbrev person : Model
person = record {
  name = codes "person";
  primary_key = codes "id";
  properties = primary (codes "id") ∷ primitive (codes "age") integer false ∷ [];
  indexes = [];
}

abbrev adults : QueryParams ℕ
adults = record {
  select = none;
  where_ = some ((codes "age", range none (some (num 18)) none none) ∷ []);
  order_by = none;
  limit = none;
  offset = none;
}

abbrev row : ℕ → ModelValue ℕ
row age = (codes "id", str (codes "a")) ∷ (codes "age", num age) ∷ []

abbrev people_stores : ObjectStores ℕ
people_stores = stores_at (codes "id")

-- The query shows the row under one key.
abbrev shown_people : Result (Option (ModelValue ℕ)) → Result (List (ModelValue ℕ))
shown_people (ok none) = ok []
shown_people (ok (some r)) = ok (r ∷ [])
shown_people (throw e) = throw e

abbrev query : Model → QueryParams ℕ → List (Str × Object ℕ) → Result (List (ModelValue ℕ))
query model params s = shown_people (get_value js people_stores person (codes "a") s)

abbrev people : Backend ℕ
people = backend js people_stores person query

abbrev no_people : ModelDb js people
no_people = record {
  models = (codes "person", person) ∷ [];
  store = [];
  subscriptions = [];
  subscription_id = 0;
}

abbrev subscribed : Result (ℕ × ModelDb js people) → ModelDb js people
subscribed (ok (id, db)) = db
subscribed (throw e) = no_people

abbrev start : ModelDb js people
start = subscribed (subscribe js people (codes "person") adults no_people)

abbrev matched : Result (ModelValue ℕ → Bool) → ModelValue ℕ → Bool
matched (ok f) = f
matched (throw e) = λ r. false

abbrev is_adult : ModelValue ℕ → Bool
is_adult = matched (get_filter js person ((codes "age", range none (some (num 18)) none none) ∷ []))

abbrev applied : Result (ModelDb js people × List (Call ℕ)) → ModelDb js people
applied (ok (db, calls)) = db
applied (throw e) = no_people

abbrev effects : List (Effect ℕ)
effects = set (codes "person") (row 30) ∷ []

abbrev calls : List (Call ℕ)
calls = (0, row 30 ∷ []) ∷ []

-- A row that no longer matches is not told of.
missed :
    apply_and_notify js people (set (codes "person") (row 10) ∷ []) start
    ≡ ok (applied (apply_and_notify js people (set (codes "person") (row 10) ∷ []) start), [])
unfolding subscribe apply_and_notify get_filter bytes_eq lookup put get_value apply_effects
    canvas.Db.Validate.validate_property_value canvas.Db.Order.null_first canvas.Db.Order.js_lt
missed = refl

-- Nobody is told after the subscription ends.
ended : (unsubscribe js people 0 start).subscriptions ≡ []
unfolding subscribe unsubscribe get_filter bytes_eq canvas.Db.Validate.validate_property_value
ended = refl
