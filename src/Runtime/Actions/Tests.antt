-- ===== src/Runtime/Actions/Tests.antt =====
-- A contract with two actions, on both runtimes.
use mathlib.Core.Path.{subst}
use canvas.Base.{
  some_inj, inl, inr, Bool-cases, Option, ℕ, ◌≡◌, refl, true, false, Bool, none, some, List, [],
  ◌∷◌, Str, codes, bytes_eq, Result, ok, throw, arith, bytes_eq_iff, ◌≢◌,
}
use canvas.Base.Maps.{lookup, put, has}
use canvas.Db.Types.{primary, primitive, string, integer, bytes, Model, str, ModelValue, get}
use canvas.Db.Tests.{js}
use canvas.Db.Validate.{validate_property_value}
use canvas.Runtime.State.{action, Delivery, Db, is_own, apply_effect}
use canvas.Runtime.Cells.{cell}
use canvas.Runtime.Consumer.{consume_all, get_model_value}
use canvas.Runtime.Converge.{swap}
use canvas.Runtime.Tests.{test_hash, test_keys, test_txn}
use canvas.Runtime.Actions.{
  Entries, Action, returns, throws, gets, sets, deletes, ActionContext, Implementation, Kind,
  contract, function, Host, runtime_of, run_action, function_api, ModelApi, api_of,
}
use canvas.Runtime.Actions.Runs.{Writes, ActionsWrite}
use canvas.Runtime.Actions.Objects.{IsTheirs}
use canvas.Runtime.Actions.Valid.{AreRows}
use canvas.Runtime.Opened.{consume_all-valid, consume_all-converges}
use canvas.Runtime.Schema.{put_init, db_models}
use canvas.Runtime.Schema.Laws.{IsOpened, IsOpened-AreKeyed}
use canvas.Db.Config.{ModelInit, text, parse_config}
use canvas.Runtime.Actions.Reads.{Reads, get_row-set_row}

abbrev post : Model
post = record {
  name = codes "post";
  primary_key = codes "id";
  properties = primary (codes "id") ∷ primitive (codes "text") string false ∷ [];
  indexes = [];
}

abbrev post_inits : List ModelInit
post_inits =
    record {
      name = codes "post";
      indexes = none;
      rest = (codes "id", text (codes "primary")) ∷ (codes "text", text (codes "string")) ∷ [];
    }
    ∷ []

abbrev sessions : Model
sessions = record {
  name = codes "$sessions";
  primary_key = codes "message_id";
  properties =
      primary (codes "message_id")
      ∷ primitive (codes "public_key") string false
      ∷ primitive (codes "address") string false
      ∷ primitive (codes "expiration") integer true
      ∷ primitive (codes "rawMessage") string false
      ∷ primitive (codes "rawSignature") string false
      ∷ [];
  indexes = (codes "address" ∷ []) ∷ (codes "public_key" ∷ []) ∷ [];
}

abbrev own_table : (history : Bool) → Model
own_table true = record {
  name = codes "$effects";
  primary_key = codes "key";
  properties = primary (codes "key") ∷ primitive (codes "value") bytes true ∷ [];
  indexes = [];
}
own_table false = record {
  name = codes "$versions";
  primary_key = codes "key";
  properties = primary (codes "key") ∷ primitive (codes "version") bytes false ∷ [];
  indexes = [];
}

abbrev tables : Bool → List (Str × Model)
tables history =
    (codes "post", post)
    ∷ (codes "$sessions", sessions)
    ∷ ((own_table history).name, own_table history)
    ∷ []

abbrev row : Str → ModelValue ℕ
row t = (codes "id", str (codes "p")) ∷ (codes "text", str t) ∷ []

-- Writes a post, and deletes it again if that throws.
abbrev recover : Result (Unit {0}) → Action ℕ
recover (ok u) = returns
recover (throw e) = deletes (codes "post") (codes "p") (λ gone. returns)

abbrev publish : Str → Action ℕ
publish t = sets (codes "post") (row t) (λ done. recover done)

abbrev contract_of : (history : Bool) → Host
contract_of history = record {
  js = js;
  Args = Str;
  topic = codes "t";
  models = tables history;
  actions =
      (codes "publish", record { Typed = Str; to_typed = λ a. some a; apply = λ a c. publish a })
      ∷ [];
  index_history = history;
  ignore_missing_actions = false;
  property_key = λ v. [];
  matches = λ a. true;
  verify_session = λ t s. true;
  raw_message = λ d. d.id;
  raw_signature = λ d. d.id;
  key_hash = test_hash;
  write_own = λ model key row db. db;
  encode_row = λ r. [];
  decode_row = λ b. ok none;
  encode_id = λ id. id;
  decode_id = λ key. key;
}

abbrev publication : (id t : Str) → Delivery Str
publication id t = record {
  id = id;
  signature_key = codes "k";
  parents = [];
  payload = action (record {
    address = codes "a";
    name = codes "publish";
    args = t;
    timestamp = 5;
    blockhash = none;
  });
}

abbrev posts : Db (ModelValue ℕ)
posts = record {
  sessions =
      (
        codes "s",
        record {
          message_id = codes "s";
          public_key = codes "k";
          address = codes "a";
          expiration = 10;
          raw_message = [];
          raw_signature = [];
        },
      )
      ∷ [];
  effects = [];
  versions = [];
  rows = λ m k. none;
}

no_posts-AreRows : (history : Bool) → AreRows (contract_of history) posts
no_posts-AreRows history name key value e = absurd (cc)

opened : (history : Bool) → IsOpened post_inits history (tables history)
unfolding parse_config bytes_eq put_init db_models put
opened true = record {
  config = record { relations = []; models = post ∷ sessions ∷ own_table true ∷ [] };
  distinct = (tt, tt);
  parsed = refl;
  opened = refl;
}
opened false = record {
  config = record { relations = []; models = post ∷ sessions ∷ own_table false ∷ [] };
  distinct = (tt, tt);
  parsed = refl;
  opened = refl;
}

-- The action sets and deletes posts only.
publish-Writes : (t : Str) → Writes (IsTheirs (contract_of false)) (publish t)
unfolding Writes is_own bytes_eq
publish-Writes t = (refl, λ answer. recovered answer)
  where
    recovered :
        (answer : Result (Unit {0})) → Writes (IsTheirs (contract_of false)) (recover answer)
    recovered (ok u) = tt
    recovered (throw e) = (refl, λ gone. tt)

abbrev PublishWrites : Implementation Str ℕ → Type 0
PublishWrites i =
    (typed : i.Typed) (context : ActionContext)
    → Writes (IsTheirs (contract_of false)) (i.apply typed context)

not_found : {i : Implementation Str ℕ} → ◌≡◌ {A = Option (Implementation Str ℕ)} none (some i) → ⊥
not_found e = cc

publish-ActionsWrite : ActionsWrite (contract_of false) (IsTheirs (contract_of false))
unfolding lookup
publish-ActionsWrite name i e = elim (Bool-cases (bytes_eq (codes "publish") name)) [
  | inl b ↦ subst PublishWrites (some_inj (rw b at e)) (λ t context. publish-Writes t)
  | inr b ↦ absurd (not_found (rw b at e))
]

abbrev published : Result (Db (ModelValue ℕ)) → Db (ModelValue ℕ)
published (ok db) = db
published (throw e) = posts

abbrev forth : List (Delivery Str)
forth = publication (codes "1") (codes "x") ∷ publication (codes "2") (codes "y") ∷ []

abbrev back : List (Delivery Str)
back = publication (codes "2") (codes "y") ∷ publication (codes "1") (codes "x") ∷ []

abbrev after_all : Bool → Kind → List (Delivery Str) → Db (ModelValue ℕ)
after_all history kind ds =
    published (consume_all (runtime_of (contract_of history) kind) test_txn ds posts)

different : codes "1" ≢ codes "2"
different e = absurd (ground (arith, bytes_eq_iff (codes "1") (codes "2")))

consume_all-valid_example : AreRows (contract_of true) (after_all true contract forth)
unfolding consume_all put bytes_eq is_own canvas.Runtime.Actions.execute_payload
    validate_property_value apply_effect
consume_all-valid_example =
    consume_all-valid (contract_of true) contract post_inits (opened true) test_txn forth posts
      (no_posts-AreRows true) refl

consume_all-converges_example :
    cell
      (runtime_of (contract_of false) function)
      (codes "post")
      (codes "p")
      (after_all false function forth)
    ≡ cell
        (runtime_of (contract_of false) function)
        (codes "post")
        (codes "p")
        (after_all false function back)
unfolding consume_all put bytes_eq is_own has canvas.Runtime.Actions.execute_payload
    validate_property_value apply_effect
consume_all-converges_example =
    consume_all-converges (contract_of false) function post_inits (opened false)
      publish-ActionsWrite refl (record { version_keys = test_keys.version_keys }) (λ a b e. e)
      (codes "post") (codes "p")
      (swap (publication (codes "1") (codes "x")) (publication (codes "2") (codes "y")) []
        different)
      test_txn test_txn posts refl refl

-- The last of the two publications is in the database.
published_text :
    (after_all true contract forth).rows (codes "post") (codes "p") ≡ some (row (codes "y"))
unfolding consume_all put bytes_eq is_own canvas.Runtime.Actions.execute_payload
    validate_property_value apply_effect
published_text = refl

abbrev first : Delivery Str
first = publication (codes "1") (codes "x")

abbrev api : ModelApi ℕ
api =
    api_of (contract_of true) function
      (get_model_value (runtime_of (contract_of true) function) test_txn posts first)

abbrev written : Entries ℕ
written = put (codes "post") ((codes "p", some (row (codes "x"))) ∷ []) []

get_row-set_row_example :
    (model : Model) × (key : Str) × (lookup (codes "post") (contract_of true).models ≡ some model)
    × (get (row (codes "x")) model.primary_key ≡ str key)
    × Reads
        (contract_of true)
        function
        test_txn
        posts
        first
        (codes "post")
        key
        (some (row (codes "x")))
        ((codes "post", []) ∷ [])
        written
unfolding function_api put bytes_eq validate_property_value
get_row-set_row_example =
    get_row-set_row (contract_of true) function test_txn posts first
      (IsOpened-AreKeyed post_inits true (tables true) (opened true)).0 refl (codes "post")
      (row (codes "x")) ((codes "post", []) ∷ []) written refl
