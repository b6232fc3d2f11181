-- ===== src/Runtime/Tests.antt =====
-- Two replicas that apply two writes of one row in different orders.
use mathlib.Core.Path.{subst}
use canvas.Base.{
  List, Option, ℕ, suc, ◌+◌, length, Bytes, ℕ, Bool, true, false, not, ◌&&◌, ◌≡◌, refl, ap, ◌∙◌,
  arith, Option, none, some, [], ◌∷◌, map, Str, bytes_eq, bytes_eq_iff, Result, ok, throw, ok_inj,
  ◌==◌, ◌+◌,
}
use canvas.Gossip.Log.Types.{Txn}
use canvas.Runtime.State.{action, Delivery, Db, Env, is_own, SessionRow, apply_effect}
use canvas.Base.Maps.{has}
use canvas.Runtime.Consumer.{consume_all, slash, find_value}
use canvas.Runtime.History.{Finds, find_value-Finds}
use canvas.Runtime.Cells.{cell, DistinctKeys, AreForeign, AreObjects}
use canvas.Runtime.Converge.{swap, NoHistory, consume_all-Reorder}

-- A hash whose digits are past the slash.
abbrev pub test_hash : Str → Str
test_hash = map (λ c. c + 48)

abbrev test_env : Env
test_env = record {
  Args = ℕ;
  Row = Str;
  topic = 116 ∷ [];
  index_history = false;
  matches = λ a. true;
  verify_session = λ t s. true;
  raw_message = λ d. d.id;
  raw_signature = λ d. d.id;
  execute = λ get d. ok ((109 ∷ [], (107 ∷ [], some d.id) ∷ []) ∷ []);
  key_hash = test_hash;
  write_own = λ model key row db. db;
  encode_row = λ r. r;
  decode_row = λ r. ok r;
  encode_id = λ id. id;
  decode_id = λ key. key;
}

unfoldable no_slash : Str → Bool
no_slash [] = true
no_slash (c ∷ s) = not (c == 47) && no_slash s

no_slash-slash : (m h : Str) → no_slash (slash m h) ≡ false
unfolding no_slash
no_slash-slash [] h = refl
no_slash-slash (c ∷ m) h = ground (arith, no_slash-slash m h)

no_slash-test_hash : (k : Str) → no_slash (test_hash k) ≡ true
unfolding no_slash
no_slash-test_hash [] = refl
no_slash-test_hash (c ∷ k) = ground (arith, no_slash-test_hash k)

slash_eq :
    (m m' h h' : Str)
    → no_slash h ≡ true
    → no_slash h' ≡ true
    → bytes_eq (slash m h) (slash m' h') ≡ (bytes_eq m m' && bytes_eq h h')
unfolding bytes_eq no_slash
slash_eq [] [] h h' a b = refl
slash_eq [] (c ∷ m') h h' a b = ground (arith, no_slash-slash m' h', bytes_eq_iff h (slash m' h'))
slash_eq (c ∷ m) [] h h' a b = ground (arith, no_slash-slash m h, bytes_eq_iff (slash m h) h')
slash_eq (c ∷ m) (c' ∷ m') h h' a b = ground (arith, slash_eq m m' h h' a b)

test_hash_eq : (k k' : Str) → bytes_eq (test_hash k) (test_hash k') ≡ bytes_eq k k'
unfolding bytes_eq
test_hash_eq [] [] = refl
test_hash_eq [] (c ∷ k') = refl
test_hash_eq (c ∷ k) [] = refl
test_hash_eq (c ∷ k) (c' ∷ k') = ground (arith, test_hash_eq k k')

pub test_keys : DistinctKeys test_env
test_keys = record {
  version_keys = λ m k m' k'.
      slash_eq m m' (test_hash k) (test_hash k') (no_slash-test_hash k) (no_slash-test_hash k')
      ∙ ap (λ b. bytes_eq m m' && b) (test_hash_eq k k');
}

abbrev test_entries : Str → List (Str × List (Str × Option Str))
test_entries id = (109 ∷ [], (107 ∷ [], some id) ∷ []) ∷ []

test_objects : (id : Str) → AreForeign false (test_entries id) × AreObjects (test_entries id)
unfolding has is_own bytes_eq
test_objects id = (((refl, tt), tt), ((refl, tt), ((refl, tt), tt)))

test_env-NoHistory : NoHistory test_env
test_env-NoHistory = record {
  latest = refl;
  keys = test_keys;
  ids = λ a b h. h;
  objects = λ d models h.
      subst (λ models. AreForeign false models × AreObjects models) (ok_inj h) (test_objects d.id);
}

abbrev write_of : Str → Delivery ℕ
write_of id = record {
  id = id;
  signature_key = 115 ∷ [];
  parents = [];
  payload =
      action
        (record { address = 97 ∷ []; name = 110 ∷ []; args = 0; timestamp = 5; blockhash = none });
}

abbrev test_session : SessionRow
test_session = record {
  message_id = 1 ∷ [];
  public_key = 115 ∷ [];
  address = 97 ∷ [];
  expiration = 10;
  raw_message = [];
  raw_signature = [];
}

abbrev test_db : Db Str
test_db = record {
  sessions = (1 ∷ [], test_session) ∷ [];
  effects = [];
  versions = [];
  rows = λ m k. none;
}

abbrev pub test_txn : Txn
test_txn = record { messages = []; heads = []; ancestors = [] }

abbrev test_effects : List (Str × Option Bytes)
test_effects = (slash (109 ∷ []) (slash (107 ∷ []) (5 ∷ [])), some (1 ∷ [])) ∷ []

abbrev run : Result (Db Str) → Db Str
run (ok db) = db
run (throw e) = test_db

two_orders :
    cell test_env
      (109 ∷ [])
      (107 ∷ [])
      (run (consume_all test_env test_txn (write_of (2 ∷ []) ∷ write_of (3 ∷ []) ∷ []) test_db))
    ≡ cell test_env
        (109 ∷ [])
        (107 ∷ [])
        (run (consume_all test_env test_txn (write_of (3 ∷ []) ∷ write_of (2 ∷ []) ∷ []) test_db))
unfolding consume_all bytes_eq is_own apply_effect
two_orders =
    consume_all-Reorder test_env test_env-NoHistory (109 ∷ []) (107 ∷ [])
      (swap (write_of (2 ∷ [])) (write_of (3 ∷ [])) [] (ground arith)) test_txn test_txn test_db
      refl refl

find_value-Finds_example : Finds test_env test_txn [] test_effects ((5 ∷ []) ∷ []) (118 ∷ []) (
    find_value test_env
      (suc (length test_effects))
      test_txn
      []
      (118 ∷ [])
      test_effects
      ((5 ∷ []) ∷ []))
find_value-Finds_example =
    find_value-Finds test_env test_txn [] test_effects ((5 ∷ []) ∷ []) (118 ∷ [])
