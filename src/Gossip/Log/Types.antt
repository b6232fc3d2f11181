-- ===== src/Gossip/Log/Types.antt =====
-- packages/gossiplog/src/AbstractGossipLog.ts: messages, the tables of a log, and what the log takes
-- from elsewhere.
use canvas.Base.{
  ℕ, Bool, true, false, Option, none, some, String, List, [], ◌∷◌, Str, Bytes, bytes_lt,
  if◌then◌else◌, Result, ok, throw,
}
use canvas.Base.Maps.{lookup}
use canvas.Gossip.Mempool.{Mempool}

pub record Message (Payload : Type 0) : Type 0 where
  pub topic : Str
  pub clock : ℕ
  pub parents : List Str
  pub payload : Payload

-- A `ReadWriteTransaction`: messages by their keys, the set of heads, and the links of a message.
pub record Txn : Type 0 where
  pub messages : List (Bytes × Bytes)
  pub heads : List Bytes
  pub ancestors : List (Bytes × List (List Bytes))

-- What is not defined here: base32, hashes, signatures, CBOR with the schema of payloads, and the
-- consumer of the log.
pub record Env : Type 1 where
  pub Payload : Type 0
  pub Signature : Type 0
  pub State : Type 0
  pub topic : Str
  pub index_ancestors : Bool
  pub encode_id : Str → Bytes
  pub decode_id : Bytes → Str
  pub sha256 : Bytes → Bytes
  -- `encodeSignedMessage` and `decodeSignedMessage`, with the check of the payload.
  pub encode_value : Signature → List Bytes → Payload → Result Bytes
  pub decode_value : Bytes → Result (Signature × List Bytes × Payload)
  pub verify_signed_value : Signature → Message Payload → Bool
  pub verify_signature : Signature → Bool
  pub apply : Txn → State → Str → Signature → Message Payload → Result State

-- A log that is written to: the transaction, the mempool, and the state of the consumer.
pub record Log (env : Env) : Type 0 where
  pub txn : Txn
  pub mempool : Mempool (env.Signature × Message env.Payload)
  pub state : env.State

-- `parents.sort()`: by code units.
unfoldable pub insert_sorted : Str → List Str → List Str
insert_sorted x [] = x ∷ []
insert_sorted x (y ∷ ys) = if bytes_lt y x then y ∷ insert_sorted x ys else x ∷ y ∷ ys

unfoldable pub sort : List Str → List Str
unfolding insert_sorted
sort [] = []
sort (x ∷ xs) = insert_sorted x (sort xs)

-- `const parent = await txn.messages.get(key)`, and `parent === null`
abbrev pub is_some {ℓ} : {A : Type ℓ} → Option A → Bool
is_some none = false
is_some (some a) = true

unfoldable pub stored : Txn → Bytes → Bool
unfolding lookup
stored txn key = is_some (lookup key txn.messages)

abbrev pub or_throw {ℓ} : {A : Type ℓ} → Option A → String → Result A
or_throw none message = throw message
or_throw (some a) message = ok a
