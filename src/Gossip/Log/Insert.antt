-- ===== src/Gossip/Log/Insert.antt =====
-- packages/gossiplog/src/AbstractGossipLog.ts: encode, append, insert and sync.
use canvas.Base.{
  ℕ, zero, suc, true, false, ◌==◌, Option, none, some, List, [], ◌∷◌, map, Str, Bytes, bytes_eq,
  length, if◌then◌else◌, Result, ok, throw, assert, ◌>>=◌, ◌>>◌,
}
use canvas.Base.Maps.{lookup, has, add, put, delete, remove}
use canvas.Gossip.Mempool.{insert, release}
use canvas.Gossip.Schema.{get_next_clock, get_key}
use canvas.Gossip.Log.Types.{Message, Txn, Env, Log, sort, insert_sorted, stored}
use canvas.Gossip.Log.Ancestors.{get_ancestor_clocks, ancestor_links}

abbrev pub sort_parents : {P : Type 0} → Message P → Message P
sort_parents message = record message { parents = sort message.parents }

unfoldable pub delete_all : List Bytes → List Bytes → List Bytes
unfolding delete
delete_all [] heads = heads
delete_all (parent ∷ parents) heads = delete_all parents (delete parent heads)

-- `txn.heads.set(key, cborNull)`: entries are in the order of their keys.
unfoldable pub put_head : Bytes → List Bytes → List Bytes
unfolding has insert_sorted
put_head key heads = if has key heads then heads else insert_sorted key heads

-- `txn.messages.set`, `txn.heads.set`, and `txn.heads.delete` for every parent.
unfoldable pub store : Bytes → Bytes → List Bytes → Txn → Txn
unfolding put put_head delete_all
store key value parents txn = record txn {
  messages = put key value txn.messages;
  heads = delete_all parents (put_head key txn.heads);
}

module _ (env : Env) where
  open env use {
    Payload, Signature, topic, index_ancestors, encode_id, decode_id, sha256, encode_value,
    decode_value, verify_signed_value, verify_signature, apply,
  }

  -- `encode`; it sorts the message's parents in place, which `sort_parents` does for its callers.
  unfoldable pub encode : Signature → Message Payload → Result (Bytes × Bytes)
  unfolding bytes_eq sort get_next_clock get_key
  encode signature message = do
    assert (bytes_eq message.topic topic) "invalid message topic"
    clock ← get_next_clock (map encode_id (sort message.parents))
    assert (clock == message.clock) "error encoding message (invalid clock)"
    value ← encode_value signature (map encode_id (sort message.parents)) message.payload
    ok (get_key sha256 message.clock value, value)

  -- `if (this.indexAncestors)` in `#insert`.
  unfoldable pub index_message : Bytes → ℕ → List Bytes → Txn → Result Txn
  unfolding get_ancestor_clocks ancestor_links put
  index_message key clock parents txn = elim index_ancestors [
    | false ↦ ok txn
    | true ↦ do
      clocks ← get_ancestor_clocks clock
      links ← ancestor_links encode_id decode_id txn clocks parents
      ok (record txn { ancestors = put key links txn.ancestors })
  ]

  abbrev pub insert_released :
      (Str → Signature → Message Payload → Log env → Result (Log env))
      → Option (Str × (Signature × Message Payload))
      → Log env
      → Result (Log env)
  insert_released again none log = ok log
  insert_released again (some (child, (signature, message))) log = again child signature message log

  -- The loop over `mempool.observe(id)`: each released child is inserted before the next is visited.
  unfoldable pub release_children :
      (Str → Signature → Message Payload → Log env → Result (Log env))
      → Str
      → List Str
      → Log env
      → Result (Log env)
  unfolding release
  release_children again id [] log = ok log
  release_children again id (child ∷ children) log = do
    (entry, mempool) ← release id child log.mempool
    log' ← insert_released again entry (record log { mempool = mempool })
    release_children again id children log'

  abbrev pub observed :
      (Str → Signature → Message Payload → Log env → Result (Log env))
      → Str
      → Option (List Str)
      → Log env
      → Result (Log env)
  observed again id none log = ok log
  observed again id (some children) log = release_children again id children (record log {
    mempool = record log.mempool { waiting_children = remove id log.mempool.waiting_children };
  })

  -- `#insert`, which returns the log that it leaves. Thrown has what it leaves when it throws.
  unfoldable pub insert_at :
      ℕ → Str → Signature → Message Payload → Bytes → Bytes → Log env → Result (Log env)
  unfolding store index_message release_children encode sort
  insert_at zero id signature message key value log = throw "out of fuel"
  insert_at (suc fuel) id signature message key value log = do
    state ← apply log.txn log.state id signature message
    txn ←
        index_message key message.clock (map encode_id message.parents)
          (store key value (map encode_id message.parents) log.txn)
    observed
        (λ child signature message log. do
          (key, value) ← encode signature message
          insert_at fuel child signature (sort_parents message) key value log)
        id (lookup id log.mempool.waiting_children) (record log { txn = txn; state = state })

  -- Every message of the mempool may be inserted once.
  abbrev pub insert_now :
      Str → Signature → Message Payload → Bytes → Bytes → Log env → Result (Log env)
  insert_now id signature message key value log =
      insert_at (suc (length log.mempool.values)) id signature message key value log

  unfoldable pub missing_parents : List Str → Txn → List Str → List Str
  unfolding stored add
  missing_parents [] txn missing = missing
  missing_parents (parent ∷ parents) txn missing =
      missing_parents parents txn
        (if stored txn (encode_id parent) then missing else add parent missing)

  unfoldable pub insert_or_wait :
      Str → Signature → Message Payload → Bytes → Bytes → List Str → Log env → Result (Log env)
  unfolding insert_at insert
  insert_or_wait id signature message key value [] log =
      insert_now id signature message key value log
  insert_or_wait id signature message key value (parent ∷ missing) log =
      let waiting : Log env = record log {
        mempool = insert id (signature, message) (parent ∷ missing) log.mempool;
      } in
      elim index_ancestors [
        | true ↦ ok waiting
        | false ↦ insert_now id signature message key value waiting
      ]

  -- `insert`
  unfoldable pub insert_message : Signature → Message Payload → Log env → Result (Log env)
  unfolding encode sort missing_parents insert_or_wait
  insert_message signature message log = do
    assert (verify_signed_value signature message) "invalid signature"
    (key, value) ← encode signature message
    insert_or_wait (decode_id key) signature (sort_parents message) key value
        (missing_parents (sort message.parents) log.txn []) log

  -- `append`; `sign` is the signer's.
  unfoldable pub append :
      (sign : Message Payload → Signature) → Payload → Log env → Result (Log env)
  unfolding get_next_clock encode sort insert_at
  append sign payload log = do
    clock ← get_next_clock log.txn.heads
    (let message : Message Payload = record {
      topic = topic;
      clock = clock;
      parents = map decode_id log.txn.heads;
      payload = payload;
    } in
        do
          (key, value) ← encode (sign message) message
          insert_now (decode_id key) (sign message) (sort_parents message) key value log)
