-- ===== src/Gossip/Log/Thrown.antt =====
-- What #insert leaves of a log where it throws: packages/gossiplog/src/AbstractGossipLog.ts.
use Prim.Native.String.{String}
use canvas.Base.{
  ℕ, zero, suc, ◌≡◌, refl, true, Option, none, some, List, [], ◌∷◌, map, Str, Bytes, Result, ok,
  throw,
}
use canvas.Base.Maps.{lookup, remove}
use canvas.Gossip.Mempool.{Mempool, release}
use canvas.Gossip.Log.Types.{Message, Env, Log, is_some}
use canvas.Gossip.Log.Insert.{store, encode, index_message, sort_parents}

module _ (env : Env) where
  open env use {Payload, Signature, encode_id, apply}

  -- The log that an operation leaves, before its transaction takes anything back.
  pub data Left : Type 0 where
    finished : Log env → Left
    failed : String → Log env → Left

  abbrev pub log_of : Left → Log env
  log_of (finished log) = log
  log_of (failed message log) = log

  -- The result alone.
  abbrev pub as_result : Left → Result (Log env)
  as_result (finished log) = ok log
  as_result (failed message log) = throw message

  -- A call that does not change the log, and what follows.
  abbrev at {ℓ} : {A : Type ℓ} → Log env → Result A → (A → Left) → Left
  at log (ok a) next = next a
  at log (throw message) next = failed message log

  -- A call that changes the log, and what follows.
  abbrev and_then : Left → (Log env → Left) → Left
  and_then (finished log) next = next log
  and_then (failed message log) next = failed message log

  abbrev pub released_left :
      (Str → Signature → Message Payload → Log env → Left)
      → Option (Str × (Signature × Message Payload))
      → Log env
      → Left
  released_left again none log = finished log
  released_left again (some (child, (signature, message))) log = again child signature message log

  -- The loop over `mempool.observe(id)`.
  unfoldable pub release_left :
      (Str → Signature → Message Payload → Log env → Left) → Str → List Str → Log env → Left
  unfolding release
  release_left again id [] log = finished log
  release_left again id (child ∷ children) log =
      at log (release id child log.mempool) λ (entry, mempool).
        and_then (released_left again entry (record log { mempool = mempool }))
          λ log'. release_left again id children log'

  abbrev pub observed_left :
      (Str → Signature → Message Payload → Log env → Left)
      → Str
      → Option (List Str)
      → Log env
      → Left
  observed_left again id none log = finished log
  observed_left again id (some children) log = release_left again id children (record log {
    mempool = record log.mempool { waiting_children = remove id log.mempool.waiting_children };
  })

  -- `#insert`: what its consumer throws leaves the log as it is, and what the index of ancestors
  -- throws leaves the message stored.
  unfoldable pub insert_left :
      ℕ → Str → Signature → Message Payload → Bytes → Bytes → Log env → Left
  unfolding store index_message release_left encode
  insert_left zero id signature message key value log = failed "out of fuel" log
  insert_left (suc fuel) id signature message key value log =
      at log (apply log.txn log.state id signature message) λ state.
        at
          (record log {
            txn = store key value (map encode_id message.parents) log.txn;
            state = state;
          })
          (index_message env key message.clock (map encode_id message.parents)
            (store key value (map encode_id message.parents) log.txn))
          λ txn.
            observed_left
              (λ child signature message log. at log (encode env signature message) λ (key, value).
                insert_left fuel child signature (sort_parents message) key value log)
              id (lookup id log.mempool.waiting_children) (record log { txn = txn; state = state })

  -- The results of the calls are those of the functions that give no log with an error.
  abbrev Agree :
      (Str → Signature → Message Payload → Log env → Left)
      → (Str → Signature → Message Payload → Log env → Result (Log env))
      → Type 0
  Agree again again' =
      (id : Str) (signature : Signature) (message : Message Payload) (log : Log env)
      → as_result (again id signature message log) ≡ again' id signature message log

  -- A message waits in the mempool.
  abbrev pub IsWaiting : Log env → Str → Type 0
  IsWaiting log id = is_some (lookup id log.mempool.values) ≡ true

  -- Every message that waits in the one log waits in the other.
  abbrev Fewer : Log env → Log env → Type 0
  Fewer start log = (id : Str) → IsWaiting log id → IsWaiting start id

  abbrev FewerPool :
      Log env
      → Option (Str × (Signature × Message Payload)) × Mempool (Signature × Message Payload)
      → Type 0
  FewerPool start (entry, pool) =
      (id : Str) → is_some (lookup id pool.values) ≡ true → IsWaiting start id

  log_of-at :
      {A : Type 0} (P : Log env → Type 0) (log : Log env) (r : Result A) (next : A → Left)
      → P log
      → ((a : A) → r ≡ ok a → P (log_of (next a)))
      → P (log_of (at log r next))
  log_of-at P log (ok a) next p h = h a refl
  log_of-at P log (throw message) next p h = p

  -- Where nothing waits for the message, the mempool is what it was.
  pub insert_left-same :
      (fuel : ℕ) (id : Str) (signature : Signature) (message : Message Payload) (key value : Bytes)
      (log : Log env)
      → lookup id log.mempool.waiting_children ≡ none
      → (log_of (insert_left fuel id signature message key value log)).mempool ≡ log.mempool
  unfolding insert_left
  insert_left-same zero id signature message key value log h = refl
  insert_left-same (suc fuel) id signature message key value log h =
      log_of-at (λ left. left.mempool ≡ log.mempool) log
        (apply log.txn log.state id signature message) _ refl
        (λ state e.
          log_of-at (λ left. left.mempool ≡ log.mempool) _ (index_message env key message.clock _ _)
            _ refl (λ txn e'. rw h refl))
