-- ===== src/Gossip/Log/Sync.antt =====
-- packages/gossiplog/src/AbstractGossipLog.ts: decode, get, and the loop of sync over the entries
-- that a driver finds missing.
use canvas.Base.{
  ℕ, suc, Bool, true, false, ◌&&◌, List, [], ◌∷◌, map, Str, Bytes, bytes_eq, bytes_lt, Result, ok,
  throw, assert, ◌>>=◌, ◌>>◌,
}
use canvas.Gossip.Schema.{get_next_clock, get_key}
use canvas.Gossip.Log.Types.{Message, Txn, Env, Log, stored}
use canvas.Gossip.Log.Insert.{insert_at, insert_now}

-- `parents.every((id, i) => i === 0 || parents[i - 1] < id)`
unfoldable pub ascending : List Str → Bool
unfolding bytes_lt
ascending [] = true
ascending (x ∷ []) = true
ascending (x ∷ y ∷ ys) = bytes_lt x y && ascending (y ∷ ys)

module _ (env : Env) where
  open env use {
    Payload, Signature, topic, index_ancestors, encode_id, decode_id, sha256, decode_value,
    verify_signature,
  }

  -- `decode`
  unfoldable pub decode : Bytes → Result (Str × Signature × Message Payload)
  unfolding get_next_clock get_key ascending
  decode value = do
    (signature, parents, payload) ← decode_value value
    clock ← get_next_clock parents
    assert (ascending (map decode_id parents)) "unsorted parents array"
    ok (
      decode_id (get_key sha256 clock value),
      signature,
      record { topic = topic; clock = clock; parents = map decode_id parents; payload = payload },
    )

  -- The loop over the parents in `sync`; its `continue` goes on with the next parent.
  unfoldable pub check_parents : Txn → List Str → Result (Unit {0})
  unfolding stored
  check_parents txn [] = ok tt
  check_parents txn (parent ∷ parents) = elim (stored txn (encode_id parent)) [
    | true ↦ check_parents txn parents
    | false ↦ elim index_ancestors [
      | true ↦ throw "missing parent"
      | false ↦ check_parents txn parents
    ]
  ]

  -- One entry of the driver.
  unfoldable pub sync_entry : Bytes → Bytes → Log env × ℕ → Result (Log env × ℕ)
  unfolding decode stored check_parents insert_at bytes_eq
  sync_entry key value (log, count) = do
    (id, signature, message) ← decode value
    assert (bytes_eq id (decode_id key)) "expected id === decodeId(key)"
    assert (verify_signature signature) "invalid signature"
    elim (stored log.txn key) [
      | true ↦ ok (log, count)
      | false ↦ do
        check_parents log.txn message.parents
        log' ← insert_now env id signature message key value log
        ok (log', suc count)
    ]

  unfoldable pub sync : List (Bytes × Bytes) → Log env × ℕ → Result (Log env × ℕ)
  unfolding sync_entry
  sync [] log = ok log
  sync ((key, value) ∷ entries) log = do log' ← sync_entry key value log; sync entries log'
