-- ===== src/Runtime/Consumer.antt =====
-- packages/core/src/runtime/AbstractRuntime.ts: messages of the log applied to the database.
use canvas.Base.{
  ℕ, zero, suc, ◌+◌, Bool, true, false, not, ◌&&◌, Option, none, some, List, [], ◌∷◌, ◌++◌, Str,
  Bytes, bytes_eq, bytes_lt, Result, ok, throw, assert, ◌>>=◌, ◌>>◌, if◌then◌else◌, leb, ◌==◌,
  length, any,
}
use canvas.Gossip.Clock.{decode_clock}
use canvas.Gossip.Log.Types.{Txn}
use canvas.Gossip.Log.Ancestors
use canvas.Base.Maps.{put, lookup}
use canvas.Runtime.State.{
  SessionPayload, ActionPayload, Payload, session, action, other, Delivery, SessionRow, Db, Effect,
  set_effect, set_version, set_row, delete_row, own_row, is_own, Env, max_safe_integer,
  max_message_id, min_message_id, last_effect, apply_effects,
}

-- `effectKey.split("/")[2]`
abbrev after_slash : Str → Str
after_slash [] = []
after_slash (c ∷ s) = elim (c == 47) [ true ↦ s | false ↦ after_slash s ]

abbrev until_slash : Str → Str
until_slash [] = []
until_slash (c ∷ s) = elim (c == 47) [ true ↦ [] | false ↦ c ∷ until_slash s ]

abbrev pub third_segment : Str → Str
third_segment s = until_slash (after_slash (after_slash s))

abbrev pub slash : Str → Str → Str
slash a b = a ++ (47 ∷ b)

module _ (env : Env) where
  open env use {
    Args, Row, topic, index_history, matches, verify_session, raw_message, raw_signature, execute,
    key_hash, write_own, encode_row, decode_row, encode_id, decode_id,
  }

  abbrev pub version_key : Str → Str → Str
  version_key model key = slash model (key_hash key)

  -- The loop over the parents in `getModelValue`, with its set of visited ids.
  unfoldable pub any_ancestor : Txn → List Str → Str → List Str → Result Bool
  unfolding Ancestors.is_ancestor decode_clock
  any_ancestor txn [] id visited = ok false
  any_ancestor txn (parent ∷ parents) id visited = do
    (found, visited') ←
        Ancestors.is_ancestor encode_id decode_id
          (Ancestors.fuel_of encode_id decode_id (encode_id parent)) txn parent id visited
    (let rest = any_ancestor txn parents id visited' in if found then ok true else rest)

  -- The `while (true)` of `getModelValue`: down from the upper bound, until a write of an ancestor.
  unfoldable pub find_value :
      ℕ
      → Txn
      → (lower upper : Str) → List (Str × Option Bytes)
      → (parents : List Str) → Result (Option Row)
  unfolding last_effect any_ancestor
  find_value zero txn lower upper effects parents = throw "out of fuel"
  find_value (suc fuel) txn lower upper effects parents =
      elim (last_effect lower upper effects none) [
        | none ↦ ok none
        | some (key, value) ↦ do
          found ← any_ancestor txn parents (third_segment key) []
          (let earlier = find_value fuel txn lower key effects parents in
              if found then decode_row value else earlier)
      ]

  abbrev pub read_value : Bool → Option (Option Row) → Result (Option Row) → Result (Option Row)
  read_value false pending found = throw "cannot call .get if indexHistory is disabled"
  read_value true none found = found
  read_value true (some entry) found = ok entry

  -- `getModelValue`; `pending` is what the action itself has written at the key, if it has.
  unfoldable pub get_model_value :
      Txn → Db Row → Delivery Args → Option (Option Row) → Str → Str → Result (Option Row)
  unfolding find_value
  get_model_value txn db d pending model key = read_value index_history pending (
      find_value (suc (length db.effects)) txn (slash (version_key model key) min_message_id)
        (slash (version_key model key) max_message_id) db.effects d.parents)

  abbrev pub write_row : Str → Str → Option Row → Effect Row
  write_row model key none = delete_row model key
  write_row model key (some row) = set_row model key row

  abbrev pub row_effect : Str → Str → Option Row → Effect Row
  row_effect model key value =
      if is_own index_history model
      then own_row (write_own model key value)
      else write_row model key value

  -- `value && cbor.encode(value)`
  abbrev pub encoded : Option Row → Option Bytes
  encoded none = none
  encoded (some row) = some (encode_row row)

  -- Some effect of the key is later: `where: { key: { gt: effectKey, lte: …MAX_MESSAGE_ID } }`.
  unfoldable pub is_superseded : Db Row → Str → Str → Str → Bool
  unfolding bytes_lt
  is_superseded db id model key =
      any
        (λ e.
          bytes_lt (slash (version_key model key) id) e.0
          && not (bytes_lt (slash (version_key model key) max_message_id) e.0))
        db.effects

  abbrev pub is_older : Bytes → Option Bytes → Bool
  is_older current none = false
  is_older current (some existing) = bytes_lt current existing

  -- The effects of one entry, with and without a history.
  unfoldable pub entry_effects : Db Row → Str → Str → Str → Option Row → List (Effect Row)
  unfolding is_superseded bytes_lt lookup
  entry_effects db id model key value =
      if index_history
      then (set_effect (slash (version_key model key) id) (encoded value)
          ∷ (if is_superseded db id model key then [] else row_effect model key value ∷ []))
      else if is_older (encode_id id) (lookup (version_key model key) db.versions)
      then []
      else (set_version (version_key model key) (encode_id id) ∷ row_effect model key value ∷ [])

  unfoldable pub model_effects : Db Row → Str → Str → List (Str × Option Row) → List (Effect Row)
  unfolding entry_effects
  model_effects db id model [] = []
  model_effects db id model ((key, value) ∷ entries) =
      entry_effects db id model key value ++ model_effects db id model entries

  unfoldable pub all_effects :
      Db Row → Str → List (Str × List (Str × Option Row)) → List (Effect Row)
  unfolding model_effects
  all_effects db id [] = []
  all_effects db id ((model, entries) ∷ models) =
      model_effects db id model entries ++ all_effects db id models

  abbrev pub expires : ℕ → Option ℕ → ℕ
  expires timestamp none = max_safe_integer
  expires timestamp (some duration) = timestamp + duration

  -- A row of `$sessions` that lets a key act for an address at a time.
  abbrev pub authorises : Str → Str → ℕ → (Str × SessionRow) → Bool
  authorises public_key address timestamp (k, row) =
      bytes_eq row.public_key public_key
      && bytes_eq row.address address
      && leb timestamp row.expiration

  unfoldable pub apply_session : Db Row → Delivery Args → SessionPayload → Result (Db Row)
  unfolding put
  apply_session db d s = do
    assert (matches s.address) "no signer found"
    assert (bytes_eq s.public_key d.signature_key) "assertion failed"
    assert (verify_session topic s) "invalid session"
    assert (leb (expires s.timestamp s.duration) max_safe_integer) "must be an integer"
    ok (record db {
      sessions =
          put d.id
            (record {
              message_id = d.id;
              public_key = s.public_key;
              address = s.address;
              expiration = expires s.timestamp s.duration;
              raw_message = raw_message d;
              raw_signature = raw_signature d;
            })
            db.sessions;
    })

  unfoldable pub apply_action : Txn → Db Row → Delivery Args → ActionPayload Args → Result (Db Row)
  unfolding all_effects apply_effects get_model_value
  apply_action txn db d a = do
    assert (any (authorises d.signature_key a.address a.timestamp) db.sessions) "missing session"
    entries ← execute (get_model_value txn db d) d
    ok (apply_effects (all_effects db d.id entries) db)

  -- `getConsumer`
  unfoldable pub consume : Txn → Db Row → Delivery Args → Payload Args → Result (Db Row)
  unfolding apply_session apply_action
  consume txn db d (session s) = apply_session db d s
  consume txn db d (action a) = apply_action txn db d a
  consume txn db d other = throw "invalid message payload type"

  -- The deliveries of a log, in their order.
  unfoldable pub consume_all : Txn → List (Delivery Args) → Db Row → Result (Db Row)
  unfolding consume
  consume_all txn [] db = ok db
  consume_all txn (d ∷ ds) db = do db' ← consume txn db d d.payload; consume_all txn ds db'
