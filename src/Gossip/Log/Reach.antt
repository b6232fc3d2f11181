-- ===== src/Gossip/Log/Reach.antt =====
-- The logs that a node gets to: AbstractGossipLog.ts. An operation that throws is a step where it is
-- the insertion of a message that none waits for, and its transaction takes the tables back. Where
-- a message waits for it, the mempool may have lost what the tables have not kept.
use Prim.Native.String.{String}
use mathlib.Core.Path.{subst}
use canvas.Base.{
  ℕ, true, ◌≡◌, sym, ap, ◌∙◌, Str, none, List, [], ◌∷◌, Bytes, ok, OnOk, OnOk-bind, OnOk-map,
  OnOk-at,
}
use canvas.Base.Maps.{lookup, has}
use canvas.Gossip.Mempool.{empty}
use canvas.Gossip.Log.Types.{Message, Env, Log}
use canvas.Gossip.Log.Insert.{insert_message, append}
use canvas.Gossip.Log.Thrown.{failed, log_of, insert_left, insert_left-same}
use canvas.Gossip.Log.Sync.{sync_entry, sync}
use canvas.Gossip.Log.Closed.{IsClosed, HasHeads, Codec, IsWellFormed, Grows, Keeps}
use canvas.Gossip.Log.Operations.{insert_message-Keeps, append-Keeps, sync_entry-Keeps}

module _ (env : Env) where
  open env use {Payload, Signature, State}

  abbrev pub empty_log : State → Log env
  empty_log s = record {
    txn = record { messages = []; heads = []; ancestors = [] };
    mempool = empty;
    state = s;
  }

  -- The operations that write to a log and return; and an insertion that throws, of a message that
  -- no message waits for, whose transaction takes the tables back but not the mempool
  -- or what the consumer has done.
  pub data Step (before : Log env) : Log env → Type 0 where
    appended :
        (sign : Message Payload → Signature) (payload : Payload) {after : Log env}
        → append env sign payload before ≡ ok after
        → Step before after
    inserted :
        (signature : Signature) (message : Message Payload) {after : Log env}
        → insert_message env signature message before ≡ ok after
        → Step before after
    synced :
        (entries : List (Bytes × Bytes)) {after : Log env} {count : ℕ}
        → sync env entries (before, 0) ≡ ok (after, count)
        → Step before after
    thrown :
        (fuel : ℕ) (id : Str) (signature : Signature) (message : Message Payload)
        (key value : Bytes) {error : String} {left : Log env}
        → insert_left env fuel id signature message key value before ≡ failed error left
        → lookup id before.mempool.waiting_children ≡ none
        → Step before (record before { mempool = left.mempool; state = left.state })

  pub data Reach (start : Log env) : Log env → Type 0 where
    here : Reach start start
    after : {log next : Log env} → Reach start log → Step log next → Reach start next

  module _ (codec : Codec env) (indexed : env.index_ancestors ≡ true) where
    sync-Keeps :
        (entries : List (Bytes × Bytes)) (log : Log env) (count : ℕ)
        → IsWellFormed env log.txn log.mempool
        → OnOk (λ r. Keeps env log r.0) (sync env entries (log, count))
    unfolding sync
    sync-Keeps [] log count w = (w, λ k h. h)
    sync-Keeps ((key, value) ∷ entries) log count w =
        OnOk-bind (λ r. Keeps env log r.0) (λ r. Keeps env log r.0)
          (sync_entry env key value (log, count)) _
          (sync_entry-Keeps env codec indexed key value log count w)
          (λ (log2, count2) _ (w2, g).
            OnOk-map (λ r. Keeps env log2 r.0) (λ r. Keeps env log r.0)
              (sync env entries (log2, count2)) (sync-Keeps entries log2 count2 w2)
              (λ r (w3, g3). (w3, λ k h. g3 k (g k h))))

    Step-Keeps :
        {before next : Log env}
        → Step before next
        → IsWellFormed env before.txn before.mempool
        → Keeps env before next
    Step-Keeps {before} (appended sign payload e) w =
        OnOk-at (Keeps env before) (append env sign payload before)
          (append-Keeps env codec indexed sign payload before w) e
    Step-Keeps {before} (inserted signature message e) w =
        OnOk-at (Keeps env before) (insert_message env signature message before)
          (insert_message-Keeps env codec indexed signature message before w) e
    Step-Keeps {before} (synced entries e) w =
        OnOk-at (λ r. Keeps env before r.0) (sync env entries (before, 0))
          (sync-Keeps entries before 0 w) e
    Step-Keeps {before} (thrown fuel id signature message key value {error} {left} e none_waits) w =
        subst
          (λ mempool. Keeps env before (record before { mempool = mempool; state = left.state }))
          (sym (
            ap (λ l. (log_of env l).mempool) (sym e)
            ∙ insert_left-same env fuel id signature message key value before none_waits))
          (w, λ k h. h)

    empty-IsWellFormed : (s : State) → IsWellFormed env (empty_log s).txn (empty_log s).mempool
    unfolding lookup has
    empty-IsWellFormed s = record {
      closed = λ k v e p h. absurd (cc);
      heads = λ k h. absurd (cc);
      waits = λ c v e p h g. absurd (cc);
      named = λ c v e kv f. absurd (cc);
    }

    Reach-IsWellFormed :
        (s : State) {log : Log env} → Reach (empty_log s) log → IsWellFormed env log.txn log.mempool
    Reach-IsWellFormed s here = empty-IsWellFormed s
    Reach-IsWellFormed s (after r step) = (Step-Keeps step (Reach-IsWellFormed s r)).0

    -- A log that indexes ancestors, reached from the empty log by appends, inserts and syncs that
    -- return, in any order and with any messages, and by insertions that throw while no message waits
    -- for the one that is inserted, in a transaction that then takes the tables back, stores every parent of every message that it stores, and
    -- every head; a step from there forgets no message. The ids and the values that are encoded
    -- must decode to what they were.
    pub Reach-IsClosed :
        (s : State) {log next : Log env}
        → Reach (empty_log s) log
        → Step log next
        → IsClosed env log.txn × HasHeads env log.txn × Grows env log.txn next.txn
    Reach-IsClosed s r step =
        let w = Reach-IsWellFormed s r in (w.closed, w.heads, (Step-Keeps step w).1)
