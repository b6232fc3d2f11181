-- ===== src/Gossip/Log/Missing.antt =====
-- Entries of a sync whose parents are missing: packages/gossiplog/src/AbstractGossipLog.ts.
use canvas.Base.{
  ℕ, suc, true, false, ◌≡◌, refl, arith, List, [], ◌∷◌, Str, Bytes, bytes_eq_self, bytes_eq_iff, ok,
  throw, ◌>>=◌, inl, inr, Bool-cases,
}
use canvas.Base.Maps.{has}
use canvas.Gossip.Log.Types.{Message, Txn, Env, Log, stored}
use canvas.Gossip.Log.Insert.{insert_now}
use canvas.Gossip.Log.Sync.{decode, check_parents, sync_entry}

module _ (env : Env) where
  open env use {Payload, Signature, encode_id, decode_id, index_ancestors, verify_signature}

  check_parents-skips :
      (txn : Txn) (ps : List Str) → index_ancestors ≡ false → check_parents env txn ps ≡ ok tt
  unfolding check_parents
  check_parents-skips txn [] e = refl
  check_parents-skips txn (p ∷ ps) e = elim (Bool-cases (stored txn (encode_id p))) [
    | inl s ↦ rw (s, check_parents) (check_parents-skips txn ps e)
    | inr s ↦ rw (s, check_parents) (rw e (check_parents-skips txn ps e))
  ]

  check_parents-throws :
      (txn : Txn) (ps : List Str) (p : Str)
      → index_ancestors ≡ true
      → has p ps ≡ true
      → stored txn (encode_id p) ≡ false
      → check_parents env txn ps ≡ throw "missing parent"
  unfolding check_parents has
  check_parents-throws txn [] p e h n = absurd (cc)
  check_parents-throws txn (q ∷ ps) p e h n = elim (Bool-cases (stored txn (encode_id q))) [
    | inr s ↦ rw (s, check_parents) (rw e refl)
    | inl s ↦
        rw (s, check_parents) (check_parents-throws txn ps p e (ground (arith, bytes_eq_iff q p)) n)
  ]

  -- An entry of a sync that decodes, is signed and is not stored yet, and has a parent that is not
  -- stored. A log that indexes ancestors throws; one that does not inserts the entry at once, where
  -- a comment says that it is skipped until the next sync.
  pub sync_entry-missing :
      (key value : Bytes) (log : Log env) (count : ℕ) (signature : Signature)
      (message : Message Payload) (parent : Str)
      → decode env value ≡ ok (decode_id key, signature, message)
      → verify_signature signature ≡ true
      → stored log.txn key ≡ false
      → has parent message.parents ≡ true
      → stored log.txn (encode_id parent) ≡ false
      → (index_ancestors ≡ true → sync_entry env key value (log, count) ≡ throw "missing parent")
        × (index_ancestors ≡ false
            → sync_entry env key value (log, count) ≡ (
                insert_now env (decode_id key) signature message key value log >>= λ log'.
                ok (log', suc count)))
  unfolding sync_entry
  sync_entry-missing key value log count signature message parent d v s h n = (
    (λ e.
        rw (d, bytes_eq_self (decode_id key), v, s)
          (rw (check_parents-throws log.txn message.parents parent e h n) refl)),
    (λ e.
        rw (d, bytes_eq_self (decode_id key), v, s)
          (rw (check_parents-skips log.txn message.parents e) refl)),
  )
