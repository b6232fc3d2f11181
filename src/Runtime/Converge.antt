-- ===== src/Runtime/Converge.antt =====
-- Replicas that apply the same messages in different orders: packages/core/src/runtime/AbstractRuntime.ts
-- without a history, where the row of the largest message id wins.
use mathlib.Core.Path.{fun_ext}
use canvas.Base.{
  leb, false, ◌≡◌, ◌≢◌, refl, ap, sym, ◌∙◌, arith, Option, none, some, List, [], ◌∷◌, Str, Bytes,
  bytes_eq, bytes_lt_trans, bytes_lt_total, bytes_lt_asymm, Result, ok, throw, ◌>>=◌, any,
  >>=-eq-ok, assert-eq-ok, ok_inj,
}
use canvas.Runtime.State.{
  apply_effects, Payload, session, action, other, Delivery, Db, Env, max_safe_integer,
}
use canvas.Gossip.Log.Types.{Txn}
use canvas.Runtime.Consumer.{
  expires, authorises, all_effects, apply_session, apply_action, consume, consume_all,
  get_model_value,
}
use canvas.Runtime.Cells.{
  Cell, write, write_at, DistinctKeys, cell, value_at, AreObjects, AreForeign, all_cell,
}

-- Two orders of the same messages, by swaps of neighbours whose ids differ.
pub data Reorder {Args : Type 0} : List (Delivery Args) → List (Delivery Args) → Type 0 where
  done : Reorder [] []
  keep :
      (d : Delivery Args) {ds es : List (Delivery Args)} → Reorder ds es → Reorder (d ∷ ds) (d ∷ es)
  swap :
      (d e : Delivery Args) (ds : List (Delivery Args))
      → d.id ≢ e.id
      → Reorder (d ∷ e ∷ ds) (e ∷ d ∷ ds)
  chain : {ds es fs : List (Delivery Args)} → Reorder ds es → Reorder es fs → Reorder ds fs

-- Writes of different ids commute.
write_comm_at :
    {Row : Type 0} (a b : Bytes) (v w : Option Row) (o : Option Bytes) (r : Option Row)
    → a ≢ b
    → write a v (write b w (record { version = o; row = r }))
      ≡ write b w (write a v (record { version = o; row = r }))
write_comm_at a b v w none r ne = ground (arith, bytes_lt_total a b, bytes_lt_asymm a b)
write_comm_at a b v w (some o) r ne =
    ground
      (arith, bytes_lt_total a b, bytes_lt_asymm a b, bytes_lt_trans a b o, bytes_lt_trans b a o)

write_comm :
    {Row : Type 0} (a b : Bytes) (v w : Option (Option Row)) (c : Cell Row)
    → a ≢ b
    → write_at a v (write_at b w c) ≡ write_at b w (write_at a v c)
write_comm a b none w c ne = refl
write_comm a b (some v) none c ne = refl
write_comm a b (some v) (some w) c ne = write_comm_at a b v w c.version c.row ne

-- Every read of an action throws.
abbrev blocked : (env : Env) → Option (Option env.Row) → Str → Str → Result (Option env.Row)
blocked env pending model key = throw "cannot call .get if indexHistory is disabled"

-- What the code relies on where there is no history.
pub record NoHistory (env : Env) : Type 0 where
  pub latest : env.index_history ≡ false
  pub keys : DistinctKeys env
  pub ids : (a b : Str) → env.encode_id a ≡ env.encode_id b → a ≡ b
  pub objects :
      (d : Delivery env.Args) (models : List (Str × List (Str × Option env.Row)))
      → env.execute (blocked env) d ≡ ok models
      → AreForeign env.index_history models × AreObjects models

module _ (env : Env) (nh : NoHistory env) (m k : Str) where
  get_model_value-blocked :
      (txn : Txn) (db : Db env.Row) (d : Delivery env.Args)
      → get_model_value env txn db d ≡ blocked env
  unfolding get_model_value
  get_model_value-blocked txn db d =
      fun_ext λ p. fun_ext λ model. fun_ext λ key. rw (nh.latest) refl

  unfoldable written : Result (List (Str × List (Str × Option env.Row))) → Option (Option env.Row)
  written (ok models) = value_at env m k models
  written (throw e) = none

  -- What a message writes at the key, whatever the tables hold.
  abbrev effect_of : Delivery env.Args → Payload env.Args → Option (Option env.Row)
  effect_of d (session s) = none
  effect_of d (action a) = written (env.execute (blocked env) d)
  effect_of d other = none

  apply_action_cell :
      (db : Db env.Row) (d : Delivery env.Args)
      (g : Result (List (Str × List (Str × Option env.Row)))) {db' : Db env.Row}
      → env.execute (blocked env) d ≡ g
      → (g >>= λ entries. ok (apply_effects (all_effects env db d.id entries) db)) ≡ ok db'
      → cell env m k db' ≡ write_at (env.encode_id d.id) (written g) (cell env m k db)
  unfolding written
  apply_action_cell db d (ok models) e h =
      ap (cell env m k) (sym (ok_inj h))
      ∙ all_cell env nh.keys nh.latest m k db d.id models db (nh.objects d models e).0
          (nh.objects d models e).1 refl
  apply_action_cell db d (throw e') e h = cc

  consume-cell :
      (txn : Txn) (db : Db env.Row) (d : Delivery env.Args) (p : Payload env.Args)
      {db' : Db env.Row}
      → consume env txn db d p ≡ ok db'
      → cell env m k db' ≡ write_at (env.encode_id d.id) (effect_of d p) (cell env m k db)
  unfolding consume apply_session apply_action
  consume-cell txn db d (session s) h = ap (cell env m k) (
      sym (
        ok_inj (
          assert-eq-ok (leb (expires env s.timestamp s.duration) max_safe_integer) _ _ (
            assert-eq-ok (env.verify_session env.topic s) _ _ (
              assert-eq-ok (bytes_eq s.public_key d.signature_key) _ _
                (assert-eq-ok (env.matches s.address) _ _ h))))))
  consume-cell txn db d (action a) h = apply_action_cell db d (env.execute (blocked env) d) refl (
      rw (get_model_value-blocked txn db d) at (
        assert-eq-ok (any (authorises env d.signature_key a.address a.timestamp) db.sessions) _ _
          h))
  consume-cell txn db d other h = cc

  -- Messages one after another, for one key.
  unfoldable settled : List (Delivery env.Args) → Cell env.Row → Cell env.Row
  settled [] c = c
  settled (d ∷ ds) c = settled ds (write_at (env.encode_id d.id) (effect_of d d.payload) c)

  consume_all-cell :
      (txn : Txn) (ds : List (Delivery env.Args)) (db : Db env.Row) {db' : Db env.Row}
      → consume_all env txn ds db ≡ ok db'
      → cell env m k db' ≡ settled ds (cell env m k db)
  unfolding consume_all settled
  consume_all-cell txn [] db h = ap (cell env m k) (sym (ok_inj h))
  consume_all-cell txn (d ∷ ds) db h =
      let (db1, h1, h2) = >>=-eq-ok (consume env txn db d d.payload) _ h in
      consume_all-cell txn ds db1 h2 ∙ ap (settled ds) (consume-cell txn db d d.payload h1)

  settled-Reorder :
      {ds es : List (Delivery env.Args)}
      → Reorder ds es
      → (c : Cell env.Row) → settled ds c ≡ settled es c
  unfolding settled
  settled-Reorder done c = refl
  settled-Reorder (keep d r) c = settled-Reorder r _
  settled-Reorder (swap d e ds ne) c = ap (settled ds) (
      write_comm (env.encode_id e.id) (env.encode_id d.id) (effect_of e e.payload)
        (effect_of d d.payload) c λ q. ne (sym (nh.ids e.id d.id q)))
  settled-Reorder (chain r q) c = settled-Reorder r c ∙ settled-Reorder q c

  -- Without a history, two replicas that start from the same tables and apply the same messages,
  -- in two orders that differ by swaps of messages of different ids, end with the same version and
  -- the same row under every key of every model, if both replicas accept every message. The keys of
  -- the table of versions and the encoded ids differ where the keys and the ids do, and what
  -- actions return are objects.
  pub consume_all-Reorder :
      {ds es : List (Delivery env.Args)}
      → Reorder ds es
      → (txn txn' : Txn) (db : Db env.Row) {r s : Db env.Row} → consume_all env txn ds db ≡ ok r
      → consume_all env txn' es db ≡ ok s
      → cell env m k r ≡ cell env m k s
  consume_all-Reorder {ds = ds} {es = es} p txn txn' db h1 h2 =
      consume_all-cell txn ds db h1
      ∙ settled-Reorder p (cell env m k db)
      ∙ sym (consume_all-cell txn' es db h2)
