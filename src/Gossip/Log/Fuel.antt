-- ===== src/Gossip/Log/Fuel.antt =====
-- Nested insertions end: packages/gossiplog/src/AbstractGossipLog.ts.
use canvas.Base.{
  same_bind, ℕ, zero, suc, ◌+◌, ◌≤◌, ◌<◌, ◌≡◌, refl, ap, ◌∙◌, arith, Option, none, some, List, [],
  ◌∷◌, map, Str, Bytes, bytes_eq, length, Result, ◌>>=◌, OnOk, OnOk-bind, OnOk-any, OnOk-map,
  OnOk-at, inl, inr, Bool-cases, Option-cases,
}
use canvas.Base.Maps.{lookup, delete, remove}
use canvas.Gossip.Mempool.{Mempool, release, settle}
use canvas.Gossip.Log.Types.{Message, Env, Log}
use canvas.Gossip.Log.Insert.{
  sort_parents, encode, index_message, insert_released, release_children, observed, insert_at,
  insert_now,
}

module _ {V : Type 0} where
  remove_shorter : (k : Str) (m : List (Str × V)) → length (remove k m) ≤ length m
  unfolding remove
  remove_shorter k [] = omega arith
  remove_shorter k ((j, v) ∷ m) = elim (Bool-cases (bytes_eq j k)) [
    | inl e ↦ rw e (omega (arith, remove_shorter k m))
    | inr e ↦ rw e (omega (arith, remove_shorter k m))
  ]

  remove_less :
      (k : Str) (m : List (Str × V)) {v : V} → lookup k m ≡ some v → length (remove k m) < length m
  unfolding remove lookup
  remove_less k [] h = absurd (cc)
  remove_less k ((j, v) ∷ m) h = elim (Bool-cases (bytes_eq j k)) [
    | inl e ↦ rw e (omega (arith, remove_shorter k m))
    | inr e ↦ rw e (omega (arith, remove_less k m (rw e at h)))
  ]

  -- A released message leaves the mempool.
  Fewer : ℕ → Option (Str × V) × Mempool V → Type 0
  Fewer n (none, pool) = length pool.values ≤ n
  Fewer n (some e, pool) = length pool.values < n

  length-Fewer :
      (n : ℕ) (e : Option (Str × V)) (pool : Mempool V) → Fewer n (e, pool) → length pool.values ≤ n
  unfolding Fewer
  length-Fewer n none pool h = h
  length-Fewer n (some e) pool h = omega arith

  release-Fewer :
      (id child : Str) (pool : Mempool V)
      → OnOk (Fewer (length pool.values)) (release id child pool)
  unfolding release settle Fewer
  release-Fewer id child pool = elim (Option-cases (lookup child pool.missing_parents)) [
    | inl e ↦ rw (e, OnOk) tt
    | inr (missing, e) ↦ rw (e, OnOk) (settle_fewer (delete id missing))
  ]
    where
      settle_fewer : (left : List Str) → OnOk (Fewer (length pool.values)) (settle child left pool)
      settle_fewer (l ∷ left) = omega arith
      settle_fewer [] = elim (Option-cases (lookup child pool.values)) [
        | inl g ↦ rw (g, OnOk) tt
        | inr (v, g) ↦ rw (g, OnOk) (remove_less child pool.values g)
      ]

suc_add : (f k : ℕ) → suc f + k ≡ suc (f + k)
suc_add f k = omega arith

module _ (env : Env) where
  open env use {Payload, Signature, encode_id}

  abbrev waiting : Log env → ℕ
  waiting log = length log.mempool.values

  abbrev Insertion : Type 0
  Insertion = Str → Signature → Message Payload → Log env → Result (Log env)

  Shrinks : Log env → Log env → Type 0
  Shrinks before after = waiting after ≤ waiting before

  module _ (again : Insertion)
      (shrinks : (c : Str) (s : Signature) (v : Message Payload) (log : Log env)
        → OnOk (Shrinks log) (again c s v log)) where
    insert_released-Shrinks :
        (entry : Option (Str × (Signature × Message Payload))) (log : Log env)
        → OnOk (Shrinks log) (insert_released env again entry log)
    unfolding Shrinks
    insert_released-Shrinks none log = omega arith
    insert_released-Shrinks (some (c, v)) log = shrinks c v.0 v.1 log

    release_children-Shrinks :
        (id : Str) (cs : List Str) (log : Log env)
        → OnOk (Shrinks log) (release_children env again id cs log)
    unfolding release_children Shrinks Fewer
    release_children-Shrinks id [] log = omega arith
    release_children-Shrinks id (c ∷ cs) log =
        OnOk-bind (Fewer (waiting log)) (Shrinks log) (release id c log.mempool) _
          (release-Fewer id c log.mempool)
          (λ (entry, pool) _ less.
            OnOk-bind (Shrinks (record log { mempool = pool })) (Shrinks log)
              (insert_released env again entry (record log { mempool = pool })) _
              (insert_released-Shrinks entry (record log { mempool = pool }))
              (λ log2 _ s.
                OnOk-map (Shrinks log2) (Shrinks log) _ (release_children-Shrinks id cs log2)
                  (λ log3 t. omega (arith, length-Fewer (waiting log) entry pool less))))

    observed-Shrinks :
        (id : Str) (o : Option (List Str)) (log : Log env)
        → OnOk (Shrinks log) (observed env again id o log)
    unfolding Shrinks
    observed-Shrinks id none log = omega arith
    observed-Shrinks id (some cs) log = release_children-Shrinks id cs _

  insert_at-Shrinks :
      (fuel : ℕ) (id : Str) (signature : Signature) (message : Message Payload) (key value : Bytes)
      (log : Log env)
      → OnOk (Shrinks log) (insert_at env fuel id signature message key value log)
  unfolding insert_at Shrinks
  insert_at-Shrinks zero id signature message key value log = tt
  insert_at-Shrinks (suc fuel) id signature message key value log =
      OnOk-bind (λ s. Unit {0}) (Shrinks log) (env.apply log.txn log.state id signature message) _
        (OnOk-any _)
        (λ state _ _.
          OnOk-bind (λ t. Unit {0}) (Shrinks log)
            (index_message env key message.clock (map encode_id message.parents) _) _ (OnOk-any _)
            (λ txn _ _.
              observed-Shrinks _
                (λ c s v log2.
                  OnOk-bind (λ kv. Unit {0}) (Shrinks log2) (encode env s v) _ (OnOk-any _)
                    (λ kv _ _. insert_at-Shrinks fuel c s (sort_parents v) kv.0 kv.1 log2))
                id (lookup id log.mempool.waiting_children)
                (record log { txn = txn; state = state })))

  module _ (again more : Insertion) (n : ℕ)
      (shrinks : (c : Str) (s : Signature) (v : Message Payload) (log : Log env)
        → OnOk (Shrinks log) (again c s v log))
      (agree : (c : Str) (s : Signature) (v : Message Payload) (log : Log env)
        → waiting log < n
        → more c s v log ≡ again c s v log) where
    insert_released_agree :
        (entry : Option (Str × (Signature × Message Payload))) (log : Log env) (m : ℕ)
        → m ≤ n
        → Fewer m (entry, log.mempool)
        → insert_released env more entry log ≡ insert_released env again entry log
    unfolding Fewer
    insert_released_agree none log m h f = refl
    insert_released_agree (some (c, v)) log m h f = agree c v.0 v.1 log (omega arith)

    le_after :
        (entry : Option (Str × (Signature × Message Payload)))
        (pool : Mempool (Signature × Message Payload)) (log log2 : Log env)
        → Fewer (waiting log) (entry, pool)
        → Shrinks (record log { mempool = pool }) log2
        → waiting log ≤ n
        → waiting log2 ≤ n
    unfolding Shrinks
    le_after entry pool log log2 f s h = omega (arith, length-Fewer (waiting log) entry pool f)

    release_children_agree :
        (id : Str) (cs : List Str) (log : Log env)
        → waiting log ≤ n
        → release_children env more id cs log ≡ release_children env again id cs log
    unfolding release_children
    release_children_agree id [] log h = refl
    release_children_agree id (c ∷ cs) log h =
        same_bind (release id c log.mempool) _ _ (λ (entry, pool) e.
          let f =
            OnOk-at (Fewer (waiting log)) (release id c log.mempool)
              (release-Fewer id c log.mempool) e in
          let log1 : Log env = record log { mempool = pool } in
          ap (λ m. m >>= release_children env more id cs)
            (insert_released_agree entry log1 (waiting log) h f)
          ∙ same_bind (insert_released env again entry log1) _ _ (λ log2 e2.
            release_children_agree id cs log2 (
              le_after entry pool log log2 f
                (OnOk-at (Shrinks log1) _ (insert_released-Shrinks again shrinks entry log1) e2)
                h)))

    observed_agree :
        (id : Str) (o : Option (List Str)) (log : Log env)
        → waiting log ≤ n
        → observed env more id o log ≡ observed env again id o log
    observed_agree id none log h = refl
    observed_agree id (some cs) log h = release_children_agree id cs _ h

  insert_at_fuel_above :
      (f k : ℕ) (id : Str) (signature : Signature) (message : Message Payload) (key value : Bytes)
      (log : Log env)
      → waiting log < f
      → insert_at env (f + k) id signature message key value log
        ≡ insert_at env f id signature message key value log
  unfolding insert_at
  insert_at_fuel_above zero k id signature message key value log h = absurd (omega arith)
  insert_at_fuel_above (suc f) k id signature message key value log h =
      ap (λ n. insert_at env n id signature message key value log) (suc_add f k)
      ∙ same_bind (env.apply log.txn log.state id signature message) _ _ (λ state _.
        same_bind (index_message env key message.clock (map encode_id message.parents) _) _ _
          (λ txn _.
            observed_agree _ _ f
              (λ c s v log2.
                OnOk-bind (λ kv. Unit {0}) (Shrinks log2) (encode env s v) _ (OnOk-any _)
                  (λ kv _ _. insert_at-Shrinks f c s (sort_parents v) kv.0 kv.1 log2))
              (λ c s v log2 less.
                same_bind (encode env s v) _ _
                  (λ kv _. insert_at_fuel_above f k c s (sort_parents v) kv.0 kv.1 log2 less))
              id (lookup id log.mempool.waiting_children) (record log { txn = txn; state = state })
              (omega arith)))

  -- One nested insertion for each message of the mempool is enough: more fuel changes nothing.
  pub insert_now_fuel :
      (k : ℕ) (id : Str) (signature : Signature) (message : Message Payload) (key value : Bytes)
      (log : Log env)
      → insert_at env (suc (length log.mempool.values) + k) id signature message key value log
        ≡ insert_now env id signature message key value log
  insert_now_fuel k id signature message key value log =
      insert_at_fuel_above (suc (length log.mempool.values)) k id signature message key value log
        (omega arith)
