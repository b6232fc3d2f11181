-- ===== src/Gossip/Log/Keeps.antt =====
-- What every insertion keeps: packages/gossiplog/src/AbstractGossipLog.ts.
use canvas.Base.{
  ℕ, zero, suc, true, ◌||◌, ◌≡◌, refl, ap, sym, ◌∙◌, arith, Option, none, some, List, [], ◌∷◌, map,
  Str, Bytes, bytes_eq, bytes_eq_iff, Result, ◌>>=◌, OnOk, OnOk-bind, OnOk-any, OnOk-both, OnOk-map,
  OnOk-assert, OnOk-self, inl, inr, Bool-cases, ◌==◌,
}
use canvas.Base.Maps.{lookup, has, delete, remove, has-delete}
use canvas.Gossip.Mempool.{Mempool, release}
use canvas.Gossip.Log.Types.{Message, Txn, Env, Log, sort, stored, is_some}
use canvas.Gossip.Schema.{get_next_clock}
use canvas.Gossip.Log.Ancestors.{get_ancestor_clocks, ancestor_links}
use canvas.Gossip.Log.Insert.{
  sort_parents, store, put_head, delete_all, encode, index_message, insert_released,
  release_children, observed, insert_at,
}
use canvas.Gossip.Log.Closed.{
  has-sort, has-insert_sorted, stored-store, store-IsClosed, Released, release-Waits, NamedEntry,
  NamedAfter, release-Named, ReleasedStored, ParentsStored, parents_in, Waits, IsNamed, Codec,
  HasHeads, IsWellFormed, Grows, Keeps,
}

has-delete_all :
    (k : Bytes) (ps heads : List Bytes) → has k (delete_all ps heads) ≡ true → has k heads ≡ true
unfolding delete_all
has-delete_all k [] heads h = h
has-delete_all k (p ∷ ps) heads h =
    let g = has-delete_all k ps (delete p heads) h in ground (arith, has-delete p k heads)

has-put_head :
    (key k : Bytes) (heads : List Bytes)
    → has k (put_head key heads) ≡ true
    → (bytes_eq key k || has k heads) ≡ true
unfolding put_head
has-put_head key k heads h = elim (Bool-cases (has key heads)) [
  | inl e ↦ let g = rw e at h in ground arith
  | inr e ↦ let g = rw e at h in sym (has-insert_sorted key k heads) ∙ g
]

module _ (env : Env) where
  open env use {
    Payload, Signature, State, encode_id, decode_id, encode_value, decode_value, index_ancestors,
  }

  store-HasHeads :
      (key value : Bytes) (ps : List Bytes) (txn : Txn)
      → HasHeads env txn
      → HasHeads env (store key value ps txn)
  unfolding store
  store-HasHeads key value ps txn h k g =
      let e = has-put_head key k txn.heads (has-delete_all k ps _ g) in
      stored-store key k value ps txn ∙ ground (arith, e, h k)

  -- The tables but the links.
  record SameTables (t u : Txn) : Type 0 where
    messages : t.messages ≡ u.messages
    heads : t.heads ≡ u.heads

  stored-SameTables : {t u : Txn} → SameTables t u → (k : Bytes) → stored t k ≡ stored u k
  unfolding stored
  stored-SameTables s k = ap (λ m. is_some (lookup k m)) s.messages

  index_message-SameTables :
      (key : Bytes) (clock : ℕ) (ps : List Bytes) (txn : Txn)
      → OnOk (λ t. SameTables t txn) (index_message env key clock ps txn)
  unfolding index_message
  index_message-SameTables key clock ps txn = elim (Bool-cases index_ancestors) [
    | inr e ↦ rw (e, OnOk) (record { messages = refl; heads = refl })
    | inl e ↦
        rw (e, OnOk)
          (OnOk-bind (λ c. Unit {0}) (λ t. SameTables t txn) (get_ancestor_clocks clock) _
            (OnOk-any _)
            (λ clocks _ _.
              OnOk-bind (λ l. Unit {0}) (λ t. SameTables t txn)
                (ancestor_links encode_id decode_id txn clocks ps) _ (OnOk-any _)
                (λ links _ _. record { messages = refl; heads = refl })))
  ]

  IsWellFormed-SameTables :
      {t u : Txn} {pool : Mempool (Signature × Message Payload)}
      → SameTables t u
      → IsWellFormed env u pool
      → IsWellFormed env t pool
  IsWellFormed-SameTables {t} {u} s w = record {
    closed =
        λ k v e p h. stored-SameTables s p ∙ w.closed k v (ap (lookup k) (sym s.messages) ∙ e) p h;
    heads = λ k h. stored-SameTables s k ∙ w.heads k (ap (has k) (sym s.heads) ∙ h);
    waits = λ c v e p h g. w.waits c v e p h (sym (stored-SameTables s (encode_id p)) ∙ g);
    named = w.named;
  }

  Waits-Grows :
      (t u : Txn) (pool : Mempool (Signature × Message Payload))
      → Grows env t u
      → Waits env t pool
      → Waits env u pool
  Waits-Grows t u pool g w c v e p h n = elim (Bool-cases (stored t (encode_id p))) [
    | inl b ↦ absurd (ground (arith, g (encode_id p) b))
    | inr b ↦ w c v e p h b
  ]

  store-Grows :
      (key value : Bytes) (ps : List Bytes) (txn : Txn) → Grows env txn (store key value ps txn)
  store-Grows key value ps txn k h = stored-store key k value ps txn ∙ ground arith

  After :
      Txn
      → Option (Str × (Signature × Message Payload)) × Mempool (Signature × Message Payload)
      → Type 0
  After txn (entry, pool) =
      IsWellFormed env txn pool × ReleasedStored env txn entry × NamedEntry env entry

  release-After :
      (txn : Txn) (id child : Str) (pool : Mempool (Signature × Message Payload))
      → stored txn (encode_id id) ≡ true
      → IsWellFormed env txn pool
      → OnOk (After txn) (release id child pool)
  unfolding After Released NamedAfter
  release-After txn id child pool known w =
      OnOk-map _ (After txn) (release id child pool)
        (OnOk-both (Released env txn id known) (NamedAfter env) (release id child pool)
          (release-Waits env txn id known child pool w.waits)
          (release-Named env id child pool w.named))
        (λ (entry, pool) ((w2, s), (n, m)).
          (record { closed = w.closed; heads = w.heads; waits = w2; named = n }, s, m))

  -- What `again` must do for the loop over released children.
  abbrev pub Again : (Str → Signature → Message Payload → Log env → Result (Log env)) → Type 0
  Again again =
      (c : Str) (v : Signature × Message Payload) (log : Log env)
      → IsWellFormed env log.txn log.mempool
      → ParentsStored env log.txn v.1.parents
      → IsNamed env c v
      → OnOk (Keeps env log) (again c v.0 v.1 log)

  module _ (again : Str → Signature → Message Payload → Log env → Result (Log env))
      (does : Again again) where
    insert_released-Keeps :
        (entry : Option (Str × (Signature × Message Payload))) (log : Log env)
        → IsWellFormed env log.txn log.mempool
        → ReleasedStored env log.txn entry
        → NamedEntry env entry
        → OnOk (Keeps env log) (insert_released env again entry log)
    insert_released-Keeps none log w s n = (w, λ k h. h)
    insert_released-Keeps (some (c, v)) log w s n = does c v log w s n

    release_children-Keeps :
        (id : Str) (cs : List Str) (log : Log env)
        → stored log.txn (encode_id id) ≡ true
        → IsWellFormed env log.txn log.mempool
        → OnOk (Keeps env log) (release_children env again id cs log)
    unfolding release_children After
    release_children-Keeps id [] log known w = (w, λ k h. h)
    release_children-Keeps id (c ∷ cs) log known w =
        OnOk-bind (After log.txn) (Keeps env log) (release id c log.mempool) _
          (release-After log.txn id c log.mempool known w)
          (λ (entry, pool) _ (w2, s, n).
            OnOk-bind (Keeps env (record log { mempool = pool })) (Keeps env log)
              (insert_released env again entry (record log { mempool = pool })) _
              (insert_released-Keeps entry (record log { mempool = pool }) w2 s n)
              (λ log2 _ (w3, g).
                OnOk-map (Keeps env log2) (Keeps env log) (release_children env again id cs log2)
                  (release_children-Keeps id cs log2 (g (encode_id id) known) w3)
                  (λ log3 (w4, g2). (w4, λ k h. g2 k (g k h)))))

    observed-Keeps :
        (id : Str) (o : Option (List Str)) (log : Log env)
        → stored log.txn (encode_id id) ≡ true
        → IsWellFormed env log.txn log.mempool
        → OnOk (Keeps env log) (observed env again id o log)
    observed-Keeps id none log known w = (w, λ k h. h)
    observed-Keeps id (some cs) log known w =
        release_children-Keeps id cs
          (record log {
            mempool = record log.mempool {
              waiting_children = remove id log.mempool.waiting_children;
            };
          })
          known (record { closed = w.closed; heads = w.heads; waits = w.waits; named = w.named })

  -- The value of an encoded message names the message's parents.
  abbrev pub Names : List Str → Bytes → Type 0
  Names ps value =
      (p : Bytes)
      → has p (parents_in env (decode_value value)) ≡ true
      → has p (map encode_id ps) ≡ true

  pub encode-Names :
      (codec : Codec env) (signature : Signature) (message : Message Payload)
      → OnOk (λ kv. Names (sort message.parents) kv.1) (encode env signature message)
  unfolding encode
  encode-Names codec signature message =
      OnOk-assert (λ kv. Names (sort message.parents) kv.1) (bytes_eq message.topic env.topic) _ _
        (λ _.
          OnOk-bind (λ c. Unit {0}) (λ kv. Names (sort message.parents) kv.1)
            (get_next_clock (map encode_id (sort message.parents))) _ (OnOk-any _)
            (λ clock _ _.
              OnOk-assert (λ kv. Names (sort message.parents) kv.1) (clock == message.clock) _ _
                (λ _.
                  OnOk-bind (λ v. Names (sort message.parents) v)
                    (λ kv. Names (sort message.parents) kv.1)
                    (encode_value signature (map encode_id (sort message.parents)) message.payload)
                    _
                    (OnOk-map _ _
                      (encode_value signature (map encode_id (sort message.parents))
                        message.payload)
                      (OnOk-self _)
                      (λ v e p h.
                        ap (λ r. has p (parents_in env r))
                          (sym (
                            codec.values signature (map encode_id (sort message.parents))
                              message.payload v e))
                        ∙ h))
                    (λ v _ n. n))))

  module _ (codec : Codec env) where
    store-IsWellFormed :
        (key value : Bytes) (ps : List Str) (txn : Txn)
        (pool : Mempool (Signature × Message Payload))
        → IsWellFormed env txn pool
        → ParentsStored env txn ps
        → Names ps value
        → IsWellFormed env (store key value (map encode_id ps) txn) pool
    store-IsWellFormed key value ps txn pool w known n = record {
      closed = store-IsClosed env key value ps txn w.closed known n;
      heads = store-HasHeads key value (map encode_id ps) txn w.heads;
      waits =
          Waits-Grows txn (store key value (map encode_id ps) txn) pool
            (store-Grows key value (map encode_id ps) txn) w.waits;
      named = w.named;
    }

    pub insert_at-Keeps :
        (fuel : ℕ) (id : Str) (signature : Signature) (message : Message Payload)
        (key value : Bytes) (log : Log env)
        → IsWellFormed env log.txn log.mempool
        → ParentsStored env log.txn message.parents
        → encode_id id ≡ key
        → Names message.parents value
        → OnOk (Keeps env log) (insert_at env fuel id signature message key value log)
    unfolding insert_at
    insert_at-Keeps zero id signature message key value log w known e n = tt
    insert_at-Keeps (suc fuel) id signature message key value log w known e n =
        OnOk-bind (λ s. Unit {0}) (Keeps env log) (env.apply log.txn log.state id signature message)
          _ (OnOk-any _)
          (λ state _ _.
            OnOk-bind (λ t. SameTables t (store key value (map encode_id message.parents) log.txn))
              (Keeps env log)
              (index_message env key message.clock (map encode_id message.parents)
                (store key value (map encode_id message.parents) log.txn))
              _ (index_message-SameTables key message.clock (map encode_id message.parents) _)
              (λ txn _ same.
                OnOk-map (Keeps env (record log { txn = txn; state = state })) (Keeps env log) _
                  (observed-Keeps
                    (λ child signature message log. do
                      (key, value) ← encode env signature message
                      insert_at env fuel child signature (sort_parents message) key value log)
                    (λ c v log w s n.
                      OnOk-bind (λ kv. Names (sort v.1.parents) kv.1) (Keeps env log)
                        (encode env v.0 v.1) _ (encode-Names codec v.0 v.1)
                        (λ kv e names.
                          insert_at-Keeps fuel c v.0 (sort_parents v.1) kv.0 kv.1 log w
                            (λ p h. s p (sym (has-sort p v.1.parents) ∙ h)) (n kv e) names))
                    id (lookup id log.mempool.waiting_children)
                    (record log { txn = txn; state = state })
                    (stored-SameTables same (encode_id id)
                      ∙ stored-store key (encode_id id) value (map encode_id message.parents)
                          log.txn
                      ∙ ground (arith, bytes_eq_iff key (encode_id id), e))
                    (IsWellFormed-SameTables same
                      (store-IsWellFormed key value message.parents log.txn log.mempool w known n)))
                  (λ after (w2, g). (
                    w2,
                    λ k h. g k (
                        stored-SameTables same k
                        ∙ store-Grows key value (map encode_id message.parents) log.txn k h),
                  ))))
