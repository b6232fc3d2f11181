-- ===== src/Gossip/Log/Operations.antt =====
-- Logs that are reached by appending, inserting and syncing: AbstractGossipLog.ts.
use canvas.Base.{
  ℕ, suc, true, false, not, ◌&&◌, ◌||◌, ◌≡◌, refl, ap, ap₂, sym, ◌∙◌, arith, some, List, [], ◌∷◌,
  map, Str, Bytes, bytes_eq, bytes_eq_iff, bytes_lt, bytes_lt_asymm, length, if◌then◌else◌, ok,
  ok_inj, OnOk, OnOk-bind, OnOk-any, OnOk-map, OnOk-assert, OnOk-self, inl, inr, Bool-cases,
}
use canvas.Base.Maps.{has, add, lookup-put, has-add}
use canvas.Gossip.Mempool.{insert}
use canvas.Gossip.Mempool.Laws.{or_empty}
use canvas.Gossip.Log.Types.{Message, Txn, Env, Log, sort, insert_sorted, stored}
use canvas.Gossip.Schema.{get_next_clock}
use canvas.Gossip.Log.Insert.{
  sort_parents, encode, missing_parents, insert_or_wait, insert_message, append, insert_now,
}
use canvas.Gossip.Log.Sync.{decode, check_parents, sync_entry, ascending}
use canvas.Gossip.Log.Closed.{
  has-sort, has-map, ParentsStored, parents_in, Codec, IsWellFormed, Keeps,
}
use canvas.Gossip.Log.Keeps.{Names, encode-Names, insert_at-Keeps}

-- No id before a smaller one.
abbrev IsSorted : List Str → Type 0
IsSorted [] = Unit
IsSorted (x ∷ []) = Unit
IsSorted (x ∷ y ∷ ys) = (bytes_lt y x ≡ false) × IsSorted (y ∷ ys)

insert_sorted-IsSorted : (x : Str) (s : List Str) → IsSorted s → IsSorted (insert_sorted x s)
unfolding insert_sorted
insert_sorted-IsSorted x [] h = tt
insert_sorted-IsSorted x (y ∷ []) h = elim (Bool-cases (bytes_lt y x)) [
  | inl e ↦ rw e (bytes_lt_asymm y x e, tt)
  | inr e ↦ rw e (e, tt)
]
insert_sorted-IsSorted x (y ∷ z ∷ s) (k, h) = elim (Bool-cases (bytes_lt y x)) [
  | inr e ↦ rw e (e, (k, h))
  | inl e ↦
      let rest = insert_sorted-IsSorted x (z ∷ s) h in
      elim (Bool-cases (bytes_lt z x)) [
        | inl f ↦ rw (e, f) (k, rw f at rest)
        | inr f ↦ rw (e, f) (bytes_lt_asymm y x e, rw f at rest)
      ]
]

sort-IsSorted : (s : List Str) → IsSorted (sort s)
unfolding sort
sort-IsSorted [] = tt
sort-IsSorted (x ∷ s) = insert_sorted-IsSorted x (sort s) (sort-IsSorted s)

sort_same : (s : List Str) → IsSorted s → sort s ≡ s
unfolding sort insert_sorted
sort_same [] h = refl
sort_same (x ∷ []) h = refl
sort_same (x ∷ y ∷ s) (k, h) = ap (insert_sorted x) (sort_same (y ∷ s) h) ∙ rw k refl

some_inj {ℓ} : {A : Type ℓ} {a b : A} → some a ≡ some b → a ≡ b
some_inj h = cc

module _ (env : Env) where
  open env use {
    Payload, Signature, State, encode_id, decode_id, encode_value, decode_value, index_ancestors,
  }

  encode-sort_parents :
      (signature : Signature) (message : Message Payload)
      → encode env signature (sort_parents message) ≡ encode env signature message
  unfolding encode
  encode-sort_parents signature message =
      rw (sort_same (sort message.parents) (sort-IsSorted message.parents)) refl

  has-missing_parents :
      (p : Str) (ps : List Str) (txn : Txn) (acc : List Str)
      → has p (missing_parents env ps txn acc)
        ≡ (has p acc || has p ps && not (stored txn (encode_id p)))
  unfolding missing_parents has
  has-missing_parents p [] txn acc = ground arith
  has-missing_parents p (q ∷ ps) txn acc =
      has-missing_parents p ps txn (if stored txn (encode_id q) then acc else add q acc)
      ∙ elim (Bool-cases (stored txn (encode_id q))) [
        | inl e ↦ rw e (ground (arith, bytes_eq_iff q p))
        | inr e ↦ rw e (rw (has-add q p acc) (ground (arith, bytes_eq_iff q p)))
      ]

  none_missing :
      (ps : List Str) (txn : Txn) → missing_parents env ps txn [] ≡ [] → ParentsStored env txn ps
  unfolding has
  none_missing ps txn e p h =
      let k = sym (has-missing_parents p ps txn []) ∙ ap (has p) e in ground arith

  module _ (codec : Codec env) (indexed : index_ancestors ≡ true) where
    wait-IsWellFormed :
        (signature : Signature) (message : Message Payload) (key value : Bytes) (missing : List Str)
        (log : Log env)
        → encode env signature message ≡ ok (key, value)
        → missing_parents env (sort message.parents) log.txn [] ≡ missing
        → IsWellFormed env log.txn log.mempool
        → IsWellFormed env log.txn
            (insert (decode_id key) (signature, sort_parents message) missing log.mempool)
    unfolding insert
    wait-IsWellFormed signature message key value missing log e m w = record {
      closed = w.closed;
      heads = w.heads;
      waits = λ c v k p hp hs.
          ap (λ s. has p (or_empty s))
            (lookup-put (decode_id key) c missing log.mempool.missing_parents)
          ∙ elim (Bool-cases (bytes_eq (decode_id key) c)) [
            | inl b ↦
                let k2 =
                  sym (
                    lookup-put (decode_id key) c (signature, sort_parents message)
                      log.mempool.values)
                  ∙ k in
                let hp2 : has p (sort message.parents) ≡ true =
                  ap (λ u. has p u.1.parents) (some_inj (rw b at k2)) ∙ hp in
                rw b (
                  ap (has p) (sym m)
                  ∙ has-missing_parents p (sort message.parents) log.txn []
                  ∙ rw (hp2, hs) (ground arith))
            | inr b ↦
                let k2 =
                  sym (
                    lookup-put (decode_id key) c (signature, sort_parents message)
                      log.mempool.values)
                  ∙ k in
                rw b (w.waits c v (rw b at k2) p hp hs)
          ];
      named = λ c v k kv f. elim (Bool-cases (bytes_eq (decode_id key) c)) [
        | inl b ↦
            let k2 =
              sym
                (lookup-put (decode_id key) c (signature, sort_parents message) log.mempool.values)
              ∙ k in
            let same =
              sym f
              ∙ sym (ap (λ u. encode env u.0 u.1) (some_inj (rw b at k2)))
              ∙ encode-sort_parents signature message
              ∙ e in
            ap encode_id (sym ((bytes_eq_iff (decode_id key) c).0 b))
            ∙ codec.ids key
            ∙ sym (ap (λ r. r.0) (ok_inj same))
        | inr b ↦
            let k2 =
              sym
                (lookup-put (decode_id key) c (signature, sort_parents message) log.mempool.values)
              ∙ k in
            w.named c v (rw b at k2) kv f
      ];
    }

    insert_or_wait-Keeps :
        (signature : Signature) (message : Message Payload) (key value : Bytes) (missing : List Str)
        (log : Log env)
        → encode env signature message ≡ ok (key, value)
        → missing_parents env (sort message.parents) log.txn [] ≡ missing
        → Names env (sort message.parents) value
        → IsWellFormed env log.txn log.mempool
        → OnOk (Keeps env log) (
            insert_or_wait env
              (decode_id key)
              signature
              (sort_parents message)
              key
              value
              missing
              log)
    unfolding insert_or_wait
    insert_or_wait-Keeps signature message key value [] log e m n w =
        insert_at-Keeps env codec (suc (length log.mempool.values)) (decode_id key) signature
          (sort_parents message) key value log w (none_missing (sort message.parents) log.txn m)
          (codec.ids key) n
    insert_or_wait-Keeps signature message key value (p ∷ missing) log e m n w =
        rw (indexed, OnOk)
          (wait-IsWellFormed signature message key value (p ∷ missing) log e m w, λ k h. h)

    pub insert_message-Keeps :
        (signature : Signature) (message : Message Payload) (log : Log env)
        → IsWellFormed env log.txn log.mempool
        → OnOk (Keeps env log) (insert_message env signature message log)
    unfolding insert_message
    insert_message-Keeps signature message log w =
        OnOk-assert (Keeps env log) (env.verify_signed_value signature message) _ _ (λ _.
          OnOk-bind (λ kv. Names env (sort message.parents) kv.1) (Keeps env log)
            (encode env signature message) _ (encode-Names env codec signature message)
            (λ kv e n. insert_or_wait-Keeps signature message kv.0 kv.1 _ log e refl n w))

    pub append-Keeps :
        (sign : Message Payload → Signature) (payload : Payload) (log : Log env)
        → IsWellFormed env log.txn log.mempool
        → OnOk (Keeps env log) (append env sign payload log)
    unfolding append
    append-Keeps sign payload log w =
        OnOk-bind (λ c. Unit {0}) (Keeps env log) (get_next_clock log.txn.heads) _ (OnOk-any _)
          (λ clock _ _.
            let message : Message Payload = record {
              topic = env.topic;
              clock = clock;
              parents = map decode_id log.txn.heads;
              payload = payload;
            } in
            OnOk-bind (λ kv. Names env (sort message.parents) kv.1) (Keeps env log)
              (encode env (sign message) message) _ (encode-Names env codec (sign message) message)
              (λ kv e n.
                insert_at-Keeps env codec (suc (length log.mempool.values)) (decode_id kv.0)
                  (sign message) (sort_parents message) kv.0 kv.1 log w
                  (λ p h.
                    let (k, known, q) =
                      has-map decode_id p log.txn.heads
                        (sym (has-sort p (map decode_id log.txn.heads)) ∙ h) in
                    ap (λ p. stored log.txn (encode_id p)) (sym q)
                    ∙ ap (stored log.txn) (codec.ids k)
                    ∙ w.heads k known)
                  (codec.ids kv.0) n))

    check_parents-stored :
        (txn : Txn) (ps : List Str)
        → OnOk (λ u. ParentsStored env txn ps) (check_parents env txn ps)
    unfolding check_parents has
    check_parents-stored txn [] = λ p h. absurd (cc)
    check_parents-stored txn (q ∷ ps) = elim (Bool-cases (stored txn (encode_id q))) [
      | inr e ↦ rw (e, OnOk) (rw (indexed, OnOk) tt)
      | inl e ↦
          rw (e, OnOk)
            (OnOk-map _ _ (check_parents env txn ps) (check_parents-stored txn ps) (λ u rest p h.
              elim (Bool-cases (bytes_eq q p)) [
                | inl b ↦ ap (λ p. stored txn (encode_id p)) (sym ((bytes_eq_iff q p).0 b)) ∙ e
                | inr b ↦ rest p (rw b at h)
              ]))
    ]

    map_ids : (ps : List Bytes) → map encode_id (map decode_id ps) ≡ ps
    map_ids [] = refl
    map_ids (p ∷ ps) = ap₂ ◌∷◌ (codec.ids p) (map_ids ps)

    decode-Names : (value : Bytes) → OnOk (λ r. Names env r.2.parents value) (decode env value)
    unfolding decode
    decode-Names value =
        OnOk-bind _ (λ r. Names env r.2.parents value) (decode_value value) _ (OnOk-self _)
          (λ (signature, ps, payload) e _.
            OnOk-bind (λ c. Unit {0}) (λ r. Names env r.2.parents value) (get_next_clock ps) _
              (OnOk-any _)
              (λ clock _ _.
                OnOk-assert (λ r. Names env r.2.parents value) (ascending (map decode_id ps)) _ _
                  (λ _ p h.
                    ap (has p) (map_ids ps) ∙ ap (λ r. has p (parents_in env r)) (sym e) ∙ h)))

    pub sync_entry-Keeps :
        (key value : Bytes) (log : Log env) (count : ℕ)
        → IsWellFormed env log.txn log.mempool
        → OnOk (λ r. Keeps env log r.0) (sync_entry env key value (log, count))
    unfolding sync_entry
    sync_entry-Keeps key value log count w =
        OnOk-bind (λ r. Names env r.2.parents value) (λ r. Keeps env log r.0) (decode env value) _
          (decode-Names value)
          (λ (id, signature, message) _ n.
            OnOk-assert (λ r. Keeps env log r.0) (bytes_eq id (decode_id key)) _ _
              (λ same.
                OnOk-assert (λ r. Keeps env log r.0) (env.verify_signature signature) _ _
                  (λ _. elim (Bool-cases (stored log.txn key)) [
                    | inl e ↦ rw (e, OnOk) (w, λ k h. h)
                    | inr e ↦
                        rw (e, OnOk)
                          (OnOk-bind (λ u. ParentsStored env log.txn message.parents)
                            (λ r. Keeps env log r.0) (check_parents env log.txn message.parents) _
                            (check_parents-stored log.txn message.parents)
                            (λ _ _ known.
                              OnOk-bind (Keeps env log) (λ r. Keeps env log r.0)
                                (insert_now env id signature message key value log) _
                                (insert_at-Keeps env codec (suc (length log.mempool.values)) id
                                  signature message key value log w known
                                  (ap encode_id ((bytes_eq_iff id (decode_id key)).0 same)
                                    ∙ codec.ids key)
                                  n)
                                (λ after _ k. k)))
                  ])))
