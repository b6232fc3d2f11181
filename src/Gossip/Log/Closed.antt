-- ===== src/Gossip/Log/Closed.antt =====
-- A log that indexes ancestors stores no message without its parents: AbstractGossipLog.ts.
use canvas.Base.{
  true, false, ◌||◌, ◌≡◌, refl, ap, sym, ◌∙◌, arith, Option, none, some, List, [], ◌∷◌, map, Str,
  Bytes, bytes_eq, bytes_eq_iff, bytes_eq_self, Result, ok, throw, OnOk, inl, inr, Bool-cases,
  Option-cases,
}
use canvas.Base.Maps.{lookup, has, delete, lookup-put, lookup-remove, has-delete}
use canvas.Gossip.Mempool.{Mempool, release, settle}
use canvas.Gossip.Mempool.Laws.{parents, or_empty}
use canvas.Gossip.Log.Types.{Message, Txn, Env, Log, sort, insert_sorted, stored}
use canvas.Gossip.Log.Insert.{store, encode}

pub has-insert_sorted :
    (x y : Str) (s : List Str) → has y (insert_sorted x s) ≡ (bytes_eq x y || has y s)
unfolding has insert_sorted
has-insert_sorted x y [] = refl
has-insert_sorted x y (z ∷ s) = ground (arith, has-insert_sorted x y s)

pub has-sort : (y : Str) (s : List Str) → has y (sort s) ≡ has y s
unfolding has sort
has-sort y [] = refl
has-sort y (x ∷ s) = has-insert_sorted x y (sort s) ∙ ap (λ b. bytes_eq x y || b) (has-sort y s)

pub stored-store :
    (key k value : Bytes) (ps : List Bytes) (txn : Txn)
    → stored (store key value ps txn) k ≡ (bytes_eq key k || stored txn k)
unfolding stored store
stored-store key k value ps txn = rw (lookup-put key k value txn.messages) (ground arith)

pub has-map :
    (f : Str → Bytes) (p : Bytes) (ps : List Str)
    → has p (map f ps) ≡ true
    → (q : Str) × (has q ps ≡ true) × (f q ≡ p)
unfolding has
has-map f p [] h = absurd (cc)
has-map f p (q ∷ ps) h = elim (Bool-cases (bytes_eq (f q) p)) [
  | inl e ↦ (q, rw (bytes_eq_self q) refl, ground (arith, bytes_eq_iff (f q) p))
  | inr e ↦ let (r, k, l) = has-map f p ps (ground arith) in (r, rw k (ground arith), l)
]

module _ (env : Env) where
  open env use {Payload, Signature, encode_id, decode_id, encode_value, decode_value}

  -- The parents that a stored value names.
  abbrev pub parents_in : Result (Signature × List Bytes × Payload) → List Bytes
  parents_in (ok (signature, parents, payload)) = parents
  parents_in (throw e) = []

  -- Every parent of a stored message is stored.
  abbrev pub IsClosed : Txn → Type 0
  IsClosed txn =
      (k v : Bytes)
      → lookup k txn.messages ≡ some v
      → (p : Bytes) → has p (parents_in (decode_value v)) ≡ true
      → stored txn p ≡ true

  -- Every parent of a waiting message is stored, or waited for.
  abbrev pub Waits : Txn → Mempool (Signature × Message Payload) → Type 0
  Waits txn pool =
      (c : Str) (v : Signature × Message Payload)
      → lookup c pool.values ≡ some v
      → (p : Str) → has p v.1.parents ≡ true
      → stored txn (encode_id p) ≡ false
      → has p (parents pool c) ≡ true

  -- A waiting message is filed under the id of its key.
  abbrev pub IsNamed : Str → Signature × Message Payload → Type 0
  IsNamed c v = (kv : Bytes × Bytes) → encode env v.0 v.1 ≡ ok kv → encode_id c ≡ kv.0

  abbrev pub Named : Mempool (Signature × Message Payload) → Type 0
  Named pool =
      (c : Str) (v : Signature × Message Payload) → lookup c pool.values ≡ some v → IsNamed c v

  -- What is documented of base32 and of the encoding of messages.
  pub record Codec : Type 0 where
    pub ids : (key : Bytes) → encode_id (decode_id key) ≡ key
    pub values :
        (signature : Signature) (ps : List Bytes) (payload : Payload) (v : Bytes)
        → encode_value signature ps payload ≡ ok v
        → decode_value v ≡ ok (signature, ps, payload)

  -- Every head is stored.
  abbrev pub HasHeads : Txn → Type 0
  HasHeads txn = (k : Bytes) → has k txn.heads ≡ true → stored txn k ≡ true

  pub record IsWellFormed (txn : Txn) (pool : Mempool (Signature × Message Payload)) : Type 0 where
    pub closed : IsClosed txn
    pub heads : HasHeads txn
    pub waits : Waits txn pool
    pub named : Named pool

  -- Messages stay stored.
  abbrev pub Grows : Txn → Txn → Type 0
  Grows before after = (k : Bytes) → stored before k ≡ true → stored after k ≡ true

  -- What an insertion keeps.
  abbrev pub Keeps : Log env → Log env → Type 0
  Keeps before after = IsWellFormed after.txn after.mempool × Grows before.txn after.txn

  abbrev pub ParentsStored : Txn → List Str → Type 0
  ParentsStored txn ps = (p : Str) → has p ps ≡ true → stored txn (encode_id p) ≡ true

  store_here :
      (key value k v : Bytes) (ps : List Bytes) (txn : Txn)
      → lookup k (store key value ps txn).messages ≡ some v
      → (bytes_eq key k ≡ true → value ≡ v)
        × (bytes_eq key k ≡ false → lookup k txn.messages ≡ some v)
  unfolding store
  store_here key value k v ps txn e =
      let f = sym (lookup-put key k value txn.messages) ∙ e in
      ((λ w. ground arith), (λ w. ground arith))

  -- A message whose parents are stored may be stored.
  pub store-IsClosed :
      (key value : Bytes) (ps : List Str) (txn : Txn)
      → IsClosed txn
      → ParentsStored txn ps
      → ((p : Bytes)
          → has p (parents_in (decode_value value)) ≡ true
          → has p (map encode_id ps) ≡ true)
      → IsClosed (store key value (map encode_id ps) txn)
  store-IsClosed key value ps txn c known same k v e p h =
      stored-store key p value (map encode_id ps) txn ∙ elim (Bool-cases (bytes_eq key k)) [
        | inl w ↦
            let u : value ≡ v = (store_here key value k v (map encode_id ps) txn e).0 w in
            let (q, k1, k2) =
              has-map encode_id p ps
                (same p (ap (λ v. has p (parents_in (decode_value v))) u ∙ h)) in
            ground (arith, known q k1, k2)
        | inr w ↦
            ground (arith, c k v ((store_here key value k v (map encode_id ps) txn e).1 w) p h)
      ]

  abbrev pub ReleasedStored : Txn → Option (Str × (Signature × Message Payload)) → Type 0
  ReleasedStored txn none = Unit
  ReleasedStored txn (some (c, v)) = ParentsStored txn v.1.parents

  pub empty : (q : Str) → has q [] ≡ false
  unfolding has
  empty q = refl

  module _ (txn : Txn) (id : Str) (known : stored txn (encode_id id) ≡ true) where
    unfoldable pub Released :
        Option (Str × (Signature × Message Payload)) × Mempool (Signature × Message Payload)
        → Type 0
    Released (entry, pool) = Waits txn pool × ReleasedStored txn entry

    settle-Waits :
        (child : Str) (missing left : List Str) (pool : Mempool (Signature × Message Payload))
        → Waits txn pool
        → lookup child pool.missing_parents ≡ some missing
        → delete id missing ≡ left
        → OnOk Released (settle child left pool)
    unfolding settle Released
    settle-Waits child missing (l ∷ left) pool w e f = (
      (λ c v k q hq hs.
          ap (λ s. has q (or_empty s)) (lookup-put child c (l ∷ left) pool.missing_parents)
          ∙ ground (
            arith,
            w c v k q hq hs,
            has-delete id q missing,
            bytes_eq_iff child c,
            bytes_eq_iff id q,
            e,
            f,
            known,
          )),
      tt,
    )
    settle-Waits child missing [] pool w e f = elim (Option-cases (lookup child pool.values)) [
      | inl g ↦ rw (g, OnOk) tt
      | inr (v, g) ↦
          rw (g, OnOk)
            (
              (λ c u k q hq hs.
                  ap (λ s. has q (or_empty s)) (lookup-remove child c pool.missing_parents)
                  ∙ elim (Bool-cases (bytes_eq child c)) [
                    | inl b ↦
                        let k2 = sym (lookup-remove child c pool.values) ∙ k in
                        absurd (ground (arith, k2, b))
                    | inr b ↦
                        let k2 = sym (lookup-remove child c pool.values) ∙ k in
                        rw b (w c u (rw b at k2) q hq hs)
                  ]),
              (λ q hq. elim (Bool-cases (stored txn (encode_id q))) [
                | inl b ↦ b
                | inr b ↦
                    let a = ap (λ s. has q (or_empty s)) (sym e) ∙ w child v g q hq b in
                    absurd (
                      ground (arith, has-delete id q missing, bytes_eq_iff id q, f, known, empty q))
              ]),
            )
    ]

    pub release-Waits :
        (child : Str) (pool : Mempool (Signature × Message Payload))
        → Waits txn pool
        → OnOk Released (release id child pool)
    unfolding release
    release-Waits child pool w = elim (Option-cases (lookup child pool.missing_parents)) [
      | inl e ↦ rw (e, OnOk) tt
      | inr (missing, e) ↦
          rw (e, OnOk) (settle-Waits child missing (delete id missing) pool w e refl)
    ]

  abbrev pub NamedEntry : Option (Str × (Signature × Message Payload)) → Type 0
  NamedEntry none = Unit
  NamedEntry (some (c, v)) = IsNamed c v

  unfoldable pub NamedAfter :
      Option (Str × (Signature × Message Payload)) × Mempool (Signature × Message Payload) → Type 0
  NamedAfter (entry, pool) = Named pool × NamedEntry entry

  settle-Named :
      (child : Str) (left : List Str) (pool : Mempool (Signature × Message Payload))
      → Named pool
      → OnOk NamedAfter (settle child left pool)
  unfolding settle NamedAfter
  settle-Named child (l ∷ left) pool n = (n, tt)
  settle-Named child [] pool n = elim (Option-cases (lookup child pool.values)) [
    | inl g ↦ rw (g, OnOk) tt
    | inr (v, g) ↦
        rw (g, OnOk)
          (
            (λ c u k. elim (Bool-cases (bytes_eq child c)) [
              | inl b ↦
                  let k2 = sym (lookup-remove child c pool.values) ∙ k in
                  absurd (ground (arith, k2, b))
              | inr b ↦ let k2 = sym (lookup-remove child c pool.values) ∙ k in n c u (rw b at k2)
            ]),
            n child v g,
          )
  ]

  pub release-Named :
      (id child : Str) (pool : Mempool (Signature × Message Payload))
      → Named pool
      → OnOk NamedAfter (release id child pool)
  unfolding release
  release-Named id child pool n = elim (Option-cases (lookup child pool.missing_parents)) [
    | inl e ↦ rw (e, OnOk) tt
    | inr (missing, e) ↦ rw (e, OnOk) (settle-Named child (delete id missing) pool n)
  ]
