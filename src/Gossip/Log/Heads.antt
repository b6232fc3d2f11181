-- ===== src/Gossip/Log/Heads.antt =====
-- The heads of a log: packages/gossiplog/src/AbstractGossipLog.ts.
use canvas.Base.{
  Bool, true, false, not, ◌&&◌, ◌||◌, ◌≡◌, refl, ap, ap₂, sym, ◌∙◌, arith, some, List, [], ◌∷◌,
  Bytes, bytes_eq, bytes_eq_iff, bytes_eq_self, any, inl, inr, Bool-cases,
}
use canvas.Base.Maps.{lookup, has, put, delete, has-delete}
use canvas.Gossip.Log.Types.{Txn, Env, stored}
use canvas.Gossip.Log.Insert.{store, put_head, delete_all}
use canvas.Gossip.Log.Closed.{stored-store, has-insert_sorted, parents_in}

has-delete_all :
    (k : Bytes) (ps heads : List Bytes)
    → has k (delete_all ps heads) ≡ (has k heads && not (has k ps))
unfolding delete_all has
has-delete_all k [] heads = ground arith
has-delete_all k (p ∷ ps) heads =
    has-delete_all k ps (delete p heads) ∙ rw (has-delete p k heads) (ground arith)

has-put_head :
    (key k : Bytes) (heads : List Bytes)
    → has k (put_head key heads) ≡ (bytes_eq key k || has k heads)
unfolding put_head
has-put_head key k heads = elim (Bool-cases (has key heads)) [
  | inl e ↦ rw e (ground (arith, bytes_eq_iff key k, e))
  | inr e ↦ rw e (has-insert_sorted key k heads)
]

-- A value that is written over itself changes no test of the values.
any-put :
    {V : Type 0} (p : V → Bool) (key : Bytes) (value : V) (m : List (Bytes × V))
    → ((w : V) → lookup key m ≡ some w → w ≡ value)
    → any (λ e. p e.1) (put key value m) ≡ (p value || any (λ e. p e.1) m)
unfolding put lookup
any-put p key value [] h = refl
any-put p key value ((j, w) ∷ m) h = elim (Bool-cases (bytes_eq j key)) [
  | inl e ↦ let q : w ≡ value = h w (rw e refl) in rw e (ground (arith, ap p q))
  | inr e ↦ rw e (rw (any-put p key value m (λ v g. h v (rw e g))) (ground arith))
]

boolean :
    (here headed own known parent : Bool)
    → headed ≡ (known && not parent)
    → (here ≡ true → parent ≡ false)
    → ((here || headed) && not own) ≡ ((here || known) && not (own || parent))
boolean here headed own known parent h k = ground arith

module _ (env : Env) where
  open env use {decode_value}

  -- Some stored message names a key as its parent.
  abbrev pub is_parent : Txn → Bytes → Bool
  is_parent txn k = any (λ e. has k (parents_in env (decode_value e.1))) txn.messages

  -- The heads are the stored messages that no stored message names as its parent.
  abbrev pub HeadsExact : Txn → Type 0
  HeadsExact txn = (k : Bytes) → has k txn.heads ≡ (stored txn k && not (is_parent txn k))

  -- The heads after a message is stored, whose value names its parents, and is the value that its
  -- key had if it had one: exactly the messages that no message names as its parent, if they were
  -- before, the message is not its own parent, and no message named it. A message that is named
  -- becomes a head all the same: so does one that is inserted again after its children.
  pub store-HeadsExact :
      (key value : Bytes) (ps : List Bytes) (txn : Txn)
      → ((w : Bytes) → lookup key txn.messages ≡ some w → w ≡ value)
      → parents_in env (decode_value value) ≡ ps
      → has key ps ≡ false
      → HeadsExact txn
      → (is_parent txn key ≡ false → HeadsExact (store key value ps txn))
        × (is_parent txn key ≡ true
            → (has key (store key value ps txn).heads ≡ true)
              × (is_parent (store key value ps txn) key ≡ true))
  unfolding store
  store-HeadsExact key value ps txn same names own exact = (
    (λ fresh k.
        heads_after k
        ∙ boolean (bytes_eq key k) (has k txn.heads) (has k ps) (stored txn k) (is_parent txn k)
            (exact k) (λ e. ap (is_parent txn) (sym ((bytes_eq_iff key k).0 e)) ∙ fresh)
        ∙ sym (ap₂ (λ a b. a && not b) (stored-store key k value ps txn) (parent_after k))),
    (λ named. (
      heads_after key ∙ rw (bytes_eq_self key, own) refl,
      parent_after key ∙ rw named (ground arith),
    )),
  )
    where
      heads_after :
          (k : Bytes)
          → has k (store key value ps txn).heads
            ≡ ((bytes_eq key k || has k txn.heads) && not (has k ps))
      heads_after k =
          has-delete_all k ps (put_head key txn.heads)
          ∙ ap (λ b. b && not (has k ps)) (has-put_head key k txn.heads)

      parent_after :
          (k : Bytes) → is_parent (store key value ps txn) k ≡ (has k ps || is_parent txn k)
      parent_after k =
          any-put (λ v. has k (parents_in env (decode_value v))) key value txn.messages same
          ∙ ap (λ s. has k s || is_parent txn k) names
