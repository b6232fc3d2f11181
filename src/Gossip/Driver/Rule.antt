-- ===== src/Gossip/Driver/Rule.antt =====
-- What the driver hands to its consumer: packages/gossiplog/src/sync/driver.ts.
use canvas.Base.{
  ℕ, zero, suc, ◌≡◌, ◌⊎◌, inl, inr, refl, Option, none, some, List, [], ◌∷◌, Bytes, ltb, ◌==◌,
  Result, ok, OnOk, OnOk-bind, OnOk-any, OnOk-self, OnOk-assert, Bool-cases, ==_iff,
}
use canvas.Gossip.Log.Types.{or_throw}
use canvas.Gossip.Driver.{
  Node, Peers, leaf_value, yield_child, yield_all, compare_leaf, sync_leaf, sync_leaves, sync_each,
  is_equal, sync_node, sync_root, run_sync, is_root,
}

module _ (peers : Peers) where
  open peers use {
    State, source_root, get_children, target_root, get_node, equal_nodes, equal_arrays, on_entry,
  }

  -- A node among some.
  abbrev pub Among : Node → List Node → Type 0
  Among node [] = ⊥
  Among node (child ∷ children) = (node ≡ child) ⊎ Among node children

  -- A leaf that the source lists, with its key and value.
  pub record IsEntry (key value : Bytes) : Type 0 where
    pub level : ℕ
    pub parent : Option Bytes
    pub children : List Node
    pub node : Node
    pub listed : get_children level parent ≡ ok children
    pub among : Among node children
    pub is_leaf : node.level ≡ 0
    pub has_key : node.key ≡ some key
    pub has_value : node.value ≡ some value

  -- The target has no leaf under the key.
  abbrev pub Lacks : State → Bytes → Type 0
  Lacks s key = get_node s 0 (some key) ≡ ok none

  module _ (target_level : ℕ) (Inv : State → Type 0)
      (keeps : (key value : Bytes) (s : State)
        → IsEntry key value
        → (target_level ≡ 0) ⊎ Lacks s key
        → Inv s
        → OnOk Inv (on_entry key value s)) where
    leaf_value_lem :
        (node : Node) → OnOk (λ v. (node.level ≡ 0) × (node.value ≡ some v)) (leaf_value peers node)
    unfolding leaf_value
    leaf_value_lem node =
        OnOk-assert (λ v. (node.level ≡ 0) × (node.value ≡ some v)) (node.level == 0) _ _
          (λ e. value_lem node.value ((==_iff node.level 0).0 e))
      where
        value_lem :
            (o : Option Bytes)
            → node.level ≡ 0
            → OnOk (λ v. (node.level ≡ 0) × (o ≡ some v)) (or_throw o "missing leaf entry value")
        value_lem none e = tt
        value_lem (some v) e = (e, refl)

    -- The children of a reply of the source.
    abbrev FromReply : List Node → Type 0
    FromReply nodes =
        (level : ℕ) × (parent : Option Bytes) × (children : List Node) × (get_children level parent
          ≡ ok children)
        × ((node : Node) → Among node nodes → Among node children)

    tail : (node : Node) (nodes : List Node) → FromReply (node ∷ nodes) → FromReply nodes
    tail node nodes (l, p, cs, e, f) = (l, p, cs, e, λ n m. f n (inr m))

    entry :
        (node : Node) (nodes : List Node) {key value : Bytes}
        → FromReply (node ∷ nodes)
        → node.key ≡ some key
        → (node.level ≡ 0) × (node.value ≡ some value)
        → IsEntry key value
    entry node nodes (l, p, cs, e, f) k v = record {
      level = l;
      parent = p;
      children = cs;
      node = node;
      listed = e;
      among = f node (inl refl);
      is_leaf = v.0;
      has_key = k;
      has_value = v.1;
    }

    yield_child-Inv :
        (key : Option Bytes) (node : Node) (nodes : List Node) (s : State)
        → node.key ≡ key
        → target_level ≡ 0
        → FromReply (node ∷ nodes)
        → Inv s
        → OnOk Inv (yield_child peers key node s)
    yield_child-Inv none node nodes s ek z r h = h
    yield_child-Inv (some key) node nodes s ek z r h =
        OnOk-bind _ Inv (leaf_value peers node) _ (leaf_value_lem node)
          (λ v _ lv. keeps key v s (entry node nodes r ek lv) (inl z) h)

    yield_all-Inv :
        (nodes : List Node) (s : State)
        → target_level ≡ 0
        → FromReply nodes
        → Inv s
        → OnOk Inv (yield_all peers nodes s)
    unfolding yield_all
    yield_all-Inv [] s z r h = h
    yield_all-Inv (node ∷ nodes) s z r h =
        OnOk-bind Inv Inv (yield_child peers node.key node s) _
          (yield_child-Inv node.key node nodes s refl z r h)
          (λ s' _ h'. yield_all-Inv nodes s' z (tail node nodes r) h')

    compare_leaf-Inv :
        (leaf : Option Node) (key value hash : Bytes) (s : State)
        → get_node s 0 (some key) ≡ ok leaf
        → IsEntry key value
        → Inv s
        → OnOk Inv (compare_leaf peers leaf key value hash s)
    compare_leaf-Inv none key value hash s e i h = keeps key value s i (inr e) h
    compare_leaf-Inv (some leaf) key value hash s e i h =
        elim (Bool-cases (equal_arrays hash leaf.hash)) [
          | inl b ↦ rw (b, OnOk) h
          | inr b ↦ rw (b, OnOk) h
        ]

    sync_leaf-Inv :
        (key : Option Bytes) (node : Node) (nodes : List Node) (s : State)
        → node.key ≡ key
        → FromReply (node ∷ nodes)
        → Inv s
        → OnOk Inv (sync_leaf peers key node s)
    sync_leaf-Inv none node nodes s ek r h = h
    sync_leaf-Inv (some key) node nodes s ek r h =
        OnOk-bind _ Inv (leaf_value peers node) _ (leaf_value_lem node) (λ v _ lv.
          OnOk-bind _ Inv (get_node s 0 (some key)) _ (OnOk-self _)
            (λ leaf e _. compare_leaf-Inv leaf key v node.hash s e (entry node nodes r ek lv) h))

    sync_leaves-Inv :
        (nodes : List Node) (s : State)
        → FromReply nodes
        → Inv s
        → OnOk Inv (sync_leaves peers nodes s)
    unfolding sync_leaves
    sync_leaves-Inv [] s r h = h
    sync_leaves-Inv (node ∷ nodes) s r h =
        OnOk-bind Inv Inv (sync_leaf peers node.key node s) _
          (sync_leaf-Inv node.key node nodes s refl r h)
          (λ s' _ h'. sync_leaves-Inv nodes s' (tail node nodes r) h')

    sync_each-Inv :
        (visit : Node → State → Result State)
        → ((node : Node) (s : State) → Inv s → OnOk Inv (visit node s))
        → (nodes : List Node) (s : State) → Inv s
        → OnOk Inv (sync_each peers visit nodes s)
    unfolding sync_each
    sync_each-Inv visit step [] s h = h
    sync_each-Inv visit step (node ∷ nodes) s h =
        OnOk-bind Inv Inv (visit node s) _ (step node s h)
          (λ s' _ h'. sync_each-Inv visit step nodes s' h')

    reply :
        (level : ℕ) (parent : Option Bytes) (children : List Node)
        → get_children level parent ≡ ok children
        → FromReply children
    reply level parent children e = (level, parent, children, e, λ n m. m)

    sync_node-Inv :
        (fuel : ℕ) (node : Node) (s : State) → Inv s → OnOk Inv (sync_node peers fuel node s)
    unfolding sync_node
    sync_node-Inv zero node s h = tt
    sync_node-Inv (suc fuel) node s h =
        OnOk-bind _ Inv (get_node s node.level node.key) _ (OnOk-any _) (λ target _ _.
          elim (Bool-cases (is_equal peers node target)) [
            | inl e ↦ rw e h
            | inr e ↦ rw e (
                OnOk-bind _ Inv (get_children node.level node.key) _ (OnOk-self _)
                  (λ children listed _. elim (Bool-cases (ltb 1 node.level)) [
                    | inl up ↦ rw up (sync_each-Inv _ (λ n t. sync_node-Inv fuel n t) children s h)
                    | inr low ↦ rw low (elim (Bool-cases (node.level == 1)) [
                      | inl one ↦ rw one (sync_leaves-Inv children s (reply _ _ children listed) h)
                      | inr other ↦ rw other h
                    ])
                  ]))
          ])

    sync_root-Inv :
        (fuel : ℕ) (node : Node) (s : State)
        → Inv s
        → OnOk Inv (sync_root peers fuel target_level node s)
    unfolding sync_root
    sync_root-Inv zero node s h = tt
    sync_root-Inv (suc fuel) node s h = elim (Bool-cases (ltb target_level node.level)) [
      | inr low ↦ rw (low, OnOk) (sync_node-Inv (suc fuel) node s h)
      | inl up ↦
          rw (up, OnOk)
            (OnOk-bind _ Inv (get_children node.level node.key) _ (OnOk-self _)
              (λ children listed _. elim (Bool-cases (target_level == 0)) [
                | inr some_level ↦
                    rw some_level (sync_each-Inv _ (λ n t. sync_root-Inv fuel n t) children s h)
                | inl empty ↦ rw empty (elim (Bool-cases (node.level == 1)) [
                  | inl one ↦ rw one (
                      yield_all-Inv children s ((==_iff target_level 0).0 empty)
                        (reply _ _ children listed) h)
                  | inr other ↦
                      rw other (sync_each-Inv _ (λ n t. sync_root-Inv fuel n t) children s h)
                ])
              ]))
    ]

  -- Whatever the source replies, the consumer is given only entries that the source lists at level 0,
  -- and only those for which the target has no leaf at that time, if the target had any entry: an
  -- invariant that the consumer keeps on such entries holds after a sync that returns.
  pub run_sync-Inv :
      (fuel : ℕ) (s : State) (Inv : State → Type 0)
      → ((key value : Bytes) (t : State)
          → IsEntry key value
          → ((target_root s).level ≡ 0) ⊎ Lacks t key
          → Inv t
          → OnOk Inv (on_entry key value t))
      → Inv s
      → OnOk Inv (run_sync peers fuel s)
  unfolding run_sync
  run_sync-Inv fuel s Inv keeps h = OnOk-assert Inv (is_root peers source_root) _ _ (λ _.
      OnOk-assert Inv (is_root peers (target_root s)) _ _ (λ _.
        elim (Bool-cases (source_root.level == 0)) [
          | inl e ↦ rw e h
          | inr e ↦ rw e (elim (Bool-cases (equal_nodes source_root (target_root s))) [
            | inl f ↦ rw f h
            | inr f ↦ rw f (sync_root-Inv (target_root s).level Inv keeps fuel source_root s h)
          ])
        ]))
