-- ===== src/Gossip/Driver/Complete.antt =====
-- A sync ends, and the target then has every entry: packages/gossiplog/src/sync/driver.ts.
use canvas.Base.{
  ℕ, zero, suc, ◌≤◌, ◌<◌, Bool, true, false, ◌≡◌, ◌∙◌, sym, ◌⊎◌, inl, inr, refl, Option, none, some,
  List, [], ◌∷◌, Bytes, ltb, ◌==◌, Result, ok, throw, ◌>>=◌, ok_inj, Bool-cases, lt→ltb, arith, All,
}
use mathlib.Core.Path.{subst}
use Prim.Native.String.{String}
use canvas.Gossip.Driver.{
  Node, Peers, leaf_value, yield_child, yield_all, compare_leaf, sync_leaf, sync_leaves, sync_each,
  is_equal, sync_node, sync_root, run_sync, is_root,
}

module _ (peers : Peers) where
  open peers use {
    State, source_root, get_children, target_root, get_node, equal_nodes, equal_arrays, on_entry,
  }

  -- The source replies with a tree of some height below a node: its leaves that have keys have values.
  abbrev pub Tree : ℕ → Node → Type 0
  Tree zero node = (node.level ≡ 0) × ((v : Bytes) × (node.value ≡ some v))
  Tree (suc n) node =
      (node.level ≡ suc n)
      × ((children : List Node) × (get_children node.level node.key ≡ ok children)
          × All (Tree n) children)

  abbrev pub AnyOf : (Node → Type 0) → List Node → Type 0
  AnyOf P [] = ⊥
  AnyOf P (node ∷ nodes) = P node ⊎ AnyOf P nodes

  -- The keys of the leaves of such a tree.
  abbrev pub Holds : ℕ → Node → Bytes → Type 0
  Holds zero node key = node.key ≡ some key
  Holds (suc n) node key =
      (children : List Node) × (get_children node.level node.key ≡ ok children)
      × AnyOf (λ child. Holds n child key) children

  -- What the sync relies on, for the states that are `Good`, what a state `Has`, and the errors that
  -- a read or the consumer throws: a target with an equal node, or with an equal root, has the keys
  -- below it; a target has the key of a leaf that it finds; and a consumer that returns has added
  -- the key, and taken none away.
  pub record Laws (Good : State → Type 0) (Has : State → Bytes → Type 0) (IsError : String → Type 0)
      : Type 0 where
    pub reads :
        (s : State) (level : ℕ) (key : Option Bytes)
        → Good s
        → ((o : Option Node) × (get_node s level key ≡ ok o))
          ⊎ ((m : String) × (get_node s level key ≡ throw m) × IsError m)
    pub equal_node :
        (n : ℕ) (node target : Node) (s : State) (key : Bytes)
        → Good s
        → get_node s node.level node.key ≡ ok (some target)
        → equal_nodes node target ≡ true
        → Tree n node
        → Holds n node key
        → Has s key
    pub equal_root :
        (n : ℕ) (s : State) (key : Bytes)
        → Good s
        → equal_nodes source_root (target_root s) ≡ true
        → Tree n source_root
        → Holds n source_root key
        → Has s key
    pub found :
        (s : State) (key : Bytes) (leaf : Node)
        → Good s
        → get_node s 0 (some key) ≡ ok (some leaf)
        → Has s key
    pub consumes :
        (key value : Bytes) (s : State)
        → Good s
        → ((t : State) × (on_entry key value s ≡ ok t)
            × Good t
            × Has t key
            × ((k : Bytes) → Has s k → Has t k))
          ⊎ ((m : String) × (on_entry key value s ≡ throw m) × IsError m)

  module _ (Good : State → Type 0) (Has : State → Bytes → Type 0) (IsError : String → Type 0)
      (laws : Laws Good Has IsError) where
    -- A run that throws an error of a read or of the consumer.
    abbrev pub Fails : Result State → Type 0
    Fails run = (m : String) × (run ≡ throw m) × IsError m

    -- A run that returns a good state with certain keys, and loses none, or that throws such an error.
    abbrev pub Done : (Bytes → Type 0) → State → Result State → Type 0
    Done keys s run =
        ((t : State) × (run ≡ ok t)
          × Good t
          × ((k : Bytes) → keys k → Has t k)
          × ((k : Bytes) → Has s k → Has t k))
        ⊎ Fails run

    stays :
        (keys : Bytes → Type 0) (s : State)
        → Good s
        → ((k : Bytes) → keys k → Has s k)
        → Done keys s (ok s)
    stays keys s g h = inl (s, refl, g, h, λ k p. p)

    chain :
        (keys more : Bytes → Type 0) (s : State) (m : Result State) (f : State → Result State)
        → Done keys s m
        → ((t : State) → Good t → Done more t (f t))
        → Done (λ k. keys k ⊎ more k) s (m >>= f)
    chain keys more s m f (inr (x, e, error)) next = inr (x, rw e refl, error)
    chain keys more s m f (inl (t, e, g, h, l)) next = elim (next t g) [
      | inr (x, e2, error) ↦ inr (x, rw e e2, error)
      | inl (u, e2, g2, h2, l2) ↦ inl (
        u,
        rw e e2,
        g2,
        λ k p. elim p [ inl a ↦ l2 k (h k a) | inr b ↦ h2 k b ],
        λ k p. l2 k (l k p),
      )
    ]

    narrow :
        (keys more : Bytes → Type 0) (s : State) (m : Result State)
        → ((k : Bytes) → keys k → more k)
        → Done more s m
        → Done keys s m
    narrow keys more s m f (inl (t, e, g, h, l)) = inl (t, e, g, λ k p. h k (f k p), l)
    narrow keys more s m f (inr fails) = inr fails

    moved :
        (keys : Bytes → Type 0) (s : State) (m run : Result State)
        → run ≡ m
        → Done keys s m
        → Done keys s run
    moved keys s m run p (inl (t, e, g, h, l)) = inl (t, p ∙ e, g, h, l)
    moved keys s m run p (inr (x, e, error)) = inr (x, p ∙ e, error)

    -- A read of the target, and what follows.
    after_read :
        (keys : Bytes → Type 0) (s : State) (level : ℕ) (key : Option Bytes)
        (f : Option Node → Result State)
        → Good s
        → ((o : Option Node) → get_node s level key ≡ ok o → Done keys s (f o))
        → Done keys s (get_node s level key >>= f)
    after_read keys s level key f g next = elim (laws.reads s level key g) [
      | inl (o, e) ↦ moved keys s (f o) _ (rw e refl) (next o e)
      | inr (x, e, error) ↦ inr (x, rw e refl, error)
    ]

    of_key : (node : Node) {key k : Bytes} → node.key ≡ some key → node.key ≡ some k → key ≡ k
    of_key node e f = cc

    -- The consumer on a leaf of the source.
    consumed :
        (key value : Bytes) (s : State) → Good s → Done (λ k. key ≡ k) s (on_entry key value s)
    consumed key value s g = elim (laws.consumes key value s g) [
      | inl (t, e, g2, has, l) ↦ inl (t, e, g2, λ k p. subst (Has t) p has, l)
      | inr fails ↦ inr fails
    ]

    leaf_value-Tree : (node : Node) (t : Tree 0 node) → leaf_value peers node ≡ ok t.1.0
    unfolding leaf_value
    leaf_value-Tree node (l, (v, e)) = rw (l, e) refl

    yield_child-Done :
        (key : Option Bytes) (node : Node) (s : State)
        → Tree 0 node
        → Good s
        → Done (λ k. key ≡ some k) s (yield_child peers key node s)
    yield_child-Done none node s t g = stays _ s g (λ k p. absurd (cc))
    yield_child-Done (some key) node s t g =
        moved _ s (on_entry key t.1.0 s) _ (rw (leaf_value-Tree node t) refl)
          (narrow _ (λ k. key ≡ k) s _ (λ k p. cc) (consumed key t.1.0 s g))

    yield_all-Done :
        (nodes : List Node) (s : State)
        → All (Tree 0) nodes
        → Good s
        → Done (λ k. AnyOf (λ n. Holds 0 n k) nodes) s (yield_all peers nodes s)
    unfolding yield_all
    yield_all-Done [] s t g = stays _ s g (λ k p. absurd p)
    yield_all-Done (node ∷ nodes) s t g =
        chain _ _ s _ _ (yield_child-Done node.key node s t.0 g)
          (λ u gu. yield_all-Done nodes u t.1 gu)

    compare_leaf-Done :
        (leaf : Option Node) (key value hash : Bytes) (s : State)
        → get_node s 0 (some key) ≡ ok leaf
        → Good s
        → Done (λ k. key ≡ k) s (compare_leaf peers leaf key value hash s)
    compare_leaf-Done none key value hash s e g = consumed key value s g
    compare_leaf-Done (some leaf) key value hash s e g =
        moved _ s (ok s) _ (both (equal_arrays hash leaf.hash))
          (stays _ s g (λ k p. subst (Has s) p (laws.found s key leaf g e)))
      where
        both : (b : Bool) → elim b [ true ↦ ok s | false ↦ ok s ] ≡ ok s
        both true = refl
        both false = refl

    sync_leaf-Done :
        (key : Option Bytes) (node : Node) (s : State)
        → Tree 0 node
        → Good s
        → Done (λ k. key ≡ some k) s (sync_leaf peers key node s)
    sync_leaf-Done none node s t g = stays _ s g (λ k p. absurd (cc))
    sync_leaf-Done (some key) node s t g =
        moved _ s
          (get_node s 0 (some key) >>= λ leaf. compare_leaf peers leaf key t.1.0 node.hash s) _
          (rw (leaf_value-Tree node t) refl)
          (after_read _ s 0 (some key) _ g (λ leaf e.
            narrow _ (λ k. key ≡ k) s _ (λ k p. cc)
              (compare_leaf-Done leaf key t.1.0 node.hash s e g)))

    sync_leaves-Done :
        (nodes : List Node) (s : State)
        → All (Tree 0) nodes
        → Good s
        → Done (λ k. AnyOf (λ n. Holds 0 n k) nodes) s (sync_leaves peers nodes s)
    unfolding sync_leaves
    sync_leaves-Done [] s t g = stays _ s g (λ k p. absurd p)
    sync_leaves-Done (node ∷ nodes) s t g =
        chain _ _ s _ _ (sync_leaf-Done node.key node s t.0 g)
          (λ u gu. sync_leaves-Done nodes u t.1 gu)

    sync_each-Done :
        (n : ℕ) (visit : Node → State → Result State)
        → ((node : Node) (s : State) → Tree n node → Good s → Done (Holds n node) s (visit node s))
        → (nodes : List Node) (s : State) → All (Tree n) nodes
        → Good s
        → Done (λ k. AnyOf (λ c. Holds n c k) nodes) s (sync_each peers visit nodes s)
    unfolding sync_each
    sync_each-Done n visit step [] s t g = stays _ s g (λ k p. absurd p)
    sync_each-Done n visit step (node ∷ nodes) s t g =
        chain _ _ s _ _ (step node s t.0 g) (λ u gu. sync_each-Done n visit step nodes u t.1 gu)

    -- The keys below a node are those below the children of the source's reply.
    of_children :
        (n : ℕ) (node : Node) (children : List Node) (k : Bytes)
        → get_children node.level node.key ≡ ok children
        → Holds (suc n) node k
        → AnyOf (λ c. Holds n c k) children
    of_children n node children k e (others, f, any) =
        subst (λ cs. AnyOf (λ c. Holds n c k) cs) (ok_inj (sym f ∙ e)) any

    of_reply :
        (n : ℕ) (node : Node) (children : List Node) (s : State) (run : Result State)
        → get_children node.level node.key ≡ ok children
        → Done (λ k. AnyOf (λ c. Holds n c k) children) s run
        → Done (Holds (suc n) node) s run
    of_reply n node children s run e =
        narrow (Holds (suc n) node) (λ k. AnyOf (λ c. Holds n c k) children) s run
          (λ k. of_children n node children k e)

    -- What `syncNode` does with the children.
    abbrev below_node : ℕ → Node → State → Result State
    below_node fuel node s = do
      children ← get_children node.level node.key
      elim (ltb 1 node.level) [
        | true ↦ sync_each peers (λ child t. sync_node peers fuel child t) children s
        | false ↦ elim (node.level == 1) [ true ↦ sync_leaves peers children s | false ↦ ok s ]
      ]

    with_target :
        (n fuel : ℕ) (node : Node) (s : State) (target : Option Node)
        → get_node s node.level node.key ≡ ok target
        → Tree n node
        → Good s
        → Done (Holds n node) s (below_node fuel node s)
        → Done
            (Holds n node)
            s
            (elim (is_equal peers node target) [ true ↦ ok s | false ↦ below_node fuel node s ])
    with_target n fuel node s none e t g d = d
    with_target n fuel node s (some target) e t g d = elim (Bool-cases (equal_nodes node target)) [
      | inr f ↦ moved _ s (below_node fuel node s) _ (rw f refl) d
      | inl f ↦
          moved _ s (ok s) _ (rw f refl)
            (stays _ s g (λ k h. laws.equal_node n node target s k g e f t h))
    ]

    sync_node-Done :
        (n fuel : ℕ) (node : Node) (s : State)
        → n < fuel
        → Tree (suc n) node
        → Good s
        → Done (Holds (suc n) node) s (sync_node peers fuel node s)
    unfolding sync_node
    sync_node-Done n zero node s h t g = absurd (omega arith)
    sync_node-Done zero (suc fuel) node s h t g =
        let (level, (children, listed, below)) = t in
        after_read _ s node.level node.key _ g (λ target e. with_target 1 fuel node s target e t g (
          of_reply 0 node children s _ listed (
            moved _ s (sync_leaves peers children s) _ (rw listed (rw level (rw level refl)))
              (sync_leaves-Done children s below g))))
    sync_node-Done (suc n) (suc fuel) node s h t g =
        let (level, (children, listed, below)) = t in
        after_read _ s node.level node.key _ g (λ target e.
          with_target (suc (suc n)) fuel node s target e t g (
            of_reply (suc n) node children s _ listed (
              moved _ s (sync_each peers (λ child u. sync_node peers fuel child u) children s) _
                (rw listed (rw (above level) refl))
                (sync_each-Done (suc n) _
                  (λ c u tc gu. sync_node-Done n fuel c u (omega arith) tc gu) children s below
                  g))))
      where
        above : node.level ≡ suc (suc n) → ltb 1 node.level ≡ true
        above e = lt→ltb 1 node.level (omega arith)

    -- What `syncRoot` does with the children, above the height of the target.
    abbrev below_root :
        (visit : Node → State → Result State) → ℕ → Node → List Node → State → Result State
    below_root visit target_level node children s = elim (target_level == 0) [
      | false ↦ sync_each peers visit children s
      | true ↦ elim (node.level == 1) [
        | true ↦ yield_all peers children s
        | false ↦ sync_each peers visit children s
      ]
    ]

    root_leaves :
        (visit : Node → State → Result State) (target_level : ℕ) (node : Node)
        (children : List Node) (s : State)
        → node.level ≡ 1
        → ltb target_level node.level ≡ true
        → All (Tree 0) children
        → Good s
        → Done
            (λ k. AnyOf (λ c. Holds 0 c k) children)
            s
            (below_root visit target_level node children s)
    root_leaves visit target_level node children s level up below g =
        moved _ s (yield_all peers children s) _
          (rw (is_empty target_level node.level level up, below_root) (rw level refl))
          (yield_all-Done children s below g)
      where
        is_empty : (a b : ℕ) → b ≡ 1 → ltb a b ≡ true → (a == 0) ≡ true
        is_empty a b e u = ground arith

    root_each :
        (n : ℕ) (visit : Node → State → Result State)
        → ((node : Node) (s : State) → Tree n node → Good s → Done (Holds n node) s (visit node s))
        → (target_level : ℕ) (node : Node) (children : List Node) (s : State)
        → (node.level == 1) ≡ false
        → All (Tree n) children
        → Good s
        → Done
            (λ k. AnyOf (λ c. Holds n c k) children)
            s
            (below_root visit target_level node children s)
    root_each n visit step target_level node children s level below g =
        moved _ s (sync_each peers visit children s) _ (either (target_level == 0))
          (sync_each-Done n visit step children s below g)
      where
        either :
            (b : Bool)
            → elim b [
              | false ↦ sync_each peers visit children s
              | true ↦ elim (node.level == 1) [
                | true ↦ yield_all peers children s
                | false ↦ sync_each peers visit children s
              ]
            ]
              ≡ sync_each peers visit children s
        either false = refl
        either true = rw level refl

    -- `syncRoot` where the node is no higher than the target, and where it is.
    root_case :
        (n fuel target_level : ℕ) (node : Node) (s : State) (tree : Tree (suc n) node)
        → n < suc fuel
        → Good s
        → (ltb target_level node.level ≡ true
            → Done
                (λ k. AnyOf (λ c. Holds n c k) tree.1.0)
                s
                (below_root
                  (λ c u. sync_root peers fuel target_level c u)
                  target_level
                  node
                  tree.1.0
                  s))
        → Done (Holds (suc n) node) s (sync_root peers (suc fuel) target_level node s)
    unfolding sync_root
    root_case n fuel target_level node s (level, (children, listed, below)) h g d =
        elim (Bool-cases (ltb target_level node.level)) [
          | inr low ↦
              moved _ s (sync_node peers (suc fuel) node s) _ (rw (low, sync_root) refl)
                (sync_node-Done n (suc fuel) node s h (level, (children, listed, below)) g)
          | inl up ↦
              moved _ s
                (below_root (λ c u. sync_root peers fuel target_level c u) target_level node
                  children s)
                _ (rw (up, sync_root) (rw listed refl)) (of_reply n node children s _ listed (d up))
        ]

    sync_root-Done :
        (n fuel target_level : ℕ) (node : Node) (s : State)
        → n < fuel
        → Tree (suc n) node
        → Good s
        → Done (Holds (suc n) node) s (sync_root peers fuel target_level node s)
    sync_root-Done n zero target_level node s h t g = absurd (omega arith)
    sync_root-Done zero (suc fuel) target_level node s h t g =
        root_case zero fuel target_level node s t h g
          (λ up. root_leaves _ target_level node t.1.0 s t.0 up t.1.2 g)
    sync_root-Done (suc n) (suc fuel) target_level node s h t g =
        root_case (suc n) fuel target_level node s t h g (λ up.
          root_each (suc n) _
            (λ c u tc gu. sync_root-Done n fuel target_level c u (omega arith) tc gu) target_level
            node t.1.0 s (ground arith) t.1.2 g)

    is_root-none : (node : Node) → node.key ≡ none → is_root peers node ≡ true
    is_root-none node e = rw e refl

    high : (n level : ℕ) → level ≡ suc n → (level == 0) ≡ false
    high n level e = ground arith

    run_sync-Done :
        (n fuel : ℕ) (s : State)
        → Tree n source_root
        → n ≤ fuel
        → source_root.key ≡ none
        → (target_root s).key ≡ none
        → Good s
        → Done (Holds n source_root) s (run_sync peers fuel s)
    unfolding run_sync
    run_sync-Done zero fuel s tree h source target g =
        moved _ s (ok s) _ (rw (source, target, tree.0) refl) (stays _ s g (λ k holds. absurd (cc)))
    run_sync-Done (suc n) fuel s tree h source target g =
        elim (Bool-cases (equal_nodes source_root (target_root s))) [
          | inl e ↦
              moved _ s (ok s) _
                (rw (is_root-none source_root source, is_root-none (target_root s) target)
                  (rw (high n source_root.level tree.0) (rw e refl)))
                (stays _ s g (λ k. laws.equal_root (suc n) s k g e tree))
          | inr e ↦
              moved _ s (sync_root peers fuel (target_root s).level source_root s) _
                (rw (is_root-none source_root source, is_root-none (target_root s) target)
                  (rw (high n source_root.level tree.0) (rw e refl)))
                (sync_root-Done n fuel (target_root s).level source_root s (omega arith) tree g)
        ]

    -- From a source that replies with a tree, as high as the fuel at most, a sync ends: it returns, and
    -- the target then has every key of the source, and every key that it had, or it throws an error
    -- that a read of the target or the consumer throws; so it ends also where the target changes
    -- while it is compared. A consumer that returns must have added the key, a target that finds a
    -- leaf have its key, and one that finds an equal node the keys below it. The roots have no key.
    pub run_sync-Complete :
        (n fuel : ℕ) (s : State)
        → Tree n source_root
        → n ≤ fuel
        → source_root.key ≡ none
        → (target_root s).key ≡ none
        → Good s
        → ((t : State) × (run_sync peers fuel s ≡ ok t)
            × ((k : Bytes) → Holds n source_root k → Has t k)
            × ((k : Bytes) → Has s k → Has t k))
          ⊎ Fails (run_sync peers fuel s)
    run_sync-Complete n fuel s tree h source target g =
        elim (run_sync-Done n fuel s tree h source target g) [
          | inl (t, e, gt, has, l) ↦ inl (t, e, has, l)
          | inr fails ↦ inr fails
        ]
