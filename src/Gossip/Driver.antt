-- ===== src/Gossip/Driver.antt =====
-- packages/gossiplog/src/sync/driver.ts: the entries of a remote tree that the local one lacks. The
-- generator is run with its consumer, so the local tree may change between two entries.
pub mod Rule
pub mod Complete
pub mod Refine
mod Tests
mod LogTests
use canvas.Base.{
  ℕ, zero, suc, Bool, true, false, Option, none, some, List, [], ◌∷◌, Bytes, ltb, ◌==◌, Result, ok,
  throw, assert, ◌>>=◌, ◌>>◌,
}
use canvas.Gossip.Log.Types.{is_some, or_throw}

-- A `Node` of the okra package.
pub record Node : Type 0 where
  pub level : ℕ
  pub key : Option Bytes
  pub hash : Bytes
  pub value : Option Bytes

-- The two trees, and the consumer of the entries. `State` is what the consumer changes.
pub record Peers : Type 1 where
  pub State : Type 0
  pub source_root : Node
  pub get_children : ℕ → Option Bytes → Result (List Node)
  pub target_root : State → Node
  pub get_node : State → ℕ → Option Bytes → Result (Option Node)
  pub equal_nodes : Node → Node → Bool
  pub equal_arrays : Bytes → Bytes → Bool
  pub on_entry : Bytes → Bytes → State → Result State

module _ (peers : Peers) where
  open peers use {
    State, source_root, get_children, target_root, get_node, equal_nodes, equal_arrays, on_entry,
  }

  -- `assert(level === 0)`, and `assert(value !== undefined)`: the value.
  unfoldable pub leaf_value : Node → Result Bytes
  leaf_value node = do
    assert (node.level == 0) "unexpected leaf level"
    or_throw node.value "missing leaf entry value"

  -- A child in the loop of `syncRoot`, by its key.
  abbrev pub yield_child : Option Bytes → Node → State → Result State
  yield_child none child s = ok s
  yield_child (some key) child s = do value ← leaf_value child; on_entry key value s

  -- `targetLevel === 0 && sourceNode.level === 1`: every entry is yielded.
  unfoldable pub yield_all : List Node → State → Result State
  unfolding leaf_value
  yield_all [] s = ok s
  yield_all (child ∷ children) s = do s' ← yield_child child.key child s; yield_all children s'

  -- An entry and the target's leaf with its key: on a conflict the driver only logs.
  abbrev pub compare_leaf :
      Option Node → (key value : Bytes) → (hash : Bytes) → State → Result State
  compare_leaf none key value hash s = on_entry key value s
  compare_leaf (some leaf) key value hash s = elim (equal_arrays hash leaf.hash) [
    | true ↦ ok s
    | false ↦ ok s
  ]

  -- A child in the loop of `syncNode` at level 1, by its key.
  abbrev pub sync_leaf : Option Bytes → Node → State → Result State
  sync_leaf none child s = ok s
  sync_leaf (some key) child s = do
    value ← leaf_value child
    leaf ← get_node s 0 (some key)
    compare_leaf leaf key value child.hash s

  unfoldable pub sync_leaves : List Node → State → Result State
  unfolding leaf_value
  sync_leaves [] s = ok s
  sync_leaves (child ∷ children) s = do s' ← sync_leaf child.key child s; sync_leaves children s'

  -- `for (const sourceChild of children) yield* visit(sourceChild)`
  unfoldable pub sync_each :
      (visit : Node → State → Result State) → List Node → State → Result State
  sync_each visit [] s = ok s
  sync_each visit (child ∷ children) s = do s' ← visit child s; sync_each visit children s'

  -- `targetNode !== null && equalNodes(sourceNode, targetNode)`
  abbrev pub is_equal : Node → Option Node → Bool
  is_equal node none = false
  is_equal node (some target) = equal_nodes node target

  -- `syncNode`
  unfoldable pub sync_node : ℕ → Node → State → Result State
  unfolding sync_leaves sync_each
  sync_node zero node s = throw "out of fuel"
  sync_node (suc fuel) node s = do
    target ← get_node s node.level node.key
    elim (is_equal node target) [
      | true ↦ ok s
      | false ↦ do
        children ← get_children node.level node.key
        elim (ltb 1 node.level) [
          | true ↦ sync_each (λ child t. sync_node fuel child t) children s
          | false ↦ elim (node.level == 1) [ true ↦ sync_leaves children s | false ↦ ok s ]
        ]
    ]

  -- `syncRoot`
  unfoldable pub sync_root : ℕ → (target_level : ℕ) → Node → State → Result State
  unfolding yield_all sync_each sync_node
  sync_root zero target_level node s = throw "out of fuel"
  sync_root (suc fuel) target_level node s = elim (ltb target_level node.level) [
    | false ↦ sync_node (suc fuel) node s
    | true ↦ do
      children ← get_children node.level node.key
      elim (target_level == 0) [
        | false ↦ sync_each (λ child t. sync_root fuel target_level child t) children s
        | true ↦ elim (node.level == 1) [
          | true ↦ yield_all children s
          | false ↦ sync_each (λ child t. sync_root fuel target_level child t) children s
        ]
      ]
  ]

  -- `root.key === null`
  abbrev pub is_root : Node → Bool
  is_root node = elim node.key [ none ↦ true | some key ↦ false ]

  -- `sync`, with its consumer.
  unfoldable pub run_sync : ℕ → State → Result State
  unfolding sync_root
  run_sync fuel s = do
    assert (is_root source_root) "invalid source root"
    assert (is_root (target_root s)) "invalid target root"
    elim (source_root.level == 0) [
      | true ↦ ok s
      | false ↦ elim (equal_nodes source_root (target_root s)) [
        | true ↦ ok s
        | false ↦ sync_root fuel (target_root s).level source_root s
      ]
    ]
