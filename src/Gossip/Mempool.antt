-- ===== src/Gossip/Mempool.antt =====
-- packages/gossiplog/src/Mempool.ts: messages that wait for their parents.
pub mod Laws
pub mod Observe
mod Tests
use canvas.Base.{Bool, Option, none, some, String, List, [], ◌∷◌, Str, Result, ok, throw, ◌>>=◌}
use canvas.Base.Maps.{lookup, put, remove, add, delete}

pub record Mempool {ℓ} (T : Type ℓ) : Type ℓ where
  pub values : List (Str × T)
  pub missing_parents : List (Str × List Str)
  pub waiting_children : List (Str × List Str)

abbrev pub empty {ℓ} : {T : Type ℓ} → Mempool T
empty = record { values = []; missing_parents = []; waiting_children = [] }

-- One round of the loop of `add`.
unfoldable pub add_child : Str → Str → List (Str × List Str) → List (Str × List Str)
add_child id parent waiting = elim (lookup parent waiting) [
  | none ↦ put parent (id ∷ []) waiting
  | some children ↦ put parent (add id children) waiting
]

unfoldable pub add_children : Str → List Str → List (Str × List Str) → List (Str × List Str)
add_children id [] waiting = waiting
add_children id (parent ∷ parents) waiting = add_children id parents (add_child id parent waiting)

module _ {ℓ} {T : Type ℓ} where
  -- `Mempool.add`
  unfoldable pub insert : Str → T → List Str → Mempool T → Mempool T
  insert id value missing m = record {
    values = put id value m.values;
    missing_parents = put id missing m.missing_parents;
    waiting_children = add_children id missing m.waiting_children;
  }

  -- The test `missingParents.size === 0` of `observe`, after the delete.
  unfoldable pub settle : Str → List Str → Mempool T → Result (Option (Str × T) × Mempool T)
  settle child (p ∷ left) m =
      ok (none, record m { missing_parents = put child (p ∷ left) m.missing_parents })
  settle child [] m = elim (lookup child m.values) [
    | none ↦ throw "expected value !== undefined"
    | some value ↦ ok (
      some (child, value),
      record m { values = remove child m.values; missing_parents = remove child m.missing_parents },
    )
  ]

  -- One round of the loop of `observe`: what it yields, if it does.
  unfoldable pub release : Str → Str → Mempool T → Result (Option (Str × T) × Mempool T)
  unfolding settle
  release id child m = elim (lookup child m.missing_parents) [
    | none ↦ throw "expected missingParents !== undefined"
    | some missing ↦ settle child (delete id missing) m
  ]

  abbrev pub yielded : Option (Str × T) → List (Str × T) → List (Str × T)
  yielded none rest = rest
  yielded (some entry) rest = entry ∷ rest

  unfoldable pub release_all : Str → List Str → Mempool T → Result (List (Str × T) × Mempool T)
  release_all id [] m = ok ([], m)
  release_all id (child ∷ children) m = do
    (entry, m') ← release id child m
    (rest, m'') ← release_all id children m'
    ok (yielded entry rest, m'')

  -- `observe`, run to its end: what it yields, in order.
  unfoldable pub observe : Str → Mempool T → Result (List (Str × T) × Mempool T)
  unfolding release_all
  observe id m = elim (lookup id m.waiting_children) [
    | none ↦ ok ([], m)
    | some children ↦
        release_all id children (record m { waiting_children = remove id m.waiting_children })
  ]
