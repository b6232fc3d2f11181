-- ===== src/Gossip/Log/Ancestors.antt =====
-- The ancestor index: packages/gossiplog/src/AbstractGossipLog.ts, and getAncestorClocks of
-- packages/gossiplog/src/utils.ts.
use canvas.Base.Int.{ℤ, pos, negsuc, ◌-ℤ◌, pos_part}
use canvas.Base.{
  ℕ, zero, suc, ◌/◌, Bool, true, false, not, Option, none, some, List, [], ◌∷◌, map, Str, Bytes,
  bytes_eq, get_elem?, ltb, leb, if◌then◌else◌, Result, ok, throw, assert, ◌>>=◌, ◌>>◌,
}
use canvas.Base.Maps.{lookup, has, add}
use canvas.Gossip.Clock.{decode_clock, shl32}
use canvas.Gossip.Log.Types.{Txn, or_throw}

abbrev pub positive : ℤ → Option ℕ
positive (pos zero) = none
positive (pos (suc n)) = some (suc n)
positive (negsuc n) = none

-- The `while (true)` of `getAncestorClocks`, from a counter.
unfoldable pub ancestor_clocks : ℕ → ℕ → ℕ → Result (List ℕ)
unfolding ◌-ℤ◌
ancestor_clocks zero i clock = throw "out of fuel"
ancestor_clocks (suc fuel) i clock = elim (positive (pos clock -ℤ shl32 1 i)) [
  | none ↦ ok []
  | some ancestor ↦ do rest ← ancestor_clocks fuel (suc i) clock; ok (ancestor ∷ rest)
]

-- `getAncestorClocks`
unfoldable pub get_ancestor_clocks : ℕ → Result (List ℕ)
unfolding ancestor_clocks
get_ancestor_clocks clock = ancestor_clocks 31 0 clock

-- `Math.floor(Math.log2(n))`, for n below 2^32.
unfoldable pub log2_fuel : ℕ → ℕ → ℕ
log2_fuel zero n = 0
log2_fuel (suc fuel) n = let rest = log2_fuel fuel (n / 2) in if ltb n 2 then 0 else suc rest

abbrev pub log2 : ℕ → ℕ
log2 n = log2_fuel 32 n

abbrev pub le_ℤ : ℤ → ℤ → Bool
le_ℤ (pos a) (pos b) = leb a b
le_ℤ (pos a) (negsuc b) = false
le_ℤ (negsuc a) (pos b) = true
le_ℤ (negsuc a) (negsuc b) = leb b a

-- `encodeId` and `decodeId`.
module _ (encode_id : Str → Bytes) (decode_id : Bytes → Str) where
  abbrev pub clock_of : Bytes → ℤ
  clock_of key = (decode_clock key).0

  -- The loop of `#getAncestors` over the links; `visit` is the call for one of them. A link that was
  -- visited ends the loop.
  unfoldable pub visit_links :
      (visit : Bytes → List Str × List Str → Result (List Str × List Str))
      → ℕ
      → List Bytes
      → List Str × List Str
      → Result (List Str × List Str)
  unfolding decode_clock has add
  visit_links visit at_or_before [] found = ok found
  visit_links visit at_or_before (key ∷ keys) (results, visited) =
      elim (le_ℤ (clock_of key) (pos at_or_before)) [
        | true ↦ visit_links visit at_or_before keys (add (decode_id key) results, visited)
        | false ↦ elim (has (decode_id key) visited) [
          | true ↦ ok (results, visited)
          | false ↦ do
            found ← visit key (results, add (decode_id key) visited)
            visit_links visit at_or_before keys found
        ]
      ]

  -- `#getAncestors`, with its sets of results and of visited ids.
  unfoldable pub get_ancestors :
      ℕ → Txn → Bytes → ℕ → List Str × List Str → Result (List Str × List Str)
  unfolding visit_links log2_fuel decode_clock ◌-ℤ◌ lookup
  get_ancestors zero txn key at_or_before found = throw "out of fuel"
  get_ancestors (suc fuel) txn key at_or_before found = do
    assert (ltb 0 at_or_before) "expected atOrBefore > 0"
    assert (not (le_ℤ (clock_of key) (pos at_or_before))) "expected atOrBefore < clock"
    value ← or_throw (lookup key txn.ancestors) "key not found in ancestor index"
    links ←
        or_throw (get_elem? value (log2 (pos_part (clock_of key -ℤ pos at_or_before))))
          "links is not iterable"
    visit_links (λ k f. get_ancestors fuel txn k at_or_before f) at_or_before links found

  -- The loop of `isAncestor` over the links; `visit` is the call for one of them.
  unfoldable pub any_link :
      (visit : Str → List Str → Result (Bool × List Str))
      → List Bytes
      → List Str
      → Result (Bool × List Str)
  unfolding has add
  any_link visit [] visited = ok (false, visited)
  any_link visit (key ∷ keys) visited = elim (has (decode_id key) visited) [
    | true ↦ any_link visit keys visited
    | false ↦ do
      (found, visited') ← visit (decode_id key) (add (decode_id key) visited)
      (let rest = any_link visit keys visited' in if found then ok (true, visited') else rest)
  ]

  -- `isAncestor`, with its set of visited ids.
  unfoldable pub is_ancestor : ℕ → Txn → (id ancestor : Str) → List Str → Result (Bool × List Str)
  unfolding any_link log2_fuel decode_clock ◌-ℤ◌ lookup bytes_eq
  is_ancestor zero txn id ancestor visited = throw "out of fuel"
  is_ancestor (suc fuel) txn id ancestor visited = elim (bytes_eq id ancestor) [
    | true ↦ ok (true, visited)
    | false ↦ elim (le_ℤ (clock_of (encode_id id)) (clock_of (encode_id ancestor))) [
      | true ↦ ok (false, visited)
      | false ↦ do
        value ← or_throw (lookup (encode_id id) txn.ancestors) "key not found in ancestor index"
        links ←
            or_throw
              (get_elem? value
                (log2 (pos_part (clock_of (encode_id id) -ℤ clock_of (encode_id ancestor)))))
              "links is not iterable"
        any_link (λ k v. is_ancestor fuel txn k ancestor v) links visited
    ]
  ]

  abbrev pub fuel_of : Bytes → ℕ
  fuel_of key = suc (pos_part (clock_of key))

  -- The links of one level, from those of the level below; `before` is that level's clock.
  unfoldable pub next_links :
      Txn → (before ancestor_clock : ℕ) → List Bytes → List Str → Result (List Str)
  unfolding get_ancestors decode_clock add
  next_links txn before ancestor_clock [] links = ok links
  next_links txn before ancestor_clock (child ∷ children) links =
      elim (le_ℤ (clock_of child) (pos ancestor_clock)) [
        | true ↦ next_links txn before ancestor_clock children (add (decode_id child) links)
        | false ↦ do
          assert (le_ℤ (clock_of child) (pos before)) "expected childClock <= ancestorClocks[i - 1]"
          (links', visited) ← get_ancestors (fuel_of child) txn child ancestor_clock (links, [])
          next_links txn before ancestor_clock children links'
      ]

  -- The loop over `ancestorClocks.entries()`, from level 1 on.
  unfoldable pub level_links :
      Txn → (before : ℕ) → List ℕ → (below : List Bytes) → Result (List (List Bytes))
  unfolding next_links
  level_links txn before [] below = ok []
  level_links txn before (clock ∷ clocks) below = do
    links ← next_links txn before clock below []
    rest ← level_links txn clock clocks (map encode_id links)
    ok (map encode_id links ∷ rest)

  unfoldable pub ancestor_links : Txn → List ℕ → (parents : List Bytes) → Result (List (List Bytes))
  unfolding level_links
  ancestor_links txn [] parents = ok []
  ancestor_links txn (clock ∷ clocks) parents = do
    rest ← level_links txn clock clocks parents
    ok (parents ∷ rest)
