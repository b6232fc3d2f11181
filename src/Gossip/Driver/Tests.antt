-- ===== src/Gossip/Driver/Tests.antt =====
-- A tree of two entries, and the theorems on a sync of it: packages/gossiplog/src/sync/driver.ts.
use mathlib.Core.Path.{subst}
use Prim.Native.String.{String}
use canvas.Base.{
  some_inj, ℕ, zero, suc, ◌≡◌, refl, sym, ◌∙◌, ◌⊎◌, inl, inr, true, ◌&&◌, ◌||◌, Option, none, some,
  List, [], ◌∷◌, Bytes, bytes_eq, bytes_eq_self, Result, ok, throw, ok_inj, OnOk, if◌then◌else◌,
  arith, Bool-cases,
}
use canvas.Base.Maps.{has, add, has-add}
use canvas.Gossip.Driver.{Node, Peers, run_sync}
use canvas.Gossip.Driver.Rule.{run_sync-Inv}
use canvas.Gossip.Driver.Complete.{Tree, Holds, AnyOf, Laws, Fails, run_sync-Complete}

abbrev leaf : ℕ → Node
leaf n = record { level = 0; key = some (n ∷ []); hash = n ∷ []; value = some (n ∷ n ∷ []) }

abbrev root : Node
root = record { level = 1; key = none; hash = 9 ∷ []; value = none }

-- The target is the list of its keys.
abbrev target_root : List Bytes → Node
target_root s = record {
  level = 1;
  key = none;
  hash = if has (1 ∷ []) s && has (2 ∷ []) s then 9 ∷ [] else [];
  value = none;
}

abbrev children_of : ℕ → Option Bytes → Result (List Node)
children_of (suc zero) none = ok (leaf 1 ∷ leaf 2 ∷ [])
children_of _ _ = ok []

abbrev node_of : List Bytes → ℕ → Option Bytes → Result (Option Node)
node_of s zero (some key) = ok (if has key s then some (leaf 1) else none)
node_of s _ _ = ok none

-- A consumer that does not take every key.
abbrev consume : Bytes → Bytes → List Bytes → Result (List Bytes)
consume [] value s = throw "empty key"
consume (c ∷ key) value s = ok (add (c ∷ key) s)

abbrev IsError : String → Type 0
IsError m = m ≡ "empty key"

abbrev peers : Peers
peers = record {
  State = List Bytes;
  source_root = root;
  get_children = children_of;
  target_root = target_root;
  get_node = node_of;
  equal_nodes = λ a b. bytes_eq a.hash b.hash;
  equal_arrays = bytes_eq;
  on_entry = consume;
}

abbrev Good : List Bytes → Type 0
Good s = Unit

abbrev Has : List Bytes → Bytes → Type 0
Has s key = has key s ≡ true

reads :
    (s : List Bytes) (level : ℕ) (key : Option Bytes)
    → (o : Option Node) × (node_of s level key ≡ ok o)
reads s zero none = (none, refl)
reads s zero (some key) = (if has key s then some (leaf 1) else none, refl)
reads s (suc level) none = (none, refl)
reads s (suc level) (some key) = (none, refl)

found : (s : List Bytes) (key : Bytes) (l : Node) → node_of s 0 (some key) ≡ ok (some l) → Has s key
found s key l e = elim (Bool-cases (has key s)) [ inl h ↦ h | inr h ↦ absurd (differ (rw h at e)) ]
  where
    differ : ◌≡◌ {A = Result (Option Node)} (ok none) (ok (some l)) → ⊥
    differ p = cc

no_node :
    (s : List Bytes) (n level : ℕ) (key : Option Bytes) (target : Node)
    → level ≡ suc n
    → node_of s level key ≡ ok (some target)
    → ⊥
no_node s n zero key target e h = absurd (omega arith)
no_node s n (suc level) none target e h = cc
no_node s n (suc level) (some k) target e h = cc

equal_node :
    (n : ℕ) (node target : Node) (s : List Bytes) (key : Bytes)
    → node_of s node.level node.key ≡ ok (some target)
    → Tree peers n node
    → Holds peers n node key
    → Has s key
equal_node zero node target s key e (level, _) h = found s key target (
    subst (λ k. node_of s 0 k ≡ ok (some target)) h
      (subst (λ l. node_of s l node.key ≡ ok (some target)) level e))
equal_node (suc n) node target s key e t h = absurd (no_node s n node.level node.key target t.0 e)

both_keys :
    (s : List Bytes)
    → bytes_eq (9 ∷ []) (target_root s).hash ≡ true
    → Has s (1 ∷ []) × Has s (2 ∷ [])
unfolding bytes_eq
both_keys s e = ground arith

equal_root :
    (n : ℕ) (s : List Bytes) (key : Bytes)
    → bytes_eq (9 ∷ []) (target_root s).hash ≡ true
    → Tree peers n root
    → Holds peers n root key
    → Has s key
equal_root zero s key e t h = absurd (cc)
equal_root (suc zero) s key e t (children, listed, any) =
    in_both key (subst (λ cs. AnyOf peers (λ c. c.key ≡ some key) cs) (ok_inj (sym listed)) any)
  where
    is_key :
        (n : ℕ) (k : Bytes)
        → ◌≡◌ {A = Option Bytes} (some (n ∷ [])) (some k)
        → Has s (n ∷ [])
        → Has s k
    is_key n k p h = subst (Has s) (some_inj p) h

    in_both : (k : Bytes) → AnyOf peers (λ c. c.key ≡ some k) (leaf 1 ∷ leaf 2 ∷ []) → Has s k
    in_both k (inl p) = is_key 1 k p (both_keys s e).0
    in_both k (inr (inl p)) = is_key 2 k p (both_keys s e).1
    in_both k (inr (inr p)) = elim p [ ]
equal_root (suc (suc n)) s key e t h = absurd (omega (arith, t.0))

laws : Laws peers Good Has IsError
laws = record {
  reads = λ s level key g. inl (reads s level key);
  equal_node = λ n node target s key g e _ t h. equal_node n node target s key e t h;
  equal_root = λ n s key g e t h. equal_root n s key e t h;
  found = λ s key l g e. found s key l e;
  consumes = λ key value s g. consumes key value s;
}
  where
    ap_or : (key : Bytes) (s : List Bytes) → (bytes_eq key key || has key s) ≡ true
    ap_or key s = rw (bytes_eq_self key) refl

    keeps : (k key : Bytes) (s : List Bytes) → has k s ≡ true → (bytes_eq key k || has k s) ≡ true
    keeps k key s h = ground arith

    consumes :
        (key value : Bytes) (s : List Bytes)
        → ((t : List Bytes) × (consume key value s ≡ ok t)
            × Unit {0}
            × Has t key
            × ((k : Bytes) → Has s k → Has t k))
          ⊎ ((m : String) × (consume key value s ≡ throw m) × IsError m)
    consumes [] value s = inr ("empty key", refl, refl)
    consumes (c ∷ key) value s = inl (
      add (c ∷ key) s,
      refl,
      tt,
      has-add (c ∷ key) (c ∷ key) s ∙ ap_or (c ∷ key) s,
      λ k h. has-add (c ∷ key) k s ∙ keeps k (c ∷ key) s h,
    )

root-Tree : Tree peers 1 root
root-Tree = (
  refl,
  (leaf 1 ∷ leaf 2 ∷ [], refl, ((refl, (1 ∷ 1 ∷ [], refl)), ((refl, (2 ∷ 2 ∷ [], refl)), tt))),
)

run_sync_result : run_sync peers 1 ((2 ∷ []) ∷ []) ≡ ok ((2 ∷ []) ∷ (1 ∷ []) ∷ [])
unfolding run_sync has add bytes_eq
run_sync_result = refl

run_sync-Complete_example :
    ((t : List Bytes) × (run_sync peers 1 ((2 ∷ []) ∷ []) ≡ ok t)
      × ((k : Bytes) → Holds peers 1 root k → Has t k)
      × ((k : Bytes) → Has ((2 ∷ []) ∷ []) k → Has t k))
    ⊎ Fails peers Good Has IsError laws (run_sync peers 1 ((2 ∷ []) ∷ []))
run_sync-Complete_example =
    run_sync-Complete peers Good Has IsError laws 1 1 ((2 ∷ []) ∷ []) root-Tree (omega arith) refl
      refl tt

-- The key 2 stays the first.
abbrev StartsWith2 : List Bytes → Type 0
StartsWith2 [] = ⊥
StartsWith2 (k ∷ ks) = k ≡ 2 ∷ []

add-StartsWith2 : (key : Bytes) (s : List Bytes) → StartsWith2 s → StartsWith2 (add key s)
unfolding add
add-StartsWith2 key [] h = elim h [ ]
add-StartsWith2 key (k ∷ ks) h = elim (Bool-cases (bytes_eq k key)) [
  | inl e ↦ rw e h
  | inr e ↦ rw e h
]

consume-StartsWith2 :
    (key value : Bytes) (s : List Bytes) → StartsWith2 s → OnOk StartsWith2 (consume key value s)
consume-StartsWith2 [] value s h = tt
consume-StartsWith2 (c ∷ key) value s h = add-StartsWith2 (c ∷ key) s h

run_sync-Inv_example : OnOk StartsWith2 (run_sync peers 1 ((2 ∷ []) ∷ []))
run_sync-Inv_example =
    run_sync-Inv peers 1 ((2 ∷ []) ∷ []) StartsWith2
      (λ key value t entry lacks h. consume-StartsWith2 key value t h) refl
