-- ===== src/Base/Maps.antt =====
-- `Map<string, V>` as an association list and `Set<string>` as a list, both in insertion order.
-- Every law is an equation on what can be read.
use mathlib.Core.Path.{◌≡◌, refl}
use mathlib.Core.Bool.{Bool, false, ◌&&◌, ◌||◌, not}
use mathlib.Core.Option.{Option, none, some}
use mathlib.Core.Logic.{inl, inr}
use mathlib.Core.List.{List, [], ◌∷◌}
use native.Mathlib.Omega.{arith}
use canvas.Base.Tests.{Bool-cases, if◌then◌else◌}
use canvas.Base.Arrays.{Str, bytes_eq, bytes_eq_iff}

module _ {ℓ} {V : Type ℓ} where
  -- `m.get(k)`
  unfoldable pub lookup : Str → List (Str × V) → Option V
  lookup k [] = none
  lookup k ((j, v) ∷ m) = if bytes_eq j k then some v else lookup k m

  -- `m.set(k, v)`: a key keeps its place.
  unfoldable pub put : Str → V → List (Str × V) → List (Str × V)
  put k v [] = (k, v) ∷ []
  put k v ((j, w) ∷ m) = if bytes_eq j k then (k, v) ∷ m else (j, w) ∷ put k v m

  -- `m.delete(k)`
  unfoldable pub remove : Str → List (Str × V) → List (Str × V)
  remove k [] = []
  remove k ((j, w) ∷ m) = if bytes_eq j k then remove k m else (j, w) ∷ remove k m

  pub lookup-put :
      (k j : Str) (v : V) (m : List (Str × V))
      → lookup j (put k v m) ≡ (if bytes_eq k j then some v else lookup j m)
  unfolding lookup put
  lookup-put k j v [] = refl
  lookup-put k j v ((i, w) ∷ m) =
      ground (arith, bytes_eq_iff k j, bytes_eq_iff i k, bytes_eq_iff i j, lookup-put k j v m)

  pub lookup-remove :
      (k j : Str) (m : List (Str × V))
      → lookup j (remove k m) ≡ (if bytes_eq k j then none else lookup j m)
  unfolding lookup remove
  lookup-remove k j [] = ground arith
  lookup-remove k j ((i, w) ∷ m) =
      ground (arith, bytes_eq_iff k j, bytes_eq_iff i k, bytes_eq_iff i j, lookup-remove k j m)

-- `s.has(x)`, `array.includes(x)`
unfoldable pub has : Str → List Str → Bool
has x [] = false
has x (y ∷ s) = bytes_eq y x || has x s

-- `s.add(x)`
unfoldable pub add : Str → List Str → List Str
add x [] = x ∷ []
add x (y ∷ s) = if bytes_eq y x then y ∷ s else y ∷ add x s

-- `s.delete(x)`
unfoldable pub delete : Str → List Str → List Str
delete x [] = []
delete x (y ∷ s) = if bytes_eq y x then delete x s else y ∷ delete x s

-- No element twice.
abbrev pub Distinct : List Str → Type 0
Distinct [] = Unit
Distinct (x ∷ s) = (has x s ≡ false) × Distinct s

pub has-add : (x y : Str) (s : List Str) → has y (add x s) ≡ (bytes_eq x y || has y s)
unfolding has add
has-add x y [] = refl
has-add x y (z ∷ s) =
    ground (arith, bytes_eq_iff z x, bytes_eq_iff z y, bytes_eq_iff x y, has-add x y s)

pub has-delete : (x y : Str) (s : List Str) → has y (delete x s) ≡ (not (bytes_eq x y) && has y s)
unfolding has delete
has-delete x y [] = ground arith
has-delete x y (z ∷ s) =
    ground (arith, bytes_eq_iff z x, bytes_eq_iff z y, bytes_eq_iff x y, has-delete x y s)

pub delete_absent : (x : Str) (s : List Str) → has x s ≡ false → delete x s ≡ s
unfolding has delete
delete_absent x [] h = refl
delete_absent x (y ∷ s) h = ground (arith, delete_absent x s)

pub Distinct-add : (x : Str) (s : List Str) → Distinct s → Distinct (add x s)
unfolding has add
Distinct-add x [] d = (refl, tt)
Distinct-add x (y ∷ s) d = elim (Bool-cases (bytes_eq y x)) [
  | inl e ↦ rw e d
  | inr e ↦ rw e (
      (
        rw (has-add x y s) (ground (arith, bytes_eq_iff x y, bytes_eq_iff y x)),
        Distinct-add x s d.1,
      ))
]
