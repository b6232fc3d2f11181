-- ===== src/Base/Results.antt =====
-- Exceptions as values: `throw` carries the message of the error.
use Prim.Native.String.{String}
use mathlib.Core.Path.{◌≡◌, refl, subst}
use mathlib.Core.Bool.{Bool, true, false}

-- What a call does: it throws an error with a message, or returns.
pub data Result {ℓ} (A : Type ℓ) : Type ℓ where
  throw : (message : String) → Result A
  ok : (value : A) → Result A

module _ {ℓ κ} {A : Type ℓ} {B : Type κ} where
  infixl 5 ◌>>=◌
  -- What follows a call runs if the call returns.
  abbrev pub ◌>>=◌ : (call : Result A) (next : A → Result B) → Result B
  throw message >>= next = throw message
  ok value >>= next = next value

  -- Where a call and what follows it return, the call returns a value that leads to the result.
  pub >>=-eq-ok :
      (call : Result A) (next : A → Result B) {result : B}
      → call >>= next ≡ ok result
      → (value : A) × (call ≡ ok value) × (next value ≡ ok result)
  >>=-eq-ok (throw message) next returned = absurd (cc)
  >>=-eq-ok (ok value) next returned = (value, refl, returned)

-- `assert(condition, message)`, and what follows it.
abbrev pub assert : (condition : Bool) (message : String) → Result (Unit {0})
assert condition message = elim condition [ true ↦ ok tt | false ↦ throw message ]

module _ {ℓ} {B : Type ℓ} where
  infixl 5 ◌>>◌
  abbrev pub ◌>>◌ : (first : Result (Unit {0})) (second : Result B) → Result B
  first >> second = first >>= λ done. second

-- A call that returns.
abbrev pub Returns {ℓ} : {A : Type ℓ} → Result A → Type ℓ
Returns {A = A} r = (a : A) × (r ≡ ok a)

pub assert-eq-ok {ℓ} :
    {B : Type ℓ} (c : Bool) (e : String) (r : Result B) {b : B}
    → (assert c e >> r) ≡ ok b
    → r ≡ ok b
assert-eq-ok true e r h = h
assert-eq-ok false e r h = cc

pub ok_inj {ℓ} : {A : Type ℓ} {a b : A} → ok a ≡ ok b → a ≡ b
ok_inj h = cc

-- What holds of a call's value, if it returns.
abbrev pub OnOk {ℓ κ} : {A : Type ℓ} (P : A → Type κ) → Result A → Type κ
OnOk P (throw message) = Unit
OnOk P (ok value) = P value

pub OnOk-bind {ℓ κ μ ν} :
    {A : Type ℓ} {B : Type κ} (P : A → Type μ) (Q : B → Type ν) (m : Result A) (f : A → Result B)
    → OnOk P m
    → ((a : A) → m ≡ ok a → P a → OnOk Q (f a))
    → OnOk Q (m >>= f)
OnOk-bind P Q (throw message) f h k = tt
OnOk-bind P Q (ok a) f h k = k a refl h

pub OnOk-any {ℓ} : {A : Type ℓ} (m : Result A) → OnOk (λ a. Unit {0}) m
OnOk-any (throw message) = tt
OnOk-any (ok a) = tt

pub OnOk-both {ℓ κ μ} :
    {A : Type ℓ} (P : A → Type κ) (Q : A → Type μ) (m : Result A)
    → OnOk P m
    → OnOk Q m
    → OnOk (λ a. P a × Q a) m
OnOk-both P Q (throw message) h k = tt
OnOk-both P Q (ok a) h k = (h, k)

pub OnOk-map {ℓ κ μ} :
    {A : Type ℓ} (P : A → Type κ) (Q : A → Type μ) (m : Result A)
    → OnOk P m
    → ((a : A) → P a → Q a)
    → OnOk Q m
OnOk-map P Q (throw message) h k = tt
OnOk-map P Q (ok a) h k = k a h

pub OnOk-assert {ℓ κ} :
    {B : Type ℓ} (Q : B → Type κ) (c : Bool) (e : String) (r : Result B)
    → (c ≡ true → OnOk Q r)
    → OnOk Q (assert c e >> r)
OnOk-assert Q true e r h = h refl
OnOk-assert Q false e r h = tt

pub OnOk-at {ℓ κ} : {A : Type ℓ} (P : A → Type κ) (m : Result A) {a : A} → OnOk P m → m ≡ ok a → P a
OnOk-at P m h e = subst (λ r. OnOk P r) e h

pub OnOk-self {ℓ} : {A : Type ℓ} (m : Result A) → OnOk (λ a. m ≡ ok a) m
OnOk-self (throw message) = tt
OnOk-self (ok a) = refl

-- Two continuations that agree on what a call returns.
pub same_bind {ℓ κ} :
    {A : Type ℓ} {B : Type κ} (m : Result A) (f g : A → Result B)
    → ((a : A) → m ≡ ok a → f a ≡ g a)
    → m >>= f ≡ m >>= g
same_bind (throw message) f g h = refl
same_bind (ok a) f g h = h a refl

pub >>=_assoc {ℓ κ μ} :
    {A : Type ℓ} {B : Type κ} {C : Type μ} (m : Result A) (f : A → Result B) (g : B → Result C)
    → (m >>= f) >>= g ≡ m >>= (λ a. f a >>= g)
>>=_assoc (throw message) f g = refl
>>=_assoc (ok a) f g = refl
