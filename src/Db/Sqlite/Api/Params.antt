-- ===== src/Db/Sqlite/Api/Params.antt =====
-- The parameters of a statement: packages/modeldb/src/sqlite/api.ts. Each column has one of its own.
use mathlib.Core.Path.{subst}
use canvas.Base.{
  bytes_eq-false-sym, or_false, ℕ, zero, suc, ◌+◌, ◌-◌, ◌*◌, ◌/◌, ◌%◌, ◌<◌, ltb, ◌≡◌, ◌≢◌, refl,
  sym, ap, ◌∙◌, true, false, some, List, [], ◌∷◌, ◌++◌, map, Str, bytes_eq, bytes_eq_iff,
  bytes_eq_self, filter, inl, inr, arith, Bool-cases, All, ap₂,
}
use canvas.Base.Maps.{lookup, has, Distinct}
use canvas.Db.Types.{Property, primary, primitive, reference, relation, property_name}
use canvas.Db.Sqlite.Roundtrip.{has_column, names}
use canvas.Db.Sqlite.Api.{decimal_fuel, decimal, param_name, params_from, or_empty}

-- The number that digits stand for, after some others.
digits_value : ℕ → Str → ℕ
digits_value n [] = n
digits_value n (c ∷ cs) = digits_value (n * 10 + (c - b'0')) cs

digits_value-append :
    (n : ℕ) (cs ds : Str) → digits_value n (cs ++ ds) ≡ digits_value (digits_value n cs) ds
unfolding digits_value
digits_value-append n [] ds = refl
digits_value-append n (c ∷ cs) ds = digits_value-append (n * 10 + (c - b'0')) cs ds

digits_value-decimal : (fuel n : ℕ) → n < fuel → digits_value 0 (decimal_fuel fuel n) ≡ n
unfolding decimal_fuel digits_value
digits_value-decimal zero n h = absurd (omega arith)
digits_value-decimal (suc fuel) n h = elim (Bool-cases (ltb n 10)) [
  | inl small ↦ rw small (omega arith)
  | inr large ↦ rw large (
      digits_value-append 0 (decimal_fuel fuel (n / 10)) ((b'0' + n % 10) ∷ [])
      ∙ ap (λ v. v * 10 + (b'0' + n % 10 - b'0'))
          (digits_value-decimal fuel (n / 10) (ground arith))
      ∙ omega arith)
]

decimal_inj : (i j : ℕ) → decimal i ≡ decimal j → i ≡ j
decimal_inj i j h =
    sym (digits_value-decimal (suc i) i (omega arith))
    ∙ ap (digits_value 0) h
    ∙ digits_value-decimal (suc j) j (omega arith)

param_name_inj : (i j : ℕ) → param_name i ≡ param_name j → i ≡ j
param_name_inj i j h = decimal_inj i j (tail (decimal i) (decimal j) h)
  where
    tail : (a b : Str) → ◌≡◌ {A = Str} (b'p' ∷ a) (b'p' ∷ b) → a ≡ b
    tail a b p = cc

param_name-ne : (i j : ℕ) → i ≢ j → bytes_eq (param_name i) (param_name j) ≡ false
param_name-ne i j ne = elim (Bool-cases (bytes_eq (param_name i) (param_name j))) [
  | inl e ↦ absurd (ne (param_name_inj i j ((bytes_eq_iff _ _).0 e)))
  | inr e ↦ e
]

abbrev params_of : List (Str × Str) → List Str
params_of = map (λ e. e.1)

has-params_from :
    (k i : ℕ) (ps : List Property)
    → k < i
    → has (param_name k) (params_of (params_from i ps)) ≡ false
unfolding has params_from
has-params_from k i [] h = refl
has-params_from k i (primary name ∷ ps) h =
    rw (param_name-ne i k (λ e. omega arith)) (has-params_from k (suc i) ps (omega arith))
has-params_from k i (primitive name type optional ∷ ps) h =
    rw (param_name-ne i k (λ e. omega arith)) (has-params_from k (suc i) ps (omega arith))
has-params_from k i (reference name target optional ∷ ps) h =
    rw (param_name-ne i k (λ e. omega arith)) (has-params_from k (suc i) ps (omega arith))
has-params_from k i (relation name target ∷ ps) h = has-params_from k (suc i) ps (omega arith)

params_from-Distinct : (i : ℕ) (ps : List Property) → Distinct (params_of (params_from i ps))
unfolding params_from
params_from-Distinct i [] = tt
params_from-Distinct i (primary name ∷ ps) =
    (has-params_from i (suc i) ps (omega arith), params_from-Distinct (suc i) ps)
params_from-Distinct i (primitive name type optional ∷ ps) =
    (has-params_from i (suc i) ps (omega arith), params_from-Distinct (suc i) ps)
params_from-Distinct i (reference name target optional ∷ ps) =
    (has-params_from i (suc i) ps (omega arith), params_from-Distinct (suc i) ps)
params_from-Distinct i (relation name target ∷ ps) = params_from-Distinct (suc i) ps

-- The parameter of a name, in a table of parameters.
abbrev pub param_in : List (Str × Str) → Str → Str
param_in params name = or_empty (lookup name params)

-- An entry for another name changes no parameter.
names-skip :
    (n q : Str) (rest : List (Str × Str)) (ps : List Property)
    → has n (map property_name ps) ≡ false
    → names (param_in ((n, q) ∷ rest)) ps ≡ names (param_in rest) ps
unfolding has lookup
names-skip n q rest [] h = refl
names-skip n q rest (p ∷ ps) h =
    let (ne, absent) = or_false (bytes_eq (property_name p) n) _ h in
    ap₂ ◌∷◌ (rw (bytes_eq-false-sym (property_name p) n ne) refl) (names-skip n q rest ps absent)

has-filter :
    (m : Str) (ps : List Property)
    → has m (map property_name ps) ≡ false
    → has m (map property_name (filter has_column ps)) ≡ false
unfolding has
has-filter m [] h = refl
has-filter m (p ∷ ps) h =
    let (ne, absent) = or_false (bytes_eq (property_name p) m) _ h in
    elim (Bool-cases (has_column p)) [
      | inl c ↦ rw (c, ne) (has-filter m ps absent)
      | inr c ↦ rw c (has-filter m ps absent)
    ]

module _ (n q : Str) (rest : List (Str × Str)) (ps : List Property) where
  -- A property with a column stands before some others.
  names-entry :
      has n (map property_name ps) ≡ false
      → names (param_in rest) (filter has_column ps) ≡ params_of rest
      → ◌≡◌ {A = List Str}
          (param_in ((n, q) ∷ rest) n ∷ names (param_in ((n, q) ∷ rest)) (filter has_column ps))
          (q ∷ params_of rest)
  unfolding lookup
  names-entry h e =
      ap₂ ◌∷◌ (rw (bytes_eq_self n) refl)
        (names-skip n q rest (filter has_column ps) (has-filter n ps h) ∙ e)

-- The columns of different names have the parameters of the table, in its order.
pub names-params_from :
    (i : ℕ) (ps : List Property)
    → Distinct (map property_name ps)
    → names (param_in (params_from i ps)) (filter has_column ps) ≡ params_of (params_from i ps)
unfolding params_from
names-params_from i [] d = refl
names-params_from i (primary name ∷ ps) d =
    names-entry name (param_name i) (params_from (suc i) ps) ps d.0
      (names-params_from (suc i) ps d.1)
names-params_from i (primitive name type optional ∷ ps) d =
    names-entry name (param_name i) (params_from (suc i) ps) ps d.0
      (names-params_from (suc i) ps d.1)
names-params_from i (reference name target optional ∷ ps) d =
    names-entry name (param_name i) (params_from (suc i) ps) ps d.0
      (names-params_from (suc i) ps d.1)
names-params_from i (relation name target ∷ ps) d = names-params_from (suc i) ps d.1

pub params-Distinct :
    (ps : List Property)
    → Distinct (map property_name ps)
    → Distinct (names (param_in (params_from 0 ps)) (filter has_column ps))
params-Distinct ps d = subst Distinct (sym (names-params_from 0 ps d)) (params_from-Distinct 0 ps)

-- A property with a column has a parameter.
abbrev pub HasParam : List (Str × Str) → Property → Type 0
HasParam params p = has_column p ≡ true → (q : Str) × (lookup (property_name p) params ≡ some q)

HasParam-cons :
    (n q : Str) (params : List (Str × Str)) (p : Property)
    → HasParam params p
    → HasParam ((n, q) ∷ params) p
unfolding lookup
HasParam-cons n q params p h c = elim (Bool-cases (bytes_eq n (property_name p))) [
  | inl e ↦ (q, rw e refl)
  | inr e ↦ (let (r, at) = h c in (r, rw e at))
]

All-HasParam-cons :
    (n q : Str) (params : List (Str × Str)) (ps : List Property)
    → All (HasParam params) ps
    → All (HasParam ((n, q) ∷ params)) ps
All-HasParam-cons n q params [] h = tt
All-HasParam-cons n q params (p ∷ ps) h =
    (HasParam-cons n q params p h.0, All-HasParam-cons n q params ps h.1)

pub params_from-HasParam : (i : ℕ) (ps : List Property) → All (HasParam (params_from i ps)) ps
unfolding params_from lookup
params_from-HasParam i [] = tt
params_from-HasParam i (primary name ∷ ps) = (
  λ c. (param_name i, rw (bytes_eq_self name) refl),
  All-HasParam-cons name (param_name i) _ ps (params_from-HasParam (suc i) ps),
)
params_from-HasParam i (primitive name type optional ∷ ps) = (
  λ c. (param_name i, rw (bytes_eq_self name) refl),
  All-HasParam-cons name (param_name i) _ ps (params_from-HasParam (suc i) ps),
)
params_from-HasParam i (reference name target optional ∷ ps) = (
  λ c. (param_name i, rw (bytes_eq_self name) refl),
  All-HasParam-cons name (param_name i) _ ps (params_from-HasParam (suc i) ps),
)
params_from-HasParam i (relation name target ∷ ps) =
    (λ c. absurd (cc), params_from-HasParam (suc i) ps)
