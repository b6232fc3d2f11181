-- ===== src/Runtime/History.antt =====
-- The search of getModelValue ends: packages/core/src/runtime/AbstractRuntime.ts.
use canvas.Base.{
  Result, ok, throw, ◌>>=◌, ℕ, zero, suc, ◌+◌, ◌≤◌, ◌<◌, Bool, true, false, not, ◌&&◌, ◌||◌, ◌≡◌,
  refl, ap, sym, ◌∙◌, arith, Option, none, some, List, [], ◌∷◌, Str, Bytes, bytes_eq, bytes_eq_iff,
  bytes_lt, bytes_lt_irrefl, bytes_lt_trans, if◌then◌else◌, length, any, inl, inr, ◌⊎◌, Bool-cases,
  Option-cases,
}
use Prim.Native.String.{String}
use canvas.Gossip.Log.Types.{Txn}
use canvas.Runtime.State.{Env, later, last_effect}
use canvas.Runtime.Consumer.{find_value, any_ancestor, third_segment}

abbrev in_bounds : (lower upper k : Str) → Bool
in_bounds lower upper k = not (bytes_lt k lower) && bytes_lt k upper

abbrev one_if : Bool → ℕ
one_if true = 1
one_if false = 0

-- The effects of a key range.
count : (lower upper : Str) → List (Str × Option Bytes) → ℕ
count lower upper [] = 0
count lower upper (e ∷ es) = one_if (in_bounds lower upper e.0) + count lower upper es

count_all : (lower upper : Str) (es : List (Str × Option Bytes)) → count lower upper es ≤ length es
unfolding count
count_all lower upper [] = omega arith
count_all lower upper (e ∷ es) = elim (Bool-cases (in_bounds lower upper e.0)) [
  | inl b ↦ rw b (omega (arith, count_all lower upper es))
  | inr b ↦ rw b (omega (arith, count_all lower upper es))
]

fewer_bits : (a b : Bool) → (a ≡ true → b ≡ true) → one_if a ≤ one_if b
fewer_bits true b h = ground arith
fewer_bits false b h = omega arith

narrow :
    (lower upper k j : Str)
    → bytes_lt k upper ≡ true
    → in_bounds lower k j ≡ true
    → in_bounds lower upper j ≡ true
narrow lower upper k j u h = ground (arith, bytes_lt_trans j k upper)

count_le :
    (lower upper k : Str) (es : List (Str × Option Bytes))
    → bytes_lt k upper ≡ true
    → count lower k es ≤ count lower upper es
unfolding count
count_le lower upper k [] u = omega arith
count_le lower upper k (e ∷ es) u = omega (
  arith,
  fewer_bits (in_bounds lower k e.0) (in_bounds lower upper e.0) (narrow lower upper k e.0 u),
  count_le lower upper k es u,
)

-- A range that ends at one of its effects has fewer.
count_less :
    (lower upper k : Str) (es : List (Str × Option Bytes))
    → in_bounds lower upper k ≡ true
    → any (λ e. bytes_eq e.0 k) es ≡ true
    → count lower k es < count lower upper es
unfolding count
count_less lower upper k [] u h = absurd (cc)
count_less lower upper k ((j, v) ∷ es) u h = elim (Bool-cases (bytes_eq j k)) [
  | inl b ↦
      let q : j ≡ k = (bytes_eq_iff j k).0 b in
      let out : in_bounds lower k j ≡ false = ground (arith, bytes_lt_irrefl k, q) in
      let into : in_bounds lower upper j ≡ true = ap (in_bounds lower upper) q ∙ u in
      rw (out, into) (omega (arith, count_le lower upper k es (ground arith)))
  | inr b ↦ omega (
    arith,
    fewer_bits (in_bounds lower k j) (in_bounds lower upper j)
        (narrow lower upper k j (ground arith)),
    count_less lower upper k es u (ground arith),
  )
]

later_cases :
    (best : Option (Str × Option Bytes)) (e : Str × Option Bytes)
    → (later best e ≡ some e) ⊎ (later best e ≡ best)
later_cases none e = inl refl
later_cases (some (j, w)) (k, v) = elim (Bool-cases (bytes_lt j k)) [
  | inl b ↦ inl (rw b refl)
  | inr b ↦ inr (rw b refl)
]

last_effect_sound :
    (lower upper : Str) (es : List (Str × Option Bytes)) (best : Option (Str × Option Bytes))
    {k : Str} {v : Option Bytes}
    → last_effect lower upper es best ≡ some (k, v)
    → (best ≡ some (k, v))
      ⊎ ((any (λ e. bytes_eq e.0 k) es ≡ true) × (in_bounds lower upper k ≡ true))
unfolding last_effect
last_effect_sound lower upper [] best h = inl h
last_effect_sound lower upper ((j, w) ∷ es) best {k} {v} h =
    elim (Bool-cases (in_bounds lower upper j)) [
      | inr b ↦ elim (last_effect_sound lower upper es best (rw b at h)) [
        | inl e ↦ inl e
        | inr (m, i) ↦ inr (rw m (ground arith), i)
      ]
      | inl b ↦ elim (last_effect_sound lower upper es (later best (j, w)) (rw b at h)) [
        | inr (m, i) ↦ inr (rw m (ground arith), i)
        | inl e ↦ elim (later_cases best (j, w)) [
          | inr s ↦ inl (sym s ∙ e)
          | inl s ↦
              let q : j ≡ k = cc in
              inr (
                ap (λ b. b || any (λ e. bytes_eq e.0 k) es) ((bytes_eq_iff j k).1 q),
                ap (in_bounds lower upper) (sym q) ∙ b,
              )
        ]
      ]
    ]

module _ (env : Env) where
  module _ (txn : Txn) (lower : Str) (effects : List (Str × Option Bytes))
      (parents : List Str) where
    -- What a search below an upper bound comes to. A search that goes on does so below the key of the
    -- last effect, so that every search of this relation has finitely many rounds.
    pub data Finds : (upper : Str) → Result (Option env.Row) → Type 0 where
      no_effect :
          {upper : Str} → last_effect lower upper effects none ≡ none → Finds upper (ok none)
      throws :
          {upper key : Str} {m : String} {value : Option Bytes}
          → last_effect lower upper effects none ≡ some (key, value)
          → any_ancestor env txn parents (third_segment key) [] ≡ throw m
          → Finds upper (throw m)
      is_found :
          {upper key : Str} {value : Option Bytes}
          → last_effect lower upper effects none ≡ some (key, value)
          → any_ancestor env txn parents (third_segment key) [] ≡ ok true
          → Finds upper (env.decode_row value)
      earlier :
          {upper key : Str} {value : Option Bytes} {r : Result (Option env.Row)}
          → last_effect lower upper effects none ≡ some (key, value)
          → any_ancestor env txn parents (third_segment key) [] ≡ ok false
          → Finds key r
          → Finds upper r

    shorter :
        (upper : Str) {key : Str} {value : Option Bytes} {fuel : ℕ}
        → count lower upper effects < suc fuel
        → last_effect lower upper effects none ≡ some (key, value)
        → count lower key effects < fuel
    shorter upper {key} h e = elim (last_effect_sound lower upper effects none e) [
      | inl q ↦ absurd (cc)
      | inr (m, i) ↦ omega (arith, count_less lower upper key effects i m)
    ]

    after_round :
        (fuel : ℕ) {upper : Str} (key : Str) (value : Option Bytes)
        → last_effect lower upper effects none ≡ some (key, value)
        → Finds key (find_value env fuel txn lower key effects parents)
        → (test : Result Bool) → any_ancestor env txn parents (third_segment key) [] ≡ test
        → Finds upper (
            test >>= λ found.
            if found
            then env.decode_row value
            else find_value env fuel txn lower key effects parents)
    after_round fuel key value e next (throw m) a = throws e a
    after_round fuel key value e next (ok true) a = is_found e a
    after_round fuel key value e next (ok false) a = earlier e a next

    find_value-Finds_at :
        (fuel : ℕ) (upper : Str)
        → count lower upper effects < fuel
        → Finds upper (find_value env fuel txn lower upper effects parents)
    unfolding find_value
    find_value-Finds_at zero upper h = absurd (omega arith)
    find_value-Finds_at (suc fuel) upper h =
        elim (Option-cases (last_effect lower upper effects none)) [
          | inl e ↦ rw (e, find_value) (no_effect e)
          | inr ((key, value), e) ↦
              rw (e, find_value)
                (after_round fuel key value e (find_value-Finds_at fuel key (shorter upper h e))
                  (any_ancestor env txn parents (third_segment key) []) refl)
        ]

    -- The search of `getModelValue` ends: it goes down the effects of a key range, from the last one
    -- below the upper bound, each time below the effect that it looked at, and after finitely many
    -- rounds it returns nothing since no effect is left, or the value of an effect whose message is an
    -- ancestor of a parent, or throws what the test for ancestors throws. A round for every effect and
    -- one more are enough.
    pub find_value-Finds :
        (upper : Str)
        → Finds upper (find_value env (suc (length effects)) txn lower upper effects parents)
    find_value-Finds upper =
        find_value-Finds_at (suc (length effects)) upper
          (omega (arith, count_all lower upper effects))
