-- ===== src/Gossip/Log/Decay.antt =====
-- The loop of getAncestorClocks: packages/gossiplog/src/utils.ts.
use native.Mathlib.Decide.{dec_lt}
use canvas.Base.Int.{ℤ, pos, negsuc, ◌-ℤ◌}
use canvas.Base.{
  ℕ, zero, suc, ◌+◌, ◌-◌, ◌%◌, ◌^◌, ◌≤◌, ◌<◌, Bool, true, ◌&&◌, ◌≡◌, refl, ap, ◌∙◌, arith, none,
  some, [], ◌∷◌, leb, ok, throw, ◌>>=◌, Returns, inl, inr, Option-cases, Bool-cases, ◌*◌,
}
use canvas.Gossip.Clock.{shl32, to_int32}
use canvas.Gossip.Log.Ancestors.{positive, ancestor_clocks, get_ancestor_clocks}

ancestor_clocks-stops :
    (fuel i clock : ℕ)
    → positive (pos clock -ℤ shl32 1 i) ≡ none
    → ancestor_clocks (suc fuel) i clock ≡ ok []
unfolding ancestor_clocks
ancestor_clocks-stops fuel i clock e = rw (e, ancestor_clocks) refl

ancestor_clocks-goes_on :
    (fuel i clock : ℕ) {a : ℕ}
    → positive (pos clock -ℤ shl32 1 i) ≡ some a
    → ancestor_clocks (suc fuel) i clock
      ≡ (ancestor_clocks fuel (suc i) clock >>= λ rest. ok (a ∷ rest))
unfolding ancestor_clocks
ancestor_clocks-goes_on fuel i clock e = rw (e, ancestor_clocks) refl

positive-pos : (n : ℕ) → 0 < n → positive (pos n) ≡ some n
positive-pos zero h = absurd (omega arith)
positive-pos (suc n) h = refl

above_round : (a b : ℕ) → b < a → positive (pos a -ℤ pos b) ≡ some (a - b)
unfolding ◌-ℤ◌
above_round a b h =
    let e : leb (0 + b) (a + 0) ≡ true = ground arith in
    rw e (positive-pos (a + 0 - (0 + b)) (omega arith) ∙ ap some (omega arith))

below_round : (a b : ℕ) → a ≤ b → positive (pos a -ℤ pos b) ≡ none
unfolding ◌-ℤ◌
below_round a b h = elim (Bool-cases (leb (0 + b) (a + 0))) [
  | inl e ↦ rw e (ap (λ n. positive (pos n)) (nothing_left a b h))
  | inr e ↦ rw e refl
]
  where
    nothing_left : (a b : ℕ) → a ≤ b → a + 0 - (0 + b) ≡ 0
    nothing_left a b h = omega arith

negative_round : (a n : ℕ) → positive (pos a -ℤ negsuc n) ≡ some (a + suc n)
unfolding ◌-ℤ◌
negative_round a n =
    let e : leb (0 + 0) (a + suc n) ≡ true = ground arith in
    rw e (positive-pos (a + suc n - (0 + 0)) (omega arith) ∙ ap some (omega arith))

-- Rounds up to the thirtieth either stop or go on to the next; the thirtieth stops.
ends : (f i clock : ℕ) → clock ≤ 2 ^ 30 → f + i ≡ 30 → Returns (ancestor_clocks (suc f) i clock)
ends zero i clock h e = (
  [],
  ap (λ i. ancestor_clocks 1 i clock) (omega arith)
      ∙ ancestor_clocks-stops 0 30 clock (below_round clock 1073741824 (omega arith)),
)
ends (suc f) i clock h e = elim (Option-cases (positive (pos clock -ℤ shl32 1 i))) [
  | inl k ↦ ([], ancestor_clocks-stops (suc f) i clock k)
  | inr (a, k) ↦
      let (rest, run) = ends f (suc i) clock h (omega arith) in
      (a ∷ rest, ancestor_clocks-goes_on (suc f) i clock k ∙ rw run refl)
]

-- No shift of 1 is more than 2^30.
abbrev is_small : ℤ → Bool
is_small (pos n) = leb n 1073741824
is_small (negsuc n) = true

small_below : ℕ → Bool
small_below zero = true
small_below (suc j) = is_small (to_int32 (1 * 2 ^ j)) && small_below j

and_left : (a b : Bool) → a && b ≡ true → a ≡ true
and_left a b h = ground arith

and_right : (a b : Bool) → a && b ≡ true → b ≡ true
and_right a b h = ground arith

small_below-at : (n j : ℕ) → j < n → small_below n ≡ true → is_small (to_int32 (1 * 2 ^ j)) ≡ true
unfolding small_below
small_below-at zero j h e = absurd (omega arith)
small_below-at (suc n) j h e = elim (dec_lt j n) [
  | no q ↦
      ap (λ j. is_small (to_int32 (1 * 2 ^ j))) {x = j} {y = n} (omega arith)
      ∙ and_left _ (small_below n) e
  | yes q ↦ small_below-at n j q (and_right _ (small_below n) e)
]

small_below32 : small_below 32 ≡ true
unfolding small_below
small_below32 = refl

goes_on :
    (clock : ℕ) (z : ℤ)
    → 2 ^ 30 < clock
    → is_small z ≡ true
    → (a : ℕ) × (positive (pos clock -ℤ z) ≡ some a)
goes_on clock (pos n) h k = (clock - n, above_round clock n (ground arith))
goes_on clock (negsuc n) h k = (clock + suc n, negative_round clock n)

runs_on : (f i clock : ℕ) → 2 ^ 30 < clock → ancestor_clocks f i clock ≡ throw "out of fuel"
unfolding ancestor_clocks
runs_on zero i clock h = refl
runs_on (suc f) i clock h =
    let (a, k) =
      goes_on clock (shl32 1 i) h (small_below-at 32 (i % 32) (omega arith) small_below32) in
    ancestor_clocks-goes_on f i clock k ∙ rw (runs_on f (suc i) clock h) refl

-- `getAncestorClocks` ends for clocks up to 2^30, within the thirty-one rounds that it is given
-- here. For any larger clock it never ends: no number of rounds is enough, as `1 << 31` is
-- negative and `1 << 32` is 1 again.
pub get_ancestor_clocks_ends :
    (clock : ℕ)
    → (clock ≤ 2 ^ 30 → Returns (get_ancestor_clocks clock))
      × (2 ^ 30 < clock → (fuel : ℕ) → ancestor_clocks fuel 0 clock ≡ throw "out of fuel")
unfolding get_ancestor_clocks
get_ancestor_clocks_ends clock =
    (λ h. ends 30 0 clock h (omega arith), λ h fuel. runs_on fuel 0 clock h)
