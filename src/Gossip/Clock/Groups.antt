-- ===== src/Gossip/Clock/Groups.antt =====
-- The groups of seven bits that clock.ts writes and reads, for clocks below 2^31.
use canvas.Base.Int.{pos, ◌+ℤ◌}
use canvas.Base.{
  ℕ, zero, suc, ◌+◌, ◌*◌, ◌/◌, ◌%◌, ◌^◌, ◌<◌, ◌≡◌, refl, List, [], ◌∷◌, Bytes, length, arith, ap,
  ◌∙◌,
}
use canvas.Gossip.Clock.{encode_sets, decode_sets, sum_sets, decode_clock, shl32}

-- Below 2^31 a round of the loop divides the clock by 128.
pub encode_sets_step :
    (f c : ℕ)
    → 0 < c
    → c < 2 ^ 31
    → encode_sets (suc f) (pos c) ≡ (c % 128) ∷ encode_sets f (pos (c / 128))
unfolding encode_sets
encode_sets_step f zero h k = absurd (omega arith)
encode_sets_step f (suc c) h k = ground arith

pub encode_sets_end : (f : ℕ) → encode_sets f (pos 0) ≡ []
unfolding encode_sets
encode_sets_end zero = refl
encode_sets_end (suc f) = refl

shl32-small : (x n : ℕ) → n < 32 → x * 2 ^ n < 2 ^ 31 → shl32 x n ≡ pos (x * 2 ^ n)
shl32-small x n h k = ground arith

-- A marked byte adds a group and goes on, an unmarked byte ends the prefix.
decode_sets-marked :
    (d : ℕ) (key : Bytes) → d < 128 → decode_sets ((d + 128) ∷ key) ≡ d ∷ decode_sets key
unfolding decode_sets
decode_sets-marked d key h = ground arith

decode_sets-last : (d : ℕ) (key : Bytes) → d < 128 → decode_sets (d ∷ key) ≡ d ∷ []
unfolding decode_sets
decode_sets-last d key h = ground arith

sum_sets_step :
    (a x : ℕ) (sets : List ℕ)
    → 7 * length sets < 32
    → x * 2 ^ (7 * length sets) < 2 ^ 31
    → sum_sets (pos a) (x ∷ sets) ≡ sum_sets (pos (a + x * 2 ^ (7 * length sets))) sets
unfolding sum_sets ◌+ℤ◌
sum_sets_step a x sets h k = rw (shl32-small x (7 * length sets) h k) (ground arith)

decode_clock_lem :
    (key : Bytes) {sets : List ℕ}
    → decode_sets key ≡ sets
    → decode_clock key ≡ (sum_sets (pos 0) sets, length sets)
unfolding decode_clock
decode_clock_lem key e = rw e

module _ (d0 d1 d2 d3 d4 : ℕ) (rest : Bytes) (h0 : d0 < 128) (h1 : d1 < 128) (h2 : d2 < 128)
    (h3 : d3 < 128) (h4 : d4 < 8) where
  sets1 : decode_sets (d0 ∷ rest) ≡ d0 ∷ []
  sets1 = decode_sets-last d0 rest h0

  sum1 : (a : ℕ) → sum_sets (pos a) (d0 ∷ []) ≡ pos (a + (d0 * 2 ^ 0))
  unfolding sum_sets ◌+ℤ◌
  sum1 a = ground arith

  pub decode1 : decode_clock (d0 ∷ rest) ≡ (pos (d0 * 2 ^ 0), 1)
  decode1 = decode_clock_lem _ sets1 ∙ ap (λ v. (v, 1)) (sum1 0 ∙ ap pos (omega arith))

  sets2 : decode_sets ((d1 + 128) ∷ d0 ∷ rest) ≡ d1 ∷ d0 ∷ []
  sets2 = decode_sets-marked d1 _ (omega arith) ∙ ap (◌∷◌ d1) sets1

  sum2 : (a : ℕ) → sum_sets (pos a) (d1 ∷ d0 ∷ []) ≡ pos (a + (d1 * 2 ^ 7 + d0 * 2 ^ 0))
  sum2 a = sum_sets_step a d1 _ (omega arith) (omega arith) ∙ sum1 _ ∙ ap pos (omega arith)

  pub decode2 : decode_clock ((d1 + 128) ∷ d0 ∷ rest) ≡ (pos (d1 * 2 ^ 7 + d0 * 2 ^ 0), 2)
  decode2 = decode_clock_lem _ sets2 ∙ ap (λ v. (v, 2)) (sum2 0 ∙ ap pos (omega arith))

  sets3 : decode_sets ((d2 + 128) ∷ (d1 + 128) ∷ d0 ∷ rest) ≡ d2 ∷ d1 ∷ d0 ∷ []
  sets3 = decode_sets-marked d2 _ (omega arith) ∙ ap (◌∷◌ d2) sets2

  sum3 :
      (a : ℕ)
      → sum_sets (pos a) (d2 ∷ d1 ∷ d0 ∷ []) ≡ pos (a + (d2 * 2 ^ 14 + d1 * 2 ^ 7 + d0 * 2 ^ 0))
  sum3 a = sum_sets_step a d2 _ (omega arith) (omega arith) ∙ sum2 _ ∙ ap pos (omega arith)

  pub decode3 :
      decode_clock ((d2 + 128) ∷ (d1 + 128) ∷ d0 ∷ rest)
      ≡ (pos (d2 * 2 ^ 14 + d1 * 2 ^ 7 + d0 * 2 ^ 0), 3)
  decode3 = decode_clock_lem _ sets3 ∙ ap (λ v. (v, 3)) (sum3 0 ∙ ap pos (omega arith))

  sets4 : decode_sets ((d3 + 128) ∷ (d2 + 128) ∷ (d1 + 128) ∷ d0 ∷ rest) ≡ d3 ∷ d2 ∷ d1 ∷ d0 ∷ []
  sets4 = decode_sets-marked d3 _ (omega arith) ∙ ap (◌∷◌ d3) sets3

  sum4 :
      (a : ℕ)
      → sum_sets (pos a) (d3 ∷ d2 ∷ d1 ∷ d0 ∷ [])
        ≡ pos (a + (d3 * 2 ^ 21 + d2 * 2 ^ 14 + d1 * 2 ^ 7 + d0 * 2 ^ 0))
  sum4 a = sum_sets_step a d3 _ (omega arith) (omega arith) ∙ sum3 _ ∙ ap pos (omega arith)

  pub decode4 :
      decode_clock ((d3 + 128) ∷ (d2 + 128) ∷ (d1 + 128) ∷ d0 ∷ rest)
      ≡ (pos (d3 * 2 ^ 21 + d2 * 2 ^ 14 + d1 * 2 ^ 7 + d0 * 2 ^ 0), 4)
  decode4 = decode_clock_lem _ sets4 ∙ ap (λ v. (v, 4)) (sum4 0 ∙ ap pos (omega arith))

  sets5 :
      decode_sets ((d4 + 128) ∷ (d3 + 128) ∷ (d2 + 128) ∷ (d1 + 128) ∷ d0 ∷ rest)
      ≡ d4 ∷ d3 ∷ d2 ∷ d1 ∷ d0 ∷ []
  sets5 = decode_sets-marked d4 _ (omega arith) ∙ ap (◌∷◌ d4) sets4

  sum5 :
      (a : ℕ)
      → sum_sets (pos a) (d4 ∷ d3 ∷ d2 ∷ d1 ∷ d0 ∷ [])
        ≡ pos (a + (d4 * 2 ^ 28 + d3 * 2 ^ 21 + d2 * 2 ^ 14 + d1 * 2 ^ 7 + d0 * 2 ^ 0))
  sum5 a = sum_sets_step a d4 _ (omega arith) (omega arith) ∙ sum4 _ ∙ ap pos (omega arith)

  pub decode5 :
      decode_clock ((d4 + 128) ∷ (d3 + 128) ∷ (d2 + 128) ∷ (d1 + 128) ∷ d0 ∷ rest)
      ≡ (pos (d4 * 2 ^ 28 + d3 * 2 ^ 21 + d2 * 2 ^ 14 + d1 * 2 ^ 7 + d0 * 2 ^ 0), 5)
  decode5 = decode_clock_lem _ sets5 ∙ ap (λ v. (v, 5)) (sum5 0 ∙ ap pos (omega arith))
