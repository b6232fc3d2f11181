-- ===== src/Gossip/Clock/Order.antt =====
-- The order of keys against the order of their clocks: packages/gossiplog/src/clock.ts.
use native.Mathlib.Decide.{dec_lt}
use canvas.Base.{
  ℕ, zero, suc, ◌^◌, ◌≤◌, ◌<◌, ◌≡◌, true, [], ◌∷◌, Bytes, bytes_lt, length, drop, arith, refl,
}
use canvas.Gossip.Clock.{encode_clock}
use canvas.Gossip.Clock.Prefix.{encode_clock1, encode_clock2, encode_clock3}

encode_clock_zero : (key : Bytes) → 5 ≤ length key → (encode_clock key 0).0 ≡ 0 ∷ drop 1 key
unfolding encode_clock
encode_clock_zero [] l = absurd (omega arith)
encode_clock_zero (k ∷ key) l = refl

module _ (key key' : Bytes) (l : 5 ≤ length key) (l' : 5 ≤ length key') where
  lt01 : (d : ℕ) → 0 < d → d < 128 → bytes_lt (encode_clock key 0).0 (encode_clock key' d).0 ≡ true
  unfolding bytes_lt
  lt01 d h k = rw (encode_clock_zero key l, encode_clock1 d key' l' h k) (ground arith)

  lt02 :
      (d : ℕ) → 128 ≤ d → d < 16384 → bytes_lt (encode_clock key 0).0 (encode_clock key' d).0 ≡ true
  unfolding bytes_lt
  lt02 d h k = rw (encode_clock_zero key l, encode_clock2 d key' l' h k) (ground arith)

  module _ (c d : ℕ) where
    lt11 : 1 ≤ c → c < d → d < 128 → bytes_lt (encode_clock key c).0 (encode_clock key' d).0 ≡ true
    unfolding bytes_lt
    lt11 z h k =
        rw (encode_clock1 c key l z (omega arith), encode_clock1 d key' l' (omega arith) k)
          (ground arith)

    lt12 :
        1 ≤ c
        → c < 128
        → 128 ≤ d
        → d < 16384
        → bytes_lt (encode_clock key c).0 (encode_clock key' d).0 ≡ true
    unfolding bytes_lt
    lt12 z h k m = rw (encode_clock1 c key l z h, encode_clock2 d key' l' k m) (ground arith)

    lt22 :
        128 ≤ c → c < d → d < 16384 → bytes_lt (encode_clock key c).0 (encode_clock key' d).0 ≡ true
    unfolding bytes_lt
    lt22 z h k =
        rw (encode_clock2 c key l z (omega arith), encode_clock2 d key' l' (omega arith) k)
          (ground arith)

    lt32 :
        256 ≤ c
        → c < 2 ^ 14
        → 2 ^ 14 ≤ d
        → d < 2 ^ 15
        → bytes_lt (encode_clock key' d).0 (encode_clock key c).0 ≡ true
    unfolding bytes_lt
    lt32 z h k m =
        rw (encode_clock2 c key l (omega arith) h, encode_clock3 d key' l' k (omega arith))
          (ground arith)

  below :
      (c d : ℕ)
      → c < d
      → d < 2 ^ 14
      → bytes_lt (encode_clock key c).0 (encode_clock key' d).0 ≡ true
  below zero d h k = elim (dec_lt d 128) [ yes a ↦ lt01 d h a | no a ↦ lt02 d (omega arith) k ]
  below (suc c) d h k = elim (dec_lt d 128) [
    | yes a ↦ lt11 (suc c) d (omega arith) h a
    | no a ↦ elim (dec_lt (suc c) 128) [
      | yes b ↦ lt12 (suc c) d (omega arith) b (omega arith) k
      | no b ↦ lt22 (suc c) d (omega arith) h k
    ]
  ]

-- Keys of two messages, each with room for five bytes, sort by their clocks below 2^14. This ends
-- there: the key of every clock from 2^14 up to 2^15 sorts before the key of every clock from 256
-- up to 2^14.
pub encode_clock_order :
    (key key' : Bytes) (c d : ℕ)
    → 5 ≤ length key
    → 5 ≤ length key'
    → (c < d → d < 2 ^ 14 → bytes_lt (encode_clock key c).0 (encode_clock key' d).0 ≡ true)
      × (256 ≤ c
          → c < 2 ^ 14
          → 2 ^ 14 ≤ d
          → d < 2 ^ 15
          → bytes_lt (encode_clock key' d).0 (encode_clock key c).0 ≡ true)
encode_clock_order key key' c d l l' = (below key key' l l' c d, lt32 key key' l l' c d)
