-- ===== src/Gossip/Clock/Tests.antt =====
-- Clocks of one to five bytes, and the clocks that do not fit.
use canvas.Base.Int.{pos}
use canvas.Base.{◌+◌, ◌<◌, ◌≤◌, ◌^◌, ◌%◌, true, ◌≡◌, arith, [], ◌∷◌, Bytes, bytes_lt}
use canvas.Gossip.Clock.{encode_clock, decode_clock, encoding_length, encode_sets}
use canvas.Gossip.Clock.Roundtrip.{
  decode_clock-encode_clock, encoding_length-encode_clock, encode_clock_wraps, encode_sets_fuel,
}
use canvas.Gossip.Clock.Order.{encode_clock_order}

abbrev buffer : Bytes
buffer = 9 ∷ 9 ∷ 9 ∷ 9 ∷ 9 ∷ 9 ∷ []

decode_clock-encode_clock_example :
    decode_clock (encode_clock buffer 300).0 ≡ (pos 300, (encode_clock buffer 300).1)
decode_clock-encode_clock_example =
    decode_clock-encode_clock buffer 300 (ground arith) (ground arith)

encoding_length-encode_clock_example :
    (300 < 2 ^ 28 → (encode_clock buffer 300).1 ≡ encoding_length 300)
    × (2 ^ 28 ≤ 300 → 300 < 2 ^ 31 → ((encode_clock buffer 300).1 ≡ 5) × (encoding_length 300 ≡ 10))
encoding_length-encode_clock_example = encoding_length-encode_clock buffer 300

encode_clock_wraps_example :
    decode_clock (encode_clock buffer 2147483653).0 ≡ (pos (2147483653 % 128), 1)
encode_clock_wraps_example =
    encode_clock_wraps buffer 2147483653 (ground arith) (ground arith) (ground arith)

encode_sets_fuel_example : encode_sets (5 + 3) (pos 300) ≡ encode_sets 5 (pos 300)
encode_sets_fuel_example = encode_sets_fuel 3 300

encode_clock_order_example :
    (300 < 16384
      → 16384 < 2 ^ 14
      → bytes_lt (encode_clock buffer 300).0 (encode_clock buffer 16384).0 ≡ true)
    × (256 ≤ 300
        → 300 < 2 ^ 14
        → 2 ^ 14 ≤ 16384
        → 16384 < 2 ^ 15
        → bytes_lt (encode_clock buffer 16384).0 (encode_clock buffer 300).0 ≡ true)
encode_clock_order_example =
    encode_clock_order buffer buffer 300 16384 (ground arith) (ground arith)
