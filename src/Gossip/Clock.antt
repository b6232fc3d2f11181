-- ===== src/Gossip/Clock.antt =====
-- packages/gossiplog/src/clock.ts: the variable-length prefix of a message key. JavaScript's bit
-- operators work on 32-bit signed integers; the wrap-around is written out.
mod Groups
mod Prefix
pub mod Roundtrip
pub mod Order
mod Tests
use canvas.Base.Int.{ℤ, pos, negsuc, ◌+ℤ◌}
use canvas.Base.{
  ℕ, zero, suc, ◌+◌, ◌-◌, ◌*◌, ◌/◌, ◌%◌, ◌^◌, Bool, true, false, List, [], ◌∷◌, Bytes, length, set,
  ltb, leb, if◌then◌else◌,
}

-- ToInt32 of a number that is a natural number.
abbrev pub to_int32 : ℕ → ℤ
to_int32 n =
    if ltb (n % 4294967296) 2147483648
    then pos (n % 4294967296)
    else negsuc (4294967295 - n % 4294967296)

-- `x >> 7` of an int32.
abbrev pub sar7 : ℤ → ℤ
sar7 (pos n) = pos (n / 128)
sar7 (negsuc n) = negsuc (n / 128)

-- `x << s`, with the shift count taken modulo 32.
abbrev pub shl32 : ℕ → ℕ → ℤ
shl32 x s = to_int32 (x * 2 ^ (s % 32))

-- The `while (clock > 0)` loop of `encodeClock`: the groups of seven bits, lowest first.
unfoldable pub encode_sets : ℕ → ℤ → List ℕ
encode_sets zero clock = []
encode_sets (suc fuel) (negsuc n) = []
encode_sets (suc fuel) (pos zero) = []
encode_sets (suc fuel) (pos (suc n)) = (suc n % 128) ∷ encode_sets fuel (sar7 (to_int32 (suc n)))

-- `byte |= 0x80` for every group but the lowest.
abbrev mark : ℕ → ℕ → ℕ
mark zero byte = byte
mark (suc i) byte = byte + 128

-- The `for` loop of `encodeClock`: `i` counts up, and writes go down from `last`.
unfoldable pub write_sets : Bytes → ℕ → ℕ → List ℕ → Bytes
write_sets key last i [] = key
write_sets key last i (byte ∷ sets) =
    write_sets (set key (last - i) (mark i byte)) last (suc i) sets

-- The key after the writes, and the number of bytes written. Five rounds always empty the loop.
unfoldable pub encode_clock : Bytes → ℕ → Bytes × ℕ
unfolding encode_sets write_sets
encode_clock key zero = (set key 0 0, 1)
encode_clock key (suc clock) =
    let sets = encode_sets 5 (pos (suc clock)) in
    (write_sets key (length sets - 1) 0 sets, length sets)

-- The `for ... of key` loop of `decodeClock`.
unfoldable pub decode_sets : Bytes → List ℕ
decode_sets [] = []
decode_sets (byte ∷ key) =
    let rest = decode_sets key in (byte % 128) ∷ (if leb 128 (byte % 256) then rest else [])

-- The `reduce` of `decodeClock`; a group with `n` groups after it is shifted by `7 * n`.
unfoldable pub sum_sets : ℤ → List ℕ → ℤ
sum_sets num [] = num
sum_sets num (x ∷ sets) = sum_sets (num +ℤ shl32 x (7 * length sets)) sets

unfoldable pub decode_clock : Bytes → ℤ × ℕ
unfolding decode_sets sum_sets ◌+ℤ◌
decode_clock key = let sets = decode_sets key in (sum_sets (pos 0) sets, length sets)

-- The bounds N1 to N9 of `encodingLength`, with `1 << k` computed: from N5 on the shift count
-- is past 32, so the bounds are 2^3, 2^10, 2^17, 2^24 and -2^31.
unfoldable pub encoding_length : ℕ → ℕ
encoding_length value =
    if ltb value (2 ^ 7)
    then 1
    else if ltb value (2 ^ 14)
    then 2
    else if ltb value (2 ^ 21)
    then 3
    else if ltb value (2 ^ 28)
    then 4
    else if ltb value (2 ^ 3)
    then 5
    else if ltb value (2 ^ 10)
    then 6
    else if ltb value (2 ^ 17)
    then 7
    else if ltb value (2 ^ 24)
    then 8
    else 10
