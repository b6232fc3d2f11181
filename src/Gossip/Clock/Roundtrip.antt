-- ===== src/Gossip/Clock/Roundtrip.antt =====
-- What a key tells of its clock: packages/gossiplog/src/clock.ts.
use native.Mathlib.Decide.{dec_lt}
use native.Mathlib.Nat.{pow-suc}
use canvas.Base.Int.{pos, negsuc}
use canvas.Base.{
  ◌++◌, take, length-append, length-drop, take-append, ◌≤◌, ℕ, zero, suc, ◌+◌, ◌-◌, ◌/◌, ◌%◌, ◌^◌,
  ◌≤◌, ◌<◌, ◌≡◌, refl, List, [], ◌∷◌, Bytes, length, drop, arith, ap, ◌∙◌, sym, inl, inr, ltb,
  ltb→lt, Bool-cases,
}
use canvas.Gossip.Clock.{
  to_int32, sar7, encode_sets, write_sets, encode_clock, decode_clock, encoding_length,
}
use canvas.Gossip.Clock.Groups.{encode_sets_step, encode_sets_end, decode1}
use canvas.Gossip.Clock.Prefix.{
  prefix_of, encode_sets1, encode_sets2, encode_sets3, encode_sets4, encode_sets5,
}

decode_clock-encode_clock_zero :
    (key : Bytes)
    → 5 ≤ length key
    → decode_clock (encode_clock key 0).0 ≡ (pos 0, (encode_clock key 0).1)
unfolding encode_clock decode_clock
decode_clock-encode_clock_zero [] l = absurd (omega arith)
decode_clock-encode_clock_zero (k ∷ key) l = refl

-- Every clock below 2^31 is read back from a key it was written to, whatever the key held, with
-- the number of bytes written; the key must have room for five bytes.
pub decode_clock-encode_clock :
    (key : Bytes) (c : ℕ)
    → 5 ≤ length key
    → c < 2 ^ 31
    → decode_clock (encode_clock key c).0 ≡ (pos c, (encode_clock key c).1)
decode_clock-encode_clock key zero l h = decode_clock-encode_clock_zero key l
decode_clock-encode_clock key (suc c) l h =
    let (p, (_, written, read)) = prefix_of (suc c) (omega arith) h in
    rw (written key l) (read (drop (length p) key))

-- What follows the bytes of a clock is not read.
abbrev pub IsSuffixFree : ℕ → Bytes → Bytes → Bytes × ℕ → Type 0
IsSuffixFree c key rest r =
    (r.1 ≤ 5) × (length r.0 ≡ length key) × (decode_clock (take r.1 r.0 ++ rest) ≡ (pos c, r.1))

decode_clock-suffix_zero :
    (key rest : Bytes) → 5 ≤ length key → IsSuffixFree 0 key rest (encode_clock key 0)
unfolding encode_clock decode_clock
decode_clock-suffix_zero [] rest l = absurd (omega arith)
decode_clock-suffix_zero (k ∷ key) rest l = (omega arith, refl, refl)

pub decode_clock-suffix :
    (key rest : Bytes) (c : ℕ)
    → 5 ≤ length key
    → c < 2 ^ 31
    → IsSuffixFree c key rest (encode_clock key c)
decode_clock-suffix key rest zero l h = decode_clock-suffix_zero key rest l
decode_clock-suffix key rest (suc c) l h =
    let (p, (short, written, read)) = prefix_of (suc c) (omega arith) h in
    rw (written key l) (
      short,
      omega (arith, length-append p (drop (length p) key), length-drop (length p) key),
      rw (take-append p (drop (length p) key)) (read rest),
    )

encode_clock_count :
    (key : Bytes) (c : ℕ) → 0 < c → (encode_clock key c).1 ≡ length (encode_sets 5 (pos c))
unfolding encode_clock
encode_clock_count key zero h = absurd (omega arith)
encode_clock_count key (suc c) h = refl

encode_clock_bytes :
    (key : Bytes) (c : ℕ) {sets : List ℕ}
    → 0 < c
    → encode_sets 5 (pos c) ≡ sets
    → (encode_clock key c).1 ≡ length sets
encode_clock_bytes key c h e = encode_clock_count key c h ∙ ap length e

encoding_length_small :
    (key : Bytes) (c : ℕ) → c < 2 ^ 28 → (encode_clock key c).1 ≡ encoding_length c
unfolding encode_clock encoding_length
encoding_length_small key zero h = refl
encoding_length_small key (suc c) h = elim (dec_lt (suc c) 128) [
  | yes a ↦ bytes (encode_sets1 (suc c) (omega arith) a) ∙ ground arith
  | no a ↦ elim (dec_lt (suc c) 16384) [
    | yes b ↦ bytes (encode_sets2 (suc c) (omega arith) b) ∙ ground arith
    | no b ↦ elim (dec_lt (suc c) 2097152) [
      | yes d ↦ bytes (encode_sets3 (suc c) (omega arith) d) ∙ ground arith
      | no d ↦ bytes (encode_sets4 (suc c) (omega arith) h) ∙ ground arith
    ]
  ]
]
  where
    bytes :
        {sets : List ℕ}
        → encode_sets 5 (pos (suc c)) ≡ sets
        → (encode_clock key (suc c)).1 ≡ length sets
    bytes e = encode_clock_bytes key (suc c) (omega arith) e

encoding_length_large : (c : ℕ) → 2 ^ 28 ≤ c → encoding_length c ≡ 10
unfolding encoding_length
encoding_length_large c h = ground arith

-- `encodingLength` is the number of bytes that `encodeClock` writes, for clocks below 2^28; from
-- there to 2^31 it is 10, where five bytes are written.
pub encoding_length-encode_clock :
    (key : Bytes) (c : ℕ)
    → (c < 2 ^ 28 → (encode_clock key c).1 ≡ encoding_length c)
      × (2 ^ 28 ≤ c → c < 2 ^ 31 → ((encode_clock key c).1 ≡ 5) × (encoding_length c ≡ 10))
encoding_length-encode_clock key c = (
  encoding_length_small key c,
  λ h k. (encode_clock_bytes key c (omega arith) (encode_sets5 c h k), encoding_length_large c h),
)

encode_sets_wraps : (c : ℕ) → 2 ^ 31 ≤ c → c < 2 ^ 32 → encode_sets 5 (pos c) ≡ (c % 128) ∷ []
unfolding encode_sets
encode_sets_wraps zero h k = absurd (omega arith)
encode_sets_wraps (suc c) h k = ground arith

encode_clock_first :
    (x : ℕ) (key : Bytes) (c d : ℕ)
    → 0 < c
    → encode_sets 5 (pos c) ≡ d ∷ []
    → encode_clock (x ∷ key) c ≡ (d ∷ key, 1)
unfolding encode_clock write_sets
encode_clock_first x key zero d h e = absurd (omega arith)
encode_clock_first x key (suc c) d h e =
    ap (λ s. (write_sets (x ∷ key) (length s - 1) 0 s, length s)) e

-- A clock from 2^31 up to 2^32 is lost: one byte is written, and it holds the lowest seven bits.
pub encode_clock_wraps :
    (key : Bytes) (c : ℕ)
    → 1 ≤ length key
    → 2 ^ 31 ≤ c
    → c < 2 ^ 32
    → decode_clock (encode_clock key c).0 ≡ (pos (c % 128), 1)
encode_clock_wraps [] c l h k = absurd (omega arith)
encode_clock_wraps (x ∷ key) c l h k =
    rw (encode_clock_first x key c (c % 128) (omega arith) (encode_sets_wraps c h k)) (
      decode1 (c % 128) 0 0 0 0 key (omega arith) (omega arith) (omega arith) (omega arith)
        (omega arith)
      ∙ ap (λ v. (pos v, 1)) (omega arith))

encode_sets_fuel_below :
    (f k c : ℕ) → c < 128 ^ f → c < 2 ^ 31 → encode_sets (f + k) (pos c) ≡ encode_sets f (pos c)
encode_sets_fuel_below zero k zero h l = encode_sets_end (0 + k) ∙ sym (encode_sets_end 0)
encode_sets_fuel_below zero k (suc c) h l = absurd (omega arith)
encode_sets_fuel_below (suc f) k zero h l =
    encode_sets_end (suc f + k) ∙ sym (encode_sets_end (suc f))
encode_sets_fuel_below (suc f) k (suc c) h l =
    ap (λ n. encode_sets n (pos (suc c))) (omega arith)
    ∙ encode_sets_step (f + k) (suc c) (omega arith) l
    ∙ ap (◌∷◌ (suc c % 128))
        (encode_sets_fuel_below f k (suc c / 128) (omega (arith, pow-suc 128 f)) (omega arith))
    ∙ sym (encode_sets_step f (suc c) (omega arith) l)

encode_sets_negative : (f n : ℕ) → encode_sets f (negsuc n) ≡ []
unfolding encode_sets
encode_sets_negative zero n = refl
encode_sets_negative (suc f) n = refl

-- The rounds after the first, from the int32 that it leaves.
encode_sets_fuel_after :
    (k n : ℕ) → encode_sets (4 + k) (sar7 (to_int32 n)) ≡ encode_sets 4 (sar7 (to_int32 n))
encode_sets_fuel_after k n = elim (Bool-cases (ltb (n % 4294967296) 2147483648)) [
  | inl e ↦ rw e (
      encode_sets_fuel_below 4 k ((n % 4294967296) / 128) (omega (arith, ltb→lt _ _ e))
        (omega (arith, ltb→lt _ _ e)))
  | inr e ↦ rw e (encode_sets_negative (4 + k) _ ∙ sym (encode_sets_negative 4 _))
]

encode_sets_unfold :
    (f n : ℕ)
    → encode_sets (suc f) (pos (suc n)) ≡ (suc n % 128) ∷ encode_sets f (sar7 (to_int32 (suc n)))
unfolding encode_sets
encode_sets_unfold f n = refl

-- Five rounds empty the loop of `encodeClock` at every clock: more fuel changes nothing.
pub encode_sets_fuel : (k c : ℕ) → encode_sets (5 + k) (pos c) ≡ encode_sets 5 (pos c)
encode_sets_fuel k zero = encode_sets_end (5 + k) ∙ sym (encode_sets_end 5)
encode_sets_fuel k (suc c) =
    ap (λ n. encode_sets n (pos (suc c))) (omega arith)
    ∙ encode_sets_unfold (4 + k) c
    ∙ ap (◌∷◌ (suc c % 128)) (encode_sets_fuel_after k (suc c))
    ∙ sym (encode_sets_unfold 4 c)
