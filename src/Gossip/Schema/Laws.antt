-- ===== src/Gossip/Schema/Laws.antt =====
-- Clocks of message keys: packages/gossiplog/src/schema.ts.
use canvas.Base.Int.{ℤ, pos, negsuc}
use canvas.Base.{
  ℕ, suc, ◌+◌, ◌-◌, ◌≤◌, ◌<◌, ◌^◌, ◌≡◌, refl, ap, ◌∙◌, arith, List, [], ◌∷◌, ◌++◌, Bytes, length,
  take, drop, replicate, All, length-append, length-take, length-drop, ok,
}
use canvas.Gossip.Clock.{encode_clock, decode_clock}
use canvas.Gossip.Clock.Roundtrip.{decode_clock-suffix}
use canvas.Gossip.Schema.{key_length, max_clock, next_clock, get_next_clock, set_at, get_key}

-- A key has room for every clock, and a clock that is not negative.
abbrev pub IsKey : Bytes → Type 0
IsKey key = length key ≡ key_length

-- A clock is below a number.
abbrev pub BelowClock : ℤ → ℕ → Type 0
BelowClock (pos c) n = c < n
BelowClock (negsuc c) n = Unit

max_below : (max : ℕ) (c : ℤ) (n : ℕ) → max_clock max c < n → (max < n) × BelowClock c n
max_below max (pos c) n h = (ground arith, ground arith)
max_below max (negsuc c) n h = (h, tt)

max_least : (max : ℕ) (c : ℤ) (m : ℕ) → max < m → BelowClock c m → max_clock max c < m
max_least max (pos c) m h k = ground arith
max_least max (negsuc c) m h k = h

next_clock_lem :
    (max : ℕ) (heads : List Bytes)
    → All IsKey heads
    → (n : ℕ) × (next_clock max heads ≡ ok n)
      × (max < n)
      × All (λ key. BelowClock (decode_clock key).0 n) heads
      × ((m : ℕ) → max < m → All (λ key. BelowClock (decode_clock key).0 m) heads → n ≤ m)
unfolding next_clock
next_clock_lem max [] k = (suc max, refl, omega arith, tt, λ m h b. omega arith)
next_clock_lem max (key ∷ heads) (e, k) =
    let (n, run, above, rest, least) =
      next_clock_lem (max_clock max (decode_clock key).0) heads k in
    let (a, b) = max_below max (decode_clock key).0 n above in
    (
      n,
      rw e run,
      a,
      (b, rest),
      λ m h (c, cs). least m (max_least max (decode_clock key).0 m h c) cs,
    )

-- At keys of twenty bytes `getNextClock` returns the least positive number that is above the clock
-- of every key.
pub get_next_clock_lem :
    (heads : List Bytes)
    → All IsKey heads
    → (n : ℕ) × (get_next_clock heads ≡ ok n)
      × (0 < n)
      × All (λ key. BelowClock (decode_clock key).0 n) heads
      × ((m : ℕ) → 0 < m → All (λ key. BelowClock (decode_clock key).0 m) heads → n ≤ m)
unfolding get_next_clock
get_next_clock_lem heads k = next_clock_lem 0 heads k

-- A write that stays within the key keeps its length.
length-set_at :
    (key bytes : Bytes) (n : ℕ)
    → n ≤ length key
    → length bytes + n ≤ length key
    → length (set_at key bytes n) ≡ length key
length-set_at key bytes n h k = omega (
  arith,
  length-append (take n key) (bytes ++ drop (length bytes) (drop n key)),
  length-append bytes (drop (length bytes) (drop n key)),
  length-take n key h,
  length-drop (length bytes) (drop n key),
  length-drop n key,
)

-- The key of a message has twenty bytes, and the message's clock is read back from it, for clocks
-- below 2^31 and a hash of twenty bytes or more.
pub decode_clock-get_key :
    (sha256 : Bytes → Bytes) (clock : ℕ) (value : Bytes)
    → clock < 2 ^ 31
    → 20 ≤ length (sha256 value)
    → (length (get_key sha256 clock value) ≡ key_length)
      × ((decode_clock (get_key sha256 clock value)).0 ≡ pos clock)
unfolding get_key
decode_clock-get_key sha256 clock value h l =
    let (short, full, read) =
      decode_clock-suffix (replicate key_length 0) (rest_of clock) clock (omega arith) h in
    (long short full, ap (λ r. r.0) read)
  where
    rest_of : ℕ → Bytes
    rest_of clock =
        let (key, n) = encode_clock (replicate key_length 0) clock in
        let bytes = take (key_length - n) (sha256 value) in
        bytes ++ drop (length bytes) (drop n key)

    long :
        (encode_clock (replicate key_length 0) clock).1 ≤ 5
        → length (encode_clock (replicate key_length 0) clock).0 ≡ 20
        → length (
            take
              (encode_clock (replicate key_length 0) clock).1
              (encode_clock (replicate key_length 0) clock).0
            ++ rest_of clock)
          ≡ key_length
    long short full =
        length-set_at (encode_clock (replicate key_length 0) clock).0
          (take (key_length - (encode_clock (replicate key_length 0) clock).1) (sha256 value))
          (encode_clock (replicate key_length 0) clock).1 (omega arith)
          (omega (
            arith,
            length-take (20 - (encode_clock (replicate key_length 0) clock).1) (sha256 value)
                (omega arith),
          ))
        ∙ full
