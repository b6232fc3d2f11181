-- ===== src/Gossip/Schema.antt =====
-- packages/gossiplog/src/schema.ts: message keys. A key is the message's clock and the beginning of
-- the hash of the encoded message, twenty bytes together.
pub mod Laws
use canvas.Base.Int.{ℤ, pos, negsuc}
use canvas.Base.{
  ℕ, suc, ◌-◌, Bool, List, [], ◌∷◌, ◌++◌, Bytes, length, take, replicate, drop, ltb, ◌==◌,
  if◌then◌else◌, Result, ok, throw, assert, ◌>>=◌, ◌>>◌,
}
use canvas.Gossip.Clock.{encode_clock, decode_clock}

abbrev pub key_length : ℕ
key_length = 20

-- `if (clock > max) max = clock`
abbrev pub max_clock : ℕ → ℤ → ℕ
max_clock max (pos clock) = if ltb max clock then clock else max
max_clock max (negsuc n) = max

-- The loop of `getNextClock`.
unfoldable pub next_clock : ℕ → List Bytes → Result ℕ
unfolding decode_clock
next_clock max [] = ok (suc max)
next_clock max (key ∷ heads) = do
  assert (length key == key_length) "expected key.byteLength === KEY_LENGTH"
  next_clock (max_clock max (decode_clock key).0) heads

-- `getNextClock`
unfoldable pub get_next_clock : List Bytes → Result ℕ
unfolding next_clock
get_next_clock heads = next_clock 0 heads

-- `key.set(bytes, offset)`
abbrev pub set_at : Bytes → Bytes → ℕ → Bytes
set_at key bytes offset = take offset key ++ (bytes ++ drop (length bytes) (drop offset key))

-- `getKey`
unfoldable pub get_key : (sha256 : Bytes → Bytes) → ℕ → Bytes → Bytes
unfolding encode_clock
get_key sha256 clock value =
    let (key, encoding_length) = encode_clock (replicate key_length 0) clock in
    set_at key (take (key_length - encoding_length) (sha256 value)) encoding_length
