-- ===== src/SignedCid/External.antt =====
-- What packages/signed-cid takes from other packages: IPLD codecs, multiformats and noble.
use canvas.Base.{ℕ, Bool, Str, Bytes, Result}

-- A JavaScript value: the raw codec tells strings and byte arrays from the rest.
pub data Datum (Object : Type 0) : Type 0 where
  string : Str → Datum Object
  bytes : Bytes → Datum Object
  object : Object → Datum Object

-- An incremental hash: `create()`, `update` and `digest`.
pub record Hasher : Type 1 where
  pub State : Type 0
  pub create : State
  pub update : State → Bytes → State
  pub finish : State → Bytes

pub record External : Type 1 where
  pub Object : Type 0
  pub cbor_code : ℕ
  pub json_code : ℕ
  pub raw_code : ℕ
  pub cbor_encode : Datum Object → Result Bytes
  pub json_encode : Datum Object → Result Bytes
  pub utf8 : Str → Bytes
  pub sha256 : Hasher
  -- `blake3.create({ dkLen })`
  pub blake3 : ℕ → Hasher
  pub Multihash : Type 0
  pub create_digest : ℕ → Bytes → Multihash
  pub Cid : Type 0
  pub create_v1 : ℕ → Multihash → Cid
  pub cid_code : Cid → ℕ
  -- `cid.multihash.code`
  pub multihash_code : Cid → ℕ
  pub cid_bytes : Cid → Bytes
  pub cid_equals : Cid → Cid → Bool
  pub base58_encode : Bytes → Str
  pub base58_decode : Str → Result Bytes
  pub varint_encode : ℕ → Bytes
  -- The number, and the length of its encoding.
  pub varint_decode : Bytes → Result (ℕ × ℕ)
  pub ed_public_key : Bytes → Bytes
  pub ed_sign : (message private_key : Bytes) → Bytes
  pub ed_verify : (signature message public_key : Bytes) → Result Bool
  pub Secp : Type 0
  pub secp_public_key : Bytes → Bytes
  pub secp_sign : (message private_key : Bytes) → Secp
  pub to_compact : Secp → Bytes
  pub from_compact : Bytes → Result Secp
  pub secp_verify : Secp → (message public_key : Bytes) → Result Bool
