-- ===== src/SignedCid/Cid.antt =====
-- packages/signed-cid/src/codecs.ts, digests.ts and cid.ts.
use canvas.Base.{
  ℕ, Bool, Option, none, some, List, [], ◌∷◌, Str, Bytes, bytes_eq, codes, Result, ok, throw,
  if◌then◌else◌, ◌>>=◌,
}
use canvas.Gossip.Log.Types.{or_throw}
use canvas.SignedCid.External.{Datum, string, bytes, object, Hasher, External}

pub record Codec (Value : Type 0) : Type 0 where
  pub name : Str
  pub code : ℕ
  pub encode : Value → Result (List Bytes)

pub record Digest : Type 0 where
  pub name : Str
  pub code : ℕ
  pub digest : List Bytes → Bytes

-- An option that is `undefined`, a name, or the thing itself.
pub data Choice (A : Type 0) : Type 0 where
  absent : Choice A
  named : Str → Choice A
  given : A → Choice A

-- `Array.prototype.find`
unfoldable pub find : {A : Type 0} → (A → Bool) → List A → Option A
find p [] = none
find p (x ∷ xs) = if p x then some x else find p xs

-- `for (const chunk of iter) hash.update(chunk)`
module _ (h : Hasher) where
  open h use {State, create, update, finish}

  unfoldable pub update_all : List Bytes → State → State
  update_all [] s = s
  update_all (chunk ∷ chunks) s = update_all chunks (update s chunk)

  unfoldable pub hash_chunks : List Bytes → Bytes
  unfolding update_all
  hash_chunks chunks = finish (update_all chunks create)

abbrev pub default_codec : Str
default_codec = codes "dag-cbor"

abbrev pub default_digest : Str
default_digest = codes "sha2-256"

module _ (x : External) where
  open x use {
    Object, cbor_code, json_code, raw_code, cbor_encode, json_encode, utf8, sha256, blake3, Cid,
    create_digest, create_v1,
  }

  -- `encode` of the raw codec.
  unfoldable pub encode_raw : Datum Object → Result (List Bytes)
  encode_raw (string s) = ok (utf8 s ∷ [])
  encode_raw (bytes b) = ok (b ∷ [])
  encode_raw (object o) = throw "raw values must be strings or Uint8Arrays"

  abbrev pub dag_cbor : Codec (Datum Object)
  dag_cbor = record {
    name = codes "dag-cbor";
    code = cbor_code;
    encode = λ v. cbor_encode v >>= λ b. ok (b ∷ []);
  }

  abbrev pub dag_json : Codec (Datum Object)
  dag_json = record {
    name = codes "dag-json";
    code = json_code;
    encode = λ v. json_encode v >>= λ b. ok (b ∷ []);
  }

  abbrev pub raw : Codec (Datum Object)
  raw = record { name = codes "raw"; code = raw_code; encode = encode_raw }

  abbrev pub codecs : List (Codec (Datum Object))
  codecs = dag_cbor ∷ dag_json ∷ raw ∷ []

  abbrev pub sha2_256 : Digest
  sha2_256 = record { name = codes "sha2-256"; code = 0x12; digest = hash_chunks sha256 }

  abbrev pub blake3_256 : Digest
  blake3_256 = record { name = codes "blake3-256"; code = 0x1e; digest = hash_chunks (blake3 32) }

  abbrev pub blake3_128 : Digest
  blake3_128 = record { name = codes "blake3-128"; code = 0x1e; digest = hash_chunks (blake3 16) }

  abbrev pub digests : List Digest
  digests = sha2_256 ∷ blake3_256 ∷ blake3_128 ∷ []

  abbrev codec_named : Str → Result (Codec (Datum Object))
  codec_named name = or_throw (find (λ c. bytes_eq c.name name) codecs) "unsupported codec"

  -- `getCodec`
  unfoldable pub get_codec : Choice (Codec (Datum Object)) → Result (Codec (Datum Object))
  unfolding find bytes_eq
  get_codec absent = codec_named default_codec
  get_codec (named name) = codec_named name
  get_codec (given codec) = ok codec

  abbrev digest_named : Str → Result Digest
  digest_named name = or_throw (find (λ d. bytes_eq d.name name) digests) "unsupported digest"

  -- `getDigest`
  unfoldable pub get_digest : Choice Digest → Result Digest
  unfolding find bytes_eq
  get_digest absent = digest_named default_digest
  get_digest (named name) = digest_named name
  get_digest (given digest) = ok digest

  -- `getCID`
  unfoldable pub get_cid : Datum Object → Choice (Codec (Datum Object)) → Choice Digest → Result Cid
  unfolding get_codec get_digest
  get_cid value codec_option digest_option = do
    codec ← get_codec codec_option
    digest ← get_digest digest_option
    chunks ← codec.encode value
    ok (create_v1 codec.code (create_digest digest.code (digest.digest chunks)))
