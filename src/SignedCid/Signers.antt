-- ===== src/SignedCid/Signers.antt =====
-- packages/signed-cid/src/Ed25519Signer.ts, Secp256k1Signer.ts and verify.ts.
pub mod Laws
use canvas.Base.{
  ℕ, Bool, true, false, ◌&&◌, ◌||◌, not, Option, none, some, List, [], ◌∷◌, ◌++◌, Str, Bytes, codes,
  ltb, leb, ◌==◌, all, any, drop, Result, ok, throw, assert, if◌then◌else◌, ◌>>=◌, ◌>>◌,
}
use canvas.Gossip.Log.Types.{or_throw}
use canvas.SignedCid.External.{Datum, External}
use canvas.SignedCid.Cid.{Codec, Digest, Choice, given, find, get_cid, codecs, digests}

-- `Ed25519Signer` and `Secp256k1Signer`, by their `type`.
pub data SignatureType : Type 0 where
  ed25519 secp256k1 : SignatureType

-- `static code`
abbrev pub type_code : SignatureType → ℕ
type_code ed25519 = 0xed
type_code secp256k1 = 0xe7

-- `types.includes(type)`
abbrev pub same_type : SignatureType → SignatureType → Bool
same_type ed25519 ed25519 = true
same_type secp256k1 secp256k1 = true
same_type _ _ = false

abbrev pub all_types : List SignatureType
all_types = ed25519 ∷ secp256k1 ∷ []

-- The class `[1-9A-HJ-NP-Za-km-z]` of `didKeyPattern`.
abbrev pub is_base58 : ℕ → Bool
is_base58 c =
    (leb b'1' c && leb c b'9')
    || (leb b'A' c && leb c b'H')
    || (leb b'J' c && leb c b'N')
    || (leb b'P' c && leb c b'Z')
    || (leb b'a' c && leb c b'k')
    || (leb b'm' c && leb c b'z')

-- `z[…]+`, up to the end.
unfoldable pub is_multibase : Str → Bool
is_multibase [] = false
is_multibase (z ∷ []) = false
is_multibase (z ∷ c ∷ cs) = z == b'z' && is_base58 c && all is_base58 cs

-- What follows a prefix of a text.
unfoldable pub strip : (prefix text : Str) → Option Str
strip [] text = some text
strip (c ∷ cs) [] = none
strip (c ∷ cs) (d ∷ ds) = if c == d then strip cs ds else none

abbrev pub multibase : Str → Option Str
multibase s = if is_multibase s then some s else none

abbrev pub matched : Option Str → Option Str
matched none = none
matched (some s) = multibase s

-- `didKeyPattern.exec(uri)`: its group.
unfoldable pub did_key : Str → Option Str
unfolding strip is_multibase
did_key uri = matched (strip (codes "did:key:") uri)

module _ (x : External) where
  open x use {
    Object, Cid, cid_code, multihash_code, cid_bytes, cid_equals, base58_encode, base58_decode,
    varint_encode, varint_decode, ed_public_key, ed_sign, ed_verify, secp_public_key, secp_sign,
    to_compact, from_compact, secp_verify,
  }

  pub record Signature : Type 0 where
    pub public_key : Str
    pub signature : Bytes
    pub cid : Cid

  abbrev pub public_key_of : SignatureType → Bytes → Bytes
  public_key_of ed25519 private_key = ed_public_key private_key
  public_key_of secp256k1 private_key = secp_public_key private_key

  -- `uri`, which the constructors set.
  unfoldable pub signer_uri : SignatureType → Bytes → Str
  signer_uri type private_key =
      codes "did:key:"
      ++ base58_encode (varint_encode (type_code type) ++ public_key_of type private_key)

  abbrev pub sign_bytes : SignatureType → (message private_key : Bytes) → Bytes
  sign_bytes ed25519 message private_key = ed_sign message private_key
  sign_bytes secp256k1 message private_key = to_compact (secp_sign message private_key)

  -- `sign`
  unfoldable pub sign :
      SignatureType
      → (private_key : Bytes) → Datum Object
      → Choice (Codec (Datum Object))
      → Choice Digest
      → Result Signature
  unfolding get_cid signer_uri
  sign type private_key value codec digest = do
    cid ← get_cid x value codec digest
    ok (record {
      public_key = signer_uri type private_key;
      signature = sign_bytes type (cid_bytes cid) private_key;
      cid = cid;
    })

  abbrev pub verify_bytes : SignatureType → (signature message public_key : Bytes) → Result Bool
  verify_bytes ed25519 signature message public_key = ed_verify signature message public_key
  verify_bytes secp256k1 signature message public_key = do
    s ← from_compact signature
    secp_verify s message public_key

  -- The ladder over the codec of the key, at the end of `verifySignature`.
  unfoldable pub verify_key :
      (key_codec : ℕ)
      → (public_key : Bytes) → (signature message : Bytes) → List SignatureType
      → Result (Unit {0})
  verify_key key_codec public_key signature message types =
      if key_codec == type_code ed25519 && any (same_type ed25519) types
      then (do
        valid ← verify_bytes ed25519 signature message public_key
        assert valid "invalid ed25519 signature")
      else if key_codec == type_code secp256k1 && any (same_type secp256k1) types
      then (do
        valid ← verify_bytes secp256k1 signature message public_key
        assert valid "invalid secp256k1 signature")
      else throw "unsupported key codec"

  -- `verifySignature`
  unfoldable pub verify_signature : Signature → List SignatureType → Result (Unit {0})
  unfolding did_key verify_key
  verify_signature s types = do
    key ← or_throw (did_key s.public_key) "invalid public key URI"
    decoded ← base58_decode key
    (key_codec, key_codec_length) ← varint_decode decoded
    verify_key key_codec (drop key_codec_length decoded) s.signature (cid_bytes s.cid) types

  -- `verifySignedValue`
  unfoldable pub verify_signed_value :
      Signature
      → Datum Object
      → List SignatureType
      → List (Codec (Datum Object))
      → List Digest
      → Result (Unit {0})
  unfolding find get_cid verify_signature
  verify_signed_value s value types codecs_option digests_option = do
    codec ← or_throw (find (λ c. c.code == cid_code s.cid) codecs_option) "unsupported codec"
    digest ←
        or_throw (find (λ d. d.code == multihash_code s.cid) digests_option) "unsupported digest"
    cid ← get_cid x value (given codec) (given digest)
    assert (cid_equals cid s.cid) "signed CID does not match value"
    verify_signature s types
