-- ===== src/SignedCid/Tests.antt =====
-- Concrete codecs, hashes and keys, and the theorems on them: packages/signed-cid.
use canvas.Base.{
  ℕ, zero, suc, ◌+◌, ◌≡◌, refl, ap, ◌∙◌, ◌≢◌, true, ◌&&◌, some, [], ◌∷◌, ◌++◌, Str, Bytes, codes,
  take, replicate, ◌==◌, all, bytes_eq, bytes_eq_iff, bytes_eq_self, Result, ok, throw, arith,
  if◌then◌else◌, length,
}
use canvas.SignedCid.External.{Datum, string, bytes, object, Hasher, External}
use canvas.SignedCid.Cid.{
  Codec, Digest, absent, named, given, find, get_cid, get_codec, get_digest, dag_cbor, codecs,
  digests, sha2_256, hash_chunks,
}
use canvas.SignedCid.Signers.{
  ed25519, secp256k1, all_types, is_base58, is_multibase, Signature, sign, verify_signed_value,
  verify_signature, signer_uri,
}
use canvas.SignedCid.Signers.Laws.{
  Laws, verify_signed_value-sign, verify_signed_value-blake3_128, IsSignedBy,
  verify_signed_value-eq-ok,
}

-- A number in unary: as many `1`, then `2`.
unary : ℕ → Str → Str
unary zero rest = b'2' ∷ rest
unary (suc n) rest = b'1' ∷ unary n rest

text_of : Bytes → Str
unfolding unary
text_of [] = []
text_of (b ∷ bs) = unary b (text_of bs)

bytes_of : ℕ → Str → Bytes
bytes_of n [] = []
bytes_of n (c ∷ cs) = if c == b'1' then bytes_of (suc n) cs else n ∷ bytes_of 0 cs

bytes_of-unary : (n b : ℕ) (rest : Str) → bytes_of n (unary b rest) ≡ (n + b) ∷ bytes_of 0 rest
unfolding bytes_of unary
bytes_of-unary n zero rest = ap (λ k. k ∷ bytes_of 0 rest) (omega arith)
bytes_of-unary n (suc b) rest =
    bytes_of-unary (suc n) b rest ∙ ap (λ k. k ∷ bytes_of 0 rest) (omega arith)

bytes_of-text_of : (bs : Bytes) → bytes_of 0 (text_of bs) ≡ bs
unfolding text_of bytes_of
bytes_of-text_of [] = refl
bytes_of-text_of (b ∷ bs) =
    bytes_of-unary 0 b (text_of bs)
    ∙ ap (λ cs. (0 + b) ∷ cs) (bytes_of-text_of bs)
    ∙ ap (λ k. k ∷ bs) (omega arith)

all-unary : (n : ℕ) (rest : Str) → all is_base58 rest ≡ true → all is_base58 (unary n rest) ≡ true
unfolding unary
all-unary zero rest h = h
all-unary (suc n) rest h = all-unary n rest h

all-text_of : (bs : Bytes) → all is_base58 (text_of bs) ≡ true
unfolding text_of
all-text_of [] = refl
all-text_of (b ∷ bs) = all-unary b (text_of bs) (all-text_of bs)

text_of-IsMultibase : (b : ℕ) (bs : Bytes) → is_multibase (b'z' ∷ text_of (b ∷ bs)) ≡ true
unfolding text_of unary is_multibase
text_of-IsMultibase zero bs = all-text_of bs
text_of-IsMultibase (suc b) bs = all-unary b (text_of bs) (all-text_of bs)

abbrev first_bytes : ℕ → Hasher
first_bytes n = record { State = Bytes; create = []; update = ◌++◌; finish = take n }

abbrev serialized : Datum (Unit {0}) → Result Bytes
serialized (string s) = ok s
serialized (bytes b) = ok b
serialized (object o) = ok []

abbrev read_text : Str → Result Bytes
read_text [] = throw "no text"
read_text (z ∷ cs) = ok (bytes_of 0 cs)

abbrev read_varint : Bytes → Result (ℕ × ℕ)
read_varint [] = throw "no varint"
read_varint (b ∷ bs) = ok (b, 1)

abbrev packages : External
packages = record {
  Object = Unit {0};
  cbor_code = 0x71;
  json_code = 0x129;
  raw_code = 0x55;
  cbor_encode = serialized;
  json_encode = serialized;
  utf8 = λ s. s;
  sha256 = first_bytes 32;
  blake3 = first_bytes;
  Multihash = ℕ × Bytes;
  create_digest = λ d h. (d, h);
  Cid = ℕ × (ℕ × Bytes);
  create_v1 = λ c m. (c, m);
  cid_code = λ c. c.0;
  multihash_code = λ c. c.1.0;
  cid_bytes = λ c. c.0 ∷ c.1.0 ∷ c.1.1;
  cid_equals = λ a b. a.0 == b.0 && a.1.0 == b.1.0 && bytes_eq a.1.1 b.1.1;
  base58_encode = λ bs. b'z' ∷ text_of bs;
  base58_decode = read_text;
  varint_encode = λ n. n ∷ [];
  varint_decode = read_varint;
  ed_public_key = λ k. k;
  ed_sign = λ m k. k ++ m;
  ed_verify = λ s m k. ok (bytes_eq s (k ++ m));
  Secp = Bytes;
  secp_public_key = λ k. 2 ∷ k;
  secp_sign = λ m k. 2 ∷ k ++ m;
  to_compact = λ s. s;
  from_compact = λ s. ok s;
  secp_verify = λ s m k. ok (bytes_eq s (k ++ m));
}

packages-Laws : Laws packages
unfolding text_of bytes_of
packages-Laws = record {
  created_code = λ c d h. refl;
  created_hash_code = λ c d h. refl;
  equal_cids = λ c d h k. ground (arith, bytes_eq_iff h k);
  base58_text = text_of-IsMultibase;
  base58_inverse = λ bs. ap ok (bytes_of-text_of bs);
  varint_inverse = λ n rest. refl;
  varint_nonempty = λ n. (n, [], refl);
  ed_signed = λ m k. ap ok (bytes_eq_self (k ++ m));
  compact_inverse = λ s. refl;
  secp_signed = λ m k. ap ok (bytes_eq_self (2 ∷ k ++ m));
}

abbrev value : Datum (Unit {0})
value = bytes (replicate 20 7)

abbrev private_key : Bytes
private_key = 1 ∷ 2 ∷ 3 ∷ []

default_codec_found : get_codec packages absent ≡ ok (dag_cbor packages)
unfolding get_codec
default_codec_found = refl

default_digest_found : get_digest packages absent ≡ ok (sha2_256 packages)
unfolding get_digest
default_digest_found = refl

cbor_found : find (λ c. c.code == 0x71) (codecs packages) ≡ some (dag_cbor packages)
unfolding find
cbor_found = refl

sha256_found : find (λ d. d.code == 0x12) (digests packages) ≡ some (sha2_256 packages)
unfolding find
sha256_found = refl

hashes_differ :
    hash_chunks (first_bytes 32) (replicate 20 7 ∷ [])
    ≢ hash_chunks (first_bytes 16) (replicate 20 7 ∷ [])
unfolding hash_chunks
hashes_differ h = omega (arith, ap length h)

verify_signed_value-sign_example :
    (s : Signature packages) × (sign packages secp256k1 private_key value absent absent ≡ ok s)
    × (verify_signed_value packages s value all_types (codecs packages) (digests packages) ≡ ok tt)
verify_signed_value-sign_example =
    verify_signed_value-sign packages packages-Laws secp256k1 private_key value absent absent
      all_types (codecs packages) (digests packages) default_codec_found default_digest_found refl
      cbor_found sha256_found refl

verify_signed_value-blake3_128_example :
    (s : Signature packages) × (sign packages ed25519 private_key value absent
        (named (codes "blake3-128"))
      ≡ ok s)
    × (verify_signed_value packages s value all_types (codecs packages) (digests packages)
        ≡ throw "signed CID does not match value")
verify_signed_value-blake3_128_example =
    verify_signed_value-blake3_128 packages packages-Laws ed25519 private_key value absent all_types
      (codecs packages) default_codec_found refl cbor_found hashes_differ

abbrev signed : Signature packages
signed = record {
  public_key = signer_uri packages ed25519 private_key;
  signature = private_key ++ 0x71 ∷ 0x12 ∷ replicate 20 7;
  cid = (0x71, (0x12, replicate 20 7));
}

signed_verifies :
    verify_signed_value packages signed value all_types (codecs packages) (digests packages) ≡ ok tt
unfolding verify_signed_value verify_signature hash_chunks signer_uri text_of unary bytes_of
    bytes_eq
signed_verifies = refl

verify_signed_value-eq-ok_example :
    (codec : Codec (Datum (Unit {0}))) × (digest : Digest) × (cid : ℕ × (ℕ × Bytes)) × (find
        (λ c. c.code == 0x71)
        (codecs packages)
      ≡ some codec)
    × (find (λ d. d.code == 0x12) (digests packages) ≡ some digest)
    × (get_cid packages value (given codec) (given digest) ≡ ok cid)
    × (packages.cid_equals cid signed.cid ≡ true)
    × IsSignedBy packages signed all_types
verify_signed_value-eq-ok_example =
    verify_signed_value-eq-ok packages signed value all_types (codecs packages) (digests packages)
      signed_verifies
