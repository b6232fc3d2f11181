-- ===== src/SignedCid/Signers/Laws.antt =====
-- Signing and verifying: packages/signed-cid/src/verify.ts.
use canvas.Base.{
  String, ℕ, ◌≡◌, refl, ◌∙◌, ap, ◌≢◌, ◌↔◌, Bool, true, false, ◌&&◌, Option, none, some, List, [],
  ◌∷◌, ◌++◌, Str, Bytes, codes, length, drop, ◌==◌, any, Result, ok, throw, ◌>>=◌, >>=-eq-ok, arith,
  ==_iff, bytes_eq, assert, Bool-cases, inl, inr,
}
use canvas.Gossip.Log.Types.{or_throw}
use canvas.SignedCid.External.{Datum, External}
use canvas.SignedCid.Cid.{
  Codec, Digest, Choice, named, given, find, get_cid, get_codec, get_digest, digests, hash_chunks,
  blake3_256,
}
use canvas.SignedCid.Signers.{
  SignatureType, ed25519, secp256k1, type_code, same_type, is_multibase, strip, did_key, Signature,
  public_key_of, signer_uri, sign_bytes, sign, verify_bytes, verify_key, verify_signature,
  verify_signed_value,
}

strip_prefix : (prefix text : Str) → strip prefix (prefix ++ text) ≡ some text
unfolding strip
strip_prefix [] text = refl
strip_prefix (c ∷ cs) text = ground (arith, strip_prefix cs text)

pub drop-append {ℓ} : {A : Type ℓ} (xs ys : List A) → drop (length xs) (xs ++ ys) ≡ ys
drop-append [] ys = refl
drop-append (x ∷ xs) ys = drop-append xs ys

or_throw-eq-ok : {A : Type 0} (o : Option A) (m : String) {a : A} → or_throw o m ≡ ok a → o ≡ some a
or_throw-eq-ok none m h = cc
or_throw-eq-ok (some a) m h = cc

module _ (x : External) where
  open x use {
    Object, Cid, cid_code, multihash_code, cid_bytes, cid_equals, base58_encode, base58_decode,
    varint_encode, varint_decode, ed_public_key, ed_sign, ed_verify, secp_public_key, secp_sign,
    to_compact, from_compact, secp_verify, create_digest, create_v1, blake3,
  }

  -- What the packages document: content identifiers, base58btc, varints, and signatures that verify.
  pub record Laws : Type 0 where
    pub created_code : (c d : ℕ) (h : Bytes) → cid_code (create_v1 c (create_digest d h)) ≡ c
    pub created_hash_code :
        (c d : ℕ) (h : Bytes) → multihash_code (create_v1 c (create_digest d h)) ≡ d
    pub equal_cids :
        (c d : ℕ) (h k : Bytes)
        → (cid_equals (create_v1 c (create_digest d h)) (create_v1 c (create_digest d k)) ≡ true)
          ↔ (h ≡ k)
    pub base58_text : (b : ℕ) (bs : Bytes) → is_multibase (base58_encode (b ∷ bs)) ≡ true
    pub base58_inverse : (bs : Bytes) → base58_decode (base58_encode bs) ≡ ok bs
    pub varint_inverse :
        (n : ℕ) (rest : Bytes)
        → varint_decode (varint_encode n ++ rest) ≡ ok (n, length (varint_encode n))
    pub varint_nonempty : (n : ℕ) → (b : ℕ) × (bs : Bytes) × (varint_encode n ≡ b ∷ bs)
    pub ed_signed : (m k : Bytes) → ed_verify (ed_sign m k) m (ed_public_key k) ≡ ok true
    pub compact_inverse : (s : x.Secp) → from_compact (to_compact s) ≡ ok s
    pub secp_signed : (m k : Bytes) → secp_verify (secp_sign m k) m (secp_public_key k) ≡ ok true

  did_key-signer_uri :
      Laws
      → (type : SignatureType) (private_key : Bytes)
      → did_key (signer_uri x type private_key)
        ≡ some (base58_encode (varint_encode (type_code type) ++ public_key_of x type private_key))
  unfolding did_key signer_uri
  did_key-signer_uri laws type private_key =
      let (b, bs, e) = laws.varint_nonempty (type_code type) in
      rw (strip_prefix (codes "did:key:") _, e)
        (rw (laws.base58_text b (bs ++ public_key_of x type private_key)) refl)

  verify_bytes-sign_bytes :
      Laws
      → (type : SignatureType) (message private_key : Bytes)
      → verify_bytes x type
          (sign_bytes x type message private_key)
          message
          (public_key_of x type private_key)
        ≡ ok true
  verify_bytes-sign_bytes laws ed25519 message private_key = laws.ed_signed message private_key
  verify_bytes-sign_bytes laws secp256k1 message private_key =
      rw (laws.compact_inverse (secp_sign message private_key))
        (laws.secp_signed message private_key)

  verify_key-sign_bytes :
      Laws
      → (type : SignatureType) (message private_key : Bytes) (types : List SignatureType)
      → any (same_type type) types ≡ true
      → verify_key x
          (type_code type)
          (public_key_of x type private_key)
          (sign_bytes x type message private_key)
          message
          types
        ≡ ok tt
  unfolding verify_key
  verify_key-sign_bytes laws ed25519 message private_key types h =
      rw (h, laws.ed_signed message private_key) refl
  verify_key-sign_bytes laws secp256k1 message private_key types h =
      rw
        (
          h,
          laws.compact_inverse (secp_sign message private_key),
          laws.secp_signed message private_key,
        )
        refl

  verify_signature-sign_bytes :
      Laws
      → (type : SignatureType) (private_key : Bytes) (types : List SignatureType) (cid : Cid)
      → any (same_type type) types ≡ true
      → verify_signature x
          (record {
            public_key = signer_uri x type private_key;
            signature = sign_bytes x type (cid_bytes cid) private_key;
            cid = cid;
          })
          types
        ≡ ok tt
  unfolding verify_signature
  verify_signature-sign_bytes laws type private_key types cid h =
      rw
        (
          did_key-signer_uri laws type private_key,
          laws.base58_inverse _,
          laws.varint_inverse (type_code type) (public_key_of x type private_key),
          drop-append (varint_encode (type_code type)) (public_key_of x type private_key),
        )
        (verify_key-sign_bytes laws type (cid_bytes cid) private_key types h)

  get_cid-given :
      (value : Datum Object) (codec : Codec (Datum Object)) (digest : Digest) {chunks : List Bytes}
      → codec.encode value ≡ ok chunks
      → get_cid x value (given codec) (given digest)
        ≡ ok (create_v1 codec.code (create_digest digest.code (digest.digest chunks)))
  unfolding get_cid get_codec get_digest
  get_cid-given value codec digest e = rw e refl

  -- A value that a signer signs verifies, if the lists of codecs and digests have, first under their
  -- codes, those it was signed with, and the type of the key is accepted.
  pub verify_signed_value-sign :
      Laws
      → (type : SignatureType) (private_key : Bytes) (value : Datum Object)
      → (codec_option : Choice (Codec (Datum Object))) (digest_option : Choice Digest)
      → (types : List SignatureType) (known_codecs : List (Codec (Datum Object)))
      → (known_digests : List Digest) {codec : Codec (Datum Object)} {digest : Digest}
      → {chunks : List Bytes} → get_codec x codec_option ≡ ok codec
      → get_digest x digest_option ≡ ok digest
      → codec.encode value ≡ ok chunks
      → find (λ c. c.code == codec.code) known_codecs ≡ some codec
      → find (λ d. d.code == digest.code) known_digests ≡ some digest
      → any (same_type type) types ≡ true
      → (s : Signature x) × (sign x type private_key value codec_option digest_option ≡ ok s)
        × (verify_signed_value x s value types known_codecs known_digests ≡ ok tt)
  unfolding sign get_cid verify_signed_value
  verify_signed_value-sign laws type private_key value codec_option digest_option types known_codecs
        known_digests {codec} {digest} {chunks} hc hd he fc fd ht =
      let cid : Cid = create_v1 codec.code (create_digest digest.code (digest.digest chunks)) in
      let s : Signature x = record {
        public_key = signer_uri x type private_key;
        signature = sign_bytes x type (cid_bytes cid) private_key;
        cid = cid;
      } in
      (
        s,
        rw (hc, hd) (rw he refl),
        rw
            (
              laws.created_code codec.code digest.code (digest.digest chunks),
              laws.created_hash_code codec.code digest.code (digest.digest chunks),
              fc,
              fd,
            )
            (rw
              (
                get_cid-given value codec digest he,
                (laws.equal_cids codec.code digest.code (digest.digest chunks)
                      (digest.digest chunks)).1
                    refl,
              )
              (verify_signature-sign_bytes laws type private_key types cid ht)),
      )

  -- A value that is signed with the digest "blake3-128" does not verify by the digests of the package,
  -- if its two hashes differ: the code of the digest is that of "blake3-256", which stands first.
  pub verify_signed_value-blake3_128 :
      Laws
      → (type : SignatureType) (private_key : Bytes) (value : Datum Object)
      → (codec_option : Choice (Codec (Datum Object)))
      → (types : List SignatureType) (known_codecs : List (Codec (Datum Object)))
      → {codec : Codec (Datum Object)} {chunks : List Bytes} → get_codec x codec_option ≡ ok codec
      → codec.encode value ≡ ok chunks
      → find (λ c. c.code == codec.code) known_codecs ≡ some codec
      → hash_chunks (blake3 32) chunks ≢ hash_chunks (blake3 16) chunks
      → (s : Signature x) × (sign x type private_key value codec_option (named (codes "blake3-128"))
          ≡ ok s)
        × (verify_signed_value x s value types known_codecs (digests x)
            ≡ throw "signed CID does not match value")
  unfolding sign get_cid verify_signed_value get_digest find bytes_eq
  verify_signed_value-blake3_128 laws type private_key value codec_option types known_codecs {codec}
        {chunks} hc he fc differ =
      let short = hash_chunks (blake3 16) chunks in
      let long = hash_chunks (blake3 32) chunks in
      let cid : Cid = create_v1 codec.code (create_digest 0x1e short) in
      (
        record {
          public_key = signer_uri x type private_key;
          signature = sign_bytes x type (cid_bytes cid) private_key;
          cid = cid;
        },
        rw hc (rw he refl),
        rw
            (
              laws.created_code codec.code 0x1e short,
              laws.created_hash_code codec.code 0x1e short,
              fc,
            )
            (rw (get_cid-given value codec (blake3_256 x) he)
              (rw (not_equal codec.code long short (λ e. differ e)) refl)),
      )
    where
      not_equal :
          (c : ℕ) (h k : Bytes)
          → h ≢ k
          → cid_equals (create_v1 c (create_digest 0x1e h)) (create_v1 c (create_digest 0x1e k))
            ≡ false
      not_equal c h k ne =
          elim (Bool-cases (
            cid_equals (create_v1 c (create_digest 0x1e h)) (create_v1 c (create_digest 0x1e k)))) [
              | inl e ↦ absurd (ne ((laws.equal_cids c 0x1e h k).0 e))
              | inr e ↦ e
            ]

  -- A signature of some bytes by a key that a `did:key` URI names.
  pub record IsSignedBy (s : Signature x) (types : List SignatureType) : Type 0 where
    pub type : SignatureType
    pub key : Str
    pub decoded : Bytes
    pub key_start : ℕ
    pub is_key : did_key s.public_key ≡ some key
    pub is_decoded : base58_decode key ≡ ok decoded
    pub is_type : varint_decode decoded ≡ ok (type_code type, key_start)
    pub is_accepted : any (same_type type) types ≡ true
    pub is_valid :
        verify_bytes x type s.signature (cid_bytes s.cid) (drop key_start decoded) ≡ ok true

  assert_valid : (c : Bool) (m : String) → assert c m ≡ ok tt → c ≡ true
  assert_valid true m h = refl
  assert_valid false m h = absurd (cc)

  valid_bytes :
      (m : Result Bool) (e : String) → (m >>= λ valid. assert valid e) ≡ ok tt → m ≡ ok true
  valid_bytes (throw message) e h = absurd (cc)
  valid_bytes (ok valid) e h = ap ok (assert_valid valid e h)

  and_true : (a b : Bool) → (a && b) ≡ true → (a ≡ true) × (b ≡ true)
  and_true a b h = ground arith

  verify_key-eq-ok :
      (key_codec : ℕ) (public_key signature message : Bytes) (types : List SignatureType)
      → verify_key x key_codec public_key signature message types ≡ ok tt
      → (type : SignatureType) × (key_codec ≡ type_code type)
        × (any (same_type type) types ≡ true)
        × (verify_bytes x type signature message public_key ≡ ok true)
  unfolding verify_key
  verify_key-eq-ok key_codec public_key signature message types h =
      elim (Bool-cases (key_codec == type_code ed25519 && any (same_type ed25519) types)) [
        | inl e ↦
            let (ec, et) = and_true _ _ e in
            (ed25519, (==_iff _ _).0 ec, et, valid_bytes _ _ (rw e at h))
        | inr e ↦
            elim (Bool-cases
              (key_codec == type_code secp256k1 && any (same_type secp256k1) types)) [
                | inl f ↦
                    let (ec, et) = and_true _ _ f in
                    (secp256k1, (==_iff _ _).0 ec, et, valid_bytes _ _ (rw (e, f) at h))
                | inr f ↦ absurd (throws (rw (e, f) at h))
              ]
      ]
    where
      throws : {m : String} → ◌≡◌ {A = Result (Unit {0})} (throw m) (ok tt) → ⊥
      throws h = cc

  verify_signature-eq-ok :
      (s : Signature x) (types : List SignatureType)
      → verify_signature x s types ≡ ok tt
      → IsSignedBy s types
  unfolding verify_signature
  verify_signature-eq-ok s types h =
      let (key, e1, h1) = >>=-eq-ok (or_throw (did_key s.public_key) _) _ h in
      let (decoded, e2, h2) = >>=-eq-ok (base58_decode key) _ h1 in
      let (kc, e3, h3) = >>=-eq-ok (varint_decode decoded) _ h2 in
      let (type, e4, accepted, valid) =
        verify_key-eq-ok kc.0 (drop kc.1 decoded) s.signature (cid_bytes s.cid) types h3 in
      record {
        type = type;
        key = key;
        decoded = decoded;
        key_start = kc.1;
        is_key = or_throw-eq-ok _ _ e1;
        is_decoded = e2;
        is_type = e3 ∙ ap (λ n. ok (n, kc.1)) e4;
        is_accepted = accepted;
        is_valid = valid;
      }

  -- What verifies was signed: a known codec and digest, the first of their codes, give the value a
  -- content identifier that equals the signed one, and the key of an accepted type that the URI holds
  -- signed the bytes of that identifier.
  pub verify_signed_value-eq-ok :
      (s : Signature x) (value : Datum Object) (types : List SignatureType)
      (known_codecs : List (Codec (Datum Object))) (known_digests : List Digest)
      → verify_signed_value x s value types known_codecs known_digests ≡ ok tt
      → (codec : Codec (Datum Object)) × (digest : Digest) × (cid : Cid) × (find
            (λ c. c.code == cid_code s.cid)
            known_codecs
          ≡ some codec)
        × (find (λ d. d.code == multihash_code s.cid) known_digests ≡ some digest)
        × (get_cid x value (given codec) (given digest) ≡ ok cid)
        × (cid_equals cid s.cid ≡ true)
        × IsSignedBy s types
  unfolding verify_signed_value
  verify_signed_value-eq-ok s value types known_codecs known_digests h =
      let (codec, e1, h1) = >>=-eq-ok (or_throw (find _ known_codecs) _) _ h in
      let (digest, e2, h2) = >>=-eq-ok (or_throw (find _ known_digests) _) _ h1 in
      let (cid, e3, h3) = >>=-eq-ok (get_cid x value (given codec) (given digest)) _ h2 in
      let (t, e4, h4) = >>=-eq-ok (assert (cid_equals cid s.cid) _) _ h3 in
      (
        codec,
        digest,
        cid,
        or_throw-eq-ok _ _ e1,
        or_throw-eq-ok _ _ e2,
        e3,
        assert_valid _ _ e4,
        verify_signature-eq-ok s types h4,
      )
