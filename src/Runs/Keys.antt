-- ===== src/Runs/Keys.antt =====
-- Runs of the encodings of token keys, and of a name key that is published.
use pat_go.Base.{◌≡◌, ◌++◌, refl, none, some, [], ◌∷◌, Bytes, ok, err, replicate, arith, ◌>>=◌}
use pat_go.Base.Strings.{codes}
use pat_go.Wire.Sample.{sample}
use pat_go.Ecdsa.Big.{pos}
use pat_go.TokenKeys.{RsaPublicKey, marshal_token_key_pss_oid, pss_algorithm, unmarshal_token_key}
use pat_go.TokenKeys.RoundTrip.{unmarshal-marshal_token_key}
use pat_go.TokenKeys.Sample as DerSample
use pat_go.Type3
use pat_go.Type3.Inner.{InnerRequest}
use pat_go.Type3.Padding.{pad_origin_name, unpad_origin_name}
use pat_go.Hpke.Sample as HpkeSample
use pat_go.Type3.EncapKey.{PrivateEncapKey, EncapKey, public}
use pat_go.Type3.Encryption.{
  encrypt_origin_token_request, decrypt_origin_token_request, associated_data,
}
use pat_go.Type3.Setup.{create_private_encap_key_from_seed}
use pat_go.Type3.Published.{decrypt-encrypt_published}

abbrev rsa_key : RsaPublicKey
rsa_key = record { n = pos 3233; e = pos 17 }

abbrev encoded_key : Bytes
encoded_key =
    48 ∷ 67 ∷ 48 ∷ 57 ∷ 6 ∷ 7 ∷ 1 ∷ 2 ∷ 840 ∷ 113549 ∷ 1 ∷ 1 ∷ 10 ∷ 48 ∷ 46 ∷ 160 ∷ 13 ∷ 48 ∷ 11 ∷ 6
    ∷ 9 ∷ 2 ∷ 16 ∷ 840 ∷ 1 ∷ 101 ∷ 3 ∷ 4 ∷ 2 ∷ 2 ∷ 161 ∷ 24 ∷ 48 ∷ 22 ∷ 6 ∷ 7 ∷ 1 ∷ 2 ∷ 840 ∷ 113549
    ∷ 1 ∷ 1 ∷ 8 ∷ 48 ∷ 11 ∷ 6 ∷ 9 ∷ 2 ∷ 16 ∷ 840 ∷ 1 ∷ 101 ∷ 3 ∷ 4 ∷ 2 ∷ 2 ∷ 162 ∷ 3 ∷ 2 ∷ 1 ∷ 48
    ∷ 3 ∷ 6 ∷ 48 ∷ 4 ∷ 0 ∷ 3233 ∷ 0 ∷ 17 ∷ []

encoding : marshal_token_key_pss_oid DerSample.sample rsa_key ≡ ok encoded_key
unfolding marshal_token_key_pss_oid pss_algorithm
encoding = refl

unmarshal-marshal_token_key_example :
    unmarshal_token_key DerSample.sample (encoded_key ++ 9 ∷ []) ≡ ok rsa_key
unmarshal-marshal_token_key_example =
    unmarshal-marshal_token_key DerSample.sample DerSample.sample_laws rsa_key encoded_key (9 ∷ [])
      encoding

abbrev name : Bytes
name = codes "origin.example"

abbrev message : Bytes
message = replicate 256 8

abbrev seeded_key : PrivateEncapKey HpkeSample.sample
seeded_key = record { id = 1; suite = tt; private_key = 32; public_key = 32 }

seeded : create_private_encap_key_from_seed HpkeSample.sample (replicate 32 5) ≡ ok seeded_key
unfolding create_private_encap_key_from_seed
seeded = refl

short_seed :
    create_private_encap_key_from_seed HpkeSample.sample (replicate 31 5)
    ≡ err "Invalid seed length, expected 32 bytes"
unfolding create_private_encap_key_from_seed
short_seed = refl

abbrev published : Bytes
published = 1 ∷ 0 ∷ 32 ∷ (32 ∷ replicate 31 0) ++ 0 ∷ 1 ∷ 0 ∷ 1 ∷ []

publishing :
    Type3.EncapKey.marshal HpkeSample.sample sample (public HpkeSample.sample seeded_key)
    ≡ some published
unfolding Type3.EncapKey.marshal
publishing = refl

abbrev encrypted : Bytes
encrypted =
    replicate 32 0
    ++ Type3.Inner.layout sample (record {
      raw = none;
      token_key_id = 7;
      blinded_msg = message;
      padded_origin = pad_origin_name name;
    })

sent :
    (Type3.EncapKey.unmarshal HpkeSample.sample sample published >>= λ name_key.
    encrypt_origin_token_request sample HpkeSample.sample
      (λ x. 1 ∷ [])
      tt
      name_key
      7
      message
      (2 ∷ [])
      name)
    ≡ ok (1 ∷ [], encrypted, replicate 16 0)
unfolding encrypt_origin_token_request Type3.EncapKey.marshal Type3.EncapKey.unmarshal
    Type3.Inner.marshal associated_data pad_origin_name
sent = refl

decrypt-encrypt_published_example :
    (r : InnerRequest) × (decrypt_origin_token_request sample HpkeSample.sample
        (λ x. 1 ∷ [])
        seeded_key
        (2 ∷ [])
        encrypted
      ≡ ok (r, replicate 16 0))
    × (r.token_key_id ≡ 7)
    × (r.blinded_msg ≡ message)
    × (unpad_origin_name r.padded_origin ≡ name)
decrypt-encrypt_published_example =
    decrypt-encrypt_published HpkeSample.sample HpkeSample.sample_laws sample (λ x. 1 ∷ [])
      (replicate 32 5) seeded_key published (2 ∷ []) message name 7 tt (1 ∷ []) encrypted
      (replicate 16 0) seeded publishing (omega arith) refl (omega arith) (λ e. cc) sent
