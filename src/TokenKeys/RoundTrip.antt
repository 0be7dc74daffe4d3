-- ===== src/TokenKeys/RoundTrip.antt =====
-- A token key that is written is read back.
use pat_go.Base.{
  ◌≡◌, some, [], ◌++◌, Bytes, bytes_equal, append-nil, ok, ◌>>=◌, >>=-eq-ok, ok-injective, subst,
  refl, ◌∙◌,
}
use pat_go.Base.Strings.{codes}
use pat_go.TokenKeys.{
  RsaPublicKey, Der, DerLaws, algorithm, rsa_key, oid_sha384, oid_mgf, oid_rsa_pss, pss_algorithm,
  marshal_token_key_pss_oid, read_key, unmarshal_token_key, marshal_token_private_key,
  unmarshal_token_private_key,
}

module _ (der : Der) (laws : DerLaws der) where
  -- The identifier of the algorithm is one element.
  pss_algorithm-inv :
      {out : Bytes}
      → pss_algorithm der ≡ ok out
      → (content : Bytes) × (der.add_asn1 48 content ≡ ok out)
  unfolding pss_algorithm
  pss_algorithm-inv made =
      let (sha384, _, made1) = >>=-eq-ok (algorithm der oid_sha384 []) _ made in
      let (hash, _, made2) = >>=-eq-ok (der.add_asn1 160 sha384) _ made1 in
      let (mask_function, _, made3) = >>=-eq-ok (algorithm der oid_mgf sha384) _ made2 in
      let (mask, _, made4) = >>=-eq-ok (der.add_asn1 161 mask_function) _ made3 in
      let (salt, _, made5) = >>=-eq-ok (der.add_asn1 162 (der.add_int64 48)) _ made4 in
      let (parameters, _, made6) = >>=-eq-ok (der.add_asn1 48 (hash ++ mask ++ salt)) _ made5 in
      let (name, _, element) = >>=-eq-ok (der.add_object_identifier oid_rsa_pss) _ made6 in
      (name ++ parameters, element)

  read_key-marshal :
      (key : RsaPublicKey) (out : Bytes)
      → der.marshal_pkcs1 key ≡ ok out
      → read_key der out ≡ ok key
  unfolding read_key
  read_key-marshal key out made =
      let (inner, (after, (opened, (modulus, exponent)))) = laws.read-marshal_pkcs1 key out made in
      rw (opened, modulus, exponent) refl

  -- A public key that is written with the identifier of RSA-PSS is read back as it was, whatever
  -- follows it, given that ASN.1 is read back as it is written.
  pub unmarshal-marshal_token_key :
      (key : RsaPublicKey) (out rest : Bytes)
      → marshal_token_key_pss_oid der key ≡ ok out
      → unmarshal_token_key der (out ++ rest) ≡ ok key
  unfolding marshal_token_key_pss_oid unmarshal_token_key
  unmarshal-marshal_token_key key out rest made =
      let (public_key_bytes, encoded, made') = >>=-eq-ok (der.marshal_pkcs1 key) _ made in
      let (identifier, identified, made'') = >>=-eq-ok (pss_algorithm der) _ made' in
      let (bits, as_bits, closed) = >>=-eq-ok (der.add_bit_string public_key_bytes) _ made'' in
      let (content, element) = pss_algorithm-inv identified in
      let (bit_string, (read_bits, aligned)) =
        laws.read-add_bit_string public_key_bytes bits [] as_bits in
      rw
        (
          laws.read-add_asn1 48 (identifier ++ bits) out rest closed,
          laws.read-add_asn1 48 content identifier bits element,
          subst (λ t. der.read_bit_string t ≡ some (bit_string, [])) (append-nil bits) read_bits,
          aligned,
        )
        (read_key-marshal key public_key_bytes encoded)

  opened :
      (xs : Bytes)
      → unmarshal_token_private_key der (der.pem_encode (codes "PRIVATE KEY") xs)
        ≡ (der.parse_pkcs8 xs >>= rsa_key der)
  unfolding unmarshal_token_private_key bytes_equal
  opened xs = rw (laws.pem_decode-encode (codes "PRIVATE KEY") xs) refl

  -- A private key that is written is read back as it was.
  pub unmarshal-marshal_token_private_key :
      (key : der.PrivateKey) (out : Bytes)
      → marshal_token_private_key der key ≡ ok out
      → unmarshal_token_private_key der out ≡ ok key
  unfolding marshal_token_private_key
  unmarshal-marshal_token_private_key key out made =
      let (encoded, written, finished) = >>=-eq-ok (der.marshal_pkcs8 key) _ made in
      subst (λ o. unmarshal_token_private_key der o ≡ ok key) (ok-injective finished)
        (opened encoded ∙ rw (laws.parse-marshal_pkcs8 key encoded written) refl)
