-- ===== src/Type1/Issuer.antt =====
-- tokens/type1/issuer.go. An issuer is its private key.
use pat_go.Base.{
  [], ◌∷◌, ◌++◌, Bytes, get_elem?, Outcome, ok, ◌>>=◌, guard, or_panic, no_error, bytes_equal,
}
use pat_go.Wire.{Cryptobyte}
use pat_go.Oprf.{Oprf}
use pat_go.Tokens.{Token, authenticator_input}
use pat_go.Basic.{TokenRequest}

module _ (cb : Cryptobyte) (o : Oprf) (sha256 : Bytes → Bytes) where
  unfoldable pub token_key_id : o.PrivateKey → Outcome Bytes
  token_key_id key = do enc ← no_error (o.marshal_public (o.public key)); ok (sha256 enc)

  unfoldable pub evaluate : o.PrivateKey → TokenRequest → Outcome Bytes
  evaluate key req = do
    e ← o.unmarshal_element req.blinded_req
    (elements, proof) ← o.evaluate key (e ∷ [])
    evaluated ← or_panic (get_elem? elements 0)
    enc_evaluated_element ← o.marshal_element evaluated
    enc_proof ← o.marshal_proof proof
    ok (enc_evaluated_element ++ enc_proof)

  unfoldable pub verify : o.PrivateKey → Token → Outcome (Unit {0})
  verify key token = do
    token_input ← or_panic (authenticator_input cb token)
    output ← o.full_evaluate key token_input
    guard (bytes_equal output token.authenticator) "token authentication mismatch"
