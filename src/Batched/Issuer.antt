-- ===== src/Batched/Issuer.antt =====
-- tokens/typeF91A/issuer.go. An issuer is its private key.
use pat_go.Base.{
  map, Bytes, length, Outcome, ok, ◌>>=◌, guard, or_panic, no_error, bytes_equal, collect,
}
use pat_go.Base.Chunks.{fit}
use pat_go.Wire.{Cryptobyte}
use pat_go.Oprf.{Oprf}
use pat_go.Tokens.{Token, authenticator_input}
use pat_go.Batched.Request.{BatchedRequest, add_all}
use pat_go.Batched.Client.{marshal_elements}

module _ (cb : Cryptobyte) (o : Oprf) (sha256 : Bytes → Bytes) where
  unfoldable pub token_key_id : o.PrivateKey → Outcome Bytes
  token_key_id key = do enc ← no_error (o.marshal_public (o.public key)); ok (sha256 enc)

  unfoldable pub evaluate : o.PrivateKey → BatchedRequest → Outcome Bytes
  evaluate key req = do
    elements ← collect o.unmarshal_element req.blinded_req
    (evaluated, proof) ← o.evaluate key elements
    encs ← marshal_elements o (length req.blinded_req) evaluated
    enc_proof ← o.marshal_proof proof
    let b =
        cb.add_uint16_length_prefixed cb.new_builder
          (λ child. add_all cb child (map (fit o.element_length) encs))
    or_panic (cb.bytes_or_panic (cb.add_bytes b enc_proof))

  unfoldable pub verify : o.PrivateKey → Token → Outcome (Unit {0})
  verify key token = do
    token_input ← or_panic (authenticator_input cb token)
    output ← o.full_evaluate key token_input
    guard (bytes_equal output token.authenticator) "token authentication mismatch"
