-- ===== src/Batched/Outputs.antt =====
-- The tokens that a batch of outputs makes.
use pat_go.Base.{
  suc, ◌≡◌, refl, ap, ◌∙◌, List, [], ◌∷◌, map, Bytes, length, ok, bytes_equal_refl, arith, collect,
  All,
}
use pat_go.Base.Chunks.{HasLength}
use pat_go.Wire.{Cryptobyte}
use pat_go.Oprf.{Oprf, Outputs}
use pat_go.Tokens.{Token}
use pat_go.Tokens.Layout.{
  HasShape, input_layout, authenticator_input_lem, unmarshal_token-input_layout,
}
use pat_go.Batched.{unmarshal_batched_private_token}
use pat_go.Batched.Client.{read_tokens, unauthenticated, token_input}
use pat_go.Batched.Issuer.{verify}

-- The authenticator taken off.
abbrev pub bare : Token → Token
bare t = record t { authenticator = [] }

module _ (cb : Cryptobyte) (o : Oprf) (sha256 : Bytes → Bytes) (challenge key_id : Bytes) where
  abbrev pub bare_token : Bytes → Token
  bare_token nonce = unauthenticated cb o sha256 challenge key_id nonce

  abbrev pub input : Bytes → Bytes
  input nonce = input_layout (bare_token nonce)

  pub inputs_made :
      (nonces : List Bytes)
      → collect (token_input cb o sha256 challenge key_id) nonces ≡ ok (map input nonces)
  unfolding token_input
  inputs_made [] = refl
  inputs_made (nonce ∷ nonces) =
      simp (authenticator_input_lem cb (bare_token nonce) (omega arith), inputs_made nonces)

  pub length-map-input : (nonces : List Bytes) → length (map input nonces) ≡ length nonces
  length-map-input [] = refl
  length-map-input (nonce ∷ nonces) = ap suc (length-map-input nonces)

  module _ (output_fits : o.output_length ≡ 64) (hash_length : (x : Bytes) → length (sha256 x) ≡ 32)
      (sk : o.PrivateKey) (key_id_length : length key_id ≡ 32) where
    token_shape : (nonce : Bytes) → length nonce ≡ 32 → HasShape 0 (bare_token nonce)
    token_shape nonce h = record {
      type_fits = omega arith;
      nonce_length = h;
      context_length = hash_length challenge;
      key_id_length = key_id_length;
      authenticator_length = refl;
    }

    -- The tokens that are read for outputs of the function itself.
    pub made_tokens :
        (nonces outputs : List Bytes)
        → All (HasLength 32) nonces
        → Outputs o sk (map input nonces) outputs
        → (tokens : List Token) × ((read_tokens cb o sha256 (map input nonces) outputs ≡ ok tokens)
            × (map bare tokens ≡ map bare_token nonces)
            × All (λ t. verify cb o sha256 sk t ≡ ok tt) tokens)
    unfolding read_tokens verify unmarshal_batched_private_token
    made_tokens [] [] lens known = ([], (refl, refl, tt))
    made_tokens [] (out ∷ outputs) lens known = absurd known
    made_tokens (nonce ∷ nonces) [] lens known = absurd known
    made_tokens (nonce ∷ nonces) (out ∷ outputs) lens (value, len, known) =
        let (tokens, (e, same, verified)) = made_tokens nonces outputs lens.1 known in
        let t = bare_token nonce in
        let shape = token_shape nonce lens.0 in
        (
          record t { authenticator = out } ∷ tokens,
          (
            simp (
              unmarshal_token-input_layout cb 64 t out shape (len ∙ output_fits),
              e,
              read_tokens,
            ),
            ap (λ ts. t ∷ ts) same,
            (
              simp (
                authenticator_input_lem cb (record t { authenticator = out }) shape.type_fits,
                value,
                bytes_equal_refl out,
                verify,
              ),
              verified,
            ),
          ),
        )
