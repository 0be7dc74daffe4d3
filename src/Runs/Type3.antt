-- ===== src/Runs/Type3.antt =====
-- Rate-limited tokens: requests, names, keys and the inner request, over toy cryptography.
use pat_go.Base.{◌≡◌, ◌⊎◌, ◌++◌, refl, true, none, [], ◌∷◌, Bytes, length, ok, replicate, arith}
use pat_go.Base.Strings.{codes}
use pat_go.Wire.Sample.{sample}
use pat_go.Type3
use pat_go.Type3.Request.{RateLimitedRequest, empty_limited, unmarshal}
use pat_go.Type3.Layout.{HasParts, layout, signed_layout}
use pat_go.Type3.Inner.{InnerRequest}
use pat_go.Type3.Padding.{pad_origin_name}
use pat_go.Hpke.Sample as HpkeSample
use pat_go.Type3.EncapKey.{PrivateEncapKey, EncapKey, public}
use pat_go.Type3.Encryption.{encrypt_origin_token_request, associated_data}

abbrev pub request : RateLimitedRequest
request = record {
  raw = none;
  request_key = replicate 49 1;
  name_key_id = replicate 32 2;
  encrypted_token_request = 3 ∷ 4 ∷ [];
  signature = replicate 96 5;
}

pub request_parts : HasParts request
request_parts = record {
  request_key_length = refl;
  name_key_id_length = refl;
  encrypted_nonempty = λ e. cc;
  encrypted_fits = omega arith;
}

pub unsigned_read :
    unmarshal sample empty_limited (signed_layout request)
    ≡ (record request { signature = [] }, true)
unsigned_read = Type3.Layout.unmarshal-unsigned sample request empty_limited request_parts

unmarshal-inv_limited_example :
    HasParts (record request { signature = [] })
    × (request.raw ≡ none)
    × (((length empty_limited.signature ≡ 96)
          × (signed_layout request ≡ layout (record request { signature = [] })))
        ⊎ ((◌≡◌ {A = Bytes} [] []) × (signed_layout request ≡ signed_layout request)))
unmarshal-inv_limited_example =
    Type3.Inversion.unmarshal-inv_limited sample empty_limited (signed_layout request) (omega arith)
      unsigned_read

abbrev inner : InnerRequest
inner = record {
  raw = none;
  token_key_id = 7;
  blinded_msg = replicate 256 8;
  padded_origin = 65 ∷ [];
}

inner_read :
    Type3.Inner.unmarshal sample inner (Type3.Inner.layout sample inner ++ []) ≡ (inner, true)
inner_read = Type3.Inner.unmarshal-inner_layout sample inner inner [] refl

abbrev name : Bytes
name = codes "origin.example"

abbrev name_key : PrivateEncapKey HpkeSample.sample
name_key = record { id = 1; suite = tt; private_key = 6; public_key = 6 }

abbrev message : Bytes
message = replicate 256 8

abbrev sent_inner : InnerRequest
sent_inner = record {
  raw = none;
  token_key_id = 7;
  blinded_msg = message;
  padded_origin = pad_origin_name name;
}

abbrev encrypted : Bytes
encrypted = replicate 32 0 ++ Type3.Inner.layout sample sent_inner

made_encrypted :
    encrypt_origin_token_request sample HpkeSample.sample
      (λ x. 1 ∷ [])
      tt
      (public HpkeSample.sample name_key)
      7
      message
      (2 ∷ [])
      name
    ≡ ok (1 ∷ [], encrypted, replicate 16 0)
unfolding encrypt_origin_token_request Type3.EncapKey.marshal Type3.Inner.marshal associated_data
    pad_origin_name
made_encrypted = refl
