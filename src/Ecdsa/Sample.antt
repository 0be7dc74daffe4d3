-- ===== src/Ecdsa/Sample.antt =====
-- A toy curve, on which blinding changes nothing and a signature is valid when its halves agree.
use pat_go.Base.{◌==◌, some, [], Bytes, ok}
use pat_go.Ecdsa.{Ecdsa}

abbrev pub curve : Ecdsa
curve = record {
  PublicKey = Bytes;
  PrivateKey = Bytes;
  Random = Unit;
  public = λ k. k;
  generate_key = λ rnd. ok [];
  blind_key_sign_with_context = λ rnd k b digest ctx. ok (1, 1);
  unmarshal_compressed = λ x. some x;
  marshal_compressed = λ k. k;
  verify = λ k digest r s. r == s;
  create_key = λ x. ok x;
  blind_public_key_with_context = λ k b ctx. ok k;
  unblind_public_key_with_context = λ k b ctx. ok k;
}
