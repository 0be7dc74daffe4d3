-- ===== src/BlindRsa/Sample.antt =====
-- Toy blind signatures that behave as the interface asks, for tests: everything is 256 bytes that
-- repeat the key.
use pat_go.Base.{
  ℕ, ◌≡◌, refl, [], Bytes, length, replicate, length-replicate, Outcome, ok, err, panic,
  bytes_equal, bytes_equal_refl, guard, ap,
}
use pat_go.BlindRsa.{BlindRsa, BlindRsaLaws, Signed}

unfoldable pub block : ℕ → Bytes
block n = replicate 256 n

length-block : (n : ℕ) → length (block n) ≡ 256
unfolding block
length-block n = length-replicate 256 n

abbrev payload : Outcome (Bytes × Unit {0}) → Bytes
payload (ok (x, _)) = x
payload (err e) = []
payload panic = []

abbrev pub sample : BlindRsa
sample = record {
  PrivateKey = ℕ;
  PublicKey = ℕ;
  Random = Unit;
  VerifierState = Unit;
  public = λ sk. sk;
  blind = λ pk rnd message. ok (block pk, tt);
  fixed_blind = λ pk message blind salt. ok (block pk, tt);
  finalize = λ state s. ok s;
  blind_sign = λ sk blinded. ok (block sk);
  verify_pss = λ pk digest signature. guard (bytes_equal signature (block pk)) "invalid";
  sha384 = λ x. x;
  key_length = λ pk. 256;
}

signed :
    (sk : ℕ) (message blinded : Bytes)
    → ◌≡◌ {A = Outcome (Bytes × Unit {0})} (ok (block sk, tt)) (ok (blinded, tt))
    → Signed sample sk message blinded tt
signed sk message blinded e =
    let same : block sk ≡ blinded = ap payload e in
    (
      block sk,
      block sk,
      rw (← same) (length-block sk),
      refl,
      refl,
      length-block sk,
      rw (bytes_equal_refl (block sk)),
    )

pub sample_laws : BlindRsaLaws sample
sample_laws = record {
  blind_signed = λ sk rnd message blinded state e. signed sk message blinded e;
  fixed_blind_signed = λ sk message blind salt blinded state e. signed sk message blinded e;
}
