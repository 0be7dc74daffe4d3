-- ===== src/Oprf/Sample.antt =====
-- A toy function that behaves as the interface asks, for tests: an element is a number, the key is
-- added to it, and an output repeats the sum.
use pat_go.Base.{
  ℕ, suc, ◌+◌, ◌≡◌, refl, ap, List, [], ◌∷◌, map, Bytes, length, replicate, length-replicate,
  Outcome, ok, err, arith,
}
use pat_go.Oprf.{Oprf, OprfLaws, Outputs, Answered}

abbrev digest : Bytes → ℕ
digest [] = 0
digest (b ∷ s) = b + digest s

abbrev first : Bytes → Outcome ℕ
first [] = err "short"
first (n ∷ s) = ok n

abbrev only_zero : Bytes → Outcome (Unit {0})
only_zero [] = err "short"
only_zero (n ∷ s) = ok tt

abbrev pub sample : ℕ → Oprf
sample len = record {
  PrivateKey = ℕ;
  PublicKey = ℕ;
  Random = Unit;
  Scalar = Unit;
  Element = ℕ;
  Proof = Unit;
  FinalizeData = Unit;
  public = λ sk. sk;
  marshal_public = λ pk. ok (pk ∷ []);
  unmarshal_public = first;
  marshal_private = λ sk. ok (sk ∷ []);
  unmarshal_private = first;
  unmarshal_scalar = only_zero;
  marshal_element = λ e. ok (e ∷ replicate 31 0);
  unmarshal_element = first;
  marshal_proof = λ p. ok (0 ∷ []);
  unmarshal_proof = only_zero;
  blind = λ pk rnd inputs. ok (tt, map digest inputs);
  deterministic_blind = λ pk inputs blinds. ok (tt, map digest inputs);
  evaluate = λ sk elements. ok (map (λ e. e + sk) elements, tt);
  finalize = λ pk fd elements proof. ok (map (replicate len) elements);
  full_evaluate = λ sk x. ok (replicate len (digest x + sk));
  element_length = 32;
  proof_length = 1;
  output_length = len;
}

lengths : (sk : ℕ) (xs : List Bytes) → length (map (λ e. e + sk) (map digest xs)) ≡ length xs
lengths sk [] = refl
lengths sk (x ∷ xs) = ap suc (lengths sk xs)

length-map : (xs : List Bytes) → length (map digest xs) ≡ length xs
length-map [] = refl
length-map (x ∷ xs) = ap suc (length-map xs)

outputs :
    (len sk : ℕ) (xs : List Bytes)
    → Outputs (sample len) sk xs (map (replicate len) (map (λ e. e + sk) (map digest xs)))
outputs len sk [] = tt
outputs len sk (x ∷ xs) = (refl, length-replicate len (digest x + sk), outputs len sk xs)

pub answered :
    (len sk : ℕ) (xs : List Bytes) (elements : List ℕ)
    → ◌≡◌ {A = Outcome (Unit {0} × List ℕ)} (ok (tt, map digest xs)) (ok (tt, elements))
    → Answered (sample len) sk xs tt elements
answered len sk xs elements e =
    let same : map digest xs ≡ elements = ground arith in
    rw (← same) (
      map (λ e. e + sk) (map digest xs),
      tt,
      map (replicate len) (map (λ e. e + sk) (map digest xs)),
      length-map xs,
      lengths sk xs,
      refl,
      refl,
      outputs len sk xs,
    )

pub sample_laws : (len : ℕ) → OprfLaws (sample len)
sample_laws len = record {
  element_round_trip = λ e. (e ∷ replicate 31 0, refl, refl, refl);
  proof_round_trip = λ p. (0 ∷ [], refl, refl, refl);
  blind_answered = λ sk rnd inputs fd elements e. answered len sk inputs elements e;
  deterministic_blind_answered =
      λ sk inputs blinds fd elements e. answered len sk inputs elements e;
}
