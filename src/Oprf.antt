-- ===== src/Oprf.antt =====
-- The oblivious pseudorandom function of github.com/cloudflare/circl (oprf, group and zk/dleq),
-- in its verifiable mode, as an interface. Errors are results; the randomness of `Blind` is an
-- argument.
pub mod Sample
use pat_go.Base.{ℕ, ◌≡◌, List, [], ◌∷◌, Bytes, length, Outcome, ok}

pub record Oprf : Type 1 where
  pub PrivateKey : Type 0
  pub PublicKey : Type 0
  pub Random : Type 0
  pub Scalar : Type 0
  pub Element : Type 0
  pub Proof : Type 0
  pub FinalizeData : Type 0
  pub public : PrivateKey → PublicKey
  pub marshal_public : PublicKey → Outcome Bytes
  pub unmarshal_public : Bytes → Outcome PublicKey
  pub marshal_private : PrivateKey → Outcome Bytes
  pub unmarshal_private : Bytes → Outcome PrivateKey
  pub unmarshal_scalar : Bytes → Outcome Scalar
  pub marshal_element : Element → Outcome Bytes
  pub unmarshal_element : Bytes → Outcome Element
  pub marshal_proof : Proof → Outcome Bytes
  pub unmarshal_proof : Bytes → Outcome Proof
  pub blind : PublicKey → Random → List Bytes → Outcome (FinalizeData × List Element)
  pub deterministic_blind :
      PublicKey → List Bytes → List Scalar → Outcome (FinalizeData × List Element)
  pub evaluate : PrivateKey → List Element → Outcome (List Element × Proof)
  pub finalize : PublicKey → FinalizeData → List Element → Proof → Outcome (List Bytes)
  pub full_evaluate : PrivateKey → Bytes → Outcome Bytes
  -- `CompressedElementLength`, and twice `ScalarLength`, of the group.
  pub element_length : ℕ
  pub proof_length : ℕ
  -- the length of an output, which is that of the suite's hash
  pub output_length : ℕ

-- The outputs are those of the function itself, one for each input.
abbrev pub Outputs : (o : Oprf) → o.PrivateKey → List Bytes → List Bytes → Type 0
Outputs o sk [] [] = Unit
Outputs o sk [] (y ∷ ys) = ⊥
Outputs o sk (x ∷ xs) [] = ⊥
Outputs o sk (x ∷ xs) (y ∷ ys) =
    (o.full_evaluate sk x ≡ ok y) × (length y ≡ o.output_length) × Outputs o sk xs ys

-- What a client that blinded `inputs` may expect of the holder of the key.
abbrev pub Answered :
    (o : Oprf) → o.PrivateKey → List Bytes → o.FinalizeData → List o.Element → Type 0
Answered o sk inputs fd elements =
    (evaluated : List o.Element) × (proof : o.Proof) × (outputs : List Bytes) × (length elements
      ≡ length inputs)
    × (length evaluated ≡ length inputs)
    × (o.evaluate sk elements ≡ ok (evaluated, proof))
    × (o.finalize (o.public sk) fd evaluated proof ≡ ok outputs)
    × Outputs o sk inputs outputs

-- The documented behaviour: encodings have their fixed lengths and decode to what was encoded,
-- and an honest evaluation of blinded inputs finalizes to the function's values.
pub record OprfLaws (o : Oprf) : Type 0 where
  pub element_round_trip :
      (e : o.Element)
      → (enc : Bytes) × (o.marshal_element e ≡ ok enc)
        × (length enc ≡ o.element_length)
        × (o.unmarshal_element enc ≡ ok e)
  pub proof_round_trip :
      (p : o.Proof)
      → (enc : Bytes) × (o.marshal_proof p ≡ ok enc)
        × (length enc ≡ o.proof_length)
        × (o.unmarshal_proof enc ≡ ok p)
  pub blind_answered :
      (sk : o.PrivateKey) (rnd : o.Random) (inputs : List Bytes) (fd : o.FinalizeData)
      (elements : List o.Element)
      → o.blind (o.public sk) rnd inputs ≡ ok (fd, elements)
      → Answered o sk inputs fd elements
  pub deterministic_blind_answered :
      (sk : o.PrivateKey) (inputs : List Bytes) (blinds : List o.Scalar) (fd : o.FinalizeData)
      (elements : List o.Element)
      → o.deterministic_blind (o.public sk) inputs blinds ≡ ok (fd, elements)
      → Answered o sk inputs fd elements
