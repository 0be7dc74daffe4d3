-- ===== src/Hpke.antt =====
-- Hybrid public key encryption: github.com/cisco/go-hpke in its base mode, as an interface. The
-- randomness of the sender is an argument.
pub mod Sample
use pat_go.Base.{ℕ, ◌<◌, ◌≡◌, Bool, Option, some, Bytes, length, Outcome, ok}

pub record Hpke : Type 1 where
  pub Suite : Type 0
  pub PublicKey : Type 0
  pub PrivateKey : Type 0
  pub Random : Type 0
  pub Sender : Type 0
  pub Receiver : Type 0
  -- `AssembleCipherSuite`, from the identifiers of KEM, KDF and AEAD; and those of a suite
  pub assemble : ℕ → ℕ → ℕ → Option Suite
  pub kem_id : Suite → ℕ
  pub kdf_id : Suite → ℕ
  pub aead_id : Suite → ℕ
  -- `KDF_HKDF_SHA256`, `AEAD_AESGCM128` and `DHKEM_X25519`
  pub fixed_kdf : ℕ
  pub fixed_aead : ℕ
  pub fixed_kem : ℕ
  -- Go's `==` on suites
  pub same_suite : Suite → Suite → Bool
  pub public_key_size : Suite → ℕ
  pub aead_key_size : Suite → ℕ
  pub serialize_public_key : Suite → PublicKey → Bytes
  pub deserialize_public_key : Suite → Bytes → Outcome PublicKey
  pub public : Suite → PrivateKey → PublicKey
  pub private_key_size : Suite → ℕ
  pub derive_key_pair : Suite → Bytes → Outcome (PrivateKey × PublicKey)
  pub setup_base_s : Suite → Random → PublicKey → Bytes → Outcome (Bytes × Sender)
  pub setup_base_r : Suite → PrivateKey → Bytes → Bytes → Outcome Receiver
  -- the associated data and the text
  pub seal : Sender → Bytes → Bytes → Bytes
  pub open_ : Receiver → Bytes → Bytes → Outcome Bytes
  -- the label and the length
  pub export_sender : Sender → Bytes → ℕ → Bytes
  pub export_receiver : Receiver → Bytes → ℕ → Bytes

-- The documented behaviour: a suite is assembled again from its identifiers, the length of a public
-- key depends on the KEM alone, keys decode to what was encoded, a pair
-- of keys that is derived belongs together, and a receiver with the private key
-- opens what the sender sealed and exports the same secrets.
pub record HpkeLaws (h : Hpke) : Type 0 where
  pub assemble_ids : (s : h.Suite) → h.assemble (h.kem_id s) (h.kdf_id s) (h.aead_id s) ≡ some s
  pub assemble_kem :
      (s : h.Suite)
      → (s' : h.Suite) × (h.assemble (h.kem_id s) h.fixed_kdf h.fixed_aead ≡ some s')
        × (h.public_key_size s' ≡ h.public_key_size s)
  pub kem_id_fits : (s : h.Suite) → h.kem_id s < 65536
  pub kdf_id_fits : (s : h.Suite) → h.kdf_id s < 65536
  pub aead_id_fits : (s : h.Suite) → h.aead_id s < 65536
  pub serialize_length :
      (s : h.Suite) (k : h.PublicKey) → length (h.serialize_public_key s k) ≡ h.public_key_size s
  pub deserialize_serialize :
      (s : h.Suite) (k : h.PublicKey)
      → h.deserialize_public_key s (h.serialize_public_key s k) ≡ ok k
  pub derive_lem :
      (s : h.Suite) (seed : Bytes) (sk : h.PrivateKey) (pk : h.PublicKey)
      → h.derive_key_pair s seed ≡ ok (sk, pk)
      → pk ≡ h.public s sk
  pub setup_lem :
      (s : h.Suite) (rnd : h.Random) (sk : h.PrivateKey) (info enc : Bytes) (sender : h.Sender)
      → h.setup_base_s s rnd (h.public s sk) info ≡ ok (enc, sender)
      → (receiver : h.Receiver) × (length enc ≡ h.public_key_size s)
        × (h.setup_base_r s sk enc info ≡ ok receiver)
        × ((aad text : Bytes) → h.open_ receiver aad (h.seal sender aad text) ≡ ok text)
        × ((label : Bytes) (n : ℕ)
            → h.export_receiver receiver label n ≡ h.export_sender sender label n)
