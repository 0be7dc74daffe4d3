-- ===== src/Hpke/Sample.antt =====
-- Encryption that hides nothing, for tests: one suite, keys that are numbers, and texts in the clear.
use pat_go.Base.{
  ℕ, refl, true, some, [], ◌∷◌, Bytes, ok, err, Outcome, replicate, arith, ◌≡◌, subst, length, ap,
  sym, ◌∙◌, ok-injective,
}
use pat_go.Hpke.{Hpke, HpkeLaws}

abbrev first : Bytes → Outcome ℕ
first [] = err "short"
first (n ∷ s) = ok n

abbrev pub sample : Hpke
sample = record {
  Suite = Unit;
  PublicKey = ℕ;
  PrivateKey = ℕ;
  Random = Unit;
  Sender = Unit;
  Receiver = Unit;
  assemble = λ kem kdf aead. some tt;
  kem_id = λ s. 32;
  kdf_id = λ s. 1;
  aead_id = λ s. 1;
  fixed_kdf = 1;
  fixed_aead = 1;
  fixed_kem = 32;
  private_key_size = λ s. 32;
  derive_key_pair = λ s seed. ok (length seed, length seed);
  same_suite = λ s t. true;
  public_key_size = λ s. 32;
  aead_key_size = λ s. 16;
  serialize_public_key = λ s k. k ∷ replicate 31 0;
  deserialize_public_key = λ s xs. first xs;
  public = λ s sk. sk;
  setup_base_s = λ s rnd pk info. ok (replicate 32 0, tt);
  setup_base_r = λ s sk enc info. ok tt;
  seal = λ c aad text. text;
  open_ = λ c aad text. ok text;
  export_sender = λ c label n. replicate n 0;
  export_receiver = λ c label n. replicate n 0;
}

pub sample_laws : HpkeLaws sample
sample_laws = record {
  assemble_ids = λ s. refl;
  assemble_kem = λ s. (tt, refl, refl);
  kem_id_fits = λ s. omega arith;
  kdf_id_fits = λ s. omega arith;
  aead_id_fits = λ s. omega arith;
  serialize_length = λ s k. refl;
  deserialize_serialize = λ s k. refl;
  derive_lem = λ s seed sk pk made.
      ap (λ p. p.1) (sym (ok-injective made)) ∙ ap (λ p. p.0) (ok-injective made);
  setup_lem = λ s rnd sk info enc sender e.
      let e' : replicate 32 0 ≡ enc = ground arith in
      (tt, subst (λ x. length x ≡ 32) e' refl, refl, λ aad text. refl, λ label n. refl);
}
