-- ===== src/Ecdsa/ToyCurve.antt =====
-- A toy curve: the numbers modulo seven, each with two equal coordinates; and toy libraries with it.
use pat_go.Base.{
  ◌≡◌, ◌≢◌, ◌+◌, ◌*◌, ◌%◌, ◌^◌, ◌<◌, ℕ, zero, suc, Option, none, some, ok-injective, [], ◌∷◌, ◌++◌,
  Bytes, ok, map, replicate, take, drop, arith, ap, sym, ◌∙◌, refl,
}
use pat_go.Base.Strings.{codes}
use native.Mathlib.Nat.{mod-mod, add-mod}
use pat_go.Base.Modular.{mul-mod_left}
use pat_go.Ecdsa.{big_endian}
use pat_go.Ecdsa.Big.{big_endian-int_bytes, ℤ, pos}
use pat_go.Ecdsa.Curve.{Curve, Affine, IsCurve, Reader, Ciphers, HashToField, multiple}
use pat_go.Ecdsa.Asn1.{Asn1}

abbrev pub twice : ℕ → Affine
twice n = (n % 7, n % 7)

abbrev pub toy : Curve
toy = record {
  id = 1;
  name = codes "P-256";
  order = 7;
  bit_size = 8;
  scalar_base_mult = λ k. twice (big_endian 0 k);
  scalar_mult = λ p k. twice (p.0 * big_endian 0 k);
  add = λ p q. twice (p.0 + q.0);
  inverse = none;
  combined_mult = none;
}

pub multiple-toy : (k : ℕ) → multiple toy k ≡ twice k
multiple-toy k = ap twice (big_endian-int_bytes k)

multiple-toy_reduced : (k : ℕ) → multiple toy (k % 7) ≡ twice k
multiple-toy_reduced k = multiple-toy (k % 7) ∙ ap (λ t. (t, t)) (mod-mod k 7)

fermat_seven : (k : ℕ) → 0 < k → k < 7 → k * k ^ 5 % 7 ≡ 1
fermat_seven zero positive below = absurd (omega arith)
fermat_seven (suc zero) positive below = refl
fermat_seven (suc (suc zero)) positive below = refl
fermat_seven (suc (suc (suc zero))) positive below = refl
fermat_seven (suc (suc (suc (suc zero)))) positive below = refl
fermat_seven (suc (suc (suc (suc (suc zero))))) positive below = refl
fermat_seven (suc (suc (suc (suc (suc (suc zero)))))) positive below = refl
fermat_seven (suc (suc (suc (suc (suc (suc (suc k))))))) positive below = absurd (omega arith)

toy-finite : (k : ℕ) → 0 < k → k < 7 → multiple toy k ≢ (0, 0)
toy-finite k positive below h =
    let none_left : k % 7 ≡ 0 = ap (λ p. p.0) (sym (multiple-toy k) ∙ h) in absurd (omega arith)

pub toy-IsCurve : IsCurve toy
toy-IsCurve = record {
  order_large = omega arith;
  order_prime = fermat_seven;
  base = λ k. sym (multiple-toy_reduced (big_endian 0 k));
  mult = λ d k.
      ap (λ p. twice (p.0 * big_endian 0 k)) (multiple-toy d)
      ∙ ap (λ t. (t, t)) (mul-mod_left 7 d (big_endian 0 k))
      ∙ sym (multiple-toy_reduced (d * big_endian 0 k));
  sum = λ a b.
      ap (λ p. twice (p.0 + (multiple toy b).0)) (multiple-toy a)
      ∙ ap (λ p. twice (a % 7 + p.0)) (multiple-toy b)
      ∙ ap (λ t. (t, t)) (sym (add-mod a b 7))
      ∙ sym (multiple-toy_reduced (a + b));
  finite = toy-finite;
  invertible = λ inv h. cc;
  combined = λ f h. cc;
}

-- The bytes after a label are the number that is hashed.
abbrev pub toy_hash : HashToField
toy_hash = λ h label input n size. ok (big_endian 0 input % n)

-- A generator that counts: each byte that it gives is the number of the read.
abbrev pub toy_ciphers : Ciphers
toy_ciphers = record {
  Block = Bytes;
  Stream = ℕ;
  sha512 = λ xs. xs ++ replicate 64 0;
  new_cipher = λ key. ok key;
  new_ctr = λ block iv. ok 0;
  xor_key_stream = λ n dst. (map (λ b. n) dst, suc n);
}

-- A reader of a byte string.
abbrev pub toy_reader : Reader
toy_reader = record {
  Source = Bytes;
  read_full = λ source n. ok (take n source, drop n source);
  read_byte = drop 1;
}

-- A number in unary.
abbrev unary : ℕ → Bytes
unary zero = 0 ∷ []
unary (suc n) = 1 ∷ unary n

abbrev count : ℕ → Bytes → Option (ℤ × Bytes)
count n [] = none
count n (zero ∷ rest) = some (pos n, rest)
count n (suc b ∷ rest) = count (suc n) rest

pub count-unary : (m n : ℕ) (rest : Bytes) → count m (unary n ++ rest) ≡ some (pos (m + n), rest)
count-unary m zero rest =
    let none_more : m ≡ m + 0 = omega arith in ap (λ k. some (pos k, rest)) none_more
count-unary m (suc n) rest =
    let one_more : suc m + n ≡ m + suc n = omega arith in
    count-unary (suc m) n rest ∙ ap (λ k. some (pos k, rest)) one_more

abbrev pub toy_asn1 : Asn1
toy_asn1 = record {
  integer = unary;
  sequence = λ inner. ok inner;
  read_sequence = λ outer. some (outer, []);
  read_integer = count 0;
  read-integer = λ n rest. count-unary 0 n rest ∙ ap (λ k. some (pos k, rest)) (omega arith);
  read-sequence = λ inner outer h. ap (λ o. some (o, [])) (sym (ok-injective h));
}
