-- ===== src/TokenKeys/Sample.antt =====
-- A toy encoding: a tag, a length and the content; an integer is its sign and its size.
use pat_go.Base.{
  ◌≡◌, ◌==◌, ==_refl, ℕ, Option, some, none, if◌then◌else◌, [], ◌∷◌, ◌++◌, Bytes, length, take,
  drop, take-append, drop-append, append-nil, ok, err, ap₂, ap, sym, subst, refl, ok-injective,
}
use pat_go.Ecdsa.Big.{ℤ, pos, negsuc}
use pat_go.TokenKeys.{Der, DerLaws}

abbrev element : ℕ → Bytes → Bytes
element tag content = tag ∷ length content ∷ content

abbrev contents : ℕ → Bytes → Option (Bytes × Bytes)
contents tag [] = none
contents tag (t ∷ []) = none
contents tag (t ∷ n ∷ s) = if t == tag then some (take n s, drop n s) else none

abbrev integer : ℤ → Bytes
integer (pos n) = 0 ∷ n ∷ []
integer (negsuc n) = 1 ∷ n ∷ []

abbrev an_integer : Bytes → Option (ℤ × Bytes)
an_integer [] = none
an_integer (t ∷ []) = none
an_integer (t ∷ n ∷ s) = if t == 0 then some (pos n, s) else some (negsuc n, s)

abbrev pub sample : Der
sample = record {
  PrivateKey = Bytes;
  BitString = Bytes;
  add_asn1 = λ tag content. ok (element tag content);
  add_object_identifier = λ oid. ok (element 6 oid);
  add_int64 = λ n. element 2 (n ∷ []);
  add_bit_string = λ xs. ok (element 3 xs);
  read_asn1 = contents;
  read_bit_string = contents 3;
  right_align = λ bits. bits;
  read_integer = an_integer;
  read_int = an_integer;
  marshal_pkcs1 = λ key. ok (element 48 (integer key.n ++ integer key.e));
  marshal_pkix = λ key. err "not used";
  marshal_pkcs8 = λ key. ok key;
  parse_pkcs8 = λ xs. ok (some xs);
  pem_encode = λ kind xs. length kind ∷ (kind ++ xs);
  pem_decode = λ s. pem s;
}
  where
    pem : Bytes → Option (Bytes × Bytes)
    pem [] = none
    pem (n ∷ s) = some (take n s, drop n s)

contents-element :
    (tag : ℕ) (content rest : Bytes)
    → contents tag (element tag content ++ rest) ≡ some (content, rest)
contents-element tag content rest =
    rw (==_refl tag)
      (ap₂ (λ a b. some (a, b)) (take-append content rest) (drop-append content rest))

whole : (tag : ℕ) (content : Bytes) → contents tag (element tag content) ≡ some (content, [])
whole tag content =
    subst (λ t. contents tag t ≡ some (content, [])) (append-nil (element tag content))
      (contents-element tag content [])

read_last : (n : ℤ) → an_integer (integer n) ≡ some (n, [])
read_last (pos n) = refl
read_last (negsuc n) = refl

read-integer_first : (n : ℤ) (rest : Bytes) → an_integer (integer n ++ rest) ≡ some (n, rest)
read-integer_first (pos n) rest = refl
read-integer_first (negsuc n) rest = refl

pub sample_laws : DerLaws sample
sample_laws = record {
  read-add_asn1 = λ tag content out rest made.
      subst (λ o. contents tag (o ++ rest) ≡ some (content, rest)) (ok-injective made)
        (contents-element tag content rest);
  read-add_bit_string = λ xs out rest made. (
    xs,
    (
      subst (λ o. contents 3 (o ++ rest) ≡ some (xs, rest)) (ok-injective made)
          (contents-element 3 xs rest),
      refl,
    ),
  );
  read-marshal_pkcs1 = λ key out made. (
    integer key.n ++ integer key.e,
    (
      integer key.e,
      (
        subst (λ o. contents 48 o ≡ some (integer key.n ++ integer key.e, [])) (ok-injective made)
            (whole 48 (integer key.n ++ integer key.e)),
        (read-integer_first key.n (integer key.e), read_last key.e),
      ),
    ),
  );
  pem_decode-encode =
      λ kind xs. ap₂ (λ a b. some (a, b)) (take-append kind xs) (drop-append kind xs);
  parse-marshal_pkcs8 = λ key out made. ap (λ k. ok (some k)) (sym (ok-injective made));
}
