-- ===== src/Wire/Sample.antt =====
-- A concrete codec that behaves as the interface asks, for tests: a builder is what was written,
-- or `none` after an error.
use pat_go.Base.{
  ℕ, ◌+◌, ◌*◌, ◌≤◌, ◌<◌, ◌≡◌, refl, Bool, true, false, Option, none, some, [], ◌∷◌, ◌++◌, Bytes,
  length, take, drop, take-append, drop-append, length-append, arith, ltb, if◌then◌else◌, lt→ltb,
  not_lt→ltb,
}
use pat_go.Wire.{Cryptobyte, be16, prefixed16, prefixed8}

abbrev Draft : Type 0
Draft = Option Bytes

abbrev append : Draft → Bytes → Draft
append none v = none
append (some out) v = some (out ++ v)

abbrev nest : ℕ → (Bytes → Bytes) → Draft → Draft → Draft
nest limit prefixed none child = none
nest limit prefixed (some out) none = none
nest limit prefixed (some out) (some xs) =
    if ltb (length xs) limit then some (out ++ prefixed xs) else none

abbrev uint8 : Bytes → Option (ℕ × Bytes)
uint8 [] = none
uint8 (v ∷ s) = some (v, s)

abbrev uint16 : Bytes → Option (ℕ × Bytes)
uint16 [] = none
uint16 (hi ∷ []) = none
uint16 (hi ∷ lo ∷ s) = some (hi * 256 + lo, s)

abbrev cut : ℕ → Bytes → Option (Bytes × Bytes)
cut n s = if ltb (length s) n then none else some (take n s, drop n s)

abbrev counted8 : Bytes → Option (Bytes × Bytes)
counted8 [] = none
counted8 (n ∷ s) = cut n s

abbrev counted16 : Bytes → Option (Bytes × Bytes)
counted16 [] = none
counted16 (hi ∷ []) = none
counted16 (hi ∷ lo ∷ s) = cut (hi * 256 + lo) s

abbrev empty : Bytes → Bool
empty [] = true
empty (b ∷ s) = false

pub append_lem : (b : Draft) (v : Bytes) {out : Bytes} → b ≡ some out → append b v ≡ some (out ++ v)
append_lem b v e = rw e

pub append-none : (b : Draft) (v : Bytes) → b ≡ none → append b v ≡ none
append-none b v e = rw e

pub nest_lem :
    (limit : ℕ) (p : Bytes → Bytes) (b : Draft) (f : Draft → Draft) {out child : Bytes}
    → b ≡ some out
    → ((c : Draft) → c ≡ some [] → f c ≡ some child)
    → length child < limit
    → nest limit p b (f (some [])) ≡ some (out ++ p child)
nest_lem limit p b f e h lt = rw (e, h (some []) refl, lt→ltb _ _ lt)

pub nest_long :
    (limit : ℕ) (p : Bytes → Bytes) (b : Draft) (f : Draft → Draft) {child : Bytes}
    → ((c : Draft) → c ≡ some [] → f c ≡ some child)
    → limit ≤ length child
    → nest limit p b (f (some [])) ≡ none
nest_long limit p none f h le = refl
nest_long limit p (some out) f {child} h le =
    rw (h (some []) refl, not_lt→ltb (length child) limit (omega arith))

pub nest-none :
    (limit : ℕ) (p : Bytes → Bytes) (b : Draft) (f : Draft → Draft)
    → b ≡ none
    → nest limit p b (f (some [])) ≡ none
nest-none limit p b f e = rw e

pub cut_lem : (n : ℕ) (v rest : Bytes) → length v ≡ n → cut n (v ++ rest) ≡ some (v, rest)
cut_lem n v rest e = rw (
  ← e,
  not_lt→ltb (length (v ++ rest)) (length v) (omega (arith, length-append v rest)),
  take-append,
  drop-append,
)

pub cut_short : (n : ℕ) (s : Bytes) → length s < n → cut n s ≡ none
cut_short n s h = rw (lt→ltb _ _ h)

pub uint16_short : (s : Bytes) → length s < 2 → uint16 s ≡ none
uint16_short [] h = refl
uint16_short (x ∷ []) h = refl
uint16_short (x ∷ y ∷ s) h = absurd (omega arith)

pub counted16_nil : (s : Bytes) → length s < 2 → counted16 s ≡ none
counted16_nil [] h = refl
counted16_nil (x ∷ []) h = refl
counted16_nil (x ∷ y ∷ s) h = absurd (omega arith)

abbrev pub sample : Cryptobyte
sample = record {
  Builder = Draft;
  new_builder = some [];
  add_uint8 = λ b v. append b (v ∷ []);
  add_uint16 = λ b v. append b (be16 v);
  add_bytes = append;
  add_uint8_length_prefixed = λ b f. nest 256 prefixed8 b (f (some []));
  add_uint16_length_prefixed = λ b f. nest 65536 prefixed16 b (f (some []));
  bytes_or_panic = λ b. b;
  read_uint8 = uint8;
  read_uint16 = uint16;
  read_bytes = cut;
  read_uint8_length_prefixed = counted8;
  read_uint16_length_prefixed = counted16;
  is_empty = empty;
  new_builder_lem = refl;
  add_uint8_lem = λ b v h e. append_lem b (v ∷ []) e;
  add_uint16_lem = λ b v h e. append_lem b (be16 v) e;
  add_bytes_lem = λ b v e. append_lem b v e;
  add_uint8_length_prefixed_lem = λ b f. nest_lem 256 prefixed8 b f;
  add_uint16_length_prefixed_lem = λ b f. nest_lem 65536 prefixed16 b f;
  add_uint8_length_prefixed_long = λ b f. nest_long 256 prefixed8 b f;
  add_uint16_length_prefixed_long = λ b f. nest_long 65536 prefixed16 b f;
  add_bytes_none = append-none;
  add_uint8_length_prefixed_none = nest-none 256 prefixed8;
  add_uint16_length_prefixed_none = nest-none 65536 prefixed16;
  read_uint8_lem = λ v rest. refl;
  read_uint8_short = refl;
  read_uint16_lem = λ hi lo rest. refl;
  read_uint16_short = uint16_short;
  read_bytes_lem = cut_lem;
  read_bytes_short = cut_short;
  read_uint8_length_prefixed_lem = λ v rest. cut_lem (length v) v rest refl;
  read_uint8_length_prefixed_short = cut_short;
  read_uint8_length_prefixed_nil = refl;
  read_uint16_length_prefixed_lem = λ hi lo v rest. cut_lem (hi * 256 + lo) v rest;
  read_uint16_length_prefixed_short = λ hi lo. cut_short (hi * 256 + lo);
  read_uint16_length_prefixed_nil = counted16_nil;
  is_empty_nil = refl;
  is_empty_cons = λ b s. refl;
}
