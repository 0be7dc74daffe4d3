-- ===== src/Wire/Steps.antt =====
-- Reading a message into a receiver: each step reads from what is left of the input and may store
-- into the receiver, and keeps what was stored when a later step fails, as the Go code does.
use pat_go.Base.{
  ◌≡◌, refl, ap, ◌⊎◌, Bool, Bool-cases, Option-cases, inl, inr, if◌then◌else◌, true, false, Option,
  none, some, Bytes, arith,
}

abbrev pub Parse : Type 0 → Type 0 → Type 0
Parse R A = R → Bytes → R × Option (A × Bytes)

unfoldable pub after :
    {R A B : Type 0} → R × Option (A × Bytes) → (A → Parse R B) → R × Option (B × Bytes)
after (r, none) f = (r, none)
after (r, some (a, s)) f = f a r s

infixl 5 ◌>>=◌ ◌>>◌
abbrev pub ◌>>=◌ : {R A B : Type 0} → Parse R A → (A → Parse R B) → Parse R B
◌>>=◌ m f r s = after (m r s) f

abbrev pub ◌>>◌ : {R B : Type 0} → Parse R (Unit {0}) → Parse R B → Parse R B
◌>>◌ m k r s = after (m r s) (λ _. k)

-- A read into a local variable.
unfoldable pub read : {R A : Type 0} → (Bytes → Option (A × Bytes)) → Parse R A
read f r s = (r, f s)

-- A read into a field of the receiver.
unfoldable pub into :
    {R A : Type 0} → (Bytes → Option (A × Bytes)) → (A → R → R) → Parse R (Unit {0})
into f set r s = elim (f s) [ none ↦ (r, none) | some (a, s') ↦ (set a r, some (tt, s')) ]

-- A read into a field whose result the code ignores: on failure the input is as it was.
unfoldable pub attempt :
    {R A : Type 0} → (Bytes → Option (A × Bytes)) → (A → R → R) → Parse R (Unit {0})
attempt f set r s = elim (f s) [
  | none ↦ (r, some (tt, s))
  | some (a, s') ↦ (set a r, some (tt, s'))
]

-- A condition on what was read, and one on what is left of the input.
unfoldable pub check : {R : Type 0} → Bool → Parse R (Unit {0})
check b r s = if b then (r, some (tt, s)) else (r, none)

unfoldable pub check_rest : {R : Type 0} → (Bytes → Bool) → Parse R (Unit {0})
check_rest p r s = if p s then (r, some (tt, s)) else (r, none)

-- A store into the receiver of what was read before.
unfoldable pub store : {R : Type 0} → (R → R) → Parse R (Unit {0})
store f r s = (f r, some (tt, s))

-- The Go result: the receiver, and whether every step succeeded.
unfoldable pub accepted : {R A : Type 0} → R × Option (A × Bytes) → R × Bool
accepted (r, none) = (r, false)
accepted (r, some _) = (r, true)

-- What each step does when it succeeds.
pub after-read :
    {R A B : Type 0} (f : Bytes → Option (A × Bytes)) {r : R} {s s' : Bytes} {a : A}
    (k : A → Parse R B)
    → f s ≡ some (a, s')
    → after (read f r s) k ≡ k a r s'
unfolding after read
after-read f k e = rw e

pub into_lem :
    {R A : Type 0} (f : Bytes → Option (A × Bytes)) (set : A → R → R) {r : R} {s s' : Bytes} {a : A}
    → f s ≡ some (a, s')
    → into f set r s ≡ (set a r, some (tt, s'))
unfolding into
into_lem f set e = rw (e, into)

pub after-into :
    {R A B : Type 0} (f : Bytes → Option (A × Bytes)) {r : R} {s s' : Bytes} {a : A}
    (set : A → R → R) (k : Unit {0} → Parse R B)
    → f s ≡ some (a, s')
    → after (into f set r s) k ≡ k tt (set a r) s'
unfolding after
after-into f set k e = ap (λ o. after o k) (into_lem f set e)

pub after-check :
    {R B : Type 0} (b : Bool) {r : R} {s : Bytes} (k : Unit {0} → Parse R B)
    → b ≡ true
    → after (check b r s) k ≡ k tt r s
unfolding after check
after-check b k e = rw e

module _ {R A : Type 0} (f : Bytes → Option (A × Bytes)) {r : R} {s : Bytes} (set : A → R → R) where
  attempt-some :
      {s' : Bytes} {a : A} → f s ≡ some (a, s') → attempt f set r s ≡ (set a r, some (tt, s'))
  unfolding attempt
  attempt-some e = rw (e, attempt)

  attempt-none : f s ≡ none → attempt f set r s ≡ (r, some (tt, s))
  unfolding attempt
  attempt-none e = rw (e, attempt)

  pub after-attempt :
      {B : Type 0} {s' : Bytes} {a : A} (k : Unit {0} → Parse R B)
      → f s ≡ some (a, s')
      → after (attempt f set r s) k ≡ k tt (set a r) s'
  unfolding after
  after-attempt k e = ap (λ o. after o k) (attempt-some e)

  pub after-attempt-none :
      {B : Type 0} (k : Unit {0} → Parse R B) → f s ≡ none → after (attempt f set r s) k ≡ k tt r s
  unfolding after
  after-attempt-none k e = ap (λ o. after o k) (attempt-none e)

pub after-store :
    {R B : Type 0} (f : R → R) {r : R} {s : Bytes} (k : Unit {0} → Parse R B)
    → after (store f r s) k ≡ k tt (f r) s
unfolding after store
after-store f k = refl

pub check_rest_lem :
    {R : Type 0} (p : Bytes → Bool) (r : R) (s : Bytes)
    → p s ≡ true
    → check_rest p r s ≡ (r, some (tt, s))
unfolding check_rest
check_rest_lem p r s e = rw e

-- A chain that succeeded has done each of its steps.
module _ {R A B : Type 0} (f : Bytes → Option (A × Bytes)) {r r' : R} {s : Bytes}
    {x : B × Bytes} where
  pub read-inv :
      (k : A → Parse R B)
      → after (read f r s) k ≡ (r', some x)
      → (a : A) × (s' : Bytes) × (f s ≡ some (a, s')) × (k a r s' ≡ (r', some x))
  unfolding after read
  read-inv k h = elim (Option-cases (f s)) [
    | inl e ↦ ground arith
    | inr ((a, s'), e) ↦ (a, s', e, ground arith)
  ]

  pub into-inv :
      (set : A → R → R) (k : Unit {0} → Parse R B)
      → after (into f set r s) k ≡ (r', some x)
      → (a : A) × (s' : Bytes) × (f s ≡ some (a, s')) × (k tt (set a r) s' ≡ (r', some x))
  unfolding after into
  into-inv set k h = elim (Option-cases (f s)) [
    | inl e ↦ ground arith
    | inr ((a, s'), e) ↦ (a, s', e, ground arith)
  ]

pub into_last-inv :
    {R A : Type 0} (f : Bytes → Option (A × Bytes)) (set : A → R → R) {r r' : R} {s : Bytes}
    {x : Unit {0} × Bytes}
    → into f set r s ≡ (r', some x)
    → (a : A) × (s' : Bytes) × (f s ≡ some (a, s')) × (set a r ≡ r')
unfolding into
into_last-inv f set {s = s} h = elim (Option-cases (f s)) [
  | inl e ↦ ground arith
  | inr ((a, s'), e) ↦ (a, s', e, ground arith)
]

module _ {R B : Type 0} {r r' : R} {s : Bytes} {x : B × Bytes} where
  pub check-inv :
      (b : Bool) (k : Unit {0} → Parse R B)
      → after (check b r s) k ≡ (r', some x)
      → (b ≡ true) × (k tt r s ≡ (r', some x))
  unfolding after check
  check-inv true k h = (refl, h)
  check-inv false k h = cc

module _ {R A B : Type 0} (f : Bytes → Option (A × Bytes)) {r r' : R} {s : Bytes}
    {x : B × Bytes} where
  pub attempt-inv :
      (set : A → R → R) (k : Unit {0} → Parse R B)
      → after (attempt f set r s) k ≡ (r', some x)
      → ((a : A) × (s' : Bytes) × (f s ≡ some (a, s')) × (k tt (set a r) s' ≡ (r', some x)))
        ⊎ ((f s ≡ none) × (k tt r s ≡ (r', some x)))
  unfolding after attempt
  attempt-inv set k h = elim (Option-cases (f s)) [
    | inl e ↦ inr (e, ground arith)
    | inr ((a, s'), e) ↦ inl (a, s', e, ground arith)
  ]

pub check_rest-inv :
    {R : Type 0} (p : Bytes → Bool) {r r' : R} {s : Bytes} {x : Unit {0} × Bytes}
    → check_rest p r s ≡ (r', some x)
    → (p s ≡ true) × (r ≡ r')
unfolding check_rest
check_rest-inv p {s = s} h = elim (Bool-cases (p s)) [
  | inl e ↦ (e, ground arith)
  | inr e ↦ ground arith
]

pub after-store-inv :
    {R B : Type 0} (f : R → R) {r r' : R} {s : Bytes} {x : B × Bytes} (k : Unit {0} → Parse R B)
    → after (store f r s) k ≡ (r', some x)
    → k tt (f r) s ≡ (r', some x)
unfolding after store
after-store-inv f k h = h

pub store-inv :
    {R : Type 0} (f : R → R) {r r' : R} (s : Bytes) {x : Unit {0} × Bytes}
    → store f r s ≡ (r', some x)
    → f r ≡ r'
unfolding store
store-inv f s h = cc

pub accepted-inv :
    {R A : Type 0} (o : R × Option (A × Bytes)) {r : R}
    → accepted o ≡ (r, true)
    → (x : A × Bytes) × (o ≡ (r, some x))
unfolding accepted
accepted-inv (r, none) h = cc
accepted-inv (r, some x) h = (x, cc)
