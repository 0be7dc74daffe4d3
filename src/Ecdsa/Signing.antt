-- ===== src/Ecdsa/Signing.antt =====
-- ecdsa/ecdsa.go, ecdsa/ecdsa_noasm.go and ecdsa/randutil.go: signing. The loops that draw a nonce until
-- it serves are one recursion on fuel, since each of them goes on with the next draw; `none` is a
-- signature that the fuel did not reach.
use pat_go.Base.{
  ◌==◌, ltb, if◌then◌else◌, ℕ, zero, suc, ◌+◌, ◌-◌, ◌*◌, ◌/◌, ◌%◌, ◌^◌, Bool, Option, none, some,
  ◌++◌, Bytes, Outcome, panic, err, ok, ◌>>=◌, or_panic, slice_to, length, take, replicate,
}
use pat_go.Base.Strings.{codes}
use pat_go.Ecdsa.{big_endian}
use pat_go.Ecdsa.Big.{bit_len, byte_len, int_bytes}
use pat_go.Ecdsa.Curve.{Curve, Reader, Ciphers}
use pat_go.Ecdsa.Keys.{PrivateKey, rand_field_element}

abbrev pub Signature : Type 0
Signature = ℕ × ℕ

-- A digest is cut to the bytes of the order, and shifted to its bits.
unfoldable pub hash_to_int : Bytes → Curve → ℕ
hash_to_int hash c =
    let order_bits = bit_len c.order in
    let order_bytes = byte_len c.order in
    let cut = if ltb order_bytes (length hash) then take order_bytes hash else hash in
    let excess = length cut * 8 - order_bits in
    if ltb 0 excess then big_endian 0 cut / 2 ^ excess else big_endian 0 cut

abbrev pub fermat_inverse : ℕ → ℕ → ℕ
fermat_inverse k n = k ^ (n - 2) % n

abbrev pub nonce_inverse : Curve → ℕ → ℕ
nonce_inverse c k = elim c.inverse [ some inverse ↦ inverse k | none ↦ fermat_inverse k c.order ]

abbrev pub commitment : PrivateKey → Curve → ℕ → ℕ
commitment key c k = (key.public.curve.scalar_base_mult (int_bytes k)).0 % c.order

abbrev pub response : PrivateKey → Curve → Bytes → ℕ → ℕ
response key c hash k =
    (key.d * commitment key c k + hash_to_int hash c) * nonce_inverse key.public.curve k % c.order

-- A call, and a loop that goes on with its value.
abbrev pub on_ok {ℓ κ} :
    {X : Type ℓ} {Y : Type κ} → Outcome X → (X → Option (Outcome Y)) → Option (Outcome Y)
on_ok panic loop = some panic
on_ok (err e) loop = some (err e)
on_ok (ok x) loop = loop x

-- The signature with a nonce, or what comes of the next draw.
abbrev pub try_nonce :
    PrivateKey → Curve → Bytes → ℕ → Option (Outcome Signature) → Option (Outcome Signature)
try_nonce key c hash k again =
    if commitment key c k == 0
    then again
    else if response key c hash k == 0
    then again
    else some (ok (commitment key c k, response key c hash k))

unfoldable pub draw_nonces :
    (csprng : Reader) → ℕ → PrivateKey → csprng.Source → Curve → Bytes → Option (Outcome Signature)
draw_nonces csprng zero key source c hash = none
draw_nonces csprng (suc fuel) key source c hash =
    on_ok (rand_field_element csprng c source)
      λ (k, rest). try_nonce key c hash k (draw_nonces csprng fuel key rest c hash)

unfoldable pub sign_generic :
    (csprng : Reader) → ℕ → PrivateKey → csprng.Source → Curve → Bytes → Option (Outcome Signature)
sign_generic csprng fuel key source c hash =
    if c.order == 0 then some (err "zero parameter") else draw_nonces csprng fuel key source c hash

-- `zr.Read`: zeroes.
abbrev pub zero_read : Bytes → Bytes
zero_read dst = replicate (length dst) 0

-- The reader of `cipher.StreamReader` with zeroes below: what a destination of `n` bytes is given.
abbrev pub stream_reader : Ciphers → Reader
stream_reader lib = record {
  Source = lib.Stream;
  read_full = λ stream n. ok (lib.xor_key_stream stream (zero_read (replicate n 0)));
  read_byte = λ stream. (lib.xor_key_stream stream (zero_read (replicate 1 0))).1;
}

-- Which of two ready channels `select` takes is `read`.
abbrev pub maybe_read_byte : (rd : Reader) → Bool → rd.Source → rd.Source
maybe_read_byte rd read source = if read then rd.read_byte source else source

module _ (rd : Reader) (lib : Ciphers) where
  -- The generator that `Sign` makes of the key, 32 bytes of entropy and the digest.
  unfoldable pub seed_generator : Bool → rd.Source → PrivateKey → Bytes → Outcome lib.Stream
  seed_generator read source key hash = do
    (entropy, rest) ← rd.read_full (maybe_read_byte rd read source) 32
    seed ← or_panic (slice_to 32 (lib.sha512 (int_bytes key.d ++ entropy ++ hash)))
    block ← lib.new_cipher seed
    lib.new_ctr block (codes "IV for ECDSA CTR")

  unfoldable pub sign : ℕ → Bool → rd.Source → PrivateKey → Bytes → Option (Outcome Signature)
  sign fuel read source key hash =
      on_ok (seed_generator read source key hash)
        λ stream. sign_generic (stream_reader lib) fuel key stream key.public.curve hash
