-- ===== src/Requests/Reading.antt =====
-- What holds of the requests of every token type: they are read back as they were written, and are
-- told apart by their token types.
use pat_go.Base.{
  ◌≡◌, ◌≢◌, ◌<◌, ◌++◌, ℕ, Bool-cases, false, true, ◌==◌, if◌then◌else◌, inl, inr, Option, none,
  some, [], Bytes, IsBytes, All, length, append-nil, arith, ap, sym, refl, ◌∙◌,
}
use pat_go.Base.Chunks.{HasLength}
use mathlib.Core.Option.{some-injective}
use pat_go.Wire.{Cryptobyte, be16}
use pat_go.Wire.Read.{read_uint16-be16}
use pat_go.Type1.{basic_private_token_type}
use pat_go.Type2.{basic_public_token_type}
use pat_go.Batched.{batched_private_token_type}
use pat_go.Type3.{rate_limited_token_type}
use pat_go.Type1.Request as Private
use pat_go.Type2.Request as Public
use pat_go.Basic.Layout.{unmarshal-marshal_request, unmarshal-inv_request}
use pat_go.Batched.Layout.{unmarshal-marshal_batch, unmarshal-inv_batch}
use pat_go.Type3.Layout.{HasParts, unmarshal-marshal_limited}
use pat_go.Type3.Inversion.{unmarshal-inv_limited}
use pat_go.Requests.{
  RequestKind, basic_private, basic_public, batched_private, rate_limited, Request, marshal,
  unmarshal,
}

-- The cached encoding of a request, and the request with another.
abbrev pub raw_of : (k : RequestKind) → Request k → Option Bytes
raw_of basic_private r = r.raw
raw_of basic_public r = r.raw
raw_of batched_private r = r.raw
raw_of rate_limited r = r.raw

abbrev pub with_raw : (k : RequestKind) → Request k → Option Bytes → Request k
with_raw basic_private r raw = record r { raw = raw }
with_raw basic_public r raw = record r { raw = raw }
with_raw batched_private r raw = record r { raw = raw }
with_raw rate_limited r raw = record r { raw = raw }

-- The fields of a request are machine numbers and have the lengths that its reader asks for.
abbrev pub HasFields : (k : RequestKind) → Request k → Type 0
HasFields basic_private r = (r.token_key_id < 256) × (length r.blinded_req ≡ 48)
HasFields basic_public r = (r.token_key_id < 256) × (length r.blinded_req ≡ 256)
HasFields batched_private r =
    (r.token_key_id < 256)
    × All (HasLength 32) r.blinded_req
    × (r.blinded_req ≢ [])
    × (length r.blinded_req < 2048)
HasFields rate_limited r = HasParts r × (length r.signature ≡ 96)

abbrev pub type_of : RequestKind → ℕ
type_of basic_private = basic_private_token_type
type_of basic_public = basic_public_token_type
type_of batched_private = batched_private_token_type
type_of rate_limited = rate_limited_token_type

abbrev kind_of : ℕ → RequestKind
kind_of n =
    if n == basic_private_token_type
    then basic_private
    else if n == basic_public_token_type
    then basic_public
    else if n == batched_private_token_type
    then batched_private
    else rate_limited

kind_of-type_of : (k : RequestKind) → kind_of (type_of k) ≡ k
kind_of-type_of basic_private = refl
kind_of-type_of basic_public = refl
kind_of-type_of batched_private = refl
kind_of-type_of rate_limited = refl

module _ (cb : Cryptobyte) where
  -- A request of any of the four types, whose fields are machine numbers and have the lengths that
  -- its reader asks for, without a cached encoding, is written, and is read back into any receiver,
  -- of which the reader keeps the cached encoding.
  pub unmarshal-marshal :
      (k : RequestKind) (r r0 : Request k)
      → HasFields k r
      → raw_of k r ≡ none
      → (out : Bytes) × (marshal cb k r ≡ some (out, with_raw k r (some out)))
        × (unmarshal cb k r0 out ≡ (with_raw k r (raw_of k r0), true))
  unfolding marshal unmarshal Private.marshal Private.unmarshal Public.marshal Public.unmarshal
  unmarshal-marshal basic_private r r0 (hi, hl) hr =
      let (out, written, read) =
        unmarshal-marshal_request cb basic_private_token_type 48 r r0 [] (omega arith) hi hr hl in
      (out, written, rw append-nil at read)
  unmarshal-marshal basic_public r r0 (hi, hl) hr =
      let (out, written, read) =
        unmarshal-marshal_request cb basic_public_token_type 256 r r0 [] (omega arith) hi hr hl in
      (out, written, rw append-nil at read)
  unmarshal-marshal batched_private r r0 (hi, h, ne, short) hr =
      let (out, written, read) = unmarshal-marshal_batch cb r r0 [] hi hr h ne short in
      (out, written, rw append-nil at read)
  unmarshal-marshal rate_limited r r0 (h, hs) hr = unmarshal-marshal_limited cb r r0 h hs hr

  -- What a reader accepts begins with its token type.
  begins :
      (k : RequestKind) (r0 : Request k) (data_ : Bytes) {r : Request k}
      → IsBytes data_
      → unmarshal cb k r0 data_ ≡ (r, true)
      → (rest : Bytes) × (data_ ≡ be16 (type_of k) ++ rest)
  unfolding unmarshal Private.unmarshal Public.unmarshal
  begins basic_private r0 data_ b h =
      let (_, _, (rest, e)) = unmarshal-inv_request cb basic_private_token_type 48 r0 data_ b h in
      (_, e)
  begins basic_public r0 data_ b h =
      let (_, _, (rest, e)) = unmarshal-inv_request cb basic_public_token_type 256 r0 data_ b h in
      (_, e)
  begins batched_private r0 data_ b h =
      let (_, _, _, (rest, e)) = unmarshal-inv_batch cb r0 data_ b h in (_, e)
  begins rate_limited r0 data_ b h =
      let (_, _, encoded) = unmarshal-inv_limited cb r0 data_ b h in
      elim encoded [ inl (_, e) ↦ (_, e) | inr (_, e) ↦ (_, e) ]

  unmarshal-kind :
      (k k' : RequestKind) (r0 : Request k) (r0' : Request k') (data_ : Bytes) {r : Request k}
      {r' : Request k'}
      → IsBytes data_
      → unmarshal cb k r0 data_ ≡ (r, true)
      → unmarshal cb k' r0' data_ ≡ (r', true)
      → k ≡ k'
  unmarshal-kind k k' r0 r0' data_ b h h' =
      let (rest, e) = begins k r0 data_ b h in
      let (rest', e') = begins k' r0' data_ b h' in
      let same : ◌≡◌ {A = ℕ × Bytes} (type_of k, rest) (type_of k', rest') = some-injective _ _ (
        sym (read_uint16-be16 cb (type_of k) rest)
        ∙ ap cb.read_uint16 (sym e ∙ e')
        ∙ read_uint16-be16 cb (type_of k') rest') in
      sym (kind_of-type_of k) ∙ ap (λ p. kind_of p.0) same ∙ kind_of-type_of k'

  -- The types of request are told apart: bytes that the reader of one type accepts are refused by
  -- the reader of every other type, whatever the receivers hold.
  pub unmarshal-other :
      (k k' : RequestKind) (r0 : Request k) (r0' : Request k') (data_ : Bytes) {r : Request k}
      → k ≢ k'
      → IsBytes data_
      → unmarshal cb k r0 data_ ≡ (r, true)
      → (unmarshal cb k' r0' data_).1 ≡ false
  unmarshal-other k k' r0 r0' data_ apart b h =
      let o = unmarshal cb k' r0' data_ in
      elim (Bool-cases o.1) [
        | inl e ↦ absurd (apart (unmarshal-kind k k' r0 r0' data_ b h (ap (λ v. (o.0, v)) e)))
        | inr e ↦ e
      ]
