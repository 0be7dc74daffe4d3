-- ===== src/Lib.antt =====
-- pat-go: Privacy Pass tokens, their issuance by a client and an issuer.
--
-- A client that was challenged by an origin makes a request (CreateTokenRequest), an issuer
-- answers it (Evaluate), the client makes a token of the answer (FinalizeToken), and the token is
-- verified. Token types differ in the cryptography; all messages are byte strings written and read
-- by golang.org/x/crypto/cryptobyte.
--
-- Base.antt       names shared by all files: Boolean tests, lists measured by native numbers,
--                 strings.Join and strings.Split, and the result of a Go call: a value, an error
--                 or a panic.
-- Wire.antt       cryptobyte as an interface with its documented laws; Wire/Read.antt what a read
--                 that succeeded has taken; Wire/Steps.antt the chain of reads by which a Go
--                 Unmarshal method fills its receiver, which keeps what was stored before a read
--                 fails.
-- Tokens.antt     tokens/token.go and the readers in tokens/*/token.go.
-- Challenge.antt  tokens/token_challenge.go; RoundTrip and Inversion prove.
-- Basic.antt      tokens/type1/token_request.go and tokens/type2/token_request.go, one text but
--                 for the token type and the length of the element.
-- Requests.antt   tokens/token_request.go: the interface of the requests of all types; Reading proves.
-- Oprf.antt       the pseudorandom function of circl as an interface.
-- BlindRsa.antt   blind RSA signatures of circl, and rsa.VerifyPSS, as an interface.
-- Type1.antt      tokens/type1: Client, Issuer, Request, and the exchange in Issuance.
-- Type2.antt      tokens/type2: likewise.
-- Batched.antt    tokens/typeF91A: Request with its Layout, Client, Issuer, the steps of an exchange
--                 in Exchange, the tokens of a batch in Outputs, and its exchange in Issuance.
-- TokenKeys.antt  util/: the encodings of token keys, over an interface to ASN.1; RoundTrip
--                 proves; Hexadecimal is the other helpers of util/codec.go.
-- Hpke.antt       go-hpke as an interface.
-- Ecdsa.antt      what tokens/type3 uses of the package ecdsa, as an interface; below it the package
--                 itself, ecdsa/: Big (numbers and bytes), Curve (the libraries as interfaces), Keys,
--                 Signing and Verifying, Blinding, Asn1; Inverses, Nonces, Signatures, KeyPairs,
--                 BlindKeys, PublicKeys, Rejection and Ambiguity prove. The nested loops of
--                 signGeneric are one recursion on fuel; fuel for as many draws as there are up to the
--                 first nonce that serves is enough. Kdsa is the file for s390x, with its Digests,
--                 its parameter Blocks and the proofs in Verification and Signatures. Package is the
--                 package as an instance of the interface.
-- Ed25519.antt    ed25519/: the interface to its internal group; Keys, Signing; Signatures,
--                 BlindSignatures and Rejection prove; Scalars is what this repository adds to
--                 internal/edwards25519/scalar.go.
-- Type3.antt      tokens/type3: Request with its Layout, the Inner request, the Padding of origin
--                 names, the EncapKey of an issuer, the Encryption of the inner request, the
--                 Response as an interface, the Issuer and what it Grants, the Client and what it
--                 accepts (Issuance), Setup (how they are made) and Published (a name key in use); the
--                 attester: Clients (the state that it keeps), Attester (its handlers), Indices and
--                 Commitments (its runs), Admission (whom it lets in), Ledger (an abstract view, a
--                 machine for each client) with Machines, Interleaving and Authentication, Honest
--                 (a client that follows the protocol) over Verification and Created. Sent and
--                 Arrival (a request that has come to the issuer), Responding (its answer),
--                 Exchange (client, wire, issuer, client), OriginIndex (what the attester computes
--                 from the answer) over AnonymousId, Visits (an honest visit from the attester's
--                 side) and Returns (the client comes back).
-- Runs.antt       concrete runs, over sample instances of the interfaces.
--
-- How the code corresponds. A Go function is a definition of the same name in snake case. A pointer
-- receiver that a method changes is an argument and a part of the result. An error return is `err`
-- with the literal message, a panic is `panic` or `none`. A byte is a number; that the bytes of an
-- input are below 256 is a hypothesis (IsBytes) where a theorem needs it. A slice is its content:
-- nil and empty slices differ only in the cached encoding of a request, which is an Option.
-- Randomness is an argument.
--
-- Every loop of the code that is modelled is structural recursion, but for the drawing of nonces in
-- Ecdsa/Signing.antt and Ecdsa/Kdsa.antt, which runs on fuel: Ecdsa.Signatures says how much is
-- enough. The size of a number in bits is counted on fuel too, for which the number itself is
-- enough.
--
-- The attester handles one request at a time: a handler takes the cache and returns how it ended
-- and the cache that it leaves, and a run is any sequence of requests (Type3.Commitments.Run). The
-- maps of a client are lists in which what was stored last is found first.
--
-- Not modelled: ed25519/internal is a copy from Go's standard library, but for toLE, ModInverse and
-- SetBytes of its scalars. The cryptography itself is behind interfaces: curves as groups of prime
-- order, hash functions as functions, the instruction KDSA as a function with laws.
pub mod Base
pub mod Wire
pub mod Tokens
pub mod Challenge
pub mod Basic
pub mod Oprf
pub mod BlindRsa
pub mod Type1
pub mod Type2
pub mod Batched
pub mod Ecdsa
pub mod Ed25519
pub mod TokenKeys
pub mod Hpke
pub mod Type3
pub mod Requests
pub mod Runs
