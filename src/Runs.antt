-- ===== src/Runs.antt =====
-- Concrete runs of the model, and the theorems at concrete inputs.
mod Codec
mod Basic
mod Batched
mod Type3
mod Requests
mod Attester
mod Calls
mod Issuer
mod Ecdsa
mod Ed25519
mod Keys
mod Honest
mod Exchange
mod Returns
mod Kdsa
