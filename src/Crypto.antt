-- ===== src/Crypto.antt =====
-- The shared cryptography crate, crypto/src: its error type, its algorithm registry, and the AEAD.
--
-- AES-256-GCM is the aes-gcm crate's, so it is the parameter `AesGcm`; `AesGcmLaws` states what its
-- documentation says of it.
pub mod Envelope
pub mod Token
pub mod Names
pub mod Jcs
pub mod Translog
pub mod Kdf
pub mod Wrap
pub mod Hybrid
pub mod KemWrap
pub mod Toy
use Prim.Native.String.{String}
use signet_drive.Base.{arith, ℕ, ◌+◌, ◌^◌, ◌≤◌, ◌≡◌, Option, none, some, Bytes, length}
use signet_drive.Base.Results.{Result, ok, err}

-- crypto/src/error.rs.
pub data CryptoError : Type 0 where
  authentication : CryptoError
  invalid_input : String → CryptoError
  unknown_algorithm : CryptoError
  signature_invalid : CryptoError

-- The `Aes256Gcm` cipher: key, nonce, message or ciphertext with tag, associated data. `none` is the
-- crate's opaque error.
pub record AesGcm : Type 0 where
  pub encrypt : Bytes → Bytes → Bytes → Bytes → Option Bytes
  pub decrypt : Bytes → Bytes → Bytes → Bytes → Option Bytes

pub record AesGcmLaws (gcm : AesGcm) : Type 0 where
  -- What was sealed opens under the same key, nonce and associated data.
  pub opens :
      (key nonce msg aad : Bytes) {ct : Bytes}
      → gcm.encrypt key nonce msg aad ≡ some ct
      → gcm.decrypt key nonce ct aad ≡ some msg
  -- The tag is recomputed and compared: what opens is the sealing of the plaintext it opens to.
  pub sealed :
      (key nonce ct aad : Bytes) {msg : Bytes}
      → gcm.decrypt key nonce ct aad ≡ some msg
      → gcm.encrypt key nonce msg aad ≡ some ct
  -- The ciphertext is as long as the message, and carries a tag of 16 bytes.
  pub adds_tag :
      (key nonce msg aad : Bytes) {ct : Bytes}
      → gcm.encrypt key nonce msg aad ≡ some ct
      → length ct ≡ length msg + 16
  -- Only a message or associated data beyond 2^36 bytes is refused.
  pub encrypts :
      (key nonce msg aad : Bytes)
      → length msg ≤ 2 ^ 36
      → length aad ≤ 2 ^ 36
      → (ct : Bytes) × (gcm.encrypt key nonce msg aad ≡ some ct)

-- One ciphertext under one key and nonce that is the sealing of two different pairs of a message and
-- its associated data: what the authentication of AES-256-GCM is there to make infeasible.
pub record Forgery (gcm : AesGcm) : Type 0 where
  pub key : Bytes
  pub nonce : Bytes
  pub msg : Bytes
  pub aad : Bytes
  pub msg' : Bytes
  pub aad' : Bytes
  pub ct : Bytes
  pub differs : aad ≡ aad' → ⊥
  pub first : gcm.encrypt key nonce msg aad ≡ some ct
  pub second : gcm.encrypt key nonce msg' aad' ≡ some ct

module _ (gcm : AesGcm) where
  -- crypto/src/aead.rs `seal`.
  unfoldable pub seal : Bytes → Bytes → Bytes → Bytes → Result CryptoError Bytes
  seal key nonce plaintext aad = elim (gcm.encrypt key nonce plaintext aad) [
    | none ↦ err (invalid_input "aes-256-gcm seal")
    | some ct ↦ ok ct
  ]

  -- crypto/src/aead.rs `open`.
  unfoldable pub open_sealed : Bytes → Bytes → Bytes → Bytes → Result CryptoError Bytes
  open_sealed key nonce ct aad = elim (gcm.decrypt key nonce ct aad) [
    | none ↦ err authentication
    | some plaintext ↦ ok plaintext
  ]

  pub seal-ok :
      (key nonce msg aad : Bytes) {ct : Bytes}
      → seal key nonce msg aad ≡ ok ct
      → gcm.encrypt key nonce msg aad ≡ some ct
  unfolding seal
  seal-ok key nonce msg aad e = ground arith

  pub open-ok :
      (key nonce ct aad : Bytes) {msg : Bytes}
      → open_sealed key nonce ct aad ≡ ok msg
      → gcm.decrypt key nonce ct aad ≡ some msg
  unfolding open_sealed
  open-ok key nonce ct aad e = ground arith

  module _ (laws : AesGcmLaws gcm) where
    pub open-seal :
        (key nonce msg aad : Bytes) {ct : Bytes}
        → seal key nonce msg aad ≡ ok ct
        → open_sealed key nonce ct aad ≡ ok msg
    unfolding open_sealed
    open-seal key nonce msg aad e =
        ground (arith, laws.opens key nonce msg aad (seal-ok key nonce msg aad e))

    pub seal-open :
        (key nonce ct aad : Bytes) {msg : Bytes}
        → open_sealed key nonce ct aad ≡ ok msg
        → seal key nonce msg aad ≡ ok ct
    unfolding seal
    seal-open key nonce ct aad e =
        ground (arith, laws.sealed key nonce ct aad (open-ok key nonce ct aad e))

    pub length-seal :
        (key nonce msg aad : Bytes) {ct : Bytes}
        → seal key nonce msg aad ≡ ok ct
        → length ct ≡ length msg + 16
    length-seal key nonce msg aad e = laws.adds_tag key nonce msg aad (seal-ok key nonce msg aad e)

    -- A sealing that opens under other associated data is a forgery.
    pub open-other_aad :
        (key nonce msg aad aad' : Bytes) {ct msg' : Bytes}
        → (aad ≡ aad' → ⊥)
        → seal key nonce msg aad ≡ ok ct
        → open_sealed key nonce ct aad' ≡ ok msg'
        → Forgery gcm
    open-other_aad key nonce msg aad aad' {ct} {msg'} differs s o = record {
      key = key;
      nonce = nonce;
      msg = msg;
      aad = aad;
      msg' = msg';
      aad' = aad';
      ct = ct;
      differs = differs;
      first = seal-ok key nonce msg aad s;
      second = laws.sealed key nonce ct aad' (open-ok key nonce ct aad' o);
    }
