-- ===== src/Channel/Auth/Frames.antt =====
-- Requests and responses of channel/src/auth.rs, sealed and opened.
use signet_drive.Base.{ℕ, ◌≡◌, arith, Bytes, some, length, ◌⊎◌, inl, inr, Option-cases}
use signet_drive.Base.Results.{Result, ok}
use signet_drive.Crypto.{CryptoError, AesGcm, AesGcmLaws, Forgery}
use signet_drive.Channel.Auth.{request_aad, response_aad, frame_nonce, derive_key, seal_with}
use signet_drive.Channel.Auth.{seal_request, open_request, seal_response, open_response}
use signet_drive.Channel.Auth.{request_key_info, response_key_info}
use signet_drive.Channel.Auth.Binding.{IsShort, Framed, seal_with-Framed, frame_nonce-framed}
use signet_drive.Channel.Auth.Binding.{open_with-seal_with, open_with-binding, request_aad_inj}
use signet_drive.Channel.Auth.Binding.{response_aad_inj}

module _ (gcm : AesGcm) (laws : AesGcmLaws gcm)
    (hkdf : Bytes → Bytes → Bytes → ℕ → Result CryptoError Bytes) where
  -- The key and the sealing behind a request that was sealed.
  request_key :
      (nonce secret c r body : Bytes) {frame : Bytes}
      → seal_request gcm hkdf nonce secret c r body ≡ some frame
      → (key : Bytes) × (derive_key hkdf secret request_key_info ≡ some key)
        × (seal_with gcm nonce key (request_aad c r) body ≡ some frame)
  unfolding seal_request
  request_key nonce secret c r body e =
      elim (Option-cases (derive_key hkdf secret request_key_info)) [
        | inl missing ↦ absurd (ground arith)
        | inr (key, found) ↦ (key, found, ground arith)
      ]

  response_key :
      (nonce secret c r n body : Bytes) {frame : Bytes}
      → seal_response gcm hkdf nonce secret c r n body ≡ some frame
      → (key : Bytes) × (derive_key hkdf secret response_key_info ≡ some key)
        × (seal_with gcm nonce key (response_aad c r n) body ≡ some frame)
  unfolding seal_response
  response_key nonce secret c r n body e =
      elim (Option-cases (derive_key hkdf secret response_key_info)) [
        | inl missing ↦ absurd (ground arith)
        | inr (key, found) ↦ (key, found, ground arith)
      ]

  frame_nonce-seal_with :
      (nonce key aad body : Bytes) {frame : Bytes}
      → length nonce ≡ 12
      → seal_with gcm nonce key aad body ≡ some frame
      → frame_nonce frame ≡ ok nonce
  frame_nonce-seal_with nonce key aad body hn e =
      let f : Framed gcm laws nonce key aad body _ =
        seal_with-Framed gcm laws nonce key aad body e in
      rw (f.framed) (frame_nonce-framed gcm laws nonce f.ct hn)

  -- A request that was sealed with a 12-byte nonce opens to its body under the same secret, channel
  -- and request id, and its frame shows its nonce.
  pub open_request-seal_request :
      (nonce secret c r body : Bytes) {frame : Bytes}
      → length nonce ≡ 12
      → seal_request gcm hkdf nonce secret c r body ≡ some frame
      → (open_request gcm hkdf secret c r frame ≡ some (ok body)) × (frame_nonce frame ≡ ok nonce)
  unfolding open_request
  open_request-seal_request nonce secret c r body hn e =
      let (key, found, sealed) = request_key nonce secret c r body e in
      let opened = open_with-seal_with gcm laws nonce key (request_aad c r) body hn sealed in
      (
        ground (arith, found, opened),
        frame_nonce-seal_with nonce key (request_aad c r) body hn sealed,
      )

  -- The same of a response, which is bound to the nonce of its request too.
  pub open_response-seal_response :
      (nonce secret c r n body : Bytes) {frame : Bytes}
      → length nonce ≡ 12
      → seal_response gcm hkdf nonce secret c r n body ≡ some frame
      → open_response gcm hkdf secret c r n frame ≡ some (ok body)
  unfolding open_response
  open_response-seal_response nonce secret c r n body hn e =
      let (key, found, sealed) = response_key nonce secret c r n body e in
      let opened = open_with-seal_with gcm laws nonce key (response_aad c r n) body hn sealed in
      ground (arith, found, opened)

  -- A sealed request that opens under the same secret was sealed for the channel and the request id
  -- it is opened for, and opens to the body that was sealed; or a forgery is exhibited. Channel and
  -- request ids are shorter than 2^32 bytes.
  pub open_request_binding :
      (nonce secret c c' r r' body body' : Bytes) {frame : Bytes}
      → length nonce ≡ 12
      → IsShort c
      → IsShort c'
      → IsShort r
      → IsShort r'
      → seal_request gcm hkdf nonce secret c r body ≡ some frame
      → open_request gcm hkdf secret c' r' frame ≡ some (ok body')
      → ((c ≡ c') × (r ≡ r') × (body ≡ body')) ⊎ Forgery gcm
  unfolding open_request
  open_request_binding nonce secret c c' r r' body body' hn hc hc' hr hr' e o =
      let (key, found, sealed) = request_key nonce secret c r body e in
      elim (open_with-binding gcm laws nonce key (request_aad c r) (request_aad c' r') body body' hn
        sealed (ground (arith, found))) [
          | inl (aads, bodies) ↦
              let (p, q) = request_aad_inj c c' r r' hc hc' hr hr' aads in inl (p, q, bodies)
          | inr bad ↦ inr bad
        ]

  -- A sealed response that opens under the same secret was sealed for the channel, the request id and
  -- the request nonce it is opened for, and opens to the body that was sealed; or a forgery is
  -- exhibited. So a response answers one request.
  pub open_response_binding :
      (nonce secret c c' r r' n n' body body' : Bytes) {frame : Bytes}
      → length nonce ≡ 12
      → IsShort c
      → IsShort c'
      → IsShort r
      → IsShort r'
      → length n ≡ 12
      → length n' ≡ 12
      → seal_response gcm hkdf nonce secret c r n body ≡ some frame
      → open_response gcm hkdf secret c' r' n' frame ≡ some (ok body')
      → ((c ≡ c') × (r ≡ r') × (n ≡ n') × (body ≡ body')) ⊎ Forgery gcm
  unfolding open_response
  open_response_binding nonce secret c c' r r' n n' body body' hn hc hc' hr hr' h h' e o =
      let (key, found, sealed) = response_key nonce secret c r n body e in
      elim (open_with-binding gcm laws nonce key (response_aad c r n) (response_aad c' r' n') body
        body' hn sealed (ground (arith, found))) [
          | inl (aads, bodies) ↦
              let (p, q, s) =
                response_aad_inj c c' r r' n n' hc hc' hr hr' (omega arith) (omega arith) aads in
              inl (p, q, s, bodies)
          | inr bad ↦ inr bad
        ]
