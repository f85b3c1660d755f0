-- ===== src/Channel/Auth.antt =====
-- The sealed frames of the channel: channel/src/auth.rs.
--
-- AES-256-GCM is the parameter of Crypto.antt, HKDF-SHA-256 (crypto/src/kdf.rs) a parameter here.
-- The nonce that the source draws from the operating system is an argument. `none` is a panic: of
-- `expect` on HKDF or on the sealing.
pub mod Binding
pub mod Frames
mod Runs
use signet_drive.Base.{ℕ, ◌≡◌, Bytes, Option, none, some, [], ◌∷◌, ◌++◌, length, take, drop}
use signet_drive.Base.{ltb, ◌==◌, if◌then◌else◌}
use signet_drive.Base.Results.{Result, ok, err, map_err}
use signet_drive.Base.BigEndian.{be}
use signet_drive.Crypto.{CryptoError, AesGcm, seal, open_sealed}
use signet_drive.Channel.{ChannelError, auth, malformed_frame}
use signet_drive.Channel.Wire.{protocol_version}

abbrev pub secret_len : ℕ
secret_len = 32

abbrev pub nonce_len : ℕ
nonce_len = 12

-- `b"signet-channel/v1/request"`, 25 bytes.
abbrev pub domain_request : Bytes
domain_request =
    115 ∷ 105 ∷ 103 ∷ 110 ∷ 101 ∷ 116 ∷ 45 ∷ 99 ∷ 104 ∷ 97 ∷ 110 ∷ 110 ∷ 101 ∷ 108 ∷ 47 ∷ 118 ∷ 49
    ∷ 47 ∷ 114 ∷ 101 ∷ 113 ∷ 117 ∷ 101 ∷ 115 ∷ 116 ∷ []

-- `b"signet-channel/v1/response"`, 26 bytes.
abbrev pub domain_response : Bytes
domain_response =
    115 ∷ 105 ∷ 103 ∷ 110 ∷ 101 ∷ 116 ∷ 45 ∷ 99 ∷ 104 ∷ 97 ∷ 110 ∷ 110 ∷ 101 ∷ 108 ∷ 47 ∷ 118 ∷ 49
    ∷ 47 ∷ 114 ∷ 101 ∷ 115 ∷ 112 ∷ 111 ∷ 110 ∷ 115 ∷ 101 ∷ []

-- `b"-key"`, which the two `info` labels put behind the domains.
abbrev key_suffix : Bytes
key_suffix = 45 ∷ 107 ∷ 101 ∷ 121 ∷ []

abbrev pub request_key_info : Bytes
request_key_info = domain_request ++ key_suffix

abbrev pub response_key_info : Bytes
response_key_info = domain_response ++ key_suffix

-- `len as u32` keeps the low 32 bits, and `be 4` writes those.
pub push_lp : Bytes → Bytes → Bytes
push_lp buf field = buf ++ (be 4 (length field) ++ field)

unfoldable pub request_aad : Bytes → Bytes → Bytes
unfolding push_lp
request_aad channel_id req_id =
    push_lp (push_lp (push_lp [] domain_request ++ be 2 protocol_version) channel_id) req_id

unfoldable pub response_aad : Bytes → Bytes → Bytes → Bytes
unfolding push_lp
response_aad channel_id req_id request_nonce =
    push_lp
      (push_lp (push_lp (push_lp [] domain_response ++ be 2 protocol_version) channel_id) req_id)
      request_nonce

unfoldable pub frame_nonce : Bytes → Result ChannelError Bytes
frame_nonce frame =
    if ltb (length frame) nonce_len then err malformed_frame else ok (take nonce_len frame)

-- `expect`: the value, or a panic.
abbrev expect : Result CryptoError Bytes → Option Bytes
expect (ok x) = some x
expect (err e) = none

-- A computation after one that may panic.
abbrev pub and_then {ℓ} : {A : Type ℓ} → Option Bytes → (Bytes → Option A) → Option A
and_then none k = none
and_then (some x) k = k x

module _ (hkdf : Bytes → Bytes → Bytes → ℕ → Result CryptoError Bytes) where
  -- `copy_from_slice` panics on another length.
  unfoldable pub derive_key : Bytes → Bytes → Option Bytes
  derive_key secret info =
      and_then (expect (hkdf secret [] info 32))
        (λ okm. if length okm == 32 then some okm else none)

module _ (gcm : AesGcm) where
  unfoldable pub seal_with : Bytes → Bytes → Bytes → Bytes → Option Bytes
  seal_with nonce key aad body =
      and_then (expect (seal gcm key nonce body aad)) (λ ct. some (nonce ++ ct))

  unfoldable pub open_with : Bytes → Bytes → Bytes → Result ChannelError Bytes
  open_with key aad frame =
      if ltb (length frame) nonce_len
      then err malformed_frame
      else map_err (λ _. auth)
          (open_sealed gcm key (take nonce_len frame) (drop nonce_len frame) aad)

module _ (gcm : AesGcm) (hkdf : Bytes → Bytes → Bytes → ℕ → Result CryptoError Bytes) where
  unfoldable pub seal_request : Bytes → Bytes → Bytes → Bytes → Bytes → Option Bytes
  seal_request nonce secret channel_id req_id body =
      and_then (derive_key hkdf secret request_key_info)
        (λ key. seal_with gcm nonce key (request_aad channel_id req_id) body)

  unfoldable pub open_request : Bytes → Bytes → Bytes → Bytes → Option (Result ChannelError Bytes)
  open_request secret channel_id req_id frame =
      and_then (derive_key hkdf secret request_key_info)
        (λ key. some (open_with gcm key (request_aad channel_id req_id) frame))

  unfoldable pub seal_response : Bytes → Bytes → Bytes → Bytes → Bytes → Bytes → Option Bytes
  seal_response nonce secret channel_id req_id request_nonce body =
      and_then (derive_key hkdf secret response_key_info)
        (λ key. seal_with gcm nonce key (response_aad channel_id req_id request_nonce) body)

  pub open_response : Bytes → Bytes → Bytes → Bytes → Bytes → Option (Result ChannelError Bytes)
  open_response secret channel_id req_id request_nonce frame =
      and_then (derive_key hkdf secret response_key_info)
        (λ key. some (open_with gcm key (response_aad channel_id req_id request_nonce) frame))
