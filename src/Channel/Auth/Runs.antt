-- ===== src/Channel/Auth/Runs.antt =====
-- Frames under the stand-in cipher, and the theorems at concrete frames.
use signet_drive.Base.{ℕ, ◌≡◌, refl, arith, Bytes, [], ◌∷◌, ◌++◌, replicate, some, ◌⊎◌, bytes_eq}
use signet_drive.Base.Results.{Result, ok}
use signet_drive.Base.BigEndian.{be}
use signet_drive.Crypto.{CryptoError, Forgery, seal, open_sealed}
use signet_drive.Crypto.Toy.{toy_gcm, toy_laws}
use signet_drive.Channel.Auth.{request_aad, response_aad, derive_key, seal_with, open_with}
use signet_drive.Channel.Auth.{seal_request, open_request, seal_response, open_response}
use signet_drive.Channel.Auth.Frames.{open_request_binding, open_response_binding}

abbrev toy_hkdf : Bytes → Bytes → Bytes → ℕ → Result CryptoError Bytes
toy_hkdf key salt info n = ok (replicate n 9)

abbrev secret : Bytes
secret = replicate 32 7

abbrev nonce : Bytes
nonce = replicate 12 5

-- The tag of the stand-in is the head of the associated data: the domain's length, and its head.
abbrev request_frame : Bytes
request_frame =
    nonce
    ++ (8 ∷ 0 ∷ 0 ∷ 0 ∷ 25 ∷ 115 ∷ 105 ∷ 103 ∷ 110 ∷ 101 ∷ 116 ∷ 45 ∷ 99 ∷ 104 ∷ 97 ∷ 110 ∷ 110
        ∷ [])

abbrev response_frame : Bytes
response_frame =
    nonce
    ++ (8 ∷ 0 ∷ 0 ∷ 0 ∷ 26 ∷ 115 ∷ 105 ∷ 103 ∷ 110 ∷ 101 ∷ 116 ∷ 45 ∷ 99 ∷ 104 ∷ 97 ∷ 110 ∷ 110
        ∷ [])

abbrev channel_id : Bytes
channel_id = 104 ∷ []

abbrev req_id : Bytes
req_id = 114 ∷ []

seal_request_run :
    seal_request toy_gcm toy_hkdf nonce secret channel_id req_id (8 ∷ []) ≡ some request_frame
unfolding seal_request derive_key seal_with seal request_aad be
seal_request_run = refl

open_request_run :
    open_request toy_gcm toy_hkdf secret channel_id req_id request_frame ≡ some (ok (8 ∷ []))
unfolding open_request derive_key open_with open_sealed request_aad be bytes_eq
open_request_run = refl

seal_response_run :
    seal_response toy_gcm toy_hkdf nonce secret channel_id req_id nonce (8 ∷ [])
    ≡ some response_frame
unfolding seal_response derive_key seal_with seal response_aad be
seal_response_run = refl

open_response_run :
    open_response toy_gcm toy_hkdf secret channel_id req_id nonce response_frame
    ≡ some (ok (8 ∷ []))
unfolding open_response derive_key open_with open_sealed response_aad be bytes_eq
open_response_run = refl

open_request_binding_example :
    ((channel_id ≡ channel_id) × (req_id ≡ req_id) × (◌≡◌ {A = Bytes} (8 ∷ []) (8 ∷ [])))
    ⊎ Forgery toy_gcm
open_request_binding_example =
    open_request_binding toy_gcm toy_laws toy_hkdf nonce secret channel_id channel_id req_id req_id
      (8 ∷ []) (8 ∷ []) refl (omega arith) (omega arith) (omega arith) (omega arith)
      seal_request_run open_request_run

open_response_binding_example :
    ((channel_id ≡ channel_id)
      × (req_id ≡ req_id)
      × (nonce ≡ nonce)
      × (◌≡◌ {A = Bytes} (8 ∷ []) (8 ∷ [])))
    ⊎ Forgery toy_gcm
open_response_binding_example =
    open_response_binding toy_gcm toy_laws toy_hkdf nonce secret channel_id channel_id req_id req_id
      nonce nonce (8 ∷ []) (8 ∷ []) refl (omega arith) (omega arith) (omega arith) (omega arith)
      refl refl seal_response_run open_response_run
