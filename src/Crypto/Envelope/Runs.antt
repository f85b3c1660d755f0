-- ===== src/Crypto/Envelope/Runs.antt =====
-- Concrete envelopes under the stand-in cipher, and the theorems at concrete inputs.
use signet_drive.Base.{ℕ, ◌+◌, ◌*◌, ◌≡◌, refl, arith, Bytes, [], ◌∷◌, replicate, inr}
use signet_drive.Base.{◌⊎◌, none, some, bytes_eq}
use signet_drive.Base.BigEndian.{be, from_be}
use signet_drive.Base.Results.{Result, ok, err}
use signet_drive.Crypto.{CryptoError, invalid_input, authentication, Forgery, seal, open_sealed}
use signet_drive.Crypto.Toy.{toy_gcm, toy_laws}
use signet_drive.Crypto.Envelope.{
  seal_file, open_file, seal_chunk, open_chunk, multipart_plaintext_len,
}
use signet_drive.Crypto.Envelope.{multipart_iv, multipart_aad, is_last_chunk}
use signet_drive.Crypto.Envelope.Framing.{multipart_plaintext_len-framing}
use signet_drive.Crypto.Envelope.Chunk.{open_chunk_binding, SameEnd}

abbrev dek : Bytes
dek = replicate 32 7

abbrev file_id : Bytes
file_id = replicate 16 3

abbrev iv : Bytes
iv = replicate 12 5

-- HKDF with constant output of the asked length.
abbrev toy_hkdf : Bytes → Bytes → Bytes → ℕ → Result CryptoError Bytes
toy_hkdf key salt info n = ok (replicate n 9)

-- The sizes that envelope.rs tests.
lengths :
    (multipart_plaintext_len 116 16777216 ≡ some 82)
    × (multipart_plaintext_len 34 16777216 ≡ some 0)
    × (multipart_plaintext_len 33554500 16777216 ≡ some 33554432)
    × (multipart_plaintext_len 33 16777216 ≡ none)
    × (multipart_plaintext_len 116 0 ≡ none)
unfolding multipart_plaintext_len
lengths = (refl, refl, refl, refl, refl)

-- 70 bytes are no framing of chunks of 10 bytes: a file of 2 bytes has one chunk and 36 bytes.
no_framing : multipart_plaintext_len 70 10 ≡ some 2
unfolding multipart_plaintext_len
no_framing = refl

abbrev sealed_file : Bytes
sealed_file = 1 ∷ 1 ∷ 5 ∷ 5 ∷ 5 ∷ 5 ∷ 5 ∷ 5 ∷ 5 ∷ 5 ∷ 5 ∷ 5 ∷ 5 ∷ 5 ∷ 8 ∷ 9 ∷ file_id

seal_file_run : seal_file toy_gcm dek iv file_id (8 ∷ 9 ∷ []) ≡ ok sealed_file
unfolding seal_file seal
seal_file_run = refl

open_file_run : open_file toy_gcm dek file_id sealed_file ≡ ok (8 ∷ 9 ∷ [])
unfolding open_file open_sealed bytes_eq
open_file_run = refl

open_file_errors :
    (open_file toy_gcm dek file_id (1 ∷ []) ≡ err (invalid_input "file envelope too short"))
    × (open_file toy_gcm dek (replicate 16 4) sealed_file ≡ err authentication)
unfolding open_file open_sealed bytes_eq
open_file_errors = (refl, refl)

-- The second of two chunks, which is the last.
abbrev last_chunk : Bytes
last_chunk = 2 ∷ 1 ∷ 0 ∷ 0 ∷ 0 ∷ 1 ∷ 9 ∷ 9 ∷ 9 ∷ 9 ∷ 9 ∷ 9 ∷ 9 ∷ 9 ∷ 9 ∷ 9 ∷ 9 ∷ 9 ∷ 8 ∷ file_id

seal_chunk_run : seal_chunk toy_gcm toy_hkdf dek file_id 1 2 (8 ∷ []) ≡ ok last_chunk
unfolding seal_chunk is_last_chunk multipart_iv multipart_aad seal be
seal_chunk_run = refl

open_chunk_run : open_chunk toy_gcm dek file_id 1 2 last_chunk ≡ ok (8 ∷ [])
unfolding open_chunk is_last_chunk multipart_aad open_sealed be from_be bytes_eq
open_chunk_run = refl

open_chunk_moved :
    open_chunk toy_gcm dek file_id 0 2 last_chunk
    ≡ err (invalid_input "multipart chunk index mismatch")
unfolding open_chunk is_last_chunk from_be
open_chunk_moved = refl

multipart_plaintext_len-framing_example : multipart_plaintext_len (25 + 34 * 3) 10 ≡ some 25
multipart_plaintext_len-framing_example =
    multipart_plaintext_len-framing 25 10 3 (omega arith) (omega arith) (omega arith)
      (record { some_chunk = omega arith; all_fit = omega arith; none_spare = inr (omega arith) })

open_chunk_binding_example :
    ((file_id ≡ file_id) × (◌≡◌ {A = ℕ} 1 1) × SameEnd 1 2 2 × (◌≡◌ {A = Bytes} (8 ∷ []) (8 ∷ [])))
    ⊎ Forgery toy_gcm
open_chunk_binding_example =
    open_chunk_binding toy_gcm toy_laws toy_hkdf dek file_id file_id 1 2 1 2 (8 ∷ []) (8 ∷ []) refl
      (omega arith) seal_chunk_run open_chunk_run
