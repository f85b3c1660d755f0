-- ===== src/Crypto/Envelope.antt =====
-- File ciphertext envelopes: crypto/src/envelope.rs.
--
-- The fixed-size arrays of the source (`dek`, `iv`, `file_id`) are byte strings whose lengths are
-- hypotheses of the theorems that need them. HKDF-SHA-256 (crypto/src/kdf.rs, a call of the hkdf
-- crate) is a parameter. A `u32` or `u64` is a number whose range is a hypothesis where it matters.
pub mod Framing
pub mod File
pub mod Chunk
mod Runs
use Prim.Native.String.{String}
use Prim.Native.Char.{code}
use signet_drive.Base.{ℕ, ◌+◌, ◌-◌, ◌*◌, ◌/◌, ◌%◌, ◌^◌, max, Bool, true, false, ◌||◌, not, Bytes}
use signet_drive.Base.{Option, none, some, List, [], ◌∷◌, ◌++◌, length, take, drop}
use signet_drive.Base.{ltb, leb, ◌==◌, if◌then◌else◌}
use signet_drive.Base.Results.{Result, ok, err, ◌>>=◌, ◌>>◌, refuse_if}
use signet_drive.Base.BigEndian.{be, from_be}
use signet_drive.Crypto.{CryptoError, invalid_input, AesGcm, seal, open_sealed}

abbrev pub magic_single_put : ℕ
magic_single_put = 0x01

abbrev pub alg_a256gcm : ℕ
alg_a256gcm = 0x01

abbrev pub header_len : ℕ
header_len = 14

abbrev pub min_envelope_len : ℕ
min_envelope_len = 30

abbrev pub magic_multipart : ℕ
magic_multipart = 0x02

abbrev pub multipart_header_len : ℕ
multipart_header_len = 18

abbrev pub multipart_min_envelope_len : ℕ
multipart_min_envelope_len = 34

abbrev pub multipart_chunk_overhead : ℕ
multipart_chunk_overhead = 34

-- `b"signet-drive-multipart-iv-v1"`.
abbrev pub multipart_iv_label : Bytes
multipart_iv_label =
    115 ∷ 105 ∷ 103 ∷ 110 ∷ 101 ∷ 116 ∷ 45 ∷ 100 ∷ 114 ∷ 105 ∷ 118 ∷ 101 ∷ 45 ∷ 109 ∷ 117 ∷ 108
    ∷ 116 ∷ 105 ∷ 112 ∷ 97 ∷ 114 ∷ 116 ∷ 45 ∷ 105 ∷ 118 ∷ 45 ∷ 118 ∷ 49 ∷ []

-- `slice[i]`; out of range the source would panic, and the callers have checked the length.
abbrev pub byte_at : Bytes → ℕ → ℕ
byte_at [] i = 0
byte_at (b ∷ rest) ℕ.zero = b
byte_at (b ∷ rest) (ℕ.suc i) = byte_at rest i

-- `chunk_size + 34`, the division rounded up and the product are on `u64`; they wrap at 2^64 here, as
-- in a release build.
pub multipart_plaintext_len : ℕ → ℕ → Option ℕ
multipart_plaintext_len ciphertext_len chunk_size =
    let per = (chunk_size + multipart_chunk_overhead) % 2 ^ 64 in
    let chunks = max ((ciphertext_len + (per - 1)) / per) 1 in
    let framing = chunks * multipart_chunk_overhead % 2 ^ 64 in
    if chunk_size == 0 || ltb ciphertext_len multipart_chunk_overhead
    then none
    else if ltb ciphertext_len framing
    then none
    else some (ciphertext_len - framing)

pub is_last_chunk : ℕ → ℕ → Result CryptoError Bool
is_last_chunk chunk_index chunk_count =
    if chunk_count == 0 || leb chunk_count chunk_index
    then err (invalid_input "multipart chunk_index out of range for chunk_count")
    else ok (chunk_index == chunk_count - 1)

-- `is_last as u8`.
abbrev pub bit : Bool → ℕ
bit true = 1
bit false = 0

pub multipart_aad : Bytes → ℕ → Bool → Bytes
multipart_aad file_id chunk_index is_last = file_id ++ (be 4 chunk_index ++ (bit is_last ∷ []))

-- `hkdf` is HKDF-SHA-256: input key, salt, info, output length.
module _ (hkdf : Bytes → Bytes → Bytes → ℕ → Result CryptoError Bytes) where
  -- `iv.try_into()` to `[u8; 12]`.
  pub multipart_iv : Bytes → ℕ → Result CryptoError Bytes
  multipart_iv dek chunk_index = do
    iv ← hkdf dek [] (multipart_iv_label ++ be 4 chunk_index) 12
    if length iv == 12 then ok iv else err (invalid_input "multipart iv length")

module _ (gcm : AesGcm) where
  pub seal_file : Bytes → Bytes → Bytes → Bytes → Result CryptoError Bytes
  seal_file dek iv file_id plaintext = do
    sealed ← seal gcm dek iv plaintext file_id
    ok (magic_single_put ∷ alg_a256gcm ∷ (iv ++ sealed))

  pub open_file : Bytes → Bytes → Bytes → Result CryptoError Bytes
  open_file dek file_id envelope = do
    refuse_if (ltb (length envelope) min_envelope_len) (invalid_input "file envelope too short")
    refuse_if (not (byte_at envelope 0 == magic_single_put)) (invalid_input "file envelope magic")
    refuse_if (not (byte_at envelope 1 == alg_a256gcm)) (invalid_input "file envelope alg")
    open_sealed gcm dek (take 12 (drop 2 envelope)) (drop header_len envelope) file_id

  module _ (hkdf : Bytes → Bytes → Bytes → ℕ → Result CryptoError Bytes) where
    pub seal_chunk : Bytes → Bytes → ℕ → ℕ → Bytes → Result CryptoError Bytes
    seal_chunk dek file_id chunk_index chunk_count plaintext = do
      is_last ← is_last_chunk chunk_index chunk_count
      iv ← multipart_iv hkdf dek chunk_index
      sealed ← seal gcm dek iv plaintext (multipart_aad file_id chunk_index is_last)
      ok (magic_multipart ∷ alg_a256gcm ∷ (be 4 chunk_index ++ (iv ++ sealed)))

  pub open_chunk : Bytes → Bytes → ℕ → ℕ → Bytes → Result CryptoError Bytes
  open_chunk dek file_id chunk_index chunk_count envelope = do
    is_last ← is_last_chunk chunk_index chunk_count
    refuse_if (ltb (length envelope) multipart_min_envelope_len)
        (invalid_input "multipart chunk too short")
    refuse_if (not (byte_at envelope 0 == magic_multipart)) (invalid_input "multipart chunk magic")
    refuse_if (not (byte_at envelope 1 == alg_a256gcm)) (invalid_input "multipart chunk alg")
    refuse_if (not (from_be (take 4 (drop 2 envelope)) == chunk_index))
        (invalid_input "multipart chunk index mismatch")
    open_sealed gcm dek (take 12 (drop 6 envelope)) (drop multipart_header_len envelope)
        (multipart_aad file_id chunk_index is_last)
