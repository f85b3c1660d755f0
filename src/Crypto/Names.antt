-- ===== src/Crypto/Names.antt =====
-- Encrypted names: crypto/src/encname.rs, with the registry of crypto/src/alg.rs.
--
-- Strings are their UTF-8 bytes. The URL-safe base64 without padding and the UTF-8 test of
-- `String::from_utf8` are parameters; `TextLaws` says that what was encoded is decoded. The random IV
-- is an argument. An IV of another length than 12 is refused, as `try_into` does.
pub mod Reading
pub mod Binding
mod Runs
use Prim.Native.String.{String}
use signet_drive.Base.{
  ℕ, ◌-◌, Bool, true, false, not, ◌≡◌, Bytes, Option, none, some, [], ◌∷◌, ◌++◌, length,
}
use signet_drive.Base.{take, drop, ltb, ◌==◌, bytes_eq, if◌then◌else◌}
use signet_drive.Base.Results.{Result, ok, err, ◌>>=◌, ◌>>◌, refuse_if, ok_or}
use signet_drive.Crypto.{CryptoError, invalid_input, unknown_algorithm, AesGcm, seal, open_sealed}

pub data AlgId : Type 0 where
  a256_gcm : AlgId
  ecdh_es_a256_kw : AlgId
  ecdh_es_ml_kem1024_a256_kw : AlgId
  es256 : AlgId

-- `AlgId::as_jose`.
abbrev pub as_jose : AlgId → Bytes
as_jose a256_gcm = 65 ∷ 50 ∷ 53 ∷ 54 ∷ 71 ∷ 67 ∷ 77 ∷ []
as_jose ecdh_es_a256_kw = 69 ∷ 67 ∷ 68 ∷ 72 ∷ 45 ∷ 69 ∷ 83 ∷ 43 ∷ 65 ∷ 50 ∷ 53 ∷ 54 ∷ 75 ∷ 87 ∷ []
as_jose ecdh_es_ml_kem1024_a256_kw =
    69 ∷ 67 ∷ 68 ∷ 72 ∷ 45 ∷ 69 ∷ 83 ∷ 43 ∷ 77 ∷ 76 ∷ 45 ∷ 75 ∷ 69 ∷ 77 ∷ 45 ∷ 49 ∷ 48 ∷ 50 ∷ 52
    ∷ 43 ∷ 65 ∷ 50 ∷ 53 ∷ 54 ∷ 75 ∷ 87 ∷ []
as_jose es256 = 69 ∷ 83 ∷ 50 ∷ 53 ∷ 54 ∷ []

-- `AlgId::from_jose`.
pub from_jose : Bytes → Result CryptoError AlgId
from_jose s =
    if bytes_eq s (as_jose a256_gcm)
    then ok a256_gcm
    else if bytes_eq s (as_jose ecdh_es_a256_kw)
    then ok ecdh_es_a256_kw
    else if bytes_eq s (as_jose ecdh_es_ml_kem1024_a256_kw)
    then ok ecdh_es_ml_kem1024_a256_kw
    else if bytes_eq s (as_jose es256)
    then ok es256
    else err unknown_algorithm

unfoldable pub is_a256_gcm : AlgId → Bool
is_a256_gcm a256_gcm = true
is_a256_gcm ecdh_es_a256_kw = false
is_a256_gcm ecdh_es_ml_kem1024_a256_kw = false
is_a256_gcm es256 = false

abbrev pub gcm_tag_len : ℕ
gcm_tag_len = 16

pub record NameEnvelope : Type 0 where
  pub v : ℕ
  pub alg : Bytes
  pub iv : Bytes
  pub ct : Bytes
  pub tag : Bytes

pub record Text : Type 0 where
  pub encode64 : Bytes → Bytes
  pub decode64 : Bytes → Option Bytes
  pub is_utf8 : Bytes → Bool

pub record TextLaws (t : Text) : Type 0 where
  pub decode64_back : (bytes : Bytes) → t.decode64 (t.encode64 bytes) ≡ some bytes

pub name_aad : Bytes → Bytes → Bytes
name_aad root_folder_id target_id = root_folder_id ++ target_id

module _ (gcm : AesGcm) (t : Text) where
  unfoldable pub encrypt_name :
      Bytes → Bytes → Bytes → Bytes → Bytes → Result CryptoError NameEnvelope
  unfolding name_aad
  encrypt_name iv metadata_key root_folder_id target_id name =
      seal gcm metadata_key iv name (name_aad root_folder_id target_id) >>= λ sealed.
      refuse_if (ltb (length sealed) gcm_tag_len) (invalid_input "aead output shorter than tag")
      >> ok (record {
        v = 1;
        alg = as_jose a256_gcm;
        iv = t.encode64 iv;
        ct = t.encode64 (take (length sealed - gcm_tag_len) sealed);
        tag = t.encode64 (drop (length sealed - gcm_tag_len) sealed);
      })

  unfoldable pub decrypt_name : Bytes → Bytes → Bytes → NameEnvelope → Result CryptoError Bytes
  unfolding from_jose is_a256_gcm name_aad
  decrypt_name metadata_key root_folder_id target_id envelope = from_jose envelope.alg >>= λ id.
      refuse_if (not (is_a256_gcm id)) unknown_algorithm
      >> (ok_or (t.decode64 envelope.iv) (invalid_input "name iv base64url") >>= λ iv.
          refuse_if (not (length iv == 12)) (invalid_input "name iv length")
          >> (ok_or (t.decode64 envelope.ct) (invalid_input "name ct base64url") >>= λ ct.
              ok_or (t.decode64 envelope.tag) (invalid_input "name tag base64url") >>= λ tag.
              open_sealed gcm metadata_key iv (ct ++ tag) (name_aad root_folder_id target_id)
              >>= λ plain.
                  refuse_if (not (t.is_utf8 plain)) (invalid_input "decrypted name not utf-8")
                  >> ok plain))
