-- ===== src/Crypto/KemWrap.antt =====
-- The wrapped private key of a human recipient: crypto/src/kem_wrap.rs.
pub mod Opening
mod Runs
use Prim.Native.String.{String}
use signet_drive.Base.{ℕ, ◌-◌, Bool, not, Bytes, [], ◌∷◌, ◌++◌, length, take, drop, ◌==◌}
use signet_drive.Base.Results.{Result, ok, ok_or, ◌>>=◌, ◌>>◌, refuse_if}
use signet_drive.Crypto.{CryptoError, invalid_input, unknown_algorithm, AesGcm, seal, open_sealed}
use signet_drive.Crypto.Names.{Text, as_jose, from_jose, a256_gcm, is_a256_gcm}
use signet_drive.Crypto.Kdf.{Hkdf, hkdf_sha256}

-- "signet-drive-kem-wrap-v1".
abbrev pub kem_wrap_label : Bytes
kem_wrap_label =
    115 ∷ 105 ∷ 103 ∷ 110 ∷ 101 ∷ 116 ∷ 45 ∷ 100 ∷ 114 ∷ 105 ∷ 118 ∷ 101 ∷ 45 ∷ 107 ∷ 101 ∷ 109 ∷ 45
    ∷ 119 ∷ 114 ∷ 97 ∷ 112 ∷ 45 ∷ 118 ∷ 49 ∷ []

unfoldable pub prf_salt : (Bytes → Bytes) → Bytes
prf_salt sha256 = sha256 kem_wrap_label

pub record KemPrivkeyWrap : Type 0 where
  pub v : ℕ
  pub alg : Bytes
  pub iv : Bytes
  pub ct : Bytes
  pub tag : Bytes

unfoldable pub derive_wrap_key : Hkdf → Bytes → Result CryptoError Bytes
derive_wrap_key hkdf prf_output =
    refuse_if (not (length prf_output == 32)) (invalid_input "prf output must be 32 bytes")
    >> (hkdf_sha256 hkdf prf_output [] kem_wrap_label 32 >>= λ w.
        refuse_if (not (length w == 32)) (invalid_input "derived wrap key length") >> ok w)

module _ (gcm : AesGcm) (text : Text) where
  unfoldable pub decode_field : Bytes → String → Result CryptoError Bytes
  decode_field field what = ok_or (text.decode64 field) (invalid_input what)

  -- A sealed message has at least the 16 bytes of its tag, so the subtraction does not stop at 0
  -- (`length-seal` in Crypto.antt).
  unfoldable pub wrap_kem_privkey : Bytes → Bytes → Bytes → Result CryptoError KemPrivkeyWrap
  wrap_kem_privkey wrap_key pkcs8 iv = seal gcm wrap_key iv pkcs8 kem_wrap_label >>= λ sealed.
      ok (record {
        v = 1;
        alg = as_jose a256_gcm;
        iv = text.encode64 iv;
        ct = text.encode64 (take (length sealed - 16) sealed);
        tag = text.encode64 (drop (length sealed - 16) sealed);
      })

  unfoldable pub unwrap_kem_privkey : Bytes → KemPrivkeyWrap → Result CryptoError Bytes
  unwrap_kem_privkey wrap_key envelope = from_jose (envelope.alg) >>= λ id.
      refuse_if (not (is_a256_gcm id)) unknown_algorithm
      >> (decode_field (envelope.iv) "kem wrap iv base64url" >>= λ iv.
          refuse_if (not (length iv == 12)) (invalid_input "kem wrap iv must be 12 bytes")
          >> (decode_field (envelope.tag) "kem wrap tag base64url" >>= λ tag.
              refuse_if (not (length tag == 16)) (invalid_input "kem wrap tag must be 16 bytes")
              >> (decode_field (envelope.ct) "kem wrap ct base64url" >>= λ ct.
                  open_sealed gcm wrap_key iv (ct ++ tag) kem_wrap_label)))
