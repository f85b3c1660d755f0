-- ===== src/Crypto/KemWrap/Opening.antt =====
-- What crypto/src/kem_wrap.rs wraps, it unwraps.
use signet_drive.Base.{ℕ, ◌-◌, ◌^◌, ◌≡◌, ◌≤◌, arith, Bytes, [], length, take}
use signet_drive.Base.{drop}
use signet_drive.Base.{take-append-drop, length-drop}
use signet_drive.Base.Results.{ok}
use signet_drive.Crypto.{AesGcm, AesGcmLaws, seal, open-seal, length-seal}
use signet_drive.Crypto.Names.{Text, TextLaws, is_a256_gcm, as_jose, a256_gcm}
use signet_drive.Crypto.Names.Reading.{from_jose-as_jose}
use signet_drive.Crypto.Kdf.{Hkdf, HkdfLaws, hkdf_sha256}
use signet_drive.Crypto.KemWrap.{KemPrivkeyWrap, derive_wrap_key, decode_field, wrap_kem_privkey}
use signet_drive.Crypto.KemWrap.{unwrap_kem_privkey, kem_wrap_label}

-- From a 32-byte PRF output a wrap key comes, and under it a private key of up to 2^36 bytes is
-- wrapped with a 12-byte IV and comes back when it is unwrapped.
pub unwrap_kem_privkey-wrap_kem_privkey :
    (gcm : AesGcm) (laws : AesGcmLaws gcm) (text : Text) (text_laws : TextLaws text) (hkdf : Hkdf)
    (hkdf_laws : HkdfLaws hkdf) (prf_output pkcs8 iv : Bytes)
    → length prf_output ≡ 32
    → length pkcs8 ≤ 2 ^ 36
    → length iv ≡ 12
    → (w : Bytes) × (envelope : KemPrivkeyWrap) × (derive_wrap_key hkdf prf_output ≡ ok w)
      × (wrap_kem_privkey gcm text w pkcs8 iv ≡ ok envelope)
      × (unwrap_kem_privkey gcm text w envelope ≡ ok pkcs8)
unfolding derive_wrap_key hkdf_sha256 wrap_kem_privkey unwrap_kem_privkey decode_field is_a256_gcm
    seal
unwrap_kem_privkey-wrap_kem_privkey gcm laws text text_laws hkdf hkdf_laws prf_output pkcs8 iv hp hk
      hi =
    let (w, filled, size) = hkdf_laws.fills prf_output [] kem_wrap_label 32 (omega arith) in
    let (sealed, encrypted) = laws.encrypts w iv pkcs8 kem_wrap_label hk (omega arith) in
    let made : seal gcm w iv pkcs8 kem_wrap_label ≡ ok sealed = ground arith in
    let opens = open-seal gcm laws w iv pkcs8 kem_wrap_label made in
    let long = length-seal gcm laws w iv pkcs8 kem_wrap_label made in
    let k : ℕ = length sealed - 16 in
    (
      w,
      record {
        v = 1;
        alg = as_jose a256_gcm;
        iv = text.encode64 iv;
        ct = text.encode64 (take k sealed);
        tag = text.encode64 (drop k sealed);
      },
      ground arith,
      ground arith,
      ground (
        arith,
        from_jose-as_jose a256_gcm,
        text_laws.decode64_back iv,
        hi,
        text_laws.decode64_back (take k sealed),
        text_laws.decode64_back (drop k sealed),
        length-drop k sealed,
        take-append-drop k sealed,
        opens,
      ),
    )
