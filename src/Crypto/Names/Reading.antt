-- ===== src/Crypto/Names/Reading.antt =====
-- A name that crypto/src/encname.rs encrypted is read back.
use signet_drive.Base.{ℕ, ◌-◌, ◌≡◌, refl, arith, Bytes, true, length, take, drop, ltb}
use signet_drive.Base.{take-append-drop, bytes_eq}
use signet_drive.Base.Results.{ok, bind_ok, then_ok, ok_inj}
use signet_drive.Crypto.{AesGcm, AesGcmLaws, seal, open-seal}
use signet_drive.Crypto.Names.{Text, TextLaws, NameEnvelope, encrypt_name, decrypt_name, name_aad}
use signet_drive.Crypto.Names.{from_jose, as_jose, AlgId, a256_gcm, is_a256_gcm}
use signet_drive.Crypto.Names.{ecdh_es_a256_kw, ecdh_es_ml_kem1024_a256_kw, es256}

-- Every algorithm of the registry is read from its name.
pub from_jose-as_jose : (id : AlgId) → from_jose (as_jose id) ≡ ok id
unfolding from_jose bytes_eq
from_jose-as_jose a256_gcm = refl
from_jose-as_jose ecdh_es_a256_kw = refl
from_jose-as_jose ecdh_es_ml_kem1024_a256_kw = refl
from_jose-as_jose es256 = refl

-- What `encrypt_name` returns for a UTF-8 name and a 12-byte IV, `decrypt_name` reads as that name
-- under the same key, folder and target.
pub decrypt_name-encrypt_name :
    (gcm : AesGcm) (laws : AesGcmLaws gcm) (t : Text) (text_laws : TextLaws t)
    (iv metadata_key root target name : Bytes) {envelope : NameEnvelope}
    → length iv ≡ 12
    → t.is_utf8 name ≡ true
    → encrypt_name gcm t iv metadata_key root target name ≡ ok envelope
    → decrypt_name gcm t metadata_key root target envelope ≡ ok name
unfolding encrypt_name decrypt_name is_a256_gcm
decrypt_name-encrypt_name gcm laws t text_laws iv key root target name {envelope} hi utf e =
    let (sealed, made, e₁) = bind_ok (seal gcm key iv name (name_aad root target)) _ e in
    let (long, e₂) = then_ok (ltb (length sealed) 16) _ _ e₁ in
    let k : ℕ = length sealed - 16 in
    let opens = open-seal gcm laws key iv name (name_aad root target) made in
    rw (← ok_inj e₂) (
      ground (
        arith,
        from_jose-as_jose a256_gcm,
        text_laws.decode64_back iv,
        hi,
        text_laws.decode64_back (take k sealed),
        text_laws.decode64_back (drop k sealed),
        take-append-drop k sealed,
        opens,
        utf,
      ))
