-- ===== src/Crypto/Wrap.antt =====
-- `ECDH-ES+A256KW` key wrapping: crypto/src/wrap.rs, crypto/src/keywrap.rs, crypto/src/ecdh.rs and the
-- fingerprints of crypto/src/pubkey.rs.
--
-- The curve is the p256 crate's and AES key wrap the aes-kw crate's: the parameters `Curve` and
-- `KeyWrap`, with what their documentation says of them in `CurveLaws` and `KeyWrapLaws`. A public
-- key is its uncompressed X9.63 encoding. The hexadecimal printer is a parameter too. The random
-- ephemeral scalar is an argument.
pub mod RoundTrip
pub mod Folder
pub mod Toy
mod Runs
use Prim.Native.String.{String}
use signet_drive.Base.{ℕ, zero, suc, ◌+◌, ◌-◌, ◌^◌, ◌%◌, ◌≡◌, ◌≤◌, Bytes, [], ◌∷◌, ◌++◌, length}
use signet_drive.Base.{Bool, true, false, not, ◌||◌, ◌==◌, take, drop, ltb, if◌then◌else◌}
use signet_drive.Base.{Option, none, some, bytes_eq}
use signet_drive.Base.Results.{Result, ok, err, ok_or, ◌>>=◌, ◌>>◌, refuse_if}
use signet_drive.Crypto.{CryptoError, invalid_input, unknown_algorithm, authentication}
use signet_drive.Crypto.Names.{Text, AlgId, as_jose, from_jose, ecdh_es_a256_kw, a256_gcm}
use signet_drive.Crypto.Names.{ecdh_es_ml_kem1024_a256_kw, es256}
use signet_drive.Crypto.Kdf.{ecdh_es_a256kw_kek}

-- P-256. `from_sec1` is `PublicKey::from_sec1_bytes`, whose key is given by its uncompressed
-- encoding; `is_scalar` says whether `SecretKey::from_slice` accepts; `public_key` is
-- `SecretKey::public_key` and `agree` the x-coordinate of `diffie_hellman`. `to_der` is
-- `to_public_key_der`.
pub record Curve : Type 0 where
  pub from_sec1 : Bytes → Option Bytes
  pub is_scalar : Bytes → Bool
  pub public_key : Bytes → Bytes
  pub agree : Bytes → Bytes → Bytes
  pub to_der : Bytes → Option Bytes

pub record CurveLaws (curve : Curve) : Type 0 where
  -- An uncompressed encoding is 0x04 and two coordinates of 32 bytes.
  pub uncompressed :
      (point : Bytes) {key : Bytes}
      → curve.from_sec1 point ≡ some key
      → (x : Bytes) × (y : Bytes) × (length x ≡ 32) × (length y ≡ 32) × (key ≡ 0x04 ∷ (x ++ y))
  -- It is read back as itself.
  pub canonical :
      (point : Bytes) {key : Bytes}
      → curve.from_sec1 point ≡ some key
      → curve.from_sec1 key ≡ some key
  -- An input of 65 bytes that begins with 0x04 is an uncompressed encoding.
  pub already :
      (x y : Bytes) {key : Bytes}
      → length x ≡ 32
      → length y ≡ 32
      → curve.from_sec1 (0x04 ∷ (x ++ y)) ≡ some key
      → key ≡ 0x04 ∷ (x ++ y)
  -- Every key of the curve has a DER encoding.
  pub encodes :
      (point : Bytes) {key : Bytes}
      → curve.from_sec1 point ≡ some key
      → (der : Bytes) × (curve.to_der key ≡ some der)
  pub public_on_curve :
      (scalar : Bytes)
      → curve.is_scalar scalar ≡ true
      → curve.from_sec1 (curve.public_key scalar) ≡ some (curve.public_key scalar)
  pub symmetric :
      (a b : Bytes)
      → curve.is_scalar a ≡ true
      → curve.is_scalar b ≡ true
      → curve.agree a (curve.public_key b) ≡ curve.agree b (curve.public_key a)

-- `KekAes256`: key, and key data or wrapped data.
pub record KeyWrap : Type 0 where
  pub wrap : Bytes → Bytes → Option Bytes
  pub unwrap : Bytes → Bytes → Option Bytes

pub record KeyWrapLaws (kw : KeyWrap) : Type 0 where
  pub wraps :
      (kek payload : Bytes)
      → 16 ≤ length payload
      → length payload % 8 ≡ 0
      → (wrapped : Bytes) × (kw.wrap kek payload ≡ some wrapped)
  pub adds_iv :
      (kek payload : Bytes) {wrapped : Bytes}
      → kw.wrap kek payload ≡ some wrapped
      → length wrapped ≡ length payload + 8
  pub unwraps :
      (kek payload : Bytes) {wrapped : Bytes}
      → kw.wrap kek payload ≡ some wrapped
      → kw.unwrap kek wrapped ≡ some payload
  -- The integrity check: what unwraps is the wrapping of what it unwraps to.
  pub wrapped_from :
      (kek wrapped : Bytes) {payload : Bytes}
      → kw.unwrap kek wrapped ≡ some payload
      → kw.wrap kek payload ≡ some wrapped

-- crypto/src/keywrap.rs `wrap`.
unfoldable pub wrap : KeyWrap → Bytes → Bytes → Result CryptoError Bytes
wrap kw kek key_bytes =
    refuse_if (ltb (length key_bytes) 16 || not (length key_bytes % 8 == 0))
      (invalid_input "aes-kw key_data length")
    >> ok_or (kw.wrap kek key_bytes) (invalid_input "aes-kw wrap")

-- crypto/src/keywrap.rs `unwrap`.
unfoldable pub unwrap : KeyWrap → Bytes → Bytes → Result CryptoError Bytes
unwrap kw kek wrapped =
    refuse_if (ltb (length wrapped) 24 || not (length wrapped % 8 == 0))
      (invalid_input "aes-kw wrapped length")
    >> ok_or (kw.unwrap kek wrapped) authentication

unfoldable pub ecdh_p256 : Curve → Bytes → Bytes → Result CryptoError Bytes
ecdh_p256 curve secret_scalar peer_public_x963 =
    refuse_if (not (curve.is_scalar secret_scalar)) (invalid_input "ecdh secret scalar")
    >> (ok_or (curve.from_sec1 peer_public_x963) (invalid_input "ecdh peer public key") >>= λ peer.
        ok (curve.agree secret_scalar peer))

unfoldable pub fingerprint_raw : (Bytes → Bytes) → (Bytes → Bytes) → Bytes → Bytes
fingerprint_raw sha256 hex public_key = hex (sha256 public_key)

unfoldable pub fingerprint :
    Curve → (Bytes → Bytes) → (Bytes → Bytes) → Bytes → Result CryptoError Bytes
fingerprint curve sha256 hex pubkey_x963 =
    ok_or (curve.from_sec1 pubkey_x963) (invalid_input "fingerprint public key") >>= λ key.
    ok_or (curve.to_der key) (invalid_input "spki der encoding") >>= λ der. ok (hex (sha256 der))

pub record EpkJwk : Type 0 where
  pub kty : Bytes
  pub crv : Bytes
  pub x : Bytes
  pub y : Bytes

pub record WrapEnvelope : Type 0 where
  pub v : ℕ
  pub alg : Bytes
  pub epk : EpkJwk
  pub ct : Bytes
  pub rfp : Bytes

-- "EC" and "P-256".
abbrev pub kty_ec : Bytes
kty_ec = 69 ∷ 67 ∷ []

abbrev pub crv_p256 : Bytes
crv_p256 = 80 ∷ 45 ∷ 50 ∷ 53 ∷ 54 ∷ []

-- `point.x()` and `point.y()` of an uncompressed encoding are its bytes 1 to 32 and 33 to 64.
unfoldable pub epk_jwk : Text → Bytes → EpkJwk
epk_jwk text pubkey = record {
  kty = kty_ec;
  crv = crv_p256;
  x = text.encode64 (take 32 (drop 1 pubkey));
  y = text.encode64 (drop 33 pubkey);
}

unfoldable pub x963_from_epk : Curve → Text → EpkJwk → Result CryptoError Bytes
x963_from_epk curve text epk =
    refuse_if (not (bytes_eq (epk.kty) kty_ec) || not (bytes_eq (epk.crv) crv_p256))
      (invalid_input "epk must be EC P-256")
    >> (ok_or (text.decode64 (epk.x)) (invalid_input "epk x base64url") >>= λ x.
        ok_or (text.decode64 (epk.y)) (invalid_input "epk y base64url") >>= λ y.
        refuse_if (not (length x == 32) || not (length y == 32))
          (invalid_input "epk coordinates must be 32 bytes")
        >> (ok_or (curve.from_sec1 (0x04 ∷ (x ++ y))) (invalid_input "epk not on curve") >>= λ key.
            ok (0x04 ∷ (x ++ y))))

unfoldable pub fixed32 : Bytes → Result CryptoError Bytes
fixed32 bytes =
    refuse_if (not (length bytes == 32)) (invalid_input "unwrapped key is not 32 bytes") >> ok bytes

unfoldable pub is_ecdh_es_a256_kw : AlgId → Bool
is_ecdh_es_a256_kw a256_gcm = false
is_ecdh_es_a256_kw ecdh_es_a256_kw = true
is_ecdh_es_a256_kw ecdh_es_ml_kem1024_a256_kw = false
is_ecdh_es_a256_kw es256 = false

module _ (sha256 hex : Bytes → Bytes) (text : Text) (curve : Curve) (kw : KeyWrap) where
  -- `wrap_to`, with the ephemeral scalar.
  unfoldable pub wrap_to : Bytes → Bytes → Bytes → Bytes → Result CryptoError WrapEnvelope
  wrap_to eph_scalar recipient_kem_pub_x963 key party_v =
      ok_or (curve.from_sec1 recipient_kem_pub_x963) (invalid_input "recipient kem public key")
      >>= λ recipient. ecdh_p256 curve eph_scalar recipient_kem_pub_x963 >>= λ z.
          wrap kw (ecdh_es_a256kw_kek sha256 z party_v) key >>= λ wrapped.
          fingerprint curve sha256 hex recipient_kem_pub_x963 >>= λ rfp. ok (record {
            v = 1;
            alg = as_jose ecdh_es_a256_kw;
            epk = epk_jwk text (curve.public_key eph_scalar);
            ct = text.encode64 wrapped;
            rfp = rfp;
          })

  unfoldable pub finish_unwrap : Bytes → WrapEnvelope → Bytes → Result CryptoError Bytes
  finish_unwrap z envelope party_v = from_jose (envelope.alg) >>= λ id.
      refuse_if (not (is_ecdh_es_a256_kw id)) unknown_algorithm
      >> (ok_or (text.decode64 (envelope.ct)) (invalid_input "wrap ct base64url") >>= λ wrapped.
          unwrap kw (ecdh_es_a256kw_kek sha256 z party_v) wrapped)

  unfoldable pub unwrap_with : Bytes → WrapEnvelope → Bytes → Result CryptoError Bytes
  unwrap_with recipient_priv_scalar envelope party_v =
      x963_from_epk curve text (envelope.epk) >>= λ eph_pub_x963.
      ecdh_p256 curve recipient_priv_scalar eph_pub_x963 >>= λ z. finish_unwrap z envelope party_v

  unfoldable pub ephemeral_pubkey_x963 : WrapEnvelope → Result CryptoError Bytes
  ephemeral_pubkey_x963 envelope = x963_from_epk curve text (envelope.epk)

  unfoldable pub wrap_dek : Bytes → Bytes → Bytes → Result CryptoError WrapEnvelope
  wrap_dek eph_scalar recipient_kem_pub_x963 dek = wrap_to eph_scalar recipient_kem_pub_x963 dek []

  unfoldable pub unwrap_dek : Bytes → WrapEnvelope → Result CryptoError Bytes
  unwrap_dek recipient_priv_scalar envelope =
      unwrap_with recipient_priv_scalar envelope [] >>= fixed32

  unfoldable pub wrap_metadata_key : Bytes → Bytes → Bytes → Bytes → Result CryptoError WrapEnvelope
  wrap_metadata_key eph_scalar recipient_kem_pub_x963 metadata_key root_folder_id =
      wrap_to eph_scalar recipient_kem_pub_x963 metadata_key root_folder_id

  unfoldable pub unwrap_metadata_key : Bytes → WrapEnvelope → Bytes → Result CryptoError Bytes
  unwrap_metadata_key recipient_priv_scalar envelope root_folder_id =
      unwrap_with recipient_priv_scalar envelope root_folder_id >>= fixed32

  unfoldable pub unwrap_dek_with_shared_secret : Bytes → WrapEnvelope → Result CryptoError Bytes
  unwrap_dek_with_shared_secret z envelope = finish_unwrap z envelope [] >>= fixed32

  unfoldable pub unwrap_metadata_key_with_shared_secret :
      Bytes → WrapEnvelope → Bytes → Result CryptoError Bytes
  unwrap_metadata_key_with_shared_secret z envelope root_folder_id =
      finish_unwrap z envelope root_folder_id >>= fixed32
