-- ===== src/Crypto/Wrap/RoundTrip.antt =====
-- What crypto/src/wrap.rs wraps for a recipient, the recipient's scalar unwraps.
use signet_drive.Base.{◌%◌, ◌≡◌, ◌≤◌, ap, arith, sym, ◌∙◌}
use signet_drive.Base.{Bytes, [], ◌∷◌, ◌++◌, length, take, drop, true, some}
use signet_drive.Base.{bytes_eq_refl, take-append, drop-append}
use signet_drive.Base.Results.{ok}
use signet_drive.Crypto.Names.{Text, TextLaws, as_jose, ecdh_es_a256_kw}
use signet_drive.Crypto.Names.Reading.{from_jose-as_jose}
use signet_drive.Crypto.Kdf.{ecdh_es_a256kw_kek}
use signet_drive.Crypto.Wrap.{Curve, CurveLaws, KeyWrap, KeyWrapLaws, wrap, unwrap, ecdh_p256}
use signet_drive.Crypto.Wrap.{fingerprint, WrapEnvelope, kty_ec, crv_p256, epk_jwk}
use signet_drive.Crypto.Wrap.{x963_from_epk, fixed32, is_ecdh_es_a256_kw, wrap_to, finish_unwrap}
use signet_drive.Crypto.Wrap.{unwrap_with, wrap_dek, unwrap_dek, wrap_metadata_key}
use signet_drive.Crypto.Wrap.{unwrap_metadata_key, unwrap_dek_with_shared_secret}
use signet_drive.Crypto.Wrap.{unwrap_metadata_key_with_shared_secret}

-- AES key wrap on its own.
pub wrap_some :
    (kw : KeyWrap) (laws : KeyWrapLaws kw) (kek payload : Bytes)
    → 16 ≤ length payload
    → length payload % 8 ≡ 0
    → (wrapped : Bytes) × (wrap kw kek payload ≡ ok wrapped) × (unwrap kw kek wrapped ≡ ok payload)
unfolding wrap unwrap
wrap_some kw laws kek payload long blocks =
    let (wrapped, made) = laws.wraps kek payload long blocks in
    let size = laws.adds_iv kek payload made in
    let back = laws.unwraps kek payload made in (wrapped, ground arith, ground arith)

pub x963_from_epk-epk_jwk :
    (curve : Curve) (curve_laws : CurveLaws curve) (text : Text) (text_laws : TextLaws text)
    (point : Bytes) {key : Bytes}
    → curve.from_sec1 point ≡ some key
    → x963_from_epk curve text (epk_jwk text key) ≡ ok key
unfolding x963_from_epk epk_jwk
x963_from_epk-epk_jwk curve curve_laws text text_laws point {key} e =
    let (x, y, hx, hy, shape) = curve_laws.uncompressed point e in
    let at_x : take 32 (drop 1 key) ≡ x =
      ap (λ k. take 32 (drop 1 k)) shape ∙ take-append x y 32 hx in
    let at_y : drop 33 key ≡ y = ap (drop 33) shape ∙ drop-append x y 32 hx in
    let again : curve.from_sec1 (0x04 ∷ (x ++ y)) ≡ some key =
      ap curve.from_sec1 (sym shape) ∙ curve_laws.canonical point e in
    ground (
      arith,
      at_x,
      at_y,
      hx,
      hy,
      bytes_eq_refl kty_ec,
      bytes_eq_refl crv_p256,
      text_laws.decode64_back x,
      text_laws.decode64_back y,
      shape,
      again,
    )

module _ (sha256 hex : Bytes → Bytes) (text : Text) (text_laws : TextLaws text) (curve : Curve)
    (curve_laws : CurveLaws curve) (kw : KeyWrap) (kw_laws : KeyWrapLaws kw) where
  -- A wrap for the key of a scalar, under any context.
  pub unwrap_with-wrap_to :
      (eph scalar key party_v : Bytes)
      → curve.is_scalar eph ≡ true
      → curve.is_scalar scalar ≡ true
      → length key ≡ 32
      → (envelope : WrapEnvelope) × (wrap_to sha256 hex text curve kw eph
            (curve.public_key scalar)
            key
            party_v
          ≡ ok envelope)
        × (unwrap_with sha256 hex text curve kw scalar envelope party_v ≡ ok key)
        × (finish_unwrap sha256 hex text curve kw
              (curve.agree scalar (curve.public_key eph))
              envelope
              party_v
            ≡ ok key)
  unfolding wrap_to unwrap_with finish_unwrap ecdh_p256 fingerprint is_ecdh_es_a256_kw
  unwrap_with-wrap_to eph scalar key party_v he hs size =
      let z : Bytes = curve.agree eph (curve.public_key scalar) in
      let kek : Bytes = ecdh_es_a256kw_kek sha256 z party_v in
      let (wrapped, made, back) = wrap_some kw kw_laws kek key (omega arith) (omega arith) in
      let on_curve = curve_laws.public_on_curve scalar hs in
      let eph_on_curve = curve_laws.public_on_curve eph he in
      let (der, encoded) = curve_laws.encodes (curve.public_key scalar) on_curve in
      let point =
        x963_from_epk-epk_jwk curve curve_laws text text_laws (curve.public_key eph) eph_on_curve in
      let same : curve.agree scalar (curve.public_key eph) ≡ z =
        curve_laws.symmetric scalar eph hs he in
      let envelope : WrapEnvelope = record {
        v = 1;
        alg = as_jose ecdh_es_a256_kw;
        epk = epk_jwk text (curve.public_key eph);
        ct = text.encode64 wrapped;
        rfp = hex (sha256 der);
      } in
      let decoded = text_laws.decode64_back wrapped in
      let alg = from_jose-as_jose ecdh_es_a256_kw in
      let finished : finish_unwrap sha256 hex text curve kw
            (curve.agree scalar (curve.public_key eph)) envelope party_v
          ≡ ok key =
        rw same (ground (arith, alg, decoded, back)) in
      (
        envelope,
        ground (arith, on_curve, he, made, encoded),
        ground (arith, point, hs, eph_on_curve, finished),
        finished,
      )

  -- What `wrap_dek` makes for the public key of a scalar from a 32-byte DEK and a valid ephemeral
  -- scalar, `unwrap_dek` opens to the DEK with the recipient's scalar, and so does
  -- `unwrap_dek_with_shared_secret` with the secret the recipient's keystore computes.
  pub unwrap_dek-wrap_dek :
      (eph scalar dek : Bytes)
      → curve.is_scalar eph ≡ true
      → curve.is_scalar scalar ≡ true
      → length dek ≡ 32
      → (envelope : WrapEnvelope) × (wrap_dek sha256 hex text curve kw eph
            (curve.public_key scalar)
            dek
          ≡ ok envelope)
        × (unwrap_dek sha256 hex text curve kw scalar envelope ≡ ok dek)
        × (unwrap_dek_with_shared_secret sha256 hex text curve kw
              (curve.agree scalar (curve.public_key eph))
              envelope
            ≡ ok dek)
  unfolding wrap_dek unwrap_dek unwrap_dek_with_shared_secret fixed32
  unwrap_dek-wrap_dek eph scalar dek he hs size =
      let (envelope, made, read, finished) = unwrap_with-wrap_to eph scalar dek [] he hs size in
      (envelope, made, ground (arith, read), ground (arith, finished))

  -- What `wrap_metadata_key` makes for a folder, the public key of a scalar, a 32-byte key and a valid
  -- ephemeral scalar, opens to the key for that folder, with the recipient's scalar or with the
  -- secret that the recipient's keystore computes.
  pub unwrap_metadata_key-wrap_metadata_key :
      (eph scalar key root_folder_id : Bytes)
      → curve.is_scalar eph ≡ true
      → curve.is_scalar scalar ≡ true
      → length key ≡ 32
      → (envelope : WrapEnvelope) × (wrap_metadata_key sha256 hex text curve kw eph
            (curve.public_key scalar)
            key
            root_folder_id
          ≡ ok envelope)
        × (unwrap_metadata_key sha256 hex text curve kw scalar envelope root_folder_id ≡ ok key)
        × (unwrap_metadata_key_with_shared_secret sha256 hex text curve kw
              (curve.agree scalar (curve.public_key eph))
              envelope
              root_folder_id
            ≡ ok key)
  unfolding wrap_metadata_key unwrap_metadata_key unwrap_metadata_key_with_shared_secret fixed32
  unwrap_metadata_key-wrap_metadata_key eph scalar key root_folder_id he hs size =
      let (envelope, made, read, finished) =
        unwrap_with-wrap_to eph scalar key root_folder_id he hs size in
      (envelope, made, ground (arith, read), ground (arith, finished))
