-- ===== src/Crypto/KemWrap/Runs.antt =====
-- The private key of a recipient under the stand-ins.
use signet_drive.Base.{◌≡◌, refl, arith, Bytes, [], ◌∷◌, replicate}
use signet_drive.Base.Results.{ok}
use signet_drive.Crypto.Toy.{toy_gcm, toy_laws}
use signet_drive.Crypto.Wrap.Toy.{toy_text, toy_text_laws, toy_hkdf, toy_hkdf_laws}
use signet_drive.Crypto.KemWrap.{KemPrivkeyWrap, derive_wrap_key, wrap_kem_privkey}
use signet_drive.Crypto.KemWrap.{unwrap_kem_privkey}
use signet_drive.Crypto.KemWrap.Opening.{unwrap_kem_privkey-wrap_kem_privkey}

unwrap_kem_privkey-wrap_kem_privkey_example :
    (w : Bytes) × (envelope : KemPrivkeyWrap) × (derive_wrap_key toy_hkdf (replicate 32 4) ≡ ok w)
    × (wrap_kem_privkey toy_gcm toy_text w (1 ∷ 2 ∷ 3 ∷ []) (replicate 12 6) ≡ ok envelope)
    × (unwrap_kem_privkey toy_gcm toy_text w envelope ≡ ok (1 ∷ 2 ∷ 3 ∷ []))
unwrap_kem_privkey-wrap_kem_privkey_example =
    unwrap_kem_privkey-wrap_kem_privkey toy_gcm toy_laws toy_text toy_text_laws toy_hkdf
      toy_hkdf_laws (replicate 32 4) (1 ∷ 2 ∷ 3 ∷ []) (replicate 12 6) refl (omega arith) refl
