-- ===== src/Crypto/Wrap/Runs.antt =====
-- Key wrapping under the stand-ins.
use signet_drive.Base.{◌≡◌, refl, ◌⊎◌, arith, Bytes, [], ◌∷◌, replicate}
use signet_drive.Base.Results.{ok}
use signet_drive.Crypto.Kdf.{concat_kdf_sha256}
use signet_drive.Crypto.Kdf.Output.{blocks, concat_kdf_sha256-blocks}
use signet_drive.Crypto.Wrap.{WrapEnvelope, wrap_to, finish_unwrap}
use signet_drive.Crypto.Wrap.{wrap_metadata_key}
use signet_drive.Crypto.Wrap.{unwrap_metadata_key, unwrap_metadata_key_with_shared_secret}
use signet_drive.Crypto.Wrap.Folder.{TwoKeys, finish_unwrap_binding}
use signet_drive.Crypto.Wrap.RoundTrip.{unwrap_with-wrap_to}
use signet_drive.Crypto.Wrap.RoundTrip.{unwrap_metadata_key-wrap_metadata_key}
use signet_drive.Crypto.Wrap.Toy.{toy_sha256, toy_digest_length, toy_text, toy_text_laws, toy_curve}
use signet_drive.Crypto.Wrap.Toy.{toy_curve_laws, toy_agree_length, toy_kw, toy_kw_laws}
use signet_drive.Base.{take}
use signet_drive.Merkle.Inclusion.{Collision}

abbrev hex : Bytes → Bytes
hex bytes = bytes

abbrev eph : Bytes
eph = replicate 32 3

abbrev scalar : Bytes
scalar = replicate 32 9

abbrev dek : Bytes
dek = replicate 32 7

abbrev folder : Bytes
folder = replicate 16 5

concat_kdf_sha256-blocks_example :
    concat_kdf_sha256 toy_sha256 (1 ∷ 2 ∷ []) (3 ∷ []) 33
    ≡ take 33 (blocks toy_sha256 2 1 (1 ∷ 2 ∷ []) (3 ∷ []))
concat_kdf_sha256-blocks_example =
    concat_kdf_sha256-blocks toy_sha256 toy_digest_length (1 ∷ 2 ∷ []) (3 ∷ []) 33 (omega arith)

unwrap_metadata_key-wrap_metadata_key_example :
    (envelope : WrapEnvelope) × (wrap_metadata_key toy_sha256 hex toy_text toy_curve toy_kw eph
        (toy_curve.public_key scalar)
        dek
        folder
      ≡ ok envelope)
    × (unwrap_metadata_key toy_sha256 hex toy_text toy_curve toy_kw scalar envelope folder ≡ ok dek)
    × (unwrap_metadata_key_with_shared_secret toy_sha256 hex toy_text toy_curve toy_kw
          (toy_curve.agree scalar (toy_curve.public_key eph))
          envelope
          folder
        ≡ ok dek)
unwrap_metadata_key-wrap_metadata_key_example =
    unwrap_metadata_key-wrap_metadata_key toy_sha256 hex toy_text toy_text_laws toy_curve
      toy_curve_laws toy_kw toy_kw_laws eph scalar dek folder refl refl refl

-- A wrap for the folder, with the secret that it was made under.
abbrev wrapped :
    (envelope : WrapEnvelope) × (wrap_to toy_sha256 hex toy_text toy_curve toy_kw eph
        (toy_curve.public_key scalar)
        dek
        folder
      ≡ ok envelope)
    × (finish_unwrap toy_sha256 hex toy_text toy_curve toy_kw (replicate 32 12) envelope folder
        ≡ ok dek)
wrapped =
    let (envelope, made, read, finished) =
      unwrap_with-wrap_to toy_sha256 hex toy_text toy_text_laws toy_curve toy_curve_laws toy_kw
        toy_kw_laws eph scalar dek folder refl refl refl in
    (envelope, made, finished)

finish_unwrap_binding_example :
    ((folder ≡ folder) × (dek ≡ dek)) ⊎ Collision toy_sha256 ⊎ TwoKeys toy_kw
finish_unwrap_binding_example =
    finish_unwrap_binding toy_sha256 toy_digest_length hex toy_text toy_text_laws toy_curve
      toy_agree_length toy_kw toy_kw_laws eph (toy_curve.public_key scalar) dek folder
      (replicate 32 12) folder refl (omega arith) (omega arith) (wrapped.1) (wrapped.2)
