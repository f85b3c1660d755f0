-- ===== src/Crypto/Hybrid/Runs.antt =====
-- The hybrid wrap under the stand-ins.
use signet_drive.Base.{◌≡◌, refl, ◌⊎◌, Bytes, replicate, ◌++◌}
use signet_drive.Base.Results.{ok}
use signet_drive.Crypto.Wrap.Folder.{TwoKeys}
use signet_drive.Crypto.Wrap.Toy.{toy_sha256, toy_text, toy_text_laws, toy_curve, toy_curve_laws}
use signet_drive.Crypto.Wrap.Toy.{toy_kw, toy_kw_laws, toy_hkdf, toy_hkdf_laws}
use signet_drive.Crypto.Hybrid.{HybridWrapEnvelope, validate_recipient_keys, validate_party_v}
use signet_drive.Crypto.Hybrid.{
  wrap_from_secrets, unwrap_with_shared_secrets, hybrid_rfp, push_field,
}
use signet_drive.Crypto.Hybrid.Info.{hybrid_rfp_binds}
use signet_drive.Crypto.Hybrid.Opening.{KdfCollision, unwrap_with_shared_secrets_binding}
use signet_drive.Crypto.Hybrid.Opening.{unwrap_with_shared_secrets-wrap_from_secrets}
use signet_drive.Merkle.Inclusion.{Collision}

abbrev hex : Bytes → Bytes
hex bytes = bytes

abbrev rk_ec : Bytes
rk_ec = toy_curve.public_key (replicate 32 9)

abbrev rk_pq : Bytes
rk_pq = replicate 1568 1

abbrev ek : Bytes
ek = replicate 1568 2

abbrev epk : Bytes
epk = toy_curve.public_key (replicate 32 3)

abbrev dek : Bytes
dek = replicate 32 7

abbrev folder : Bytes
folder = replicate 16 5

abbrev secret : Bytes
secret = replicate 32 8

valid : validate_recipient_keys toy_curve rk_ec rk_pq ≡ ok tt
unfolding validate_recipient_keys
valid = refl

context : validate_party_v folder ≡ ok tt
unfolding validate_party_v
context = refl

abbrev wrapped :
    (envelope : HybridWrapEnvelope) × (wrap_from_secrets toy_sha256 hex toy_hkdf toy_text toy_curve
        toy_kw secret secret epk ek rk_ec rk_pq dek folder
      ≡ ok envelope)
    × (unwrap_with_shared_secrets toy_sha256 hex toy_hkdf toy_text toy_curve toy_kw secret secret
          envelope rk_ec rk_pq folder
        ≡ ok dek)
wrapped =
    unwrap_with_shared_secrets-wrap_from_secrets toy_sha256 hex toy_hkdf toy_text toy_text_laws
      toy_curve toy_curve_laws toy_kw toy_kw_laws toy_hkdf_laws secret secret epk ek rk_ec rk_pq dek
      folder valid context refl refl refl

unwrap_with_shared_secrets-wrap_from_secrets_example :
    (envelope : HybridWrapEnvelope) × (wrap_from_secrets toy_sha256 hex toy_hkdf toy_text toy_curve
        toy_kw secret secret epk ek rk_ec rk_pq dek folder
      ≡ ok envelope)
    × (unwrap_with_shared_secrets toy_sha256 hex toy_hkdf toy_text toy_curve toy_kw secret secret
          envelope rk_ec rk_pq folder
        ≡ ok dek)
unwrap_with_shared_secrets-wrap_from_secrets_example =
    unwrap_with_shared_secrets-wrap_from_secrets toy_sha256 hex toy_hkdf toy_text toy_text_laws
      toy_curve toy_curve_laws toy_kw toy_kw_laws toy_hkdf_laws secret secret epk ek rk_ec rk_pq dek
      folder valid context refl refl refl

unwrap_with_shared_secrets_binding_example :
    ((rk_ec ≡ rk_ec) × (rk_pq ≡ rk_pq) × (folder ≡ folder) × (dek ≡ dek))
    ⊎ KdfCollision toy_hkdf
    ⊎ TwoKeys toy_kw
unwrap_with_shared_secrets_binding_example =
    unwrap_with_shared_secrets_binding toy_sha256 hex toy_hkdf toy_text toy_text_laws toy_curve
      toy_curve_laws toy_kw toy_kw_laws secret secret epk ek rk_ec rk_pq dek folder secret secret
      rk_ec rk_pq folder (wrapped.1) (wrapped.2)

abbrev rfp : Bytes
rfp = toy_sha256 (push_field rk_ec ++ push_field rk_pq)

rfp_made : hybrid_rfp toy_sha256 hex toy_curve rk_ec rk_pq ≡ ok rfp
unfolding hybrid_rfp validate_recipient_keys
rfp_made = refl

hybrid_rfp_binds_example : ((rk_ec ≡ rk_ec) × (rk_pq ≡ rk_pq)) ⊎ Collision toy_sha256
hybrid_rfp_binds_example =
    hybrid_rfp_binds toy_sha256 hex (λ a b e. e) toy_curve rk_ec rk_pq rk_ec rk_pq rfp_made rfp_made
