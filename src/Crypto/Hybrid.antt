-- ===== src/Crypto/Hybrid.antt =====
-- The hybrid wrap of a key under ECDH P-256 and ML-KEM-1024: crypto/src/hybrid_wrap.rs.
--
-- The two shared secrets come from the keystore, so they are arguments, as in the source. A
-- `[u8; 32]` argument is a list whose length a theorem gives where it matters.
pub mod Info
pub mod Opening
mod Runs
use Prim.Native.String.{String}
use signet_drive.Base.{ℕ, ◌+◌, ◌-◌, ◌^◌, ◌%◌, ◌≡◌, Bytes, [], ◌∷◌, ◌++◌, length, get_elem?, true}
use signet_drive.Base.{Bool, false, not, ◌||◌, ◌==◌, if◌then◌else◌, Option, none, some}
use signet_drive.Base.Results.{Result, ok, err, ok_or, ◌>>=◌, ◌>>◌, refuse_if}
use signet_drive.Base.BigEndian.{be}
use signet_drive.Crypto.{CryptoError, invalid_input, unknown_algorithm}
use signet_drive.Crypto.Names.{Text, AlgId, as_jose, from_jose, ecdh_es_ml_kem1024_a256_kw}
use signet_drive.Crypto.Names.{a256_gcm, ecdh_es_a256_kw, es256}
use signet_drive.Crypto.Kdf.{Hkdf, hkdf_sha256}
use signet_drive.Crypto.Wrap.{Curve, KeyWrap, EpkJwk, wrap, unwrap, epk_jwk, x963_from_epk, fixed32}

abbrev pub keydatalen_bits : ℕ
keydatalen_bits = 256

abbrev pub mlkem1024_ct_len : ℕ
mlkem1024_ct_len = 1568

abbrev pub mlkem1024_ek_len : ℕ
mlkem1024_ek_len = 1568

abbrev pub hybrid_alg : AlgId
hybrid_alg = ecdh_es_ml_kem1024_a256_kw

pub record HybridWrapEnvelope : Type 0 where
  pub v : ℕ
  pub alg : Bytes
  pub epk : EpkJwk
  pub ek : Bytes
  pub wk : Bytes
  pub rfp : Bytes

-- The bytes that `push_field` appends.
unfoldable pub push_field : Bytes → Bytes
push_field field = be 4 (length field) ++ field

unfoldable pub build_fixed_info : Bytes → Bytes → Bytes → Bytes → Bytes → Bytes
unfolding push_field
build_fixed_info epk_x963 ek rk_ec_x963 rk_pq party_v =
    push_field (as_jose hybrid_alg)
    ++ (push_field epk_x963
        ++ (push_field ek
            ++ (push_field rk_ec_x963
                ++ (push_field rk_pq
                    ++ (push_field (be 4 keydatalen_bits) ++ push_field party_v)))))

-- `ikm[..32]` and `ikm[32..]` are the two secrets of 32 bytes.
unfoldable pub content_wrap_kek : Hkdf → Bytes → Bytes → Bytes → Result CryptoError Bytes
content_wrap_kek hkdf z_ecdh z_mlkem fixed_info =
    hkdf_sha256 hkdf (z_ecdh ++ z_mlkem) [] fixed_info 32 >>= λ kek.
    refuse_if (not (length kek == 32)) (invalid_input "hybrid kek length") >> ok kek

abbrev first_is_4 : Bytes → Bool
first_is_4 [] = false
first_is_4 (b ∷ rest) = b == 0x04

unfoldable pub validate_recipient_keys : Curve → Bytes → Bytes → Result CryptoError (Unit {0})
validate_recipient_keys curve rk_ec_x963 rk_pq =
    refuse_if (not (length rk_ec_x963 == 65) || not (first_is_4 rk_ec_x963))
      (invalid_input "rk_ec must be a 65-byte uncompressed x9.63 point")
    >> (ok_or (curve.from_sec1 rk_ec_x963) (invalid_input "rk_ec not on curve") >>= λ key.
        refuse_if (not (length rk_pq == mlkem1024_ek_len))
          (invalid_input "rk_pq must be a 1568-byte ml-kem-1024 encapsulation key")
        >> ok tt)

unfoldable pub validate_party_v : Bytes → Result CryptoError (Unit {0})
validate_party_v party_v =
    if length party_v == 0 || length party_v == 16
    then ok tt
    else err (invalid_input "party_v must be empty or a 16-byte root_folder_id")

unfoldable pub p256_pub : Curve → Bytes → Result CryptoError Bytes
p256_pub curve x963 = ok_or (curve.from_sec1 x963) (invalid_input "epk not on curve")

unfoldable pub is_hybrid : AlgId → Bool
is_hybrid a256_gcm = false
is_hybrid ecdh_es_a256_kw = false
is_hybrid ecdh_es_ml_kem1024_a256_kw = true
is_hybrid es256 = false

unfoldable pub hybrid_rfp :
    (Bytes → Bytes) → (Bytes → Bytes) → Curve → Bytes → Bytes → Result CryptoError Bytes
hybrid_rfp sha256 hex curve rk_ec_x963 rk_pq =
    validate_recipient_keys curve rk_ec_x963 rk_pq
    >> ok (hex (sha256 (push_field rk_ec_x963 ++ push_field rk_pq)))

module _ (sha256 hex : Bytes → Bytes) (hkdf : Hkdf) (text : Text) (curve : Curve)
    (kw : KeyWrap) where
  unfoldable pub wrap_from_secrets :
      Bytes
      → Bytes
      → Bytes
      → Bytes
      → Bytes
      → Bytes
      → Bytes
      → Bytes
      → Result CryptoError HybridWrapEnvelope
  wrap_from_secrets z_ecdh z_mlkem epk_x963 ek rk_ec_x963 rk_pq key party_v =
      validate_recipient_keys curve rk_ec_x963 rk_pq
      >> (validate_party_v party_v
          >> (refuse_if (not (length ek == mlkem1024_ct_len))
                (invalid_input "ml-kem ciphertext length")
              >> (p256_pub curve epk_x963 >>= λ pk.
                  content_wrap_kek hkdf z_ecdh z_mlkem
                    (build_fixed_info pk ek rk_ec_x963 rk_pq party_v)
                  >>= λ kek. wrap kw kek key >>= λ wk.
                      hybrid_rfp sha256 hex curve rk_ec_x963 rk_pq >>= λ rfp. ok (record {
                        v = 1;
                        alg = as_jose hybrid_alg;
                        epk = epk_jwk text pk;
                        ek = text.encode64 ek;
                        wk = text.encode64 wk;
                        rfp = rfp;
                      }))))

  unfoldable pub unwrap_with_shared_secrets :
      Bytes → Bytes → HybridWrapEnvelope → Bytes → Bytes → Bytes → Result CryptoError Bytes
  unwrap_with_shared_secrets z_ecdh z_mlkem envelope rk_ec_x963 rk_pq party_v =
      from_jose (envelope.alg) >>= λ id.
      refuse_if (not (is_hybrid id)) unknown_algorithm
      >> (validate_recipient_keys curve rk_ec_x963 rk_pq
          >> (validate_party_v party_v
              >> (x963_from_epk curve text (envelope.epk) >>= λ epk_x963.
                  ok_or (text.decode64 (envelope.ek)) (invalid_input "ek base64url") >>= λ ek.
                  refuse_if (not (length ek == mlkem1024_ct_len))
                    (invalid_input "ml-kem ciphertext length")
                  >> (content_wrap_kek hkdf z_ecdh z_mlkem
                        (build_fixed_info epk_x963 ek rk_ec_x963 rk_pq party_v)
                      >>= λ kek.
                          ok_or (text.decode64 (envelope.wk)) (invalid_input "wk base64url")
                          >>= λ wrapped. unwrap kw kek wrapped >>= fixed32))))
