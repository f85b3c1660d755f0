-- ===== src/Cli/Recipient.antt =====
-- The keys of a recipient that a writer wraps to: cli/src/recipient_verify.rs, with what it uses of
-- cli/src/commands.rs. Here are the parameters and the shape of a directory bundle.
--
-- `Host` holds the crates: base64, the canonical JSON of Crypto/Jcs, ML-DSA-87
-- and P-256. The build is without the `classical-write` feature.
mod Words
pub mod Receipt
pub mod Trust
pub mod Resolve
pub mod Bundle
pub mod Keys
pub mod Signatures
pub mod Binds
pub mod Receipts
pub mod Verified
pub mod Source
pub mod Logged
pub mod Accepted
mod Runs
use Prim.Native.String.{String}
use signet_drive.Base.Ints.{ℤ}
use signet_drive.Base.{ℕ, Bytes, Bool, not, ◌==◌, [], ◌∷◌, length, Option, none, some, bytes_eq}
use signet_drive.Base.Results.{Result, ok, err, ◌>>=◌, ◌>>◌, ok_or, refuse_if, map_err}
use signet_drive.Crypto.{CryptoError}
use signet_drive.Crypto.Token.{P256}
use signet_drive.Crypto.Wrap.{Curve, fingerprint, fingerprint_raw}
use signet_drive.Crypto.Hybrid.{mlkem1024_ek_len}
use signet_drive.Cli.{CliError, invalid_data, transparency_violation, Reader, str_at}
use signet_drive.Cli.Anchors.Index.{Vrf, Ids}

-- The ml-dsa crate: `EncodedVerifyingKey::try_from`, `EncodedSignature::try_from` with
-- `Signature::decode`, and `verify_with_context` on key, message, context and signature.
pub record MlDsa : Type 0 where
  pub key_from_slice : Bytes → Option Bytes
  pub signature_from_slice : Bytes → Option Bytes
  pub signature_decode : Bytes → Option Bytes
  pub verify_with_context : Bytes → Bytes → Bytes → Bytes → Bool

pub record Host (J : Type 0) : Type 0 where
  pub reader : Reader J
  -- `obj.remove(field)` on a copy; `none` where the value is no object
  pub remove : J → String → Option J
  pub decode64 : Bytes → Option Bytes
  pub to_canonical_bytes : J → Result CryptoError Bytes
  pub i64_to_string : ℤ → Bytes
  pub sha256 : Bytes → Bytes
  pub hex : Bytes → Bytes
  pub curve : Curve
  pub p256 : P256
  pub mldsa : MlDsa
  pub vrf : Vrf
  pub ids : Ids

pub record RecipientWrapKeys : Type 0 where
  pub rk_ec : Bytes
  pub rk_pq : Option Bytes

module _ {J : Type 0} (host : Host J) where
  unfoldable pub verify_recipient_kem_pub : J → Result CliError Bytes
  verify_recipient_kem_pub bundle =
      ok_or (str_at host.reader bundle "kem_pubkey") (invalid_data "has no KEM public key")
      >>= λ kem_b64.
          ok_or (str_at host.reader bundle "kem_pubkey_fingerprint")
            (invalid_data "KEM key has no fingerprint")
          >>= λ stated_fp.
              ok_or (host.decode64 kem_b64) (invalid_data "KEM pubkey is not base64url")
              >>= λ pubkey.
                  map_err (λ e. invalid_data "KEM pubkey is not a valid P-256 point")
                    (fingerprint host.curve host.sha256 host.hex pubkey)
                  >>= λ computed.
                      refuse_if (not (bytes_eq computed stated_fp))
                        (transparency_violation "KEM-key fingerprint mismatch")
                      >> ok pubkey

  -- The match on the ML-KEM key and its fingerprint.
  abbrev pub verify_pq_pair : Option Bytes → Option Bytes → Result CliError (Option Bytes)
  verify_pq_pair none none = err (transparency_violation "has no published ML-KEM key")
  verify_pq_pair (some k) (some fp) =
      ok_or (host.decode64 k) (invalid_data "ML-KEM pubkey is not base64url") >>= λ ek.
      refuse_if (not (length ek == mlkem1024_ek_len))
        (invalid_data "ML-KEM pubkey must be 1568 bytes")
      >> (refuse_if (not (bytes_eq (fingerprint_raw host.sha256 host.hex ek) fp))
            (transparency_violation "ML-KEM-key fingerprint mismatch")
          >> ok (some ek))
  verify_pq_pair none (some fp) = err (transparency_violation "hybrid KEM bundle is half-stripped")
  verify_pq_pair (some k) none = err (transparency_violation "hybrid KEM bundle is half-stripped")

  unfoldable pub verify_recipient_wrap_keys : J → Result CliError RecipientWrapKeys
  verify_recipient_wrap_keys bundle = verify_recipient_kem_pub bundle >>= λ rk_ec.
      verify_pq_pair (str_at host.reader bundle "kem_pq_pubkey")
        (str_at host.reader bundle "kem_pq_pubkey_fingerprint")
      >>= λ rk_pq. ok (record { rk_ec = rk_ec; rk_pq = rk_pq })
