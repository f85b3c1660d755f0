-- ===== src/Cli/Recipient/Receipt.antt =====
-- The receipts of the transparency log as the client checks them: cli/src/commands.rs.
use Prim.Native.String.{String}
use signet_drive.Base.{ℕ, suc, Bytes, Bool, true, false, not, ◌||◌, ◌==◌}
use signet_drive.Base.{map, Option, none, some, bytes_eq, leb, ◌&&◌, ◌+◌}
use signet_drive.Base.{if◌then◌else◌}
use signet_drive.Base.Results.{Result, ok, ◌>>=◌, ◌>>◌, ok_or, refuse_if, map_err}
use signet_drive.Crypto.Token.{verify_es256}
use signet_drive.Crypto.Translog.{receipt_signing_input}
use signet_drive.Cli.{
  CliError, invalid_data, transparency_violation, signature_refused, str_at, u64_at,
}
use signet_drive.Cli.{and_then}
use signet_drive.Cli.Anchors.Index.{check_receipt_epoch}
use signet_drive.Cli.Recipient.{Host}
use signet_drive.Cli.Recipient.Words.{word_kem, word_kem_pq, word_signing, word_signing_pq}
use signet_drive.Cli.Recipient.Words.{receipt_mldsa_ctx}

pub data AccountBinding : Type 0 where
  attested : AccountBinding
  by_account_id : Bytes → AccountBinding
  by_index : ℕ → Bytes → AccountBinding

-- The three results of `verify_inline_receipts`: "absent", "verified" and "partial".
pub data Inline : Type 0 where
  absent : Inline
  verified : Inline
  partial : Inline

-- `u8::to_ascii_lowercase`, and `str::eq_ignore_ascii_case`.
abbrev pub lowercase : ℕ → ℕ
lowercase b = if leb 65 b && leb b 90 then b + 32 else b

abbrev pub eq_ignore_ascii_case : Bytes → Bytes → Bool
eq_ignore_ascii_case a b = bytes_eq (map lowercase a) (map lowercase b)

-- `o == Some(v)` for strings and for numbers.
abbrev pub is_str : Option Bytes → Bytes → Bool
is_str none v = false
is_str (some s) v = bytes_eq s v

abbrev pub is_num : Option ℕ → ℕ → Bool
is_num none v = false
is_num (some n) v = n == v

abbrev pub present : {A : Type 0} → Option A → Bool
present none = false
present (some a) = true

module _ {J : Type 0} (host : Host J) where
  unfoldable pub verify_mldsa87 : Bytes → Bytes → Bytes → Bytes → Result CliError (Unit {0})
  verify_mldsa87 vk_bytes msg ctx sig =
      ok_or (host.mldsa.key_from_slice vk_bytes) (invalid_data "server ML-DSA-87 key size")
      >>= λ vk.
          ok_or (host.mldsa.signature_from_slice sig) (signature_refused "ML-DSA-87 signature size")
          >>= λ sig_arr.
              ok_or (host.mldsa.signature_decode sig_arr)
                (signature_refused "malformed ML-DSA-87 signature")
              >>= λ decoded.
                  refuse_if (not (host.mldsa.verify_with_context vk msg ctx decoded))
                    (signature_refused "ML-DSA-87 signature does not verify")

  unfoldable pub check_receipt_index : J → ℕ → Bytes → Result CliError (Unit {0})
  check_receipt_index receipt epoch own_index =
      refuse_if
        (not (is_num (u64_at host.reader receipt "v") 2)
          || (not (is_num (u64_at host.reader receipt "entry_version") 3)
              || present (host.reader.get receipt "account_id")))
        (transparency_violation "is not the epoch-{} receipt shape")
      >> (refuse_if (not (is_num (u64_at host.reader receipt "epoch") epoch))
            (transparency_violation "does not name epoch {}, the anchored one")
          >> (ok_or (and_then (str_at host.reader receipt "account_index") host.ids.hex_decode)
                (transparency_violation "carries no account_index")
              >>= λ served.
                  refuse_if (not (bytes_eq served own_index))
                    (transparency_violation "binds the key to a DIFFERENT account index")))

  -- The match on the binding.
  abbrev pub check_binding : J → AccountBinding → Result CliError (Unit {0})
  check_binding receipt attested = ok tt
  check_binding receipt (by_account_id expected_account) =
      ok_or (str_at host.reader receipt "account_id")
        (transparency_violation "receipt missing account_id")
      >>= λ receipt_account.
          refuse_if (not (eq_ignore_ascii_case receipt_account expected_account))
            (transparency_violation "receipt binds the key to a DIFFERENT account")
  check_binding receipt (by_index epoch account_index) =
      check_receipt_index receipt epoch account_index

  -- The ML-DSA half, for a receipt whose signed object names a PQ key.
  abbrev pub verify_receipt_pq :
      Bool → Option Bytes → Option Bytes → Bytes → Result CliError (Unit {0})
  verify_receipt_pq false pq_sig_b64 server_pq_vk signing_input = ok tt
  verify_receipt_pq true pq_sig_b64 server_pq_vk signing_input =
      ok_or pq_sig_b64
        (transparency_violation "receipt names a server PQ key but carries no co-signature")
      >>= λ b64.
          ok_or server_pq_vk
            (transparency_violation "a dual-signed receipt cannot be verified without the key")
          >>= λ pq_vk.
              ok_or (host.decode64 b64)
                (transparency_violation "receipt server_signature_mldsa87 base64url")
              >>= λ pq_sig.
                  map_err
                    (λ e. transparency_violation "receipt ML-DSA-87 co-signature does not verify")
                    (verify_mldsa87 pq_vk signing_input receipt_mldsa_ctx pq_sig)

  -- The signature part of `verify_one_receipt`.
  unfoldable pub verify_receipt_signatures : J → Bytes → Option Bytes → Result CliError (Unit {0})
  verify_receipt_signatures receipt server_pub server_pq_vk =
      ok_or (str_at host.reader receipt "server_signature")
        (transparency_violation "receipt missing server_signature")
      >>= λ sig_b64.
          ok_or (host.decode64 sig_b64)
            (transparency_violation "receipt server_signature base64url")
          >>= λ sig.
              ok_or (host.remove receipt "server_signature")
                (invalid_data "receipt is not a JSON object")
              >>= λ unsigned_es256.
                  ok_or (host.remove unsigned_es256 "server_signature_mldsa87")
                    (invalid_data "receipt is not a JSON object")
                  >>= λ unsigned.
                      map_err (λ e. invalid_data "receipt canonical bytes")
                        (receipt_signing_input host.to_canonical_bytes unsigned)
                      >>= λ signing_input.
                          map_err (λ e. transparency_violation "receipt signature does not verify")
                            (verify_es256 host.p256 server_pub signing_input sig)
                          >> verify_receipt_pq
                              (present (host.reader.get unsigned "server_pq_key_id"))
                              (str_at host.reader unsigned_es256 "server_signature_mldsa87")
                              server_pq_vk signing_input

  unfoldable pub verify_one_receipt :
      J → Bytes → AccountBinding → Bytes → Bytes → Option Bytes → Result CliError (Unit {0})
  verify_one_receipt receipt asserted_fp binding expected_purpose server_pub server_pq_vk =
      ok_or (str_at host.reader receipt "public_key_fingerprint")
        (transparency_violation "receipt missing public_key_fingerprint")
      >>= λ receipt_fp.
          refuse_if (not (bytes_eq receipt_fp asserted_fp))
            (transparency_violation "receipt fingerprint does not match the asserted public key")
          >> (check_binding receipt binding
              >> (refuse_if
                    (not (is_str (str_at host.reader receipt "key_purpose") expected_purpose))
                    (transparency_violation "receipt has an unexpected key_purpose")
                  >> verify_receipt_signatures receipt server_pub server_pq_vk))

  -- The checks of one receipt that the response carries, in the loop of `verify_inline_receipts`.
  abbrev pub check_anchored : J → Option ℕ → Result CliError (Unit {0})
  check_anchored receipt none = ok tt
  check_anchored receipt (some epoch) = check_receipt_epoch host.reader receipt epoch

  module _ (response attestation : J) (server_pub : Bytes) (server_pq_vk : Option Bytes)
      (binding : AccountBinding) (anchored_epoch : Option ℕ) where
    abbrev pub verify_present : J → String → Bytes → Result CliError (Unit {0})
    verify_present receipt fp_field purpose =
        check_anchored receipt anchored_epoch
        >> (ok_or (str_at host.reader attestation fp_field)
              (invalid_data "attestation missing the fingerprint")
            >>= λ asserted_fp.
                verify_one_receipt receipt asserted_fp binding purpose server_pub server_pq_vk)

    -- One turn of the loop: the count of the receipts present.
    abbrev pub inline_step : Option J → String → Bytes → ℕ → Result CliError ℕ
    inline_step none fp_field purpose count = ok count
    inline_step (some receipt) fp_field purpose count =
        verify_present receipt fp_field purpose >> ok (suc count)

    unfoldable pub inline_count : Result CliError ℕ
    inline_count =
        inline_step (host.reader.get response "subject_signing_pubkey_receipt")
          "subject_signing_pubkey_fingerprint" word_signing 0
        >>= λ signing_count.
            inline_step (host.reader.get response "subject_kem_pubkey_receipt")
              "subject_kem_pubkey_fingerprint" word_kem signing_count
            >>= λ kem_count.
                inline_step (host.reader.get response "subject_signing_pq_pubkey_receipt")
                  "subject_signing_pq_pubkey_fingerprint" word_signing_pq kem_count
                >>= λ signing_pq_count.
                    inline_step (host.reader.get response "subject_kem_pq_pubkey_receipt")
                      "subject_kem_pq_pubkey_fingerprint" word_kem_pq signing_pq_count

    unfoldable pub verify_inline_receipts : Result CliError Inline
    verify_inline_receipts =
        let expected : ℕ =
          if present (host.reader.get attestation "subject_signing_pq_pubkey_fingerprint")
          then 4
          else 2 in
        inline_count >>= λ count.
        if count == 0 then ok absent else if count == expected then ok verified else ok partial
