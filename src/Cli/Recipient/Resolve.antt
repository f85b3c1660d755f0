-- ===== src/Cli/Recipient/Resolve.antt =====
-- The one entry point for the keys of another party: `verified_wrap_keys` of
-- cli/src/recipient_verify.rs and the two paths it chooses from.
use Prim.Native.String.{String}
use signet_drive.Base.{ℕ, ◌-◌, Bytes, Bool, true, false, not, ◌||◌, length, drop, leb, ◌&&◌}
use signet_drive.Base.{Option, none, some, bytes_eq, if◌then◌else◌}
use signet_drive.Base.Results.{Result, ok, err, ◌>>=◌, ◌>>◌, ok_or, refuse_if, map_err}
use signet_drive.Crypto.Hybrid.{hybrid_rfp}
use signet_drive.Cli.{CliError, invalid_data, transparency_violation, str_at}
use signet_drive.Cli.{attestation_expired, attestation_revoked}
use signet_drive.Cli.Anchors.Index.{named_epoch, check_epoch}
use signet_drive.Cli.Recipient.{Host, RecipientWrapKeys, verify_recipient_wrap_keys}
use signet_drive.Cli.Recipient.Words.{word_kem, word_kem_pq, word_active, word_revoked}
use signet_drive.Cli.Recipient.Words.{word_expired, word_prsn, suffix_ai}
use signet_drive.Cli.Recipient.Receipt.{AccountBinding, by_account_id, by_index}
use signet_drive.Cli.Recipient.Receipt.{eq_ignore_ascii_case, verify_one_receipt}
use signet_drive.Cli.Recipient.Trust.{ServerTrust, Request, verification, log_receipt}
use signet_drive.Cli.Recipient.Trust.{server_info_receipt, active_pq_key, index_for, key_by_id}
use signet_drive.Cli.Recipient.Trust.{verify_verification_response}

pub data HandleExpectation : Type 0 where
  user_named : Bytes → HandleExpectation
  server_listed : HandleExpectation

-- `handle.ends_with("-ai")`.
abbrev pub is_prsn_handle : Bytes → Bool
is_prsn_handle handle =
    leb 3 (length handle) && bytes_eq (drop (length handle - 3) handle) suffix_ai

abbrev pub check_named : HandleExpectation → Bytes → Result CliError (Unit {0})
check_named server_listed handle = ok tt
check_named (user_named expected) handle =
    refuse_if (not (bytes_eq handle expected))
      (transparency_violation "asked the directory for '{}' but the bundle answers for '{}'")

-- `(claimed == "prsn") != is_prsn`, where the server claims an account type.
abbrev pub same_bool : Bool → Bool → Bool
same_bool true b = b
same_bool false b = not b

abbrev pub check_claimed : Option Bytes → Bool → Result CliError (Unit {0})
check_claimed none is_prsn = ok tt
check_claimed (some claimed) is_prsn =
    refuse_if (not (same_bool (bytes_eq claimed word_prsn) is_prsn))
      (transparency_violation "the server calls '{}' a {}, but the handle says otherwise")

abbrev pub check_status : Option Bytes → Result CliError (Unit {0})
check_status none = err (invalid_data "attestation has unknown status")
check_status (some status) =
    if bytes_eq status word_active
    then ok tt
    else if bytes_eq status word_revoked
    then err (attestation_revoked "attestation is revoked")
    else if bytes_eq status word_expired
    then err (attestation_expired "attestation is expired")
    else err (invalid_data "attestation has unknown status")

-- `bundle_keys.rk_pq.as_deref() != Some(att_kem_pq)`, negated.
abbrev pub same_pq : Option Bytes → Bytes → Bool
same_pq none key = false
same_pq (some rk_pq) key = bytes_eq rk_pq key

module _ {J : Type 0} (host : Host J) where
  -- The id and proof under one prefix, or under the other.
  abbrev pub account_under : J → Option Bytes → Option Bytes → Option (Bytes × Option Bytes)
  account_under bundle (some id) other = some (id, str_at host.reader bundle "account_vrf_proof")
  account_under bundle none (some id) =
      some (id, str_at host.reader bundle "recipient_account_vrf_proof")
  account_under bundle none none = none

  abbrev pub account_of : J → Option (Bytes × Option Bytes)
  account_of bundle =
      account_under bundle (str_at host.reader bundle "account_id")
        (str_at host.reader bundle "recipient_account_id")

  unfoldable pub check_bundle_epoch : J → ℕ → Result CliError (Unit {0})
  check_bundle_epoch bundle epoch =
      check_epoch (named_epoch host.reader (host.reader.get bundle "epoch")) epoch
        "the recipient bundle names epoch {}, but the anchored epoch is {}"

  unfoldable pub decode_b64 : J → String → Result CliError Bytes
  decode_b64 obj field =
      ok_or (str_at host.reader obj field) (invalid_data "missing {}") >>= λ text.
      ok_or (host.decode64 text) (invalid_data "{} base64url")

  abbrev pub check_rfp : Option Bytes → Bytes → Result CliError (Unit {0})
  check_rfp none rfp = err (transparency_violation "hybrid attestation carries no rfp")
  check_rfp (some committed) rfp =
      refuse_if (not (bytes_eq committed rfp))
        (transparency_violation "recomputed rfp does not match the attestation's pair-commitment")

  -- What the attestation must say: of the account, of the handle, and of the keys.
  unfoldable pub check_subject : J → Bytes → Bytes → Result CliError (Unit {0})
  check_subject attestation account_id handle =
      check_status (str_at host.reader attestation "status")
      >> (ok_or (str_at host.reader attestation "subject_account_id")
            (invalid_data "attestation missing subject_account_id")
          >>= λ subject_account.
              refuse_if (not (eq_ignore_ascii_case subject_account account_id))
                (transparency_violation "attestation subject is a DIFFERENT account")
              >> (ok_or (str_at host.reader attestation "subject_handle")
                    (transparency_violation "attestation carries no subject_handle")
                  >>= λ subject_handle.
                      refuse_if (not (bytes_eq subject_handle handle))
                        (transparency_violation "attestation subject handle does not match")))

  unfoldable pub check_attested_keys : J → RecipientWrapKeys → Result CliError (Unit {0})
  check_attested_keys attestation bundle_keys =
      decode_b64 attestation "subject_kem_pubkey" >>= λ att_kem.
      ok_or (str_at host.reader attestation "subject_kem_pq_pubkey")
        (transparency_violation "attestation carries no ML-KEM key")
      >>= λ b64.
          ok_or (host.decode64 b64) (invalid_data "attested ML-KEM key base64url") >>= λ att_kem_pq.
          map_err (λ e. invalid_data "attested KEM keys non-canonical")
            (hybrid_rfp host.sha256 host.hex host.curve att_kem att_kem_pq)
          >>= λ rfp.
              check_rfp (str_at host.reader attestation "rfp") rfp
              >> refuse_if
                  (not (bytes_eq (bundle_keys.rk_ec) att_kem)
                    || not (same_pq (bundle_keys.rk_pq) att_kem_pq))
                  (transparency_violation "directory bundle keys differ from the attested keys")

  module _ (get_json : Request → Result CliError J) (trust : ServerTrust J) where
    unfoldable pub verify_against_attestation :
        J → RecipientWrapKeys → Bytes → Bytes → Result CliError (Unit {0})
    verify_against_attestation bundle bundle_keys account_id handle =
        ok_or (str_at host.reader bundle "attestation_id")
          (transparency_violation "is a PRSN but its bundle names no attestation")
        >>= λ attestation_id. get_json (verification attestation_id) >>= λ response.
            verify_verification_response host get_json trust response >>= λ attestation.
            check_subject attestation account_id handle
            >> check_attested_keys attestation bundle_keys

    -- The binding that the receipts of a human must have.
    abbrev pub receipt_binding : Bytes → Option (ℕ × Bytes) → AccountBinding
    receipt_binding account_id none = by_account_id account_id
    receipt_binding account_id (some (epoch, index)) = by_index epoch index

    -- One turn of the loop over the two halves.
    unfoldable pub verify_half : AccountBinding → Bytes → Bytes → Bytes → Result CliError (Unit {0})
    verify_half binding pq_vk fp purpose =
        map_err
          (λ e. if e.epoch_moved then e else transparency_violation "no verifiable {} log receipt")
          (get_json (log_receipt fp purpose (trust.epoch)))
        >>= λ receipt.
            ok_or (str_at host.reader receipt "server_key_id")
              (transparency_violation "receipt missing server_key_id")
            >>= λ key_id.
                key_by_id host get_json trust (server_info_receipt purpose key_id) key_id
                >>= λ server_pub.
                    verify_one_receipt host receipt fp binding purpose server_pub (some pq_vk)

    unfoldable pub verify_against_receipts : J → Bytes → Option Bytes → Result CliError (Unit {0})
    verify_against_receipts bundle account_id proof =
        index_for host trust account_id proof >>= λ index.
        ok_or (str_at host.reader bundle "kem_pubkey_fingerprint")
          (invalid_data "bundle missing KEM fingerprint")
        >>= λ fp_ec.
            ok_or (str_at host.reader bundle "kem_pq_pubkey_fingerprint")
              (invalid_data "bundle missing ML-KEM fingerprint")
            >>= λ fp_pq. active_pq_key host trust >>= λ pq_vk.
                verify_half (receipt_binding account_id index) pq_vk fp_ec word_kem
                >> verify_half (receipt_binding account_id index) pq_vk fp_pq word_kem_pq

    abbrev pub verify_source :
        Bool → J → RecipientWrapKeys → Bytes → Option Bytes → Bytes → Result CliError (Unit {0})
    verify_source true bundle keys account_id proof handle =
        verify_against_attestation bundle keys account_id handle
    verify_source false bundle keys account_id proof handle =
        verify_against_receipts bundle account_id proof

    unfoldable pub verified_wrap_keys : J → HandleExpectation → Result CliError RecipientWrapKeys
    verified_wrap_keys bundle expectation =
        ok_or (str_at host.reader bundle "handle")
          (transparency_violation "recipient bundle carries no handle")
        >>= λ handle.
            check_named expectation handle
            >> (verify_recipient_wrap_keys host bundle >>= λ keys.
                check_claimed (str_at host.reader bundle "account_type") (is_prsn_handle handle)
                >> (ok_or (account_of bundle)
                      (transparency_violation "recipient bundle carries no account id")
                    >>= λ account.
                        check_bundle_epoch bundle (trust.epoch)
                        >> (verify_source (is_prsn_handle handle) bundle keys (account.0)
                              (account.1) handle
                            >> ok keys)))
