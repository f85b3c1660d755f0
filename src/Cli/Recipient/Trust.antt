-- ===== src/Cli/Recipient/Trust.antt =====
-- The server's keys and its signed attestation response: cli/src/recipient_verify.rs, with the signing
-- input of crypto/src/attest.rs.
--
-- A request's answer is a parameter. The requests of a command are told apart by where they are made,
-- so that the same request may be answered differently each time.
use Prim.Native.String.{String}
use signet_drive.Base.{ℕ, Bytes, [], ◌∷◌, ◌++◌, List, Option, none, some}
use signet_drive.Base.{if◌then◌else◌}
use signet_drive.Base.Ints.{ℤ}
use signet_drive.Base.Results.{Result, ok, err, ◌>>=◌, ◌>>◌, ok_or, map_err}
use signet_drive.Crypto.{CryptoError}
use signet_drive.Crypto.Token.{verify_es256}
use signet_drive.Cli.{CliError, invalid_data, transparency_violation, signature_refused, str_at}
use signet_drive.Cli.{and_then}
use signet_drive.Cli.Anchors.{LogMode}
use signet_drive.Cli.Anchors.Index.{index_under}
use signet_drive.Cli.Recipient.{Host}
use signet_drive.Cli.Recipient.Words.{attestation_verification_pq, verify_prefix}
use signet_drive.Cli.Recipient.Words.{server_verify_mldsa_ctx}
use signet_drive.Cli.Recipient.Receipt.{AccountBinding, attested, by_index, is_str, verify_mldsa87}
use signet_drive.Cli.Recipient.Receipt.{Inline, absent, verified, partial, verify_inline_receipts}

pub record ServerTrust (J : Type 0) : Type 0 where
  pub info : J
  pub mode : LogMode
  pub epoch : ℕ

pub data Request : Type 0 where
  -- `/v1/server-info`, where `key_by_id` reads it again for a key id
  server_info : Bytes → Request
  -- the same, for the key of the ML-DSA-87 half
  server_info_pq : Bytes → Request
  -- the same, for the signer of a receipt of a purpose
  server_info_receipt : Bytes → Bytes → Request
  -- `/v1/attestations/{}/verification`
  verification : Bytes → Request
  -- `/v1/transparency/log/receipt`, of a fingerprint and a purpose at an epoch
  log_receipt : Bytes → Bytes → ℕ → Request

module _ {J : Type 0} (host : Host J) where
  abbrev pub public_key_of : J → Result CliError Bytes
  public_key_of entry =
      ok_or (str_at host.reader entry "public_key")
        (invalid_data "server-info key missing public_key")
      >>= λ pk_b64. ok_or (host.decode64 pk_b64) (invalid_data "server-info public_key base64url")

  -- `for key in keys` of `find_key_by_id`, with what follows the loop.
  abbrev pub find_in_keys :
      Bytes → List J → Result CliError (Option Bytes) → Result CliError (Option Bytes)
  find_in_keys key_id [] after = after
  find_in_keys key_id (entry ∷ rest) after =
      let more = find_in_keys key_id rest after in
      if is_str (str_at host.reader entry "key_id") key_id
      then (public_key_of entry >>= λ vk. ok (some vk))
      else more

  -- One field of `["current_signing_keys", "retired_signing_keys"]`.
  abbrev pub find_in_field :
      Bytes → Option (List J) → Result CliError (Option Bytes) → Result CliError (Option Bytes)
  find_in_field key_id none after = after
  find_in_field key_id (some keys) after = find_in_keys key_id keys after

  unfoldable pub find_key_by_id : J → Bytes → Result CliError (Option Bytes)
  find_key_by_id info key_id =
      let field : String → Option (List J) =
        λ name. and_then (host.reader.get info name) host.reader.as_array in
      find_in_field key_id (field "current_signing_keys")
        (find_in_field key_id (field "retired_signing_keys") (ok none))

  -- `for key in keys` of `active_pq_key`.
  abbrev pub first_pq_key : List J → Result CliError Bytes
  first_pq_key [] =
      err (transparency_violation "server publishes no active ML-DSA-87 verification key")
  first_pq_key (entry ∷ rest) =
      let more = first_pq_key rest in
      if is_str (str_at host.reader entry "purpose") attestation_verification_pq
      then public_key_of entry
      else more

  unfoldable pub active_pq_key : ServerTrust J → Result CliError Bytes
  active_pq_key trust =
      ok_or (and_then (host.reader.get (trust.info) "current_signing_keys") host.reader.as_array)
        (invalid_data "server-info missing current_signing_keys")
      >>= first_pq_key

  unfoldable pub index_for :
      ServerTrust J → Bytes → Option Bytes → Result CliError (Option (ℕ × Bytes))
  index_for trust account_id proof = index_under host.vrf host.ids (trust.mode) account_id proof

  -- crypto/src/attest.rs `verification_signing_input`.
  unfoldable pub verification_signing_input : J → Bytes → ℤ → Result CryptoError Bytes
  verification_signing_input attestation server_key_id signed_at =
      host.to_canonical_bytes attestation >>= λ canonical. ok (
        verify_prefix
        ++ (canonical ++ (10 ∷ (server_key_id ++ (10 ∷ host.i64_to_string signed_at)))))

  module _ (get_json : Request → Result CliError J) where
    abbrev pub or_fresh : Request → Bytes → Option Bytes → Result CliError Bytes
    or_fresh request key_id (some vk) = ok vk
    or_fresh request key_id none = get_json request >>= λ fresh.
        find_key_by_id fresh key_id >>= λ found.
        ok_or found (transparency_violation "server-info has no signing key with id {}")

    -- `key_by_id`, with the request that it makes on a miss.
    unfoldable pub key_by_id : ServerTrust J → Request → Bytes → Result CliError Bytes
    key_by_id trust request key_id = find_key_by_id (trust.info) key_id >>= or_fresh request key_id

    abbrev pub pq_key_for : ServerTrust J → Option Bytes → Result CliError Bytes
    pq_key_for trust none = active_pq_key trust
    pq_key_for trust (some pq_kid) = key_by_id trust (server_info_pq pq_kid) pq_kid

    -- The binding of the inline receipts.
    abbrev pub binding_of : Option (ℕ × Bytes) → AccountBinding
    binding_of none = attested
    binding_of (some (epoch, index)) = by_index epoch index

    abbrev pub require_verified : Inline → J → Result CliError J
    require_verified verified attestation = ok attestation
    require_verified absent attestation =
        err (transparency_violation "the write path requires the full receipt set")
    require_verified partial attestation =
        err (transparency_violation "the write path requires the full receipt set")

    -- Both signatures over the canonical bytes, and the two keys they verify under.
    unfoldable pub verify_dual :
        ServerTrust J → J → J → Bytes → ℤ → Bytes → Result CliError (Bytes × Bytes)
    verify_dual trust response attestation server_key_id signed_at signature =
        map_err (λ e. invalid_data "verification canonical bytes")
          (verification_signing_input attestation server_key_id signed_at)
        >>= λ signing_input.
            key_by_id trust (server_info server_key_id) server_key_id >>= λ server_pub.
            map_err (λ e. signature_refused "server signature does not verify")
              (verify_es256 host.p256 server_pub signing_input signature)
            >> (pq_key_for trust (str_at host.reader response "server_pq_key_id") >>= λ pq_vk.
                ok_or (str_at host.reader response "server_signature_mldsa87")
                  (signature_refused "ES256-only verification response rejected")
                >>= λ pq_sig_b64.
                    ok_or (host.decode64 pq_sig_b64)
                      (invalid_data "server_signature_mldsa87 base64url")
                    >>= λ pq_sig.
                        verify_mldsa87 host pq_vk signing_input server_verify_mldsa_ctx pq_sig
                        >> ok (server_pub, pq_vk))

    -- The receipts that the response carries.
    unfoldable pub verify_receipt_set : ServerTrust J → J → J → Bytes → Bytes → Result CliError J
    verify_receipt_set trust response attestation server_pub pq_vk =
        ok_or (str_at host.reader attestation "subject_account_id")
          (invalid_data "attestation missing subject_account_id")
        >>= λ subject_account.
            index_for trust subject_account
              (str_at host.reader attestation "subject_account_vrf_proof")
            >>= λ index.
                verify_inline_receipts host response attestation server_pub (some pq_vk)
                  (binding_of index) (some (trust.epoch))
                >>= λ transparency. require_verified transparency attestation

    unfoldable pub verify_verification_response : ServerTrust J → J → Result CliError J
    verify_verification_response trust response =
        ok_or (str_at host.reader response "server_key_id")
          (invalid_data "response missing server_key_id")
        >>= λ server_key_id.
            ok_or (and_then (host.reader.get response "signed_at") host.reader.as_i64)
              (invalid_data "response missing signed_at")
            >>= λ signed_at.
                ok_or (host.reader.get response "attestation")
                  (invalid_data "response missing attestation")
                >>= λ attestation.
                    ok_or (str_at host.reader response "server_signature")
                      (invalid_data "response missing server_signature")
                    >>= λ signature_b64.
                        ok_or (host.decode64 signature_b64)
                          (invalid_data "server_signature base64url")
                        >>= λ signature.
                            verify_dual trust response attestation server_key_id signed_at signature
                            >>= λ keys.
                                verify_receipt_set trust response attestation (keys.0) (keys.1)
