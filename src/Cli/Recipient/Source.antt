-- ===== src/Cli/Recipient/Source.antt =====
-- The verified source of a PRSN's keys in cli/src/recipient_verify.rs: its attestation.
use signet_drive.Base.{◌≡◌, ap, arith, sym, ◌∙◌, Bytes, true, Option, none, some}
use signet_drive.Base.{not, bytes_eq, bytes_eq→eq}
use signet_drive.Base.Results.{Result, ok, bind_ok, then_ok, ok_or_ok}
use signet_drive.Base.Results.{ok_or, map_err, map_err_ok}
use signet_drive.Crypto.Hybrid.{hybrid_rfp}
use signet_drive.Cli.{CliError, invalid_data, transparency_violation, str_at}
use signet_drive.Cli.Recipient.{Host, RecipientWrapKeys}
use signet_drive.Cli.Recipient.Verified.{Signed, Receipted, response-Signed, active_only}
use signet_drive.Cli.Recipient.Words.{word_active}
use signet_drive.Cli.Recipient.Receipt.{eq_ignore_ascii_case}
use signet_drive.Cli.Recipient.Trust.{ServerTrust, Request, verification}
use signet_drive.Cli.Recipient.Trust.{verify_verification_response}
use signet_drive.Cli.Recipient.Resolve.{check_status, same_pq}
use signet_drive.Cli.Recipient.Resolve.{decode_b64, check_rfp}
use signet_drive.Cli.Recipient.Resolve.{check_subject, check_attested_keys}
use signet_drive.Cli.Recipient.Resolve.{verify_against_attestation}

same_pq-some : (o : Option Bytes) (key : Bytes) → same_pq o key ≡ true → o ≡ some key
same_pq-some none key e = absurd (ground arith)
same_pq-some (some k) key e = ap some (bytes_eq→eq k key e)

module _ {J : Type 0} (host : Host J) (get_json : Request → Result CliError J)
    (trust : ServerTrust J) where
  -- The attestation holds the two keys, and commits to the pair of them.
  pub record KeysHeld (attestation : J) (keys : RecipientWrapKeys) : Type 0 where
    pub ec_text : Bytes
    pub ek : Bytes
    pub ek_text : Bytes
    pub rfp : Bytes
    pub ec_given : str_at host.reader attestation "subject_kem_pubkey" ≡ some ec_text
    pub ec_read : host.decode64 ec_text ≡ some (keys.rk_ec)
    pub hybrid : keys.rk_pq ≡ some ek
    pub ek_given : str_at host.reader attestation "subject_kem_pq_pubkey" ≡ some ek_text
    pub ek_read : host.decode64 ek_text ≡ some ek
    pub committed : str_at host.reader attestation "rfp" ≡ some rfp
    pub commitment : hybrid_rfp host.sha256 host.hex host.curve (keys.rk_ec) ek ≡ ok rfp

  rfp_committed :
      (o : Option Bytes) (rfp : Bytes) {u : Unit {0}} → check_rfp host o rfp ≡ ok u → o ≡ some rfp
  rfp_committed none rfp e = absurd (ground arith)
  rfp_committed (some committed) rfp e = ap some (bytes_eq→eq committed rfp (ground arith))

  -- The attestation that a bundle names: active, of an account and a handle, signed by the server with
  -- its receipts, and holding the two keys, to which its commitment is made.
  pub record Attested (bundle : J) (account_id handle : Bytes) (keys : RecipientWrapKeys)
      : Type 0 where
    pub attestation_id : Bytes
    pub response : J
    pub attestation : J
    pub names_attestation : str_at host.reader bundle "attestation_id" ≡ some attestation_id
    pub asked : get_json (verification attestation_id) ≡ ok response
    pub signed : Signed host get_json trust response attestation
    pub receipted :
        Receipted host get_json trust response attestation
          (signed.dual.server_pub)
          (signed.dual.pq_vk)
    pub active : str_at host.reader attestation "status" ≡ some word_active
    pub subject : Bytes
    pub subject_account : str_at host.reader attestation "subject_account_id" ≡ some subject
    pub same_account : eq_ignore_ascii_case subject account_id ≡ true
    pub subject_handle : str_at host.reader attestation "subject_handle" ≡ some handle
    pub keys_held : KeysHeld attestation keys

  subject_checked :
      (attestation : J) (account_id handle : Bytes) {u : Unit {0}}
      → check_subject host attestation account_id handle ≡ ok u
      → (subject : Bytes) × (str_at host.reader attestation "status" ≡ some word_active)
        × (str_at host.reader attestation "subject_account_id" ≡ some subject)
        × (eq_ignore_ascii_case subject account_id ≡ true)
        × (str_at host.reader attestation "subject_handle" ≡ some handle)
  unfolding check_subject
  subject_checked attestation account_id handle e =
      let (u₀, h₀, e₀) = bind_ok (check_status (str_at host.reader attestation "status")) _ e in
      let (subject, h₁, e₁) =
        bind_ok
          (ok_or (str_at host.reader attestation "subject_account_id")
            (invalid_data "attestation missing subject_account_id"))
          _ e₀ in
      let (same, e₂) =
        then_ok (not (eq_ignore_ascii_case subject account_id))
          (transparency_violation "attestation subject is a DIFFERENT account") _ e₁ in
      let (found, h₃, e₃) =
        bind_ok
          (ok_or (str_at host.reader attestation "subject_handle")
            (transparency_violation "attestation carries no subject_handle"))
          _ e₂ in
      let same_handle : found ≡ handle = bytes_eq→eq found handle (ground arith) in
      (
        subject,
        active_only (str_at host.reader attestation "status") h₀,
        ok_or_ok _ _ h₁,
        ground arith,
        ok_or_ok _ _ h₃ ∙ ap some same_handle,
      )

  check_attested_keys-KeysHeld :
      (attestation : J) (keys : RecipientWrapKeys) {u : Unit {0}}
      → check_attested_keys host attestation keys ≡ ok u
      → KeysHeld attestation keys
  unfolding check_attested_keys decode_b64
  check_attested_keys-KeysHeld attestation keys e =
      let (kem, h₀, e₀) = bind_ok (decode_b64 host attestation "subject_kem_pubkey") _ e in
      let (text, h₁, e₁) =
        bind_ok
          (ok_or (str_at host.reader attestation "subject_kem_pq_pubkey")
            (transparency_violation "attestation carries no ML-KEM key"))
          _ e₀ in
      let (ek, h₂, e₂) =
        bind_ok (ok_or (host.decode64 text) (invalid_data "attested ML-KEM key base64url")) _ e₁ in
      let (rfp, h₃, e₃) =
        bind_ok
          (map_err (λ e. invalid_data "attested KEM keys non-canonical")
            (hybrid_rfp host.sha256 host.hex host.curve kem ek))
          _ e₂ in
      let (u₄, h₄, e₄) = bind_ok (check_rfp host (str_at host.reader attestation "rfp") rfp) _ e₃ in
      let both : (bytes_eq (keys.rk_ec) kem ≡ true) × (same_pq (keys.rk_pq) ek ≡ true) =
        (ground arith, ground arith) in
      let same_ec : keys.rk_ec ≡ kem = bytes_eq→eq (keys.rk_ec) kem (both.0) in
      let same_pair : keys.rk_pq ≡ some ek = same_pq-some (keys.rk_pq) ek (both.1) in
      let (ec_text, g₀, g₁) =
        bind_ok
          (ok_or (str_at host.reader attestation "subject_kem_pubkey") (invalid_data "missing {}"))
          _ h₀ in
      record {
        ec_text = ec_text;
        ek = ek;
        ek_text = text;
        rfp = rfp;
        ec_given = ok_or_ok _ _ g₀;
        ec_read = ok_or_ok _ _ g₁ ∙ ap some (sym same_ec);
        hybrid = same_pair;
        ek_given = ok_or_ok _ _ h₁;
        ek_read = ok_or_ok _ _ h₂;
        committed = rfp_committed (str_at host.reader attestation "rfp") rfp h₄;
        commitment =
            ap (λ k. hybrid_rfp host.sha256 host.hex host.curve k ek) same_ec ∙ map_err_ok _ _ h₃;
      }

  pub attested :
      (bundle : J) (keys : RecipientWrapKeys) (account_id handle : Bytes) {u : Unit {0}}
      → verify_against_attestation host get_json trust bundle keys account_id handle ≡ ok u
      → Attested bundle account_id handle keys
  unfolding verify_against_attestation
  attested bundle keys account_id handle e =
      let (id, h₀, e₀) =
        bind_ok
          (ok_or (str_at host.reader bundle "attestation_id")
            (transparency_violation "is a PRSN but its bundle names no attestation"))
          _ e in
      let (response, h₁, e₁) = bind_ok (get_json (verification id)) _ e₀ in
      let (attestation, h₂, e₂) =
        bind_ok (verify_verification_response host get_json trust response) _ e₁ in
      let (u₃, h₃, e₃) = bind_ok (check_subject host attestation account_id handle) _ e₂ in
      let (signed, receipted) = response-Signed host get_json trust response h₂ in
      let (subject, active, subject_account, same_account, subject_handle) =
        subject_checked attestation account_id handle h₃ in
      record {
        attestation_id = id;
        response = response;
        attestation = attestation;
        names_attestation = ok_or_ok _ _ h₀;
        asked = h₁;
        signed = signed;
        receipted = receipted;
        active = active;
        subject = subject;
        subject_account = subject_account;
        same_account = same_account;
        subject_handle = subject_handle;
        keys_held = check_attested_keys-KeysHeld attestation keys e₃;
      }
