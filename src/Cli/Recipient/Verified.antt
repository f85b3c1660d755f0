-- ===== src/Cli/Recipient/Verified.antt =====
-- What `verified_wrap_keys` of cli/src/recipient_verify.rs has checked of the keys that it returns.
use signet_drive.Base.{◌≡◌, refl, ap, arith, sym, ◌∙◌, Bytes, Option, none, some}
use signet_drive.Base.{ℕ, bytes_eq→eq, subst, ◌∷◌, ◌++◌}
use signet_drive.Base.Ints.{ℤ}
use signet_drive.Base.Results.{Result, ok, bind_ok, ok_inj, ok_or_ok, map_err_ok}
use signet_drive.Base.Results.{ok_or, map_err}
use signet_drive.Crypto.Token.{verify_es256}
use signet_drive.Cli.{CliError, invalid_data, signature_refused, str_at}
use signet_drive.Cli.Recipient.{Host}
use signet_drive.Cli.Recipient.Words.{word_active}
use signet_drive.Cli.Recipient.Words.{server_verify_mldsa_ctx, verify_prefix}
use signet_drive.Cli.Recipient.Keys.{ServerKey, PqKey, key_by_id-ServerKey, pq_key_for-PqKey}
use signet_drive.Cli.Recipient.Signatures.{
  Es256Valid, verify_es256-Es256Valid, MlDsaValid, verify_mldsa87-MlDsaValid,
}
use signet_drive.Cli.Recipient.Binds.{BindingIn, chosen, index_under-BindingIn}
use signet_drive.Cli.Recipient.Receipts.{ReceiptSet, verify_inline_receipts-ReceiptSet}
use signet_drive.Cli.Recipient.Receipt.{AccountBinding, attested}
use signet_drive.Cli.Recipient.Receipt.{verify_mldsa87}
use signet_drive.Cli.Recipient.Trust.{ServerTrust, Request, server_info}
use signet_drive.Cli.Recipient.Trust.{index_for, key_by_id}
use signet_drive.Cli.Recipient.Trust.{verification_signing_input, pq_key_for, verify_dual}
use signet_drive.Cli.Recipient.Trust.{verify_receipt_set, verify_verification_response}
use signet_drive.Cli.Recipient.Trust.{require_verified}
use signet_drive.Cli.Recipient.Receipt.{Inline, absent, verified, partial, verify_inline_receipts}
use signet_drive.Cli.Recipient.Trust.{binding_of}
use signet_drive.Cli.{and_then}
use signet_drive.Cli.Recipient.Resolve.{check_status}

pub active_only :
    (status : Option Bytes) {u : Unit {0}} → check_status status ≡ ok u → status ≡ some word_active
active_only none e = absurd (ground arith)
active_only (some s) e = ground (arith, bytes_eq→eq s word_active)

module _ {J : Type 0} (host : Host J) (get_json : Request → Result CliError J)
    (trust : ServerTrust J) where
  -- What the server signs for an attestation: its canonical bytes, the id of the key and the time.
  abbrev signed_bytes : Bytes → Bytes → ℤ → Bytes
  signed_bytes canonical key_id signed_at =
      verify_prefix ++ (canonical ++ (10 ∷ (key_id ++ (10 ∷ host.i64_to_string signed_at))))

  -- An attestation that is signed, with the id of the server's key and the time, under that key and
  -- under the server's ML-DSA-87 key.
  pub record Dual (response attestation : J) (key_id : Bytes) (signed_at : ℤ) (signature : Bytes)
      : Type 0 where
    pub canonical : Bytes
    pub server_pub : Bytes
    pub pq_vk : Bytes
    pub pq_text : Bytes
    pub pq_signature : Bytes
    pub canonical_bytes : host.to_canonical_bytes attestation ≡ ok canonical
    pub own_key : ServerKey host get_json trust (server_info key_id) key_id server_pub
    pub es256 : Es256Valid host.p256 server_pub (signed_bytes canonical key_id signed_at) signature
    pub own_pq_key :
        PqKey host get_json trust (str_at host.reader response "server_pq_key_id") pq_vk
    pub pq_given : str_at host.reader response "server_signature_mldsa87" ≡ some pq_text
    pub pq_decoded : host.decode64 pq_text ≡ some pq_signature
    pub ml_dsa :
        MlDsaValid host pq_vk
          (signed_bytes canonical key_id signed_at)
          server_verify_mldsa_ctx
          pq_signature

  -- The attestation that a response holds, with both signatures of the response.
  pub record Signed (response attestation : J) : Type 0 where
    pub key_id : Bytes
    pub signed_at : ℤ
    pub text : Bytes
    pub signature : Bytes
    pub names_key : str_at host.reader response "server_key_id" ≡ some key_id
    pub states_time :
        and_then (host.reader.get response "signed_at") host.reader.as_i64 ≡ some signed_at
    pub holds : host.reader.get response "attestation" ≡ some attestation
    pub given : str_at host.reader response "server_signature" ≡ some text
    pub decoded : host.decode64 text ≡ some signature
    pub dual : Dual response attestation key_id signed_at signature

  verify_dual-Dual :
      (response attestation : J) (key_id : Bytes) (signed_at : ℤ) (signature : Bytes)
      {keys : Bytes × Bytes}
      → verify_dual host get_json trust response attestation key_id signed_at signature ≡ ok keys
      → (s : Dual response attestation key_id signed_at signature) × (keys
          ≡ (s.server_pub, s.pq_vk))
  unfolding verify_dual verification_signing_input
  verify_dual-Dual response attestation key_id signed_at signature e =
      let (input, h₀, e₀) =
        bind_ok
          (map_err (λ e. invalid_data "verification canonical bytes")
            (verification_signing_input host attestation key_id signed_at))
          _ e in
      let (canonical, c₀, c₁) =
        bind_ok (host.to_canonical_bytes attestation) _ (map_err_ok _ _ h₀) in
      let same : input ≡ signed_bytes canonical key_id signed_at = sym (ok_inj c₁) in
      let (server_pub, h₁, e₁) =
        bind_ok (key_by_id host get_json trust (server_info key_id) key_id) _ e₀ in
      let (u₂, h₂, e₂) =
        bind_ok
          (map_err (λ e. signature_refused "server signature does not verify")
            (verify_es256 host.p256 server_pub input signature))
          _ e₁ in
      let (pq_vk, h₃, e₃) =
        bind_ok (pq_key_for host get_json trust (str_at host.reader response "server_pq_key_id")) _
          e₂ in
      let (b64, h₄, e₄) =
        bind_ok
          (ok_or (str_at host.reader response "server_signature_mldsa87")
            (signature_refused "ES256-only verification response rejected"))
          _ e₃ in
      let (pq_sig, h₅, e₅) =
        bind_ok (ok_or (host.decode64 b64) (invalid_data "server_signature_mldsa87 base64url")) _
          e₄ in
      let (u₆, h₆, e₆) =
        bind_ok (verify_mldsa87 host pq_vk input server_verify_mldsa_ctx pq_sig) _ e₅ in
      (
        record {
          canonical = canonical;
          server_pub = server_pub;
          pq_vk = pq_vk;
          pq_text = b64;
          pq_signature = pq_sig;
          canonical_bytes = c₀;
          own_key = key_by_id-ServerKey host get_json trust (server_info key_id) key_id h₁;
          es256 =
              subst (λ m. Es256Valid host.p256 server_pub m signature) same
                (verify_es256-Es256Valid host.p256 server_pub input signature (map_err_ok _ _ h₂));
          own_pq_key =
              pq_key_for-PqKey host get_json trust (str_at host.reader response "server_pq_key_id")
                h₃;
          pq_given = ok_or_ok _ _ h₄;
          pq_decoded = ok_or_ok _ _ h₅;
          ml_dsa =
              subst (λ m. MlDsaValid host pq_vk m server_verify_mldsa_ctx pq_sig) same
                (verify_mldsa87-MlDsaValid host pq_vk input server_verify_mldsa_ctx pq_sig h₆);
        },
        sym (ok_inj e₆),
      )

  -- The receipts of a response, bound to the attestation's account.
  pub record Receipted (response attestation : J) (server_pub pq_vk : Bytes) : Type 0 where
    pub subject : Bytes
    pub names_subject : str_at host.reader attestation "subject_account_id" ≡ some subject
    pub binding : AccountBinding
    pub binds :
        BindingIn host.vrf host.ids
          (trust.mode)
          attested
          subject
          (str_at host.reader attestation "subject_account_vrf_proof")
          binding
    pub receipts : ReceiptSet host response attestation server_pub pq_vk binding (trust.epoch)

  binding_of-chosen :
      (index : Option (ℕ × Bytes)) → binding_of host get_json index ≡ chosen attested index
  binding_of-chosen none = refl
  binding_of-chosen (some i) = refl

  only_verified :
      (t : Inline) (attestation : J) {found : J}
      → require_verified host get_json t attestation ≡ ok found
      → (t ≡ verified) × (found ≡ attestation)
  only_verified verified attestation e = (refl, sym (ok_inj e))
  only_verified absent attestation e = absurd (ground arith)
  only_verified partial attestation e = absurd (ground arith)

  verify_receipt_set-Receipted :
      (response attestation : J) (server_pub pq_vk : Bytes) {found : J}
      → verify_receipt_set host get_json trust response attestation server_pub pq_vk ≡ ok found
      → (found ≡ attestation) × Receipted response attestation server_pub pq_vk
  unfolding verify_receipt_set index_for
  verify_receipt_set-Receipted response attestation server_pub pq_vk e =
      let (subject, h₀, e₀) =
        bind_ok
          (ok_or (str_at host.reader attestation "subject_account_id")
            (invalid_data "attestation missing subject_account_id"))
          _ e in
      let proof : Option Bytes = str_at host.reader attestation "subject_account_vrf_proof" in
      let (index, h₁, e₁) = bind_ok (index_for host trust subject proof) _ e₀ in
      let (t, h₂, e₂) =
        bind_ok
          (verify_inline_receipts host response attestation server_pub (some pq_vk)
            (binding_of host get_json index) (some (trust.epoch)))
          _ e₁ in
      let (whole, same) = only_verified t attestation e₂ in
      (
        same,
        record {
          subject = subject;
          names_subject = ok_or_ok _ _ h₀;
          binding = binding_of host get_json index;
          binds =
              subst (BindingIn host.vrf host.ids (trust.mode) attested subject proof)
                (sym (binding_of-chosen index))
                (index_under-BindingIn host.vrf host.ids (trust.mode) attested subject proof h₁);
          receipts =
              verify_inline_receipts-ReceiptSet host response attestation server_pub pq_vk
                (binding_of host get_json index) (trust.epoch) (h₂ ∙ ap ok whole);
        },
      )

  pub response-Signed :
      (response : J) {attestation : J}
      → verify_verification_response host get_json trust response ≡ ok attestation
      → (s : Signed response attestation) × Receipted response attestation
          (s.dual.server_pub)
          (s.dual.pq_vk)
  unfolding verify_verification_response
  response-Signed response {attestation} e =
      let (key_id, h₀, e₀) =
        bind_ok
          (ok_or (str_at host.reader response "server_key_id")
            (invalid_data "response missing server_key_id"))
          _ e in
      let (signed_at, h₁, e₁) =
        bind_ok
          (ok_or (and_then (host.reader.get response "signed_at") host.reader.as_i64)
            (invalid_data "response missing signed_at"))
          _ e₀ in
      let (found, h₂, e₂) =
        bind_ok
          (ok_or (host.reader.get response "attestation")
            (invalid_data "response missing attestation"))
          _ e₁ in
      let (b64, h₃, e₃) =
        bind_ok
          (ok_or (str_at host.reader response "server_signature")
            (invalid_data "response missing server_signature"))
          _ e₂ in
      let (signature, h₄, e₄) =
        bind_ok (ok_or (host.decode64 b64) (invalid_data "server_signature base64url")) _ e₃ in
      let (keys, h₅, e₅) =
        bind_ok (verify_dual host get_json trust response found key_id signed_at signature) _ e₄ in
      let (d, q) = verify_dual-Dual response found key_id signed_at signature h₅ in
      let (same, receipted) = verify_receipt_set-Receipted response found (keys.0) (keys.1) e₅ in
      rw same (
        record {
          key_id = key_id;
          signed_at = signed_at;
          text = b64;
          signature = signature;
          names_key = ok_or_ok _ _ h₀;
          states_time = ok_or_ok _ _ h₁;
          holds = ok_or_ok _ _ h₂;
          given = ok_or_ok _ _ h₃;
          decoded = ok_or_ok _ _ h₄;
          dual = d;
        },
        subst (λ (k : Bytes × Bytes). Receipted response found (k.0) (k.1)) q receipted,
      )
