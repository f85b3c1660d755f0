-- ===== src/Cli/Recipient/Logged.antt =====
-- The verified source of a human's keys in cli/src/recipient_verify.rs: the log receipts of both halves.
use signet_drive.Base.{◌≡◌, Bytes, Option, none, some}
use signet_drive.Base.{ℕ, if◌then◌else◌}
use signet_drive.Base.Results.{Result, ok, bind_ok, ok_or_ok}
use signet_drive.Base.Results.{ok_or, map_err, map_err_ok}
use signet_drive.Cli.{CliError, invalid_data, transparency_violation, str_at}
use signet_drive.Cli.Recipient.{Host}
use signet_drive.Cli.Recipient.Words.{word_kem, word_kem_pq}
use signet_drive.Cli.Recipient.Receipt.{AccountBinding}
use signet_drive.Cli.Recipient.Trust.{ServerTrust, Request, log_receipt}
use signet_drive.Cli.Recipient.Trust.{server_info_receipt, active_pq_key, index_for, key_by_id}
use signet_drive.Cli.Recipient.Resolve.{receipt_binding, verify_half}
use signet_drive.Cli.Recipient.Resolve.{verify_against_receipts}
use signet_drive.Base.{refl, sym, subst}
use signet_drive.Cli.Recipient.Keys.{
  ServerKey, ActivePqKey, key_by_id-ServerKey, active_pq_key-Active,
}
use signet_drive.Cli.Recipient.Binds.{BindingIn, chosen, index_under-BindingIn}
use signet_drive.Cli.Recipient.Receipts.{ReceiptOf, verify_one_receipt-ReceiptOf}
use signet_drive.Cli.Recipient.Receipt.{by_account_id}

module _ {J : Type 0} (host : Host J) (get_json : Request → Result CliError J)
    (trust : ServerTrust J) where
  -- The log's receipt for a fingerprint and a purpose in the anchored epoch: bound to the account, and
  -- signed under a key of the server that it names, and under the server's active ML-DSA-87 key where
  -- it names one.
  pub record Logged (binding : AccountBinding) (fp purpose : Bytes) : Type 0 where
    pub receipt : J
    pub key_id : Bytes
    pub server_pub : Bytes
    pub pq_vk : Bytes
    pub asked : get_json (log_receipt fp purpose (trust.epoch)) ≡ ok receipt
    pub names_signer : str_at host.reader receipt "server_key_id" ≡ some key_id
    pub own_key :
        ServerKey host get_json trust (server_info_receipt purpose key_id) key_id server_pub
    pub own_pq_key : ActivePqKey host trust pq_vk
    pub valid : ReceiptOf host receipt binding fp purpose server_pub pq_vk

  verify_half-Logged :
      (binding : AccountBinding) (pq_vk fp purpose : Bytes) {u : Unit {0}}
      → active_pq_key host trust ≡ ok pq_vk
      → verify_half host get_json trust binding pq_vk fp purpose ≡ ok u
      → Logged binding fp purpose
  unfolding verify_half
  verify_half-Logged binding pq_vk fp purpose own e =
      let (receipt, h₀, e₀) =
        bind_ok
          (map_err
            (λ e.
              if e.epoch_moved then e else transparency_violation "no verifiable {} log receipt")
            (get_json (log_receipt fp purpose (trust.epoch))))
          _ e in
      let (key_id, h₁, e₁) =
        bind_ok
          (ok_or (str_at host.reader receipt "server_key_id")
            (transparency_violation "receipt missing server_key_id"))
          _ e₀ in
      let (server_pub, h₂, e₂) =
        bind_ok (key_by_id host get_json trust (server_info_receipt purpose key_id) key_id) _ e₁ in
      record {
        receipt = receipt;
        key_id = key_id;
        server_pub = server_pub;
        pq_vk = pq_vk;
        asked = map_err_ok _ _ h₀;
        names_signer = ok_or_ok _ _ h₁;
        own_key =
            key_by_id-ServerKey host get_json trust (server_info_receipt purpose key_id) key_id h₂;
        own_pq_key = active_pq_key-Active host trust own;
        valid = verify_one_receipt-ReceiptOf host receipt fp binding purpose server_pub pq_vk e₂;
      }

  receipt_binding-chosen :
      (account_id : Bytes) (index : Option (ℕ × Bytes))
      → receipt_binding host get_json trust account_id index
        ≡ chosen (by_account_id account_id) index
  receipt_binding-chosen account_id none = refl
  receipt_binding-chosen account_id (some i) = refl

  -- Both halves of a human's pair are logged under the account.
  pub record LoggedPair (bundle : J) (account_id : Bytes) (proof : Option Bytes) : Type 0 where
    pub binding : AccountBinding
    pub binds :
        BindingIn host.vrf host.ids (trust.mode) (by_account_id account_id) account_id proof binding
    pub fp_ec : Bytes
    pub fp_pq : Bytes
    pub states_ec : str_at host.reader bundle "kem_pubkey_fingerprint" ≡ some fp_ec
    pub states_pq : str_at host.reader bundle "kem_pq_pubkey_fingerprint" ≡ some fp_pq
    pub ec : Logged binding fp_ec word_kem
    pub pq : Logged binding fp_pq word_kem_pq

  pub logged_pair :
      (bundle : J) (account_id : Bytes) (proof : Option Bytes) {u : Unit {0}}
      → verify_against_receipts host get_json trust bundle account_id proof ≡ ok u
      → LoggedPair bundle account_id proof
  unfolding verify_against_receipts index_for
  logged_pair bundle account_id proof e =
      let (own_index, h₀, e₀) = bind_ok (index_for host trust account_id proof) _ e in
      let (fp_ec, h₁, e₁) =
        bind_ok
          (ok_or (str_at host.reader bundle "kem_pubkey_fingerprint")
            (invalid_data "bundle missing KEM fingerprint"))
          _ e₀ in
      let (fp_pq, h₂, e₂) =
        bind_ok
          (ok_or (str_at host.reader bundle "kem_pq_pubkey_fingerprint")
            (invalid_data "bundle missing ML-KEM fingerprint"))
          _ e₁ in
      let (pq_vk, h₃, e₃) = bind_ok (active_pq_key host trust) _ e₂ in
      let binding : AccountBinding = receipt_binding host get_json trust account_id own_index in
      let (u₄, h₄, e₄) =
        bind_ok (verify_half host get_json trust binding pq_vk fp_ec word_kem) _ e₃ in
      record {
        binding = binding;
        binds =
            subst
              (BindingIn host.vrf host.ids (trust.mode) (by_account_id account_id) account_id proof)
              (sym (receipt_binding-chosen account_id own_index))
              (index_under-BindingIn host.vrf host.ids (trust.mode) (by_account_id account_id)
                account_id proof h₀);
        fp_ec = fp_ec;
        fp_pq = fp_pq;
        states_ec = ok_or_ok _ _ h₁;
        states_pq = ok_or_ok _ _ h₂;
        ec = verify_half-Logged binding pq_vk fp_ec word_kem h₃ h₄;
        pq = verify_half-Logged binding pq_vk fp_pq word_kem_pq h₃ e₄;
      }
