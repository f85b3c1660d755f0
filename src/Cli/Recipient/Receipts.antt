-- ===== src/Cli/Recipient/Receipts.antt =====
-- What the receipts that cli/src/commands.rs accepts say.
use Prim.Native.String.{String}
use signet_drive.Base.{ℕ, suc, ◌+◌, ◌≡◌, refl, ap, arith, ◌∙◌, Bytes, Option, none}
use signet_drive.Base.{some, not, ◌==◌, ◌⊎◌, inl, inr, bytes_eq, bytes_eq→eq, Bool-cases}
use signet_drive.Base.{if◌then◌else◌}
use signet_drive.Base.Results.{Result, ok, bind_ok, then_ok, ok_inj, ok_or_ok, ok_or}
use signet_drive.Cli.{CliError, invalid_data, transparency_violation, str_at}
use signet_drive.Cli.Anchors.Index.{check_receipt_epoch}
use signet_drive.Cli.Recipient.{Host}
use signet_drive.Cli.Recipient.Words.{word_kem, word_kem_pq, word_signing, word_signing_pq}
use signet_drive.Cli.Recipient.Keys.{is_str-some}
use signet_drive.Cli.Recipient.Signatures.{ReceiptSigned, verify_receipt_signatures-ReceiptSigned}
use signet_drive.Cli.Recipient.Binds.{BoundTo, check_binding-BoundTo, NamesEpoch}
use signet_drive.Cli.Recipient.Binds.{check_epoch-NamesEpoch}
use signet_drive.Cli.Recipient.Receipt.{AccountBinding, is_str, present, check_binding}
use signet_drive.Cli.Recipient.Receipt.{verify_receipt_signatures, verify_one_receipt}
use signet_drive.Cli.Recipient.Receipt.{
  verify_present, inline_step, inline_count, verify_inline_receipts, verified,
}
use signet_drive.Cli.Recipient.Receipt.{Inline, absent, partial}

full_count :
    (count expected : ℕ)
    → ◌≡◌ {A = Result CliError Inline}
        (if count == 0 then ok absent else if count == expected then ok verified else ok partial)
        (ok verified)
    → count ≡ expected
full_count count expected e = elim (Bool-cases (count == 0)) [
  | inl empty ↦ absurd (ground arith)
  | inr some_held ↦ elim (Bool-cases (count == expected)) [
    | inl same ↦ ground arith
    | inr other ↦ absurd (ground arith)
  ]
]

module _ {J : Type 0} (host : Host J) where
  -- A receipt of a fingerprint and a purpose, bound as it was asked for, and signed by the server.
  pub record ReceiptOf (receipt : J) (binding : AccountBinding)
      (fp purpose server_pub pq_vk : Bytes) : Type 0 where
    pub names_key : str_at host.reader receipt "public_key_fingerprint" ≡ some fp
    pub names_purpose : str_at host.reader receipt "key_purpose" ≡ some purpose
    pub bound : BoundTo host receipt binding
    pub signed : ReceiptSigned host receipt server_pub pq_vk

  pub verify_one_receipt-ReceiptOf :
      (receipt : J) (fp : Bytes) (binding : AccountBinding) (purpose server_pub pq_vk : Bytes)
      {u : Unit {0}}
      → verify_one_receipt host receipt fp binding purpose server_pub (some pq_vk) ≡ ok u
      → ReceiptOf receipt binding fp purpose server_pub pq_vk
  unfolding verify_one_receipt
  verify_one_receipt-ReceiptOf receipt fp binding purpose server_pub pq_vk e =
      let (found, h₀, e₀) =
        bind_ok
          (ok_or (str_at host.reader receipt "public_key_fingerprint")
            (transparency_violation "receipt missing public_key_fingerprint"))
          _ e in
      let (same, e₁) =
        then_ok (not (bytes_eq found fp))
          (transparency_violation "receipt fingerprint does not match the asserted public key") _
          e₀ in
      let (u₂, h₂, e₂) = bind_ok (check_binding host receipt binding) _ e₁ in
      let (purposed, e₃) =
        then_ok (not (is_str (str_at host.reader receipt "key_purpose") purpose))
          (transparency_violation "receipt has an unexpected key_purpose")
          (verify_receipt_signatures host receipt server_pub (some pq_vk)) e₂ in
      record {
        names_key = ok_or_ok _ _ h₀ ∙ ap some (bytes_eq→eq found fp (ground arith));
        names_purpose =
            is_str-some (str_at host.reader receipt "key_purpose") purpose (ground arith);
        bound = check_binding-BoundTo host receipt binding h₂;
        signed = verify_receipt_signatures-ReceiptSigned host receipt server_pub pq_vk e₃;
      }

  module _ (response attestation : J) (server_pub pq_vk : Bytes) (binding : AccountBinding)
      (epoch : ℕ) where
    -- A receipt in the response, for the fingerprint that the attestation states.
    pub record Held (field fp_field : String) (purpose : Bytes) : Type 0 where
      pub receipt : J
      pub fp : Bytes
      pub given : host.reader.get response field ≡ some receipt
      pub names_epoch : NamesEpoch host.reader receipt epoch
      pub states : str_at host.reader attestation fp_field ≡ some fp
      pub valid : ReceiptOf receipt binding fp purpose server_pub pq_vk

    -- The response has no receipt there, or a valid one.
    abbrev pub Slot : String → String → Bytes → Type 0
    Slot field fp_field purpose =
        (host.reader.get response field ≡ none) ⊎ Held field fp_field purpose

    abbrev pub receipt_count :
        {field fp_field : String} {purpose : Bytes} → Slot field fp_field purpose → ℕ
    receipt_count (inl missing) = 0
    receipt_count (inr held) = 1

    inline_step-Slot :
        (field fp_field : String) (purpose : Bytes) (o : Option J) (count : ℕ) {n : ℕ}
        → host.reader.get response field ≡ o
        → inline_step host response attestation server_pub
            (some pq_vk)
            binding
            (some epoch)
            o
            fp_field
            purpose
            count
          ≡ ok n
        → (slot : Slot field fp_field purpose) × (n ≡ count + receipt_count slot)
    unfolding check_receipt_epoch
    inline_step-Slot field fp_field purpose none count given e =
        (inl given, omega (arith, ok_inj e))
    inline_step-Slot field fp_field purpose (some receipt) count given e =
        let (u₀, h₀, e₀) =
          bind_ok
            (verify_present host response attestation server_pub (some pq_vk) binding (some epoch)
              receipt fp_field purpose)
            (λ u. ok (suc count)) e in
        let (u₁, h₁, e₁) = bind_ok (check_receipt_epoch host.reader receipt epoch) _ h₀ in
        let (fp, h₂, e₂) =
          bind_ok
            (ok_or (str_at host.reader attestation fp_field)
              (invalid_data "attestation missing the fingerprint"))
            _ e₁ in
        (
          inr (record {
            receipt = receipt;
            fp = fp;
            given = given;
            names_epoch = check_epoch-NamesEpoch host.reader receipt epoch _ h₁;
            states = ok_or_ok _ _ h₂;
            valid = verify_one_receipt-ReceiptOf receipt fp binding purpose server_pub pq_vk e₂;
          }),
          omega (arith, ok_inj e₀),
        )

    -- What the receipts of a response come to: each that is there is valid, and there are four, or two
    -- where the attestation states no fingerprint of an ML-DSA signing key.
    pub record ReceiptSet : Type 0 where
      pub signing :
          Slot "subject_signing_pubkey_receipt" "subject_signing_pubkey_fingerprint" word_signing
      pub kem : Slot "subject_kem_pubkey_receipt" "subject_kem_pubkey_fingerprint" word_kem
      pub signing_pq :
          Slot "subject_signing_pq_pubkey_receipt" "subject_signing_pq_pubkey_fingerprint"
            word_signing_pq
      pub kem_pq :
          Slot "subject_kem_pq_pubkey_receipt" "subject_kem_pq_pubkey_fingerprint" word_kem_pq
      pub complete :
          receipt_count signing
            + receipt_count kem
            + receipt_count signing_pq
            + receipt_count kem_pq
          ≡ (if present (host.reader.get attestation "subject_signing_pq_pubkey_fingerprint")
              then 4
              else 2)

    pub verify_inline_receipts-ReceiptSet :
        verify_inline_receipts host response attestation server_pub
            (some pq_vk)
            binding
            (some epoch)
          ≡ ok verified
        → ReceiptSet
    unfolding verify_inline_receipts inline_count
    verify_inline_receipts-ReceiptSet e =
        let expected : ℕ =
          if present (host.reader.get attestation "subject_signing_pq_pubkey_fingerprint")
          then 4
          else 2 in
        let (count, h₀, e₀) =
          bind_ok
            (inline_count host response attestation server_pub (some pq_vk) binding (some epoch)) _
            e in
        let full : count ≡ expected = full_count count expected e₀ in
        let (a, h₁, e₁) =
          bind_ok
            (inline_step host response attestation server_pub (some pq_vk) binding (some epoch)
              (host.reader.get response "subject_signing_pubkey_receipt")
              "subject_signing_pubkey_fingerprint" word_signing 0)
            _ h₀ in
        let (b, h₂, e₂) =
          bind_ok
            (inline_step host response attestation server_pub (some pq_vk) binding (some epoch)
              (host.reader.get response "subject_kem_pubkey_receipt")
              "subject_kem_pubkey_fingerprint" word_kem a)
            _ e₁ in
        let (c, h₃, e₃) =
          bind_ok
            (inline_step host response attestation server_pub (some pq_vk) binding (some epoch)
              (host.reader.get response "subject_signing_pq_pubkey_receipt")
              "subject_signing_pq_pubkey_fingerprint" word_signing_pq b)
            _ e₂ in
        let (signing, n₁) = inline_step-Slot _ _ word_signing _ 0 refl h₁ in
        let (kem, n₂) = inline_step-Slot _ _ word_kem _ a refl h₂ in
        let (signing_pq, n₃) = inline_step-Slot _ _ word_signing_pq _ b refl h₃ in
        let (kem_pq, n₄) = inline_step-Slot _ _ word_kem_pq _ c refl e₃ in
        record {
          signing = signing;
          kem = kem;
          signing_pq = signing_pq;
          kem_pq = kem_pq;
          complete = omega (arith, n₁, n₂, n₃, n₄, full);
        }
